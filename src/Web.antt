-- ===== src/Web.antt =====
-- internal/web/web.go. The templates are data of the program; a page is modelled by the values that
-- it is rendered from.
pub mod Digits
pub mod Content
pub mod Agreement
pub mod Numerals
use slashclaw.Prelude.{
  ℕ, zero, suc, ◌/◌, ◌%◌, String, Bool, ◌||◌, List, ℤ, pos, negsuc, eq_ℤ, ltb, ◌==◌, if◌then◌else◌,
  not,
}
use slashclaw.Strings.{cat}
use slashclaw.Env.{Env}
use slashclaw.Exec.{Exec, pure, or_fail, fail_if, on_err, ◌>>=◌, ◌>>◌}
use slashclaw.Config.{Config}
use slashclaw.Store.Models.{Story, SortOrder, top, new, discussed, ListOptions, tree}
use slashclaw.Store.Sql.{Error}
use slashclaw.Store.Stories.{get_story, list_stories}
use slashclaw.Store.Tree.{CommentList, list_comments}
use slashclaw.Api.Http.{Request}

pub data Page : Type 0 where
  not_found internal_server_error : Page
  home_json : List Story → (sort : String) → Page
  home_html : List Story → (sort base_url : String) → Page
  story_json : Story → CommentList → Page
  story_html : Story → CommentList → (base_url : String) → Page
  submit_json : (min_title max_title max_tags : ℕ) → Page
  submit_html : (base_url : String) → Page

unfoldable pub wants_json : Request → Bool
wants_json r = r.accept == "application/json" || r.query_format == "json"

unfoldable pub sort_name : String → String
sort_name s = if s == "new" then "new" else if s == "discussed" then "discussed" else "top"

unfoldable pub sort_order : String → SortOrder
sort_order s = if s == "new" then new else if s == "discussed" then discussed else top

abbrev pub server_error : Error → Page
server_error e = internal_server_error

module _ (env : Env) (cfg : Config) where
  unfoldable pub home : Request → Exec Page Page
  unfolding wants_json sort_name sort_order
  home r = do
    fail_if (not (r.path == "/")) not_found
    let opts : ListOptions = record { sort = sort_order r.query_sort; limit = pos 30; cursor = "" }
    found ← on_err server_error (list_stories env opts)
    pure (
        if wants_json r
        then home_json found.0 (sort_name r.query_sort)
        else home_html found.0 (sort_name r.query_sort) cfg.base_url)

  unfoldable pub story_page : Request → Exec Page Page
  unfolding wants_json
  story_page r = do
    fail_if (r.path_id == "") not_found
    found ← on_err server_error (get_story env r.path_id)
    story ← or_fail found not_found
    comments ←
        on_err server_error (list_comments env r.path_id (record { sort = top; view = tree }))
    pure
        (if wants_json r then story_json story comments else story_html story comments cfg.base_url)

  unfoldable pub submit : Request → Exec Page Page
  unfolding wants_json
  submit r = pure (if wants_json r then submit_json 8 180 5 else submit_html cfg.base_url)

-- `strconv.Itoa`: the digits from the right, on fuel
unfoldable pub digit : ℕ → String
digit zero = "0"
digit (suc zero) = "1"
digit (suc (suc zero)) = "2"
digit (suc (suc (suc zero))) = "3"
digit (suc (suc (suc (suc zero)))) = "4"
digit (suc (suc (suc (suc (suc zero))))) = "5"
digit (suc (suc (suc (suc (suc (suc zero)))))) = "6"
digit (suc (suc (suc (suc (suc (suc (suc zero))))))) = "7"
digit (suc (suc (suc (suc (suc (suc (suc (suc zero)))))))) = "8"
digit (suc (suc (suc (suc (suc (suc (suc (suc (suc n))))))))) = "9"

unfoldable pub decimal : ℕ → ℕ → String
unfolding digit
decimal zero n = ""
decimal (suc fuel) n =
    let higher = decimal fuel (n / 10) in if ltb n 10 then digit n else cat higher (digit (n % 10))

unfoldable pub itoa : ℤ → String
unfolding decimal
itoa (pos n) = decimal 20 n
itoa (negsuc n) = cat "-" (decimal 20 (suc n))

unfoldable pub format_score : ℤ → String
unfolding itoa
format_score score =
    if eq_ℤ score (pos 1) || eq_ℤ score (negsuc 0)
    then cat (itoa score) " point"
    else cat (itoa score) " points"
