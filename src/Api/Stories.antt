-- ===== src/Api/Stories.antt =====
-- internal/api/stories.go
use Prim.Native.String.{count}
use slashclaw.Prelude.{
  String, Bool, true, false, not, ◌&&◌, ◌||◌, Option, none, some, List, ℤ, pos, ◌-ℤ◌, quot, ltb,
  ltb_ℤ, leb_ℤ, ◌==◌, length, if◌then◌else◌,
}
use slashclaw.Strings.{atoi}
use slashclaw.Env.{Env}
use slashclaw.Exec.{Exec, pure, fail, or_fail, fail_if, when, on_err, now, ◌>>=◌, ◌>>◌}
use slashclaw.Config.{Config}
use slashclaw.Store.Models.{Story, SortOrder, top, new, discussed, ListOptions, zero_time, second}
use slashclaw.Store.Stories.{
  create_story as store_story, get_story, list_stories, find_story_by_url, get_last_story_by_agent,
}
use slashclaw.Api.Http.{
  Request, Response, Handler, error_response, create_story_response, a_story, list_stories_response,
  write_json, write_error, write_rate_limited, database_error, check_rate_limit, context_agent,
  context_verified,
}

pub record CreateStoryRequest : Type 0 where
  pub title : String
  pub url : String
  pub text : String
  pub tags : List String

abbrev pub has_url : CreateStoryRequest → Bool
has_url req = not (req.url == "")

abbrev pub has_text : CreateStoryRequest → Bool
has_text req = not (req.text == "")

abbrev pub same_bool : Bool → Bool → Bool
same_bool true b = b
same_bool false b = not b

-- the title in characters
unfoldable pub bad_title : CreateStoryRequest → Bool
bad_title req = ltb (count req.title) 8 || ltb 180 (count req.title)

-- the answer if the agent's last story is younger than the cooldown
unfoldable pub check_age : Config → ℤ → Story → Exec Response Unit
check_age cfg time last =
    let elapsed = time -ℤ last.created_at in
    if ltb_ℤ elapsed cfg.post_cooldown
    then fail (
        write_json 429 (
          error_response "please wait before posting again"
            (quot (cfg.post_cooldown -ℤ elapsed) second)))
    else pure tt

-- a duplicate is answered with the story that is there
unfoldable pub refuse_existing : Option Story → Exec Response Unit
refuse_existing none = pure tt
refuse_existing (some s) = fail (write_json 200 (create_story_response s.id true))

module _ (env : Env) (cfg : Config) where
  -- the checks of a link: its form, and that it is no duplicate
  unfoldable pub check_url : CreateStoryRequest → Exec Response Unit
  unfolding refuse_existing
  check_url req = do
    fail_if (not (env.parse_request_uri req.url)) (write_error 400 "invalid URL format")
    time ← now env
    existing ← on_err database_error (find_story_by_url env req.url (time -ℤ cfg.duplicate_window))
    refuse_existing existing

  unfoldable pub check_last : Option Story → Exec Response Unit
  unfolding check_age
  check_last none = pure tt
  check_last (some s) = do time ← now env; check_age cfg time s

  unfoldable pub check_cooldown : String → Exec Response Unit
  unfolding check_last
  check_cooldown agent = do
    last ← on_err database_error (get_last_story_by_agent env agent)
    check_last last

  unfoldable pub create_story : Request → Option CreateStoryRequest → Handler
  unfolding check_url check_cooldown check_rate_limit context_agent context_verified
  create_story r body = do
    rate ← check_rate_limit env cfg r "story" cfg.story_rate_limit
    fail_if (not rate.0) (write_rate_limited rate.1)
    req ← or_fail body (write_error 400 "invalid JSON")
    fail_if (bad_title req) (write_error 400 "title must be 8-180 characters")
    fail_if (same_bool (has_url req) (has_text req))
        (write_error 400 "exactly one of url or text must be provided")
    when (has_url req) (check_url req)
    fail_if (ltb 5 (length req.tags)) (write_error 400 "maximum 5 tags allowed")
    when (not (context_agent r == "")) (check_cooldown (context_agent r))
    let story : Story = record {
      id = "";
      title = req.title;
      url = req.url;
      text = req.text;
      tags = req.tags;
      score = pos 0;
      comment_count = pos 0;
      created_at = zero_time;
      hidden = false;
      agent_id = context_agent r;
      agent_verified = context_verified r;
    }
    saved ← on_err (λ e. write_error 500 "failed to create story") (store_story env story)
    pure (write_json 201 (create_story_response saved.id false))

  unfoldable pub get_story_handler : Request → Handler
  get_story_handler r = do
    fail_if (r.path_id == "") (write_error 400 "story id required")
    found ← on_err database_error (get_story env r.path_id)
    story ← or_fail found (write_error 404 "story not found")
    pure (write_json 200 (a_story story))

unfoldable pub parse_sort : String → SortOrder
parse_sort s = if s == "new" then new else if s == "discussed" then discussed else top

unfoldable pub limit_or : ℤ → Option ℤ → ℤ
limit_or d none = d
limit_or d (some l) = if ltb_ℤ (pos 0) l && leb_ℤ l (pos 100) then l else d

unfoldable pub parse_limit : String → ℤ
unfolding limit_or
parse_limit s = if s == "" then pos 30 else limit_or (pos 30) (atoi s)

module _ (env : Env) where
  unfoldable pub list_stories_handler : Request → Handler
  unfolding parse_sort parse_limit
  list_stories_handler r = do
    let opts : ListOptions = record {
      sort = parse_sort r.query_sort;
      limit = parse_limit r.query_limit;
      cursor = r.query_cursor;
    }
    page ← on_err database_error (list_stories env opts)
    pure (write_json 200 (list_stories_response page.0 page.1))
