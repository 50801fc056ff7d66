-- ===== src/Api/Keeps.antt =====
-- The parts of the handlers that only read leave the tables alone.
use slashclaw.Prelude.{String, Option, none, some, ℤ}
use slashclaw.Env.{Env}
use slashclaw.Exec.{Result, ok, err}
use slashclaw.Exec.Keeps.{Keeps, keeps_rules}
use slashclaw.Config.{Config}
use slashclaw.Ratelimit.{allow, retry_after, cleanup}
use slashclaw.Auth.{Service}
use slashclaw.Store.Rows.{Db}
use slashclaw.Store.Models.{Story, Token}
use slashclaw.Store.Sql.{Error}
use slashclaw.Store.Keeps.{read_rules}
use slashclaw.Api.Http.{Request, Handler, check_rate_limit, request_token, with_token, require_auth}
use slashclaw.Api.Stories.{
  CreateStoryRequest, refuse_existing, check_last, check_url, check_age, check_cooldown,
  get_story_handler, list_stories_handler,
}
use slashclaw.Api.Comments.{CreateCommentRequest, check_parent, list_comments_handler}
use slashclaw.Api.Votes.{CreateVoteRequest, check_target}
use slashclaw.Api.Accounts.{or_unauthorized, require_owner, get_account_handler}

module _ (env : Env) {Q : Db → Type 0} where
  pub allow-Keeps :
      {E : Type 0} (key : String) (limit window : ℤ) → Keeps Q (allow env {E = E} key limit window)
  unfolding allow
  allow-Keeps key limit window = record { at = λ w h. h }

  pub retry_after-Keeps :
      {E : Type 0} (key : String) (window : ℤ) → Keeps Q (retry_after env {E = E} key window)
  unfolding retry_after
  retry_after-Keeps key window = record { at = λ w h. h }

  pub cleanup-Keeps : {E : Type 0} → Keeps Q (cleanup env {E = E})
  unfolding cleanup
  cleanup-Keeps = record { at = λ w h. h }

  pub check_rate_limit-Keeps :
      {E : Type 0} (cfg : Config) (r : Request) (action : String) (limit : ℤ)
      → Keeps Q (check_rate_limit env {E = E} cfg r action limit)
  unfolding check_rate_limit
  check_rate_limit-Keeps cfg r action limit = search (keeps_rules, allow-Keeps, retry_after-Keeps)

  pub request_token-Keeps : (r : Request) → Keeps Q (request_token env r)
  unfolding request_token
  request_token-Keeps r = search read_rules

  with_token-Keeps :
      (next : Request → Handler) (r : Request) (t : Result Error (Option Token))
      → ((q : Request) → Keeps Q (next q))
      → Keeps Q (with_token next r t)
  unfolding with_token
  with_token-Keeps next r (ok (some t)) k = k _
  with_token-Keeps next r (ok none) k = search keeps_rules
  with_token-Keeps next r (err e) k = search keeps_rules

  pub require_auth-Keeps :
      (next : Request → Handler) (r : Request)
      → ((q : Request) → Keeps Q (next q))
      → Keeps Q (require_auth env next r)
  unfolding require_auth
  require_auth-Keeps next r k = search (keeps_rules, request_token-Keeps, with_token-Keeps)

  check_age-Keeps : (cfg : Config) (time : ℤ) (s : Story) → Keeps Q (check_age cfg time s)
  unfolding check_age
  check_age-Keeps cfg time s = search keeps_rules

  or_unauthorized-Keeps : (t : Result Error (Option Token)) → Keeps Q (or_unauthorized t)
  unfolding or_unauthorized
  or_unauthorized-Keeps (ok (some t)) = search keeps_rules
  or_unauthorized-Keeps (ok none) = search keeps_rules
  or_unauthorized-Keeps (err e) = search keeps_rules

  pub require_owner-Keeps : (s : Service) (r : Request) → Keeps Q (require_owner env s r)
  unfolding require_owner
  require_owner-Keeps s r = search (keeps_rules, request_token-Keeps, or_unauthorized-Keeps)

module _ (env : Env) (cfg : Config) {Q : Db → Type 0} where
  refuse_existing-Keeps : (o : Option Story) → Keeps Q (refuse_existing o)
  unfolding refuse_existing
  refuse_existing-Keeps none = search keeps_rules
  refuse_existing-Keeps (some s) = search keeps_rules

  check_last-Keeps : (o : Option Story) → Keeps Q (check_last env cfg o)
  unfolding check_last
  check_last-Keeps none = search keeps_rules
  check_last-Keeps (some s) = search (keeps_rules, check_age-Keeps)

  pub check_url-Keeps : (req : CreateStoryRequest) → Keeps Q (check_url env cfg req)
  unfolding check_url
  check_url-Keeps req = search (read_rules, refuse_existing-Keeps)

  pub check_cooldown-Keeps : (agent : String) → Keeps Q (check_cooldown env cfg agent)
  unfolding check_cooldown
  check_cooldown-Keeps agent = search (read_rules, check_last-Keeps)

  pub check_parent-Keeps : (req : CreateCommentRequest) → Keeps Q (check_parent env cfg req)
  unfolding check_parent
  check_parent-Keeps req = search read_rules

  pub check_target-Keeps :
      (agent : String) (req : CreateVoteRequest) → Keeps Q (check_target env cfg agent req)
  unfolding check_target
  check_target-Keeps agent req = search read_rules

  pub get_story_handler-Keeps : (r : Request) → Keeps Q (get_story_handler env cfg r)
  unfolding get_story_handler
  get_story_handler-Keeps r = search read_rules

  pub list_stories_handler-Keeps : (r : Request) → Keeps Q (list_stories_handler env r)
  unfolding list_stories_handler
  list_stories_handler-Keeps r = search read_rules

  pub list_comments_handler-Keeps : (r : Request) → Keeps Q (list_comments_handler env cfg r)
  unfolding list_comments_handler
  list_comments_handler-Keeps r = search read_rules depth 7

  pub get_account_handler-Keeps :
      (s : Service) (r : Request) → Keeps Q (get_account_handler env s r)
  unfolding get_account_handler
  get_account_handler-Keeps s r = search read_rules
