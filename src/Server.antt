-- ===== src/Server.antt =====
-- cmd/slashclaw/main.go: which handler, behind which middleware, serves each route of the JSON
-- interface and of the web pages, and a run of the server: the requests one after another, and the
-- clean-up of the limiter between them. A body stands beside its route, decoded.
pub mod Guards
pub mod Invariants
pub mod Tally
pub mod Ballots
pub mod Gone
pub mod Unique
pub mod Counted
pub mod Hidden
use slashclaw.Prelude.{Option, List, [], ◌∷◌}
use slashclaw.Env.{Env}
use slashclaw.Exec.{World, Exec, pure}
use slashclaw.Config.{Config}
use slashclaw.Ratelimit.{cleanup}
use slashclaw.Auth.{Service}
use slashclaw.Store.Rows.{empty_db}
use slashclaw.Api.Http.{Request, Response, Handler, healthy, write_json, serve, require_auth}
use slashclaw.Web.{Page, home, story_page, submit}
use slashclaw.Api.Stories.{
  CreateStoryRequest, create_story, get_story_handler, list_stories_handler,
}
use slashclaw.Api.Comments.{CreateCommentRequest, create_comment, list_comments_handler}
use slashclaw.Api.Votes.{CreateVoteRequest, create_vote}
use slashclaw.Api.Admin.{HideRequest, hide}
use slashclaw.Api.Sessions.{
  ChallengeRequest, VerifyRequest, create_challenge_handler, verify_challenge,
}
use slashclaw.Api.Accounts.{
  CreateAccountRequest, AddKeyRequest, create_account, get_account_handler, add_account_key,
  delete_account_key,
}

pub data Route : Type 0 where
  get_health get_stories get_story get_comments get_account : Route
  post_challenge : Option ChallengeRequest → Route
  post_verify : Option VerifyRequest → Route
  post_story : Option CreateStoryRequest → Route
  post_comment : Option CreateCommentRequest → Route
  post_vote : Option CreateVoteRequest → Route
  post_account : Option CreateAccountRequest → Route
  post_key : Option AddKeyRequest → Route
  delete_key : Route
  post_hide : Option HideRequest → Route

pub data WebRoute : Type 0 where
  get_home get_story_page get_submit : WebRoute

-- The auth service that `main` builds.
abbrev pub service : Config → Service
service cfg = record { challenge_ttl = cfg.challenge_ttl; token_ttl = cfg.token_ttl }

abbrev pub initial : World
initial = record { step = 0; db = empty_db; buckets = [] }

pub data Event : Type 0 where
  request : Request → Route → Event
  visit : Request → WebRoute → Event
  cleanup_tick : Event

module _ (env : Env) (cfg : Config) where
  unfoldable pub handle : Route → Request → Handler
  handle get_health r = pure (write_json 200 healthy)
  handle get_stories r = list_stories_handler env r
  handle get_story r = get_story_handler env cfg r
  handle get_comments r = list_comments_handler env cfg r
  handle get_account r = get_account_handler env (service cfg) r
  handle (post_challenge body) r = create_challenge_handler env (service cfg) body
  handle (post_verify body) r = verify_challenge env (service cfg) body
  handle (post_story body) r = require_auth env (λ q. create_story env cfg q body) r
  handle (post_comment body) r = require_auth env (λ q. create_comment env cfg q body) r
  handle (post_vote body) r = require_auth env (λ q. create_vote env cfg q body) r
  handle (post_account body) r = require_auth env (λ q. create_account env (service cfg) q body) r
  handle (post_key body) r = require_auth env (λ q. add_account_key env (service cfg) q body) r
  handle delete_key r = require_auth env (λ q. delete_account_key env (service cfg) q) r
  handle (post_hide body) r = hide env cfg r body

  unfoldable pub web_handle : WebRoute → Request → Exec Page Page
  web_handle get_home r = home env cfg r
  web_handle get_story_page r = story_page env cfg r
  web_handle get_submit r = submit env cfg r

  unfoldable pub after_event : Event → World → World
  unfolding handle web_handle
  after_event (request r route) w = (serve (handle route r) w).1
  after_event (visit r route) w = (web_handle route r w).1
  after_event cleanup_tick w = (cleanup env {E = Response} w).1

  unfoldable pub run : List Event → World → World
  unfolding after_event
  run [] w = w
  run (e ∷ es) w = run es (after_event e w)
