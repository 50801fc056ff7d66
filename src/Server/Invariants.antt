-- ===== src/Server/Invariants.antt =====
-- An invariant of the tables over a run of the server: it is enough that the handlers that write to
-- its half of the tables keep it.
use slashclaw.Prelude.{Option, List, [], ◌∷◌}
use slashclaw.Env.{Env}
use slashclaw.Exec.{World}
use slashclaw.Exec.Keeps.{Keeps, Keeps-pure}
use slashclaw.Store.Keeps.{read_rules}
use slashclaw.Web.{home, story_page, submit}
use slashclaw.Config.{Config}
use slashclaw.Store.Rows.{Db}
use slashclaw.Store.Frames.{
  OfContent, OfAuth, AuthWrites, OfContent-AuthWrites, ContentWrites, OfAuth-ContentWrites,
}
use slashclaw.Api.Http.{Request, Response}
use slashclaw.Api.Keeps.{
  require_auth-Keeps, cleanup-Keeps, get_story_handler-Keeps, list_stories_handler-Keeps,
  list_comments_handler-Keeps, get_account_handler-Keeps,
}
use slashclaw.Api.Frames
use slashclaw.Api.Stories.{CreateStoryRequest, create_story}
use slashclaw.Api.Comments.{CreateCommentRequest, create_comment}
use slashclaw.Api.Votes.{CreateVoteRequest, create_vote}
use slashclaw.Api.Admin.{HideRequest, hide}
use slashclaw.Server.{
  Route, get_health, get_stories, get_story, get_comments, get_account, post_challenge, post_verify,
  post_story, post_comment, post_vote, post_account, post_key, delete_key, post_hide, Event,
  request, WebRoute, get_home, get_story_page, get_submit, visit, web_handle, cleanup_tick, handle,
  run,
}

module _ (env : Env) (cfg : Config) (Q : Db → Type 0) where
  pub record ContentKept : Type 0 where
    pub of_content : OfContent Q
    pub story :
        (r : Request) (body : Option CreateStoryRequest) → Keeps Q (create_story env cfg r body)
    pub comment :
        (r : Request) (body : Option CreateCommentRequest) → Keeps Q (create_comment env cfg r body)
    pub vote :
        (r : Request) (body : Option CreateVoteRequest) → Keeps Q (create_vote env cfg r body)
    pub hidden : (r : Request) (body : Option HideRequest) → Keeps Q (hide env cfg r body)

module _ (env : Env) (cfg : Config) {Q : Db → Type 0} where
  content_handle : ContentKept env cfg Q → (t : Route) (r : Request) → Keeps Q (handle env cfg t r)
  unfolding handle
  content_handle k get_health r = Keeps-pure _
  content_handle k get_stories r = list_stories_handler-Keeps env cfg r
  content_handle k get_story r = get_story_handler-Keeps env cfg r
  content_handle k get_comments r = list_comments_handler-Keeps env cfg r
  content_handle k get_account r = get_account_handler-Keeps env cfg _ r
  content_handle k (post_challenge b) r =
      Frames.create_challenge_handler-Keeps env _ (OfContent-AuthWrites env k.of_content) b
  content_handle k (post_verify b) r =
      Frames.verify_challenge-Keeps env _ (OfContent-AuthWrites env k.of_content) b
  content_handle k (post_story b) r = require_auth-Keeps env _ r (λ q. k.story q b)
  content_handle k (post_comment b) r = require_auth-Keeps env _ r (λ q. k.comment q b)
  content_handle k (post_vote b) r = require_auth-Keeps env _ r (λ q. k.vote q b)
  content_handle k (post_account b) r =
      require_auth-Keeps env _ r
        (λ q. Frames.create_account-Keeps env _ (OfContent-AuthWrites env k.of_content) q b)
  content_handle k (post_key b) r =
      require_auth-Keeps env _ r
        (λ q. Frames.add_account_key-Keeps env _ (OfContent-AuthWrites env k.of_content) q b)
  content_handle k delete_key r =
      require_auth-Keeps env _ r
        (λ q. Frames.delete_account_key-Keeps env _ (OfContent-AuthWrites env k.of_content) q)
  content_handle k (post_hide b) r = k.hidden r b

  auth_handle :
      AuthWrites env Q → OfAuth Q → (t : Route) (r : Request) → Keeps Q (handle env cfg t r)
  unfolding handle
  auth_handle k a get_health r = Keeps-pure _
  auth_handle k a get_stories r = list_stories_handler-Keeps env cfg r
  auth_handle k a get_story r = get_story_handler-Keeps env cfg r
  auth_handle k a get_comments r = list_comments_handler-Keeps env cfg r
  auth_handle k a get_account r = get_account_handler-Keeps env cfg _ r
  auth_handle k a (post_challenge b) r = Frames.create_challenge_handler-Keeps env _ k b
  auth_handle k a (post_verify b) r = Frames.verify_challenge-Keeps env _ k b
  auth_handle k a (post_story b) r =
      require_auth-Keeps env _ r
        (λ q. Frames.create_story-Keeps env cfg (OfAuth-ContentWrites env a) q b)
  auth_handle k a (post_comment b) r =
      require_auth-Keeps env _ r
        (λ q. Frames.create_comment-Keeps env cfg (OfAuth-ContentWrites env a) q b)
  auth_handle k a (post_vote b) r =
      require_auth-Keeps env _ r
        (λ q. Frames.create_vote-Keeps env cfg (OfAuth-ContentWrites env a) q b)
  auth_handle k a (post_account b) r =
      require_auth-Keeps env _ r (λ q. Frames.create_account-Keeps env _ k q b)
  auth_handle k a (post_key b) r =
      require_auth-Keeps env _ r (λ q. Frames.add_account_key-Keeps env _ k q b)
  auth_handle k a delete_key r =
      require_auth-Keeps env _ r (λ q. Frames.delete_account_key-Keeps env _ k q)
  auth_handle k a (post_hide b) r = Frames.hide-Keeps env cfg (OfAuth-ContentWrites env a) r b

  web_handle-Keeps : (t : WebRoute) (r : Request) → Keeps Q (web_handle env cfg t r)
  unfolding web_handle home story_page submit
  web_handle-Keeps get_home r = search read_rules depth 12
  web_handle-Keeps get_story_page r = search read_rules depth 12
  web_handle-Keeps get_submit r = Keeps-pure _

  run_induction :
      ((t : Route) (r : Request) → Keeps Q (handle env cfg t r))
      → (events : List Event) (w : World) → Q w.db
      → Q (run env cfg events w).db
  unfolding run
  run_induction k [] w h = h
  run_induction k (request r t ∷ es) w h = run_induction k es _ ((k t r).at w h)
  run_induction k (visit r t ∷ es) w h = run_induction k es _ ((web_handle-Keeps t r).at w h)
  run_induction k (cleanup_tick ∷ es) w h =
      run_induction k es _ ((cleanup-Keeps env {Q = Q} {E = Response}).at w h)

  pub content_run :
      ContentKept env cfg Q
      → (events : List Event) (w : World) → Q w.db
      → Q (run env cfg events w).db
  content_run k = run_induction (content_handle k)

  pub auth_run :
      AuthWrites env Q
      → OfAuth Q
      → (events : List Event) (w : World) → Q w.db
      → Q (run env cfg events w).db
  auth_run k a = run_induction (auth_handle k a)

  -- An invariant of the content that every write keeps, whatever the handler.
  pub writes_run :
      OfContent Q
      → ContentWrites env Q
      → (events : List Event) (w : World) → Q w.db
      → Q (run env cfg events w).db
  writes_run o k = content_run (record {
    of_content = o;
    story = λ r b. Frames.create_story-Keeps env cfg k r b;
    comment = λ r b. Frames.create_comment-Keeps env cfg k r b;
    vote = λ r b. Frames.create_vote-Keeps env cfg k r b;
    hidden = λ r b. Frames.hide-Keeps env cfg k r b;
  })
