-- ===== src/Server/Guards.antt =====
-- What a caller without a token and without the admin secret can reach.
use slashclaw.Prelude.{Bool, true, false, Option, ◌≡◌, refl, ◌≤ℤ◌, arith, All, All-IsIn, inl, inr}
use slashclaw.Env.{Env}
use slashclaw.Exec.{World, ◌>>=◌}
use slashclaw.Config.{Config}
use slashclaw.Store.Sessions.{to_seconds}
use slashclaw.Api.Http.{
  Request, Response, Handler, bearer_token, is_admin, status_of, serve, require_auth,
}
use slashclaw.Api.Guards.{Bears, require_auth-Bears}
use slashclaw.Api.Admin.{HideRequest, hide}
use slashclaw.Server.{
  Route, get_health, get_stories, get_story, get_comments, get_account, post_challenge, post_verify,
  post_story, post_comment, post_vote, post_account, post_key, delete_key, post_hide, handle,
}

-- The routes for agents that have proved a key, and for the administrator.
unfoldable pub is_protected : Route → Bool
is_protected get_health = false
is_protected get_stories = false
is_protected get_story = false
is_protected get_comments = false
is_protected get_account = false
is_protected (post_challenge body) = false
is_protected (post_verify body) = false
is_protected (post_story body) = true
is_protected (post_comment body) = true
is_protected (post_vote body) = true
is_protected (post_account body) = true
is_protected (post_key body) = true
is_protected delete_key = true
is_protected (post_hide body) = true

-- The request bears no token that lasts, and not the admin secret.
pub record Stranger (env : Env) (cfg : Config) (r : Request) (w : World) : Type 0 where
  pub no_token :
      All
        (λ row. row.token ≡ bearer_token r → row.expires_at ≤ℤ to_seconds (env.now w.step))
        w.db.tokens
  pub not_admin : is_admin cfg r ≡ false

-- The answer is 401, and the tables are as before.
abbrev pub TurnedAway : World → Response × World → Type 0
TurnedAway w (answer, w') = (status_of answer ≡ 401) × (w'.db ≡ w.db)

module _ (env : Env) (cfg : Config) (r : Request) (w : World) (s : Stranger env cfg r w) where
  Bears-nothing : Bears env r w → ⊥
  Bears-nothing b =
      let past = All-IsIn _ b.row w.db.tokens s.no_token b.stored b.is_bearer in
      ground (arith, past, b.is_live)

  turned_away : (next : Request → Handler) → TurnedAway w (serve (require_auth env next r) w)
  turned_away next = elim (require_auth-Bears env next r w) [
    | inl refused ↦ rw refused.is_refusal (refl, refused.same_db)
    | inr (bears, runs) ↦ absurd (Bears-nothing bears)
  ]

  hide_refused : (body : Option HideRequest) → TurnedAway w (serve (hide env cfg r body) w)
  unfolding hide ◌>>=◌
  hide_refused body = rw s.not_admin (refl, refl)

-- On every route that creates, votes, manages keys or hides, a caller that bears neither a stored
-- token that has not expired nor the admin secret gets 401, and no table changes.
pub Stranger-TurnedAway :
    (env : Env) (cfg : Config) (route : Route) (r : Request) (w : World)
    → is_protected route ≡ true
    → Stranger env cfg r w
    → TurnedAway w (serve (handle env cfg route r) w)
unfolding handle is_protected
Stranger-TurnedAway env cfg get_health r w p s = cc
Stranger-TurnedAway env cfg get_stories r w p s = cc
Stranger-TurnedAway env cfg get_story r w p s = cc
Stranger-TurnedAway env cfg get_comments r w p s = cc
Stranger-TurnedAway env cfg get_account r w p s = cc
Stranger-TurnedAway env cfg (post_challenge body) r w p s = cc
Stranger-TurnedAway env cfg (post_verify body) r w p s = cc
Stranger-TurnedAway env cfg (post_story body) r w p s = turned_away env cfg r w s _
Stranger-TurnedAway env cfg (post_comment body) r w p s = turned_away env cfg r w s _
Stranger-TurnedAway env cfg (post_vote body) r w p s = turned_away env cfg r w s _
Stranger-TurnedAway env cfg (post_account body) r w p s = turned_away env cfg r w s _
Stranger-TurnedAway env cfg (post_key body) r w p s = turned_away env cfg r w s _
Stranger-TurnedAway env cfg delete_key r w p s = turned_away env cfg r w s _
Stranger-TurnedAway env cfg (post_hide body) r w p s = hide_refused env cfg r w s body
