-- ===== src/Api/Votes/Target.antt =====
-- What the checks of `CreateVote` establish before the vote is cast.
use slashclaw.Prelude.{
  String, true, false, some, List, ◌≡◌, ◌==◌, any, first, select, any-first-select, any-weaken,
  arith, Bool-cases, Option-cases, inl, inr,
}
use slashclaw.Env.{Env}
use slashclaw.Exec.{World, ok, ◌>>=◌}
use slashclaw.Config.{Config}
use slashclaw.Store.Rows.{Db, StoryRow, CommentRow}
use slashclaw.Store.Sql.{query}
use slashclaw.Store.Stories.{has_id, is_visible, get_story}
use slashclaw.Store.Comments.{is_comment, is_visible_comment, get_comment}
use slashclaw.Api.Votes.{CreateVoteRequest, check_story_target, check_comment_target, check_target}

-- The target is a row of the table that its type names.
pub record Target (req : CreateVoteRequest) (db : Db) : Type 0 where
  pub story : (req.target_type == "story") ≡ true → any (has_id req.target_id) db.stories ≡ true
  pub comment :
      (req.target_type == "story") ≡ false → any (is_comment req.target_id) db.comments ≡ true

any_story :
    (id : String) (ss : List StoryRow) (s : StoryRow)
    → first (select (is_visible id) ss) ≡ some s
    → any (has_id id) ss ≡ true
any_story id ss s e =
    any-weaken (is_visible id) (has_id id) ss (λ x q. ground arith)
      (any-first-select (is_visible id) ss s e)

any_comment :
    (id : String) (cs : List CommentRow) (c : CommentRow)
    → first (select (is_visible_comment id) cs) ≡ some c
    → any (is_comment id) cs ≡ true
any_comment id cs c e =
    any-weaken (is_visible_comment id) (is_comment id) cs (λ x q. ground arith)
      (any-first-select (is_visible_comment id) cs c e)

module _ (env : Env) (cfg : Config) (agent : String) where
  check_story_target_found :
      (target : String) (w : World)
      → (check_story_target env cfg agent target w).0 ≡ ok tt
      → any (has_id target) w.db.stories ≡ true
  unfolding check_story_target get_story query ◌>>=◌
  check_story_target_found target w e =
      elim (Option-cases (first (select (is_visible target) w.db.stories))) [
        | inr (s, found) ↦ any_story target w.db.stories s found
        | inl missing ↦ ground arith
      ]

  check_comment_target_found :
      (target : String) (w : World)
      → (check_comment_target env cfg agent target w).0 ≡ ok tt
      → any (is_comment target) w.db.comments ≡ true
  unfolding check_comment_target get_comment query ◌>>=◌
  check_comment_target_found target w e =
      elim (Option-cases (first (select (is_visible_comment target) w.db.comments))) [
        | inr (c, found) ↦ any_comment target w.db.comments c found
        | inl missing ↦ ground arith
      ]

  -- A check that passes has found the target.
  pub check_target_found :
      (req : CreateVoteRequest) (w : World) (a : Unit)
      → (check_target env cfg agent req w).0 ≡ ok a
      → Target req w.db
  unfolding check_target
  check_target_found req w a e = elim (Bool-cases (req.target_type == "story")) [
    | inl yes_story ↦ record {
      story = λ _. check_story_target_found req.target_id w (rw (yes_story, check_target) at e);
      comment = λ n. cc;
    }
    | inr no_story ↦ record {
      story = λ y. cc;
      comment = λ _. check_comment_target_found req.target_id w (rw (no_story, check_target) at e);
    }
  ]
