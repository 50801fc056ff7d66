-- ===== src/Api/Votes/Others.antt =====
-- The checks of the target of a vote find content that is not by the agent.
use slashclaw.Prelude.{
  eq_iff, String, true, false, not, ◌&&◌, Option, some, ◌≡◌, sym, ◌==◌, ℤ, pos, negsuc, eq_ℤ, arith,
  ◌∙◌, ap, subst, IsIn, ◌⊎◌,
}
use slashclaw.Env.{Env}
use slashclaw.Exec.{Exec, ok}
use slashclaw.Exec.Keeps.{Keeps, Keeps-same}
use slashclaw.Exec.Triple.{Triple, Triple-read, Triple-bind, Triple-on_err, Triple-fail_if}
use slashclaw.Exec.Steps.{Triple-given}
use slashclaw.Config.{Config}
use slashclaw.Store.Models.{Story, Comment}
use slashclaw.Store.Rows.{StoryRow, CommentRow, Db}
use slashclaw.Store.Sql.{string_of}
use slashclaw.Store.Keeps.{get_story-Keeps, get_comment-Keeps}
use slashclaw.Store.Stories.{is_visible, scan_story}
use slashclaw.Store.Comments.{is_visible_comment, scan_comment}
use slashclaw.Store.Found.{story_at, comment_at}
use slashclaw.Api.Votes.{CreateVoteRequest, is_own, check_story_target, check_comment_target}

-- A visible story that is not by the agent, and a visible comment that is not.
pub record StoryByOther (agent id : String) (db : Db) : Type 0 where
  pub row : StoryRow
  pub stored : IsIn row db.stories
  pub seen : is_visible id row ≡ true
  pub by_other : is_own (string_of row.agent_id) agent ≡ false

pub record CommentByOther (agent id : String) (db : Db) : Type 0 where
  pub row : CommentRow
  pub stored : IsIn row db.comments
  pub seen : is_visible_comment id row ≡ true
  pub by_other : is_own (string_of row.agent_id) agent ≡ false

-- The target of a vote that is accepted.
abbrev pub Votable : String → CreateVoteRequest → Db → Type 0
Votable agent req db =
    ((req.target_type ≡ "story") × StoryByOther agent req.target_id db)
    ⊎ ((req.target_type ≡ "comment") × CommentByOther agent req.target_id db)

module _ (env : Env) (cfg : Config) (db : Db) (agent id : String) where
  abbrev StoryAt : Option Story → Db → Type 0
  StoryAt o d =
      (d ≡ db)
      × ((s : Story)
          → o ≡ some s
          → (row : StoryRow) × IsIn row db.stories
            × (is_visible id row ≡ true)
            × (s ≡ scan_story env row))

  other_story :
      (s : Story)
      → is_own s.agent_id agent ≡ false
      → (row : StoryRow) × IsIn row db.stories
        × (is_visible id row ≡ true)
        × (s ≡ scan_story env row)
      → StoryByOther agent id db
  unfolding scan_story
  other_story s test (row, i, q, e) = record {
    row = row;
    stored = i;
    seen = q;
    by_other = sym (ap (λ x. is_own x.agent_id agent) e) ∙ test;
  }

  pub check_story-ByOther :
      Triple
        (λ d. d ≡ db)
        (check_story_target env cfg agent id)
        (λ _ d. (d ≡ db) × StoryByOther agent id db)
        (λ _ d. d ≡ db)
  unfolding check_story_target
  check_story-ByOther =
      Triple-bind StoryAt
        (Triple-on_err _ _ (
          Triple-read _ _ _ _ (Keeps-same _ (λ Q. get_story-Keeps env {Q = Q} id))
            (λ w o h e. (
              h,
              λ s q.
                  subst
                    (λ d.
                      (row : StoryRow) × IsIn row d.stories
                      × (is_visible id row ≡ true)
                      × (s ≡ scan_story env row))
                    h (story_at env id w s (e ∙ ap ok q)),
            ))
            (λ w e h x. h)))
        λ o.
          Triple-given (λ d h. h.0) o _ _
            λ s found.
              Triple-fail_if _ _ _ _ (λ d test h. (h.0, other_story s test (h.1 s found)))
                (λ d e h. h.0)

  abbrev CommentAt : Option Comment → Db → Type 0
  CommentAt o d =
      (d ≡ db)
      × ((c : Comment)
          → o ≡ some c
          → (row : CommentRow) × IsIn row db.comments
            × (is_visible_comment id row ≡ true)
            × (c ≡ scan_comment row))

  other_comment :
      (c : Comment)
      → is_own c.agent_id agent ≡ false
      → (row : CommentRow) × IsIn row db.comments
        × (is_visible_comment id row ≡ true)
        × (c ≡ scan_comment row)
      → CommentByOther agent id db
  unfolding scan_comment
  other_comment c test (row, i, q, e) = record {
    row = row;
    stored = i;
    seen = q;
    by_other = sym (ap (λ x. is_own x.agent_id agent) e) ∙ test;
  }

  pub check_comment-ByOther :
      Triple
        (λ d. d ≡ db)
        (check_comment_target env cfg agent id)
        (λ _ d. (d ≡ db) × CommentByOther agent id db)
        (λ _ d. d ≡ db)
  unfolding check_comment_target
  check_comment-ByOther =
      Triple-bind CommentAt
        (Triple-on_err _ _ (
          Triple-read _ _ _ _ (Keeps-same _ (λ Q. get_comment-Keeps env {Q = Q} id))
            (λ w o h e. (
              h,
              λ c q.
                  subst
                    (λ d.
                      (row : CommentRow) × IsIn row d.comments
                      × (is_visible_comment id row ≡ true)
                      × (c ≡ scan_comment row))
                    h (comment_at env id w c (e ∙ ap ok q)),
            ))
            (λ w e h x. h)))
        λ o.
          Triple-given (λ d h. h.0) o _ _
            λ c found.
              Triple-fail_if _ _ _ _ (λ d test h. (h.0, other_comment c test (h.1 c found)))
                (λ d e h. h.0)

pub comment_kind :
    (req : CreateVoteRequest)
    → (not (req.target_type == "story") && not (req.target_type == "comment")) ≡ false
    → (req.target_type == "story") ≡ false
    → req.target_type ≡ "comment"
comment_kind req known story = ground (arith, known, story, eq_iff req.target_type "comment")

pub one_or_minus :
    (x : ℤ)
    → (not (eq_ℤ x (pos 1)) && not (eq_ℤ x (negsuc 0))) ≡ false
    → (x ≡ pos 1) ⊎ (x ≡ negsuc 0)
one_or_minus (pos n) h = ground arith
one_or_minus (negsuc n) h = ground arith

-- Any state.
abbrev pub Any : Db → Type 0
Any db = Unit

pub Any-Keeps : {E A : Type 0} (m : Exec E A) → Keeps Any m
Any-Keeps m = record { at = λ w h. tt }
