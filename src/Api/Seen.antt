-- ===== src/Api/Seen.antt =====
-- What the checks of `CreateComment` find: a story and a comment that readers see.
use slashclaw.Prelude.{
  String, true, false, not, some, ◌≡◌, sym, ◌∙◌, ap, subst, ◌==◌, eq_iff, arith, IsIn, Bool-cases,
  inl, inr, ◌⊎◌,
}
use slashclaw.Env.{Env}
use slashclaw.Exec.{ok, when}
use slashclaw.Exec.Keeps.{Keeps-same}
use slashclaw.Exec.Steps.{Triple-given}
use slashclaw.Exec.Triple.{
  Triple, Triple-read, Triple-pure, Triple-bind, Triple-on_err, Triple-fact, Triple-post,
  Triple-fail_if,
}
use slashclaw.Config.{Config}
use slashclaw.Store.Models.{Story, Comment}
use slashclaw.Store.Rows.{StoryRow, CommentRow, Db}
use slashclaw.Store.Keeps.{get_story-Keeps, get_comment-Keeps}
use slashclaw.Store.Found.{story_at, comment_at}
use slashclaw.Store.Stories.{is_visible, get_story}
use slashclaw.Store.Comments.{scan_comment, is_visible_comment, get_comment}
use slashclaw.Api.Comments.{CreateCommentRequest, check_parent}

-- A story that readers see, and a comment on it that they see.
abbrev pub SeenStory : String → Db → Type 0
SeenStory id db = (row : StoryRow) × IsIn row db.stories × (is_visible id row ≡ true)

abbrev pub SeenComment : String → String → Db → Type 0
SeenComment id story db =
    (row : CommentRow) × IsIn row db.comments
    × (is_visible_comment id row ≡ true)
    × (row.story_id ≡ story)

same_story :
    (db : Db) (req : CreateCommentRequest) (c : Comment)
    → not (c.story_id == req.story_id) ≡ false
    → SeenComment req.parent_id c.story_id db
    → SeenComment req.parent_id req.story_id db
same_story db req c test seen =
    subst (λ x. SeenComment req.parent_id x db)
      ((eq_iff c.story_id req.story_id).0 (ground (arith, test))) seen

module _ (env : Env) (cfg : Config) (db : Db) where
  pub get_story-Seen :
      (id : String)
      → Triple
          (λ d. d ≡ db)
          (get_story env id)
          (λ o d. (d ≡ db) × ((s : Story) → o ≡ some s → SeenStory id db))
          (λ _ d. d ≡ db)
  get_story-Seen id =
      Triple-read _ _ _ _ (Keeps-same _ (λ Q. get_story-Keeps env {Q = Q} id))
        (λ w o h e. (
          h,
          λ s q.
              let (row, i, seen, same) = story_at env id w s (e ∙ ap ok q) in
              (row, subst (λ (d : Db). IsIn row d.stories) h i, seen),
        ))
        (λ w e h x. h)

  get_comment-Seen :
      (id : String)
      → Triple
          (λ d. d ≡ db)
          (get_comment env id)
          (λ o d. (d ≡ db) × ((c : Comment) → o ≡ some c → SeenComment id c.story_id db))
          (λ _ d. d ≡ db)
  unfolding scan_comment
  get_comment-Seen id =
      Triple-read _ _ _ _ (Keeps-same _ (λ Q. get_comment-Keeps env {Q = Q} id))
        (λ w o h e. (
          h,
          λ c q.
              let (row, i, seen, same) = comment_at env id w c (e ∙ ap ok q) in
              (
                row,
                subst (λ (d : Db). IsIn row d.comments) h i,
                seen,
                sym (ap (λ (x : Comment). x.story_id) same),
              ),
        ))
        (λ w e h x. h)

  check_parent-Seen :
      (req : CreateCommentRequest)
      → Triple
          (λ d. d ≡ db)
          (check_parent env cfg req)
          (λ _ d. (d ≡ db) × SeenComment req.parent_id req.story_id db)
          (λ _ d. d ≡ db)
  unfolding check_parent
  check_parent-Seen req = Triple-bind _ (Triple-on_err _ _ (get_comment-Seen req.parent_id)) λ o.
      Triple-fact _ λ seen.
        Triple-given (λ d h. h) o _ _
          λ c found.
            Triple-fail_if _ _ _ _ (λ d test h. (h, same_story db req c test (seen c found)))
              (λ d e h. h)

  pub when-Seen :
      (req : CreateCommentRequest)
      → Triple
          (λ d. d ≡ db)
          (when (not (req.parent_id == "")) (check_parent env cfg req))
          (λ _ d. (d ≡ db) × ((req.parent_id ≡ "") ⊎ SeenComment req.parent_id req.story_id db))
          (λ _ d. d ≡ db)
  unfolding when
  when-Seen req = elim (Bool-cases (req.parent_id == "")) [
    | inl root ↦ rw root (Triple-pure _ _ tt (λ d h. (h, inl ((eq_iff req.parent_id "").0 root))))
    | inr reply ↦
        rw reply (Triple-post _ _ (λ _ d h. (h.0, inr h.1)) (λ _ d h. h) (check_parent-Seen req))
  ]
