-- ===== src/Api/Hiding.antt =====
-- `Hide`: what it hides, and that it changes nothing else.
use slashclaw.Prelude.{
  String, true, false, not, ◌&&◌, Option, some, ◌≡◌, refl, sym, ◌==◌, eq_iff, any, any-weaken,
  update, arith, ◌∙◌, ap, subst, if◌then◌else◌, Bool-cases, inl, inr, ◌⊎◌,
}
use slashclaw.Env.{Env}
use slashclaw.Env.Laws.{IsUp}
use slashclaw.Exec.{ok}
use slashclaw.Exec.Keeps.{Keeps-same}
use slashclaw.Exec.Triple.{
  Triple, Triple-pure, Triple-read, Triple-bind, Triple-on_err, Triple-post, Triple-pre,
}
use slashclaw.Exec.Steps.{Triple-given, Triple-test}
use slashclaw.Config.{Config}
use slashclaw.Store.Models.{Story, Comment}
use slashclaw.Store.Rows.{Db}
use slashclaw.Store.Keeps.{get_story-Keeps, get_comment-Keeps}
use slashclaw.Store.Triples.{Triple-execute, ok_injective}
use slashclaw.Store.Stories.{has_id, hide_story}
use slashclaw.Store.Comments.{is_comment, hide_comment}
use slashclaw.Store.Counted.{is_parent}
use slashclaw.Store.Found.{story_found, comment_found}
use slashclaw.Store.Hidden.{
  HiddenStory, HiddenComment, hidden_story, hidden_comment, hidden-IsHiddenStory,
  hidden-IsHiddenComment,
}
use slashclaw.Api.Http.{Request, is_admin}
use slashclaw.Api.Admin.{HideRequest, hide_visible_story, hide_visible_comment, hide}

-- The story is hidden, and the tables are as before but for that.
pub record HidesStory (id : String) (db db' : Db) : Type 0 where
  pub is_hidden : HiddenStory id db'
  pub is_all : db' ≡ record db { stories = update (has_id id) hidden_story db.stories }

pub record HidesComment (id : String) (db db' : Db) : Type 0 where
  pub is_hidden : HiddenComment id db'
  pub is_all : db' ≡ record db { comments = update (is_comment id) hidden_comment db.comments }

-- The target of the request is hidden.
abbrev pub Hides : HideRequest → Db → Db → Type 0
Hides req db db' =
    ((req.target_type ≡ "story") × HidesStory req.target_id db db')
    ⊎ ((req.target_type ≡ "comment") × HidesComment req.target_id db db')

module _ (env : Env) (cfg : Config) (up : IsUp env) (db : Db) (id : String) where
  abbrev StoryThere : Option Story → Db → Type 0
  StoryThere o d = (d ≡ db) × ((s : Story) → o ≡ some s → any (has_id id) db.stories ≡ true)

  abbrev CommentThere : Option Comment → Db → Type 0
  CommentThere o d =
      (d ≡ db) × ((c : Comment) → o ≡ some c → any (is_parent id c.story_id) db.comments ≡ true)

  story_hidden :
      Triple
        (λ d. (d ≡ db) × (any (has_id id) db.stories ≡ true))
        (hide_story env id)
        (λ _ d. HidesStory id db d)
        (λ _ d. d ≡ db)
  unfolding hide_story
  story_hidden =
      Triple-execute env up _ _ _ _
        (λ d d' h e. record {
          is_hidden =
              subst (HiddenStory id) (ok_injective e)
                (hidden-IsHiddenStory id d.stories (rw h.0 h.1));
          is_all = sym (ok_injective e) ∙ (rw h.0 refl);
        })
        (λ d e h x. h.0)

  hide_visible_story-Hides :
      Triple
        (λ d. d ≡ db)
        (hide_visible_story env cfg id)
        (λ _ d. HidesStory id db d)
        (λ _ d. d ≡ db)
  unfolding hide_visible_story
  hide_visible_story-Hides =
      Triple-bind StoryThere
        (Triple-on_err _ _ (
          Triple-read _ _ _ _ (Keeps-same _ (λ Q. get_story-Keeps env {Q = Q} id))
            (λ w o h e. (
              h,
              λ s q.
                  subst (λ d. any (has_id id) d.stories ≡ true) h
                    (story_found env id w s (e ∙ ap ok q)),
            ))
            (λ w e h x. h)))
        λ o.
          Triple-given (λ d h. h.0) o _ _
            λ s e. Triple-pre _ (λ d h. (h.0, h.1 s e)) (Triple-on_err _ _ story_hidden)

  comment_hidden :
      (c : Comment)
      → Triple
          (λ d. (d ≡ db) × (any (is_parent id c.story_id) db.comments ≡ true))
          (hide_comment env id)
          (λ _ d. HidesComment id db d)
          (λ _ d. d ≡ db)
  unfolding hide_comment
  comment_hidden c =
      Triple-execute env up _ _ _ _
        (λ d d' h e. record {
          is_hidden = subst (HiddenComment id) (ok_injective e) (
              hidden-IsHiddenComment id d.comments (
                rw h.0 (
                  any-weaken (is_parent id c.story_id) (is_comment id) db.comments
                    (λ x q. ground arith) h.1)));
          is_all = sym (ok_injective e) ∙ (rw h.0 refl);
        })
        (λ d e h x. h.0)

  hide_visible_comment-Hides :
      Triple
        (λ d. d ≡ db)
        (hide_visible_comment env cfg id)
        (λ _ d. HidesComment id db d)
        (λ _ d. d ≡ db)
  unfolding hide_visible_comment
  hide_visible_comment-Hides =
      Triple-bind CommentThere
        (Triple-on_err _ _ (
          Triple-read _ _ _ _ (Keeps-same _ (λ Q. get_comment-Keeps env {Q = Q} id))
            (λ w o h e. (
              h,
              λ c q.
                  subst (λ d. any (is_parent id c.story_id) d.comments ≡ true) h
                    (comment_found env id w c (e ∙ ap ok q)),
            ))
            (λ w e h x. h)))
        λ o.
          Triple-given (λ d h. h.0) o _ _
            λ c e. Triple-pre _ (λ d h. (h.0, h.1 c e)) (Triple-on_err _ _ (comment_hidden c))

other_kind :
    (req : HideRequest)
    → (not (req.target_type == "story") && not (req.target_type == "comment")) ≡ false
    → (req.target_type == "story") ≡ false
    → req.target_type ≡ "comment"
other_kind req known story = ground (arith, known, story, eq_iff req.target_type "comment")

module _ (env : Env) (cfg : Config) (up : IsUp env) (db : Db) (req : HideRequest) where
  either_hidden :
      (not (req.target_type == "story") && not (req.target_type == "comment")) ≡ false
      → Triple
          (λ d. d ≡ db)
          (if req.target_type == "story"
            then hide_visible_story env cfg req.target_id
            else hide_visible_comment env cfg req.target_id)
          (λ _ d. Hides req db d)
          (λ _ d. d ≡ db)
  either_hidden known = elim (Bool-cases (req.target_type == "story")) [
    | inl story ↦ rw story (
        Triple-post _ _ (λ _ d h. inl ((eq_iff req.target_type "story").0 story, h)) (λ _ d h. h)
          (hide_visible_story-Hides env cfg up db req.target_id))
    | inr other ↦ rw other (
        Triple-post _ _ (λ _ d h. inr (other_kind req known other, h)) (λ _ d h. h)
          (hide_visible_comment-Hides env cfg up db req.target_id))
  ]

-- If no call of the database fails: when Hide reaches its end, the request carried the admin secret
-- and a decoded body, and the story or comment that the body names was stored and is now hidden,
-- which is all that has changed; with any early answer the tables are as before.
pub hide-Hides :
    (env : Env) (cfg : Config) (db : Db) (r : Request) (body : Option HideRequest)
    → IsUp env
    → Triple
        (λ d. d ≡ db)
        (hide env cfg r body)
        (λ _ d. (req : HideRequest) × (body ≡ some req) × (is_admin cfg r ≡ true) × Hides req db d)
        (λ _ d. d ≡ db)
unfolding hide
hide-Hides env cfg db r body up =
    Triple-test (λ d h. h) _ _ _
      λ admin.
        Triple-given (λ d h. h) _ _ _
          λ req given.
            Triple-test (λ d h. h) _ _ _
              λ kind.
                Triple-test (λ d h. h) _ _ _
                  λ named.
                    Triple-bind _ (either_hidden env cfg up db req kind)
                      λ _. Triple-pure _ _ _ λ d h. (req, given, ground (arith, admin), h)
