-- ===== src/Store/Tally/Writes.antt =====
-- Which changes of the tables keep the scores equal to the sums of the votes.
use slashclaw.Prelude.{
  String, Bool, true, false, List, [], ◌∷◌, ◌++◌, ◌≡◌, refl, inl, inr, pos, ◌==◌, eq_iff, any,
  update, All, any-append, any-update, All-update, All-map, All-snoc, ap, sym, ◌∙◌, Bool-cases,
}
use slashclaw.Store.Rows.{StoryRow, CommentRow, VoteRow}
use slashclaw.Store.Stories.{has_id}
use slashclaw.Store.Comments.{is_comment}
use slashclaw.Store.Tally.{is_on, tally, tally-none, IsTallied}

-- No vote stands on an id that is free.
free_id :
    (kind id : String) (exists : String → Bool) (v : VoteRow)
    → exists id ≡ false
    → (v.target_type ≡ kind → exists v.target_id ≡ true)
    → is_on kind id v ≡ false
free_id kind id exists v h k = elim (Bool-cases (v.target_type == kind)) [
  | inr e ↦ rw e refl
  | inl e ↦ elim (Bool-cases (v.target_id == id)) [
    | inr other ↦ rw (e, other) refl
    | inl same ↦ cc (k ((eq_iff _ _).0 e), ap exists ((eq_iff _ _).0 same), h)
  ]
]

free_tally :
    (kind id : String) (exists : String → Bool) (vs : List VoteRow)
    → exists id ≡ false
    → All (λ v. v.target_type ≡ kind → exists v.target_id ≡ true) vs
    → pos 0 ≡ tally kind id vs
free_tally kind id exists vs h k =
    sym (tally-none kind id vs (All-map _ _ vs (λ v. free_id kind id exists v h) k))

module _ {ss : List StoryRow} {cs : List CommentRow} {vs : List VoteRow}
    (t : IsTallied ss cs vs) where
  pub insert_story-IsTallied :
      (row : StoryRow)
      → any (has_id row.id) ss ≡ false
      → row.score ≡ pos 0
      → IsTallied (ss ++ row ∷ []) cs vs
  insert_story-IsTallied row new zero_score = record {
    vote_ids = t.vote_ids;
    on_stories =
        All-map _ _ vs (λ v k kind. rw (any-append (has_id v.target_id) ss (row ∷ []), k kind) refl)
          t.on_stories;
    on_comments = t.on_comments;
    story_scores =
        All-snoc _ ss row t.story_scores
          (zero_score ∙ free_tally "story" row.id (λ i. any (has_id i) ss) vs new t.on_stories);
    comment_scores = t.comment_scores;
  }

  -- A change of stories that leaves their ids and scores.
  pub update_stories-IsTallied :
      (q : StoryRow → Bool) (f : StoryRow → StoryRow)
      → ((s : StoryRow) → (f s).id ≡ s.id)
      → ((s : StoryRow) → (f s).score ≡ s.score)
      → IsTallied (update q f ss) cs vs
  update_stories-IsTallied q f ids scores = record {
    vote_ids = t.vote_ids;
    on_stories =
        All-map _ _ vs
          (λ v k kind. rw (any-update (has_id v.target_id) q f ss (λ s. rw (ids s) refl)) (k kind))
          t.on_stories;
    on_comments = t.on_comments;
    story_scores = All-update _ q f ss (λ s e. rw (ids s, scores s) e) t.story_scores;
    comment_scores = t.comment_scores;
  }

  pub insert_comment-IsTallied :
      (row : CommentRow)
      → any (is_comment row.id) cs ≡ false
      → row.score ≡ pos 0
      → IsTallied ss (cs ++ row ∷ []) vs
  insert_comment-IsTallied row new zero_score = record {
    vote_ids = t.vote_ids;
    on_stories = t.on_stories;
    on_comments =
        All-map _ _ vs
          (λ v k kind. rw (any-append (is_comment v.target_id) cs (row ∷ []), k kind) refl)
          t.on_comments;
    story_scores = t.story_scores;
    comment_scores = All-snoc _ cs row t.comment_scores (
        zero_score ∙ free_tally "comment" row.id (λ i. any (is_comment i) cs) vs new t.on_comments);
  }

  -- A change of comments that leaves their ids and scores.
  pub update_comments-IsTallied :
      (q : CommentRow → Bool) (f : CommentRow → CommentRow)
      → ((c : CommentRow) → (f c).id ≡ c.id)
      → ((c : CommentRow) → (f c).score ≡ c.score)
      → IsTallied ss (update q f cs) vs
  update_comments-IsTallied q f ids scores = record {
    vote_ids = t.vote_ids;
    on_stories = t.on_stories;
    on_comments =
        All-map _ _ vs
          (λ v k kind.
            rw (any-update (is_comment v.target_id) q f cs (λ c. rw (ids c) refl)) (k kind))
          t.on_comments;
    story_scores = t.story_scores;
    comment_scores = All-update _ q f cs (λ c e. rw (ids c, scores c) e) t.comment_scores;
  }
