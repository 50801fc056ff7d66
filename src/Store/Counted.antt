-- ===== src/Store/Counted.antt =====
-- The comment counts of the stories, and the references of the comments: to their story and to
-- their parent.
use text.Mathlib.TextPositions.{eq_refl}
use slashclaw.Prelude.{
  ℕ, suc, String, Bool, true, false, ◌&&◌, some, List, [], ◌∷◌, ◌++◌, ◌≡◌, refl, sym, ◌==◌, eq_iff,
  pos, ◌+ℤ◌, any, update, arith, All, All-map, All-snoc, All-update, All-update_test, any-append,
  any-update, ◌∙◌, ap, Bool-cases, inl, inr, if◌then◌else◌, HasDistinct, HasDistinct-snoc,
  HasDistinct-update,
}
use slashclaw.Store.Rows.{StoryRow, CommentRow, Db}
use slashclaw.Store.Stories.{has_id}
use slashclaw.Store.Comments.{is_comment}
use slashclaw.Store.Threads.{ParentsFirst, ParentsFirst-snoc, ParentsFirst-update}

-- The number of comments on a story.
unfoldable pub comments_on : String → List CommentRow → ℕ
comments_on id [] = 0
comments_on id (c ∷ cs) =
    let rest = comments_on id cs in if c.story_id == id then suc rest else rest

-- A comment on the same story, to which others reply.
abbrev pub is_parent : String → String → CommentRow → Bool
is_parent id story row = row.id == id && row.story_id == story

abbrev pub HasParent : List CommentRow → CommentRow → Type 0
HasParent cs c = (id : String) → c.parent_id ≡ some id → any (is_parent id c.story_id) cs ≡ true

abbrev pub HasStory : List StoryRow → CommentRow → Type 0
HasStory ss c = any (has_id c.story_id) ss ≡ true

pub record IsCounted (stories : List StoryRow) (comments : List CommentRow) : Type 0 where
  pub counts : All (λ s. s.comment_count ≡ pos (comments_on s.id comments)) stories
  pub on_stories : All (HasStory stories) comments
  pub replies : All (HasParent comments) comments
  pub ids : HasDistinct (λ (c : CommentRow). c.id) comments
  pub parents_first : ParentsFirst [] comments

abbrev pub Counted : Db → Type 0
Counted db = IsCounted db.stories db.comments

comments_on-append :
    (id : String) (cs : List CommentRow) (c : CommentRow)
    → comments_on id (cs ++ c ∷ [])
      ≡ (if c.story_id == id then suc (comments_on id cs) else comments_on id cs)
unfolding comments_on
comments_on-append id [] c = refl
comments_on-append id (x ∷ xs) c = ground (arith, comments_on-append id xs c)

comments_on-update :
    (id : String) (q : CommentRow → Bool) (f : CommentRow → CommentRow) (cs : List CommentRow)
    → ((c : CommentRow) → (f c).story_id ≡ c.story_id)
    → comments_on id (update q f cs) ≡ comments_on id cs
unfolding comments_on
comments_on-update id q f [] k = refl
comments_on-update id q f (x ∷ xs) k = elim (Bool-cases (q x)) [
  | inl e ↦ rw (e, k x, comments_on-update id q f xs k) refl
  | inr e ↦ rw (e, comments_on-update id q f xs k) refl
]

comments_on-none :
    (id : String) (ss : List StoryRow) (cs : List CommentRow)
    → any (has_id id) ss ≡ false
    → All (HasStory ss) cs
    → comments_on id cs ≡ 0
unfolding comments_on
comments_on-none id ss [] n h = refl
comments_on-none id ss (c ∷ cs) n (h, hs) =
    ground (arith, comments_on-none id ss cs n hs, eq_iff c.story_id id)

abbrev pub count_up : StoryRow → StoryRow
count_up s = record s { comment_count = s.comment_count +ℤ pos 1 }

plus_one : (n : ℕ) → pos n +ℤ pos 1 ≡ pos (suc n)
unfolding ◌+ℤ◌
plus_one n = ground arith

HasParent-append :
    (cs : List CommentRow) (x c : CommentRow) → HasParent cs c → HasParent (cs ++ x ∷ []) c
HasParent-append cs x c h id e =
    ground (arith, h id e, any-append (is_parent id c.story_id) cs (x ∷ []))

any-is_parent :
    (id story : String) (cs : List CommentRow)
    → any (is_parent id story) cs ≡ true
    → any (is_comment id) cs ≡ true
any-is_parent id story [] h = h
any-is_parent id story (c ∷ cs) h = ground (arith, any-is_parent id story cs)

module _ {ss : List StoryRow} {cs : List CommentRow} (h : IsCounted ss cs) where
  -- A story that is new has no comments.
  pub add_story-IsCounted :
      (s : StoryRow)
      → any (has_id s.id) ss ≡ false
      → s.comment_count ≡ pos 0
      → IsCounted (ss ++ s ∷ []) cs
  add_story-IsCounted s fresh zero_count = record {
    counts =
        All-snoc _ ss s h.counts
          (zero_count ∙ ap pos (sym (comments_on-none s.id ss cs fresh h.on_stories)));
    on_stories =
        All-map _ _ cs (λ c k. ground (arith, k, any-append (has_id c.story_id) ss (s ∷ [])))
          h.on_stories;
    replies = h.replies;
    ids = h.ids;
    parents_first = h.parents_first;
  }

  -- A change of stories that leaves identifiers and counts alone.
  pub change_stories-IsCounted :
      (q : StoryRow → Bool) (f : StoryRow → StoryRow)
      → ((s : StoryRow) → (f s).id ≡ s.id)
      → ((s : StoryRow) → (f s).comment_count ≡ s.comment_count)
      → IsCounted (update q f ss) cs
  change_stories-IsCounted q f same_id same_count = record {
    counts = All-update _ q f ss (λ s e. rw (same_id s, same_count s) e) h.counts;
    on_stories =
        All-map _ _ cs (λ c k. any-update (has_id c.story_id) q f ss (λ s. rw (same_id s) refl) ∙ k)
          h.on_stories;
    replies = h.replies;
    ids = h.ids;
    parents_first = h.parents_first;
  }

  -- A change of comments that leaves identifiers, stories and parents alone.
  pub change_comments-IsCounted :
      (q : CommentRow → Bool) (f : CommentRow → CommentRow)
      → ((c : CommentRow) → (f c).id ≡ c.id)
      → ((c : CommentRow) → (f c).story_id ≡ c.story_id)
      → ((c : CommentRow) → (f c).parent_id ≡ c.parent_id)
      → IsCounted ss (update q f cs)
  change_comments-IsCounted q f same_id same_story same_parent = record {
    counts =
        All-map _ _ ss (λ s e. e ∙ ap pos (sym (comments_on-update s.id q f cs same_story)))
          h.counts;
    on_stories = All-update (HasStory ss) q f cs (λ c k. rw (same_story c) k) h.on_stories;
    replies =
        All-update (HasParent (update q f cs)) q f cs
          (λ c k id e. rw (same_story c) (k id (sym (same_parent c) ∙ e)))
          (All-map _ _ cs
            (λ c k id e.
              any-update (is_parent id c.story_id) q f cs (λ x. rw (same_id x, same_story x) refl)
              ∙ k id e)
            h.replies);
    ids = HasDistinct-update _ q f cs same_id h.ids;
    parents_first = ParentsFirst-update q f same_id same_parent [] cs h.parents_first;
  }

  -- A comment on a stored story, in reply to a comment on the same story or to none, with the count
  -- of the story.
  pub add_comment-IsCounted :
      (c : CommentRow)
      → HasStory ss c
      → HasParent cs c
      → any (is_comment c.id) cs ≡ false
      → IsCounted (update (has_id c.story_id) count_up ss) (cs ++ c ∷ [])
  add_comment-IsCounted c story parent fresh = record {
    counts =
        All-update_test _ _ (has_id c.story_id) count_up ss
          (λ s q e. ground (
            arith,
            e,
            eq_iff s.id c.story_id,
            eq_refl c.story_id,
            eq_iff c.story_id s.id,
            comments_on-append s.id cs c,
            plus_one (comments_on s.id cs),
          ))
          (λ s q e. ground (
            arith,
            e,
            q,
            eq_iff s.id c.story_id,
            eq_iff c.story_id s.id,
            comments_on-append s.id cs c,
          ))
          h.counts;
    on_stories =
        All-map _ _ (cs ++ c ∷ [])
          (λ x k. any-update (has_id x.story_id) (has_id c.story_id) count_up ss (λ s. refl) ∙ k)
          (All-snoc (HasStory ss) cs c h.on_stories story);
    replies =
        All-snoc _ cs c (All-map _ _ cs (λ x k. HasParent-append cs c x k) h.replies)
          (HasParent-append cs c c parent);
    ids = HasDistinct-snoc _ cs c fresh h.ids;
    parents_first =
        ParentsFirst-snoc [] cs c (λ id e. any-is_parent id c.story_id cs (parent id e))
          h.parents_first;
  }
