-- ===== src/Store/Hidden.antt =====
-- A hidden story or comment, and the writes to the stories and the comments.
use slashclaw.Prelude.{
  String, Bool, true, false, List, [], ◌∷◌, ◌++◌, ◌≡◌, refl, ◌==◌, eq_iff, any, update, arith,
  any-append, any-update, ◌∙◌, Bool-cases, inl, inr,
}
use slashclaw.Store.Rows.{StoryRow, CommentRow, Db}
use slashclaw.Store.Stories.{has_id, is_visible}
use slashclaw.Store.Comments.{is_comment, is_visible_comment}

-- The row is there, and no query for it finds it.
pub record IsHiddenStory (id : String) (stories : List StoryRow) : Type 0 where
  pub is_stored : any (has_id id) stories ≡ true
  pub is_unseen : any (is_visible id) stories ≡ false

pub record IsHiddenComment (id : String) (comments : List CommentRow) : Type 0 where
  pub is_stored : any (is_comment id) comments ≡ true
  pub is_unseen : any (is_visible_comment id) comments ≡ false

abbrev pub HiddenStory : String → Db → Type 0
HiddenStory id db = IsHiddenStory id db.stories

abbrev pub HiddenComment : String → Db → Type 0
HiddenComment id db = IsHiddenComment id db.comments

pub add_story-IsHiddenStory :
    (id : String) (ss : List StoryRow) (s : StoryRow)
    → any (has_id s.id) ss ≡ false
    → IsHiddenStory id ss
    → IsHiddenStory id (ss ++ s ∷ [])
add_story-IsHiddenStory id ss s fresh h = record {
  is_stored = ground (arith, h.is_stored, any-append (has_id id) ss (s ∷ []));
  is_unseen = elim (Bool-cases (s.id == id)) [
    | inl same ↦ absurd (cc (h.is_stored, rw ((eq_iff s.id id).0 same) at fresh))
    | inr other ↦ ground (arith, other, h.is_unseen, any-append (is_visible id) ss (s ∷ []))
  ];
}

pub add_comment-IsHiddenComment :
    (id : String) (cs : List CommentRow) (c : CommentRow)
    → any (is_comment c.id) cs ≡ false
    → IsHiddenComment id cs
    → IsHiddenComment id (cs ++ c ∷ [])
add_comment-IsHiddenComment id cs c fresh h = record {
  is_stored = ground (arith, h.is_stored, any-append (is_comment id) cs (c ∷ []));
  is_unseen = elim (Bool-cases (c.id == id)) [
    | inl same ↦ absurd (cc (h.is_stored, rw ((eq_iff c.id id).0 same) at fresh))
    | inr other ↦ ground (arith, other, h.is_unseen, any-append (is_visible_comment id) cs (c ∷ []))
  ];
}

pub change_stories-IsHiddenStory :
    (id : String) (q : StoryRow → Bool) (f : StoryRow → StoryRow) (ss : List StoryRow)
    → ((s : StoryRow) → (f s).id ≡ s.id)
    → ((s : StoryRow) → (f s).hidden ≡ s.hidden)
    → IsHiddenStory id ss
    → IsHiddenStory id (update q f ss)
change_stories-IsHiddenStory id q f ss same_id same_hidden h = record {
  is_stored = any-update (has_id id) q f ss (λ s. rw (same_id s) refl) ∙ h.is_stored;
  is_unseen =
      any-update (is_visible id) q f ss (λ s. rw (same_id s, same_hidden s) refl) ∙ h.is_unseen;
}

pub change_comments-IsHiddenComment :
    (id : String) (q : CommentRow → Bool) (f : CommentRow → CommentRow) (cs : List CommentRow)
    → ((c : CommentRow) → (f c).id ≡ c.id)
    → ((c : CommentRow) → (f c).hidden ≡ c.hidden)
    → IsHiddenComment id cs
    → IsHiddenComment id (update q f cs)
change_comments-IsHiddenComment id q f cs same_id same_hidden h = record {
  is_stored = any-update (is_comment id) q f cs (λ c. rw (same_id c) refl) ∙ h.is_stored;
  is_unseen =
      any-update (is_visible_comment id) q f cs (λ c. rw (same_id c, same_hidden c) refl)
      ∙ h.is_unseen;
}

abbrev pub hidden_story : StoryRow → StoryRow
hidden_story s = record s { hidden = 1 }

abbrev pub hidden_comment : CommentRow → CommentRow
hidden_comment c = record c { hidden = 1 }

-- Hiding a story leaves others hidden.
unseen_story :
    (id other : String) (ss : List StoryRow)
    → any (is_visible id) ss ≡ false
    → any (is_visible id) (update (has_id other) hidden_story ss) ≡ false
unseen_story id other [] h = refl
unseen_story id other (s ∷ ss) h = ground (arith, unseen_story id other ss)

unseen_comment :
    (id other : String) (cs : List CommentRow)
    → any (is_visible_comment id) cs ≡ false
    → any (is_visible_comment id) (update (is_comment other) hidden_comment cs) ≡ false
unseen_comment id other [] h = refl
unseen_comment id other (c ∷ cs) h = ground (arith, unseen_comment id other cs)

pub hide-IsHiddenStory :
    (id other : String) (ss : List StoryRow)
    → IsHiddenStory id ss
    → IsHiddenStory id (update (has_id other) hidden_story ss)
hide-IsHiddenStory id other ss h = record {
  is_stored = any-update (has_id id) (has_id other) hidden_story ss (λ s. refl) ∙ h.is_stored;
  is_unseen = unseen_story id other ss h.is_unseen;
}

pub hide-IsHiddenComment :
    (id other : String) (cs : List CommentRow)
    → IsHiddenComment id cs
    → IsHiddenComment id (update (is_comment other) hidden_comment cs)
hide-IsHiddenComment id other cs h = record {
  is_stored =
      any-update (is_comment id) (is_comment other) hidden_comment cs (λ c. refl) ∙ h.is_stored;
  is_unseen = unseen_comment id other cs h.is_unseen;
}

-- Hiding a story hides it.
unseen_after :
    (id : String) (ss : List StoryRow)
    → any (is_visible id) (update (has_id id) hidden_story ss) ≡ false
unseen_after id [] = refl
unseen_after id (s ∷ ss) = ground (arith, unseen_after id ss)

unseen_comment_after :
    (id : String) (cs : List CommentRow)
    → any (is_visible_comment id) (update (is_comment id) hidden_comment cs) ≡ false
unseen_comment_after id [] = refl
unseen_comment_after id (c ∷ cs) = ground (arith, unseen_comment_after id cs)

pub hidden-IsHiddenStory :
    (id : String) (ss : List StoryRow)
    → any (has_id id) ss ≡ true
    → IsHiddenStory id (update (has_id id) hidden_story ss)
hidden-IsHiddenStory id ss h = record {
  is_stored = any-update (has_id id) (has_id id) hidden_story ss (λ s. refl) ∙ h;
  is_unseen = unseen_after id ss;
}

pub hidden-IsHiddenComment :
    (id : String) (cs : List CommentRow)
    → any (is_comment id) cs ≡ true
    → IsHiddenComment id (update (is_comment id) hidden_comment cs)
hidden-IsHiddenComment id cs h = record {
  is_stored = any-update (is_comment id) (is_comment id) hidden_comment cs (λ c. refl) ∙ h;
  is_unseen = unseen_comment_after id cs;
}
