-- ===== src/Store/Tally/Casts.antt =====
-- A new or changed vote, and the change of the score that goes with it.
use text.Mathlib.TextPositions.{eq_refl}
use slashclaw.Prelude.{
  String, true, false, List, [], ◌∷◌, ◌++◌, ◌≡◌, refl, ℤ, ◌+ℤ◌, ◌-ℤ◌, ◌==◌, eq_iff, arith, any,
  update, All, IsIn, HasDistinct, HasDistinct-snoc, HasDistinct-update, any-update, All-update,
  All-update_test, All-map, All-snoc, sym, ◌∙◌,
}
use slashclaw.Store.Rows.{StoryRow, CommentRow, VoteRow}
use slashclaw.Store.Stories.{has_id}
use slashclaw.Store.Comments.{is_comment}
use slashclaw.Store.Votes.{is_vote}
use slashclaw.Store.Tally.{is_on, tally, tally-snoc, tally-update, set_value, IsTallied}

-- The sums of one kind move by `delta` at one id.
pub record Shifts (kind id : String) (delta : ℤ) (vs vs' : List VoteRow) : Type 0 where
  pub moved : tally kind id vs' ≡ tally kind id vs +ℤ delta
  pub others : (i : String) → (i == id) ≡ false → tally kind i vs' ≡ tally kind i vs

pub stories_shift :
    (id : String) (delta : ℤ) (vs vs' : List VoteRow) (ss : List StoryRow)
    → Shifts "story" id delta vs vs'
    → All (λ s. s.score ≡ tally "story" s.id vs) ss
    → All
        (λ s. s.score ≡ tally "story" s.id vs')
        (update (has_id id) (λ r. record r { score = r.score +ℤ delta }) ss)
stories_shift id delta vs vs' ss h =
    All-update_test _ _ (has_id id) _ ss (λ s q e. cc ((eq_iff s.id id).0 q, h.moved, e))
      (λ s q e. cc (h.others s.id q, e))

pub comments_shift :
    (id : String) (delta : ℤ) (vs vs' : List VoteRow) (cs : List CommentRow)
    → Shifts "comment" id delta vs vs'
    → All (λ c. c.score ≡ tally "comment" c.id vs) cs
    → All
        (λ c. c.score ≡ tally "comment" c.id vs')
        (update (is_comment id) (λ r. record r { score = r.score +ℤ delta }) cs)
comments_shift id delta vs vs' cs h =
    All-update_test _ _ (is_comment id) _ cs (λ c q e. cc ((eq_iff c.id id).0 q, h.moved, e))
      (λ c q e. cc (h.others c.id q, e))

on_self : (v : VoteRow) (kind : String) → v.target_type ≡ kind → is_on kind v.target_id v ≡ true
on_self v kind e = rw (e, eq_refl kind, eq_refl v.target_id) refl

on_other : (v : VoteRow) (kind i : String) → (i == v.target_id) ≡ false → is_on kind i v ≡ false
on_other v kind i h = ground (arith, eq_iff i v.target_id, eq_iff v.target_id i)

-- A new vote.
snoc-Shifts :
    (vs : List VoteRow) (v : VoteRow) (kind : String)
    → v.target_type ≡ kind
    → Shifts kind v.target_id v.value vs (vs ++ v ∷ [])
snoc-Shifts vs v kind e = record {
  moved = tally-snoc kind v.target_id vs v ∙ (rw (on_self v kind e));
  others = λ i h. tally-snoc kind i vs v ∙ (rw (on_other v kind i h));
}

-- A changed vote.
set-Shifts :
    (vs : List VoteRow) (v : VoteRow) (x : ℤ) (kind : String)
    → HasDistinct (λ (v : VoteRow). v.id) vs
    → IsIn v vs
    → v.target_type ≡ kind
    → Shifts kind v.target_id (x -ℤ v.value) vs (update (is_vote v.id) (set_value x) vs)
set-Shifts vs v x kind d i e = record {
  moved = tally-update kind v.target_id x v vs d i ∙ (rw (on_self v kind e));
  others = λ j h. tally-update kind j x v vs d i ∙ (rw (on_other v kind j h));
}

-- The sums of the other kind stay.
on_other_kind :
    (v : VoteRow) (kind other i : String)
    → v.target_type ≡ kind
    → (kind == other) ≡ false
    → is_on other i v ≡ false
on_other_kind v kind other i e h = rw (e, h) refl

pub record Stays (kind : String) (vs vs' : List VoteRow) : Type 0 where
  pub same : (i : String) → tally kind i vs' ≡ tally kind i vs

snoc-Stays :
    (vs : List VoteRow) (v : VoteRow) (kind other : String)
    → v.target_type ≡ kind
    → (kind == other) ≡ false
    → Stays other vs (vs ++ v ∷ [])
snoc-Stays vs v kind other e h = record {
  same = λ i. tally-snoc other i vs v ∙ (rw (on_other_kind v kind other i e h));
}

set-Stays :
    (vs : List VoteRow) (v : VoteRow) (x : ℤ) (kind other : String)
    → HasDistinct (λ (v : VoteRow). v.id) vs
    → IsIn v vs
    → v.target_type ≡ kind
    → (kind == other) ≡ false
    → Stays other vs (update (is_vote v.id) (set_value x) vs)
set-Stays vs v x kind other d i e h = record {
  same = λ j. tally-update other j x v vs d i ∙ (rw (on_other_kind v kind other j e h));
}

-- A vote of one kind says nothing of the other.
vacuous :
    (v : VoteRow) (kind other : String) (P : Type 0)
    → v.target_type ≡ kind
    → (kind == other) ≡ false
    → v.target_type ≡ other
    → P
vacuous v kind other P e h e' = cc ((eq_iff kind other).1 (sym e ∙ e'), h)

abbrev raise_story : ℤ → StoryRow → StoryRow
raise_story delta r = record r { score = r.score +ℤ delta }

abbrev raise_comment : ℤ → CommentRow → CommentRow
raise_comment delta r = record r { score = r.score +ℤ delta }

-- The targets of the votes are where they were.
abbrev OnStory : List StoryRow → VoteRow → Type 0
OnStory ss u = u.target_type ≡ "story" → any (has_id u.target_id) ss ≡ true

abbrev OnComment : List CommentRow → VoteRow → Type 0
OnComment cs u = u.target_type ≡ "comment" → any (is_comment u.target_id) cs ≡ true

raise-OnStory :
    (id : String) (delta : ℤ) (ss : List StoryRow) (vs : List VoteRow)
    → All (OnStory ss) vs
    → All (OnStory (update (has_id id) (raise_story delta) ss)) vs
raise-OnStory id delta ss vs =
    All-map _ _ vs (λ u k e.
      any-update (has_id u.target_id) (has_id id) (raise_story delta) ss (λ s. refl) ∙ k e)

raise-OnComment :
    (id : String) (delta : ℤ) (cs : List CommentRow) (vs : List VoteRow)
    → All (OnComment cs) vs
    → All (OnComment (update (is_comment id) (raise_comment delta) cs)) vs
raise-OnComment id delta cs vs = All-map _ _ vs (λ u k e.
    any-update (is_comment u.target_id) (is_comment id) (raise_comment delta) cs (λ c. refl) ∙ k e)

set-OnStory :
    (id : String) (x : ℤ) (ss : List StoryRow) (vs : List VoteRow)
    → All (OnStory ss) vs
    → All (OnStory ss) (update (is_vote id) (set_value x) vs)
set-OnStory id x ss vs = All-update (OnStory ss) (is_vote id) (set_value x) vs (λ u k. k)

set-OnComment :
    (id : String) (x : ℤ) (cs : List CommentRow) (vs : List VoteRow)
    → All (OnComment cs) vs
    → All (OnComment cs) (update (is_vote id) (set_value x) vs)
set-OnComment id x cs vs = All-update (OnComment cs) (is_vote id) (set_value x) vs (λ u k. k)

module _ {ss : List StoryRow} {cs : List CommentRow} {vs : List VoteRow}
    (t : IsTallied ss cs vs) where
  pub add_story_vote-IsTallied :
      (v : VoteRow)
      → any (is_vote v.id) vs ≡ false
      → v.target_type ≡ "story"
      → any (has_id v.target_id) ss ≡ true
      → IsTallied (update (has_id v.target_id) (raise_story v.value) ss) cs (vs ++ v ∷ [])
  add_story_vote-IsTallied v new kind exists = record {
    vote_ids = HasDistinct-snoc _ vs v new t.vote_ids;
    on_stories =
        raise-OnStory v.target_id v.value ss _ (All-snoc _ vs v t.on_stories (λ e. exists));
    on_comments = All-snoc _ vs v t.on_comments (λ e. vacuous v "story" "comment" _ kind refl e);
    story_scores =
        stories_shift v.target_id v.value vs _ ss (snoc-Shifts vs v "story" kind) t.story_scores;
    comment_scores =
        All-map _ _ cs (λ c e. e ∙ sym ((snoc-Stays vs v "story" "comment" kind refl).same c.id))
          t.comment_scores;
  }

  pub add_comment_vote-IsTallied :
      (v : VoteRow)
      → any (is_vote v.id) vs ≡ false
      → v.target_type ≡ "comment"
      → any (is_comment v.target_id) cs ≡ true
      → IsTallied ss (update (is_comment v.target_id) (raise_comment v.value) cs) (vs ++ v ∷ [])
  add_comment_vote-IsTallied v new kind exists = record {
    vote_ids = HasDistinct-snoc _ vs v new t.vote_ids;
    on_stories = All-snoc _ vs v t.on_stories (λ e. vacuous v "comment" "story" _ kind refl e);
    on_comments =
        raise-OnComment v.target_id v.value cs _ (All-snoc _ vs v t.on_comments (λ e. exists));
    story_scores =
        All-map _ _ ss (λ s e. e ∙ sym ((snoc-Stays vs v "comment" "story" kind refl).same s.id))
          t.story_scores;
    comment_scores =
        comments_shift v.target_id v.value vs _ cs (snoc-Shifts vs v "comment" kind)
          t.comment_scores;
  }

  pub change_story_vote-IsTallied :
      (v : VoteRow) (x : ℤ)
      → IsIn v vs
      → v.target_type ≡ "story"
      → IsTallied
          (update (has_id v.target_id) (raise_story (x -ℤ v.value)) ss)
          cs
          (update (is_vote v.id) (set_value x) vs)
  change_story_vote-IsTallied v x i kind = record {
    vote_ids =
        HasDistinct-update (λ (u : VoteRow). u.id) (is_vote v.id) (set_value x) vs (λ u. refl)
          t.vote_ids;
    on_stories =
        raise-OnStory v.target_id (x -ℤ v.value) ss _ (set-OnStory v.id x ss vs t.on_stories);
    on_comments = set-OnComment v.id x cs vs t.on_comments;
    story_scores =
        stories_shift v.target_id (x -ℤ v.value) vs _ ss
          (set-Shifts vs v x "story" t.vote_ids i kind) t.story_scores;
    comment_scores =
        All-map _ _ cs
          (λ c e. e ∙ sym ((set-Stays vs v x "story" "comment" t.vote_ids i kind refl).same c.id))
          t.comment_scores;
  }

  pub change_comment_vote-IsTallied :
      (v : VoteRow) (x : ℤ)
      → IsIn v vs
      → v.target_type ≡ "comment"
      → IsTallied ss
          (update (is_comment v.target_id) (raise_comment (x -ℤ v.value)) cs)
          (update (is_vote v.id) (set_value x) vs)
  change_comment_vote-IsTallied v x i kind = record {
    vote_ids =
        HasDistinct-update (λ (u : VoteRow). u.id) (is_vote v.id) (set_value x) vs (λ u. refl)
          t.vote_ids;
    on_stories = set-OnStory v.id x ss vs t.on_stories;
    on_comments =
        raise-OnComment v.target_id (x -ℤ v.value) cs _ (set-OnComment v.id x cs vs t.on_comments);
    story_scores =
        All-map _ _ ss
          (λ s e. e ∙ sym ((set-Stays vs v x "comment" "story" t.vote_ids i kind refl).same s.id))
          t.story_scores;
    comment_scores =
        comments_shift v.target_id (x -ℤ v.value) vs _ cs
          (set-Shifts vs v x "comment" t.vote_ids i kind) t.comment_scores;
  }
