-- ===== src/Store/Tally.antt =====
-- The score of a story or a comment against the votes on it: the sum, the invariant that ties the
-- two, and the writes that keep it by themselves.
pub mod Writes
pub mod Casts
use text.Mathlib.TextPositions.{eq_refl}
use slashclaw.Prelude.{
  +ℤ_comm, ℕ, ◌+◌, String, Bool, true, false, ◌&&◌, ◌||◌, List, [], ◌∷◌, ◌++◌, ◌≡◌, refl, ◌≢◌, inl,
  inr, ℤ, pos, ◌+ℤ◌, ◌-ℤ◌, ◌==◌, eq_iff, arith, int_laws, +ℤ_parts, -ℤ_parts, eq_of_parts, any,
  update, select, All, IsIn, HasDistinct, HasDistinct-snoc, HasDistinct-update, All-IsIn, any-IsIn,
  any-append, any-update, All-update, All-update_test, All-map, All-snoc, if◌then◌else◌, Bool-cases,
  sym, ap, subst, ◌∙◌,
}
use slashclaw.Store.Rows.{StoryRow, CommentRow, VoteRow, Db}
use slashclaw.Store.Stories.{has_id}
use slashclaw.Store.Comments.{is_comment}
use slashclaw.Store.Votes.{is_vote}

abbrev pub is_on : String → String → VoteRow → Bool
is_on kind id v = v.target_type == kind && v.target_id == id

-- The votes on a target, added up.
unfoldable pub tally : String → String → List VoteRow → ℤ
tally kind id [] = pos 0
tally kind id (v ∷ vs) =
    let rest = tally kind id vs in if is_on kind id v then v.value +ℤ rest else rest

abbrev pub set_value : ℤ → VoteRow → VoteRow
set_value x v = record v { value = x }

-- One row in front, `b` if it counts, of a sum that grows by `y` if `c`.
sum_step :
    (b c : Bool) (x t t' y : ℤ)
    → t' ≡ (if c then t +ℤ y else t)
    → (if b then x +ℤ t' else t')
      ≡ (if c then (if b then x +ℤ t else t) +ℤ y else if b then x +ℤ t else t)
sum_step true true x t t' y h = rw h (omega int_laws)
sum_step true false x t t' y h = rw h refl
sum_step false true x t t' y h = h
sum_step false false x t t' y h = h

pub tally-snoc :
    (kind id : String) (vs : List VoteRow) (v : VoteRow)
    → tally kind id (vs ++ v ∷ [])
      ≡ (if is_on kind id v then tally kind id vs +ℤ v.value else tally kind id vs)
unfolding tally
tally-snoc kind id [] v = ap (λ t. if is_on kind id v then t else pos 0) (+ℤ_comm v.value (pos 0))
tally-snoc kind id (x ∷ vs) v = sum_step _ _ _ _ _ _ (tally-snoc kind id vs v)

pub tally-none :
    (kind id : String) (vs : List VoteRow)
    → All (λ v. is_on kind id v ≡ false) vs
    → tally kind id vs ≡ pos 0
unfolding tally
tally-none kind id [] h = refl
tally-none kind id (v ∷ vs) h = rw h.0 (tally-none kind id vs h.1)

update_none :
    (id : String) (x : ℤ) (vs : List VoteRow)
    → any (is_vote id) vs ≡ false
    → update (is_vote id) (set_value x) vs ≡ vs
update_none id x [] h = refl
update_none id x (v ∷ vs) h = ground (arith, update_none id x vs)

replaced :
    (b : Bool) (x y t : ℤ)
    → (if b then x +ℤ t else t)
      ≡ (if b then (if b then y +ℤ t else t) +ℤ (x -ℤ y) else if b then y +ℤ t else t)
replaced true x y t = omega int_laws
replaced false x y t = refl

abbrev Moved : String → String → ℤ → VoteRow → List VoteRow → Type 0
Moved kind id x r vs =
    tally kind id (update (is_vote r.id) (set_value x) vs)
    ≡ (if is_on kind id r then tally kind id vs +ℤ (x -ℤ r.value) else tally kind id vs)

Moved-here :
    (kind id : String) (x : ℤ) (v : VoteRow) (vs : List VoteRow)
    → any (is_vote v.id) vs ≡ false
    → Moved kind id x v (v ∷ vs)
unfolding tally
Moved-here kind id x v vs h =
    rw (eq_refl v.id, update_none v.id x vs h) (replaced (is_on kind id v) x v.value _)

Moved-there :
    (kind id : String) (x : ℤ) (r v : VoteRow) (vs : List VoteRow)
    → is_vote r.id v ≡ false
    → Moved kind id x r vs
    → Moved kind id x r (v ∷ vs)
unfolding tally
Moved-there kind id x r v vs h ih = rw h (sum_step _ _ _ _ _ _ ih)

other_id :
    (r v : VoteRow) (vs : List VoteRow)
    → IsIn r vs
    → any (is_vote v.id) vs ≡ false
    → is_vote r.id v ≡ false
other_id r v vs i h =
    ground (arith, any-IsIn (is_vote v.id) r vs i, eq_iff v.id r.id, eq_iff r.id v.id)

-- A changed vote moves the sum of its target by the difference, and no other sum.
pub tally-update :
    (kind id : String) (x : ℤ) (r : VoteRow) (vs : List VoteRow)
    → HasDistinct (λ (v : VoteRow). v.id) vs
    → IsIn r vs
    → Moved kind id x r vs
tally-update kind id x r [] d i = absurd i
tally-update kind id x r (v ∷ vs) d (inl e) =
    subst (λ q. Moved kind id x q (v ∷ vs)) e (Moved-here kind id x v vs d.0)
tally-update kind id x r (v ∷ vs) d (inr i) =
    Moved-there kind id x r v vs (other_id r v vs i d.0) (tally-update kind id x r vs d.1 i)

-- The votes have distinct ids and stand on rows that exist, and each score is the sum of the votes.
pub record IsTallied (stories : List StoryRow) (comments : List CommentRow) (votes : List VoteRow)
    : Type 0 where
  pub vote_ids : HasDistinct (λ (v : VoteRow). v.id) votes
  pub on_stories :
      All (λ v. v.target_type ≡ "story" → any (has_id v.target_id) stories ≡ true) votes
  pub on_comments :
      All (λ v. v.target_type ≡ "comment" → any (is_comment v.target_id) comments ≡ true) votes
  pub story_scores : All (λ s. s.score ≡ tally "story" s.id votes) stories
  pub comment_scores : All (λ c. c.score ≡ tally "comment" c.id votes) comments

abbrev pub Tallied : Db → Type 0
Tallied db = IsTallied db.stories db.comments db.votes
