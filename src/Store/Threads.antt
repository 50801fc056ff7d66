-- ===== src/Store/Threads.antt =====
-- The order in which comments are stored: a reply comes after the comment that it replies to.
use text.Mathlib.TextPositions.{eq_refl}
use slashclaw.Prelude.{
  ℕ, suc, ◌<◌, String, Bool, true, false, ◌||◌, some, List, [], ◌∷◌, ◌++◌, ◌≡◌, sym, ◌∙◌, ◌==◌, any,
  update, arith, if◌then◌else◌, Bool-cases, inl, inr, IsIn, any-IsIn, length, HasDistinct, head_ne,
}
use slashclaw.Store.Rows.{CommentRow}
use slashclaw.Store.Comments.{is_comment}

abbrev pub is_seen : String → List String → Bool
is_seen id seen = any (λ s. s == id) seen

-- Each parent is among the texts seen so far, or stands earlier in the list.
abbrev pub ParentsFirst : List String → List CommentRow → Type 0
ParentsFirst seen [] = Unit
ParentsFirst seen (c ∷ cs) =
    ((id : String) → c.parent_id ≡ some id → is_seen id seen ≡ true) × ParentsFirst (c.id ∷ seen) cs

pub ParentsFirst-snoc :
    (seen : List String) (cs : List CommentRow) (x : CommentRow)
    → ((id : String) → x.parent_id ≡ some id → (is_seen id seen || any (is_comment id) cs) ≡ true)
    → ParentsFirst seen cs
    → ParentsFirst seen (cs ++ x ∷ [])
ParentsFirst-snoc seen [] x p h = (λ id e. ground (arith, p id e), tt)
ParentsFirst-snoc seen (c ∷ cs) x p h =
    (h.0, ParentsFirst-snoc (c.id ∷ seen) cs x (λ id e. ground (arith, p id e)) h.1)

pub ParentsFirst-update :
    (q : CommentRow → Bool) (f : CommentRow → CommentRow)
    → ((c : CommentRow) → (f c).id ≡ c.id)
    → ((c : CommentRow) → (f c).parent_id ≡ c.parent_id)
    → (seen : List String) (cs : List CommentRow) → ParentsFirst seen cs
    → ParentsFirst seen (update q f cs)
ParentsFirst-update q f same_id same_parent seen [] h = tt
ParentsFirst-update q f same_id same_parent seen (c ∷ cs) h =
    let rest = ParentsFirst-update q f same_id same_parent (c.id ∷ seen) cs h.1 in
    elim (Bool-cases (q c)) [
      | inl e ↦ rw (e, same_id c) (λ id p. h.0 id (sym (same_parent c) ∙ p), rest)
      | inr e ↦ rw e (h.0, rest)
    ]

-- The place of a comment in the table.
unfoldable pub rank : String → List CommentRow → ℕ
rank id [] = 0
rank id (c ∷ cs) = let rest = rank id cs in if c.id == id then 0 else suc rest

pub rank-IsIn : (r : CommentRow) (cs : List CommentRow) → IsIn r cs → rank r.id cs < length cs
unfolding rank
rank-IsIn r [] i = absurd i
rank-IsIn r (c ∷ cs) (inl e) = rw (e) ground (arith, eq_refl r.id)
rank-IsIn r (c ∷ cs) (inr i) = ground (arith, rank-IsIn r cs i)

-- A reply stands behind its parent.
pub rank-reply :
    (id : String) (r : CommentRow) (seen : List String) (cs : List CommentRow)
    → HasDistinct (λ (c : CommentRow). c.id) cs
    → ParentsFirst seen cs
    → is_seen id seen ≡ false
    → IsIn r cs
    → r.parent_id ≡ some id
    → rank id cs < rank r.id cs
unfolding rank
rank-reply id r seen [] d h new i p = absurd i
rank-reply id r seen (c ∷ cs) d h new (inl e) p = let early = h.0 id (rw e p) in ground arith
rank-reply id r seen (c ∷ cs) d h new (inr i) p =
    let later = any-IsIn (is_comment r.id) r cs i (eq_refl r.id) in
    let ne = head_ne (λ (x : CommentRow). x.id) r.id c cs d.0 later in
    elim (Bool-cases (c.id == id)) [
      | inl same ↦ rw same (ground arith)
      | inr other ↦
          let rest = rank-reply id r (c.id ∷ seen) cs d.1 h.1 (rw other new) i p in ground arith
    ]
