-- ===== src/Store/Tree/Reach.antt =====
-- What the roots of the tree reach.
use mathlib.Core.Option.{some-injective}
use slashclaw.Prelude.{
  ℕ, zero, suc, ◌+◌, Bool, true, false, some, List, [], ◌∷◌, ◌==◌, eq_iff, ◌≡◌, ◌↔◌, sym, ◌∙◌,
  subst, arith, IsIn, get_elem?, inl, inr, Bool-cases, ap,
}
use slashclaw.Store.Models.{Comment}
use slashclaw.Store.Tree.{Forest}
use slashclaw.Store.Tree.Shape.{places, is_root, is_reply_to, with_replies, forest_of}
use slashclaw.Store.Tree.Ends.{IsChild, Passes, node_at, place_at}

-- The places that a walk from the roots down the children comes to.
pub data Reached (f : Forest) : ℕ → Type 0 where
  at_root : (i : ℕ) → IsIn i f.roots → Reached f i
  below : (i j : ℕ) → Reached f i → IsChild f j i → Reached f j

-- A comment without a parent, or a reply to a listed comment of this kind.
pub data Shown (listed : List Comment) : Comment → Type 0 where
  top_level : (c : Comment) → c.parent_id ≡ "" → Shown listed c
  reply :
      (c p : Comment)
      → (c.parent_id == "") ≡ false
      → c.parent_id ≡ p.id
      → IsIn p listed
      → Shown listed p
      → Shown listed c

element : {A : Type 0} (a : A) (xs : List A) → IsIn a xs → (i : ℕ) × (get_elem? xs i ≡ some a)
element a [] i = absurd i
element a (x ∷ xs) (inl e) = (0, ap some e)
element a (x ∷ xs) (inr i) = let (k, e) = element a xs i in (suc k, e)

place_in :
    (p : Comment → Bool) (i k : ℕ) (cs : List Comment) (c : Comment)
    → get_elem? cs k ≡ some c
    → p c ≡ true
    → IsIn (i + k) (places p i cs)
place_in p i k [] c e q = absurd ground arith
place_in p i zero (d ∷ cs) c e q =
    let passes : p d ≡ true = subst (λ x. p x ≡ true) (sym (some-injective _ _ e)) q in
    rw passes (inl (omega arith))
place_in p i (suc k) (d ∷ cs) c e q =
    let rest : IsIn (i + suc k) (places p (suc i) cs) =
      subst (λ n. IsIn n (places p (suc i) cs)) (omega arith) (place_in p (suc i) k cs c e q) in
    elim (Bool-cases (p d)) [ inl passes ↦ rw passes (inr rest) | inr fails ↦ rw fails rest ]

place_listed :
    (p : Comment → Bool) (k : ℕ) (cs : List Comment) (c : Comment)
    → get_elem? cs k ≡ some c
    → p c ≡ true
    → IsIn k (places p 0 cs)
place_listed p k cs c e q =
    subst (λ n. IsIn n (places p 0 cs)) (omega arith) (place_in p 0 k cs c e q)

node_in :
    (all cs : List Comment) (i : ℕ) (c : Comment)
    → get_elem? cs i ≡ some c
    → get_elem? (with_replies all cs) i
      ≡ some (record { comment = c; children = places (is_reply_to c.id) 0 all })
unfolding with_replies
node_in all [] i c e = absurd ground arith
node_in all (d ∷ cs) zero c e =
    ap (λ (x : Comment). some (record { comment = x; children = places (is_reply_to x.id) 0 all }))
      (some-injective _ _ e)
node_in all (d ∷ cs) (suc i) c e = node_in all cs i c e

module _ (cs : List Comment) where
  same_element : (i : ℕ) (c d : Comment) → get_elem? cs i ≡ some c → get_elem? cs i ≡ some d → c ≡ d
  same_element i c d e e' = some-injective _ _ (sym e ∙ e')

  Reached-Shown :
      (i : ℕ) (c : Comment) → Reached (forest_of cs) i → get_elem? cs i ≡ some c → Shown cs c
  unfolding forest_of Passes
  Reached-Shown i c (at_root _ root) e =
      let (k, is_k, d, at, there, passes) = place_at is_root 0 i cs root in
      let same =
        same_element i c d e (subst (λ n. get_elem? cs n ≡ some d) (omega (arith, is_k)) at) in
      top_level c ((eq_iff c.parent_id "").0 (subst (λ x. is_root x ≡ true) (sym same) passes))
  Reached-Shown j c (below i _ reached (n, at_n, among)) e =
      let (p, at_p, listed, children) = node_at cs cs i n at_n in
      let (k, is_k, d, at, there, passes) =
        place_at (is_reply_to p.id) 0 j cs (subst (λ js. IsIn j js) children among) in
      let same =
        same_element j c d e (subst (λ m. get_elem? cs m ≡ some d) (omega (arith, is_k)) at) in
      let answers = subst (λ x. is_reply_to p.id x ≡ true) (sym same) passes in
      reply c p (ground arith) (sym ((eq_iff p.id c.parent_id).0 (ground arith))) listed
        (Reached-Shown i p reached at_p)

  Shown-Reached :
      (c : Comment) → Shown cs c → (i : ℕ) → get_elem? cs i ≡ some c → Reached (forest_of cs) i
  unfolding forest_of
  Shown-Reached c (top_level _ root) i e =
      at_root i (place_listed is_root i cs c e ((eq_iff c.parent_id "").1 root))
  Shown-Reached c (reply _ p has is there shown) i e =
      let (k, at) = element p cs there in
      let answers : is_reply_to p.id c ≡ true = rw has ((eq_iff p.id c.parent_id).1 (sym is)) in
      below k i (Shown-Reached p shown k at)
        (_, node_in cs cs k p at, place_listed (is_reply_to p.id) i cs c e answers)

-- The tree in closed form reaches just the comments all of whose ancestors are listed.
pub Reached-iff-Shown :
    (cs : List Comment) (i : ℕ) (c : Comment)
    → get_elem? cs i ≡ some c
    → Reached (forest_of cs) i ↔ Shown cs c
Reached-iff-Shown cs i c e = (λ r. Reached-Shown cs i c r e, λ s. Shown-Reached cs c s i e)
