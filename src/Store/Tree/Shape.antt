-- ===== src/Store/Tree/Shape.antt =====
-- The tree of comments in closed form: which comments stand below which.
use slashclaw.Prelude.{
  ℕ, zero, suc, ◌+◌, ◌≤◌, ◌<◌, String, Bool, true, false, Option, none, some, List, [], ◌∷◌, ◌++◌,
  map, ◌==◌, ◌&&◌, not, nat_eq, if◌then◌else◌, ◌≡◌, refl, arith, any, HasDistinct, head_ne,
  Bool-cases, Option-cases, inl, inr, sym, ap, ◌∙◌,
}
use mathlib.Core.List.{append_assoc, append-nil}
use slashclaw.Store.Models.{Comment}
use slashclaw.Store.Tree.{
  Node, Forest, by_id, find, append_child, attach, place, place_all, bare, build_comment_tree,
}

-- The places, from `i` on, of the comments that satisfy a test.
abbrev pub places : (Comment → Bool) → ℕ → List Comment → List ℕ
places p i [] = []
places p i (c ∷ cs) = let rest = places p (suc i) cs in if p c then i ∷ rest else rest

abbrev pub is_root : Comment → Bool
is_root c = c.parent_id == ""

abbrev pub is_reply_to : String → Comment → Bool
is_reply_to id c = not (c.parent_id == "") && id == c.parent_id

-- Each comment with the places of the replies to it.
unfoldable pub with_replies : List Comment → List Comment → List Node
with_replies all [] = []
with_replies all (c ∷ cs) =
    record { comment = c; children = places (is_reply_to c.id) 0 all } ∷ with_replies all cs

unfoldable pub forest_of : List Comment → Forest
unfolding with_replies
forest_of comments = record {
  nodes = with_replies comments comments;
  roots = places is_root 0 comments;
}

abbrev is_at : ℕ → Option ℕ → Bool
is_at p none = false
is_at p (some q) = nat_eq p q

-- What the loop does at a place of the map.
abbrev is_under : List (String × ℕ) → ℕ → Comment → Bool
is_under m p c = not (c.parent_id == "") && is_at p (find c.parent_id m)

-- All rounds of the loop at once, for the nodes from place `p` on.
adopt : List (String × ℕ) → ℕ → ℕ → List Comment → List Node → List Node
adopt m p i cs [] = []
adopt m p i cs (n ∷ ns) =
    record n { children = n.children ++ places (is_under m p) i cs } ∷ adopt m (suc p) i cs ns

adopt_skip :
    (m : List (String × ℕ)) (p i : ℕ) (c : Comment) (cs : List Comment) (ns : List Node)
    → ((q : ℕ) → p ≤ q → is_under m q c ≡ false)
    → adopt m p i (c ∷ cs) ns ≡ adopt m p (suc i) cs ns
unfolding adopt
adopt_skip m p i c cs [] h = refl
adopt_skip m p i c cs (n ∷ ns) h =
    rw (h p (omega arith), adopt_skip m (suc p) i c cs ns (λ q le. h q (omega arith))) refl

is_under_at :
    (m : List (String × ℕ)) (p : ℕ) (c : Comment) (q : ℕ)
    → (c.parent_id == "") ≡ false
    → find c.parent_id m ≡ some q
    → is_under m p c ≡ nat_eq p q
is_under_at m p c q r h = rw (r, h) refl

adopt_child :
    (m : List (String × ℕ)) (p q i : ℕ) (c : Comment) (cs : List Comment) (ns : List Node)
    → (c.parent_id == "") ≡ false
    → find c.parent_id m ≡ some (p + q)
    → adopt m p (suc i) cs (append_child q i ns) ≡ adopt m p i (c ∷ cs) ns
unfolding adopt append_child
adopt_child m p q i c cs [] r h = refl
adopt_child m p zero i c cs (n ∷ ns) r h =
    let here : is_under m p c ≡ true = rw (is_under_at m p c (p + 0) r h) (ground arith) in
    let above =
      adopt_skip m (suc p) i c cs ns (λ s le. is_under_at m s c (p + 0) r h ∙ ground arith) in
    rw (here, above, append_assoc n.children (i ∷ []) (places (is_under m p) (suc i) cs)) refl
adopt_child m p (suc q) i c cs (n ∷ ns) r h =
    let here : is_under m p c ≡ false = rw (is_under_at m p c (p + suc q) r h) (ground arith) in
    let deeper = adopt_child m (suc p) q i c cs ns r (h ∙ ap Option.some (omega arith)) in
    rw (here, deeper) refl

is_under_root :
    (m : List (String × ℕ)) (p : ℕ) (c : Comment)
    → (c.parent_id == "") ≡ true
    → is_under m p c ≡ false
is_under_root m p c r = rw r refl

is_under-none :
    (m : List (String × ℕ)) (p : ℕ) (c : Comment)
    → find c.parent_id m ≡ none
    → is_under m p c ≡ false
is_under-none m p c h = rw h ground arith

adopt_none : (m : List (String × ℕ)) (p i : ℕ) (ns : List Node) → adopt m p i [] ns ≡ ns
unfolding adopt
adopt_none m p i [] = refl
adopt_none m p i (n ∷ ns) = rw (append-nil n.children, adopt_none m (suc p) i ns) refl

-- The loop, with the nodes and the roots that it starts from.
place_all_lem :
    (m : List (String × ℕ)) (i : ℕ) (cs : List Comment) (ns : List Node) (rs : List ℕ)
    → place_all m i cs (record { nodes = ns; roots = rs })
      ≡ record { nodes = adopt m 0 i cs ns; roots = rs ++ places is_root i cs }
unfolding place_all place attach
place_all_lem m i [] ns rs = rw (adopt_none m 0 i ns, append-nil rs) refl
place_all_lem m i (c ∷ cs) ns rs = elim (Bool-cases (c.parent_id == "")) [
  | inl root ↦
      rw
        (
          root,
          place_all_lem m (suc i) cs ns (rs ++ i ∷ []),
          adopt_skip m 0 i c cs ns (λ q le. is_under_root m q c root),
          append_assoc rs (i ∷ []) (places is_root (suc i) cs),
        )
        refl
  | inr reply ↦ elim (Option-cases (find c.parent_id m)) [
    | inl missing ↦
        rw
          (
            reply,
            missing,
            place_all_lem m (suc i) cs ns rs,
            adopt_skip m 0 i c cs ns (λ q le. is_under-none m q c missing),
          )
          refl
    | inr (q, found) ↦
        rw
          (
            reply,
            found,
            place_all_lem m (suc i) cs (append_child q i ns) rs,
            adopt_child m 0 q i c cs ns reply (found ∙ ap Option.some (omega arith)),
          )
          refl
  ]
]

-- The map `byID`: a text that occurs among the ids is found at one of their places.
find-by_id_missing :
    (k : String) (i : ℕ) (cs : List Comment) (m : List (String × ℕ))
    → any (λ c. c.id == k) cs ≡ false
    → find k (by_id i cs m) ≡ find k m
unfolding by_id find
find-by_id_missing k i [] m h = refl
find-by_id_missing k i (c ∷ cs) m h =
    ground (arith, find-by_id_missing k (suc i) cs ((c.id, i) ∷ m))

find-by_id_present :
    (k : String) (p i : ℕ) (cs : List Comment) (m : List (String × ℕ))
    → p < i
    → any (λ c. c.id == k) cs ≡ true
    → is_at p (find k (by_id i cs m)) ≡ false
unfolding by_id find
find-by_id_present k p i [] m le h = absurd ground arith
find-by_id_present k p i (c ∷ cs) m le h = elim (Bool-cases (any (λ d. d.id == k) cs)) [
  | inl later ↦ find-by_id_present k p (suc i) cs _ (omega arith) later
  | inr last ↦ rw (find-by_id_missing k (suc i) cs ((c.id, i) ∷ m) last) (ground arith)
]

-- The map finds each id at its own place, from `p` on, and nowhere else.
Finds : List (String × ℕ) → ℕ → List Comment → Type 0
Finds m p [] = Unit
Finds m p (c ∷ cs) = ((k : String) → is_at p (find k m) ≡ (c.id == k)) × Finds m (suc p) cs

IsBelow : ℕ → List (String × ℕ) → Type 0
IsBelow i m = (k : String) (q : ℕ) → i ≤ q → is_at q (find k m) ≡ false

IsBelow-cons :
    (id : String) (i : ℕ) (m : List (String × ℕ)) → IsBelow i m → IsBelow (suc i) ((id, i) ∷ m)
unfolding IsBelow find
IsBelow-cons id i m h k q le = elim (Bool-cases (id == k)) [
  | inl same ↦ rw same (ground arith)
  | inr other ↦ rw other (h k q (omega arith))
]

none-IsBelow : IsBelow 0 []
unfolding IsBelow find
none-IsBelow k q le = refl

find-own :
    (k : String) (i : ℕ) (c : Comment) (cs : List Comment) (m : List (String × ℕ))
    → any (λ d. d.id == c.id) cs ≡ false
    → IsBelow i m
    → is_at i (find k (by_id i (c ∷ cs) m)) ≡ (c.id == k)
unfolding by_id IsBelow find
find-own k i c cs m fresh below = elim (Bool-cases (any (λ d. d.id == k) cs)) [
  | inl later ↦
      find-by_id_present k i (suc i) cs _ (omega arith) later
      ∙ sym (head_ne (λ (x : Comment). x.id) k c cs fresh later)
  | inr last ↦
      rw (find-by_id_missing k (suc i) cs ((c.id, i) ∷ m) last) (elim (Bool-cases (c.id == k)) [
        | inl same ↦ rw same (ground arith)
        | inr other ↦ rw other (below k i (omega arith))
      ])
]

by_id-Finds :
    (i : ℕ) (cs : List Comment) (m : List (String × ℕ))
    → HasDistinct (λ c. c.id) cs
    → IsBelow i m
    → Finds (by_id i cs m) i cs
unfolding Finds by_id
by_id-Finds i [] m h below = tt
by_id-Finds i (c ∷ cs) m h below = (
  λ k. find-own k i c cs m h.0 below,
  by_id-Finds (suc i) cs ((c.id, i) ∷ m) h.1 (IsBelow-cons c.id i m below),
)

places-cong :
    (p q : Comment → Bool) (i : ℕ) (cs : List Comment)
    → ((c : Comment) → p c ≡ q c)
    → places p i cs ≡ places q i cs
places-cong p q i [] h = refl
places-cong p q i (c ∷ cs) h = rw (h c, places-cong p q (suc i) cs h) refl

adopt-with_replies :
    (m : List (String × ℕ)) (p : ℕ) (all cs : List Comment)
    → Finds m p cs
    → adopt m p 0 all (map bare cs) ≡ with_replies all cs
unfolding adopt with_replies Finds
adopt-with_replies m p all [] h = refl
adopt-with_replies m p all (c ∷ cs) h =
    rw
      (
        places-cong (is_under m p) (is_reply_to c.id) 0 all
            (λ d. ap (λ b. not (d.parent_id == "") && b) (h.0 d.parent_id)),
        adopt-with_replies m (suc p) all cs h.1,
      )
      refl

-- For comments whose ids are distinct, buildCommentTree returns the tree in closed form: its roots
-- are the comments without a parent, and the children of a comment are those whose parent_id is its
-- id, both in the order of the list; a reply to a comment that is not in the list is nowhere.
pub build_comment_tree-forest_of :
    (comments : List Comment)
    → HasDistinct (λ c. c.id) comments
    → build_comment_tree comments ≡ forest_of comments
unfolding build_comment_tree forest_of
build_comment_tree-forest_of comments h =
    let m = by_id 0 comments [] in
    rw
      (
        place_all_lem m 0 comments (map bare comments) [],
        adopt-with_replies m 0 comments comments (by_id-Finds 0 comments [] h none-IsBelow),
      )
      refl
