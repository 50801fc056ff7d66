-- ===== src/Store/Tree/Ends.antt =====
-- The tree that `ListComments` returns has no cycle: a walk down from any comment ends.
use mathlib.Core.WellFounded.{Acc}
use mathlib.Core.Option.{some-injective}
use slashclaw.Prelude.{
  ℕ, zero, suc, ◌+◌, ◌≤◌, ◌<◌, String, Bool, true, Option, none, some, List, [], ◌∷◌, ◌==◌, ◌≡◌,
  refl, arith, IsIn, HasDistinct, get_elem?, length, inl, inr, sym, subst, ◌∙◌, not, ◌&&◌, eq_iff,
  ap, Bool-cases,
}
use slashclaw.Store.Models.{Comment}
use slashclaw.Store.Rows.{CommentRow}
use slashclaw.Store.Sql.{string_of}
use slashclaw.Store.Comments.{scan_comment}
use slashclaw.Store.Threads.{ParentsFirst, rank, rank-IsIn, rank-reply}
use slashclaw.Store.Tree.{Node, Forest}
use slashclaw.Store.Tree.Shape.{places, is_reply_to, with_replies, forest_of}

-- The comment at place `j` is among the children of the one at place `i`.
abbrev pub IsChild : Forest → ℕ → ℕ → Type 0
IsChild f j i = (n : Node) × (get_elem? f.nodes i ≡ some n) × IsIn j n.children

pub node_at :
    (all cs : List Comment) (i : ℕ) (n : Node)
    → get_elem? (with_replies all cs) i ≡ some n
    → (c : Comment) × (get_elem? cs i ≡ some c)
      × IsIn c cs
      × (n.children ≡ places (is_reply_to c.id) 0 all)
unfolding with_replies
node_at all [] i n e = absurd ground arith
node_at all (c ∷ cs) zero n e =
    (c, refl, inl refl, ap (λ (x : Node). x.children) (sym (some-injective _ _ e)))
node_at all (c ∷ cs) (suc i) n e =
    let (d, at, there, same) = node_at all cs i n e in (d, at, inr there, same)

-- A comment that passes the test, whose place, counted from `i`, is `j`.
unfoldable pub Passes : (Comment → Bool) → ℕ → ℕ → List Comment → Type 0
Passes p i j cs =
    (k : ℕ) × (j ≡ i + k) × (c : Comment) × (get_elem? cs k ≡ some c) × IsIn c cs × (p c ≡ true)

Passes-cons :
    (p : Comment → Bool) (i j : ℕ) (c : Comment) (cs : List Comment)
    → Passes p (suc i) j cs
    → Passes p i j (c ∷ cs)
unfolding Passes
Passes-cons p i j c cs (k, e, d, at, there, q) = (suc k, omega arith, d, at, inr there, q)

pub place_at :
    (p : Comment → Bool) (i j : ℕ) (cs : List Comment) → IsIn j (places p i cs) → Passes p i j cs
unfolding Passes
place_at p i j [] h = absurd h
place_at p i j (c ∷ cs) h = elim (Bool-cases (p c)) [
  | inl passes ↦ elim (rw passes at h) [
    | inl e ↦ (0, omega arith, c, refl, inl refl, passes)
    | inr later ↦ Passes-cons p i j c cs (place_at p (suc i) j cs later)
  ]
  | inr fails ↦ Passes-cons p i j c cs (place_at p (suc i) j cs (rw fails at h))
]

-- The comments are rows of the table.
abbrev pub AreRows : List CommentRow → List Comment → Type 0
AreRows table cs =
    (c : Comment) → IsIn c cs → (r : CommentRow) × IsIn r table × (scan_comment r ≡ c)

parent_of :
    (id : String) (o : Option String)
    → (not (string_of o == "") && id == string_of o) ≡ true
    → o ≡ some id
parent_of id none h = cc
parent_of id (some s) h = ap Option.some (sym ((eq_iff id s).0 (ground arith)))

module _ (table : List CommentRow) (ids : HasDistinct (λ (r : CommentRow). r.id) table)
    (order : ParentsFirst [] table) (all : List Comment) (rows : AreRows table all) where
  reply-rank :
      (id : String) (c : Comment)
      → IsIn c all
      → is_reply_to id c ≡ true
      → (rank id table < rank c.id table) × (rank c.id table < length table)
  unfolding scan_comment
  reply-rank id c there reply =
      let (r, i, same) = rows c there in
      let same_id : r.id ≡ c.id = ap (λ (x : Comment). x.id) same in
      let same_parent : string_of r.parent_id ≡ c.parent_id =
        ap (λ (x : Comment). x.parent_id) same in
      let parent : r.parent_id ≡ some id = parent_of id r.parent_id (rw same_parent reply) in
      (
        rw (← same_id) (rank-reply id r [] table ids order refl i parent),
        rw (← same_id) (rank-IsIn r table i),
      )

  -- What the child of a place says of the comments at both.
  child_at :
      (i j : ℕ)
      → IsChild (forest_of all) j i
      → (c d : Comment) × (get_elem? all i ≡ some c)
        × (get_elem? all j ≡ some d)
        × (rank c.id table < rank d.id table)
        × (rank d.id table < length table)
  unfolding forest_of Passes
  child_at i j (node, at_node, inside) =
      let (c, at_c, in_c, same) = node_at all all i node at_node in
      let (k, e, d, at_d, in_d, reply) = place_at (is_reply_to c.id) 0 j all (rw same at inside) in
      let (lt, lt_end) = reply-rank c.id d in_d reply in
      let back : k ≡ j = omega (arith, e) in
      (c, d, at_c, subst (λ x. get_elem? all x ≡ some d) back at_d, lt, lt_end)

  ends_from :
      (n i : ℕ)
      → ((c : Comment) → get_elem? all i ≡ some c → length table ≤ rank c.id table + n)
      → Acc (IsChild (forest_of all)) i
  ends_from zero i bound = Acc.intro i λ j child.
      let (c, d, at_c, at_d, lt, lt_end) = child_at i j child in
      let full = bound c at_c in absurd (omega arith)
  ends_from (suc n) i bound = Acc.intro i λ j child.
      let (c, d, at_c, at_d, lt, lt_end) = child_at i j child in
      ends_from n j λ d' at_d'.
        let full = bound c at_c in
        let same : d ≡ d' = some-injective _ _ (sym at_d ∙ at_d') in rw (← same) (omega arith)

  pub ends : (i : ℕ) → Acc (IsChild (forest_of all)) i
  ends i = ends_from (length table) i (λ c at. omega arith)
