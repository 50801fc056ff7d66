-- ===== src/Store/Ballots.antt =====
-- One vote for a voter on a target, where a voter is known by its address and by its agent.
pub mod Writes
use slashclaw.Prelude.{
  String, Bool, true, false, ◌&&◌, ◌||◌, Option, none, some, List, [], ◌∷◌, ◌++◌, ◌≡◌, ◌∙◌,
  any-weaken, refl, ◌==◌, eq_iff, any, first, select, update, arith, ℤ, if◌then◌else◌, Bool-cases,
  inl, inr, any-append, any-update, IsIn, any-IsIn,
}
use mathlib.Core.Option
use slashclaw.Env.{Env}
use slashclaw.Env.Laws.{ScansVotes}
use slashclaw.Exec.{ok}
use slashclaw.Store.Rows.{VoteRow, Db}
use slashclaw.Store.Triples.{ok_injective}
use slashclaw.Store.Models.{Vote}
use slashclaw.Store.Sql.{sql_eq, null_string}
use slashclaw.Store.Votes.{vote_row, is_from, find_vote, same_column, scan_vote}

-- Two votes on the same target from the same address or by the same agent.
abbrev pub clash : VoteRow → VoteRow → Bool
clash a b =
    a.target_type == b.target_type
    && a.target_id == b.target_id
    && (same_column a.ip_hash b.ip_hash || same_column a.agent_id b.agent_id)

abbrev pub OneVote : List VoteRow → Type 0
OneVote [] = Unit
OneVote (v ∷ vs) = (any (clash v) vs ≡ false) × OneVote vs

OneVote-snoc :
    (vs : List VoteRow) (v : VoteRow)
    → any (λ u. clash u v) vs ≡ false
    → OneVote vs
    → OneVote (vs ++ v ∷ [])
OneVote-snoc [] v e h = (refl, tt)
OneVote-snoc (u ∷ us) v e h =
    (ground (arith, h.0, any-append (clash u) us (v ∷ [])), OneVote-snoc us v (ground arith) h.1)

-- The value does not matter.
pub OneVote-update :
    (q : VoteRow → Bool) (x : ℤ) (vs : List VoteRow)
    → OneVote vs
    → OneVote (update q (λ r. record r { value = x }) vs)
OneVote-update q x [] h = tt
OneVote-update q x (v ∷ vs) h =
    let rest = OneVote-update q x vs h.1 in
    let same = any-update (clash v) q (λ r. record r { value = x }) vs (λ r. refl) in
    elim (Bool-cases (q v)) [ inl e ↦ rw e (same ∙ h.0, rest) | inr e ↦ rw e (same ∙ h.0, rest) ]

-- Columns that are equal and not NULL answer to the same query.
same_column-sql_eq :
    (o : Option String) (s : String) → same_column o (null_string s) ≡ true → sql_eq o s ≡ true
same_column-sql_eq none s h = h
same_column-sql_eq (some t) s h = ground (arith, eq_iff s t, eq_iff t s)

clash-is_from :
    (v : Vote) (u : VoteRow)
    → clash u (vote_row v) ≡ true
    → is_from v.target_type v.target_id v.ip_hash v.agent_id u ≡ true
unfolding vote_row
clash-is_from v u h =
    ground (arith, same_column-sql_eq u.ip_hash v.ip_hash, same_column-sql_eq u.agent_id v.agent_id)

none-clash :
    (v : Vote) (us : List VoteRow)
    → any (is_from v.target_type v.target_id v.ip_hash v.agent_id) us ≡ false
    → any (λ u. clash u (vote_row v)) us ≡ false
none-clash v us h = ground (
  arith,
  any-weaken (λ u. clash u (vote_row v)) (is_from v.target_type v.target_id v.ip_hash v.agent_id) us
      (clash-is_from v),
)

-- A vote of a voter for which the query finds none.
pub OneVote-added :
    (v : Vote) (vs : List VoteRow)
    → any (is_from v.target_type v.target_id v.ip_hash v.agent_id) vs ≡ false
    → OneVote vs
    → OneVote (vs ++ vote_row v ∷ [])
OneVote-added v vs free h = OneVote-snoc vs (vote_row v) (none-clash v vs free) h

skipped :
    (p : VoteRow → Bool) (u v : VoteRow) (vs : List VoteRow)
    → p v ≡ false
    → IsIn u (select p vs)
    → IsIn u (select p (v ∷ vs))
skipped p u v vs e i = rw e i

-- A query that finds no vote.
none-select :
    (p : VoteRow → Bool) (vs : List VoteRow)
    → ((v : VoteRow) → IsIn v (select p vs) → ⊥)
    → any p vs ≡ false
none-select p [] k = refl
none-select p (v ∷ vs) k = elim (Bool-cases (p v)) [
  | inl e ↦ absurd (k v (rw e (inl refl)))
  | inr e ↦ rw e (none-select p vs (λ u i. k u (skipped p u v vs e i)))
]

first-none : (vs : List VoteRow) (v : VoteRow) → first vs ≡ none → IsIn v vs → ⊥
first-none [] v e i = i
first-none (u ∷ us) v e i = cc

pub find_vote-none :
    (env : Env) (kind target ip agent : String) (db : Db)
    → ScansVotes env
    → find_vote env kind target ip agent db ≡ ok none
    → any (is_from kind target ip agent) db.votes ≡ false
find_vote-none env kind target ip agent db scans e = none-select _ db.votes λ v i.
    first-none (env.scan_votes (select (is_from kind target ip agent) db.votes)) v
      ((Option.map-eq-none_iff scan_vote _).0 (ok_injective e)) ((scans _ v).1 i)
