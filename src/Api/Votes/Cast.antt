-- ===== src/Api/Votes/Cast.antt =====
-- `CreateVote`: the vote of the voter after the request.
use mathlib.Core.Option
use text.Mathlib.TextPositions.{eq_refl}
use slashclaw.Prelude.{
  sym, ap, eq_iff, ◌∙◌, String, true, false, Bool, Option, none, some, List, [], ◌∷◌, ◌++◌, ◌≡◌,
  refl, ◌==◌, ℤ, eq_ℤ, eq_of_eq_ℤ, Bool-cases, inl, inr, arith, subst, update, IsIn, IsIn-first,
  IsIn-select,
}
use slashclaw.Env.{Env}
use slashclaw.Env.Laws.{ScansVotes}
use slashclaw.Exec.{World, ok, when}
use slashclaw.Exec.Keeps.{Keeps, Keeps-same, keeps_rules}
use slashclaw.Exec.Triple.{
  Triple, Triple-pure, Triple-bind, Triple-on_err, Triple-Keeps, Triple-read, Triple-post,
}
use slashclaw.Exec.Steps.{Triple-skip, Triple-given, Triple-test}
use slashclaw.Config.{Config}
use slashclaw.Auth.{hash_ip}
use slashclaw.Store.Models.{Vote}
use slashclaw.Store.Rows.{VoteRow, Db}
use slashclaw.Store.Keeps.{get_vote-Keeps}
use slashclaw.Store.Triples.{Triple-write, inserted, ok_injective, query_found}
use slashclaw.Store.Votes.{
  vote_row, scan_vote, is_vote, is_from, insert_vote, create_vote as store_vote, find_vote,
  get_vote, update_vote,
}
use slashclaw.Store.Ballots.Writes.{OfVotes, unvoted_writes}
use slashclaw.Api.Votes.Others.{Any}
use slashclaw.Api.Http.{Request, client_ip, context_agent}
use slashclaw.Api.Keeps.{check_rate_limit-Keeps, check_target-Keeps}
use slashclaw.Api.Votes.{
  CreateVoteRequest, add_score, change_vote, add_vote, cast_vote, create_vote,
}

-- A stored vote that the query of the voter finds, with a value.
abbrev pub HasVote : String → String → String → String → ℤ → List VoteRow → Type 0
HasVote kind target ip agent value vs =
    (row : VoteRow) × IsIn row vs × (is_from kind target ip agent row ≡ true) × (row.value ≡ value)

-- The changed row is listed with its new value.
IsIn-set :
    (q : VoteRow → Bool) (x : ℤ) (row : VoteRow) (vs : List VoteRow)
    → IsIn row vs
    → q row ≡ true
    → IsIn (record row { value = x }) (update q (λ r. record r { value = x }) vs)
IsIn-set q x row [] i e = i
IsIn-set q x row (v ∷ vs) (inl same) e =
    let here = subst (λ u. q u ≡ true) (sym same) e in
    rw here (inl (ap (λ (u : VoteRow). record u { value = x }) same))
IsIn-set q x row (v ∷ vs) (inr i) e = inr (IsIn-set q x row vs i e)

IsIn-end : (row : VoteRow) (vs : List VoteRow) → IsIn row (vs ++ row ∷ [])
IsIn-end row [] = inl refl
IsIn-end row (v ∷ vs) = inr (IsIn-end row vs)

-- A new row answers to the query of its voter.
vote_row-is_from :
    (v : Vote)
    → (v.agent_id == "") ≡ false
    → is_from v.target_type v.target_id v.ip_hash v.agent_id (vote_row v) ≡ true
unfolding vote_row
vote_row-is_from v known =
    rw (eq_refl v.target_type, eq_refl v.target_id, known, eq_refl v.agent_id) (ground arith)

abbrev Done : CreateVoteRequest → String → String → Db → Type 0
Done req ip agent db = HasVote req.target_type req.target_id ip agent req.value db.votes

Done-OfVotes : (req : CreateVoteRequest) (ip agent : String) → OfVotes (Done req ip agent)
Done-OfVotes req ip agent = record { carry = λ db db' s h. rw s h }

-- What the query for the vote of the voter found.
abbrev Found : CreateVoteRequest → String → String → Option Vote → Db → Type 0
Found req ip agent none db = Unit
Found req ip agent (some v) db =
    (row : VoteRow) × IsIn row db.votes
    × (is_from req.target_type req.target_id ip agent row ≡ true)
    × (scan_vote row ≡ v)

module _ (env : Env) (cfg : Config) where
  add_score-Done :
      (req : CreateVoteRequest) (d : ℤ) (ip agent : String)
      → Keeps (Done req ip agent) (add_score env cfg req d)
  unfolding add_score
  add_score-Done req d ip agent = search (keeps_rules, unvoted_writes, Done-OfVotes)

  store_vote-Done :
      (v : Vote)
      → (v.agent_id == "") ≡ false
      → Triple Any
          (store_vote env v)
          (λ _ db. HasVote v.target_type v.target_id v.ip_hash v.agent_id v.value db.votes)
          (λ _. Any)
  unfolding store_vote insert_vote
  store_vote-Done v known =
      Triple-skip (λ db h. tt) (search keeps_rules)
        λ id.
          Triple-skip (λ db h. tt) (search keeps_rules)
            λ created.
              Triple-bind _
                (Triple-write env Any _ Any _ (λ db h. tt)
                  λ db db' h e.
                    let (test, same) = inserted _ _ _ db' e in
                    let saved : Vote = record v { id = id; created_at = created } in
                    subst
                      (λ (d : Db).
                        HasVote v.target_type v.target_id v.ip_hash v.agent_id v.value d.votes)
                      same
                      (
                        vote_row saved,
                        IsIn-end (vote_row saved) db.votes,
                        vote_row-is_from saved known,
                        refl,
                      ))
                λ _. Triple-pure _ _ _ (λ db h. h)

  update_vote-Done :
      (req : CreateVoteRequest) (v : Vote) (ip agent : String)
      → Triple
          (Found req ip agent (some v))
          (update_vote env v.id req.value)
          (λ _. Done req ip agent)
          (λ _. Any)
  unfolding update_vote scan_vote
  update_vote-Done req v ip agent =
      Triple-write env _ _ Any _ (λ db h. tt)
        λ db db' (row, i, from, scanned) e.
          let named = (eq_iff row.id v.id).1 (ap (λ (u : Vote). u.id) scanned) in
          subst (Done req ip agent) (ok_injective e) (
            record row { value = req.value },
            IsIn-set (is_vote v.id) req.value row db.votes i named,
            from,
            refl,
          )

  change_vote-Done :
      (req : CreateVoteRequest) (v : Vote) (ip agent : String)
      → Triple
          (Found req ip agent (some v))
          (change_vote env cfg req v)
          (λ _. Done req ip agent)
          (λ _. Any)
  unfolding change_vote when scan_vote
  change_vote-Done req v ip agent = elim (Bool-cases (eq_ℤ v.value req.value)) [
    | inl same ↦
        let value = eq_of_eq_ℤ v.value req.value same in
        rw same (
          Triple-pure _ _ tt λ db (row, i, from, scanned).
            (row, i, from, ap (λ (u : Vote). u.value) scanned ∙ value))
    | inr new ↦ rw new (
        Triple-bind (λ _. Done req ip agent) (Triple-on_err _ _ (update_vote-Done req v ip agent))
          λ _.
            Triple-post _ _ (λ _ db h. h) (λ _ db h. tt)
              (Triple-Keeps (add_score-Done req _ ip agent)))
  ]

  cast_vote-Done :
      (r : Request) (req : CreateVoteRequest) (found : Option Vote)
      → (context_agent r == "") ≡ false
      → Triple
          (Found req (hash_ip env (client_ip r)) (context_agent r) found)
          (cast_vote env cfg r req found)
          (λ _. Done req (hash_ip env (client_ip r)) (context_agent r))
          (λ _. Any)
  unfolding cast_vote add_vote
  cast_vote-Done r req none known =
      Triple-bind (λ _. Done req (hash_ip env (client_ip r)) (context_agent r))
        (Triple-on_err _ _ (store_vote-Done _ known))
        λ _.
          Triple-post _ _ (λ _ db h. h) (λ _ db h. tt)
            (Triple-Keeps (add_score-Done req req.value _ _))
  cast_vote-Done r req (some v) known = change_vote-Done req v _ _

  module _ (scans : ScansVotes env) where
    get_vote-Found :
        (req : CreateVoteRequest) (ip agent : String) (w : World) (found : Option Vote)
        → (get_vote env req.target_type req.target_id ip agent w).0 ≡ ok found
        → Found req ip agent found w.db
    unfolding get_vote
    get_vote-Found req ip agent w none e = tt
    get_vote-Found req ip agent w (some v) e =
        let (row, picked, scanned) = (Option.map-eq-some_iff scan_vote _).0 (
          ok_injective (
            query_found env (find_vote env req.target_type req.target_id ip agent) w (some v) e)) in
        let (listed, from) =
          IsIn-select (is_from req.target_type req.target_id ip agent) row w.db.votes
            ((scans _ row).0 (IsIn-first row _ picked)) in
        (row, listed, from, scanned)

-- If queries for votes find the stored ones and the agent of the request has a name: when
-- CreateVote reaches its end, the body was decoded and there is a stored vote on its target, from
-- the address of the request or by its agent, whose value is the requested one.
pub create_vote-HasVote :
    (env : Env) (cfg : Config) (r : Request) (body : Option CreateVoteRequest)
    → ScansVotes env
    → (context_agent r == "") ≡ false
    → Triple
        (λ _. Unit)
        (create_vote env cfg r body)
        (λ answer db.
          (req : CreateVoteRequest) × (body ≡ some req)
          × HasVote req.target_type req.target_id
              (hash_ip env (client_ip r))
              (context_agent r)
              req.value
              db.votes)
        (λ _ _. Unit)
unfolding create_vote
create_vote-HasVote env cfg r body scans known =
    Triple-skip (λ d h. tt) (check_rate_limit-Keeps env cfg r "vote" cfg.vote_rate_limit)
      λ rate.
        Triple-test (λ d h. tt) _ _ _
          λ allowed.
            Triple-given (λ d h. tt) _ _ _
              λ req given.
                Triple-test (λ d h. tt) _ _ _
                  λ kind.
                    Triple-test (λ d h. tt) _ _ _
                      λ value.
                        Triple-skip (λ d h. tt) (check_target-Keeps env cfg (context_agent r) req)
                          λ _.
                            Triple-bind (Found req (hash_ip env (client_ip r)) (context_agent r))
                              (Triple-on_err _ _ (
                                Triple-read _ _ _ _ (Keeps-same _ (λ Q. get_vote-Keeps env _ _ _ _))
                                  (λ w a h e. get_vote-Found env cfg scans req _ _ w a e)
                                  (λ w e h x. tt)))
                              λ found.
                                Triple-bind
                                  (λ _. Done req (hash_ip env (client_ip r)) (context_agent r))
                                  (cast_vote-Done env cfg r req found known)
                                  λ _. Triple-pure _ _ _ (λ d h. (req, given, h))
