-- ===== src/Api/Votes/One.antt =====
-- `CreateVote` and the votes of a voter on a target, whatever the database answers.
use slashclaw.Prelude.{String, false, Option, some, none, ◌≡◌, ℤ, any, subst}
use slashclaw.Env.{Env}
use slashclaw.Env.Laws.{ScansVotes}
use slashclaw.Exec.{World, ok}
use slashclaw.Exec.Keeps.{Keeps, Keeps-same, Keeps-bind, keeps_rules}
use slashclaw.Exec.Triple.{
  Triple, Triple-pure, Triple-bind, Triple-on_err, Keeps-Triple, Triple-Keeps, Triple-read,
  Triple-pre,
}
use slashclaw.Exec.Steps.{Triple-skip}
use slashclaw.Config.{Config}
use slashclaw.Auth.{hash_ip}
use slashclaw.Store.Models.{Vote}
use slashclaw.Store.Rows.{Db}
use slashclaw.Store.Keeps.{get_vote-Keeps, Keeps-execute}
use slashclaw.Store.Triples.{Triple-write, inserted, ok_injective, query_found}
use slashclaw.Store.Votes.{
  create_vote as store_vote, update_vote, get_vote, find_vote, is_from, insert_vote,
}
use slashclaw.Store.Ballots.{OneVote-added, OneVote-update, find_vote-none}
use slashclaw.Store.Ballots.Writes.{One, One-OfVotes, unvoted_writes}
use slashclaw.Api.Http.{Request, client_ip, context_agent}
use slashclaw.Api.Keeps.{check_rate_limit-Keeps, check_target-Keeps}
use slashclaw.Api.Votes.{
  CreateVoteRequest, add_score, change_vote, add_vote, cast_vote, create_vote,
}

-- The query for the vote of the voter found none.
abbrev Free : CreateVoteRequest → String → String → Option Vote → Db → Type 0
Free req ip agent none db = any (is_from req.target_type req.target_id ip agent) db.votes ≡ false
Free req ip agent (some v) db = Unit

module _ (env : Env) (cfg : Config) where
  add_score-One : (req : CreateVoteRequest) (d : ℤ) → Keeps One (add_score env cfg req d)
  unfolding add_score
  add_score-One req d = search (keeps_rules, unvoted_writes, One-OfVotes)

  update_vote-One : (id : String) (x : ℤ) → Keeps One (update_vote env id x)
  unfolding update_vote
  update_vote-One id x =
      Keeps-execute env _ λ db db' h e. subst One (ok_injective e) (OneVote-update _ x db.votes h)

  store_vote-One :
      (v : Vote)
      → Triple
          (λ db.
            One db
            × (any (is_from v.target_type v.target_id v.ip_hash v.agent_id) db.votes ≡ false))
          (store_vote env v)
          (λ _. One)
          (λ _. One)
  unfolding store_vote insert_vote
  store_vote-One v =
      Triple-skip (λ db h. h.0) (search keeps_rules)
        λ id.
          Triple-skip (λ db h. h.0) (search keeps_rules)
            λ created.
              Triple-bind (λ _. One)
                (Triple-write env _ One One _ (λ db h. h.0)
                  λ db db' h e.
                    let (test, same) = inserted _ _ _ db' e in
                    subst One same
                      (OneVote-added (record v { id = id; created_at = created }) db.votes h.1 h.0))
                λ _. Triple-pure _ _ _ (λ db h. h)

  add_vote-One :
      (r : Request) (req : CreateVoteRequest) (ip : String)
      → Triple
          (λ db. One db × Free req ip (context_agent r) none db)
          (add_vote env cfg r req ip)
          (λ _. One)
          (λ _. One)
  unfolding add_vote
  add_vote-One r req ip =
      Triple-bind (λ _. One) (Triple-on_err _ _ (store_vote-One _))
        λ _. Triple-Keeps (add_score-One req req.value)

  change_vote-One : (req : CreateVoteRequest) (v : Vote) → Keeps One (change_vote env cfg req v)
  unfolding change_vote
  change_vote-One req v = search (keeps_rules, update_vote-One, add_score-One)

  cast_vote-One :
      (r : Request) (req : CreateVoteRequest) (found : Option Vote)
      → Triple
          (λ db. One db × Free req (hash_ip env (client_ip r)) (context_agent r) found db)
          (cast_vote env cfg r req found)
          (λ _. One)
          (λ _. One)
  unfolding cast_vote
  cast_vote-One r req none = add_vote-One r req _
  cast_vote-One r req (some v) = Triple-pre _ (λ db h. h.0) (Triple-Keeps (change_vote-One req v))

  module _ (scans : ScansVotes env) where
    get_vote-Free :
        (req : CreateVoteRequest) (ip agent : String) (w : World) (found : Option Vote)
        → (get_vote env req.target_type req.target_id ip agent w).0 ≡ ok found
        → Free req ip agent found w.db
    unfolding get_vote
    get_vote-Free req ip agent w none e =
        find_vote-none env req.target_type req.target_id ip agent w.db scans
          (query_found env (find_vote env req.target_type req.target_id ip agent) w none e)
    get_vote-Free req ip agent w (some v) e = tt

    -- Whatever the request and however it ends, two votes of a voter on a target do not arise.
    pub create_vote-One :
        (r : Request) (body : Option CreateVoteRequest) → Keeps One (create_vote env cfg r body)
    unfolding create_vote
    create_vote-One r body =
        Keeps-bind _ _ (check_rate_limit-Keeps env cfg r "vote" cfg.vote_rate_limit) λ rate.
          Keeps-bind _ _ (search keeps_rules) λ _. Keeps-bind _ _ (search keeps_rules) λ req.
            Keeps-bind _ _ (search keeps_rules) λ _. Keeps-bind _ _ (search keeps_rules) λ _.
              Keeps-bind _ _ (check_target-Keeps env cfg (context_agent r) req) λ _. Keeps-Triple (
                Triple-bind
                  (λ found db.
                    One db × Free req (hash_ip env (client_ip r)) (context_agent r) found db)
                  (Triple-on_err _ _ (
                    Triple-read One _ _ _ (Keeps-same _ (λ Q. get_vote-Keeps env _ _ _ _))
                      (λ w a h e. (h, get_vote-Free req _ _ w a e)) (λ w e h x. h)))
                  λ found.
                    Triple-bind (λ _. One) (cast_vote-One r req found)
                      λ _. Triple-pure _ _ _ (λ db h. h))
