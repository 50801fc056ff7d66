-- ===== src/Api/Votes/Ballot.antt =====
-- `CreateVote`: for what a vote is accepted, and that a refused vote changes nothing.
use slashclaw.Prelude.{
  eq_iff, String, false, not, ◌&&◌, Option, some, none, ◌≡◌, ◌==◌, ℤ, pos, negsuc, ◌-ℤ◌, eq_ℤ,
  Bool-cases, inl, inr, ◌⊎◌,
}
use slashclaw.Env.{Env}
use slashclaw.Env.Laws.{IsUp}
use slashclaw.Exec.{when}
use slashclaw.Exec.Keeps.{keeps_rules}
use slashclaw.Exec.Triple.{
  Triple, Triple-pure, Triple-bind, Triple-on_err, Triple-post, Triple-fact, Triple-Keeps,
  Triple-ignore_err,
}
use slashclaw.Exec.Steps.{Triple-skip, Triple-given, Triple-test}
use slashclaw.Config.{Config}
use slashclaw.Store.Models.{Vote}
use slashclaw.Store.Rows.{Db}
use slashclaw.Store.Keeps.{get_vote-Keeps}
use slashclaw.Store.Triples.{Triple-execute}
use slashclaw.Store.Votes.{create_vote as store_vote, update_vote}
use slashclaw.Api.Http.{Request, context_agent}
use slashclaw.Api.Keeps.{check_rate_limit-Keeps}
use slashclaw.Api.Votes.{
  CreateVoteRequest, check_target, add_score, change_vote, add_vote, cast_vote, create_vote,
}
use slashclaw.Api.Votes.Others.{
  Votable, check_story-ByOther, check_comment-ByOther, comment_kind, one_or_minus, Any, Any-Keeps,
}

module _ (env : Env) (cfg : Config) (up : IsUp env) (db : Db) where
  check_target-Votable :
      (agent : String) (req : CreateVoteRequest)
      → (not (req.target_type == "story") && not (req.target_type == "comment")) ≡ false
      → Triple
          (λ d. d ≡ db)
          (check_target env cfg agent req)
          (λ _ d. (d ≡ db) × Votable agent req db)
          (λ _ d. d ≡ db)
  unfolding check_target
  check_target-Votable agent req known = elim (Bool-cases (req.target_type == "story")) [
    | inl story ↦ rw story (
        Triple-post _ _ (λ _ d h. (h.0, inl ((eq_iff req.target_type "story").0 story, h.1)))
          (λ _ d h. h) (check_story-ByOther env cfg db agent req.target_id))
    | inr other ↦ rw other (
        Triple-post _ _ (λ _ d h. (h.0, inr (comment_kind req known other, h.1))) (λ _ d h. h)
          (check_comment-ByOther env cfg db agent req.target_id))
  ]

  score-Any :
      (req : CreateVoteRequest) (delta : ℤ)
      → Triple Any (add_score env cfg req delta) (λ _. Any) (λ _ d. d ≡ db)
  unfolding add_score
  score-Any req delta = elim (Bool-cases (req.target_type == "story")) [
    | inl story ↦ rw story (Triple-ignore_err Any _ (Triple-Keeps (Any-Keeps _)))
    | inr other ↦ rw other (Triple-ignore_err Any _ (Triple-Keeps (Any-Keeps _)))
  ]

  store_vote-Same : (v : Vote) → Triple (λ d. d ≡ db) (store_vote env v) (λ _. Any) (λ _ d. d ≡ db)
  unfolding store_vote
  store_vote-Same v =
      Triple-skip (λ d h. h) (search keeps_rules)
        λ id.
          Triple-skip (λ d h. h) (search keeps_rules)
            λ created.
              Triple-bind (λ _. Any) (Triple-execute env up _ _ _ _ (λ d d' h e. tt) (λ d e h x. h))
                λ _. Triple-pure _ _ _ (λ d h. tt)

  update_vote-Same :
      (id : String) (x : ℤ) → Triple (λ d. d ≡ db) (update_vote env id x) (λ _. Any) (λ _ d. d ≡ db)
  unfolding update_vote
  update_vote-Same id x = Triple-execute env up _ _ _ _ (λ d d' h e. tt) (λ d e h x. h)

  change_vote-Same :
      (req : CreateVoteRequest) (v : Vote)
      → Triple (λ d. d ≡ db) (change_vote env cfg req v) (λ _. Any) (λ _ d. d ≡ db)
  unfolding change_vote when
  change_vote-Same req v = elim (Bool-cases (eq_ℤ v.value req.value)) [
    | inl same ↦ rw same (Triple-pure _ _ _ (λ d h. tt))
    | inr new ↦ rw new (
        Triple-bind (λ _. Any) (Triple-on_err _ _ (update_vote-Same v.id req.value))
          λ _. score-Any req (req.value -ℤ v.value))
  ]

  cast_vote-Same :
      (r : Request) (req : CreateVoteRequest) (o : Option Vote)
      → Triple (λ d. d ≡ db) (cast_vote env cfg r req o) (λ _. Any) (λ _ d. d ≡ db)
  unfolding cast_vote add_vote
  cast_vote-Same r req none =
      Triple-bind (λ _. Any) (Triple-on_err _ _ (store_vote-Same _)) λ _. score-Any req req.value
  cast_vote-Same r req (some v) = change_vote-Same req v

-- If no call of the database fails: when CreateVote reaches its end, the body was decoded, the
-- value is 1 or -1, and the target is a stored story or comment that is not hidden and not by the
-- agent of the request; with any early answer, a vote on one's own content among them, no vote is
-- stored or changed and the tables are as before.
pub create_vote-Votable :
    (env : Env) (cfg : Config) (db : Db) (r : Request) (body : Option CreateVoteRequest)
    → IsUp env
    → Triple
        (λ d. d ≡ db)
        (create_vote env cfg r body)
        (λ answer d.
          (req : CreateVoteRequest) × (body ≡ some req)
          × ((req.value ≡ pos 1) ⊎ (req.value ≡ negsuc 0))
          × Votable (context_agent r) req db)
        (λ _ d. d ≡ db)
unfolding create_vote
create_vote-Votable env cfg db r body up =
    Triple-skip (λ d h. h) (check_rate_limit-Keeps env cfg r "vote" cfg.vote_rate_limit)
      λ rate.
        Triple-test (λ d h. h) _ _ _
          λ allowed.
            Triple-given (λ d h. h) _ _ _
              λ req given.
                Triple-test (λ d h. h) _ _ _
                  λ kind.
                    Triple-test (λ d h. h) _ _ _
                      λ value.
                        Triple-bind _
                          (check_target-Votable env cfg up db (context_agent r) req kind)
                          λ _. Triple-fact _ λ votable.
                            Triple-skip (λ d h. h) (search (keeps_rules, get_vote-Keeps))
                              λ existing.
                                Triple-bind (λ _. Any) (cast_vote-Same env cfg up db r req existing)
                                  λ _.
                                    Triple-pure _ _ _
                                      (λ d h. (req, given, one_or_minus req.value value, votable))
