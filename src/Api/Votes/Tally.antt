-- ===== src/Api/Votes/Tally.antt =====
-- `CreateVote` keeps every score equal to the sum of the votes, if no call of the database fails.
use mathlib.Core.Option
use slashclaw.Prelude.{
  String, true, false, not, ◌&&◌, Option, some, none, ◌≡◌, refl, ◌==◌, eq_iff, eq_ℤ, ℤ, pos, negsuc,
  update, arith, IsIn-first, IsIn-select, Bool-cases, inl, inr, sym, subst, ap, ◌+ℤ◌,
}
use slashclaw.Env.{Env}
use slashclaw.Env.Laws.{IsUp, ScansVotes}
use slashclaw.Exec.{Exec, World, ok, pure, on_err, when, fail_if, ◌>>=◌, ◌>>◌}
use slashclaw.Exec.Keeps.{Keeps, Keeps-same, Keeps-bind, keeps_rules}
use slashclaw.Exec.Triple.{
  Triple, Triple-keep, Triple-pre, Triple-fact, Triple-pure, Keeps-Triple, Triple-read, Triple-bind,
  Triple-on_err, Triple-fail_if, Triple-ignore_err,
}
use slashclaw.Config.{Config}
use slashclaw.Auth.{hash_ip}
use slashclaw.Store.Models.{Vote}
use slashclaw.Store.Rows.{Db}
use slashclaw.Store.Triples.{Triple-execute, ok_injective, query_found}
use slashclaw.Store.Stories.{has_id, update_story_score}
use slashclaw.Store.Comments.{is_comment, update_comment_score}
use slashclaw.Store.Votes.{
  vote_row, scan_vote, is_vote, is_from, create_vote as store_vote, find_vote, get_vote,
  update_vote,
}
use slashclaw.Store.Tally.{IsTallied, Tallied, set_value}
use slashclaw.Store.Keeps.{get_vote-Keeps}
use slashclaw.Api.Http.{
  Request, Response, database_error, write_error, write_json, ok_response, client_ip, context_agent,
}
use slashclaw.Api.Keeps.{check_rate_limit-Keeps, check_target-Keeps}
use slashclaw.Api.Votes.{
  CreateVoteRequest, check_target, add_score, change_vote, add_vote, cast_vote, create_vote,
}
use slashclaw.Api.Votes.Target.{Target, check_target_found}
use slashclaw.Api.Votes.Pending.{
  Pending, IsKind, insert_vote-Pending, Changing, StoryRaised, CommentRaised, new_story,
  new_comment, changed_story, changed_comment, Found, is_from_target,
}

module _ (env : Env) (cfg : Config) (up : IsUp env) (scans : ScansVotes env) where
  raise_story :
      (id : String) (delta : ℤ) (P : Db → Type 0)
      → ((db : Db)
          → P db
          → IsTallied
              (update (has_id id) (λ r. record r { score = r.score +ℤ delta }) db.stories)
              db.comments
              db.votes)
      → Triple P (update_story_score env id delta) (λ _. Tallied) (λ _. Tallied)
  unfolding update_story_score
  raise_story id delta P k =
      Triple-execute env up P _ _ _ (λ db db' h e. subst Tallied (ok_injective e) (k db h))
        (λ db x h e. cc)

  raise_comment :
      (id : String) (delta : ℤ) (P : Db → Type 0)
      → ((db : Db)
          → P db
          → IsTallied db.stories
              (update (is_comment id) (λ r. record r { score = r.score +ℤ delta }) db.comments)
              db.votes)
      → Triple P (update_comment_score env id delta) (λ _. Tallied) (λ _. Tallied)
  unfolding update_comment_score
  raise_comment id delta P k =
      Triple-execute env up P _ _ _ (λ db db' h e. subst Tallied (ok_injective e) (k db h))
        (λ db x h e. cc)

  add_score-Tallied :
      (req : CreateVoteRequest) (delta : ℤ) (P : Db → Type 0)
      → ((db : Db) → (req.target_type == "story") ≡ true → P db → StoryRaised req db delta)
      → ((db : Db) → (req.target_type == "story") ≡ false → P db → CommentRaised req db delta)
      → Triple P (add_score env cfg req delta) (λ _. Tallied) (λ _. Tallied)
  unfolding add_score
  add_score-Tallied req delta P k l = elim (Bool-cases (req.target_type == "story")) [
    | inl y ↦ rw y (Triple-ignore_err Tallied _ (raise_story req.target_id delta P (λ db. k db y)))
    | inr n ↦
        rw n (Triple-ignore_err Tallied _ (raise_comment req.target_id delta P (λ db. l db n)))
  ]

  abbrev Ready : CreateVoteRequest → Db → Type 0
  Ready req db = Tallied db × Target req db

  store_vote-Pending :
      (req : CreateVoteRequest) (vote : Vote)
      → vote.target_type ≡ req.target_type
      → vote.target_id ≡ req.target_id
      → vote.value ≡ req.value
      → Triple (Ready req) (store_vote env vote) (λ _. Pending req) (λ _. Tallied)
  unfolding store_vote vote_row
  store_vote-Pending req vote k t v =
      Triple-bind (λ _. Ready req) (Triple-keep Tallied (λ db h. h.0) (search keeps_rules))
        λ id.
          Triple-bind (λ _. Ready req) (Triple-keep Tallied (λ db h. h.0) (search keeps_rules))
            λ created.
              Triple-bind (λ _. Pending req)
                (Triple-execute env up (Ready req) _ _ _
                  (λ db db' h e. insert_vote-Pending req _ db db' k t v h e) (λ db x h e. h.0))
                λ _. Triple-pure _ _ _ (λ db h. h)

  add_vote-Tallied :
      (r : Request) (req : CreateVoteRequest) (ip : String)
      → IsKind req
      → Triple (Ready req) (add_vote env cfg r req ip) (λ _. Tallied) (λ _. Tallied)
  unfolding add_vote
  add_vote-Tallied r req ip kind =
      Triple-bind (λ _. Pending req) (Triple-on_err _ _ (store_vote-Pending req _ refl refl refl))
        λ saved.
          add_score-Tallied req req.value (Pending req) (λ db h p. new_story req db h p)
            (λ db h p. new_comment req db h kind p)

  update_vote-Changing :
      (req : CreateVoteRequest) (vote : Vote)
      → Triple
          (λ db. Tallied db × Found req (some vote) db)
          (update_vote env vote.id req.value)
          (λ _. Changing req vote.value)
          (λ _. Tallied)
  unfolding update_vote scan_vote
  update_vote-Changing req vote =
      Triple-execute env up _ _ _ _
        (λ db db' h e.
          let (row, listed, scanned, kind, target) = h.1 in
          subst (Changing req vote.value) (ok_injective e) (record {
            before = db.votes;
            row = row;
            listed = listed;
            tallied = h.0;
            split =
                ap (λ (v : Vote). update (is_vote v.id) (set_value req.value) db.votes)
                  (sym scanned);
            kind = kind;
            target = target;
            value = ap (λ (v : Vote). v.value) scanned;
          }))
        (λ db x h e. cc)

  change_vote-Tallied :
      (req : CreateVoteRequest) (vote : Vote)
      → IsKind req
      → Triple
          (λ db. Tallied db × Found req (some vote) db)
          (change_vote env cfg req vote)
          (λ _. Tallied)
          (λ _. Tallied)
  unfolding change_vote when
  change_vote-Tallied req vote kind = elim (Bool-cases (eq_ℤ vote.value req.value)) [
    | inl same ↦ rw same (Triple-pure _ _ tt (λ db h. h.0))
    | inr moved ↦ rw moved (
        Triple-bind (λ _. Changing req vote.value)
          (Triple-on_err _ _ (update_vote-Changing req vote))
          λ _.
            add_score-Tallied req _ (Changing req vote.value)
              (λ db h p. changed_story req db vote.value h p)
              (λ db h p. changed_comment req db vote.value h kind p))
  ]

  get_vote-Found :
      (req : CreateVoteRequest) (ip agent : String) (w : World) (found : Option Vote)
      → (get_vote env req.target_type req.target_id ip agent w).0 ≡ ok found
      → Found req found w.db
  unfolding get_vote
  get_vote-Found req ip agent w none e = tt
  get_vote-Found req ip agent w (some vote) e =
      let (row, picked, scanned) = (Option.map-eq-some_iff scan_vote _).0 (
        ok_injective (
          query_found env (find_vote env req.target_type req.target_id ip agent) w (some vote)
            e)) in
      let (listed, from) =
        IsIn-select (is_from req.target_type req.target_id ip agent) row w.db.votes
          ((scans _ row).0 (IsIn-first row _ picked)) in
      let (kind, target) = is_from_target req.target_type req.target_id ip agent row from in
      (row, listed, scanned, kind, target)

  cast_vote-Tallied :
      (r : Request) (req : CreateVoteRequest) (found : Option Vote)
      → IsKind req
      → Triple
          (λ db. Ready req db × Found req found db)
          (cast_vote env cfg r req found)
          (λ _. Tallied)
          (λ _. Tallied)
  unfolding cast_vote
  cast_vote-Tallied r req none kind = Triple-pre _ (λ db h. h.0) (add_vote-Tallied r req _ kind)
  cast_vote-Tallied r req (some vote) kind =
      Triple-pre _ (λ db h. (h.0.0, h.1)) (change_vote-Tallied req vote kind)

  -- the kinds that pass the check of the type
  IsKind-of_test :
      (req : CreateVoteRequest)
      → (not (req.target_type == "story") && not (req.target_type == "comment")) ≡ false
      → IsKind req
  IsKind-of_test req h =
      ground (arith, eq_iff req.target_type "story", eq_iff req.target_type "comment")

  -- from the check of the value on
  abbrev cast_rest : Request → CreateVoteRequest → Exec Response Response
  cast_rest r req = do
    fail_if (not (eq_ℤ req.value (pos 1)) && not (eq_ℤ req.value (negsuc 0)))
        (write_error 400 "value must be 1 or -1")
    check_target env cfg (context_agent r) req
    existing ←
        on_err database_error
          (get_vote env req.target_type req.target_id (hash_ip env (client_ip r)) (context_agent r))
    cast_vote env cfg r req existing
    pure (write_json 200 ok_response)

  cast-Tallied :
      (r : Request) (req : CreateVoteRequest)
      → Triple (λ db. Tallied db × IsKind req) (cast_rest r req) (λ _. Tallied) (λ _. Tallied)
  cast-Tallied r req = Triple-fact (IsKind req) λ kind.
      Triple-bind (λ _. Tallied) (Triple-keep Tallied (λ db h. h) (search keeps_rules))
        λ _.
          Triple-bind (λ _. Ready req)
            (Triple-read Tallied _ _ _ (Keeps-same _ (λ Q. check_target-Keeps env cfg _ req))
              (λ w a h e. (h, check_target_found env cfg _ req w a e)) (λ w e h x. h))
            λ _.
              Triple-bind (λ found db. Ready req db × Found req found db)
                (Triple-on_err _ _ (
                  Triple-read (Ready req) _ _ _ (Keeps-same _ (λ Q. get_vote-Keeps env _ _ _ _))
                    (λ w a h e. (h, get_vote-Found req _ _ w a e)) (λ w e h x. h.0)))
                λ found.
                  Triple-bind (λ _. Tallied) (cast_vote-Tallied r req found kind)
                    λ _. Triple-pure _ _ _ (λ db h. h)

  -- Whatever the request and however it ends, the scores stay equal to the sums of the votes.
  pub create_vote-Tallied :
      (r : Request) (body : Option CreateVoteRequest) → Keeps Tallied (create_vote env cfg r body)
  unfolding create_vote
  create_vote-Tallied r body =
      Keeps-bind _ _ (check_rate_limit-Keeps env cfg r "vote" cfg.vote_rate_limit) λ rate.
        Keeps-bind _ _ (search keeps_rules) λ _. Keeps-bind _ _ (search keeps_rules) λ req.
          Keeps-Triple (
            Triple-bind (λ _ db. Tallied db × IsKind req)
              (Triple-fail_if _ _ _ _ (λ db e h. (h, IsKind-of_test req e)) (λ db e h. h))
              λ _. cast-Tallied r req)
