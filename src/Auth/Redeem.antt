-- ===== src/Auth/Redeem.antt =====
-- `VerifyAndCreateToken`: what a token is given for, and what is left of the challenge.
use slashclaw.Prelude.{
  String, Bool, true, false, not, ◌||◌, Option, some, none, List, [], ◌∷◌, ◌≡◌, refl, sym, ◌==◌,
  eq_iff, select, first, arith, IsIn, IsIn-select, inl, ◌∙◌, ap, subst, ℤ,
}
use mathlib.Core.Option
use slashclaw.Env.{Env}
use slashclaw.Env.Laws.{IsUp}
use slashclaw.Exec.{World, ignore_err, or_fail, ok, lift, ◌>>=◌}
use slashclaw.Exec.Keeps.{Keeps-same, keeps_rules}
use slashclaw.Exec.Triple.{
  Triple, Triple-keep, Triple-read, Triple-bind, Triple-fail_if, Triple-ignore_err,
}
use slashclaw.Store.Models.{Challenge}
use slashclaw.Store.Rows.{ChallengeRow, Db}
use slashclaw.Store.Sql.{Error, challenge_not_found}
use slashclaw.Store.Keeps.{get_challenge-Keeps}
use slashclaw.Store.Triples.{Triple-execute, ok_injective, query_found}
use slashclaw.Store.Sessions.{
  is_live_challenge, is_challenge, scan_challenge, get_challenge, delete_challenge,
}
use slashclaw.Auth.{verify_signature, redeem}

-- The tables without a challenge.
abbrev pub without : ChallengeRow → Db → Db
without row db = record db { challenges = select (λ r. not (is_challenge row.id r)) db.challenges }

-- The challenge was there, for this agent and algorithm; the signature of its text is valid; and it
-- is gone.
pub record Redeemed (env : Env) (agent alg public_key text signature : String) (db db' : Db)
    : Type 0 where
  pub row : ChallengeRow
  pub stored : IsIn row db.challenges
  pub is_text : row.challenge ≡ text
  pub is_agent : row.agent_id ≡ agent
  pub is_algorithm : row.algorithm ≡ alg
  pub signed : verify_signature env alg public_key text signature ≡ ok true
  pub removed : db' ≡ without row db

-- A challenge that `GetChallenge` has found.
record Found (text : String) (db : Db) (c : Challenge) : Type 0 where
  row : ChallengeRow
  stored : IsIn row db.challenges
  is_text : row.challenge ≡ text
  scanned : c ≡ scan_challenge row

Found-in :
    (text : String) (db : Db) (rows : List ChallengeRow) (c : Challenge)
    → ((r : ChallengeRow) → IsIn r rows → IsIn r db.challenges × (r.challenge ≡ text))
    → Option.map scan_challenge (first rows) ≡ some c
    → Found text db c
Found-in text db [] c h e = cc
Found-in text db (r ∷ rs) c h e = record {
  row = r;
  stored = (h r (inl refl)).0;
  is_text = (h r (inl refl)).1;
  scanned = cc;
}

live_challenge :
    (text : String) (time : ℤ) (db : Db) (r : ChallengeRow)
    → IsIn r (select (is_live_challenge text time) db.challenges)
    → IsIn r db.challenges × (r.challenge ≡ text)
live_challenge text time db r i =
    let found = IsIn-select (is_live_challenge text time) r db.challenges i in
    (found.0, ground (arith, found.1, eq_iff r.challenge text))

module _ (env : Env) (text : String) where
  get_challenge-Found :
      (w : World) (c : Challenge) → (get_challenge env text w).0 ≡ ok (some c) → Found text w.db c
  unfolding get_challenge ◌>>=◌
  get_challenge-Found w c e =
      Found-in text w.db (select (is_live_challenge text (env.now w.step)) w.db.challenges) c
        (live_challenge text (env.now w.step) w.db)
        (ok_injective (
          query_found env
            (λ d. ok (
              Option.map scan_challenge
                (first (select (is_live_challenge text (env.now w.step)) d.challenges))))
            _ _ e))

module _ (env : Env) (up : IsUp env) (db : Db) where
  abbrev Same : {E : Type 0} → E → Db → Type 0
  Same e db' = db' ≡ db

  module _ (agent alg public_key text signature : String) where
    Looked : Option Challenge → Db → Type 0
    Looked o db' = (db' ≡ db) × ((c : Challenge) → o ≡ some c → Found text db c)

    looked : Triple (λ db'. db' ≡ db) (get_challenge env text) Looked Same
    unfolding Looked
    looked =
        Triple-read _ _ _ _ (Keeps-same _ (λ Q. get_challenge-Keeps env {Q = Q} text))
          (λ w o h e. (
            h,
            λ c q. subst (λ d. Found text d c) h (get_challenge-Found env text w c (e ∙ ap ok q)),
          ))
          (λ w e h x. h)

    -- What is known once every check has passed.
    record Checked (c : Challenge) (db' : Db) : Type 0 where
      same : db' ≡ db
      found : Found text db c
      agents : c.agent_id ≡ agent
      algorithms : c.algorithm ≡ alg

    removed_row :
        (c : Challenge) (d d' : Db)
        → Checked c d
        → (verify_signature env alg public_key text signature ≡ ok true)
        → d' ≡ record d { challenges = select (λ r. not (is_challenge c.id r)) d.challenges }
        → Redeemed env agent alg public_key text signature db d'
    unfolding scan_challenge
    removed_row c d d' k v e =
        let scanned = k.found.scanned in
        record {
          row = k.found.row;
          stored = k.found.stored;
          is_text = k.found.is_text;
          is_agent = sym (ap (λ x. x.agent_id) scanned) ∙ k.agents;
          is_algorithm = sym (ap (λ x. x.algorithm) scanned) ∙ k.algorithms;
          signed = v;
          removed = rw (e, k.same, scanned) refl;
        }

    deleted :
        (c : Challenge)
        → Triple
            (λ d. Checked c d × (verify_signature env alg public_key text signature ≡ ok true))
            (ignore_err {F = Error} (delete_challenge env c.id))
            (λ _. Redeemed env agent alg public_key text signature db)
            Same
    unfolding delete_challenge
    deleted c = Triple-ignore_err _ _ (
        Triple-execute env up _ _ _ _
          (λ d d' k e. removed_row c d d' k.0 k.1 (sym (ok_injective e))) (λ d e k x. cc))

    signed :
        (c : Challenge)
        → Triple
            (Checked c)
            (lift (verify_signature env alg public_key text signature))
            (λ b d. Checked c d × (verify_signature env alg public_key text signature ≡ ok b))
            Same
    unfolding lift
    signed c = Triple-read _ _ _ _ (λ w. refl) (λ w b k e. (k, e)) (λ w e k x. k.same)

    agreed :
        (c : Challenge) (d : Db)
        → (not (c.agent_id == agent) || not (c.algorithm == alg)) ≡ false
        → (d ≡ db) × Found text db c
        → Checked c d
    agreed c d e k = record {
      same = k.0;
      found = k.1;
      agents = ground (arith, e, eq_iff c.agent_id agent);
      algorithms = ground (arith, e, eq_iff c.algorithm alg);
    }

    or_fail-Found :
        (o : Option Challenge)
        → Triple (Looked o) (or_fail o challenge_not_found) (λ c d. (d ≡ db) × Found text db c) Same
    unfolding or_fail Looked
    or_fail-Found none = record { at = λ w k. k.0 }
    or_fail-Found (some c) = record { at = λ w k. (k.0, k.1 c refl) }

    valid :
        (b : Bool)
        → not b ≡ false
        → verify_signature env alg public_key text signature ≡ ok b
        → verify_signature env alg public_key text signature ≡ ok true
    valid true h e = e
    valid false h e = cc

    pub redeem-Redeemed :
        Triple
          (λ d. d ≡ db)
          (redeem env agent alg public_key text signature)
          (λ _. Redeemed env agent alg public_key text signature db)
          Same
    unfolding redeem
    redeem-Redeemed = Triple-bind Looked looked λ o.
        Triple-bind (λ c d. (d ≡ db) × Found text db c) (or_fail-Found o)
          λ c.
            Triple-bind (λ time d. (d ≡ db) × Found text db c)
              (Triple-keep _ (λ d k. k.0) (search keeps_rules))
              λ time.
                Triple-bind (λ _ d. (d ≡ db) × Found text db c)
                  (Triple-fail_if _ _ _ _ (λ d e k. k) (λ d e k. k.0))
                  λ _.
                    Triple-bind (λ _. Checked c)
                      (Triple-fail_if _ _ _ _ (λ d e k. agreed c d e k) (λ d e k. k.0))
                      λ _. Triple-bind _ (signed c) λ b.
                        Triple-bind
                          (λ _ d.
                            Checked c d
                            × (verify_signature env alg public_key text signature ≡ ok true))
                          (Triple-fail_if _ _ _ _ (λ d e k. (k.0, valid b e k.1))
                            (λ d e k. k.0.same))
                          λ _. deleted c
