-- ===== src/Api/Revoking.antt =====
-- `DeleteAccountKey`: who may revoke which key, and that nothing else changes.
use mathlib.Core.Option
use slashclaw.Prelude.{
  String, true, false, not, Option, some, none, List, ◌≡◌, refl, sym, ◌==◌, eq_iff, ℤ, first,
  select, update, arith, ◌∙◌, ap, subst, IsIn, IsIn-select, inl, [], ◌∷◌,
}
use slashclaw.Env.{Env}
use slashclaw.Env.Laws.{IsUp}
use slashclaw.Exec.{World, Result, ok, err, attempt, pure, ◌>>=◌}
use slashclaw.Exec.Keeps.{Keeps-same, Keeps-attempt, keeps_rules}
use slashclaw.Exec.Triple.{
  Triple, Triple-pure, Triple-read, Triple-bind, Triple-on_err, Triple-fail_if, Triple-fact,
}
use slashclaw.Exec.Steps.{Triple-skip, Triple-test}
use slashclaw.Auth.{Service}
use slashclaw.Store.Models.{Token, AccountKey}
use slashclaw.Store.Rows.{TokenRow, KeyRow, Db}
use slashclaw.Store.Sql.{Error}
use slashclaw.Store.Keeps.{get_account_key-Keeps}
use slashclaw.Store.Triples.{Triple-execute, ok_injective, query_found}
use slashclaw.Store.Sessions.{scan_token}
use slashclaw.Store.Accounts.{
  is_key, row_or_err, scan_account_key, get_account_key, revoke_account_key,
}
use slashclaw.Api.Http.{Request, Response, bearer_token, request_token}
use slashclaw.Api.Keeps.{request_token-Keeps}
use slashclaw.Api.Guards.{request_token-Known}
use slashclaw.Api.Accounts.{or_unauthorized, require_owner, check_revocable, delete_account_key}

-- The bearer token of the request, which belongs to the account of the path.
pub record IsOwner (r : Request) (db : Db) (t : Token) : Type 0 where
  pub row : TokenRow
  pub stored : IsIn row db.tokens
  pub is_bearer : row.token ≡ bearer_token r
  pub scanned : t ≡ scan_token row
  pub is_account : t.account_id ≡ r.path_id

-- The key of the path, which belongs to the same account and is not the key of the token.
pub record IsRevocable (r : Request) (db : Db) (t : Token) : Type 0 where
  pub row : KeyRow
  pub stored : IsIn row db.account_keys
  pub is_key : row.id ≡ r.path_key_id
  pub is_account : row.account_id ≡ r.path_id
  pub not_in_use : (row.id == t.key_id) ≡ false

-- The key has a time of revocation, and the tables are as before but for that.
pub record Revoked (id : String) (db db' : Db) : Type 0 where
  pub time : ℤ
  pub is_all : db' ≡ record db {
    account_keys = update (is_key id) (λ r. record r { revoked_at = some time }) db.account_keys;
  }

found_row : {A : Type 0} (o : Option A) (a : A) → row_or_err o ≡ ok a → o ≡ some a
found_row none a e = cc
found_row (some x) a e = ap some (ok_injective e)

-- The row of a key that `GetAccountKey` returns.
abbrev KeyAt : String → Db → AccountKey → Type 0
KeyAt id db k =
    (row : KeyRow) × IsIn row db.account_keys × (is_key id row ≡ true) × (k ≡ scan_account_key row)

picked_key :
    (id : String) (db : Db) (rows : List KeyRow) (k : AccountKey)
    → ((row : KeyRow) → IsIn row rows → IsIn row db.account_keys × (is_key id row ≡ true))
    → Option.map scan_account_key (first rows) ≡ some k
    → KeyAt id db k
picked_key id db [] k h e = cc
picked_key id db (row ∷ rows) k h e = let found = h row (inl refl) in (row, found.0, found.1, cc)

module _ (env : Env) (s : Service) (up : IsUp env) (db : Db) (r : Request) where
  key_at :
      (id : String) (w : World) (k : AccountKey)
      → (get_account_key env id w).0 ≡ ok k
      → KeyAt id w.db k
  unfolding get_account_key
  key_at id w k e =
      picked_key id w.db (select (is_key id) w.db.account_keys) k
        (λ row i. IsIn-select (is_key id) row w.db.account_keys i)
        (found_row _ k (
          query_found env
            (λ d.
              row_or_err (Option.map scan_account_key (first (select (is_key id) d.account_keys))))
            w k e))

  abbrev Asked : Result Error (Option Token) → Db → Type 0
  Asked o d =
      (d ≡ db)
      × ((t : Token)
          → o ≡ ok (some t)
          → (row : TokenRow) × IsIn row db.tokens
            × (row.token ≡ bearer_token r)
            × (t ≡ scan_token row))

  asked : Triple (λ d. d ≡ db) (attempt {F = Response} (request_token env r)) Asked (λ _ d. d ≡ db)
  unfolding attempt
  asked =
      Triple-read _ _ _ _
        (Keeps-same {E = Response} _ (λ Q. Keeps-attempt _ (request_token-Keeps env {Q = Q} r)))
        (λ w o h e. (
          h,
          λ t q.
              let (b, same) = request_token-Known env r w t (ok_injective e ∙ q) in
              (b.row, subst (λ d. IsIn b.row d.tokens) h b.stored, b.is_bearer, same),
        ))
        (λ w e h x. h)

  authorized :
      (o : Result Error (Option Token))
      → Triple
          (Asked o)
          (or_unauthorized o)
          (λ t d.
            (d ≡ db)
            × ((row : TokenRow) × IsIn row db.tokens
                × (row.token ≡ bearer_token r)
                × (t ≡ scan_token row)))
          (λ _ d. d ≡ db)
  unfolding or_unauthorized pure ◌>>=◌
  authorized (ok (some t)) = record { at = λ w h. (h.0, h.1 t refl) }
  authorized (ok none) = record { at = λ w h. h.0 }
  authorized (err e) = record { at = λ w h. h.0 }

  pub require_owner-IsOwner :
      Triple
        (λ d. d ≡ db)
        (require_owner env s r)
        (λ t d. (d ≡ db) × IsOwner r db t)
        (λ _ d. d ≡ db)
  unfolding require_owner
  require_owner-IsOwner = Triple-bind Asked asked λ o. Triple-bind _ (authorized o) λ t.
      Triple-bind (λ _ d. (d ≡ db) × IsOwner r db t)
        (Triple-fail_if _ _ _ _
          (λ d test h. (
            h.0,
            record {
              row = h.1.0;
              stored = h.1.1;
              is_bearer = h.1.2;
              scanned = h.1.3;
              is_account = ground (arith, test, eq_iff t.account_id r.path_id);
            },
          ))
          (λ d e h. h.0))
        λ _. Triple-pure _ _ _ (λ d h. h)

  revocable :
      (t : Token) (k : AccountKey)
      → not (k.account_id == r.path_id) ≡ false
      → (k.id == t.key_id) ≡ false
      → KeyAt r.path_key_id db k
      → IsRevocable r db t
  unfolding scan_account_key
  revocable t k account in_use (row, i, q, e) = record {
    row = row;
    stored = i;
    is_key = ground (arith, q, eq_iff row.id r.path_key_id);
    is_account =
        sym (ap (λ x. x.account_id) e) ∙ (ground (arith, account, eq_iff k.account_id r.path_id));
    not_in_use = sym (ap (λ x. x.id == t.key_id) e) ∙ in_use;
  }

  check_revocable-IsRevocable :
      (t : Token) (k : AccountKey)
      → KeyAt r.path_key_id db k
      → Triple
          (λ d. d ≡ db)
          (check_revocable env s r t k)
          (λ _ d. (d ≡ db) × IsRevocable r db t)
          (λ _ d. d ≡ db)
  unfolding check_revocable
  check_revocable-IsRevocable t k at =
      Triple-test (λ d h. h) _ _ _
        λ account.
          Triple-fail_if _ _ _ _ (λ d in_use h. (h, revocable t k account in_use at)) (λ d e h. h)

  revoke-Revoked :
      (id : String)
      → Triple (λ d. d ≡ db) (revoke_account_key env id) (λ _ d. Revoked id db d) (λ _ d. d ≡ db)
  unfolding revoke_account_key
  revoke-Revoked id =
      Triple-skip (λ d h. h) (search keeps_rules)
        λ time.
          Triple-execute env up _ _ _ _
            (λ d d' h e. record { time = time; is_all = sym (ok_injective e) ∙ (rw h refl) })
            (λ d e h x. h)

  get_key-KeyAt :
      Triple
        (λ d. d ≡ db)
        (get_account_key env r.path_key_id)
        (λ k d. (d ≡ db) × KeyAt r.path_key_id db k)
        (λ _ d. d ≡ db)
  get_key-KeyAt =
      Triple-read _ _ _ _ (Keeps-same _ (λ Q. get_account_key-Keeps env {Q = Q} r.path_key_id))
        (λ w k h e. (h, subst (λ d. KeyAt r.path_key_id d k) h (key_at r.path_key_id w k e)))
        (λ w e h x. h)

-- If no call of the database fails: when DeleteAccountKey reaches its end, the bearer token of the
-- request is stored and belongs to the account of the path, the key of the path is stored and
-- belongs to the same account and is not the key of that token, and this key has got a time of
-- revocation, which is all that has changed; with any early answer the tables are as before.
pub delete_account_key-Revoked :
    (env : Env) (s : Service) (db : Db) (r : Request)
    → IsUp env
    → Triple
        (λ d. d ≡ db)
        (delete_account_key env s r)
        (λ answer d. (t : Token) × IsOwner r db t × IsRevocable r db t × Revoked r.path_key_id db d)
        (λ _ d. d ≡ db)
unfolding delete_account_key
delete_account_key-Revoked env s db r up =
    Triple-test (λ d h. h) _ _ _
      λ named. Triple-bind _ (require_owner-IsOwner env s up db r) λ t. Triple-fact _ λ owner.
        Triple-bind _ (Triple-on_err _ _ (get_key-KeyAt env s up db r)) λ k. Triple-fact _ λ at.
          Triple-bind _ (check_revocable-IsRevocable env s up db r t k at) λ _.
            Triple-fact _ λ revocable_key.
              Triple-bind _ (Triple-on_err _ _ (revoke-Revoked env s up db r r.path_key_id))
                λ _. Triple-pure _ _ _ (λ d h. (t, owner, revocable_key, h))
