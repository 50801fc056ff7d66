-- ===== src/Store/Unique.antt =====
-- The keys of the tables of accounts, keys, challenges and tokens, and the writes to these tables.
pub mod Writes
use slashclaw.Prelude.{
  String, Bool, true, false, not, ◌||◌, Option, some, List, [], ◌∷◌, ◌++◌, ◌≡◌, refl, ◌==◌, eq_iff,
  ℤ, any, select, update, arith, HasDistinct, HasDistinct-snoc, HasDistinct-update,
  HasDistinct-select, any-append, any-update, subst, Bool-cases, inl, inr, All, All-map, All-snoc,
  All-update,
}
use slashclaw.Env.{Env}
use slashclaw.Exec.Keeps.{Keeps, Keeps-bind, keeps_rules}
use slashclaw.Store.Rows.{AccountRow, KeyRow, ChallengeRow, TokenRow, Db}
use slashclaw.Store.Models.{Account, AccountKey, Challenge, Token}
use slashclaw.Store.Sql.{execute}
use slashclaw.Store.Keeps.{Keeps-execute}
use slashclaw.Store.Triples.{inserted, ok_injective}
use slashclaw.Store.Frames.{OfAuth, AuthWrites}
use slashclaw.Store.Accounts.{
  is_key, is_account, has_public_key, insert_account, insert_key, create_account,
  create_account_key, revoke_account_key,
}
use slashclaw.Store.Sessions.{
  insert_challenge, insert_token, is_challenge, create_challenge, delete_challenge, create_token,
}

-- No two rows are for the same algorithm and public key.
abbrev pub HasUniqueKeys : List KeyRow → Type 0
HasUniqueKeys [] = Unit
HasUniqueKeys (k ∷ ks) =
    (any (has_public_key k.algorithm k.public_key) ks ≡ false) × HasUniqueKeys ks

-- Every key belongs to an account.
abbrev pub HasAccount : List AccountRow → KeyRow → Type 0
HasAccount accounts k = any (is_account k.account_id) accounts ≡ true

pub record IsUnique (accounts : List AccountRow) (keys : List KeyRow)
    (challenges : List ChallengeRow) (tokens : List TokenRow) : Type 0 where
  pub account_ids : HasDistinct (λ (r : AccountRow). r.id) accounts
  pub key_ids : HasDistinct (λ (r : KeyRow). r.id) keys
  pub public_keys : HasUniqueKeys keys
  pub owners : All (HasAccount accounts) keys
  pub challenge_ids : HasDistinct (λ (r : ChallengeRow). r.id) challenges
  pub challenge_texts : HasDistinct (λ (r : ChallengeRow). r.challenge) challenges
  pub token_ids : HasDistinct (λ (r : TokenRow). r.id) tokens
  pub token_texts : HasDistinct (λ (r : TokenRow). r.token) tokens

abbrev pub Unique : Db → Type 0
Unique db = IsUnique db.accounts db.account_keys db.challenges db.tokens

pub Unique-OfAuth : OfAuth Unique
Unique-OfAuth = record {
  carry = λ db db' s h. rw (s.accounts, s.account_keys, s.challenges, s.tokens) h;
}

HasUniqueKeys-snoc :
    (ks : List KeyRow) (k : KeyRow)
    → any (has_public_key k.algorithm k.public_key) ks ≡ false
    → HasUniqueKeys ks
    → HasUniqueKeys (ks ++ k ∷ [])
HasUniqueKeys-snoc [] k e h = (refl, tt)
HasUniqueKeys-snoc (x ∷ xs) k e h = (
  ground (
    arith,
    h.0,
    any-append (has_public_key x.algorithm x.public_key) xs (k ∷ []),
    eq_iff x.algorithm k.algorithm,
    eq_iff k.algorithm x.algorithm,
    eq_iff x.public_key k.public_key,
    eq_iff k.public_key x.public_key,
  ),
  HasUniqueKeys-snoc xs k (ground arith) h.1,
)

HasUniqueKeys-update :
    (q : KeyRow → Bool) (t : Option ℤ) (ks : List KeyRow)
    → HasUniqueKeys ks
    → HasUniqueKeys (update q (λ r. record r { revoked_at = t }) ks)
HasUniqueKeys-update q t [] h = tt
HasUniqueKeys-update q t (k ∷ ks) h =
    let same =
      any-update (has_public_key k.algorithm k.public_key) q (λ r. record r { revoked_at = t }) ks
        (λ r. refl) in
    elim (Bool-cases (q k)) [
      | inl e ↦ rw (e, same) (h.0, HasUniqueKeys-update q t ks h.1)
      | inr e ↦ rw (e, same) (h.0, HasUniqueKeys-update q t ks h.1)
    ]

any-or_false :
    {A : Type 0} (p q : A → Bool) (xs : List A)
    → any (λ x. p x || q x) xs ≡ false
    → (any p xs ≡ false) × (any q xs ≡ false)
any-or_false p q [] h = (refl, refl)
any-or_false p q (x ∷ xs) h = ground (arith, any-or_false p q xs)

pub or3-eq_false :
    (a b c : Bool) → (a || b || not c) ≡ false → (a ≡ false) × (b ≡ false) × (c ≡ true)
or3-eq_false a b c h = ground arith

module _ {accounts : List AccountRow} {keys : List KeyRow} {challenges : List ChallengeRow}
    {tokens : List TokenRow} (u : IsUnique accounts keys challenges tokens) where
  pub add_account-IsUnique :
      (a : AccountRow)
      → any (is_account a.id) accounts ≡ false
      → IsUnique (accounts ++ a ∷ []) keys challenges tokens
  add_account-IsUnique a e = record {
    account_ids = HasDistinct-snoc _ accounts a e u.account_ids;
    key_ids = u.key_ids;
    public_keys = u.public_keys;
    owners =
        All-map _ _ keys
          (λ k h. ground (arith, h, any-append (is_account k.account_id) accounts (a ∷ [])))
          u.owners;
    challenge_ids = u.challenge_ids;
    challenge_texts = u.challenge_texts;
    token_ids = u.token_ids;
    token_texts = u.token_texts;
  }

  pub add_key-IsUnique :
      (k : KeyRow)
      → any (is_key k.id) keys ≡ false
      → any (has_public_key k.algorithm k.public_key) keys ≡ false
      → any (is_account k.account_id) accounts ≡ true
      → IsUnique accounts (keys ++ k ∷ []) challenges tokens
  add_key-IsUnique k e p a = record {
    account_ids = u.account_ids;
    key_ids = HasDistinct-snoc _ keys k e u.key_ids;
    public_keys = HasUniqueKeys-snoc keys k p u.public_keys;
    owners = All-snoc _ keys k u.owners a;
    challenge_ids = u.challenge_ids;
    challenge_texts = u.challenge_texts;
    token_ids = u.token_ids;
    token_texts = u.token_texts;
  }

  pub revoke-IsUnique :
      (q : KeyRow → Bool) (t : Option ℤ)
      → IsUnique accounts (update q (λ r. record r { revoked_at = t }) keys) challenges tokens
  revoke-IsUnique q t = record {
    account_ids = u.account_ids;
    key_ids = HasDistinct-update (λ (r : KeyRow). r.id) q _ keys (λ r. refl) u.key_ids;
    public_keys = HasUniqueKeys-update q t keys u.public_keys;
    owners = All-update (HasAccount accounts) q _ keys (λ r h. h) u.owners;
    challenge_ids = u.challenge_ids;
    challenge_texts = u.challenge_texts;
    token_ids = u.token_ids;
    token_texts = u.token_texts;
  }

  pub add_challenge-IsUnique :
      (c : ChallengeRow)
      → any (λ r. r.id == c.id || r.challenge == c.challenge) challenges ≡ false
      → IsUnique accounts keys (challenges ++ c ∷ []) tokens
  add_challenge-IsUnique c e =
      let both =
        any-or_false (λ (r : ChallengeRow). r.id == c.id) (λ r. r.challenge == c.challenge)
          challenges e in
      record {
        account_ids = u.account_ids;
        key_ids = u.key_ids;
        public_keys = u.public_keys;
        owners = u.owners;
        challenge_ids = HasDistinct-snoc _ challenges c both.0 u.challenge_ids;
        challenge_texts = HasDistinct-snoc _ challenges c both.1 u.challenge_texts;
        token_ids = u.token_ids;
        token_texts = u.token_texts;
      }

  pub remove_challenges-IsUnique :
      (q : ChallengeRow → Bool) → IsUnique accounts keys (select q challenges) tokens
  remove_challenges-IsUnique q = record {
    account_ids = u.account_ids;
    key_ids = u.key_ids;
    public_keys = u.public_keys;
    owners = u.owners;
    challenge_ids = HasDistinct-select _ q challenges u.challenge_ids;
    challenge_texts = HasDistinct-select _ q challenges u.challenge_texts;
    token_ids = u.token_ids;
    token_texts = u.token_texts;
  }

  pub add_token-IsUnique :
      (t : TokenRow)
      → any (λ r. r.id == t.id || r.token == t.token) tokens ≡ false
      → IsUnique accounts keys challenges (tokens ++ t ∷ [])
  add_token-IsUnique t e =
      let both = any-or_false (λ (r : TokenRow). r.id == t.id) (λ r. r.token == t.token) tokens e in
      record {
        account_ids = u.account_ids;
        key_ids = u.key_ids;
        public_keys = u.public_keys;
        owners = u.owners;
        challenge_ids = u.challenge_ids;
        challenge_texts = u.challenge_texts;
        token_ids = HasDistinct-snoc _ tokens t both.0 u.token_ids;
        token_texts = HasDistinct-snoc _ tokens t both.1 u.token_texts;
      }
