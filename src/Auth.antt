-- ===== src/Auth.antt =====
-- internal/auth/auth.go: the challenges, the signatures and the tokens.
pub mod Redeem
pub mod Issue
pub mod Once
pub mod SignIn
pub mod Signatures
use Prim.Native.String.{len, slice}
use slashclaw.Prelude.{
  ℕ, String, Bool, not, ◌||◌, Option, none, some, List, ℤ, ◌+ℤ◌, ltb_ℤ, ltb, nat_eq, ◌==◌, length,
  take, if◌then◌else◌,
}
use slashclaw.Strings.{cat}
use slashclaw.Env.{PublicKey, rsa, other_key, Env}
use slashclaw.Exec.{
  Exec, lift, Result, ok, err, or_fail, pure, fail_if, ignore_err, now, new_uuid, tick, ◌>>=◌, ◌>>◌,
}
use slashclaw.Store.Models.{Challenge, Token, AccountKey}
use slashclaw.Store.Sql.{
  Error, invalid_algorithm, invalid_public_key, invalid_signature, challenge_expired,
  challenge_not_found, not_implemented, no_random, panicked,
}
use slashclaw.Store.Accounts.{get_account_key_by_public_key}
use slashclaw.Store.Sessions.{
  create_challenge as store_challenge, get_challenge, delete_challenge, create_token, get_token,
}

-- `isValidAlgorithm`
unfoldable pub is_valid_algorithm : String → Bool
is_valid_algorithm alg =
    alg == "ed25519" || alg == "secp256k1" || alg == "rsa-pss" || alg == "rsa-sha256"

pub record Service : Type 0 where
  pub challenge_ttl : ℤ
  pub token_ttl : ℤ

-- `publicKey[:16]`, which panics on a shorter text; the bytes of a key are ASCII
unfoldable pub unregistered : String → Result Error String
unregistered public_key =
    if ltb (len public_key) 16
    then err panicked
    else ok (cat "unregistered:" (slice public_key 0 16))

-- the account and the key of the new token
unfoldable pub key_of : String → Option AccountKey → Result Error (String × String)
unfolding unregistered
key_of public_key (some key) = ok (key.account_id, key.id)
key_of public_key none = elim (unregistered public_key) [ ok id ↦ ok ("", id) | err e ↦ err e ]

module _ (env : Env) where
  -- the key under a parsed `x509` value
  unfoldable pub as_rsa : Option PublicKey → Result Error (List ℕ)
  as_rsa none = err invalid_public_key
  as_rsa (some other_key) = err invalid_public_key
  as_rsa (some (rsa key)) = ok key

  unfoldable pub parse_der : Option (List ℕ) → Result Error (List ℕ)
  unfolding as_rsa
  parse_der none = err invalid_public_key
  parse_der (some der) = as_rsa (env.parse_pkix der)

  unfoldable pub parse_pem : String → Option (List ℕ) → Result Error (List ℕ)
  unfolding parse_der as_rsa
  parse_pem text (some block) = as_rsa (env.parse_pkix block)
  parse_pem text none = parse_der (env.base64_decode text)

  unfoldable pub parse_rsa_public_key : String → Result Error (List ℕ)
  unfolding parse_pem
  parse_rsa_public_key text = parse_pem text (env.pem_decode text)

  unfoldable pub check_ed25519 : List ℕ → String → Option (List ℕ) → Result Error Bool
  check_ed25519 key message none = err invalid_signature
  check_ed25519 key message (some signature) = ok (env.ed25519_verify key message signature)

  unfoldable pub verify_ed25519_key : String → String → Option (List ℕ) → Result Error Bool
  unfolding check_ed25519
  verify_ed25519_key message signature none = err invalid_public_key
  verify_ed25519_key message signature (some key) =
      if not (nat_eq (length key) 32)
      then err invalid_public_key
      else check_ed25519 key message (env.base64_decode signature)

  unfoldable pub verify_ed25519 : String → String → String → Result Error Bool
  unfolding verify_ed25519_key
  verify_ed25519 public_key message signature =
      verify_ed25519_key message signature (env.base64_decode public_key)

  unfoldable pub check_rsa :
      (List ℕ → List ℕ → List ℕ → Bool) → List ℕ → String → Option (List ℕ) → Result Error Bool
  check_rsa verify key message none = err invalid_signature
  check_rsa verify key message (some signature) = ok (verify key (env.sha256 message) signature)

  unfoldable pub verify_with_key :
      (List ℕ → List ℕ → List ℕ → Bool)
      → String
      → String
      → Result Error (List ℕ)
      → Result Error Bool
  unfolding check_rsa
  verify_with_key verify message signature (err e) = err e
  verify_with_key verify message signature (ok key) =
      check_rsa verify key message (env.base64_decode signature)

  -- `verifyRSAPSS` and `verifyRSASHA256`, which differ in the check of the hash
  unfoldable pub verify_rsa :
      (List ℕ → List ℕ → List ℕ → Bool) → String → String → String → Result Error Bool
  unfolding verify_with_key
  verify_rsa verify public_key message signature =
      verify_with_key verify message signature (parse_rsa_public_key public_key)

  unfoldable pub verify_signature : String → String → String → String → Result Error Bool
  unfolding verify_ed25519 verify_rsa
  verify_signature alg public_key message signature =
      if alg == "ed25519"
      then verify_ed25519 public_key message signature
      else if alg == "rsa-pss"
      then verify_rsa env.verify_pss public_key message signature
      else if alg == "rsa-sha256"
      then verify_rsa env.verify_pkcs1v15 public_key message signature
      else if alg == "secp256k1"
      then err not_implemented
      else err invalid_algorithm

  -- `rand.Read` of 32 bytes
  unfoldable pub random_bytes : Exec Error (Option (List ℕ))
  random_bytes w = (ok (env.random w.step), tick w)

  -- as URL-safe base64
  unfoldable pub random_text : Exec Error String
  unfolding random_bytes
  random_text = do
    drawn ← random_bytes
    bytes ← or_fail drawn no_random
    pure (env.base64_encode bytes)

  unfoldable pub create_challenge : Service → String → String → Exec Error Challenge
  unfolding random_text
  create_challenge s agent alg = do
    fail_if (not (is_valid_algorithm alg)) invalid_algorithm
    text ← random_text
    id ← new_uuid env
    time ← now env
    let challenge : Challenge = record {
      id = id;
      agent_id = agent;
      algorithm = alg;
      challenge = text;
      expires_at = time +ℤ s.challenge_ttl;
    }
    store_challenge env challenge

  -- the checks up to the deletion of the challenge
  unfoldable pub redeem : String → String → String → String → String → Exec Error Unit
  redeem agent alg public_key text signature = do
    found ← get_challenge env text
    challenge ← or_fail found challenge_not_found
    time ← now env
    fail_if (ltb_ℤ challenge.expires_at time) challenge_expired
    fail_if (not (challenge.agent_id == agent) || not (challenge.algorithm == alg))
        challenge_not_found
    valid ← lift (verify_signature alg public_key text signature)
    fail_if (not valid) invalid_signature
    ignore_err (delete_challenge env challenge.id)

  -- the token, once the challenge is redeemed
  unfoldable pub issue : Service → String → String → String → Exec Error Token
  unfolding random_text key_of
  issue s agent alg public_key = do
    key ← get_account_key_by_public_key env alg public_key
    text ← random_text
    id ← new_uuid env
    time ← now env
    owner ← lift (key_of public_key key)
    let token : Token = record {
      id = id;
      account_id = owner.0;
      key_id = owner.1;
      agent_id = agent;
      token = text;
      expires_at = time +ℤ s.token_ttl;
    }
    create_token env token

  unfoldable pub verify_and_create_token :
      Service → String → String → String → String → String → Exec Error Token
  unfolding redeem issue
  verify_and_create_token s agent alg public_key text signature = do
    redeem agent alg public_key text signature
    issue s agent alg public_key

  unfoldable pub validate_token : String → Exec Error (Option Token)
  validate_token text = get_token env text

  -- `HashIP`: the first 16 bytes of the hash, in hexadecimal
  unfoldable pub hash_ip : String → String
  hash_ip ip = env.hex_encode (take 16 (env.sha256 ip))
