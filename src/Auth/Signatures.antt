-- ===== src/Auth/Signatures.antt =====
-- `verifySignature`, against a description of the signatures that it accepts.
use slashclaw.Prelude.{
  ℕ, String, Bool, true, Option, some, none, List, ◌≡◌, refl, ◌==◌, eq_iff, nat_eq, length, arith,
  ◌↔◌, inl, inr, Bool-cases, subst, sym,
}
use slashclaw.Env.{Env}
use slashclaw.Exec.{Result, ok, err}
use slashclaw.Store.Sql.{Error}
use slashclaw.Store.Triples.{ok_injective}
use slashclaw.Auth.{
  parse_rsa_public_key, check_ed25519, verify_ed25519_key, verify_ed25519, check_rsa,
  verify_with_key, verify_rsa, verify_signature,
}

module _ (env : Env) (public_key message signature : String) where
  pub record Ed25519Signed : Type 0 where
    pub key : List ℕ
    pub bytes : List ℕ
    pub key_decoded : env.base64_decode public_key ≡ some key
    pub key_length : length key ≡ 32
    pub decoded : env.base64_decode signature ≡ some bytes
    pub verified : env.ed25519_verify key message bytes ≡ true

  -- With one of the two RSA schemes, over the SHA-256 of the message.
  pub record RsaSigned (verify : List ℕ → List ℕ → List ℕ → Bool) : Type 0 where
    pub key : List ℕ
    pub bytes : List ℕ
    pub parsed : parse_rsa_public_key env public_key ≡ ok key
    pub decoded : env.base64_decode signature ≡ some bytes
    pub verified : verify key (env.sha256 message) bytes ≡ true

  -- The algorithms that can accept a signature. There is none for secp256k1.
  pub data Accepted : String → Type 0 where
    by_ed25519 : Ed25519Signed → Accepted "ed25519"
    by_pss : RsaSigned env.verify_pss → Accepted "rsa-pss"
    by_pkcs1v15 : RsaSigned env.verify_pkcs1v15 → Accepted "rsa-sha256"

  signed_key :
      (key : List ℕ) (bytes : Option (List ℕ))
      → env.base64_decode public_key ≡ some key
      → length key ≡ 32
      → env.base64_decode signature ≡ bytes
      → check_ed25519 env key message bytes ≡ ok true
      → Ed25519Signed
  unfolding check_ed25519
  signed_key key none k n b e = cc
  signed_key key (some bytes) k n b e = record {
    key = key;
    bytes = bytes;
    key_decoded = k;
    key_length = n;
    decoded = b;
    verified = ok_injective e;
  }

  signed_by :
      (key : Option (List ℕ))
      → env.base64_decode public_key ≡ key
      → verify_ed25519_key env message signature key ≡ ok true
      → Ed25519Signed
  unfolding verify_ed25519_key
  signed_by none k e = cc
  signed_by (some key) k e = elim (Bool-cases (nat_eq (length key) 32)) [
    | inl right ↦ signed_key key (env.base64_decode signature) k (ground arith) refl (rw right at e)
    | inr wrong ↦ ground arith
  ]

  ed25519_sound : verify_ed25519 env public_key message signature ≡ ok true → Ed25519Signed
  unfolding verify_ed25519
  ed25519_sound e = signed_by (env.base64_decode public_key) refl e

  ed25519_complete : Ed25519Signed → verify_ed25519 env public_key message signature ≡ ok true
  unfolding verify_ed25519 verify_ed25519_key check_ed25519
  ed25519_complete s = rw (s.key_decoded, s.key_length, s.decoded, s.verified) refl

  module _ (verify : List ℕ → List ℕ → List ℕ → Bool) where
    rsa_bytes :
        (key : List ℕ) (bytes : Option (List ℕ))
        → parse_rsa_public_key env public_key ≡ ok key
        → env.base64_decode signature ≡ bytes
        → check_rsa env verify key message bytes ≡ ok true
        → RsaSigned verify
    unfolding check_rsa
    rsa_bytes key none k b e = cc
    rsa_bytes key (some bytes) k b e = record {
      key = key;
      bytes = bytes;
      parsed = k;
      decoded = b;
      verified = ok_injective e;
    }

    rsa_by :
        (key : Result Error (List ℕ))
        → parse_rsa_public_key env public_key ≡ key
        → verify_with_key env verify message signature key ≡ ok true
        → RsaSigned verify
    unfolding verify_with_key
    rsa_by (ok key) k e = rsa_bytes key (env.base64_decode signature) k refl e
    rsa_by (err x) k e = cc

    rsa_sound : verify_rsa env verify public_key message signature ≡ ok true → RsaSigned verify
    unfolding verify_rsa
    rsa_sound e = rsa_by (parse_rsa_public_key env public_key) refl e

    rsa_complete : RsaSigned verify → verify_rsa env verify public_key message signature ≡ ok true
    unfolding verify_rsa verify_with_key check_rsa
    rsa_complete s = rw (s.parsed, s.decoded, s.verified) refl

  sound :
      (alg : String)
      → verify_signature env alg public_key message signature ≡ ok true
      → Accepted alg
  unfolding verify_signature
  sound alg e = elim (Bool-cases (alg == "ed25519")) [
    | inl ed ↦
        subst Accepted (sym ((eq_iff alg "ed25519").0 ed)) (by_ed25519 (ed25519_sound (rw ed at e)))
    | inr not_ed ↦ elim (Bool-cases (alg == "rsa-pss")) [
      | inl pss ↦
          subst Accepted (sym ((eq_iff alg "rsa-pss").0 pss))
            (by_pss (rsa_sound env.verify_pss (rw (not_ed, pss) at e)))
      | inr not_pss ↦ elim (Bool-cases (alg == "rsa-sha256")) [
        | inl sha ↦
            subst Accepted (sym ((eq_iff alg "rsa-sha256").0 sha))
              (by_pkcs1v15 (rsa_sound env.verify_pkcs1v15 (rw (not_ed, not_pss, sha) at e)))
        | inr not_sha ↦ absurd (ground (arith, e, not_ed, not_pss, not_sha))
      ]
    ]
  ]

  complete :
      (alg : String)
      → Accepted alg
      → verify_signature env alg public_key message signature ≡ ok true
  unfolding verify_signature
  complete _ (by_ed25519 s) = ed25519_complete s
  complete _ (by_pss s) = rsa_complete _ s
  complete _ (by_pkcs1v15 s) = rsa_complete _ s

-- Verify accepts a signature exactly when the algorithm is ed25519 with a key of 32 bytes, rsa-pss
-- or rsa-sha256, key and signature decode, and the check of that algorithm passes on the message
-- (for the RSA schemes, on its SHA-256). For secp256k1 and for any other name no signature is
-- accepted.
pub verify_signature-Accepted :
    (env : Env) (alg public_key message signature : String)
    → (verify_signature env alg public_key message signature ≡ ok true)
      ↔ Accepted env public_key message signature alg
verify_signature-Accepted env alg public_key message signature =
    (sound env public_key message signature alg, complete env public_key message signature alg)
