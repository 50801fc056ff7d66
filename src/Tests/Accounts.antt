-- ===== src/Tests/Accounts.antt =====
-- Accounts and keys on the test data.
use slashclaw.Prelude.{String, [], ◌∷◌, some, none, pos, ◌≡◌, refl, map}
use slashclaw.Exec.{◌>>=◌}
use slashclaw.Exec.Triple.{Triple}
use slashclaw.Store.Models.{Token}
use slashclaw.Store.Rows.{Db, KeyRow, AccountRow}
use slashclaw.Store.Sessions.{get_token, get_challenge, delete_challenge, create_token}
use slashclaw.Auth.{verify_and_create_token, redeem, issue, verify_signature, parse_rsa_public_key}
use slashclaw.Store.Accounts.{
  get_account, get_account_key, get_account_key_by_public_key, create_account_key,
  create_account as store_account, revoke_account_key,
}
use slashclaw.Api.Http.{Request}
use slashclaw.Api.Accounts.{
  CreateAccountRequest, AddKeyRequest, delete_account_key, create_account, add_account_key,
}
use slashclaw.Api.Keys.{SameRegister}
use slashclaw.Api.Adding.{Added, add_account_key-Added}
use slashclaw.Api.Registering.{Registered, Left, create_account-Registered}
use slashclaw.Api.Revoking.{IsOwner, IsRevocable, Revoked, delete_account_key-Revoked}
use slashclaw.Server.{service}
use slashclaw.Tests.Setup.{test_env, test_config, test-IsUp, plain, start, token_of}

abbrev key_row_of : String → KeyRow
key_row_of id = record {
  id = id;
  account_id = "a1";
  algorithm = "ed25519";
  public_key = id;
  created_at = pos 1600000000000000000;
  revoked_at = none;
}

-- An account with two keys, and a token for the first.
abbrev registered : Db
registered = record start.db {
  accounts =
      record {
        id = "a1";
        display_name = "Ann";
        bio = none;
        homepage_url = none;
        created_at = pos 1600000000000000000;
      }
      ∷ [];
  account_keys = key_row_of "k1" ∷ key_row_of "k2" ∷ [];
  tokens = record (token_of "ann" "t1") { account_id = some "a1"; key_id = "k1" } ∷ [];
}

abbrev revoking : Request
revoking = record plain { path_id = "a1"; path_key_id = "k2" }

-- The second key gets a time of revocation, the first does not.
revoked_second :
    map
      (λ k. k.revoked_at)
      (delete_account_key test_env
        (service test_config)
        revoking
        (record start { db = registered })).1.db.account_keys
    ≡ none ∷ some (pos 1700000000000000003) ∷ []
unfolding delete_account_key get_token get_account_key revoke_account_key ◌>>=◌
revoked_second = refl

delete_account_key-Revoked_example :
    Triple
      (λ d. d ≡ registered)
      (delete_account_key test_env (service test_config) revoking)
      (λ answer d.
        (t : Token) × IsOwner revoking registered t
        × IsRevocable revoking registered t
        × Revoked "k2" registered d)
      (λ _ d. d ≡ registered)
delete_account_key-Revoked_example =
    delete_account_key-Revoked test_env (service test_config) registered revoking test-IsUp

-- The data above with a challenge for a key.
abbrev asked : Db
asked = record registered {
  challenges =
      record {
        id = "c1";
        agent_id = "ann";
        algorithm = "rsa-pss";
        challenge = "text";
        expires_at = pos 1800000000;
      }
      ∷ [];
}

abbrev adding : AddKeyRequest
adding = record {
  public_key = "0123456789abcdef0";
  algorithm = "rsa-pss";
  signature = "signature";
  challenge = "text";
}

-- The key is added to the two that are there.
added_third :
    map
      (λ (k : KeyRow). k.public_key)
      (add_account_key test_env
        (service test_config)
        revoking
        (some adding)
        (record start { db = asked })).1.db.account_keys
    ≡ "k1" ∷ "k2" ∷ "0123456789abcdef0" ∷ []
unfolding add_account_key get_token get_account_key get_account get_account_key_by_public_key
    create_account_key verify_and_create_token redeem issue verify_signature parse_rsa_public_key
    get_challenge delete_challenge create_token slashclaw.Prelude.scale slashclaw.Prelude.◌+ℤ◌ ◌>>=◌
added_third = refl

add_account_key-Added_example :
    Triple
      (λ d. d ≡ asked)
      (add_account_key test_env (service test_config) revoking (some adding))
      (λ answer d.
        (req : AddKeyRequest) × (some adding ≡ some req)
        × Added test_env revoking req asked answer d)
      (λ _ d. SameRegister asked d)
add_account_key-Added_example =
    add_account_key-Added test_env (service test_config) asked revoking (some adding) test-IsUp

abbrev registering : CreateAccountRequest
registering = record {
  display_name = "ann";
  bio = "";
  homepage_url = "";
  public_key = "0123456789abcdef0";
  algorithm = "rsa-pss";
  signature = "signature";
  challenge = "text";
}

registered_second :
    map
      (λ (a : AccountRow). a.display_name)
      (create_account test_env
        (service test_config)
        plain
        (some registering)
        (record start { db = asked })).1.db.accounts
    ≡ "Ann" ∷ "ann" ∷ []
unfolding create_account store_account get_token get_account_key_by_public_key create_account_key
    verify_and_create_token redeem issue verify_signature parse_rsa_public_key get_challenge
    delete_challenge create_token slashclaw.Prelude.scale slashclaw.Prelude.◌+ℤ◌ ◌>>=◌
registered_second = refl

create_account-Registered_example :
    Triple
      (λ d. d ≡ asked)
      (create_account test_env (service test_config) plain (some registering))
      (λ answer d.
        (req : CreateAccountRequest) × (some registering ≡ some req)
        × Registered test_env plain req asked answer d)
      (λ _ d. Left (some registering) asked d)
create_account-Registered_example =
    create_account-Registered test_env (service test_config) asked plain (some registering)
      test-IsUp
