-- ===== src/Tests/Sessions.antt =====
-- Challenges, tokens and guards on the test data.
use slashclaw.Prelude.{
  String, List, [], ◌∷◌, Option, some, none, Bool, true, false, ℤ, pos, ◌≡◌, refl, ◌↔◌, ◌⊎◌, inl,
  inr, HasDistinct,
}
use slashclaw.Exec.{World, ok, err, ◌>>=◌}
use slashclaw.Exec.Triple.{Triple}
use slashclaw.Store.Models.{Token}
use slashclaw.Store.Rows.{Db, empty_db}
use slashclaw.Store.Sql.{challenge_not_found}
use slashclaw.Store.Sessions.{get_challenge, delete_challenge, create_token}
use slashclaw.Store.Accounts.{get_account_key_by_public_key}
use slashclaw.Store.Unique.{Unique}
use slashclaw.Auth.{verify_signature, parse_rsa_public_key, redeem, issue, verify_and_create_token}
use slashclaw.Auth.Redeem.{Redeemed}
use slashclaw.Auth.Issue.{Issued, verify_and_create_token-Issued}
use slashclaw.Auth.Once.{expired_or_missing, challenge_serves_once}
use slashclaw.Auth.Signatures.{Accepted, verify_signature-Accepted}
use slashclaw.Api.Http.{Request, Response, Handler, require_auth, serve}
use slashclaw.Api.Guards.{Bears, RunsAs, Refused, require_auth-Bears}
use slashclaw.Api.Votes.{create_vote}
use slashclaw.Server.{service, Route, post_vote, delete_key, handle, Event, request, run}
use slashclaw.Server.Guards.{TurnedAway, Stranger-TurnedAway}
use slashclaw.Server.Unique.{run-Unique}
use slashclaw.Tests.Setup.{test_env, test_config, test-IsUp, plain, start}

abbrev pub asked : Db
asked = record empty_db {
  challenges =
      record {
        id = "c1";
        agent_id = "ann";
        algorithm = "rsa-pss";
        challenge = "text";
        expires_at = pos 1800000000;
      }
      ∷ [];
}

abbrev pub asked_world : World
asked_world = record { step = 0; db = asked; buckets = [] }

abbrev pub the_token : Token
the_token = record {
  id = "iiiiiiid";
  account_id = "";
  key_id = "unregistered:0123456789abcdef";
  agent_id = "ann";
  token = "token";
  expires_at = pos 1700086400000000007;
}

token_given :
    (verify_and_create_token test_env
      (service test_config)
      "ann"
      "rsa-pss"
      "0123456789abcdef0"
      "text"
      "signature"
      asked_world).0
    ≡ ok the_token
unfolding verify_and_create_token redeem issue verify_signature parse_rsa_public_key get_challenge
    delete_challenge create_token get_account_key_by_public_key slashclaw.Prelude.scale
    slashclaw.Prelude.◌+ℤ◌ ◌>>=◌
token_given = refl

verify_and_create_token-Issued_example :
    Triple
      (λ d. d ≡ asked)
      (verify_and_create_token test_env
        (service test_config)
        "ann"
        "rsa-pss"
        "0123456789abcdef0"
        "text"
        "signature")
      (λ token d.
        (mid : Db) × Redeemed test_env "ann" "rsa-pss" "0123456789abcdef0" "text" "signature" asked
          mid
        × Issued "ann" token mid d)
      (λ _ d.
        (d ≡ asked)
        ⊎ Redeemed test_env "ann" "rsa-pss" "0123456789abcdef0" "text" "signature" asked d)
verify_and_create_token-Issued_example =
    verify_and_create_token-Issued test_env (service test_config) "ann" "rsa-pss"
      "0123456789abcdef0" "text" "signature" asked test-IsUp

-- The state after the token.
abbrev redeemed_world : World
redeemed_world =
    (verify_and_create_token test_env (service test_config) "ann" "rsa-pss" "0123456789abcdef0"
      "text" "signature" asked_world).1

challenge_serves_once_example :
    ((verify_and_create_token test_env
        (service test_config)
        "bob"
        "ed25519"
        "key"
        "text"
        "other"
        redeemed_world).0
      ≡ err challenge_not_found)
    × ((verify_and_create_token test_env
          (service test_config)
          "bob"
          "ed25519"
          "key"
          "text"
          "other"
          redeemed_world).1.db
        ≡ redeemed_world.db)
challenge_serves_once_example =
    challenge_serves_once test_env (service test_config) (service test_config) "ann" "rsa-pss"
      "0123456789abcdef0" "signature" "text" "bob" "ed25519" "key" "other" asked_world
      redeemed_world the_token test-IsUp (refl, tt) token_given refl

expired_or_missing_example :
    ((verify_and_create_token test_env
        (service test_config)
        "ann"
        "rsa-pss"
        "0123456789abcdef0"
        "nothing"
        "signature"
        asked_world).0
      ≡ err challenge_not_found)
    × ((verify_and_create_token test_env
          (service test_config)
          "ann"
          "rsa-pss"
          "0123456789abcdef0"
          "nothing"
          "signature"
          asked_world).1.db
        ≡ asked)
expired_or_missing_example =
    expired_or_missing test_env (service test_config) "ann" "rsa-pss" "0123456789abcdef0" "nothing"
      "signature" asked_world test-IsUp ((λ e. cc), tt)

verify_signature-Accepted_example :
    (verify_signature test_env "secp256k1" "key" "text" "signature" ≡ ok true)
    ↔ Accepted test_env "key" "text" "signature" "secp256k1"
verify_signature-Accepted_example =
    verify_signature-Accepted test_env "secp256k1" "key" "text" "signature"

abbrev voting : Request → Handler
voting q =
    create_vote test_env test_config q
      (some (record { target_type = "story"; target_id = "s1"; value = pos 1 }))

require_auth-Bears_example :
    Refused start (require_auth test_env voting plain start)
    ⊎ ((t : Bears test_env plain start) × RunsAs t.row voting plain start
          (require_auth test_env voting plain start))
require_auth-Bears_example = require_auth-Bears test_env voting plain start

abbrev stranger : Request
stranger = record plain { authorization = "Bearer t9"; x_admin_secret = "" }

Stranger-TurnedAway_example : TurnedAway start (
    serve
      (handle test_env test_config
        (post_vote (some (record { target_type = "story"; target_id = "s1"; value = pos 1 })))
        stranger)
      start)
unfolding slashclaw.Server.Guards.is_protected slashclaw.Api.Http.bearer_token
    slashclaw.Api.Http.is_admin
Stranger-TurnedAway_example =
    Stranger-TurnedAway test_env test_config
      (post_vote (some (record { target_type = "story"; target_id = "s1"; value = pos 1 })))
      stranger start refl (record { no_token = ((λ e. cc), ((λ e. cc), tt)); not_admin = refl })

run-Unique_example :
    Unique
      (run test_env test_config (request plain delete_key ∷ request plain delete_key ∷ []) start).db
run-Unique_example =
    run-Unique test_env test_config (request plain delete_key ∷ request plain delete_key ∷ []) start
      (record {
        account_ids = tt;
        key_ids = tt;
        public_keys = tt;
        owners = tt;
        challenge_ids = tt;
        challenge_texts = tt;
        token_ids = (refl, (refl, tt));
        token_texts = (refl, (refl, tt));
      })
