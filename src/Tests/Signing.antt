-- ===== src/Tests/Signing.antt =====
-- A sign-in on the test data, up to a request that is served.
use slashclaw.Prelude.{pos, String, [], ◌∷◌, ◌≡◌, refl, true, false, inl, ◌==◌, ltb_ℤ, ap, sym, ◌∙◌}
use slashclaw.Exec.{World, ok}
use slashclaw.Store.Models.{Token}
use slashclaw.Store.Sessions.{to_seconds, token_row}
use slashclaw.Auth.{verify_signature, parse_rsa_public_key, verify_and_create_token, key_of}
use slashclaw.Auth.SignIn.{Signed, Drawn, redeemed}
use slashclaw.Api.Http.{Request, Handler, bearer_token, require_auth}
use slashclaw.Prelude.{IsIn, HasDistinct}
use slashclaw.Api.SigningIn.{text_of}
use slashclaw.Api.Guards.{RunsAs}
use slashclaw.Api.SigningIn.{signed_challenge_serves}
use slashclaw.Server.{service}
use slashclaw.Tests.Setup.{test_env, test_config, test-IsUp}
use slashclaw.Tests.Sessions.{asked_world}

abbrev key : String
key = "0123456789abcdef0"

signed : Signed test_env "ann" "rsa-pss" key "text" "signature" asked_world
unfolding verify_signature parse_rsa_public_key to_seconds slashclaw.Prelude.scale
    slashclaw.Store.Sessions.from_seconds
signed = record {
  row = record {
    id = "c1";
    agent_id = "ann";
    algorithm = "rsa-pss";
    challenge = "text";
    expires_at = pos 1800000000;
  };
  stored = inl refl;
  one_row = (refl, tt);
  is_text = refl;
  is_agent = refl;
  is_algorithm = refl;
  is_live = refl;
  in_time = refl;
  valid = refl;
}

drawn :
    Drawn test_env
      (service test_config)
      "ann"
      "rsa-pss"
      key
      (redeemed test_env "ann" "rsa-pss" key "text" "signature" asked_world signed)
unfolding key_of
drawn = record {
  bytes = 5 ∷ [];
  is_random = refl;
  owner = ("", "unregistered:0123456789abcdef");
  is_owner = refl;
  has_id = refl;
  is_new = refl;
}

signed_challenge_serves_example :
    let done =
      verify_and_create_token test_env
        (service test_config)
        "ann"
        "rsa-pss"
        key
        "text"
        "signature"
        asked_world in
    (token : Token) × (done.0 ≡ ok token)
    × (token.agent_id ≡ "ann")
    × IsIn (token_row token) done.1.db.tokens
    × HasDistinct text_of done.1.db.tokens
    × ((next : Request → Handler) (r : Request) (later : World)
        → IsIn (token_row token) later.db.tokens
        → HasDistinct text_of later.db.tokens
        → bearer_token r ≡ token.token
        → (token.token == "") ≡ false
        → ltb_ℤ (to_seconds (test_env.now later.step)) (to_seconds token.expires_at) ≡ true
        → RunsAs (token_row token) next r later (require_auth test_env next r later))
signed_challenge_serves_example =
    signed_challenge_serves test_env (service test_config) "ann" "rsa-pss" key "text" "signature"
      asked_world test-IsUp tt signed drawn
