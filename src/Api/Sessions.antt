-- ===== src/Api/Sessions.antt =====
-- internal/api/auth.go
use slashclaw.Prelude.{String, ◌||◌, Option, ◌==◌}
use slashclaw.Env.{Env}
use slashclaw.Exec.{pure, or_fail, fail_if, on_err, ◌>>=◌, ◌>>◌}
use slashclaw.Auth.{Service, create_challenge, verify_and_create_token}
use slashclaw.Store.Sql.{Error}
use slashclaw.Api.Http.{
  Response, aborted, Handler, challenge_response, verify_response, write_json, write_error,
}

pub record ChallengeRequest : Type 0 where
  pub agent_id : String
  pub algorithm : String

pub record VerifyRequest : Type 0 where
  pub agent_id : String
  pub algorithm : String
  pub public_key : String
  pub challenge : String
  pub signature : String

unfoldable pub challenge_error : Error → Response
challenge_error Error.panicked = aborted
challenge_error Error.invalid_algorithm =
    write_error 400 "invalid algorithm; supported: ed25519, secp256k1, rsa-pss, rsa-sha256"
challenge_error e = write_error 500 "failed to create challenge"

-- the switch on the error of `VerifyAndCreateToken`, also in `CreateAccount`
unfoldable pub verify_error : Error → Response
verify_error Error.panicked = aborted
verify_error Error.invalid_algorithm = write_error 400 "invalid algorithm"
verify_error Error.invalid_public_key = write_error 400 "invalid public key format"
verify_error Error.invalid_signature = write_error 401 "invalid signature"
verify_error Error.challenge_not_found = write_error 400 "challenge expired or not found"
verify_error Error.challenge_expired = write_error 400 "challenge expired or not found"
verify_error e = write_error 500 "verification failed"

module _ (env : Env) (s : Service) where
  unfoldable pub create_challenge_handler : Option ChallengeRequest → Handler
  unfolding challenge_error
  create_challenge_handler body = do
    req ← or_fail body (write_error 400 "invalid JSON")
    fail_if (req.agent_id == "") (write_error 400 "agent_id is required")
    fail_if (req.algorithm == "") (write_error 400 "alg is required")
    challenge ← on_err challenge_error (create_challenge env s req.agent_id req.algorithm)
    pure (write_json 200 (challenge_response challenge.challenge challenge.expires_at))

  unfoldable pub verify_challenge : Option VerifyRequest → Handler
  unfolding verify_error
  verify_challenge body = do
    req ← or_fail body (write_error 400 "invalid JSON")
    fail_if
        (req.agent_id == ""
          || req.algorithm == ""
          || req.public_key == ""
          || req.challenge == ""
          || req.signature == "")
        (write_error 400 "all fields are required: agent_id, alg, public_key, challenge, signature")
    token ← on_err verify_error (
        verify_and_create_token env s req.agent_id req.algorithm req.public_key req.challenge
          req.signature)
    pure (
        write_json 200 (verify_response token.token token.expires_at token.key_id token.account_id))
