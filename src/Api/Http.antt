-- ===== src/Api/Http.antt =====
-- internal/api/api.go and internal/api/middleware.go: requests, answers, and the helpers that the
-- handlers share. A handler returns its answer, early or at its end, so both cases of the result
-- are answers. The decoded JSON body is an argument of the handler, `none` if it does not decode.
use slashclaw.Prelude.{
  ℕ, String, Bool, true, false, not, ◌&&◌, Option, none, some, List, ℤ, pos, ◌==◌, quot,
  if◌then◌else◌,
}
use slashclaw.Strings.{cat, trim_space, before_first, before_last, cut_prefix, contains}
use slashclaw.Env.{Env}
use slashclaw.Exec.{Exec, Result, ok, err, pure, fail, World, attempt, ◌>>=◌}
use slashclaw.Config.{Config, or_default}
use slashclaw.Ratelimit.{allow, retry_after}
use slashclaw.Auth.{validate_token}
use slashclaw.Store.Models.{Story, Account, Token, second}
use slashclaw.Store.Sql.{Error}
use slashclaw.Store.Tree.{CommentList}

-- The values that the middleware puts into the request's context.
pub record Context : Type 0 where
  pub agent_id : Option String
  pub verified : Option Bool
  pub account_id : Option String

abbrev pub no_context : Context
no_context = record { agent_id = none; verified = none; account_id = none }

-- The parts of a request that the handlers read. A header, a path value or a query value that is
-- missing is the empty text.
pub record Request : Type 0 where
  pub method : String
  pub path : String
  pub x_agent_id : String
  pub x_forwarded_for : String
  pub x_real_ip : String
  pub remote_addr : String
  pub authorization : String
  pub x_admin_secret : String
  pub accept : String
  pub path_id : String
  pub path_key_id : String
  pub query_sort : String
  pub query_limit : String
  pub query_cursor : String
  pub query_view : String
  pub query_format : String
  pub context : Context

-- The bodies, one constructor for each struct that is encoded.
pub data Body : Type 0 where
  error_response : (message : String) (retry_after : ℤ) → Body
  create_story_response : (id : String) (existing : Bool) → Body
  a_story : Story → Body
  list_stories_response : List Story → (next_cursor : String) → Body
  create_comment_response : (id : String) → Body
  list_comments_response : CommentList → Body
  ok_response : Body
  challenge_response : (challenge : String) (expires_at : ℤ) → Body
  verify_response : (access_token : String) (expires_at : ℤ) (key_id account_id : String) → Body
  create_account_response : (account_id key_id : String) → Body
  an_account : Account → Body
  add_key_response : (key_id : String) → Body
  -- the text `ok` of the health check
  healthy : Body

-- `retry_header` is the code point that the header `Retry-After` holds. `aborted` is a handler that
-- panicked: the server closes the connection without an answer.
pub data Response : Type 0 where
  reply : (status : ℕ) (retry_header : Option ℤ) → Body → Response
  aborted : Response

abbrev pub Handler : Type 0
Handler = Exec Response Response

-- `writeJSON`, `writeError` and `writeRateLimited`; `string(rune(n))` is one character
abbrev pub write_json : ℕ → Body → Response
write_json status body = reply status none body

abbrev pub write_error : ℕ → String → Response
write_error status message = reply status none (error_response message (pos 0))

abbrev pub write_rate_limited : ℤ → Response
write_rate_limited seconds = reply 429 (some seconds) (error_response "rate limit exceeded" seconds)

abbrev pub status_of : Response → ℕ
status_of (reply status header body) = status
status_of aborted = 0

abbrev pub answer : Result Response Response → Response
answer (ok a) = a
answer (err a) = a

-- The answer of a handler, and the state that it leaves.
abbrev pub serve : Handler → World → Response × World
serve h w = let (r, w') = h w in (answer r, w')

abbrev pub database_error : Error → Response
database_error e = write_error 500 "database error"

-- `getClientIP`
unfoldable pub client_ip : Request → String
unfolding trim_space before_first before_last or_default
client_ip r =
    if not (r.x_forwarded_for == "")
    then trim_space (before_first b',' r.x_forwarded_for)
    else if not (r.x_real_ip == "")
    then r.x_real_ip
    else or_default r.remote_addr (before_last b':' r.remote_addr)

-- `getToken`
unfoldable pub bearer_token : Request → String
unfolding cut_prefix or_default
bearer_token r = or_default "" (cut_prefix "Bearer " r.authorization)

-- the key of `checkRateLimit`
unfoldable pub rate_key : Request → String → String
unfolding client_ip
rate_key r action =
    let key = cat action (cat ":" (client_ip r)) in
    if r.x_agent_id == "" then key else cat key (cat ":" r.x_agent_id)

unfoldable pub is_admin : Config → Request → Bool
is_admin cfg r = not (cfg.admin_secret == "") && r.x_admin_secret == cfg.admin_secret

unfoldable pub wants_json : Request → Bool
unfolding contains
wants_json r = contains r.accept "application/json"

module _ (env : Env) where
  -- `validateToken` of api.go
  unfoldable pub request_token : Request → Exec Error (Option Token)
  unfolding bearer_token validate_token
  request_token r = if bearer_token r == "" then pure none else validate_token env (bearer_token r)

  unfoldable pub check_rate_limit : {E : Type 0} → Config → Request → String → ℤ → Exec E (Bool × ℤ)
  unfolding rate_key allow retry_after
  check_rate_limit cfg r action limit = do
    allowed ← allow env (rate_key r action) limit cfg.rate_limit_window
    if allowed then pure (true, pos 0) else do
      wait ← retry_after env (rate_key r action) cfg.rate_limit_window
      pure (false, quot wait second)

-- `GetAuthFromContext`, without the account, which no handler reads
unfoldable pub context_agent : Request → String
unfolding or_default
context_agent r = or_default "" r.context.agent_id

unfoldable pub context_verified : Request → Bool
unfolding or_default
context_verified r = or_default false r.context.verified

-- the context that a valid token gives
unfoldable pub token_context : Token → Context → Context
token_context token ctx = record {
  agent_id = some token.agent_id;
  verified = some true;
  account_id = if token.account_id == "" then ctx.account_id else some token.account_id;
}

unfoldable pub header_context : String → Context → Context
header_context agent ctx =
    if agent == "" then ctx else record ctx { agent_id = some agent; verified = some false }

-- what `RequireAuth` does with the outcome of the validation
unfoldable pub with_token : (Request → Handler) → Request → Result Error (Option Token) → Handler
unfolding token_context
with_token next r (ok (some token)) = next (record r { context = token_context token r.context })
with_token next r (ok none) = fail (write_error 401 "authentication required")
with_token next r (err e) = fail (write_error 401 "authentication required")

unfoldable pub with_optional : (Request → Handler) → Request → Result Error (Option Token) → Handler
unfolding token_context header_context
with_optional next r (ok (some token)) = next (record r { context = token_context token r.context })
with_optional next r (ok none) = next (record r { context = header_context r.x_agent_id r.context })
with_optional next r (err e) = next (record r { context = header_context r.x_agent_id r.context })

module _ (env : Env) where
  unfoldable pub require_auth : (Request → Handler) → Request → Handler
  unfolding request_token with_token
  require_auth next r = do token ← attempt (request_token env r); with_token next r token

  unfoldable pub optional_auth : (Request → Handler) → Request → Handler
  unfolding request_token with_optional
  optional_auth next r = do token ← attempt (request_token env r); with_optional next r token
