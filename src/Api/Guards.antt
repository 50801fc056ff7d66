-- ===== src/Api/Guards.antt =====
-- The middleware `RequireAuth` in front of a handler.
use slashclaw.Prelude.{
  String, true, false, Option, some, none, List, [], ◌∷◌, ◌≡◌, refl, ◌==◌, eq_iff, ℤ, ltb_ℤ, first,
  select, arith, IsIn, IsIn-select, ◌⊎◌, inl, inr, ap, Bool-cases, if◌then◌else◌,
}
use mathlib.Core.Option
use slashclaw.Env.{Env}
use slashclaw.Exec.Keeps.{Keeps-same}
use slashclaw.Api.Keeps.{request_token-Keeps}
use slashclaw.Exec.{World, Result, ok, err, ◌>>=◌}
use slashclaw.Store.Models.{Token}
use slashclaw.Store.Rows.{TokenRow}
use slashclaw.Store.Sql.{Error, query, string_of}
use slashclaw.Store.Sessions.{is_live_token, scan_token, to_seconds, get_token}
use slashclaw.Store.Triples.{ok_injective, query_found}
use slashclaw.Auth.{validate_token}
use slashclaw.Api.Http.{
  Request, Response, Handler, write_error, bearer_token, request_token, token_context, with_token,
  require_auth,
}

-- The row that the bearer token of a request names, while it lasts.
pub record Bears (env : Env) (r : Request) (w : World) : Type 0 where
  pub row : TokenRow
  pub stored : IsIn row w.db.tokens
  pub is_bearer : row.token ≡ bearer_token r
  pub is_given : (bearer_token r == "") ≡ false
  pub is_live : ltb_ℤ (to_seconds (env.now w.step)) row.expires_at ≡ true

-- The handler behind the middleware runs on the request, with the agent of the token as its verified
-- agent, and with the account of the token, if it has one, as its account.
pub record RunsAs (row : TokenRow) (next : Request → Handler) (r : Request) (w : World)
    (outcome : Result Response Response × World) : Type 0 where
  pub start : World
  pub same_db : start.db ≡ w.db
  pub same_buckets : start.buckets ≡ w.buckets
  pub is_run :
      outcome
      ≡ next
          (record r {
            context = record {
              agent_id = some row.agent_id;
              verified = some true;
              account_id =
                  if string_of row.account_id == ""
                  then r.context.account_id
                  else some (string_of row.account_id);
            };
          })
          start

abbrev pub unauthenticated : Response
unauthenticated = write_error 401 "authentication required"

-- The handler does not run.
pub record Refused (w : World) (outcome : Result Response Response × World) : Type 0 where
  pub is_refusal : outcome.0 ≡ err unauthenticated
  pub same_db : outcome.1.db ≡ w.db
  pub same_buckets : outcome.1.buckets ≡ w.buckets

-- A bearer token that `getToken` has found.
abbrev pub Known : Env → Request → World → Token → Type 0
Known env r w t = (b : Bears env r w) × (t ≡ scan_token b.row)

first_known :
    (rows all : List TokenRow) (t : Token) (text : String) (time : ℤ)
    → ((row : TokenRow) → IsIn row rows → IsIn row all × (is_live_token text time row ≡ true))
    → Option.map scan_token (first rows) ≡ some t
    → (row : TokenRow) × IsIn row all × (is_live_token text time row ≡ true) × (t ≡ scan_token row)
first_known [] all t text time h e = cc
first_known (row ∷ rows) all t text time h e =
    let found = h row (inl refl) in (row, found.0, found.1, cc)

module _ (env : Env) (r : Request) (w : World) where
  Known-row :
      (t : Token)
      → (bearer_token r == "") ≡ false
      → (row : TokenRow) × IsIn row w.db.tokens
        × (is_live_token (bearer_token r) (env.now w.step) row ≡ true)
        × (t ≡ scan_token row)
      → Known env r w t
  Known-row t given (row, i, live, e) = (
    record {
      row = row;
      stored = i;
      is_bearer = ground (arith, live, eq_iff row.token (bearer_token r));
      is_given = given;
      is_live = ground (arith, live);
    },
    e,
  )

  pub request_token-Known : (t : Token) → (request_token env r w).0 ≡ ok (some t) → Known env r w t
  unfolding request_token validate_token get_token ◌>>=◌
  request_token-Known t e = elim (Bool-cases (bearer_token r == "")) [
    | inl empty ↦ absurd (cc (rw empty at e))
    | inr given ↦ Known-row t given (
        first_known _ _ t _ _ (λ row i. IsIn-select _ row w.db.tokens i)
          (ok_injective (
            query_found env
              (λ d. ok (
                Option.map scan_token
                  (first (select (is_live_token (bearer_token r) (env.now w.step)) d.tokens))))
              _ _ (rw given at e))))
  ]

get_token-buckets :
    (env : Env) (text : String) (w : World) → (get_token env text w).1.buckets ≡ w.buckets
unfolding get_token query ◌>>=◌
get_token-buckets env text w = ground arith

request_token-buckets :
    (env : Env) (r : Request) (w : World) → (request_token env r w).1.buckets ≡ w.buckets
unfolding request_token validate_token ◌>>=◌
request_token-buckets env r w = elim (Bool-cases (bearer_token r == "")) [
  | inl empty ↦ rw empty refl
  | inr given ↦ rw given (get_token-buckets env _ w)
]

module _ (env : Env) (next : Request → Handler) (r : Request) (w : World) where
  decided :
      (o : Result Error (Option Token)) (w' : World)
      → ((t : Token) → o ≡ ok (some t) → Known env r w t)
      → w'.db ≡ w.db
      → w'.buckets ≡ w.buckets
      → Refused w (with_token next r o w')
        ⊎ ((t : Bears env r w) × RunsAs t.row next r w (with_token next r o w'))
  unfolding with_token token_context scan_token ◌>>=◌
  decided (ok (some t)) w' k d b =
      let (bears, e) = k t refl in
      inr (
        bears,
        record {
          start = w';
          same_db = d;
          same_buckets = b;
          is_run = ap (λ u. next (record r { context = token_context u r.context }) w') e;
        },
      )
  decided (ok none) w' k d b = inl (record { is_refusal = refl; same_db = d; same_buckets = b })
  decided (err x) w' k d b = inl (record { is_refusal = refl; same_db = d; same_buckets = b })

-- RequireAuth either answers 401 and changes neither the tables nor the buckets, or the request
-- bears a token that is stored and has not expired, and the handler runs, on the same tables and
-- buckets, on the request with this context: its agent is the agent of that token, it is verified,
-- and its account is that of the token, if the token has one.
pub require_auth-Bears :
    (env : Env) (next : Request → Handler) (r : Request) (w : World)
    → Refused w (require_auth env next r w)
      ⊎ ((t : Bears env r w) × RunsAs t.row next r w (require_auth env next r w))
unfolding require_auth ◌>>=◌
require_auth-Bears env next r w =
    decided env next r w (request_token env r w).0 (request_token env r w).1
      (request_token-Known env r w) (Keeps-same _ (λ Q. request_token-Keeps env {Q = Q} r) w)
      (request_token-buckets env r w)
