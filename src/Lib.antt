-- ===== src/Lib.antt =====
-- Slashclaw: a news site for agents. An agent proves that it holds a key by signing a challenge,
-- gets a bearer token, and posts stories, comments and votes over a JSON interface; pages in HTML
-- show the same content. The state is a SQLite database, and in memory the buckets of a rate
-- limiter.
--
-- The model follows the packages of the repository:
--   Config: internal/config (`Load` and its readers of environment variables; Config/Reading is
--     about the numbers).
--   Ratelimit: internal/ratelimit (`MemoryLimiter`), one function for each method, on the map of
--     buckets; `_at` marks the pure part that takes the instant. Ratelimit/Calls has a plain
--     specification of it; Buckets, Window, Answers, Cleanup and Refinement have the proofs.
--   Store: internal/store. Models has the structs of models.go; Rows, the tables of `migrate`; Sql,
--     a call of the database; Stories, Comments, Tree, Votes, Accounts and Sessions, one function
--     for each method of `SQLiteStore` in sqlite.go. A query is a function of the tables and a
--     write is one change of them, with the constraints of the schema. Keeps, Frames and Triples
--     have the rules for reads and writes; Tally, Ballots, Counted, Unique and Hidden, invariants
--     and the writes that keep them; Found, Listing, Top, Roundtrip, Expiry, Threads and the
--     children of Tree are about the queries and the rows; Interface is the interface of store.go.
--   Auth: internal/auth (`Service`, the signatures, `HashIP`); proofs in Auth/Redeem, Issue, Once,
--     SignIn and Signatures.
--   Api: internal/api. Http has api.go and middleware.go; Stories, Comments, Votes, Admin, Sessions
--     and Accounts have the handlers. A handler is a do block in the order of the code, with
--     `fail_if` and `or_fail` for its early answers, so that what was written before an error stays
--     written. The proofs are in Guards (the middleware), Limited, Posting, Links, Original, Seen,
--     Commenting, Replying, Hiding, Registering, Adding, Revoking, SigningIn and below Votes.
--   Web: internal/web, up to the data that a page gets; Web/Agreement compares it with Api, and
--     Web/Numerals is about the text of a score.
--   Server: cmd/slashclaw/main.go, which handler and middleware serve each route, and a run of the
--     server as a list of events: requests, visits of web pages, and ticks of the clean-up of the
--     limiter. Server/Invariants lifts what the handlers keep to a run.
--   Exec: the state, the results and the combinators; Exec/Keeps, Exec/Triple and Exec/Steps have
--     the rules for invariants and for postconditions, and Exec/Clocked for postconditions that say
--     which reading of the clock an action has seen.
--   Prelude, Strings: lists, integers and text, with what the code uses of Go's `strings`.
--   Env: what the code gets from outside: the clock, identifiers, random bytes, whether a call of
--     the database fails, the order in which a query returns rows, JSON, base64, SHA-256, the
--     parsing of keys and the check of signatures. Env/Laws has what the proofs assume of it: that
--     no call of the database fails (`IsUp`), that a query finds the rows that there are
--     (`ScansVotes`), and that `ORDER BY` sorts them (`OrdersStories`, `OrdersComments`).
--   Tests: a concrete environment, and each result applied to it.
--
-- Conventions. Each draw from outside (clock, identifier, random bytes, call of the database) has a
-- number, the field `step`, so that any sequence of outcomes is possible. Instants and durations
-- are signed nanoseconds, without the bounds of `time.Duration`. Go's `int` is a signed integer
-- without bounds; scores and counts stay far below 2^63. Stored instants are compared as instants;
-- the column `expires_at`, which the code writes as text of whole seconds, keeps whole seconds
-- only. A request is served as a whole: requests do not interleave, although the server would run
-- them at once. Loops are structural, but for the printing of a score, which has fuel for 20
-- digits: a Go `int` has at most 19. The driver writes instants as text in their own time zone, so
-- that comparing stored instants with the clock as instants is right for a server that runs in UTC.
-- The value that the front page is sorted by is a REAL expression of SQLite; it is a parameter of
-- the model (`story_rank` of Env), so that no property depends on its rounding. A query gives all
-- of its rows or fails; the code does not ask for the error of a query that breaks off between two
-- rows.
--
-- Not modelled: opening, migrating and closing the database (the schema is in Rows), logging, the
-- start and the stop of the HTTP server, the matching of paths to routes, HTML templates and the
-- JSON on the wire. The body of a request stands beside its route, decoded or not decodable.
pub mod Prelude
pub mod Strings
pub mod Store
pub mod Env
pub mod Exec
pub mod Config
pub mod Ratelimit
pub mod Auth
pub mod Api
pub mod Web
pub mod Server
pub mod Tests
