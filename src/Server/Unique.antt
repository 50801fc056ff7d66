-- ===== src/Server/Unique.antt =====
-- Over any run of the server the keys of the tables of accounts and sessions stay unique.
use slashclaw.Prelude.{List}
use slashclaw.Env.{Env}
use slashclaw.Exec.{World}
use slashclaw.Config.{Config}
use slashclaw.Store.Unique.{Unique, Unique-OfAuth}
use slashclaw.Store.Unique.Writes.{Unique-AuthWrites}
use slashclaw.Server.{Event, run}
use slashclaw.Server.Invariants.{auth_run}

-- If it holds at the start, it holds after any list of requests, whichever calls of the database
-- fail: identifiers of accounts, keys, challenges and tokens, the texts of challenges and of
-- tokens, and the pairs of algorithm and public key stay without repetition, and every key belongs
-- to a stored account.
pub run-Unique :
    (env : Env) (cfg : Config) (events : List Event) (w : World)
    → Unique w.db
    → Unique (run env cfg events w).db
run-Unique env cfg events w u = auth_run env cfg (Unique-AuthWrites env) Unique-OfAuth events w u
