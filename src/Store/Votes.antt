-- ===== src/Store/Votes.antt =====
-- The votes in internal/store/sqlite.go.
use mathlib.Core.Option
use slashclaw.Prelude.{
  String, Bool, false, ◌&&◌, ◌||◌, Option, none, some, [], ◌∷◌, ◌++◌, ℤ, nat_eq, ◌==◌, first,
  select, update, any, if◌then◌else◌,
}
use slashclaw.Env.{Env}
use slashclaw.Exec.{Exec, Result, ok, err, pure, now, new_uuid, ◌>>=◌, ◌>>◌}
use slashclaw.Store.Models.{Vote, is_zero}
use slashclaw.Store.Rows.{VoteRow, Db}
use slashclaw.Store.Sql.{
  Error, constraint, query, execute, null_string, string_of, sql_eq, bool_to_int,
}

-- the row that `CreateVote` inserts
unfoldable pub vote_row : Vote → VoteRow
vote_row vote = record {
  id = vote.id;
  target_type = vote.target_type;
  target_id = vote.target_id;
  value = vote.value;
  created_at = vote.created_at;
  ip_hash = null_string vote.ip_hash;
  agent_id = null_string vote.agent_id;
  agent_verified = bool_to_int vote.agent_verified;
}

-- the scan in `GetVote`
unfoldable pub scan_vote : VoteRow → Vote
scan_vote row = record {
  id = row.id;
  target_type = row.target_type;
  target_id = row.target_id;
  value = row.value;
  created_at = row.created_at;
  ip_hash = string_of row.ip_hash;
  agent_id = string_of row.agent_id;
  agent_verified = nat_eq row.agent_verified 1;
}

abbrev pub is_vote : String → VoteRow → Bool
is_vote id row = row.id == id

-- two columns that are equal and not NULL
abbrev pub same_column : Option String → Option String → Bool
same_column none b = false
same_column (some s) b = sql_eq b s

-- UNIQUE(target_type, target_id, ip_hash, agent_id): NULL is distinct from NULL
abbrev pub same_voter : VoteRow → VoteRow → Bool
same_voter a b =
    a.target_type == b.target_type
    && a.target_id == b.target_id
    && same_column a.ip_hash b.ip_hash
    && same_column a.agent_id b.agent_id

-- the insertion, with the primary key and the unique index
unfoldable pub insert_vote : VoteRow → Db → Result Error Db
insert_vote row db =
    if any (is_vote row.id) db.votes || any (same_voter row) db.votes
    then err constraint
    else ok (record db { votes = db.votes ++ row ∷ [] })

-- the WHERE clause of `GetVote`
abbrev pub is_from : String → String → String → String → VoteRow → Bool
is_from kind target ip agent row =
    row.target_type == kind
    && row.target_id == target
    && (sql_eq row.ip_hash ip || sql_eq row.agent_id agent)

module _ (env : Env) where
  unfoldable pub create_vote : Vote → Exec Error Vote
  unfolding execute insert_vote vote_row
  create_vote vote = do
    id ← if vote.id == "" then new_uuid env else pure vote.id
    created ← if is_zero vote.created_at then now env else pure vote.created_at
    let saved = record vote { id = id; created_at = created }
    execute env (insert_vote (vote_row saved))
    pure saved

  -- the query of `GetVote`, which has no order, so that any of the rows may come first
  abbrev pub find_vote : String → String → String → String → Db → Result Error (Option Vote)
  find_vote kind target ip agent db = ok (
      Option.map scan_vote
        (first (env.scan_votes (select (is_from kind target ip agent) db.votes))))

  unfoldable pub get_vote : String → String → String → String → Exec Error (Option Vote)
  unfolding query scan_vote
  get_vote kind target ip agent = query env (find_vote kind target ip agent)

  unfoldable pub update_vote : String → ℤ → Exec Error Unit
  unfolding execute
  update_vote id value = execute env λ db.
      ok (record db { votes = update (is_vote id) (λ r. record r { value = value }) db.votes })
