-- ===== src/Store/Unique/Writes.antt =====
-- The writes to the accounts, the keys, the challenges and the tokens keep their keys unique.
use slashclaw.Prelude.{String, not, some, subst}
use slashclaw.Env.{Env}
use slashclaw.Exec.Keeps.{Keeps, Keeps-bind, keeps_rules}
use slashclaw.Store.Rows.{AccountRow, KeyRow, ChallengeRow, TokenRow}
use slashclaw.Store.Models.{Account, AccountKey, Challenge, Token}
use slashclaw.Store.Sql.{execute}
use slashclaw.Store.Keeps.{Keeps-execute}
use slashclaw.Store.Triples.{inserted, ok_injective}
use slashclaw.Store.Frames.{AuthWrites}
use slashclaw.Store.Accounts.{
  is_key, insert_account, insert_key, create_account, create_account_key, revoke_account_key,
}
use slashclaw.Store.Sessions.{
  insert_challenge, insert_token, is_challenge, create_challenge, delete_challenge, create_token,
}
use slashclaw.Store.Unique.{
  Unique, or3-eq_false, add_account-IsUnique, add_key-IsUnique, revoke-IsUnique,
  add_challenge-IsUnique, remove_challenges-IsUnique, add_token-IsUnique,
}

module _ (env : Env) where
  insert_account-Unique : (a : AccountRow) → Keeps Unique (execute env (insert_account a))
  unfolding insert_account
  insert_account-Unique a = Keeps-execute env _ λ db db' u e.
      let (test, same) = inserted _ _ _ db' e in subst Unique same (add_account-IsUnique u a test)

  insert_key-Unique : (k : KeyRow) → Keeps Unique (execute env (insert_key k))
  unfolding insert_key
  insert_key-Unique k = Keeps-execute env _ λ db db' u e.
      let (test, same) = inserted _ _ _ db' e in
      let (id, key, owner) = or3-eq_false _ _ _ test in
      subst Unique same (add_key-IsUnique u k id key owner)

  insert_challenge-Unique : (c : ChallengeRow) → Keeps Unique (execute env (insert_challenge c))
  unfolding insert_challenge
  insert_challenge-Unique c = Keeps-execute env _ λ db db' u e.
      let (test, same) = inserted _ _ _ db' e in subst Unique same (add_challenge-IsUnique u c test)

  insert_token-Unique : (t : TokenRow) → Keeps Unique (execute env (insert_token t))
  unfolding insert_token
  insert_token-Unique t = Keeps-execute env _ λ db db' u e.
      let (test, same) = inserted _ _ _ db' e in subst Unique same (add_token-IsUnique u t test)

  create_account-Unique : (a : Account) → Keeps Unique (create_account env a)
  unfolding create_account
  create_account-Unique a = search (keeps_rules, insert_account-Unique)

  create_account_key-Unique : (k : AccountKey) → Keeps Unique (create_account_key env k)
  unfolding create_account_key
  create_account_key-Unique k = search (keeps_rules, insert_key-Unique)

  revoke_account_key-Unique : (id : String) → Keeps Unique (revoke_account_key env id)
  unfolding revoke_account_key
  revoke_account_key-Unique id = Keeps-bind _ _ (search keeps_rules) λ time.
      Keeps-execute env _
        λ db db' u e. subst Unique (ok_injective e) (revoke-IsUnique u (is_key id) (some time))

  create_challenge-Unique : (c : Challenge) → Keeps Unique (create_challenge env c)
  unfolding create_challenge
  create_challenge-Unique c = search (keeps_rules, insert_challenge-Unique)

  delete_challenge-Unique : (id : String) → Keeps Unique (delete_challenge env id)
  unfolding delete_challenge
  delete_challenge-Unique id = Keeps-execute env _ λ db db' u e.
      subst Unique (ok_injective e) (remove_challenges-IsUnique u (λ r. not (is_challenge id r)))

  create_token-Unique : (t : Token) → Keeps Unique (create_token env t)
  unfolding create_token
  create_token-Unique t = search (keeps_rules, insert_token-Unique)

pub Unique-AuthWrites : (env : Env) → AuthWrites env Unique
Unique-AuthWrites env = record {
  account = create_account-Unique env;
  key = create_account_key-Unique env;
  revoke = revoke_account_key-Unique env;
  challenge = create_challenge-Unique env;
  redeem = delete_challenge-Unique env;
  token = create_token-Unique env;
}
