-- ===== src/Store/Keeps.antt =====
-- The queries leave the tables alone, and a write keeps what its change keeps.
use slashclaw.Prelude.{String, ◌≡◌, refl, Bool, true, false, ℤ, arith}
use slashclaw.Env.{Env}
use slashclaw.Exec.{Result, ok, err, World}
use slashclaw.Exec.Keeps.{Keeps, keeps_rules}
use slashclaw.Store.Rows.{Db}
use slashclaw.Store.Models.{ListOptions, CommentListOptions}
use slashclaw.Store.Sql.{Error, query, settle, execute}
use slashclaw.Store.Stories.{get_story, list_stories, find_story_by_url, get_last_story_by_agent}
use slashclaw.Store.Comments.{get_comment}
use slashclaw.Store.Tree.{list_comments}
use slashclaw.Store.Votes.{get_vote}
use slashclaw.Store.Accounts.{get_account, get_account_key, get_account_key_by_public_key}
use slashclaw.Store.Sessions.{get_challenge, get_token}

module _ (env : Env) {Q : Db → Type 0} where
  pub Keeps-query : {A : Type 0} (f : Db → Result Error A) → Keeps Q (query env f)
  unfolding query
  Keeps-query f = record { at = λ w h. ground arith }

  settle-Keeps :
      (b : Bool) (r : Result Error Db) (w : World)
      → Q w.db
      → ((db : Db) → r ≡ ok db → Q db)
      → Q (settle env b r w).1.db
  unfolding settle
  settle-Keeps true r w h k = h
  settle-Keeps false (ok db) w h k = k db refl
  settle-Keeps false (err e) w h k = h

  pub Keeps-execute :
      (f : Db → Result Error Db)
      → ((db db' : Db) → Q db → f db ≡ ok db' → Q db')
      → Keeps Q (execute env f)
  unfolding execute
  Keeps-execute f keep = record {
    at = λ w h. settle-Keeps (env.down w.step) (f w.db) w h (λ db e. keep w.db db h e);
  }

  pub get_story-Keeps : (id : String) → Keeps Q (get_story env id)
  unfolding get_story
  get_story-Keeps id = search Keeps-query

  pub list_stories-Keeps : (opts : ListOptions) → Keeps Q (list_stories env opts)
  unfolding list_stories
  list_stories-Keeps opts = search (keeps_rules, Keeps-query)

  pub find_story_by_url-Keeps :
      (url : String) (since : ℤ) → Keeps Q (find_story_by_url env url since)
  unfolding find_story_by_url
  find_story_by_url-Keeps url since = search Keeps-query

  pub get_last_story_by_agent-Keeps : (agent : String) → Keeps Q (get_last_story_by_agent env agent)
  unfolding get_last_story_by_agent
  get_last_story_by_agent-Keeps agent = search Keeps-query

  pub get_comment-Keeps : (id : String) → Keeps Q (get_comment env id)
  unfolding get_comment
  get_comment-Keeps id = search Keeps-query

  pub list_comments-Keeps :
      (story : String) (opts : CommentListOptions) → Keeps Q (list_comments env story opts)
  unfolding list_comments
  list_comments-Keeps story opts = search (keeps_rules, Keeps-query)

  pub get_vote-Keeps : (kind target ip agent : String) → Keeps Q (get_vote env kind target ip agent)
  unfolding get_vote
  get_vote-Keeps kind target ip agent = search Keeps-query

  pub get_account-Keeps : (id : String) → Keeps Q (get_account env id)
  unfolding get_account
  get_account-Keeps id = search Keeps-query

  pub get_account_key-Keeps : (id : String) → Keeps Q (get_account_key env id)
  unfolding get_account_key
  get_account_key-Keeps id = search Keeps-query

  pub get_account_key_by_public_key-Keeps :
      (alg public_key : String) → Keeps Q (get_account_key_by_public_key env alg public_key)
  unfolding get_account_key_by_public_key
  get_account_key_by_public_key-Keeps alg public_key = search Keeps-query

  pub get_challenge-Keeps : (text : String) → Keeps Q (get_challenge env text)
  unfolding get_challenge
  get_challenge-Keeps text = search (keeps_rules, Keeps-query)

  pub get_token-Keeps : (text : String) → Keeps Q (get_token env text)
  unfolding get_token
  get_token-Keeps text = search (keeps_rules, Keeps-query)

pub ruleset read_rules = (
  keeps_rules, get_story-Keeps, list_stories-Keeps, find_story_by_url-Keeps,
  get_last_story_by_agent-Keeps, get_comment-Keeps, list_comments-Keeps, get_vote-Keeps,
  get_account-Keeps, get_account_key-Keeps, get_account_key_by_public_key-Keeps,
  get_challenge-Keeps, get_token-Keeps,
)
