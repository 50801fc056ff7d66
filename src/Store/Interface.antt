-- ===== src/Store/Interface.antt =====
-- The interface `Store` of internal/store/store.go, and `SQLiteStore` as an instance of it. `Close`
-- is left out. A `Create` fills in the identifier and the time of its argument, which it returns
-- here.
use slashclaw.Prelude.{String, Option, List, ℤ}
use slashclaw.Env.{Env}
use slashclaw.Exec.{Exec}
use slashclaw.Store.Models.{
  Story, Comment, Vote, Account, AccountKey, Challenge, Token, ListOptions, CommentListOptions,
}
use slashclaw.Store.Sql.{Error}
use slashclaw.Store.Tree.{CommentList}
use slashclaw.Store.Stories
use slashclaw.Store.Comments
use slashclaw.Store.Tree
use slashclaw.Store.Votes
use slashclaw.Store.Accounts
use slashclaw.Store.Sessions

pub record Store : Type 0 where
  -- stories
  pub create_story : Story → Exec Error Story
  pub get_story : String → Exec Error (Option Story)
  pub list_stories : ListOptions → Exec Error (List Story × String)
  pub find_story_by_url : String → ℤ → Exec Error (Option Story)
  pub get_last_story_by_agent : String → Exec Error (Option Story)
  pub update_story_score : String → ℤ → Exec Error Unit
  pub update_story_comment_count : String → ℤ → Exec Error Unit
  pub hide_story : String → Exec Error Unit
  -- comments
  pub create_comment : Comment → Exec Error Comment
  pub get_comment : String → Exec Error (Option Comment)
  pub list_comments : String → CommentListOptions → Exec Error CommentList
  pub update_comment_score : String → ℤ → Exec Error Unit
  pub hide_comment : String → Exec Error Unit
  -- votes
  pub create_vote : Vote → Exec Error Vote
  pub get_vote : String → String → String → String → Exec Error (Option Vote)
  pub update_vote : String → ℤ → Exec Error Unit
  -- accounts and keys; a missing one is an error of SQL, and never nil
  pub create_account : Account → Exec Error Account
  pub get_account : String → Exec Error Account
  pub create_account_key : AccountKey → Exec Error AccountKey
  pub get_account_key : String → Exec Error AccountKey
  pub get_account_key_by_public_key : String → String → Exec Error (Option AccountKey)
  pub list_account_keys : String → Exec Error (List AccountKey)
  pub revoke_account_key : String → Exec Error Unit
  -- challenges and tokens
  pub create_challenge : Challenge → Exec Error Challenge
  pub get_challenge : String → Exec Error (Option Challenge)
  pub delete_challenge : String → Exec Error Unit
  pub create_token : Token → Exec Error Token
  pub get_token : String → Exec Error (Option Token)
  pub delete_expired_tokens : Exec Error Unit

unfoldable pub sqlite_store : Env → Store
sqlite_store env = record {
  create_story = Stories.create_story env;
  get_story = Stories.get_story env;
  list_stories = Stories.list_stories env;
  find_story_by_url = Stories.find_story_by_url env;
  get_last_story_by_agent = Stories.get_last_story_by_agent env;
  update_story_score = Stories.update_story_score env;
  update_story_comment_count = Stories.update_story_comment_count env;
  hide_story = Stories.hide_story env;
  create_comment = Comments.create_comment env;
  get_comment = Comments.get_comment env;
  list_comments = Tree.list_comments env;
  update_comment_score = Comments.update_comment_score env;
  hide_comment = Comments.hide_comment env;
  create_vote = Votes.create_vote env;
  get_vote = Votes.get_vote env;
  update_vote = Votes.update_vote env;
  create_account = Accounts.create_account env;
  get_account = Accounts.get_account env;
  create_account_key = Accounts.create_account_key env;
  get_account_key = Accounts.get_account_key env;
  get_account_key_by_public_key = Accounts.get_account_key_by_public_key env;
  list_account_keys = Accounts.list_account_keys env;
  revoke_account_key = Accounts.revoke_account_key env;
  create_challenge = Sessions.create_challenge env;
  get_challenge = Sessions.get_challenge env;
  delete_challenge = Sessions.delete_challenge env;
  create_token = Sessions.create_token env;
  get_token = Sessions.get_token env;
  delete_expired_tokens = Sessions.delete_expired_tokens env;
}
