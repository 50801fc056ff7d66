-- ===== src/Store/Frames.antt =====
-- Properties of the content (stories, comments, votes) are kept by the writes to the accounts,
-- keys, challenges and tokens, and the other way round.
use slashclaw.Prelude.{◌≡◌, String, ℤ, arith}
use slashclaw.Env.{Env}
use slashclaw.Exec.{Result, ok}
use slashclaw.Exec.Keeps.{Keeps, Keeps-bind, keeps_rules}
use slashclaw.Store.Rows.{
  StoryRow, CommentRow, VoteRow, AccountRow, KeyRow, ChallengeRow, TokenRow, Db,
}
use slashclaw.Store.Models.{Story, Comment, Vote, Account, AccountKey, Challenge, Token}
use slashclaw.Store.Sql.{Error, execute}
use slashclaw.Store.Keeps.{Keeps-execute}
use slashclaw.Store.Accounts.{
  insert_account, insert_key, create_account, create_account_key, revoke_account_key,
}
use slashclaw.Store.Sessions.{
  insert_challenge, insert_token, create_challenge, delete_challenge, create_token,
}
use slashclaw.Store.Stories.{
  insert_story, create_story, update_story_score, update_story_comment_count, hide_story,
}
use slashclaw.Store.Comments.{insert_comment, create_comment, update_comment_score, hide_comment}
use slashclaw.Store.Votes.{insert_vote, create_vote, update_vote}

pub record SameContent (db db' : Db) : Type 0 where
  pub stories : db'.stories ≡ db.stories
  pub comments : db'.comments ≡ db.comments
  pub votes : db'.votes ≡ db.votes

pub record SameAuth (db db' : Db) : Type 0 where
  pub accounts : db'.accounts ≡ db.accounts
  pub account_keys : db'.account_keys ≡ db.account_keys
  pub challenges : db'.challenges ≡ db.challenges
  pub tokens : db'.tokens ≡ db.tokens

-- A property of the content, and one of the accounts.
pub record OfContent (Q : Db → Type 0) : Type 0 where
  pub carry : (db db' : Db) → SameContent db db' → Q db → Q db'

pub record OfAuth (Q : Db → Type 0) : Type 0 where
  pub carry : (db db' : Db) → SameAuth db db' → Q db → Q db'

insert_account-SameContent :
    (row : AccountRow) (db db' : Db) → insert_account row db ≡ ok db' → SameContent db db'
unfolding insert_account
insert_account-SameContent row db db' e = ground arith

insert_key-SameContent :
    (row : KeyRow) (db db' : Db) → insert_key row db ≡ ok db' → SameContent db db'
unfolding insert_key
insert_key-SameContent row db db' e = ground arith

insert_challenge-SameContent :
    (row : ChallengeRow) (db db' : Db) → insert_challenge row db ≡ ok db' → SameContent db db'
unfolding insert_challenge
insert_challenge-SameContent row db db' e = ground arith

insert_token-SameContent :
    (row : TokenRow) (db db' : Db) → insert_token row db ≡ ok db' → SameContent db db'
unfolding insert_token
insert_token-SameContent row db db' e = ground arith

insert_story-SameAuth :
    (row : StoryRow) (db db' : Db) → insert_story row db ≡ ok db' → SameAuth db db'
unfolding insert_story
insert_story-SameAuth row db db' e = ground arith

insert_comment-SameAuth :
    (row : CommentRow) (db db' : Db) → insert_comment row db ≡ ok db' → SameAuth db db'
unfolding insert_comment
insert_comment-SameAuth row db db' e = ground arith

insert_vote-SameAuth : (row : VoteRow) (db db' : Db) → insert_vote row db ≡ ok db' → SameAuth db db'
unfolding insert_vote
insert_vote-SameAuth row db db' e = ground arith

module _ (env : Env) {Q : Db → Type 0} (c : OfContent Q) where
  content_write :
      (f : Db → Result Error Db)
      → ((db db' : Db) → f db ≡ ok db' → SameContent db db')
      → Keeps Q (execute env f)
  content_write f same = Keeps-execute env f (λ db db' h e. c.carry db db' (same db db' e) h)

  create_account-Keeps : (a : Account) → Keeps Q (create_account env a)
  unfolding create_account
  create_account-Keeps a = search (keeps_rules, content_write, insert_account-SameContent)

  create_account_key-Keeps : (k : AccountKey) → Keeps Q (create_account_key env k)
  unfolding create_account_key
  create_account_key-Keeps k = search (keeps_rules, content_write, insert_key-SameContent)

  revoke_account_key-Keeps : (id : String) → Keeps Q (revoke_account_key env id)
  unfolding revoke_account_key
  revoke_account_key-Keeps id =
      Keeps-bind _ _ (search keeps_rules) λ time. content_write _ (λ db db' e. ground arith)

  create_challenge-Keeps : (x : Challenge) → Keeps Q (create_challenge env x)
  unfolding create_challenge
  create_challenge-Keeps x = search (keeps_rules, content_write, insert_challenge-SameContent)

  delete_challenge-Keeps : (id : String) → Keeps Q (delete_challenge env id)
  unfolding delete_challenge
  delete_challenge-Keeps id = content_write _ (λ db db' e. ground arith)

  create_token-Keeps : (t : Token) → Keeps Q (create_token env t)
  unfolding create_token
  create_token-Keeps t = search (keeps_rules, content_write, insert_token-SameContent)

-- The writes to the accounts, the keys, the challenges and the tokens keep a property.
pub record AuthWrites (env : Env) (Q : Db → Type 0) : Type 0 where
  pub account : (a : Account) → Keeps Q (create_account env a)
  pub key : (k : AccountKey) → Keeps Q (create_account_key env k)
  pub revoke : (id : String) → Keeps Q (revoke_account_key env id)
  pub challenge : (x : Challenge) → Keeps Q (create_challenge env x)
  pub redeem : (id : String) → Keeps Q (delete_challenge env id)
  pub token : (t : Token) → Keeps Q (create_token env t)

pub OfContent-AuthWrites : (env : Env) {Q : Db → Type 0} → OfContent Q → AuthWrites env Q
OfContent-AuthWrites env c = record {
  account = create_account-Keeps env c;
  key = create_account_key-Keeps env c;
  revoke = revoke_account_key-Keeps env c;
  challenge = create_challenge-Keeps env c;
  redeem = delete_challenge-Keeps env c;
  token = create_token-Keeps env c;
}

module _ (env : Env) {Q : Db → Type 0} (k : AuthWrites env Q) where
  pub written_account : (a : Account) → Keeps Q (create_account env a)
  written_account a = k.account a

  pub written_key : (x : AccountKey) → Keeps Q (create_account_key env x)
  written_key x = k.key x

  pub written_revocation : (id : String) → Keeps Q (revoke_account_key env id)
  written_revocation id = k.revoke id

  pub written_challenge : (x : Challenge) → Keeps Q (create_challenge env x)
  written_challenge x = k.challenge x

  pub written_redemption : (id : String) → Keeps Q (delete_challenge env id)
  written_redemption id = k.redeem id

  pub written_token : (t : Token) → Keeps Q (create_token env t)
  written_token t = k.token t

module _ (env : Env) {Q : Db → Type 0} (a : OfAuth Q) where
  auth_write :
      (f : Db → Result Error Db)
      → ((db db' : Db) → f db ≡ ok db' → SameAuth db db')
      → Keeps Q (execute env f)
  auth_write f same = Keeps-execute env f (λ db db' h e. a.carry db db' (same db db' e) h)

  create_story-Keeps : (x : Story) → Keeps Q (create_story env x)
  unfolding create_story
  create_story-Keeps x = search (keeps_rules, auth_write, insert_story-SameAuth)

  update_story_score-Keeps : (id : String) (d : ℤ) → Keeps Q (update_story_score env id d)
  unfolding update_story_score
  update_story_score-Keeps id d = auth_write _ (λ db db' e. ground arith)

  update_story_comment_count-Keeps :
      (id : String) (d : ℤ) → Keeps Q (update_story_comment_count env id d)
  unfolding update_story_comment_count
  update_story_comment_count-Keeps id d = auth_write _ (λ db db' e. ground arith)

  hide_story-Keeps : (id : String) → Keeps Q (hide_story env id)
  unfolding hide_story
  hide_story-Keeps id = auth_write _ (λ db db' e. ground arith)

  create_comment-Keeps : (x : Comment) → Keeps Q (create_comment env x)
  unfolding create_comment
  create_comment-Keeps x = search (keeps_rules, auth_write, insert_comment-SameAuth)

  update_comment_score-Keeps : (id : String) (d : ℤ) → Keeps Q (update_comment_score env id d)
  unfolding update_comment_score
  update_comment_score-Keeps id d = auth_write _ (λ db db' e. ground arith)

  hide_comment-Keeps : (id : String) → Keeps Q (hide_comment env id)
  unfolding hide_comment
  hide_comment-Keeps id = auth_write _ (λ db db' e. ground arith)

  create_vote-Keeps : (v : Vote) → Keeps Q (create_vote env v)
  unfolding create_vote
  create_vote-Keeps v = search (keeps_rules, auth_write, insert_vote-SameAuth)

  update_vote-Keeps : (id : String) (x : ℤ) → Keeps Q (update_vote env id x)
  unfolding update_vote
  update_vote-Keeps id x = auth_write _ (λ db db' e. ground arith)

-- The writes to the stories, the comments and the votes keep a property.
pub record ContentWrites (env : Env) (Q : Db → Type 0) : Type 0 where
  pub story : (x : Story) → Keeps Q (create_story env x)
  pub story_score : (id : String) (d : ℤ) → Keeps Q (update_story_score env id d)
  pub comment_count : (id : String) (d : ℤ) → Keeps Q (update_story_comment_count env id d)
  pub hidden_story : (id : String) → Keeps Q (hide_story env id)
  pub comment : (x : Comment) → Keeps Q (create_comment env x)
  pub comment_score : (id : String) (d : ℤ) → Keeps Q (update_comment_score env id d)
  pub hidden_comment : (id : String) → Keeps Q (hide_comment env id)
  pub vote : (v : Vote) → Keeps Q (create_vote env v)
  pub changed_vote : (id : String) (x : ℤ) → Keeps Q (update_vote env id x)

pub OfAuth-ContentWrites : (env : Env) {Q : Db → Type 0} → OfAuth Q → ContentWrites env Q
OfAuth-ContentWrites env a = record {
  story = create_story-Keeps env a;
  story_score = update_story_score-Keeps env a;
  comment_count = update_story_comment_count-Keeps env a;
  hidden_story = hide_story-Keeps env a;
  comment = create_comment-Keeps env a;
  comment_score = update_comment_score-Keeps env a;
  hidden_comment = hide_comment-Keeps env a;
  vote = create_vote-Keeps env a;
  changed_vote = update_vote-Keeps env a;
}

module _ (env : Env) {Q : Db → Type 0} (k : ContentWrites env Q) where
  pub story_written : (x : Story) → Keeps Q (create_story env x)
  story_written x = k.story x

  pub story_score_written : (id : String) (d : ℤ) → Keeps Q (update_story_score env id d)
  story_score_written id d = k.story_score id d

  pub comment_count_written : (id : String) (d : ℤ) → Keeps Q (update_story_comment_count env id d)
  comment_count_written id d = k.comment_count id d

  pub hidden_story_written : (id : String) → Keeps Q (hide_story env id)
  hidden_story_written id = k.hidden_story id

  pub comment_written : (x : Comment) → Keeps Q (create_comment env x)
  comment_written x = k.comment x

  pub comment_score_written : (id : String) (d : ℤ) → Keeps Q (update_comment_score env id d)
  comment_score_written id d = k.comment_score id d

  pub hidden_comment_written : (id : String) → Keeps Q (hide_comment env id)
  hidden_comment_written id = k.hidden_comment id

  pub vote_written : (v : Vote) → Keeps Q (create_vote env v)
  vote_written v = k.vote v

  pub changed_vote_written : (id : String) (x : ℤ) → Keeps Q (update_vote env id x)
  changed_vote_written id x = k.changed_vote id x

-- Writes to the accounts, and writes to the content.
pub ruleset account_writes = (
  written_account, written_key, written_revocation, written_challenge, written_redemption,
  written_token,
)

pub ruleset content_writes = (
  story_written, story_score_written, comment_count_written, hidden_story_written, comment_written,
  comment_score_written, hidden_comment_written, vote_written, changed_vote_written,
)
