-- ===== src/Store/Rows.antt =====
-- The tables of the schema in `migrate` of internal/store/sqlite.go. A nullable column is an
-- `Option`, and the flags are integers, as they are stored.
use slashclaw.Prelude.{ℕ, String, Option, List, [], ℤ}

pub record StoryRow : Type 0 where
  pub id : String
  pub title : String
  pub url : Option String
  pub text : Option String
  pub tags : Option String
  pub score : ℤ
  pub comment_count : ℤ
  pub created_at : ℤ
  pub hidden : ℕ
  pub agent_id : Option String
  pub agent_verified : ℕ

pub record CommentRow : Type 0 where
  pub id : String
  pub story_id : String
  pub parent_id : Option String
  pub text : String
  pub score : ℤ
  pub created_at : ℤ
  pub hidden : ℕ
  pub agent_id : Option String
  pub agent_verified : ℕ

pub record VoteRow : Type 0 where
  pub id : String
  pub target_type : String
  pub target_id : String
  pub value : ℤ
  pub created_at : ℤ
  pub ip_hash : Option String
  pub agent_id : Option String
  pub agent_verified : ℕ

pub record AccountRow : Type 0 where
  pub id : String
  pub display_name : String
  pub bio : Option String
  pub homepage_url : Option String
  pub created_at : ℤ

pub record KeyRow : Type 0 where
  pub id : String
  pub account_id : String
  pub algorithm : String
  pub public_key : String
  pub created_at : ℤ
  pub revoked_at : Option ℤ

-- `expires_at` is text of whole seconds, here the number of the seconds.
pub record ChallengeRow : Type 0 where
  pub id : String
  pub agent_id : String
  pub algorithm : String
  pub challenge : String
  pub expires_at : ℤ

pub record TokenRow : Type 0 where
  pub id : String
  pub account_id : Option String
  pub key_id : String
  pub agent_id : String
  pub token : String
  pub expires_at : ℤ

-- Rows stand in the order of their insertion.
pub record Db : Type 0 where
  pub stories : List StoryRow
  pub comments : List CommentRow
  pub votes : List VoteRow
  pub accounts : List AccountRow
  pub account_keys : List KeyRow
  pub challenges : List ChallengeRow
  pub tokens : List TokenRow

abbrev pub empty_db : Db
empty_db = record {
  stories = [];
  comments = [];
  votes = [];
  accounts = [];
  account_keys = [];
  challenges = [];
  tokens = [];
}
