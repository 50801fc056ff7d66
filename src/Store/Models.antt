-- ===== src/Store/Models.antt =====
-- The structs of internal/store/models.go. Instants are nanoseconds of Unix time, in UTC.
use slashclaw.Prelude.{ℕ, String, Bool, Option, List, ℤ, negsuc, eq_ℤ}

pub record Story : Type 0 where
  pub id : String
  pub title : String
  pub url : String
  pub text : String
  pub tags : List String
  pub score : ℤ
  pub comment_count : ℤ
  pub created_at : ℤ
  pub hidden : Bool
  pub agent_id : String
  pub agent_verified : Bool

-- The field `Children` is in `Store.Tree`.
pub record Comment : Type 0 where
  pub id : String
  pub story_id : String
  pub parent_id : String
  pub text : String
  pub score : ℤ
  pub created_at : ℤ
  pub hidden : Bool
  pub agent_id : String
  pub agent_verified : Bool

pub record Vote : Type 0 where
  pub id : String
  pub target_type : String
  pub target_id : String
  pub value : ℤ
  pub created_at : ℤ
  pub ip_hash : String
  pub agent_id : String
  pub agent_verified : Bool

pub record Account : Type 0 where
  pub id : String
  pub display_name : String
  pub bio : String
  pub homepage_url : String
  pub created_at : ℤ

pub record AccountKey : Type 0 where
  pub id : String
  pub account_id : String
  pub algorithm : String
  pub public_key : String
  pub created_at : ℤ
  pub revoked_at : Option ℤ

pub record Challenge : Type 0 where
  pub id : String
  pub agent_id : String
  pub algorithm : String
  pub challenge : String
  pub expires_at : ℤ

pub record Token : Type 0 where
  pub id : String
  pub account_id : String
  pub key_id : String
  pub agent_id : String
  pub token : String
  pub expires_at : ℤ

pub data SortOrder : Type 0 where
  top new discussed : SortOrder

pub data ViewMode : Type 0 where
  tree flat : ViewMode

pub record ListOptions : Type 0 where
  pub sort : SortOrder
  pub limit : ℤ
  pub cursor : String

pub record CommentListOptions : Type 0 where
  pub sort : SortOrder
  pub view : ViewMode

-- Go's zero `time.Time`, the first instant of the year 1, and its test.
abbrev pub zero_time : ℤ
zero_time = negsuc 62135596799999999999

abbrev pub is_zero : ℤ → Bool
is_zero t = eq_ℤ t zero_time

-- A second, in nanoseconds.
abbrev pub second : ℕ
second = 1000000000
