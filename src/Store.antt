-- ===== src/Store.antt =====
-- internal/store: the models, the tables and the operations of `SQLiteStore`.
pub mod Expiry
pub mod Models
pub mod Rows
pub mod Sql
pub mod Triples
pub mod Tally
pub mod Ballots
pub mod Unique
pub mod Counted
pub mod Threads
pub mod Hidden
pub mod Found
pub mod Listing
pub mod Top
pub mod Roundtrip
pub mod Keeps
pub mod Frames
pub mod Stories
pub mod Comments
pub mod Tree
pub mod Votes
pub mod Accounts
pub mod Sessions
pub mod Interface
