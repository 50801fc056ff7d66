-- ===== src/Tests.antt =====
-- A concrete environment and runs of the program on it, and each result applied at an input.
pub mod Setup
mod Threads
mod Votes
mod Sessions
mod Signing
mod Pages
mod Limits
mod Content
mod Rows
mod Accounts
