-- ===== src/Api.antt =====
-- internal/api: the handlers of the JSON interface.
pub mod Seen
pub mod Limited
pub mod Commenting
pub mod Links
pub mod Guards
pub mod Http
pub mod Keeps
pub mod Frames
pub mod Stories
pub mod Posting
pub mod Original
pub mod Comments
pub mod Replying
pub mod Votes
pub mod Admin
pub mod Hiding
pub mod Sessions
pub mod Accounts
pub mod Keys
pub mod Registering
pub mod Adding
pub mod SigningIn
pub mod Revoking
