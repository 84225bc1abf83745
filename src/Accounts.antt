-- ===== src/Accounts.antt =====
-- Who may use the service: passwords, tokens, and the endpoints over the users.
pub mod Auth
pub mod Admin
pub mod Access
pub mod Revocation
pub mod Ids
