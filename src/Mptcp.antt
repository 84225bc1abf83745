-- ===== src/Mptcp.antt =====
-- MPTCP: the names of schedulers and path managers, the repair of the persisted path manager, and the
-- transaction of /mptcp, which changes kernel settings and files and puts them back on an error.
pub mod Names
pub mod Persisted
pub mod Repair
pub mod ConfText
pub mod Kernel
pub mod Apply
pub mod Request
pub mod Rollback
pub mod Endpoint
pub mod Changes
pub mod Restoring
pub mod Tracking
pub mod Reading
pub mod Applying
pub mod Files
pub mod Transaction
pub mod Runs
pub mod FilesBack
pub mod Restores
pub mod Distinct
pub mod Modules
pub mod Ending
pub mod Safety
pub mod Obliging
pub mod Liveness
