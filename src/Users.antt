-- ===== src/Users.antt =====
-- admin/omradmin.py: finding users by name or id, the serial number check, and the two functions
-- through which every other handler changes the configuration.
pub mod Changes
pub mod Identity
pub mod Params
pub mod Serial
pub mod Updates
