-- ===== src/Xray.antt =====
-- XRay's reverse port forwards (`xray_rpf`): the changes of xray-server.json, and the write that tests
-- the new configuration and restores the old one if XRay does not restart.
pub mod Data
pub mod Changes
pub mod Write
pub mod Endpoints
pub mod Rollback
pub mod Sockets
pub mod Removal
