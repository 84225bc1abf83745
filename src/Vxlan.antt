-- ===== src/Vxlan.antt =====
-- The VXLAN tunnels over the VPN: the addresses derived from a user id, the stored settings, the unit
-- files, and the endpoints that assign network ids and ports.
pub mod Pools
pub mod Settings
pub mod Units
pub mod Assignments
pub mod Endpoints
pub mod Conflicts
pub mod ClashFree
pub mod Requests
pub mod Restarts
