-- ===== src/Mqvpn.antt =====
-- MQVPN's per-path policy: what /mqvpn_dscp and /mqvpn_weight keep in server.json and push to MQVPN.
pub mod Policy
pub mod Views
pub mod Sync
pub mod Masks
pub mod Bits
pub mod Converge
pub mod Synced
pub mod Requests
pub mod Marks
