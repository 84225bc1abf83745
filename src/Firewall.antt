-- ===== src/Firewall.antt =====
-- admin/omradmin.py: the nftables engine, the users' firewall entries and the endpoints for them.
pub mod Comment
pub mod Nft
pub mod Rules
pub mod Ports
pub mod Keys
pub mod Lists
pub mod Effects
pub mod Views
pub mod Kernel
pub mod Rendering
pub mod Blocked
pub mod Numeric
pub mod Snat
pub mod Legacy
pub mod Endpoints
pub mod Closing
pub mod Applied
pub mod Repeats
