-- ===== src/Proxies.antt =====
-- The users of V2Ray and XRay in v2ray-server.json and xray-server.json, and the outbounds and rules that
-- send their traffic out by an address.
pub mod Data
pub mod Users
pub mod Routes
pub mod Calls
pub mod Removal
pub mod Roundtrip
