-- ===== src/Shadowsocks.antt =====
-- The users of shadowsocks-libev's manager: manager.json and its control socket.
pub mod Ports
pub mod Manager
pub mod Views
