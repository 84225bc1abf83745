-- ===== src/V2ray.antt =====
-- V2Ray's redirected ports in admin/omradmin.py: v2ray_add_port and v2ray_del_port, and their endpoints.
pub mod Numbers
pub mod Ports
pub mod Redirects
pub mod Endpoints
