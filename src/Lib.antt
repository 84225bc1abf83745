-- ===== src/Lib.antt =====
-- OpenMPTCProuter VPS: the administration service of the server side (admin/omradmin.py) and its module for
-- the routers' metrics (admin/omr_metrics.py).
--
-- The service is a web application. Its state is one JSON file, omr-admin-config.json, with the users
-- and some global parameters, and what it brings into the kernel and the system from there: nftables
-- chains and sets, MPTCP and VPN settings. Every request reads the file, may change a user or a
-- parameter, and then runs the tools that apply the change.
--
-- Layout:
-- - Prelude: shared names, Boolean tests, lists, texts and integers.
-- - Dict: a Python dict as a list of pairs in insertion order.
-- - Exec: a call that changes a state and returns a value or raises (KeyError, ValueError, no file).
--   Exec.Keeps says that a call keeps a predicate on the state.
-- - Config: the file as data. A field of a user is an Option: none is a key that is not there.
-- - Host: the answers of the tools (a parameter of every call) and the state that the calls change;
--   Host.Store reads and writes the file (read_omr_config, backup_config), Host.Reply has the replies.
-- - Users: set_global_param, modif_config_user, the look-ups of ids and names, the serial numbers.
-- - Firewall: the port store (_fw_port_add, _fw_port_del), the rules rendered from it
--   (_render_fw_ports and others), the transactions given to nft (_nft_run, _nft_flush_chain and the
--   _nft_sync functions), and the endpoints.
-- - Dscp: /dscp_classify with its replay, /mptcp_dscp and /mptcp_weight.
-- - Vxlan: the addresses derived from a user id, the settings, the unit files, and /vxlan, /vxlan_user
--   and /vxlan_vnis.
-- - Mqvpn: the per-path policy of MQVPN (path_policy in server.json), /mqvpn_weight and /mqvpn_dscp.
-- - Xray: the reverse port forwards of XRay, /xrayrpfredirect and /xrayrpfunredirect.
-- - Accounts: passwords and tokens (/token, get_current_user), /modify_user and the smaller endpoints over
--   the users, and the id that /add_user gives.
-- - Mptcp: the names of MPTCP's schedulers and path managers, the repair of the persisted one, and /mptcp,
--   which changes kernel settings and two files in one transaction and puts them back on an error.
-- - Metrics (admin/omr_metrics.py): the doubles and JSON values that are read (Floats, Json), the settings
--   of the online learning with their cache (Settings, Learning), its toggle, task and endpoints (Toggle),
--   its watchdog (Watchdog), and the store of the measurements (Store). Exec.Yields has the rules for
--   invariants of calls that also say what is returned.
-- - V2ray: the ports that V2Ray and XRay redirect, /v2rayredirect, /v2rayunredirect, /xrayredirect and
--   /xrayunredirect.
-- - Proxies: the users of V2Ray and XRay (v2ray_add_user, xray_add_user and the others), their outbounds and
--   rules.
-- - Shadowsocks: the users of shadowsocks-libev's manager.json.
-- - Tests: the theorems at concrete inputs.
--
-- Correspondence: a function keeps the name it has in the source without leading underscores; a helper
-- that has no name there says in a comment what it stands for. A call runs to its end before the next
-- starts; in Metrics.Reach the calls and the turns of the background task come in any order. Every loop of
-- the modelled code runs over a list, or is one turn of the background task; only the rounding of an integer
-- to a double takes fuel, the integer itself, which is halved in each round.
--
-- Not modelled: negative user ids, an empty list of users, and VXLAN ids that are stored as texts;
-- logging, the pruning of old backups, file permissions, and the parts that only collect what the system
-- reports (/status, /config). Of the metrics, what computes in floats: features, forecasts,
-- weights and the training with torch. nft, netaddr's and ipaddress's texts and the other tools
-- are parameters in Host.
pub mod Prelude
pub mod Dict
pub mod Exec
pub mod Config
pub mod Host
pub mod Users
pub mod V2ray
pub mod Firewall
pub mod Dscp
pub mod Vxlan
pub mod Mqvpn
pub mod Xray
pub mod Accounts
pub mod Mptcp
pub mod Metrics
pub mod Proxies
pub mod Shadowsocks
mod Tests
