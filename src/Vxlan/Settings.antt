-- ===== src/Vxlan/Settings.antt =====
-- get_vxlan_config, _merge_vxlan_config and write_vxlan_conf.
use openmptcprouter_vps.Config.{UserData, VxlanStored, get_or, new_user}
use openmptcprouter_vps.Dict.{lookup}
use openmptcprouter_vps.Exec.{Exec, pure, ◌>>=◌}
use openmptcprouter_vps.Host.{Host, World}
use openmptcprouter_vps.Host.Store.{load_config, users_of}
use openmptcprouter_vps.Prelude.{
  Bool, Option, String, false, if◌then◌else◌, none, some, ℕ, ◌+◌, ◌==◌, ◌||◌,
}
use openmptcprouter_vps.Vxlan.Pools.{vxlan_default_v4, vxlan_default_v6}

-- The dict that get_vxlan_config returns.
pub record VxlanConfig : Type 0 where
  pub enabled : Bool
  pub mode : String
  pub vni : ℕ
  pub port : ℕ
  pub localip : Option String
  pub remoteip : Option String
  pub localip6 : Option String
  pub remoteip6 : Option String
  pub mtu : ℕ

abbrev pub no_vxlan : VxlanStored
no_vxlan = record {
  enabled = none;
  mode = none;
  vni = none;
  port = none;
  localip = none;
  remoteip = none;
  localip6 = none;
  remoteip6 = none;
  mtu = none;
}

-- omr_config_data['users'][0].get(username, {})
abbrev pub user_or_empty : Option UserData → UserData
user_or_empty u = get_or u new_user

-- mode if it is 'l2' or 'l3'
abbrev pub is_mode : String → Bool
is_mode mode = mode == "l2" || mode == "l3"

-- The effective settings of stored ones.
unfoldable pub vxlan_config : Host → VxlanStored → ℕ → VxlanConfig
vxlan_config host stored userid =
    let mode = get_or stored.mode "l3" in
    let (default_localip, default_remoteip) = vxlan_default_v4 host userid in
    let (default_localip6, default_remoteip6) = vxlan_default_v6 userid in
    record {
      enabled = get_or stored.enabled false;
      mode = if is_mode mode then mode else "l3";
      vni = get_or stored.vni (userid + 1);
      port = get_or stored.port 4789;
      localip = get_or stored.localip default_localip;
      remoteip = get_or stored.remoteip default_remoteip;
      localip6 = get_or stored.localip6 default_localip6;
      remoteip6 = get_or stored.remoteip6 default_remoteip6;
      mtu = get_or stored.mtu 1380;
    }

unfoldable pub get_vxlan_config : Host → String → ℕ → Exec World VxlanConfig
get_vxlan_config host username userid = do
  data' ← load_config
  users ← users_of data'
  pure (vxlan_config host (get_or (user_or_empty (lookup username users)).vxlan no_vxlan) userid)

-- The keyword arguments of _merge_vxlan_config; one that is None is left out.
pub record Overrides : Type 0 where
  pub enabled : Option Bool
  pub mode : Option String
  pub vni : Option ℕ
  pub port : Option ℕ
  pub localip : Option String
  pub remoteip : Option String
  pub localip6 : Option String
  pub remoteip6 : Option String
  pub mtu : Option ℕ

-- An address that is given, or else the one that is there.
abbrev given_or : Option String → Option String → Option String
given_or none old = old
given_or (some a) old = some a

unfoldable pub merged : Overrides → VxlanConfig → VxlanConfig
merged o c = record {
  enabled = get_or o.enabled c.enabled;
  mode = get_or o.mode c.mode;
  vni = get_or o.vni c.vni;
  port = get_or o.port c.port;
  localip = given_or o.localip c.localip;
  remoteip = given_or o.remoteip c.remoteip;
  localip6 = given_or o.localip6 c.localip6;
  remoteip6 = given_or o.remoteip6 c.remoteip6;
  mtu = get_or o.mtu c.mtu;
}

unfoldable pub merge_vxlan_config : Host → String → ℕ → Overrides → Exec World VxlanConfig
merge_vxlan_config host username userid overrides = do
  current ← get_vxlan_config host username userid
  pure (merged overrides current)

-- The settings as they are stored: every key is there.
abbrev pub stored_of : VxlanConfig → VxlanStored
stored_of c = record {
  enabled = some c.enabled;
  mode = some c.mode;
  vni = some c.vni;
  port = some c.port;
  localip = some c.localip;
  remoteip = some c.remoteip;
  localip6 = some c.localip6;
  remoteip6 = some c.remoteip6;
  mtu = some c.mtu;
}
