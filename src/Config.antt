-- ===== src/Config.antt =====
-- omr-admin-config.json: the users with the keys that the modelled code reads and writes, and the
-- global parameters. A key that may be missing is an `Option`; other keys are not modelled, and every
-- operation passes them on.
use openmptcprouter_vps.Prelude.{
  Bool, List, Option, String, String_discrete, [], false, holds, none, not, refl, some, true, ℕ,
  ℕ_discrete, ◌==◌, ◌∷◌, ◌≡◌,
}

-- An entry of a user's `fw_ports` list.
pub record FwEntry : Type 0 where
  pub name : Option String
  pub port : Option String
  pub proto : Option String
  pub fwtype : Option String
  pub family : Option ℕ
  pub source_dip : Option String
  pub dest_ip : Option String
  pub vpn : Option String
  pub comment : Option String

-- A value of a user's `gre_tunnels` dict.
pub record GreTunnel : Type 0 where
  pub public_ip : Option String
  pub network : Option String
  pub iface : Option String
  pub local_ip : Option String
  pub remote_ip : Option String

-- A user's `vxlan` dict. An address may be stored as null.
pub record VxlanStored : Type 0 where
  pub enabled : Option Bool
  pub mode : Option String
  pub vni : Option ℕ
  pub port : Option ℕ
  pub localip : Option (Option String)
  pub remoteip : Option (Option String)
  pub localip6 : Option (Option String)
  pub remoteip6 : Option (Option String)
  pub mtu : Option ℕ

-- A user id is a number, or the text of one: /add_user stores `str(userid)`.
pub data UserId : Type 0 where
  number numeral : ℕ → UserId

-- int(userid)
abbrev pub int : UserId → ℕ
int (number n) = n
int (numeral n) = n

-- `xray_key` is user['xray']['key']. `serial_error` and `shadowsocks_port` are kept as the number that `int()` reads.
pub record UserData : Type 0 where
  pub user_password : Option String
  pub permissions : Option String
  pub disabled : Option String
  pub userid : Option UserId
  pub serial : Option String
  pub serial_error : Option ℕ
  pub fw_ports : Option (List FwEntry)
  pub gre_tunnels : Option (List (String × GreTunnel))
  pub vpnremoteip : Option String
  pub vpnlocalip : Option String
  pub vxlan : Option VxlanStored
  pub vpn : Option String
  pub proxy : Option String
  pub note : Option (List String)
  pub shadowsocks_port : Option ℕ
  pub public_ips : Option (List String)
  pub xray_key : Option String

pub record DscpEntry : Type 0 where
  pub dscp : String
  pub cidr : String

-- The value of a global parameter.
pub data Param : Type 0 where
  flag : Bool → Param
  string : String → Param
  classify : List DscpEntry → Param

-- `users` is `data['users'][0]`, if the key is there.
pub record Config : Type 0 where
  pub users : Option (List (String × UserData))
  pub globals : List (String × Param)

Bool_discrete : Discrete Bool
Bool_discrete = hlevel

unfoldable pub FwEntry_discrete : Discrete FwEntry
unfolding String_discrete ℕ_discrete
FwEntry_discrete = hlevel (String_discrete, ℕ_discrete)

unfoldable pub Param_discrete : Discrete Param
unfolding String_discrete
Param_discrete = hlevel String_discrete

unfoldable pub UserData_discrete : Discrete UserData
unfolding String_discrete ℕ_discrete
UserData_discrete = hlevel (String_discrete, ℕ_discrete)

unfoldable pub Config_discrete : Discrete Config
unfolding UserData_discrete Param_discrete
Config_discrete = hlevel (UserData_discrete, Param_discrete, String_discrete, ℕ_discrete)

-- What the file holds: nothing, text that is no JSON, JSON but for trailing commas, JSON.
pub data ConfigFile : Type 0 where
  missing invalid : ConfigFile
  trailing_commas parsed : Config → ConfigFile

abbrev pub empty_config : Config
empty_config = record { users = none; globals = [] }

-- `if x` of a list or dict
abbrev pub has_entries {ℓ} : {A : Type ℓ} → List A → Bool
has_entries [] = false
has_entries (x ∷ xs) = true

-- `if data`: an empty dict is false.
abbrev pub is_truthy : Config → Bool
is_truthy c = elim c.users [ some u ↦ true | none ↦ has_entries c.globals ]

-- data.get('users', [{}])[0] (A list that is there has its dict of users.)
abbrev pub users_or_empty : Config → List (String × UserData)
users_or_empty c = elim c.users [ none ↦ [] | some u ↦ u ]

abbrev pub get_or {ℓ} : {A : Type ℓ} → Option A → A → A
get_or none d = d
get_or (some a) d = a

-- bool(data.get(k, False)) for a parameter that holds a flag
abbrev pub flag_of : Option Param → Bool
flag_of (some (flag b)) = b
flag_of (some (string s)) = not (s == "")
flag_of (some (classify [])) = false
flag_of (some (classify (e ∷ es))) = true
flag_of none = false

abbrev pub new_user : UserData
new_user = record {
  user_password = none;
  permissions = none;
  disabled = none;
  userid = none;
  serial = none;
  serial_error = none;
  fw_ports = none;
  gre_tunnels = none;
  vpnremoteip = none;
  vpnlocalip = none;
  vxlan = none;
  vpn = none;
  proxy = none;
  note = none;
  shadowsocks_port = none;
  public_ips = none;
  xray_key = none;
}

runs :
    holds
      (Config_discrete empty_config (record empty_config { users = some (("a", new_user) ∷ []) }))
    ≡ false
unfolding Config_discrete
runs = refl
