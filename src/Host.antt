-- ===== src/Host.antt =====
-- The host that the service runs on: the files and the kernel state that the modelled code reads and
-- writes, and what the tools that it calls answer.
pub mod Store
pub mod Reply
use openmptcprouter_vps.Config.{ConfigFile, missing}
use openmptcprouter_vps.Prelude.{Bool, List, Option, String, [], none, ℕ}
use openmptcprouter_vps.Xray.Data.{XrayData, XrayText}

-- `nft -f -` may be missing, or end with a return code.
pub data NftOutcome : Type 0 where
  not_installed : NftOutcome
  exited : ℕ → NftOutcome

-- What the code does not decide. An answer may depend on how many scripts nft was given before.
-- `str_ip` is netaddr's text of an IPv4 address, `ip_network` the version and the canonical text
-- that `ipaddress.ip_network(cidr, strict=False)` gives, if it accepts the text, `ip_address` the same
-- for one address, `uuid` the canonical text of `uuid.UUID`. `xray_accepts` is the answer of
-- `xray run -test`, `xray_restarts` whether a restart works, by how many commands were run before.
pub record Host : Type 0 where
  pub nft : ℕ → String → NftOutcome
  pub table_loaded : ℕ → Bool
  pub nft_present : Bool
  pub dscp_script : Bool
  pub weight_script : Bool
  pub str_ip : ℕ → String
  pub ip_network : String → Option (Bool × String)
  pub ip_address : String → Option (Bool × String)
  pub uuid : String → Option String
  pub xray_accepts : XrayData → Bool
  pub xray_restarts : ℕ → Bool

-- `tun0_conf` is /etc/openvpn/tun0.conf by lines, `weight_ids` the file of the weights' remote ids.
-- `backups` holds the copies that `backup_config` made, `nft_log` the scripts given to nft and
-- `commands` the other commands run, each newest first.
pub record World : Type 0 where
  pub config : ConfigFile
  pub backups : List ConfigFile
  pub nft_log : List String
  pub commands : List (List String)
  pub vxlan_files : List (String × List String)
  pub weight_ids : Option (List ℕ)
  pub tun0_conf : Option (List String)
  pub xray : Option XrayText

abbrev pub blank_world : World
blank_world = record {
  config = missing;
  backups = [];
  nft_log = [];
  commands = [];
  vxlan_files = [];
  weight_ids = none;
  tun0_conf = none;
  xray = none;
}
