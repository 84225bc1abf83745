-- ===== src/Firewall/Endpoints.antt =====
-- The endpoints: _firewall_set, _firewall_list, _firewall_open, _firewall_close, /sipalg and
-- /client2client.
use text.Mathlib.Text.{find?}
use openmptcprouter_vps.Config.{
  Config, FwEntry, GreTunnel, empty_config, flag, get_or, missing, parsed, users_or_empty,
}
use openmptcprouter_vps.Dict.{lookup}
use openmptcprouter_vps.Exec.{
  Exec, file_not_found, key_error, ok, pure, raised, require, ◌>>=◌, ◌>>◌,
}
use openmptcprouter_vps.Firewall.Legacy.{legacy_fw_line}
use openmptcprouter_vps.Firewall.Ports.{FwPort, fw_port_add, fw_port_del, nft_sync_ports}
use openmptcprouter_vps.Firewall.Snat.{
  nft_sync_client2client, nft_sync_sipalg, sync_openvpn_client2client,
}
use openmptcprouter_vps.Host.{Host, World}
use openmptcprouter_vps.Host.Reply.{
  Reply, User, admin_only, changes_applied, listing, reply, unless_read_only,
}
use openmptcprouter_vps.Host.Store.{read_omr_config, users_of}
use openmptcprouter_vps.Prelude.{
  Bool, List, Option, String, [], false, fmt, if◌then◌else◌, none, some, true, ℕ, ◌==ℕ◌, ◌==◌, ◌∷◌,
}
use openmptcprouter_vps.Users.Changes.{set_global_param}

-- params.ipproto
pub data IpProto : Type 0 where
  ipv4 ipv6 : IpProto

abbrev pub family_of : IpProto → ℕ
family_of ipv4 = 4
family_of ipv6 = 6

bulk_key : IpProto → String
bulk_key ipv4 = "bulk_redirect_v4"
bulk_key ipv6 = "bulk_redirect_v6"

unfoldable pub firewall_set : Host → User → String → IpProto → Exec World Reply
unfolding bulk_key
firewall_set host current_user state ipproto = unless_read_only current_user (do
  set_global_param (bulk_key ipproto) (flag (state == "enable"))
  nft_sync_ports host
  pure changes_applied)

-- needle in line
text_in : String → String → Bool
text_in needle line = elim (find? line needle) [ none ↦ false | some i ↦ true ]

listed_line : String → String → ℕ → FwEntry → Option String
unfolding text_in
listed_line username needle family entry =
    if get_or entry.family 4 ==ℕ family
    then (elim (legacy_fw_line username entry) [
      | none ↦ none
      | some line ↦ if text_in needle line then some line else none
    ])
    else none

listed_lines : String → String → ℕ → List FwEntry → List String
unfolding listed_line
listed_lines username needle family [] = []
listed_lines username needle family (entry ∷ entries) =
    let rest = listed_lines username needle family entries in
    elim (listed_line username needle family entry) [ none ↦ rest | some line ↦ line ∷ rest ]

abbrev pub entries_of : Config → String → List FwEntry
entries_of c username = elim (lookup username (users_or_empty c)) [
  | none ↦ []
  | some u ↦ get_or u.fw_ports []
]

unfoldable pub firewall_list : User → String → IpProto → Exec World Reply
unfolding listed_lines
firewall_list current_user name ipproto = do
  c ← read_omr_config
  pure (
      listing (
        listed_lines current_user.username
          (fmt ("# OMR " ∷ current_user.username ∷ " " ∷ name ∷ [])) (family_of ipproto)
          (entries_of c current_user.username)))

-- The body of /firewallopen and /firewallclose.
pub record FirewallParams : Type 0 where
  pub name : String
  pub port : String
  pub proto : String
  pub fwtype : String
  pub ipproto : IpProto
  pub source_dip : String
  pub source_ip : String
  pub comment : String

abbrev pub port_of : FirewallParams → String → FwPort
port_of p fwtype = record {
  port = p.port;
  proto = p.proto;
  name = p.name;
  fwtype = fwtype;
  family = family_of p.ipproto;
  source_dip = p.source_dip;
  dest_ip = p.source_ip;
}

-- The last tunnel whose public address is `source_dip`; the loop reads `public_ip` of each.
tunnel_vpn : String → String → List (String × GreTunnel) → Exec World String
tunnel_vpn source_dip vpn [] = pure vpn
tunnel_vpn source_dip vpn ((tunnel, t) ∷ ts) = do
  public_ip ← require key_error t.public_ip
  if public_ip == source_dip
      then (do remote_ip ← require key_error t.remote_ip; tunnel_vpn source_dip remote_ip ts)
      else tunnel_vpn source_dip vpn ts

-- json.load in a `try` that turns a ValueError into an empty dict.
load_or_empty : Exec World Config
load_or_empty w = elim w.config [
  | missing ↦ (raised file_not_found, w)
  | parsed c ↦ (ok c, w)
  | _ ↦ (ok empty_config, w)
]

abbrev pub open_comment : FirewallParams → String
open_comment p = if p.comment == "" then "" else fmt (" --- " ∷ p.comment ∷ [])

-- The target for the tunnel of a user's own public address.
open_vpn : User → FirewallParams → Config → Exec World String
unfolding tunnel_vpn
open_vpn current_user p c = elim p.ipproto [
  | ipv6 ↦ pure "default"
  | ipv4 ↦ (do
    users ← users_of c
    u ← require key_error (lookup current_user.username users)
    tunnel_vpn p.source_dip "default" (get_or u.gre_tunnels []))
]

unfoldable pub firewall_open : Host → User → FirewallParams → Exec World Reply
unfolding load_or_empty open_vpn
firewall_open host current_user p = unless_read_only current_user (do
  c ← load_or_empty
  vpn ← open_vpn current_user p c
  fw_port_add host current_user.username (port_of p p.fwtype) vpn (open_comment p)
  pure changes_applied)

unfoldable pub firewall_close : Host → User → FirewallParams → Exec World Reply
firewall_close host current_user p = unless_read_only current_user (do
  fw_port_del host current_user.username (port_of p "DNAT")
  fw_port_del host current_user.username (port_of p "ACCEPT")
  pure changes_applied)

abbrev pub helpers_missing : Reply
helpers_missing =
    reply "error" "SIP conntrack helpers not applied (nf_conntrack_sip kernel module unavailable?)"

unfoldable pub sipalg : Host → User → Bool → Exec World Reply
sipalg host current_user enable = unless_read_only current_user (do
  set_global_param "sipalg" (flag enable)
  applied ← nft_sync_sipalg host enable
  pure (if applied then changes_applied else helpers_missing))

unfoldable pub client2client : Host → User → Bool → Exec World Reply
client2client host current_user enable = admin_only current_user (do
  set_global_param "client2client" (flag enable)
  sync_openvpn_client2client enable
  nft_sync_client2client host
  pure (reply "done" ""))
