-- ===== src/Firewall/Snat.antt =====
-- The gre_snat and client2client chains, OpenVPN's client-to-client directive, and the ct_helpers
-- chain of the SIP ALG.
use text.Mathlib.Text.{find?}
use openmptcprouter_vps.Config.{
  Config, GreTunnel, UserData, flag_of, get_or, is_truthy, users_or_empty,
}
use openmptcprouter_vps.Dict.{lookup}
use openmptcprouter_vps.Exec.{Exec, gets, modify, pure, ◌>>=◌, ◌>>◌}
use openmptcprouter_vps.Firewall.Comment.{nft_comment}
use openmptcprouter_vps.Firewall.Nft.{nft_flush_chain, nft_run}
use openmptcprouter_vps.Host.{Host, World}
use openmptcprouter_vps.Host.Store.{read_omr_config}
use openmptcprouter_vps.Prelude.{
  Bool, List, Option, String, String_discrete, [], false, filter, fmt, holds, if◌then◌else◌, join,
  map, none, not, some, true, ◌&&◌, ◌++◌, ◌==◌, ◌∷◌,
}

is_text : Option String → Bool
is_text none = false
is_text (some s) = not (s == "")

-- The two rules of one tunnel, if it has all four fields.
tunnel_lines : String → String → GreTunnel → List String
unfolding is_text
tunnel_lines username gre_intf t =
    if is_text t.public_ip && is_text t.network && is_text t.iface && is_text t.local_ip
    then (let public_ip = get_or t.public_ip "" in
        let tag = nft_comment (fmt ("OMR GRE ip " ∷ public_ip ∷ " user " ∷ username ∷ [])) in
        fmt (
          "ip saddr "
          ∷ get_or t.network ""
          ∷ " oifname \""
          ∷ get_or t.iface ""
          ∷ "\" snat ip to "
          ∷ public_ip
          ∷ " comment \""
          ∷ tag
          ∷ "\""
          ∷ [])
        ∷ fmt (
            "oifname \""
            ∷ gre_intf
            ∷ "\" snat ip to "
            ∷ get_or t.local_ip ""
            ∷ " comment \""
            ∷ tag
            ∷ "\""
            ∷ [])
        ∷ [])
    else []

tunnels_lines : String → List (String × GreTunnel) → List String
unfolding tunnel_lines
tunnels_lines username [] = []
tunnels_lines username ((gre_intf, t) ∷ ts) =
    tunnel_lines username gre_intf t ++ tunnels_lines username ts

snat_lines : List (String × UserData) → List String
unfolding tunnels_lines
snat_lines [] = []
snat_lines ((username, u) ∷ users) =
    tunnels_lines username (get_or u.gre_tunnels []) ++ snat_lines users

unfoldable pub render_gre_snat : Config → List String
unfolding snat_lines
render_gre_snat c = snat_lines (users_or_empty c)

unfoldable pub nft_sync_gre_snat : Host → Exec World Bool
nft_sync_gre_snat host = do
  c ← read_omr_config
  if is_truthy c then nft_flush_chain host "gre_snat" (render_gre_snat c) else pure false

abbrev vpn_ifaces : List String
vpn_ifaces =
    "gt-tun*" ∷ "gt-udp-tun*" ∷ "mlvpn*" ∷ "tun*" ∷ "wg*" ∷ "dsvpn*" ∷ "mqvpn*" ∷ "gre-user*"
    ∷ "vx-user*" ∷ "omr-bonding" ∷ "tap_softether" ∷ []

-- '{ ' + ', '.join(f'"{p}"' for p in patterns) + ' }'
nft_iface_set : List String → String
nft_iface_set patterns =
    fmt ("{ " ∷ join ", " (map (λ p. fmt ("\"" ∷ p ∷ "\"" ∷ [])) patterns) ∷ " }" ∷ [])

unfoldable pub render_client2client : Bool → List String
unfolding nft_iface_set
render_client2client enabled =
    let vpn_set = nft_iface_set vpn_ifaces in
    if enabled
    then fmt (
        "iifname " ∷ vpn_set ∷ " oifname " ∷ vpn_set ∷ " accept comment \"OMR client2client\"" ∷ [])
      ∷ []
    else []

-- bool(config_data.get(key, False)) if config_data else False
abbrev pub flag_in : Config → String → Bool
flag_in c key = is_truthy c && flag_of (lookup key c.globals)

unfoldable pub nft_sync_client2client : Host → Exec World Bool
nft_sync_client2client host = do
  c ← read_omr_config
  nft_flush_chain host "client2client" (render_client2client (flag_in c "client2client"))

unfoldable pub mentions_client : String → Bool
mentions_client line = elim (find? line "client-to-client") [ none ↦ false | some i ↦ true ]

-- The lines of tun0.conf with the directive as chosen.
unfoldable pub directive_set : Bool → List String → List String
directive_set enabled lines =
    filter (λ line. not (mentions_client line)) lines
    ++ (if enabled then "client-to-client\n" ∷ [] else [])

Lines_discrete : Discrete (List String)
Lines_discrete = hlevel String_discrete

run : List String → Exec World Unit
run command = modify (λ w. record w { commands = command ∷ w.commands })

-- The digests of the source compare the text before and after.
unfoldable pub sync_openvpn_client2client : Bool → Exec World Bool
unfolding Lines_discrete run
sync_openvpn_client2client enabled = do
  before ← gets (λ w. w.tun0_conf)
  elim before [
    | none ↦ pure false
    | some lines ↦ (do
      let after = directive_set enabled lines
      modify (λ w. record w { tun0_conf = some after })
      if holds (Lines_discrete lines after)
          then pure false
          else (do run ("systemctl" ∷ "-q" ∷ "restart" ∷ "openvpn@tun0" ∷ []); pure true))
  ]

unfoldable pub render_ct_helpers : Bool → List String
render_ct_helpers enabled =
    if enabled
    then "udp dport 5060 ct helper set \"sip_udp\" comment \"OMR sipalg\""
      ∷ "tcp dport 5060 ct helper set \"sip_tcp\" comment \"OMR sipalg\"" ∷ []
    else []

unfoldable pub nft_ensure_ct_helpers : Host → Exec World Bool
unfolding run
nft_ensure_ct_helpers host = do
  run ("modprobe" ∷ "nf_conntrack_sip" ∷ [])
  nft_run host (
      fmt (
        "add ct helper inet omr sip_udp { type \"sip\" protocol udp; }\n"
        ∷ "add ct helper inet omr sip_tcp { type \"sip\" protocol tcp; }\n" ∷ []))

unfoldable pub nft_sync_sipalg : Host → Bool → Exec World Bool
nft_sync_sipalg host enabled =
    if enabled
    then (do nft_ensure_ct_helpers host; nft_flush_chain host "ct_helpers" (render_ct_helpers true))
    else nft_flush_chain host "ct_helpers" []
