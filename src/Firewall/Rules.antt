-- ===== src/Firewall/Rules.antt =====
-- _render_fw_ports and _render_bulk_redirect: the rules of the user_accept and user_dnat chains.
use openmptcprouter_vps.Config.{
  Config, FwEntry, UserData, UserId, flag_of, get_or, new_user, number, numeral, users_or_empty,
}
use openmptcprouter_vps.Dict.{lookup}
use openmptcprouter_vps.Exec.{Result, bind, ok, raised, value_error}
use openmptcprouter_vps.Firewall.Comment.{nft_comment}
use openmptcprouter_vps.Prelude.{
  List, Option, String, [], fmt, hex, if◌then◌else◌, map, none, not, some, ℕ, ◌++◌, ◌==ℕ◌, ◌==◌,
  ◌∷◌,
}

-- "ip" if family == 4 else "ip6"
ip_word : ℕ → String
ip_word family = if family ==ℕ 4 then "ip" else "ip6"

-- The match part of a rule.
rule_match : ℕ → String → String → String
unfolding ip_word
rule_match family source_dip dest_ip = fmt (
    "meta nfproto "
    ∷ (if family ==ℕ 4 then "ipv4" else "ipv6")
    ∷ (if source_dip == "" then "" else fmt (" " ∷ ip_word family ∷ " daddr " ∷ source_dip ∷ []))
    ∷ (if dest_ip == "" then "" else fmt (" " ∷ ip_word family ∷ " saddr " ∷ dest_ip ∷ []))
    ∷ [])

-- 'fd00::a0{:x}:2'.format(userid or 0): the format code wants a number, and raises at a text.
unfoldable pub tunnel_v6 : Option UserId → Result String
tunnel_v6 none = ok "fd00::a00:2"
tunnel_v6 (some (number n)) = ok (fmt ("fd00::a0" ∷ hex n ∷ ":2" ∷ []))
tunnel_v6 (some (numeral n)) = raised value_error

-- Where a redirected connection goes.
unfoldable pub dnat_target : UserData → ℕ → String → Result String
unfolding tunnel_v6
dnat_target udata family vpn =
    if not (vpn == "default")
    then ok vpn
    else if family ==ℕ 4
    then ok (get_or udata.vpnremoteip "")
    else tunnel_v6 udata.userid

-- What one entry adds to the two lists.
pub data Rendered : Type 0 where
  accept_rule dnat_rule : String → Rendered
  no_rule : Rendered

entry_tag : String → String → FwEntry → String
entry_tag username fwtype entry = nft_comment (
    fmt (
      "OMR "
      ∷ username
      ∷ " "
      ∷ (if fwtype == "ACCEPT" then "open" else "redirect")
      ∷ " "
      ∷ get_or entry.name ""
      ∷ " "
      ∷ get_or entry.proto "tcp"
      ∷ get_or entry.comment ""
      ∷ []))

unfoldable pub accept_line : String → FwEntry → String
unfolding entry_tag rule_match
accept_line username entry = fmt (
    rule_match (get_or entry.family 4) (get_or entry.source_dip "") (get_or entry.dest_ip "")
    ∷ " "
    ∷ get_or entry.proto "tcp"
    ∷ " dport "
    ∷ get_or entry.port ""
    ∷ " accept comment \""
    ∷ entry_tag username "ACCEPT" entry
    ∷ "\""
    ∷ [])

unfoldable pub dnat_line : String → FwEntry → String → String
unfolding entry_tag rule_match ip_word
dnat_line username entry target = fmt (
    rule_match (get_or entry.family 4) (get_or entry.source_dip "") (get_or entry.dest_ip "")
    ∷ " "
    ∷ get_or entry.proto "tcp"
    ∷ " dport "
    ∷ get_or entry.port ""
    ∷ " dnat "
    ∷ ip_word (get_or entry.family 4)
    ∷ " to "
    ∷ target
    ∷ " comment \""
    ∷ entry_tag username "DNAT" entry
    ∷ "\""
    ∷ [])

unfoldable pub render_entry : String → UserData → FwEntry → Result Rendered
render_entry username udata entry =
    let fwtype = get_or entry.fwtype "ACCEPT" in
    if fwtype == "ACCEPT"
    then ok (accept_rule (accept_line username entry))
    else if fwtype == "DNAT"
    then bind (dnat_target udata (get_or entry.family 4) (get_or entry.vpn "default")) (λ target.
      ok (if target == "" then no_rule else dnat_rule (dnat_line username entry target)))
    else ok no_rule

abbrev pub Rules : Type 0
Rules = List String × List String

abbrev pub add_rendered : Rendered → Rules → Rules
add_rendered (accept_rule r) (accept, dnat) = (r ∷ accept, dnat)
add_rendered (dnat_rule r) (accept, dnat) = (accept, r ∷ dnat)
add_rendered no_rule rules = rules

unfoldable pub render_entries : String → UserData → List FwEntry → Result Rules
render_entries username udata [] = ok ([], [])
render_entries username udata (entry ∷ entries) =
    bind (render_entry username udata entry)
      (λ r. bind (render_entries username udata entries) (λ rules. ok (add_rendered r rules)))

unfoldable pub render_users : List (String × UserData) → Result Rules
unfolding render_entries
render_users [] = ok ([], [])
render_users ((username, udata) ∷ users) =
    bind (render_entries username udata (get_or udata.fw_ports []))
      (λ first. bind (render_users users) (λ rest. ok (first.0 ++ rest.0, first.1 ++ rest.1)))

-- (accept_rules, dnat_rules)
unfoldable pub render_fw_ports : Config → Result Rules
unfolding render_users
render_fw_ports c = render_users (users_or_empty c)

bulk_line : String → String → String → String → String → String
bulk_line nfproto ip suffix target proto = fmt (
    "meta nfproto " ∷ nfproto ∷ " " ∷ proto ∷ " dport 1-64999 dnat " ∷ ip ∷ " to " ∷ target
    ∷ " comment \"OMR bulk redirect " ∷ proto ∷ suffix ∷ "\"" ∷ [])

bulk_v4 : UserData → List String
unfolding bulk_line
bulk_v4 u =
    let target = get_or u.vpnremoteip "" in
    if target == "" then [] else map (bulk_line "ipv4" "ip" "" target) ("tcp" ∷ "udp" ∷ [])

unfoldable pub render_bulk_redirect : Config → Result (List String)
unfolding bulk_v4 bulk_line
render_bulk_redirect c =
    let u = get_or (lookup "openmptcprouter" (users_or_empty c)) new_user in
    let v4 = if flag_of (lookup "bulk_redirect_v4" c.globals) then bulk_v4 u else [] in
    if flag_of (lookup "bulk_redirect_v6" c.globals)
    then bind (tunnel_v6 u.userid)
        (λ target6. ok (v4 ++ map (bulk_line "ipv6" "ip6" "6" target6) ("tcp" ∷ "udp" ∷ [])))
    else ok v4
