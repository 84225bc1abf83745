-- ===== src/Proxies/Routes.antt =====
-- The outbounds and rules of V2Ray and XRay, and xray_add_user, which adds them for an address.
use openmptcprouter_vps.Exec.{Exec, Result, bind, key_error, lift, ok, pure, ◌>>◌}
use openmptcprouter_vps.Prelude.{
  Bool, List, String, [], false, fmt, if◌then◌else◌, none, some, true, ◌++◌, ◌==◌, ◌∷◌,
}
use openmptcprouter_vps.Proxies.Data.{Outbound, Proxy, ProxyData, ProxyRule, change_config}
use openmptcprouter_vps.Proxies.Users.{
  Identity, append_user, if_installed, on_inbounds, tell_adds, visit,
}
use openmptcprouter_vps.V2ray.Ports.{or_raise}

unfoldable pub outbound_added : String → String → ProxyData → Result ProxyData
outbound_added tag ip d = bind (or_raise key_error d.outbounds) (λ l.
    ok
      (record d { outbounds = some (l ++ record { tag = some tag; send_through = some ip } ∷ []) }))

unfoldable pub drop_outbounds : String → List Outbound → Result (List Outbound)
drop_outbounds tag [] = ok []
drop_outbounds tag (o ∷ l) =
    bind (or_raise key_error o.tag)
      (λ t. bind (drop_outbounds tag l) (λ rest. ok (if t == tag then rest else o ∷ rest)))

unfoldable pub outbound_removed : String → ProxyData → Result ProxyData
unfolding drop_outbounds
outbound_removed tag d =
    bind (or_raise key_error d.outbounds)
      (λ l. bind (drop_outbounds tag l) (λ kept. ok (record d { outbounds = some kept })))

-- The rule for a user, or for all if the name is empty.
unfoldable pub rule_for : String → String → ProxyRule
rule_for tag user = record {
  inbound_tag = some "omrin-tunnel";
  user = if user == "" then none else some user;
  outbound_tag = some tag;
}

-- V2Ray gets the rule at the end, XRay at the head.
unfoldable pub rule_added : Bool → String → String → ProxyData → Result ProxyData
unfolding rule_for
rule_added at_head tag user d = bind (or_raise key_error d.rules) (λ l. ok (record d {
  rules = some (if at_head then rule_for tag user ∷ l else l ++ rule_for tag user ∷ []);
}))

unfoldable pub drop_tagged : String → List ProxyRule → Result (List ProxyRule)
drop_tagged tag [] = ok []
drop_tagged tag (r ∷ l) =
    bind (or_raise key_error r.outbound_tag)
      (λ t. bind (drop_tagged tag l) (λ rest. ok (if t == tag then rest else r ∷ rest)))

unfoldable pub rules_removed : String → ProxyData → Result ProxyData
unfolding drop_tagged
rules_removed tag d =
    bind (or_raise key_error d.rules)
      (λ l. bind (drop_tagged tag l) (λ kept. ok (record d { rules = some kept })))

unfoldable pub v2ray_add_outbound : String → String → Bool → Exec Proxy Unit
v2ray_add_outbound tag ip restart = change_config (λ d. lift (outbound_added tag ip d)) restart

unfoldable pub xray_add_outbound : String → String → Bool → Exec Proxy Unit
xray_add_outbound tag ip restart = change_config (λ d. lift (outbound_added tag ip d)) restart

unfoldable pub v2ray_del_outbound : String → Bool → Exec Proxy Unit
v2ray_del_outbound tag restart = change_config (λ d. lift (outbound_removed tag d)) restart

unfoldable pub xray_del_outbound : String → Bool → Exec Proxy Unit
xray_del_outbound tag restart = change_config (λ d. lift (outbound_removed tag d)) restart

unfoldable pub v2ray_add_routing : String → String → Bool → Exec Proxy Unit
v2ray_add_routing tag user restart = change_config (λ d. lift (rule_added false tag user d)) restart

unfoldable pub xray_add_routing : String → String → Bool → Exec Proxy Unit
xray_add_routing tag user restart = change_config (λ d. lift (rule_added true tag user d)) restart

unfoldable pub v2ray_del_routing : String → Bool → Exec Proxy Unit
v2ray_del_routing tag restart = change_config (λ d. lift (rules_removed tag d)) restart

unfoldable pub xray_del_routing : String → Bool → Exec Proxy Unit
xray_del_routing tag restart = change_config (λ d. lift (rules_removed tag d)) restart

-- except Exception: pass
ignoring : Exec Proxy Unit → Exec Proxy Unit
ignoring m p = (ok tt, (m p).1)

-- The traffic of the user goes out by the address, if one is given.
unfoldable pub route_by : String → String → Exec Proxy Unit
unfolding ignoring xray_add_routing xray_add_outbound
route_by name ip =
    let tag = fmt ("output-" ∷ ip ∷ []) in
    if ip == ""
    then pure tt
    else ignoring (xray_add_routing tag name false >> xray_add_outbound tag ip false)

unfoldable pub xray_add_user : Identity → String → Exec Proxy Unit
unfolding if_installed visit append_user on_inbounds tell_adds route_by
xray_add_user u ip = if_installed (
    change_config (on_inbounds (visit true (λ slot. append_user slot u) tell_adds)) false
    >> route_by u.name ip)
