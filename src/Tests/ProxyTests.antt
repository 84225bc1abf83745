-- ===== src/Tests/ProxyTests.antt =====
-- A user added to an XRay configuration with two inbounds, and removed again.
use openmptcprouter_vps.Exec.{ok, ◌>>=◌}
use openmptcprouter_vps.Prelude.{String_discrete, [], ap, none, refl, some, true, ◌∷◌, ◌≡◌}
use openmptcprouter_vps.Proxies.Data.{
  Proxy, ProxyClient, ProxyData, ProxyInbound, adds, change_config, drops, holding, is_unchanged,
  log_call, put_config, with_file,
}
use openmptcprouter_vps.Proxies.Roundtrip.{xray_del_user-add_user}
use openmptcprouter_vps.Proxies.Routes.{xray_add_user}
use openmptcprouter_vps.Proxies.Users.{
  Identity, drop_accounts, drop_clients, if_installed, on_inbounds, remove_user_of, slot_of,
  tell_replaces, visit, visit_all, visit_slot, xray_del_user,
}

abbrev bob : Identity
bob = record { name = "bob"; uuid = "u-1"; ss_key = "k-1" }

abbrev alice : ProxyClient
alice = record { id = some "u-2"; password = none; email = some "alice" }

abbrev vless : ProxyInbound
vless = record { tag = some "omrin-tunnel"; clients = some (alice ∷ []); accounts = none }

abbrev api : ProxyInbound
api = record { tag = some "api"; clients = none; accounts = none }

abbrev data' : ProxyData
data' = record { inbounds = some (vless ∷ api ∷ []); outbounds = some []; rules = some [] }

abbrev xray : Proxy
xray = record { is_installed = true; file = holding data' true; calls = [] }

-- Removing nobody drops the inbound from the running program and adds it again.
bob_unknown :
    xray_del_user "bob" xray
    ≡ (ok tt, record xray { calls = adds vless ∷ drops "omrin-tunnel" ∷ [] })
unfolding xray_del_user if_installed change_config with_file put_config on_inbounds visit_all visit
    visit_slot slot_of remove_user_of drop_clients drop_accounts tell_replaces log_call is_unchanged
    String_discrete ◌>>=◌
bob_unknown = refl

xray_del_user-add_user_example :
    ((xray_add_user bob "" xray).0 ≡ ok tt)
    × ((xray_del_user "bob" (xray_add_user bob "" xray).1).0 ≡ ok tt)
    × ((xray_del_user "bob" (xray_add_user bob "" xray).1).1.file ≡ holding data' true)
xray_del_user-add_user_example =
    xray_del_user-add_user bob data' true xray refl refl (ap (λ o. o.0) bob_unknown)
      (ap (λ o. o.1.file) bob_unknown)
