-- ===== src/Proxies/Users.antt =====
-- v2ray_add_user, v2ray_del_user and xray_del_user; xray_add_user is in Routes. The secrets that the source
-- draws if none are given are arguments; the uuid that an addition gives back is left out.
use openmptcprouter_vps.Exec.{
  Exec, Result, bind, gets, key_error, lift, ok, pure, require, ◌>>=◌, ◌>>◌,
}
use openmptcprouter_vps.Prelude.{
  Bool, List, Option, String, [], false, if◌then◌else◌, none, some, true, ◌&&◌, ◌++◌, ◌==◌, ◌∷◌,
}
use openmptcprouter_vps.Proxies.Data.{
  Account, Proxy, ProxyClient, ProxyData, ProxyInbound, adds, change_config, drops, log_call,
}
use openmptcprouter_vps.V2ray.Ports.{changed, or_raise}

-- The inbounds that hold users, by their tags.
pub data Slot : Type 0 where
  tunnel vmess trojan socks shadowsocks : Slot

-- `has_shadowsocks`: only XRay has the last one.
unfoldable pub slot_of : Bool → String → Option Slot
slot_of has_shadowsocks tag =
    if tag == "omrin-tunnel"
    then some tunnel
    else if tag == "omrin-vmess-tunnel"
    then some vmess
    else if tag == "omrin-trojan-tunnel"
    then some trojan
    else if tag == "omrin-socks-tunnel"
    then some socks
    else if has_shadowsocks && (tag == "omrin-shadowsocks-tunnel")
    then some shadowsocks
    else none

-- The name and the secrets of a user; V2Ray does not use the second.
pub record Identity : Type 0 where
  pub name : String
  pub uuid : String
  pub ss_key : String

unfoldable pub new_client : Slot → Identity → ProxyClient
new_client trojan u = record { id = none; password = some u.uuid; email = some u.name }
new_client shadowsocks u = record { id = none; password = some u.ss_key; email = some u.name }
new_client _ u = record { id = some u.uuid; password = none; email = some u.name }

-- settings['clients'].append(…), settings['accounts'].append(…)
unfoldable pub append_user : Slot → Identity → ProxyInbound → Result ProxyInbound
unfolding new_client
append_user socks u i = bind (or_raise key_error i.accounts) (λ l.
    ok (record i { accounts = some (l ++ record { pass = some u.uuid; user = some u.name } ∷ []) }))
append_user slot u i =
    bind (or_raise key_error i.clients)
      (λ l. ok (record i { clients = some (l ++ new_client slot u ∷ []) }))

-- Without the user's elements: each removes the first that equals it, so in the end all are gone. An
-- element without a name raises a KeyError.
unfoldable pub drop_clients : String → List ProxyClient → Result (List ProxyClient)
drop_clients name [] = ok []
drop_clients name (c ∷ l) =
    bind (or_raise key_error c.email)
      (λ email. bind (drop_clients name l) (λ rest. ok (if email == name then rest else c ∷ rest)))

unfoldable pub drop_accounts : String → List Account → Result (List Account)
drop_accounts name [] = ok []
drop_accounts name (a ∷ l) =
    bind (or_raise key_error a.user)
      (λ user. bind (drop_accounts name l) (λ rest. ok (if user == name then rest else a ∷ rest)))

unfoldable pub remove_user_of : Slot → String → ProxyInbound → Result ProxyInbound
unfolding drop_clients drop_accounts
remove_user_of socks name i =
    bind (or_raise key_error i.accounts)
      (λ l. bind (drop_accounts name l) (λ kept. ok (record i { accounts = some kept })))
remove_user_of slot name i =
    bind (or_raise key_error i.clients)
      (λ l. bind (drop_clients name l) (λ kept. ok (record i { clients = some kept })))

-- One round of the loop over the inbounds: an inbound that holds users is changed by `change`, and the
-- running program told by `tell`.
unfoldable pub visit_slot :
    (Slot → ProxyInbound → Result ProxyInbound)
    → (String → ProxyInbound → Exec Proxy Unit)
    → String
    → ProxyInbound
    → Option Slot
    → Exec Proxy ProxyInbound
visit_slot change tell tag i none = pure i
visit_slot change tell tag i (some slot) = do j ← lift (change slot i); tell tag j; pure j

unfoldable pub visit :
    Bool
    → (Slot → ProxyInbound → Result ProxyInbound)
    → (String → ProxyInbound → Exec Proxy Unit)
    → ProxyInbound
    → Exec Proxy ProxyInbound
unfolding visit_slot
visit has_shadowsocks change tell i = do
  tag ← require key_error i.tag
  visit_slot change tell tag i (slot_of has_shadowsocks tag)

unfoldable pub visit_all :
    (ProxyInbound → Exec Proxy ProxyInbound) → List ProxyInbound → Exec Proxy (List ProxyInbound)
visit_all visit_one [] = pure []
visit_all visit_one (i ∷ rest) = do
  j ← visit_one i
  others ← visit_all visit_one rest
  pure (j ∷ others)

unfoldable pub on_inbounds :
    (ProxyInbound → Exec Proxy ProxyInbound) → ProxyData → Exec Proxy ProxyData
unfolding visit_all
on_inbounds visit_one d = do
  inbounds ← require key_error d.inbounds
  changed ← visit_all visit_one inbounds
  pure (record d { inbounds = some changed })

-- What the program is told: the inbound as it is now; on XRay a removal drops the old one first.
unfoldable pub tell_adds : String → ProxyInbound → Exec Proxy Unit
unfolding log_call
tell_adds tag i = log_call (adds i)

unfoldable pub tell_replaces : String → ProxyInbound → Exec Proxy Unit
unfolding log_call
tell_replaces tag i = log_call (drops tag) >> log_call (adds i)

unfoldable pub tell_nothing : String → ProxyInbound → Exec Proxy Unit
tell_nothing tag i = pure tt

-- if not shutil.which(…) and not os.path.isfile(…): return
unfoldable pub if_installed : Exec Proxy Unit → Exec Proxy Unit
if_installed m = do installed ← gets (λ p. p.is_installed); if installed then m else pure tt

unfoldable pub v2ray_add_user : Identity → Bool → Exec Proxy Unit
unfolding if_installed visit append_user on_inbounds tell_adds
v2ray_add_user u restart =
    if_installed
      (change_config (on_inbounds (visit false (λ slot. append_user slot u) tell_adds)) restart)

unfoldable pub v2ray_del_user : String → Bool → Exec Proxy Unit
unfolding if_installed visit remove_user_of on_inbounds tell_nothing
v2ray_del_user name restart = if_installed (
    change_config (on_inbounds (visit false (λ slot. remove_user_of slot name) tell_nothing))
      restart)

-- XRay is not restarted.
unfoldable pub xray_del_user : String → Exec Proxy Unit
unfolding if_installed visit remove_user_of on_inbounds tell_replaces
xray_del_user name = if_installed (
    change_config (on_inbounds (visit true (λ slot. remove_user_of slot name) tell_replaces)) false)
