-- ===== src/V2ray/Endpoints.antt =====
-- /v2rayredirect, /v2rayunredirect, /xrayredirect and /xrayunredirect. The admin's file is opened, but what it says is not used.
use openmptcprouter_vps.Exec.{Exec, file_not_found, gets, ok, pure, raise, ◌>>=◌, ◌>>◌}
use openmptcprouter_vps.Host.Reply.{Reply, User, changes_applied, reply, unless_read_only}
use openmptcprouter_vps.Prelude.{
  Bool, List, String, arith, false, if◌then◌else◌, not, refl, some, true, ℕ, ℤ, ◌+◌, ◌≡◌, ◌≢◌,
}
use openmptcprouter_vps.V2ray.Numbers.{parse_int}
use openmptcprouter_vps.V2ray.Ports.{
  Redirect, V2rayData, V2rayInbound, V2rayRule, V2rayState, absent, exists_tag, full_tag, json,
  v2ray_add_port, v2ray_del_port, xray_add_port, xray_del_port,
}
use openmptcprouter_vps.V2ray.Redirects.{has_other_tags, v2ray_del_port-add, with_door}

-- The body, V2rayparams and Xrayparams. `name` is only tested against None, which it cannot be.
pub record V2rayParams : Type 0 where
  pub name : String
  pub port : String
  pub proto : String
  pub destip : String
  pub destport : String

abbrev pub redirect_of : User → V2rayParams → Redirect
redirect_of u p = record {
  username = u.username;
  port = p.port;
  proto = p.proto;
  destip = p.destip;
  destport = p.destport;
}

-- os.path.isfile('/etc/v2ray/v2ray-server.json')
unfoldable pub is_installed : V2rayState → Bool
is_installed s = elim s.file [ absent ↦ false | _ ↦ true ]

-- What the endpoints do around the change. `has_config`: the admin's file is there.
unfoldable pub around : String → Bool → User → Exec V2rayState Unit → Exec V2rayState Reply
around warning has_config u change = unless_read_only u (do
  installed ← gets is_installed
  if not installed
      then pure (reply "warning" warning)
      else if not has_config
      then raise file_not_found
      else (do change; pure changes_applied))

unfoldable pub v2ray_redirect : Bool → V2rayParams → User → Exec V2rayState Reply
v2ray_redirect has_config p u =
    around "V2Ray not installed" has_config u (v2ray_add_port (redirect_of u p))

unfoldable pub v2ray_unredirect : Bool → V2rayParams → User → Exec V2rayState Reply
v2ray_unredirect has_config p u =
    around "V2Ray not installed" has_config u (v2ray_del_port (redirect_of u p))

-- The text of the warning is the source's.
unfoldable pub xray_redirect : Bool → V2rayParams → User → Exec V2rayState Reply
unfolding xray_add_port
xray_redirect has_config p u =
    around "Xay not installed" has_config u (xray_add_port (redirect_of u p))

unfoldable pub xray_unredirect : Bool → V2rayParams → User → Exec V2rayState Reply
unfolding xray_del_port
xray_unredirect has_config p u =
    around "Xay not installed" has_config u (xray_del_port (redirect_of u p))

around_writes :
    (warning : String) (u : User) (change : Exec V2rayState Unit) (s : V2rayState)
    {after : V2rayState}
    → u.permissions ≢ "ro"
    → is_installed s ≡ true
    → change s ≡ (ok tt, after)
    → around warning true u change s ≡ (ok changes_applied, after)
unfolding around ◌>>=◌
around_writes warning u change s writes installed done = ground (arith, writes, installed, done)

module _ (u : User) (p : V2rayParams) (l : List V2rayInbound) (rules : List V2rayRule)
    (dumped : Bool) (restarts : ℕ) {port destport : ℤ} where
  -- What holds of both services.
  unredirect-redirect :
      (warning : String)
      → u.permissions ≢ "ro"
      → exists_tag (full_tag (redirect_of u p)) l ≡ ok false
      → has_other_tags (full_tag (redirect_of u p)) rules ≡ true
      → parse_int p.port ≡ some port
      → parse_int p.destport ≡ some destport
      → p.destip ≢ ""
      → let d : V2rayData = record { inbounds = some l; rules = some rules } in
        let s : V2rayState = record { file = json d dumped; restarts = restarts } in
        let add = around warning true u (v2ray_add_port (redirect_of u p)) in
        let del = around warning true u (v2ray_del_port (redirect_of u p)) in
        (add s ≡ (
          ok changes_applied,
          record {
            file = json (with_door (redirect_of u p) port destport l rules) true;
            restarts = restarts + 1;
          },
        ))
        × (del (add s).1
            ≡ (ok changes_applied, record { file = json d true; restarts = restarts + 1 + 1 }))
  unfolding is_installed
  unredirect-redirect warning writes fresh_tag fresh_rules port_read destport_read not_empty =
      let r = redirect_of u p in
      let s : V2rayState = record {
        file = json (record { inbounds = some l; rules = some rules }) dumped;
        restarts = restarts;
      } in
      let s1 : V2rayState = record {
        file = json (with_door r port destport l rules) true;
        restarts = restarts + 1;
      } in
      let (add, del) =
        v2ray_del_port-add r l rules dumped restarts fresh_tag fresh_rules port_read destport_read
          not_empty in
      let redirected : around warning true u (v2ray_add_port r) s ≡ (ok changes_applied, s1) =
        around_writes warning u (v2ray_add_port r) s writes refl add in
      (
        redirected,
        rw redirected (around_writes warning u (v2ray_del_port r) s1 writes refl (rw add at del)),
      )

  -- For a user that is not read-only, on a file whose inbounds all have a tag and whose rules all have
  -- a first tag, where none is the tag of the redirect, and for ports that int() reads and a target
  -- address that is not empty: /v2rayredirect applies the change and puts the redirect's inbound and
  -- rule at the ends of the lists, the same request to /v2rayunredirect then applies the change too and
  -- gives back the lists, and V2Ray is restarted both times. The same holds of /xrayredirect and
  -- /xrayunredirect over the file and the service of XRay.
  pub v2ray_unredirect-redirect :
      u.permissions ≢ "ro"
      → exists_tag (full_tag (redirect_of u p)) l ≡ ok false
      → has_other_tags (full_tag (redirect_of u p)) rules ≡ true
      → parse_int p.port ≡ some port
      → parse_int p.destport ≡ some destport
      → p.destip ≢ ""
      → let d : V2rayData = record { inbounds = some l; rules = some rules } in
        let s : V2rayState = record { file = json d dumped; restarts = restarts } in
        (v2ray_redirect true p u s ≡ (
          ok changes_applied,
          record {
            file = json (with_door (redirect_of u p) port destport l rules) true;
            restarts = restarts + 1;
          },
        ))
        × (v2ray_unredirect true p u (v2ray_redirect true p u s).1
            ≡ (ok changes_applied, record { file = json d true; restarts = restarts + 1 + 1 }))
        × (xray_redirect true p u s ≡ (
          ok changes_applied,
          record {
            file = json (with_door (redirect_of u p) port destport l rules) true;
            restarts = restarts + 1;
          },
        ))
        × (xray_unredirect true p u (xray_redirect true p u s).1
            ≡ (ok changes_applied, record { file = json d true; restarts = restarts + 1 + 1 }))
  unfolding v2ray_redirect v2ray_unredirect xray_redirect xray_unredirect v2ray_add_port
      v2ray_del_port
  v2ray_unredirect-redirect writes fresh_tag fresh_rules port_read destport_read not_empty =
      let of_v2ray =
        unredirect-redirect "V2Ray not installed" writes fresh_tag fresh_rules port_read
          destport_read not_empty in
      let of_xray =
        unredirect-redirect "Xay not installed" writes fresh_tag fresh_rules port_read destport_read
          not_empty in
      (of_v2ray.0, of_v2ray.1, of_xray.0, of_xray.1)
