-- ===== src/Tests/V2rayTests.antt =====
-- A redirected port on a server file with one inbound, the users' tunnel, and one rule.
use openmptcprouter_vps.Exec.{ok}
use openmptcprouter_vps.Host.Reply.{changes_applied}
use openmptcprouter_vps.Prelude.{
  String_discrete, [], ne_of_test, none, pos, refl, some, true, ◌∷◌, ◌≡◌,
}
use openmptcprouter_vps.Tests.Data.{admin, not_read_only}
use openmptcprouter_vps.V2ray.Endpoints.{
  V2rayParams, redirect_of, v2ray_redirect, v2ray_unredirect, v2ray_unredirect-redirect,
  xray_redirect, xray_unredirect,
}
use openmptcprouter_vps.V2ray.Numbers.{parse_int}
use openmptcprouter_vps.V2ray.Ports.{
  V2rayInbound, V2rayRule, V2rayState, exists_tag, first_of, first_tag, full_tag, json, removed_tag,
  short_tag, texts,
}
use openmptcprouter_vps.V2ray.Redirects.{has_other_tags, with_door}

abbrev tunnel : V2rayInbound
tunnel = record {
  tag = some "omrin-tunnel";
  port = some (pos 65228);
  protocol = some "vless";
  network = none;
  target_port = none;
  address = none;
}

abbrev tunnel_rule : V2rayRule
tunnel_rule = record { inbound_tag = some (texts ("api" ∷ [])); outbound_tag = some "api" }

abbrev redirect : V2rayParams
redirect = record {
  name = "https";
  port = "443";
  proto = "tcp";
  destip = "192.168.100.2";
  destport = "8443";
}

port_read : parse_int "443" ≡ some (pos 443)
unfolding parse_int
port_read = refl

destport_read : parse_int "8443" ≡ some (pos 8443)
unfolding parse_int
destport_read = refl

v2ray_unredirect-redirect_example :
    let s : V2rayState = record {
      file = json (record { inbounds = some (tunnel ∷ []); rules = some (tunnel_rule ∷ []) }) true;
      restarts = 0;
    } in
    (v2ray_redirect true redirect admin s ≡ (
      ok changes_applied,
      record {
        file =
            json
              (with_door
                (redirect_of admin redirect)
                (pos 443)
                (pos 8443)
                (tunnel ∷ [])
                (tunnel_rule ∷ []))
              true;
        restarts = 1;
      },
    ))
    × (v2ray_unredirect true redirect admin (v2ray_redirect true redirect admin s).1 ≡ (
      ok changes_applied,
      record {
        file =
            json (record { inbounds = some (tunnel ∷ []); rules = some (tunnel_rule ∷ []) }) true;
        restarts = 2;
      },
    ))
    × (xray_redirect true redirect admin s ≡ (
      ok changes_applied,
      record {
        file =
            json
              (with_door
                (redirect_of admin redirect)
                (pos 443)
                (pos 8443)
                (tunnel ∷ [])
                (tunnel_rule ∷ []))
              true;
        restarts = 1;
      },
    ))
    × (xray_unredirect true redirect admin (xray_redirect true redirect admin s).1 ≡ (
      ok changes_applied,
      record {
        file =
            json (record { inbounds = some (tunnel ∷ []); rules = some (tunnel_rule ∷ []) }) true;
        restarts = 2;
      },
    ))
unfolding exists_tag full_tag short_tag has_other_tags first_tag first_of String_discrete
v2ray_unredirect-redirect_example =
    v2ray_unredirect-redirect admin redirect (tunnel ∷ []) (tunnel_rule ∷ []) true 0 not_read_only
      refl refl port_read destport_read (ne_of_test "192.168.100.2" "" refl)

-- v2ray_del_port looks for another tag than v2ray_add_port wrote if the target address is empty.
to_no_address :
    full_tag (redirect_of admin (record redirect { destip = ""; destport = "" }))
    ≡ "openmptcprouter_redir_tcp_443_to_:"
unfolding full_tag short_tag
to_no_address = refl

from_no_address :
    removed_tag (redirect_of admin (record redirect { destip = ""; destport = "" }))
    ≡ "openmptcprouter_redir_tcp_443"
unfolding removed_tag short_tag String_discrete
from_no_address = refl
