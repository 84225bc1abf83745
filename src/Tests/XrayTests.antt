-- ===== src/Tests/XrayTests.antt =====
-- The theorems on XRay's reverse forwards, on a configuration without any.
use openmptcprouter_vps.Config.{UserData, parsed}
use openmptcprouter_vps.Exec.{ok}
use openmptcprouter_vps.Host.{Host, World, blank_world}
use openmptcprouter_vps.Host.Reply.{User, reply}
use openmptcprouter_vps.Prelude.{
  String_discrete, [], any, arith, false, filter, none, refl, some, str, true, ◌∷◌, ◌≡◌, ◌≤◌,
}
use openmptcprouter_vps.Tests.Data.{bob, host}
use openmptcprouter_vps.Xray.Changes.{
  has_port, has_tag, inbounds_of, is_taken, no_inbound, public_tag, rpf_listener, rules_of,
  takes_tag, tunnel_inbound, updated_listener, with_listener, xray_rpf_remove, xray_rpf_set,
}
use openmptcprouter_vps.Xray.Data.{XrayData}
use openmptcprouter_vps.Xray.Endpoints.{XrayParams, xray_rpf_redirect, xray_rpf_unredirect}
use openmptcprouter_vps.Xray.Removal.{xray_rpf_remove-set}
use openmptcprouter_vps.Xray.Rollback.{SameFiles, xray_rpf-SameFiles}
use openmptcprouter_vps.Xray.Sockets.{rule_of, xray_rpf_set_sockets}

abbrev empty_data : XrayData
empty_data = record { inbounds = none; rules = none }

abbrev after_set : XrayData
after_set = record {
  inbounds = some (
      updated_listener "bob" "b0" (record no_inbound { tag = some rpf_listener })
      ∷ tunnel_inbound "bob" 443 "192.168.1.2" 8443
      ∷ []);
  rules = some (rule_of "bob" 443 ∷ []);
}

set_runs : xray_rpf_set empty_data "bob" 443 "192.168.1.2" 8443 "b0" ≡ ok after_set
unfolding xray_rpf_set is_taken any filter with_listener updated_listener has_tag public_tag str
    String_discrete
set_runs = refl

in_range : 443 ≤ 64999
in_range = omega arith

xray_rpf_set_sockets_example :
    (filter (has_port 443) (inbounds_of after_set)
      ≡ tunnel_inbound "bob" 443 "192.168.1.2" 8443 ∷ [])
    × (filter (takes_tag (public_tag "bob" 443)) (rules_of after_set) ≡ rule_of "bob" 443 ∷ [])
xray_rpf_set_sockets_example =
    xray_rpf_set_sockets "bob" 443 empty_data "192.168.1.2" 8443 "b0" in_range set_runs

no_rule_yet : any (takes_tag (public_tag "bob" 443)) (rules_of empty_data) ≡ false
unfolding any
no_rule_yet = refl

xray_rpf_remove-set_example :
    ((xray_rpf_remove after_set "bob" 443).1 ≡ true)
    × (rules_of (xray_rpf_remove after_set "bob" 443).0 ≡ rules_of empty_data)
    × (any (has_tag (public_tag "bob" 443)) (inbounds_of (xray_rpf_remove after_set "bob" 443).0)
        ≡ false)
xray_rpf_remove-set_example =
    xray_rpf_remove-set empty_data "bob" 443 "192.168.1.2" 8443 "b0" no_rule_yet set_runs

-- A host where XRay takes the configuration but does not restart.
abbrev stuck : Host
stuck = record host { xray_restarts = λ n. false }

abbrev keyed : UserData
keyed = record bob { xray_key = some "b0" }

abbrev xray_world : World
xray_world = record blank_world {
  config = parsed (record { users = some (("bob", keyed) ∷ []); globals = [] });
  xray = some (record { content = empty_data; is_dump = true });
}

abbrev bob_user : User
bob_user = record { username = "bob"; permissions = "rw"; userid = some 3 }

abbrev https : XrayParams
https = record { port = "443"; proto = "tcp"; destip = "192.168.1.2"; destport = "8443" }

xray_rpf-SameFiles_example :
    ((xray_rpf_redirect stuck bob_user https xray_world).0
        ≡ ok (reply "error" "XRay restart failed; config restored")
      → SameFiles xray_world (xray_rpf_redirect stuck bob_user https xray_world).1)
    × ((xray_rpf_unredirect stuck bob_user https xray_world).0
          ≡ ok (reply "error" "XRay restart failed; config restored")
        → SameFiles xray_world (xray_rpf_unredirect stuck bob_user https xray_world).1)
xray_rpf-SameFiles_example =
    xray_rpf-SameFiles stuck bob_user https xray_world "XRay restart failed; config restored"
