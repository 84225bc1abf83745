-- ===== src/Tests/MqvpnTests.antt =====
-- The theorems on MQVPN's path policy, for a server with one pinned path.
use openmptcprouter_vps.Dict.{has_key, insert, lookup}
use openmptcprouter_vps.Mqvpn.Bits.{bits}
use openmptcprouter_vps.Mqvpn.Marks.{
  IsMarked, all_known, all_valid, has_codepoint, is_marked, last_mask, mqvpn_dscp-IsMarked,
}
use openmptcprouter_vps.Mqvpn.Masks.{MqvpnDscpPin, mqvpn_dscp}
use openmptcprouter_vps.Mqvpn.Policy.{PathPolicy, weight}
use openmptcprouter_vps.Mqvpn.Requests.{IsSynced, mqvpn_weight-IsSynced}
use openmptcprouter_vps.Mqvpn.Sync.{
  MqvpnApi, MqvpnState, MqvpnWeightPin, desired_path_weights, mqvpn_weight, policy_in,
}
use openmptcprouter_vps.Mqvpn.Views.{HasDistinctPaths, has_path}
use openmptcprouter_vps.Prelude.{
  List, String_discrete, [], none, pos, refl, some, true, ◌^◌, ◌∷◌, ◌≡◌,
}
use openmptcprouter_vps.Tests.Data.{admin, not_read_only}

abbrev refusing : MqvpnApi
refusing calls call = some "user not found"

abbrev wan1 : PathPolicy
wan1 = record {
  user = some "openmptcprouter";
  iface = some "wan1";
  path_weight = some 2;
  path_mask = none;
}

abbrev server : MqvpnState
server = record { server = some (some (wan1 ∷ [])); calls = [] }

server-HasDistinctPaths : HasDistinctPaths (policy_in server)
unfolding has_path
server-HasDistinctPaths = (λ u i h. refl, tt)

abbrev wan2_pin : List MqvpnWeightPin
wan2_pin = record { iface = "wan2"; weight_value = pos 5 } ∷ []

wan2_accepted : desired_path_weights wan2_pin [] ≡ some (("wan2", 5) ∷ [])
unfolding desired_path_weights insert String_discrete
wan2_accepted = refl

mqvpn_weight-IsSynced_example :
    IsSynced weight "openmptcprouter"
      (("wan2", 5) ∷ [])
      (policy_in server)
      (policy_in (mqvpn_weight refusing admin wan2_pin server).1)
mqvpn_weight-IsSynced_example =
    mqvpn_weight-IsSynced refusing admin server not_read_only refl server-HasDistinctPaths wan2_pin
      wan2_accepted

abbrev voice_pin : List MqvpnDscpPin
voice_pin =
    record { iface = "wan1"; dscp = "cs1" ∷ [] } ∷ record { iface = "wan1"; dscp = "ef" ∷ [] } ∷ []

voice_valid : all_valid voice_pin ≡ true
unfolding all_valid all_known has_key lookup String_discrete
voice_valid = refl

mqvpn_dscp-IsMarked_example :
    IsMarked "openmptcprouter" voice_pin
      (policy_in server)
      (policy_in (mqvpn_dscp refusing admin voice_pin server).1)
mqvpn_dscp-IsMarked_example =
    mqvpn_dscp-IsMarked refusing admin server voice_pin not_read_only refl server-HasDistinctPaths
      voice_valid

-- The last of two pins counts, and its class is codepoint 46.
voice_mask : last_mask "wan1" voice_pin ≡ some (2 ^ 46)
unfolding last_mask bits is_marked has_codepoint lookup String_discrete
voice_mask = refl
