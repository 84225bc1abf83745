-- ===== src/Tests/VxlanTests.antt =====
-- The theorems on VXLAN tunnels, with one user that has a tunnel and one that asks for its id.
use openmptcprouter_vps.Config.{Config, UserData, VxlanStored, parsed}
use openmptcprouter_vps.Dict.{insert, lookup}
use openmptcprouter_vps.Exec.{ok, ◌>>=◌}
use openmptcprouter_vps.Host.{World, blank_world}
use openmptcprouter_vps.Host.Store.{load_config, read_omr_config, stored_users, users_of}
use openmptcprouter_vps.Prelude.{
  List, String, String_discrete, [], arith, none, refl, some, true, ℕ, ◌+◌, ◌∷◌, ◌≡◌, ◌≢◌, ◌≤◌, ◌⊎◌,
}
use openmptcprouter_vps.Tests.Data.{admin, bob, host, router}
use openmptcprouter_vps.Vxlan.Assignments.{
  assign_users, insert_name, sorted_names, split_by_port, vxlan_assignments, vxlan_conflicts,
}
use openmptcprouter_vps.Vxlan.ClashFree.{IsClashFree, insert-IsClashFree}
use openmptcprouter_vps.Vxlan.Endpoints.{
  VxlanRequest, VxlanUser, hard_conflict, vxlan, vxlan_user_set_config,
}
use openmptcprouter_vps.Vxlan.Pools.{ext_ip, legacy_ip, slice_v4, slice_v4_disjoint}
use openmptcprouter_vps.Vxlan.Requests.{vxlan-IsClashFree, vxlan_user-IsClashFree}
use openmptcprouter_vps.Vxlan.Restarts.{write_vxlan_conf_idem}
use openmptcprouter_vps.Vxlan.Settings.{
  get_vxlan_config, merge_vxlan_config, merged, no_vxlan, vxlan_config,
}
use openmptcprouter_vps.Vxlan.Units.{write_vxlan_conf}

abbrev tunnel : VxlanStored
tunnel = record no_vxlan { enabled = some true; vni = some 7 }

abbrev bob_up : UserData
bob_up = record bob { vxlan = some tunnel }

abbrev bob_only : List (String × UserData)
bob_only = ("bob", bob_up) ∷ []

abbrev two_users : List (String × UserData)
two_users = ("bob", bob_up) ∷ ("openmptcprouter", router) ∷ []

abbrev two_config : Config
two_config = record { users = some two_users; globals = [] }

abbrev two_world : World
two_world = record blank_world { config = parsed two_config }

bob_only-IsClashFree : IsClashFree host bob_only
unfolding insert lookup
bob_only-IsClashFree =
    insert-IsClashFree host "bob" bob_up []
      (record { apart = λ a b ne ha hb da db ea eb. absurd (ground arith) })
      (λ b ub ca cb ne hb da db on. absurd (ground arith))

two_users-IsClashFree : IsClashFree host two_users
unfolding insert vxlan_config String_discrete
two_users-IsClashFree =
    insert-IsClashFree host "openmptcprouter" router bob_only bob_only-IsClashFree
      (λ b ub ca cb ne hb da db on. absurd (ground arith))

known_two : lookup "openmptcprouter" two_users ≡ some router
unfolding lookup String_discrete
known_two = refl

abbrev same_vni : VxlanRequest
same_vni = record {
  enable = true;
  mode = none;
  vni = some 7;
  port = none;
  localip = none;
  remoteip = none;
  localip6 = none;
  remoteip6 = none;
  mtu = none;
}

same_vni_refused : (vxlan host admin same_vni two_world).0 ≡ ok (hard_conflict 7 4789 ("bob" ∷ []))
unfolding vxlan String_discrete merge_vxlan_config get_vxlan_config load_config users_of ◌>>=◌
    lookup vxlan_config merged vxlan_conflicts vxlan_assignments assign_users read_omr_config
    split_by_port sorted_names insert_name
same_vni_refused = refl

vxlan-IsClashFree_example : IsClashFree host (stored_users (vxlan host admin same_vni two_world).1)
vxlan-IsClashFree_example =
    vxlan-IsClashFree host two_world refl refl two_users-IsClashFree admin same_vni known_two

abbrev forced : VxlanUser
forced = record {
  username = "openmptcprouter";
  vni = some 7;
  port = none;
  mode = none;
  enable = some true;
  force = true;
}

vxlan_user-IsClashFree_example :
    IsClashFree host (stored_users (vxlan_user_set_config host admin forced two_world).1)
vxlan_user-IsClashFree_example =
    vxlan_user-IsClashFree host two_world refl refl two_users-IsClashFree admin forced

write_vxlan_conf_idem_example :
    write_vxlan_conf host "bob" 3 (write_vxlan_conf host "bob" 3 two_world).1
    ≡ (ok tt, (write_vxlan_conf host "bob" 3 two_world).1)
write_vxlan_conf_idem_example = write_vxlan_conf_idem host "bob" 3 two_world refl refl

sixty_four : slice_v4 64 ≡ some ext_ip
unfolding slice_v4
sixty_four = refl

sixty_three : slice_v4 63 ≡ some (legacy_ip + 252)
unfolding slice_v4
sixty_three = refl

sixty_three-ne-sixty_four : ◌≢◌ {A = ℕ} 63 64
sixty_three-ne-sixty_four = ground arith

slice_v4_disjoint_example :
    ((legacy_ip + 252 + 4 ≤ ext_ip) ⊎ (ext_ip + 4 ≤ legacy_ip + 252))
    × (((legacy_ip ≤ legacy_ip + 252) × (legacy_ip + 252 + 4 ≤ legacy_ip + 256))
        ⊎ ((ext_ip ≤ legacy_ip + 252) × (legacy_ip + 252 + 4 ≤ ext_ip + 4096)))
slice_v4_disjoint_example = slice_v4_disjoint 63 64 sixty_three-ne-sixty_four sixty_three sixty_four
