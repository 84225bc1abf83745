-- ===== src/Firewall/Repeats.antt =====
-- Routers send every port that they know on each pass: what a repeated _fw_port_add does.
use openmptcprouter_vps.Config.{Config, FwEntry, FwEntry_discrete, UserData}
use openmptcprouter_vps.Dict.{lookup-insert_self}
use openmptcprouter_vps.Exec.{ok, ◌>>=◌}
use openmptcprouter_vps.Firewall.Effects.{fw_port_add_writes, with_ports}
use openmptcprouter_vps.Firewall.Lists.{is_supported-other_key_all}
use openmptcprouter_vps.Firewall.Ports.{
  FwEntries_discrete, FwKey, FwPort, entry_of, fw_port_add, has_other_key, is_settled, is_supported,
  is_supported_type, key_of, ports_added, stored_ports,
}
use openmptcprouter_vps.Firewall.Views.{Stores}
use openmptcprouter_vps.Host.{Host, World}
use openmptcprouter_vps.Host.Store.{load_config, users_of}
use openmptcprouter_vps.Prelude.{
  Bool-cases, List, String, [], all, all-append, arith, contains, contains-append_last, filter,
  filter_of_all, holds, inl, inr, refl, true, ◌++◌, ◌∷◌, ◌≡◌,
}
use openmptcprouter_vps.Users.Updates.{with_user}

settled_of_parts :
    (e : FwEntry) (l : List FwEntry)
    → contains FwEntry_discrete e l ≡ true
    → all is_supported l ≡ true
    → is_settled e l ≡ true
unfolding is_settled
settled_of_parts e l c a =
    rw (c, filter_of_all is_supported l a)
      (elim (FwEntries_discrete l l) as (λ d. holds d ≡ true) [
        | yes p ↦ refl
        | no n ↦ absurd (n refl)
      ])

settled_of_added :
    (k : FwKey) (e : FwEntry) (l : List FwEntry)
    → is_supported e ≡ true
    → is_settled e (ports_added k e l) ≡ true
unfolding ports_added all
settled_of_added k e l sup = elim (Bool-cases (is_settled e l)) [
  | inl settled ↦ rw settled settled
  | inr new ↦
      let others = filter (has_other_key k) (filter is_supported l) in
      rw new (
        settled_of_parts e (others ++ e ∷ []) (contains-append_last FwEntry_discrete e others)
          (rw (all-append is_supported others (e ∷ []), is_supported-other_key_all k l, sup)))
]

module _ (host : Host) (username : String) (p : FwPort) (vpn comment : String) (w : World) where
  -- An entry that is there, in a list that needs no pruning, is not written again.
  fw_port_add_settled :
      {c : Config} {users : List (String × UserData)} {u : UserData}
      → Stores w c users username u
      → is_settled (entry_of p vpn comment) (stored_ports u) ≡ true
      → fw_port_add host username p vpn comment w ≡ (ok tt, w)
  unfolding fw_port_add load_config users_of ◌>>=◌
  fw_port_add_settled s settled = ground (arith, s.reads, s.has_users, s.known_user)

-- On a file of valid JSON that holds the user, and for a type ACCEPT or DNAT, a second _fw_port_add
-- with the same arguments changes nothing: no write, no backup, no nft run, whether or not nft took
-- the rules the first time.
pub fw_port_add_idem :
    (host : Host) (username : String) (p : FwPort) (vpn comment : String) (w : World) {c : Config}
    {users : List (String × UserData)} {u : UserData}
    → is_supported_type p.fwtype ≡ true
    → Stores w c users username u
    → fw_port_add host username p vpn comment (fw_port_add host username p vpn comment w).1
      ≡ (ok tt, (fw_port_add host username p vpn comment w).1)
unfolding is_supported
fw_port_add_idem host username p vpn comment w {c} {users} {u} sup s =
    let e = entry_of p vpn comment in
    let l = ports_added (key_of p) e (stored_ports u) in
    fw_port_add_settled host username p vpn comment (fw_port_add host username p vpn comment w).1
      {c = with_user username (with_ports l u) users c}
      (record {
        reads =
            fw_port_add_writes host username w s.reads s.has_users s.known_user p vpn comment sup;
        has_users = refl;
        known_user = lookup-insert_self username (with_ports l u) users;
      })
      (settled_of_added (key_of p) e (stored_ports u) sup)
