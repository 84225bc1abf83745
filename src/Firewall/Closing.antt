-- ===== src/Firewall/Closing.antt =====
-- /firewallopen and /firewallclose on a file whose user ids are numbers: they always answer, and the
-- user's entries are then as asked.
use openmptcprouter_vps.Config.{Config, FwEntry, UserData}
use openmptcprouter_vps.Dict.{insert, lookup-insert_self}
use openmptcprouter_vps.Exec.{PyError, Result, continue, ok, pure, raised, ◌>>=◌}
use openmptcprouter_vps.Firewall.Effects.{fw_port_del_writes, with_ports}
use openmptcprouter_vps.Firewall.Endpoints.{FirewallParams, firewall_close, port_of}
use openmptcprouter_vps.Firewall.Keys.{HasDistinctKeys, IsValid, find_key}
use openmptcprouter_vps.Firewall.Numeric.{
  IsNumeric, NumericIds, NumericIds-lookup, nft_sync_ports_returns,
}
use openmptcprouter_vps.Firewall.Ports.{
  FwEntries_discrete, FwKey, FwPort, entry_of, fw_port_add, fw_port_del, has_other_key,
  is_supported, key_of, nft_sync_ports, ports_removed, same_key, save_ports, stored_ports,
}
use openmptcprouter_vps.Firewall.Views.{Stores, fw_port_del-refines, port_at, ports_in}
use openmptcprouter_vps.Host.{Host, World}
use openmptcprouter_vps.Host.Reply.{User, changes_applied}
use openmptcprouter_vps.Host.Store.{load_config, readable, users_of}
use openmptcprouter_vps.Prelude.{
  Bool, Bool-cases, List, Option, String, [], ap, arith, false, filter, filter_of_all, holds,
  if◌then◌else◌, inl, inr, none, refl, subst, sym, true, ◌++◌, ◌==◌, ◌||◌, ◌∙◌, ◌∷◌, ◌≡◌, ◌≢◌,
}
use openmptcprouter_vps.Users.Changes.{fw_ports_to, modif_config_user, update}
use openmptcprouter_vps.Users.Updates.{modif_config_user_writes, with_user}

pub NumericIds-insert :
    (name : String) (u : UserData) (users : List (String × UserData))
    → NumericIds users
    → IsNumeric u.userid
    → NumericIds (insert name u users)
unfolding insert
NumericIds-insert name u [] h n = (n, tt)
NumericIds-insert name u ((j, v) ∷ users) h n = elim (Bool-cases (j == name)) [
  | inl same ↦ rw same (n, h.1)
  | inr other ↦ rw other (h.0, NumericIds-insert name u users h.1 n)
]

-- The action returned.
abbrev pub Answers : Result (Unit {0}) → Type 0
Answers r = r ≡ ok tt

Answers-of_never :
    (host : Host) (w : World)
    → ((e : PyError) → (nft_sync_ports host w).0 ≢ raised e)
    → Answers ((nft_sync_ports host >>= λ _. pure tt) w).0
unfolding ◌>>=◌
Answers-of_never host w h = go (nft_sync_ports host w).0 refl
  where
    go :
        (r : Result Bool)
        → (nft_sync_ports host w).0 ≡ r
        → Answers (continue r (λ _. pure tt) (nft_sync_ports host w).1).0
    go (ok b) e = refl
    go (raised x) e = absurd (h x e)

module _ (host : Host) (username : String) (w : World) {c : Config}
    {users : List (String × UserData)} {u : UserData} (s : Stores w c users username u)
    (numeric : NumericIds users) where
  user-IsNumeric : IsNumeric u.userid
  user-IsNumeric = NumericIds-lookup username users numeric s.known_user

  save_ports-Answers : (ports : List FwEntry) → Answers (save_ports host username ports w).0
  unfolding save_ports
  save_ports-Answers ports =
      let changes = fw_ports_to ports ∷ [] in
      let writes = modif_config_user_writes username changes w s.reads s.has_users s.known_user in
      let w' = (modif_config_user username changes w).1 in
      rw writes.0 (
        Answers-of_never host w' (
          nft_sync_ports_returns host w' {c = with_user username (update u changes) users c}
            (ap readable writes.1)
            (unfold update in
              NumericIds-insert username (with_ports ports u) users numeric user-IsNumeric)))

  -- _fw_port_add and _fw_port_del return.
  pub fw_port_add-Answers :
      (p : FwPort) (vpn comment : String) → Answers (fw_port_add host username p vpn comment w).0
  unfolding fw_port_add load_config users_of ◌>>=◌
  fw_port_add-Answers p vpn comment = ground (
    arith,
    s.reads,
    s.has_users,
    s.known_user,
    save_ports-Answers (
        filter (has_other_key (key_of p)) (filter is_supported (stored_ports u))
        ++ entry_of p vpn comment ∷ []),
  )

  pub fw_port_del-Answers : (p : FwPort) → Answers (fw_port_del host username p w).0
  unfolding fw_port_del load_config users_of ◌>>=◌
  fw_port_del-Answers p = ground (
    arith,
    s.reads,
    s.has_users,
    s.known_user,
    save_ports-Answers (ports_removed (key_of p) (stored_ports u)),
  )

  -- The file after _fw_port_del.
  after_del-Stores :
      (p : FwPort)
      → (c' : Config) × (users' : List (String × UserData)) × (u' : UserData) × Stores
          (fw_port_del host username p w).1
          c'
          users'
          username
          u'
        × NumericIds users'
  after_del-Stores p =
      let l = ports_removed (key_of p) (stored_ports u) in
      let written = fw_port_del_writes host username w s.reads s.has_users s.known_user p in
      elim (Bool-cases (holds (FwEntries_discrete l (stored_ports u)))) [
        | inl same ↦ (
          c,
          users,
          u,
          record { reads = rw same at written; has_users = s.has_users; known_user = s.known_user },
          numeric,
        )
        | inr new ↦ (
          with_user username (with_ports l u) users c,
          insert username (with_ports l u) users,
          with_ports l u,
          record {
            reads = rw new at written;
            has_users = refl;
            known_user = lookup-insert_self username (with_ports l u) users;
          },
          NumericIds-insert username (with_ports l u) users numeric user-IsNumeric,
        )
      ]

module _ (host : Host) (user : User) (p : FirewallParams) (w : World) {c : Config}
    {users : List (String × UserData)} {u : UserData} (s : Stores w c users user.username u)
    (numeric : NumericIds users) (may_write : user.permissions ≢ "ro") where
  abbrev closed : World
  closed = (firewall_close host user p w).1

  abbrev first : World
  first = (fw_port_del host user.username (port_of p "DNAT") w).1

  closed_steps :
      firewall_close host user p w
      ≡ (ok changes_applied, (fw_port_del host user.username (port_of p "ACCEPT") first).1)
  unfolding firewall_close ◌>>=◌
  closed_steps =
      let (c', users', u', s', numeric') =
        after_del-Stores host user.username w s numeric (port_of p "DNAT") in
      ground (
        arith,
        fw_port_del-Answers host user.username w s numeric (port_of p "DNAT"),
        fw_port_del-Answers host user.username first s' numeric' (port_of p "ACCEPT"),
      )

  -- The closed user's entries in a later state.
  abbrev pub Removed : World → Type 0
  Removed w' =
      IsValid (ports_in w' user.username)
      × ((k : FwKey)
          → port_at w' user.username k ≡ (
              if same_key (key_of (port_of p "ACCEPT")) k || same_key (key_of (port_of p "DNAT")) k
              then none
              else find_key k (filter is_supported (ports_in w user.username))))
      × ((name : String) → user.username ≢ name → ports_in w' name ≡ ports_in w name)

  if_or :
      (a b : Bool) (o : Option FwEntry)
      → (if a then none else if b then none else o) ≡ (if a || b then none else o)
  if_or true b o = refl
  if_or false b o = refl

  both-Removed :
      HasDistinctKeys (ports_in w user.username)
      → Removed (fw_port_del host user.username (port_of p "ACCEPT") first).1
  both-Removed d =
      let (c', users', u', s', numeric') =
        after_del-Stores host user.username w s numeric (port_of p "DNAT") in
      let (v1, k1, o1) = fw_port_del-refines host user.username (port_of p "DNAT") w s d in
      let (v2, k2, o2) =
        fw_port_del-refines host user.username (port_of p "ACCEPT") first s' v1.distinct in
      (
        v2,
        λ k.
            rw (k2 k, filter_of_all is_supported (ports_in first user.username) v1.supported, k1 k)
              (if_or (same_key (key_of (port_of p "ACCEPT")) k)
                (same_key (key_of (port_of p "DNAT")) k)
                (find_key k (filter is_supported (ports_in w user.username)))),
        λ name n. o2 name n ∙ o1 name n,
      )

  -- Let the file be valid JSON that holds a user who may write, with distinct keys of its entries, and
  -- no user id be a text. Then /firewallclose answers that the changes are applied, neither the
  -- redirect nor the opening of that port is left, every other key of the user has the supported entry
  -- that it had, the user's entries are valid, and those of the other users are as before.
  pub firewall_close_removes :
      HasDistinctKeys (ports_in w user.username)
      → ((firewall_close host user p w).0 ≡ ok changes_applied) × Removed closed
  firewall_close_removes d = (
    ap (λ r. r.0) closed_steps,
    subst Removed (sym (ap (λ r. r.1) closed_steps)) (both-Removed d),
  )
