-- ===== src/Firewall/Views.antt =====
-- The stored firewall entries as seen from outside: one map from keys to entries for each user.
use openmptcprouter_vps.Config.{Config, FwEntry, UserData, parsed}
use openmptcprouter_vps.Dict.{lookup, lookup-insert}
use openmptcprouter_vps.Exec.{ok, ◌>>=◌}
use openmptcprouter_vps.Firewall.Effects.{fw_port_add_writes, fw_port_del_writes, with_ports}
use openmptcprouter_vps.Firewall.Keys.{HasDistinctKeys, IsValid, find_key}
use openmptcprouter_vps.Firewall.Lists.{ports_added-IsValid, ports_removed-IsValid}
use openmptcprouter_vps.Firewall.Ports.{
  FwEntries_discrete, FwKey, FwPort, entry_of, fw_port_add, fw_port_del, fw_port_key, is_supported,
  is_supported_type, key_of, ports_added, ports_removed, same_key, stored_ports,
}
use openmptcprouter_vps.Host.{Host, World}
use openmptcprouter_vps.Host.Store.{user_at}
use openmptcprouter_vps.Prelude.{
  Bool-cases, List, Option, String, [], arith, false, filter, holds, if◌then◌else◌, inl, inr, none,
  of_holds, refl, some, subst, true, ◌==◌, ◌∙◌, ◌≡◌, ◌≢◌,
}
use openmptcprouter_vps.Users.Updates.{with_user}

abbrev ports_of : Option UserData → List FwEntry
ports_of none = []
ports_of (some u) = stored_ports u

-- A user's entries; a user that is not there has none.
abbrev pub ports_in : World → String → List FwEntry
ports_in w name = ports_of (user_at w name)

-- The entry that a user has under a key.
abbrev pub port_at : World → String → FwKey → Option FwEntry
port_at w name k = find_key k (ports_in w name)

if_self {ℓ} : {A : Type ℓ} (k : String) (x y : A) → (if k == k then x else y) ≡ x
if_self k x y = ground arith

if_ne {ℓ} : {A : Type ℓ} {k j : String} → k ≢ j → (x y : A) → (if k == j then x else y) ≡ y
if_ne h x y = ground arith

-- A file whose user `username` has the data `u`.
pub record Stores (w : World) (c : Config) (users : List (String × UserData)) (username : String)
    (u : UserData) : Type 0 where
  pub reads : w.config ≡ parsed c
  pub has_users : c.users ≡ some users
  pub known_user : lookup username users ≡ some u

module _ {w : World} {c : Config} {users : List (String × UserData)} {username : String}
    {u : UserData} where
  pub ports_in-Stores : Stores w c users username u → ports_in w username ≡ stored_ports u
  unfolding user_at
  ports_in-Stores s = ground (arith, s.reads, s.has_users, s.known_user)

  -- Writing one user's list changes that user's entries alone.
  pub ports_in-with_ports :
      (w' : World) (l : List FwEntry)
      → Stores w c users username u
      → w'.config ≡ parsed (with_user username (with_ports l u) users c)
      → (name : String) → ports_in w' name ≡ (if username == name then l else ports_in w name)
  unfolding user_at
  ports_in-with_ports w' l s e name =
      ground (arith, s.reads, s.has_users, lookup-insert username name (with_ports l u) users)

module _ (host : Host) (username : String) (p : FwPort) (vpn comment : String) (w : World) where
  abbrev after_add : World
  after_add = (fw_port_add host username p vpn comment w).1

  -- An entry of an unsupported type is ignored.
  pub fw_port_add_unsupported :
      is_supported_type p.fwtype ≡ false → fw_port_add host username p vpn comment w ≡ (ok tt, w)
  unfolding fw_port_add ◌>>=◌
  fw_port_add_unsupported h = ground arith

  module _ (sup : is_supported_type p.fwtype ≡ true) {c : Config} {users : List (String × UserData)}
      {u : UserData} (s : Stores w c users username u) where
    entry-supported : is_supported (entry_of p vpn comment) ≡ true
    unfolding is_supported
    entry-supported = sup

    key-entry : fw_port_key (entry_of p vpn comment) ≡ key_of p
    unfolding fw_port_key
    key-entry = refl

    -- Let the file be valid JSON that holds the user, the type be ACCEPT or DNAT, and the user's
    -- entries have distinct keys. Then after _fw_port_add their keys are still distinct and their
    -- types supported, the new entry stands under its key, every other key has the supported entry
    -- that it had, and the entries of the other users are as before, whatever nft answers.
    pub fw_port_add-refines :
        HasDistinctKeys (ports_in w username)
        → IsValid (ports_in after_add username)
          × ((k : FwKey)
              → port_at after_add username k ≡ (
                  if same_key (key_of p) k
                  then some (entry_of p vpn comment)
                  else find_key k (filter is_supported (ports_in w username))))
          × ((name : String) → username ≢ name → ports_in after_add name ≡ ports_in w name)
    unfolding fw_port_key
    fw_port_add-refines d =
        let l = stored_ports u in
        let e = entry_of p vpn comment in
        let old = ports_in-Stores s in
        let written =
          fw_port_add_writes host username w s.reads s.has_users s.known_user p vpn comment sup in
        let view = ports_in-with_ports after_add (ports_added (key_of p) e l) s written in
        let here : ports_in after_add username ≡ ports_added (key_of p) e l =
          view username ∙ if_self username _ _ in
        let (valid, at_key) =
          ports_added-IsValid e entry-supported l (subst HasDistinctKeys old d) in
        rw (here, old) (valid, at_key, λ name n. view name ∙ if_ne n _ _)

module _ (host : Host) (username : String) (p : FwPort) (w : World) {c : Config}
    {users : List (String × UserData)} {u : UserData} (s : Stores w c users username u) where
  abbrev after_del : World
  after_del = (fw_port_del host username p w).1

  del_unchanged :
      (l : List FwEntry)
      → holds (FwEntries_discrete l (stored_ports u)) ≡ true
      → after_del.config ≡ parsed c
      → (name : String)
      → ports_in after_del name ≡ (if username == name then l else ports_in w name)
  unfolding user_at
  del_unchanged l same e name =
      ground
        (arith, of_holds (FwEntries_discrete l (stored_ports u)) same, s.reads, ports_in-Stores s)

  del_view :
      (name : String)
      → ports_in after_del name
        ≡ (if username == name then ports_removed (key_of p) (stored_ports u) else ports_in w name)
  del_view name =
      let written = fw_port_del_writes host username w s.reads s.has_users s.known_user p in
      let l = ports_removed (key_of p) (stored_ports u) in
      elim (Bool-cases (holds (FwEntries_discrete l (stored_ports u)))) [
        | inl same ↦ del_unchanged l same (rw same at written) name
        | inr new ↦ ports_in-with_ports after_del l s (rw new at written) name
      ]

  -- Let the file be valid JSON that holds the user, and the user's entries have distinct keys. Then
  -- after _fw_port_del their keys are still distinct and their types supported, nothing stands under
  -- the given key, every other key has the supported entry that it had, and the entries of the other
  -- users are as before, whatever nft answers.
  pub fw_port_del-refines :
      HasDistinctKeys (ports_in w username)
      → IsValid (ports_in after_del username)
        × ((k : FwKey)
            → port_at after_del username k ≡ (
                if same_key (key_of p) k
                then none
                else find_key k (filter is_supported (ports_in w username))))
        × ((name : String) → username ≢ name → ports_in after_del name ≡ ports_in w name)
  fw_port_del-refines d =
      let old = ports_in-Stores s in
      let here : ports_in after_del username ≡ ports_removed (key_of p) (stored_ports u) =
        del_view username ∙ if_self username _ _ in
      let (valid, at_key) =
        ports_removed-IsValid (key_of p) (stored_ports u) (subst HasDistinctKeys old d) in
      rw (here, old) (valid, at_key, λ name n. del_view name ∙ if_ne n _ _)
