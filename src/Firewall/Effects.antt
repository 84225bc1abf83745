-- ===== src/Firewall/Effects.antt =====
-- What _fw_port_add and _fw_port_del do to the file and to the kernel.
use openmptcprouter_vps.Config.{Config, ConfigFile, FwEntry, UserData, parsed}
use openmptcprouter_vps.Dict.{insert-lookup, lookup}
use openmptcprouter_vps.Exec.{pure, ◌>>=◌}
use openmptcprouter_vps.Exec.Keeps.{Keeps, keeps_rules}
use openmptcprouter_vps.Firewall.Nft.{nft_flush_chain, nft_run}
use openmptcprouter_vps.Firewall.Ports.{
  FwEntries_discrete, FwPort, entry_of, fw_port_add, fw_port_del, has_other_key, is_settled,
  is_supported, is_supported_type, key_of, nft_sync_ports, ports_added, ports_removed, save_ports,
  stored_ports,
}
use openmptcprouter_vps.Host.{Host, World}
use openmptcprouter_vps.Host.Store.{load_config, read_omr_config, users_of}
use openmptcprouter_vps.Prelude.{
  Bool-cases, List, String, [], arith, contains, filter, holds, if◌then◌else◌, inl, inr, some, true,
  ◌++◌, ◌∷◌, ◌≡◌,
}
use openmptcprouter_vps.Users.Changes.{fw_ports_to, modif_config_user, update}
use openmptcprouter_vps.Users.Updates.{modif_config_user_writes, with_user}

-- The file holds `f`.
abbrev Holds : ConfigFile → World → Type 0
Holds f w = w.config ≡ f

read_omr_config-Holds : (f : ConfigFile) → Keeps (Holds f) read_omr_config
unfolding read_omr_config
read_omr_config-Holds f = record { at = λ w h. ground arith }

module _ {f : ConfigFile} (host : Host) where
  nft_run-Holds : (script : String) → Keeps (Holds f) (nft_run host script)
  unfolding nft_run
  nft_run-Holds script = record { at = λ w h. ground arith }

  nft_flush_chain-Holds :
      (chain : String) (lines : List String) → Keeps (Holds f) (nft_flush_chain host chain lines)
  unfolding nft_flush_chain
  nft_flush_chain-Holds chain lines = record { at = λ w h. ground arith }

  -- Syncing the chains never touches the file.
  nft_sync_ports-Holds : Keeps (Holds f) (nft_sync_ports host)
  unfolding nft_sync_ports
  nft_sync_ports-Holds = search (keeps_rules, read_omr_config-Holds, nft_flush_chain-Holds) depth 12

  synced-Holds : Keeps (Holds f) (nft_sync_ports host >>= λ _. pure tt)
  synced-Holds = search (keeps_rules, nft_sync_ports-Holds)

-- The user's data with another list of entries.
abbrev pub with_ports : List FwEntry → UserData → UserData
with_ports l u = record u { fw_ports = some l }

module _ (host : Host) (username : String) (w : World) {c : Config}
    {users : List (String × UserData)} {u : UserData} (reads : w.config ≡ parsed c)
    (has_users : c.users ≡ some users) (known_user : lookup username users ≡ some u) where
  save_ports-config :
      (ports : List FwEntry)
      → (save_ports host username ports w).1.config
        ≡ parsed (with_user username (with_ports ports u) users c)
  unfolding save_ports update
  save_ports-config ports =
      let changes = fw_ports_to ports ∷ [] in
      let writes = modif_config_user_writes username changes w reads has_users known_user in
      rw writes.0 ((synced-Holds host).at (modif_config_user username changes w).1 writes.1)

  settled_unchanged :
      (entry : FwEntry)
      → is_settled entry (stored_ports u) ≡ true
      → with_user username (with_ports (stored_ports u) u) users c ≡ c
  unfolding is_settled contains
  settled_unchanged entry h = ground (arith, insert-lookup username u users)

  -- Adding an entry of a supported type writes the user's list with the entry added, and nothing
  -- else of the file changes, whatever nft answers.
  pub fw_port_add_writes :
      (p : FwPort) (vpn comment : String)
      → is_supported_type p.fwtype ≡ true
      → (fw_port_add host username p vpn comment w).1.config
        ≡ parsed (
            with_user username
              (with_ports (ports_added (key_of p) (entry_of p vpn comment) (stored_ports u)) u)
              users
              c)
  unfolding fw_port_add ports_added load_config users_of ◌>>=◌
  fw_port_add_writes p vpn comment supported =
      elim (Bool-cases (is_settled (entry_of p vpn comment) (stored_ports u))) [
        | inl settled ↦ ground (arith, settled_unchanged (entry_of p vpn comment) settled)
        | inr new ↦ ground (
          arith,
          save_ports-config (
              filter (has_other_key (key_of p)) (filter is_supported (stored_ports u))
              ++ entry_of p vpn comment ∷ []),
        )
      ]

  pub fw_port_del_writes :
      (p : FwPort)
      → (fw_port_del host username p w).1.config ≡ (
          if holds (FwEntries_discrete (ports_removed (key_of p) (stored_ports u)) (stored_ports u))
          then parsed c
          else parsed (
              with_user username
                (with_ports (ports_removed (key_of p) (stored_ports u)) u)
                users
                c))
  unfolding fw_port_del load_config users_of ◌>>=◌
  fw_port_del_writes p =
      ground (arith, save_ports-config (ports_removed (key_of p) (stored_ports u)))
