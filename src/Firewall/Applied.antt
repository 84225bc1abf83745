-- ===== src/Firewall/Applied.antt =====
-- The kernel follows the file: after a change of the ports, the chains that nft took last are the ones
-- rendered from what the file then holds.
use openmptcprouter_vps.Config.{Config, FwEntry, UserData, is_truthy, users_or_empty}
use openmptcprouter_vps.Exec.{ok, ◌>>=◌}
use openmptcprouter_vps.Firewall.Closing.{NumericIds-insert}
use openmptcprouter_vps.Firewall.Effects.{with_ports}
use openmptcprouter_vps.Firewall.Kernel.{nft_sync_ports_scripts}
use openmptcprouter_vps.Firewall.Nft.{chain_script, nft_flush_chain, nft_run}
use openmptcprouter_vps.Firewall.Numeric.{NumericIds, NumericIds-lookup, render_returns}
use openmptcprouter_vps.Firewall.Ports.{
  FwPort, entry_of, fw_port_add, has_other_key, is_settled, is_supported, is_supported_type, key_of,
  nft_sync_ports, save_ports, stored_ports,
}
use openmptcprouter_vps.Firewall.Rules.{Rules, render_bulk_redirect, render_fw_ports}
use openmptcprouter_vps.Firewall.Views.{Stores}
use openmptcprouter_vps.Host.{Host, World, exited}
use openmptcprouter_vps.Host.Store.{load_config, readable, users_of}
use openmptcprouter_vps.Prelude.{
  List, String, [], ap, arith, false, filter, length, refl, some, subst, sym, true, ℕ, ◌++◌, ◌∷◌,
  ◌≡◌,
}
use openmptcprouter_vps.Users.Changes.{fw_ports_to, modif_config_user, update}
use openmptcprouter_vps.Users.Updates.{modif_config_user_writes, with_user}

-- nft is installed and takes every script.
abbrev pub TakesAll : Host → Type 0
TakesAll host = (n : ℕ) (script : String) → host.nft n script ≡ exited 0

-- The last two scripts are the accept chain and then the dnat chain of the stored configuration.
pub record IsApplied (w : World) : Type 0 where
  pub stored : Config
  pub rules : Rules
  pub bulk : List String
  pub older : List String
  pub reads : readable w.config ≡ some stored
  pub rendered : render_fw_ports stored ≡ ok rules
  pub redirected : render_bulk_redirect stored ≡ ok bulk
  pub scripts :
      w.nft_log
      ≡ chain_script "user_dnat" (bulk ++ rules.1) ∷ chain_script "user_accept" rules.0 ∷ older

flush_taken :
    (host : Host) (chain : String) (lines : List String) (w : World)
    → TakesAll host
    → nft_flush_chain host chain lines w
      ≡ (ok true, record w { nft_log = chain_script chain lines ∷ w.nft_log })
unfolding nft_flush_chain nft_run
flush_taken host chain lines w takes =
    ground (arith, takes (length w.nft_log) (chain_script chain lines))

sync-IsApplied :
    (host : Host) (w : World) {c : Config}
    → TakesAll host
    → readable w.config ≡ some c
    → is_truthy c ≡ true
    → NumericIds (users_or_empty c)
    → ((nft_sync_ports host w).0 ≡ ok true) × IsApplied (nft_sync_ports host w).1
sync-IsApplied host w {c} takes reads full numeric =
    let ((rules, r), (bulk, b)) = render_returns c numeric in
    let run = nft_sync_ports_scripts host w reads full r b in
    let w1 : World = record w { nft_log = chain_script "user_accept" rules.0 ∷ w.nft_log } in
    let w2 : World = record w1 {
      nft_log = chain_script "user_dnat" (bulk ++ rules.1) ∷ w1.nft_log;
    } in
    let all : nft_sync_ports host w ≡ (ok true, w2) = ground (
      arith,
      run,
      flush_taken host "user_accept" rules.0 w takes,
      flush_taken host "user_dnat" (bulk ++ rules.1) w1 takes,
    ) in
    (
      ap (λ r. r.0) all,
      subst IsApplied (sym (ap (λ r. r.1) all)) (record {
        stored = c;
        rules = rules;
        bulk = bulk;
        older = w.nft_log;
        reads = reads;
        rendered = r;
        redirected = b;
        scripts = refl;
      }),
    )

module _ (host : Host) (username : String) (w : World) {c : Config}
    {users : List (String × UserData)} {u : UserData} (s : Stores w c users username u)
    (takes : TakesAll host) (numeric : NumericIds users) where
  save_ports-IsApplied : (ports : List FwEntry) → IsApplied (save_ports host username ports w).1
  unfolding save_ports update
  save_ports-IsApplied ports =
      let changes = fw_ports_to ports ∷ [] in
      let (done, stored, log) =
        modif_config_user_writes username changes w s.reads s.has_users s.known_user in
      let w1 = (modif_config_user username changes w).1 in
      let (returned, in_kernel) =
        sync-IsApplied host w1 {c = with_user username (with_ports ports u) users c} takes
          (ap readable stored) refl
          (NumericIds-insert username (with_ports ports u) users numeric
            (NumericIds-lookup username users numeric s.known_user)) in
      rw (done, returned) in_kernel

  -- On valid JSON that holds the user, where no user id is a text, and with an nft that takes every
  -- script: after _fw_port_add of a type ACCEPT or DNAT that changed the list, the chains that nft took
  -- last are exactly those rendered from the file.
  pub fw_port_add-IsApplied :
      (p : FwPort) (vpn comment : String)
      → is_supported_type p.fwtype ≡ true
      → is_settled (entry_of p vpn comment) (stored_ports u) ≡ false
      → IsApplied (fw_port_add host username p vpn comment w).1
  unfolding fw_port_add load_config users_of ◌>>=◌
  fw_port_add-IsApplied p vpn comment supported new =
      let ports =
        filter (has_other_key (key_of p)) (filter is_supported (stored_ports u))
        ++ entry_of p vpn comment ∷ [] in
      let same : (fw_port_add host username p vpn comment w).1
          ≡ (save_ports host username ports w).1 =
        ground (arith, supported, new, s.reads, s.has_users, s.known_user) in
      subst IsApplied (sym same) (save_ports-IsApplied ports)
