-- ===== src/Dscp/Replay.antt =====
-- The replay of a pushed classification after an nftables restart.
use openmptcprouter_vps.Config.{Config, ConfigFile, DscpEntry, classify, is_truthy}
use openmptcprouter_vps.Dict.{lookup-insert_self}
use openmptcprouter_vps.Dscp.Classes.{classify_classes, is_classify_class}
use openmptcprouter_vps.Dscp.Classify.{
  ByClass, append_net, classify_entry, classify_strict, declared_sets, dscp_classify,
  dscp_classify_by_class, nft_apply_dscp_classify, nft_ensure_dscp_sets, nft_refresh_dscp_set,
  nft_resync_dscp_classify, nft_sync_dscp_mark, no_entries, refresh_script, refresh_sets,
}
use openmptcprouter_vps.Exec.{pure, ◌>>=◌}
use openmptcprouter_vps.Exec.Keeps.{Keeps, Keeps-bind, Keeps-pure, keeps_rules}
use openmptcprouter_vps.Firewall.Nft.{config-nft_run, nft_flush_chain, nft_run}
use openmptcprouter_vps.Host.{Host, World}
use openmptcprouter_vps.Host.Reply.{User, changes_applied}
use openmptcprouter_vps.Host.Store.{read_omr_config, readable}
use openmptcprouter_vps.Prelude.{
  Bool-cases, List, Option-cases, String, [], ap, arith, inl, inr, refl, some, true, ◌∙◌, ◌∷◌, ◌≡◌,
  ◌≢◌,
}
use openmptcprouter_vps.Users.Changes.{set_global_param}
use openmptcprouter_vps.Users.Params.{is_truthy-with_param, set_global_param_writes, with_param}

-- On entries that the endpoint accepts, the lenient reading of the replay gives the same classes.
by_class-strict :
    (host : Host) (entries : List DscpEntry) (m : ByClass) {m' : ByClass}
    → classify_strict host entries m ≡ some m'
    → dscp_classify_by_class host entries m ≡ m'
unfolding classify_strict dscp_classify_by_class classify_entry
by_class-strict host [] m h = cc
by_class-strict host (entry ∷ entries) m {m'} h = elim (Bool-cases (is_classify_class entry.dscp)) [
  | inl known ↦ elim (Option-cases (host.ip_network entry.cidr)) [
    | inl bad ↦ ground arith
    | inr (net, good) ↦
        rw (known, good)
          (by_class-strict host entries (append_net entry.dscp net.0 net.1 m)
            (rw (known, good) at h))
  ]
  | inr unknown ↦ ground arith
]

-- The file holds `f`.
abbrev FileIs : ConfigFile → World → Type 0
FileIs f w = w.config ≡ f

module _ {f : ConfigFile} (host : Host) where
  nft_run-FileIs : (script : String) → Keeps (FileIs f) (nft_run host script)
  nft_run-FileIs script = record { at = λ w h. config-nft_run host script w ∙ h }

  nft_refresh-FileIs :
      (dscp family : String) (cidrs : List String)
      → Keeps (FileIs f) (nft_refresh_dscp_set host dscp family cidrs)
  unfolding nft_refresh_dscp_set
  nft_refresh-FileIs dscp family cidrs = nft_run-FileIs (refresh_script dscp family cidrs)

  ruleset file_rules = (keeps_rules, nft_run-FileIs, nft_refresh-FileIs)

  refresh_sets-FileIs : (m : ByClass) → Keeps (FileIs f) (refresh_sets host m)
  unfolding refresh_sets
  refresh_sets-FileIs [] = search keeps_rules
  refresh_sets-FileIs ((dscp, family) ∷ m) =
      Keeps-bind (nft_refresh-FileIs dscp "4" family.v4)
        (λ _. Keeps-bind (nft_refresh-FileIs dscp "6" family.v6) (λ _. refresh_sets-FileIs m))

  nft_apply-FileIs : (m : ByClass) → Keeps (FileIs f) (nft_apply_dscp_classify host m)
  unfolding nft_apply_dscp_classify nft_ensure_dscp_sets nft_sync_dscp_mark nft_flush_chain
  nft_apply-FileIs m = Keeps-bind (nft_run-FileIs (declared_sets classify_classes)) (λ _.
      Keeps-bind (refresh_sets-FileIs m) (λ _. Keeps-bind (nft_run-FileIs _) (λ _. Keeps-pure tt)))

abbrev with_entries : List DscpEntry → Config → Config
with_entries entries = with_param "dscp_classify" (classify entries)

rest-FileIs :
    {f : ConfigFile} (host : Host) (m : ByClass)
    → Keeps (FileIs f) (nft_apply_dscp_classify host m >>= λ _. pure changes_applied)
rest-FileIs host m = Keeps-bind (nft_apply-FileIs host m) (λ _. Keeps-pure changes_applied)

module _ (host : Host) (entries : List DscpEntry) (c : Config) {m : ByClass}
    (accepted : classify_strict host entries no_entries ≡ some m) where
  push_stored :
      (user : User) (w : World)
      → readable w.config ≡ some c
      → is_truthy c ≡ true
      → user.permissions ≢ "ro"
      → host.nft_present ≡ true
      → readable (dscp_classify host user entries w).1.config ≡ some (with_entries entries c)
  unfolding dscp_classify ◌>>=◌
  push_stored user w reads full may nft =
      let value = classify entries in
      let (ok_set, stored) = set_global_param_writes "dscp_classify" value w reads full in
      let w1 = (set_global_param "dscp_classify" value w).1 in
      let kept = (rest-FileIs host m).at w1 refl in ground (arith, accepted, ok_set, stored, kept)

  replay_applies :
      (v : World)
      → readable v.config ≡ some (with_entries entries c)
      → nft_resync_dscp_classify host v ≡ nft_apply_dscp_classify host m v
  unfolding nft_resync_dscp_classify read_omr_config ◌>>=◌
  replay_applies v stored = ground (
    arith,
    is_truthy-with_param "dscp_classify" (classify entries) c,
    lookup-insert_self "dscp_classify" (classify entries) c.globals,
    by_class-strict host entries no_entries accepted,
  )

-- Let a user who may write push entries that all validate, with a readable file that is not empty and
-- nft installed. Then a later resync, in any state of the host with the file that the push left,
-- applies to the sets exactly the classes of the pushed entries.
pub dscp_classify-resync :
    (host : Host) (user : User) (entries : List DscpEntry) (w : World) {c : Config} {m : ByClass}
    → readable w.config ≡ some c
    → is_truthy c ≡ true
    → user.permissions ≢ "ro"
    → host.nft_present ≡ true
    → classify_strict host entries no_entries ≡ some m
    → (v : World) → v.config ≡ (dscp_classify host user entries w).1.config
    → nft_resync_dscp_classify host v ≡ nft_apply_dscp_classify host m v
dscp_classify-resync host user entries w {c} reads full may nft accepted v same =
    replay_applies host entries c accepted v
      (ap readable same ∙ push_stored host entries c accepted user w reads full may nft)
