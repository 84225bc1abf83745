-- ===== src/Xray/Rollback.antt =====
-- A request that fails changes neither xray-server.json nor the service's own file.
use openmptcprouter_vps.Exec.{Exec, Result, Result-cases, ok, raised, ◌>>=◌}
use openmptcprouter_vps.Firewall.Nft.{nft_flush_chain, nft_run}
use openmptcprouter_vps.Firewall.Ports.{fw_port_add, fw_port_del}
use openmptcprouter_vps.Host.{Host, World}
use openmptcprouter_vps.Host.Reply.{Reply, User, listing, reply}
use openmptcprouter_vps.Host.Store.{read_omr_config}
use openmptcprouter_vps.Prelude.{
  Bool, Option-cases, String, String_discrete, [], ap, arith, false, fmt, inl, inr, ne_of_test,
  refl, some, str, true, ℕ, ◌∷◌, ◌≡◌, ◌≢◌, ◌⊎◌,
}
use openmptcprouter_vps.Xray.Changes.{xray_rpf_remove, xray_rpf_set}
use openmptcprouter_vps.Xray.Data.{XrayData, XrayText}
use openmptcprouter_vps.Xray.Endpoints.{
  Checked, XrayParams, add_checked, checked, rejected, removal_port, rpf_port_entry, with_xray,
  write_then, xray_rpf_add_port, xray_rpf_client_uuid, xray_rpf_del_port, xray_rpf_parameters,
  xray_rpf_redirect, xray_rpf_unredirect,
}
use openmptcprouter_vps.Xray.Write.{
  Outcome, failed_with, finished, nft_sync_xray_rpf, xray_rpf_write,
}

abbrev pub SameFiles : World → World → Type 0
SameFiles before after = (after.xray ≡ before.xray) × (after.config ≡ before.config)

abbrev is_finished : Result Outcome → Bool
is_finished (ok (finished reason)) = true
is_finished (ok (failed_with reason)) = false
is_finished (raised e) = false

done-ne-error : ◌≢◌ {A = String} "done" "error"
unfolding String_discrete
done-ne-error = ne_of_test "done" "error" refl

reply-inj : {a b r s : String} → reply a r ≡ reply b s → a ≡ b
reply-inj e = ap (λ (x : Reply). elim x [ reply a r ↦ a | listing l ↦ "" ]) e

module _ (host : Host) (d : XrayData) (before : XrayText) (w : World)
    (now : w.xray ≡ some before) where
  write-cases :
      (is_finished (xray_rpf_write host d before w).0 ≡ true)
      ⊎ SameFiles w (xray_rpf_write host d before w).1
  unfolding xray_rpf_write nft_sync_xray_rpf nft_flush_chain nft_run ◌>>=◌
  write-cases = ground arith

  write_then-SameFiles :
      (change : Exec World Unit) {reason : String}
      → (write_then host d before change w).0 ≡ ok (reply "error" reason)
      → SameFiles w (write_then host d before change w).1
  unfolding write_then ◌>>=◌
  write_then-SameFiles change h = elim write-cases [
    | inl worked ↦ absurd (ground (arith, worked, done-ne-error))
    | inr same ↦ ground (arith, same, done-ne-error)
  ]

Checked-cases :
    (c : Checked)
    → ((reason : String) × (c ≡ rejected reason))
      ⊎ ((port : ℕ) × (target : String) × (target_port : ℕ) × (c ≡ checked port target target_port))
Checked-cases (rejected reason) = inl (reason, refl)
Checked-cases (checked port target target_port) = inr (port, target, target_port, refl)

uuid-reads :
    (host : Host) (username : String) (d : XrayData) (w : World)
    → (xray_rpf_client_uuid host username d w).1 ≡ w
unfolding xray_rpf_client_uuid read_omr_config ◌>>=◌
uuid-reads host username d w = ground arith

module _ (host : Host) (username : String) (p : XrayParams) (before : XrayText) (w : World)
    (now : w.xray ≡ some before) {reason : String} where
  add_checked-SameFiles :
      (port : ℕ) (target : String) (target_port : ℕ) (client_uuid : String)
      → (add_checked host username before port target target_port client_uuid w).0
        ≡ ok (reply "error" reason)
      → SameFiles w (add_checked host username before port target target_port client_uuid w).1
  unfolding add_checked ◌>>=◌
  add_checked-SameFiles port target target_port client_uuid h =
      let change =
        fw_port_add host username (rpf_port_entry port) "default"
          (fmt (" --- XRay RPF to " ∷ target ∷ ":" ∷ str target_port ∷ [])) in
      elim (Result-cases
        (xray_rpf_set before.content username port target target_port client_uuid)) [
          | inl (e, clash) ↦ ground (arith, clash)
          | inr (d, set) ↦
              ground (arith, set, write_then-SameFiles host d before w now change {reason = reason})
        ]

  add_port-SameFiles :
      (xray_rpf_add_port host username p before w).0 ≡ ok (reply "error" reason)
      → SameFiles w (xray_rpf_add_port host username p before w).1
  unfolding xray_rpf_add_port ◌>>=◌
  add_port-SameFiles h = elim (Checked-cases (xray_rpf_parameters host p)) [
    | inl (why, bad) ↦ ground (arith, bad)
    | inr (port, target, target_port, good) ↦
        elim (Result-cases (xray_rpf_client_uuid host username before.content w).0) [
          | inl (e, no_file) ↦
              ground (arith, good, no_file, uuid-reads host username before.content w)
          | inr (client_uuid, known) ↦ ground (
            arith,
            good,
            known,
            uuid-reads host username before.content w,
            add_checked-SameFiles port target target_port client_uuid,
          )
        ]
  ]

  del_port-SameFiles :
      (xray_rpf_del_port host username p before w).0 ≡ ok (reply "error" reason)
      → SameFiles w (xray_rpf_del_port host username p before w).1
  unfolding xray_rpf_del_port ◌>>=◌
  del_port-SameFiles h = elim (Option-cases (removal_port p)) [
    | inl bad ↦ ground arith
    | inr (port, good) ↦
        let d = (xray_rpf_remove before.content username port).0 in
        ground (
          arith,
          good,
          write_then-SameFiles host d before w now (fw_port_del host username (rpf_port_entry port))
              {reason = reason},
        )
  ]

-- If /xrayrpfredirect answers with an error, whatever the reason (a bad port or target, no id, a port in
-- use, a configuration that XRay rejects, a restart that fails), then xray-server.json has the text it
-- had before, and so has the service's own file: no port is opened. The same holds of /xrayrpfunredirect.
pub xray_rpf-SameFiles :
    (host : Host) (user : User) (p : XrayParams) (w : World) (reason : String)
    → ((xray_rpf_redirect host user p w).0 ≡ ok (reply "error" reason)
        → SameFiles w (xray_rpf_redirect host user p w).1)
      × ((xray_rpf_unredirect host user p w).0 ≡ ok (reply "error" reason)
          → SameFiles w (xray_rpf_unredirect host user p w).1)
unfolding xray_rpf_redirect xray_rpf_unredirect with_xray ◌>>=◌
xray_rpf-SameFiles host user p w reason = elim (Option-cases w.xray) [
  | inl absent ↦ (λ h. ground arith, λ h. ground arith)
  | inr (before, now) ↦ (
    λ h.
        ground (arith, now, add_port-SameFiles host user.username p before w now {reason = reason}),
    λ h.
        ground (arith, now, del_port-SameFiles host user.username p before w now {reason = reason}),
  )
]
