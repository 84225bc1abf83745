-- ===== src/Mptcp/Safety.antt =====
-- /mptcp does all or nothing.
use openmptcprouter_vps.Exec.{Exec, modify, ok, pure, ◌>>=◌}
use openmptcprouter_vps.Host.Reply.{User, read_only_user}
use openmptcprouter_vps.Mptcp.Applying.{IsDistinct}
use openmptcprouter_vps.Mptcp.Distinct.{all_settings-IsDistinct, is_absolute}
use openmptcprouter_vps.Mptcp.Ending.{
  AsBefore-SameState, MptcpOutcome, SameState-trans, error_not_done, left_alone, reader_not_done,
  transact-MptcpOutcome,
}
use openmptcprouter_vps.Mptcp.Endpoint.{
  custom_cc, has_cc, load_cc, mptcp, nanbbr_parameters, with_parameters,
}
use openmptcprouter_vps.Mptcp.Kernel.{Kernel, Settings}
use openmptcprouter_vps.Mptcp.Modules.{SameState, SameState-refl, nanbbr_parameters_lem}
use openmptcprouter_vps.Mptcp.Names.{is_in}
use openmptcprouter_vps.Mptcp.Request.{MptcpHost, MptcpParams, mptcp_error, refusal}
use openmptcprouter_vps.Prelude.{
  Bool-cases, List, Option, Option-cases, String, [], all, false, fmt, if◌then◌else◌, inl, inr,
  none, refl, some, true, ◌==◌, ◌∷◌, ◌≡◌,
}

pub load_cc_lem :
    (control : String) (s : Settings)
    → ((load_cc control s).0 ≡ ok tt) × SameState s (load_cc control s).1
unfolding load_cc ◌>>=◌
load_cc_lem control s =
    elim (is_in control custom_cc)
      as (λ b.
        let m : Exec Settings Unit =
          if b
          then modify (λ s. record s { modprobed = fmt ("tcp_" ∷ control ∷ []) ∷ s.modprobed })
          else pure tt in
        ((m s).0 ≡ ok tt) × SameState s (m s).1) [
          | true ↦ (refl, record { values = refl; conf = refl; nanbbr_conf = refl })
          | false ↦ (refl, SameState-refl s)
        ]

with_parameters-MptcpOutcome :
    (kernel : Kernel) (host : MptcpHost) (p : MptcpParams) (s k : Settings)
    (answer : Option (List String))
    → SameState s k
    → (nanbbr_parameters host p.congestion_control p.nanbbr_aggressiveness s).0 ≡ ok answer
    → ((ps : List String) → answer ≡ some ps → IsDistinct ps × (all is_absolute ps ≡ true))
    → MptcpOutcome host p s (with_parameters kernel host p answer k)
unfolding with_parameters ◌>>=◌
with_parameters-MptcpOutcome kernel host p s k none same supported paths =
    left_alone _ k (AsBefore-SameState same) (error_not_done _)
with_parameters-MptcpOutcome kernel host p s k (some ps) same supported paths =
    let (loaded, quiet) = load_cc_lem p.congestion_control k in
    let k1 = (load_cc p.congestion_control k).1 in
    let same1 = SameState-trans same quiet in
    let (d, h) = paths ps refl in
    rw loaded (elim (Bool-cases (has_cc (host.available_cc k1.modprobed) p.congestion_control)) [
      | inr missing_cc ↦
          rw missing_cc (left_alone _ k1 (AsBefore-SameState same1) (error_not_done _))
      | inl has ↦ rw has (
          transact-MptcpOutcome kernel host p s k1 ps same1 supported
            (all_settings-IsDistinct host p p.congestion_control ps d h))
    ])

-- On any host with the lock file's directory, for any user and any request, and whatever calls of the
-- kernel and of the file system fail: /mptcp answers, and either the changes are applied as IsApplied
-- says, or the reply is not that and every setting and both files are as before, or the reply says that
-- the rollback is incomplete.
pub mptcp_all_or_nothing :
    (kernel : Kernel) (host : MptcpHost) (p : MptcpParams) (u : User) (s : Settings)
    → host.has_lock ≡ true
    → MptcpOutcome host p s (mptcp kernel host p u s)
unfolding mptcp ◌>>=◌
mptcp_all_or_nothing kernel host p u s lock = elim (Bool-cases (u.permissions == "ro")) [
  | inl reader ↦
      rw reader
        (left_alone read_only_user s (AsBefore-SameState (SameState-refl s)) reader_not_done)
  | inr writer ↦ rw writer (elim (Option-cases (refusal host p)) [
    | inr (reason, wrong) ↦ rw wrong (
        left_alone (mptcp_error reason) s (AsBefore-SameState (SameState-refl s))
          (error_not_done _))
    | inl fine ↦
        let (answer, returned, same, paths) =
          nanbbr_parameters_lem host p.congestion_control p.nanbbr_aggressiveness s in
        simp (fine, lock)
          (rw returned (with_parameters-MptcpOutcome kernel host p s _ answer same returned paths))
  ])
]
