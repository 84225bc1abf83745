-- ===== src/Mptcp/Repair.antt =====
-- The repair at the start of the service is made once.
use openmptcprouter_vps.Mptcp.Names.{kernel_stays, path_manager_cases, strip_prefix}
use openmptcprouter_vps.Mptcp.Persisted.{
  SysctlState, first_value, left_strip, normalize_persisted_mptcp_path_manager, pm_key, repair,
  rewritten, right_strip, strip, value_in,
}
use openmptcprouter_vps.Prelude.{
  Bool, List, Option-cases, String, String_discrete, [], ap, arith, false, if◌then◌else◌, inl, inr,
  is_some, none, refl, some, true, ◌∷◌, ◌≡◌,
}

fixed_line : value_in pm_key "net.mptcp.path_manager=kernel" ≡ some "kernel"
unfolding value_in strip left_strip right_strip strip_prefix String_discrete
fixed_line = refl

kernel_stripped : strip "kernel" ≡ "kernel"
unfolding strip left_strip right_strip String_discrete
kernel_stripped = refl

rewritten_other :
    (line : String)
    → value_in pm_key line ≡ none
    → value_in pm_key
        (if is_some (value_in pm_key line) then "net.mptcp.path_manager=kernel" else line)
      ≡ none
rewritten_other line h = rw h h

rewritten_here :
    (line v : String)
    → value_in pm_key line ≡ some v
    → value_in pm_key
        (if is_some (value_in pm_key line) then "net.mptcp.path_manager=kernel" else line)
      ≡ some "kernel"
rewritten_here line v h = rw h fixed_line

first_value-rewritten :
    (lines : List String) (value : String)
    → first_value pm_key lines ≡ some value
    → first_value pm_key (rewritten pm_key "kernel" lines) ≡ some "kernel"
unfolding first_value rewritten
first_value-rewritten [] value h = cc
first_value-rewritten (line ∷ lines) value h = elim (Option-cases (value_in pm_key line)) [
  | inl other ↦
      rw (first_value, rewritten_other line other)
        (first_value-rewritten lines value (rw (first_value, other) at h))
  | inr (v, here) ↦ rw (first_value, rewritten_here line v here) (ap (λ s. some s) kernel_stripped)
]

-- A second repair at once after the first changes nothing: no write and no sysctl run, whatever path
-- managers the kernel advertises.
pub persisted_idem :
    (supported : Bool) (available : List String) (w : SysctlState)
    → normalize_persisted_mptcp_path_manager supported available
        (normalize_persisted_mptcp_path_manager supported available w)
      ≡ normalize_persisted_mptcp_path_manager supported available w
unfolding normalize_persisted_mptcp_path_manager repair
persisted_idem false available w = elim (Option-cases w.conf) [
  | inl absent ↦ ground (arith, absent)
  | inr (lines, present) ↦ ground (arith, present)
]
persisted_idem true available w = elim (Option-cases w.conf) [
  | inl absent ↦ ground (arith, absent)
  | inr (lines, present) ↦ elim (Option-cases (first_value pm_key lines)) [
    | inl no_line ↦ ground (arith, present, no_line)
    | inr (value, line) ↦ ground (
      arith,
      present,
      line,
      path_manager_cases available value,
      kernel_stays available,
      first_value-rewritten lines value line,
    )
  ]
]
