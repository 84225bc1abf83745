-- ===== src/Mptcp/Restores.antt =====
-- The rollback of /mptcp puts everything back.
use openmptcprouter_vps.Dict.{lookup}
use openmptcprouter_vps.Exec.{Result, ok, ◌>>=◌}
use openmptcprouter_vps.Mptcp.Apply.{Attempt}
use openmptcprouter_vps.Mptcp.FilesBack.{restore_conf-ConfBack, restore_nanbbr-NanbbrBack}
use openmptcprouter_vps.Mptcp.Kernel.{Kernel, Settings}
use openmptcprouter_vps.Mptcp.Names.{is_in}
use openmptcprouter_vps.Mptcp.Restoring.{HasOlds, Restored, restore_settings-Restored}
use openmptcprouter_vps.Mptcp.Rollback.{restore_conf, restore_nanbbr, restore_settings, rollback}
use openmptcprouter_vps.Mptcp.Tracking.{Tracked}
use openmptcprouter_vps.Prelude.{
  Bool, Bool-cases, List, Option-cases, String, String_discrete, [], ap, arith, contains, false,
  inl, inr, refl, subst, sym, true, ◌||◌, ◌∙◌, ◌∷◌, ◌≡◌,
}

-- Every setting, and both files, as in `s`.
pub record AsBefore (s h : Settings) : Type 0 where
  pub values : (key : String) → lookup key h.values ≡ lookup key s.values
  pub conf : h.conf ≡ s.conf
  pub nanbbr_conf : h.nanbbr_conf ≡ s.nanbbr_conf

old_is_first :
    {s : Settings} {a : Attempt} (ks : List String) (key : String)
    → Tracked s a
    → HasOlds ks a.old_values
    → is_in key ks ≡ true
    → lookup key a.old_values ≡ lookup key s.values
unfolding contains
old_is_first [] key t h m = cc
old_is_first {s} {a} (k ∷ ks) key t h m = elim (String_discrete k key) [
  | no n ↦ old_is_first ks key t h.1 (ground (arith, m, n))
  | yes e ↦ elim (Option-cases (lookup key a.old_values)) [
    | inl gone ↦ absurd (ground (arith, h.0, e, gone))
    | inr (v, there) ↦ there ∙ sym (t.olds key v there)
  ]
]

values_back :
    {s : Settings} {a : Attempt} {o1 o2 : Result Bool × Attempt} (t : Tracked s a)
    (one : Restored a.applied_sysctls a o1) (two : Restored o1.1.applied_parameters o1.1 o2)
    (key : String)
    → one.incomplete ≡ false
    → two.incomplete ≡ false
    → lookup key o2.1.settings.values ≡ lookup key s.values
values_back {s} {a} {o1} {o2} t one two key r1 r2 =
    elim (Bool-cases (is_in key o1.1.applied_parameters)) [
      | inl m ↦
          two.back r2 key m
          ∙ ap (lookup key) one.same.old_values
          ∙ old_is_first a.applied_parameters key t t.has_parameters
              (rw (← one.same.applied_parameters) m)
      | inr n ↦ two.untouched key n ∙ elim (Bool-cases (is_in key a.applied_sysctls)) [
        | inl m ↦ one.back r1 key m ∙ old_is_first a.applied_sysctls key t t.has_sysctls m
        | inr n1 ↦ one.untouched key n1 ∙ t.unbegun key n1 (rw (← one.same.applied_parameters) n)
      ]
    ]

-- The rollback returns, and without an error everything is as before the transaction.
pub rollback_restores :
    (kernel : Kernel) (s : Settings) (a : Attempt)
    → Tracked s a
    → (incomplete : Bool) × ((rollback kernel a).0 ≡ ok incomplete)
      × (incomplete ≡ false → AsBefore s (rollback kernel a).1.settings)
unfolding rollback ◌>>=◌
rollback_restores kernel s a t =
    let one = restore_settings-Restored kernel a.applied_sysctls a t.has_sysctls in
    let a1 = (restore_settings kernel a.applied_sysctls a).1 in
    let two =
      restore_settings-Restored kernel a1.applied_parameters a1
        (rw (one.same.applied_parameters, one.same.old_values) t.has_parameters) in
    let a2 = (restore_settings kernel a1.applied_parameters a1).1 in
    let three = restore_conf-ConfBack kernel a2 in
    let a3 = (restore_conf kernel a2).1 in
    let four = restore_nanbbr-NanbbrBack kernel a3 in
    let a4 = (restore_nanbbr kernel a3).1 in
    let all : rollback kernel a
        ≡ (ok (one.incomplete || two.incomplete || three.wrong || four.wrong), a4) =
      rw (one.returns, two.returns, three.returned, four.returned) refl in
    (
      one.incomplete || two.incomplete || three.wrong || four.wrong,
      ap (λ r. r.0) all,
      λ right. subst (AsBefore s) (sym (ap (λ o. o.1.settings) all)) (record {
        values = λ key.
            let above = ap (lookup key) (four.values ∙ three.values) in
            above ∙ values_back t one two key (ground (arith, right)) (ground (arith, right));
        conf =
            four.conf
            ∙ three.back (ground (arith, right))
            ∙ ground (arith, t.conf, one.same, two.same);
        nanbbr_conf =
            four.back (ground (arith, right))
            ∙ ground (
              arith, t.nanbbr_conf, one.same, two.same, three.nanbbr_conf, three.old_nanbbr,
              three.restores_nanbbr,
            );
      }),
    )
