-- ===== src/Mptcp/Tracking.antt =====
-- During the transaction of /mptcp the old values of all that was begun are at hand.
use openmptcprouter_vps.Dict.{lookup}
use openmptcprouter_vps.Exec.{ok, os_error, raised}
use openmptcprouter_vps.Mptcp.Apply.{Attempt, started}
use openmptcprouter_vps.Mptcp.Kernel.{Kernel, Settings, called, read_setting}
use openmptcprouter_vps.Mptcp.Names.{is_in}
use openmptcprouter_vps.Mptcp.Restoring.{HasOlds}
use openmptcprouter_vps.Prelude.{
  Bool-cases, Option-cases, String, [], ap, arith, false, if◌then◌else◌, inl, inr, refl, some, ◌≡◌,
  ◌⊎◌,
}

-- `s` is how the settings were at first. What was not begun is as it was, and what was begun has its old
-- value among the attempt's.
pub record Tracked (s : Settings) (a : Attempt) : Type 0 where
  pub unbegun :
      (key : String)
      → is_in key a.applied_sysctls ≡ false
      → is_in key a.applied_parameters ≡ false
      → lookup key a.settings.values ≡ lookup key s.values
  pub olds :
      (key value : String) → lookup key a.old_values ≡ some value → lookup key s.values ≡ some value
  pub has_sysctls : HasOlds a.applied_sysctls a.old_values
  pub has_parameters : HasOlds a.applied_parameters a.old_values
  pub conf : (if a.restores_conf then a.old_conf else a.settings.conf) ≡ s.conf
  pub nanbbr_conf :
      (if a.restores_nanbbr then a.old_nanbbr else a.settings.nanbbr_conf) ≡ s.nanbbr_conf

-- Before the first change.
pub record Fresh (s : Settings) (a : Attempt) : Type 0 where
  pub values : a.settings.values ≡ s.values
  pub conf : a.settings.conf ≡ s.conf
  pub nanbbr_conf : a.settings.nanbbr_conf ≡ s.nanbbr_conf
  pub no_sysctls : a.applied_sysctls ≡ []
  pub no_parameters : a.applied_parameters ≡ []
  pub keeps_conf : a.restores_conf ≡ false
  pub keeps_nanbbr : a.restores_nanbbr ≡ false
  pub olds :
      (key value : String) → lookup key a.old_values ≡ some value → lookup key s.values ≡ some value

-- The files' old contents are read.
pub record HasFiles (s : Settings) (a : Attempt) : Type 0 where
  pub old_conf : a.old_conf ≡ s.conf
  pub old_nanbbr : a.old_nanbbr ≡ s.nanbbr_conf

pub Tracked-of_Fresh : {s : Settings} {a : Attempt} → Fresh s a → Tracked s a
Tracked-of_Fresh {s} {a} f = record {
  unbegun = λ key p q. ap (lookup key) f.values;
  olds = f.olds;
  has_sysctls = rw f.no_sysctls tt;
  has_parameters = rw f.no_parameters tt;
  conf = ground (arith, f.keeps_conf, f.conf);
  nanbbr_conf = ground (arith, f.keeps_nanbbr, f.nanbbr_conf);
}

pub started-Fresh : (s : Settings) → Fresh s (started s)
unfolding lookup
started-Fresh s = record {
  values = refl;
  conf = refl;
  nanbbr_conf = refl;
  no_sysctls = refl;
  no_parameters = refl;
  keeps_conf = refl;
  keeps_nanbbr = refl;
  olds = λ key value h. cc;
}

-- read_setting: the value of the setting, or an error; only the count of the calls changes.
pub read_setting_cases :
    (kernel : Kernel) (key : String) (s : Settings)
    → ((value : String) × (lookup key s.values ≡ some value)
        × (read_setting kernel key s ≡ (ok value, called s)))
      ⊎ (read_setting kernel key s ≡ (raised os_error, called s))
unfolding read_setting
read_setting_cases kernel key s = elim (Bool-cases (kernel.reads s.calls key)) [
  | inr broken ↦ inr (ground (arith, broken))
  | inl works ↦ elim (Option-cases (lookup key s.values)) [
    | inl gone ↦ inr (ground (arith, works, gone))
    | inr (value, there) ↦ inl (value, there, ground (arith, works, there))
  ]
]
