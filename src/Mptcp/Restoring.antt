-- ===== src/Mptcp/Restoring.antt =====
-- What the rollback of settings does: without an error, each setting has its old value again.
use openmptcprouter_vps.Dict.{lookup}
use openmptcprouter_vps.Exec.{Result, ok, ◌>>=◌}
use openmptcprouter_vps.Mptcp.Apply.{Attempt, on_host}
use openmptcprouter_vps.Mptcp.Changes.{change_setting-Changed}
use openmptcprouter_vps.Mptcp.Kernel.{Kernel, change_setting, fails}
use openmptcprouter_vps.Mptcp.Names.{is_in}
use openmptcprouter_vps.Mptcp.Rollback.{restore_setting, restore_settings}
use openmptcprouter_vps.Prelude.{
  All, Bool, Bool-cases, List, Option-cases, String, String_discrete, [], ap, arith, contains,
  false, inl, inr, is_some, refl, some, sym, true, ◌||◌, ◌∙◌, ◌∷◌, ◌≡◌,
}

-- What no step on a setting changes in an attempt.
pub record SameRest (a b : Attempt) : Type 0 where
  pub old_values : b.old_values ≡ a.old_values
  pub old_conf : b.old_conf ≡ a.old_conf
  pub old_nanbbr : b.old_nanbbr ≡ a.old_nanbbr
  pub restores_conf : b.restores_conf ≡ a.restores_conf
  pub restores_nanbbr : b.restores_nanbbr ≡ a.restores_nanbbr
  pub applied_parameters : b.applied_parameters ≡ a.applied_parameters
  pub conf : b.settings.conf ≡ a.settings.conf
  pub nanbbr_conf : b.settings.nanbbr_conf ≡ a.settings.nanbbr_conf

-- `keys` were put back from `a`; the rest is untouched.
pub record Restored (ks : List String) (a : Attempt) (out : Result Bool × Attempt) : Type 0 where
  pub incomplete : Bool
  pub returns : out.0 ≡ ok incomplete
  pub same : SameRest a out.1
  pub untouched :
      (key : String)
      → is_in key ks ≡ false
      → lookup key out.1.settings.values ≡ lookup key a.settings.values
  pub back :
      incomplete ≡ false
      → (key : String) → is_in key ks ≡ true
      → lookup key out.1.settings.values ≡ lookup key a.old_values

-- Each of the keys has an old value.
abbrev pub HasOlds : List String → List (String × String) → Type 0
HasOlds ks olds = All (λ key. is_some (lookup key olds) ≡ true) ks

-- The answer is whether the change worked.
restore_setting_returns :
    (kernel : Kernel) (key old : String) (a : Attempt)
    → lookup key a.old_values ≡ some old
    → (wrong : Bool) × (restore_setting kernel key a
        ≡ (ok wrong, record a { settings = (change_setting kernel key old a.settings).1 }))
      × (wrong ≡ false → lookup key (change_setting kernel key old a.settings).1.values ≡ some old)
unfolding restore_setting on_host fails ◌>>=◌
restore_setting_returns kernel key old a there =
    elim ((change_setting-Changed kernel key old a.settings).outcome) [
      | inl (done, value) ↦ (false, ground (arith, there, done), λ e. value)
      | inr broken ↦ (true, ground (arith, there, broken), λ e. cc)
    ]

restore_setting-Restored :
    (kernel : Kernel) (key : String) (a : Attempt)
    → is_some (lookup key a.old_values) ≡ true
    → Restored (key ∷ []) a (restore_setting kernel key a)
unfolding contains
restore_setting-Restored kernel key a h = elim (Option-cases (lookup key a.old_values)) [
  | inl gone ↦ absurd (ground (arith, h, gone))
  | inr (old, there) ↦
      let c = change_setting-Changed kernel key old a.settings in
      let (wrong, e, value) = restore_setting_returns kernel key old a there in
      rw e (record {
        incomplete = wrong;
        returns = refl;
        same = record {
          old_values = refl;
          old_conf = refl;
          old_nanbbr = refl;
          restores_conf = refl;
          restores_nanbbr = refl;
          applied_parameters = refl;
          conf = c.conf;
          nanbbr_conf = c.nanbbr_conf;
        };
        untouched = λ other n. c.others other (ground (arith, n));
        back = λ right other m. elim (String_discrete key other) [
          | yes p ↦ rw (← p) (value right ∙ sym there)
          | no n ↦ absurd (ground (arith, m, n))
        ];
      })
]

SameRest-trans : {a b c : Attempt} → SameRest a b → SameRest b c → SameRest a c
SameRest-trans p q = record {
  old_values = q.old_values ∙ p.old_values;
  old_conf = q.old_conf ∙ p.old_conf;
  old_nanbbr = q.old_nanbbr ∙ p.old_nanbbr;
  restores_conf = q.restores_conf ∙ p.restores_conf;
  restores_nanbbr = q.restores_nanbbr ∙ p.restores_nanbbr;
  applied_parameters = q.applied_parameters ∙ p.applied_parameters;
  conf = q.conf ∙ p.conf;
  nanbbr_conf = q.nanbbr_conf ∙ p.nanbbr_conf;
}

pub restore_settings-Restored :
    (kernel : Kernel) (ks : List String) (a : Attempt)
    → HasOlds ks a.old_values
    → Restored ks a (restore_settings kernel ks a)
unfolding restore_settings contains ◌>>=◌
restore_settings-Restored kernel [] a h = record {
  incomplete = false;
  returns = refl;
  same = record {
    old_values = refl;
    old_conf = refl;
    old_nanbbr = refl;
    restores_conf = refl;
    restores_nanbbr = refl;
    applied_parameters = refl;
    conf = refl;
    nanbbr_conf = refl;
  };
  untouched = λ key n. refl;
  back = λ right key m. cc;
}
restore_settings-Restored kernel (key ∷ ks) a h =
    let one = restore_setting-Restored kernel key a h.0 in
    let b = (restore_setting kernel key a).1 in
    let more = restore_settings-Restored kernel ks b (rw one.same.old_values h.1) in
    let b2 = (restore_settings kernel ks b).1 in
    let all : restore_settings kernel (key ∷ ks) a ≡ (ok (one.incomplete || more.incomplete), b2) =
      rw (one.returns, more.returns) refl in
    rw all (record {
      incomplete = one.incomplete || more.incomplete;
      returns = refl;
      same = SameRest-trans one.same more.same;
      untouched = λ other n. ground (arith, n, one.untouched other, more.untouched other);
      back = λ right other m. elim (Bool-cases (is_in other ks)) [
        | inl later ↦
            more.back (ground (arith, right)) other later ∙ ap (lookup other) one.same.old_values
        | inr never ↦
            more.untouched other never
            ∙ one.back (ground (arith, right)) other (ground (arith, m, never))
      ];
    })
