-- ===== src/Mptcp/Changes.antt =====
-- What one write with its read-back does to the settings.
use openmptcprouter_vps.Dict.{insert, lookup, lookup-insert, lookup-insert_self}
use openmptcprouter_vps.Exec.{Result, ok, os_error, raised, ◌>>=◌}
use openmptcprouter_vps.Mptcp.Kernel.{Kernel, Settings, change_setting, read_setting, write_setting}
use openmptcprouter_vps.Prelude.{
  Bool-cases, Option-cases, String, String_discrete, arith, false, holds_self, inl, inr, refl, some,
  ℕ, ◌+◌, ◌==◌, ◌≡◌, ◌⊎◌,
}

-- Setting `key` to `value`: the other settings and the files stay, and if the call returns, the setting
-- has the value; otherwise the error is one that the transaction catches.
pub record Changed (key value : String) (s : Settings) (out : Result (Unit {0}) × Settings)
    : Type 0 where
  pub others :
      (other : String) → (key == other) ≡ false → lookup other out.1.values ≡ lookup other s.values
  pub conf : out.1.conf ≡ s.conf
  pub nanbbr_conf : out.1.nanbbr_conf ≡ s.nanbbr_conf
  pub outcome :
      ((out.0 ≡ ok tt) × (lookup key out.1.values ≡ some value)) ⊎ (out.0 ≡ raised os_error)

-- The three ways in which it ends.
change_cases :
    (kernel : Kernel) (key value : String) (s : Settings)
    → ((n : ℕ) × (change_setting kernel key value s ≡ (raised os_error, record s { calls = n })))
      ⊎ ((n : ℕ) × (stored : String) × (change_setting kernel key value s
            ≡ (raised os_error, record s { calls = n; values = insert key stored s.values })))
      ⊎ ((n : ℕ) × (change_setting kernel key value s
            ≡ (ok tt, record s { calls = n; values = insert key value s.values })))
unfolding change_setting write_setting read_setting ◌>>=◌
change_cases kernel key value s = elim (Option-cases (lookup key s.values)) [
  | inl gone ↦ inl (s.calls + 1, ground (arith, gone))
  | inr (old, there) ↦ elim (Option-cases (kernel.stores s.calls key value)) [
    | inl not_taken ↦ inl (s.calls + 1, ground (arith, there, not_taken))
    | inr (stored, taken) ↦
        let here = lookup-insert_self key stored s.values in
        elim (Bool-cases (kernel.reads (s.calls + 1) key)) [
          | inr broken ↦ inr (inl (s.calls + 2, stored, ground (arith, there, taken, broken)))
          | inl works ↦ elim (String_discrete stored value) [
            | yes e ↦ inr (
                inr (
                  s.calls + 2,
                  ground (
                    arith,
                    there,
                    taken,
                    works,
                    here,
                    e,
                    holds_self (String_discrete value value),
                  ),
                ))
            | no n ↦ inr (inl (s.calls + 2, stored, ground (arith, there, taken, works, here, n)))
          ]
        ]
  ]
]

pub change_setting-Changed :
    (kernel : Kernel) (key value : String) (s : Settings)
    → Changed key value s (change_setting kernel key value s)
change_setting-Changed kernel key value s =
    let away = λ (stored other : String) (h : (key == other) ≡ false).
      let e : lookup other (insert key stored s.values) ≡ lookup other s.values =
        ground (arith, h, lookup-insert key other stored s.values) in
      e in
    elim (change_cases kernel key value s) [
      | inl (n, e) ↦
          rw e (record {
            others = λ other h. refl;
            conf = refl;
            nanbbr_conf = refl;
            outcome = inr refl;
          })
      | inr (inl (n, stored, e)) ↦
          rw e
            (record { others = away stored; conf = refl; nanbbr_conf = refl; outcome = inr refl })
      | inr (inr (n, e)) ↦ rw e (record {
        others = away value;
        conf = refl;
        nanbbr_conf = refl;
        outcome = inl (refl, lookup-insert_self key value s.values);
      })
    ]
