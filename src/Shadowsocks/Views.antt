-- ===== src/Shadowsocks/Views.antt =====
-- The manager as one map from ports to keys.
use openmptcprouter_vps.Config.{get_or}
use openmptcprouter_vps.Dict.{keys}
use openmptcprouter_vps.Exec.{Result-cases, ok, ok_inj}
use openmptcprouter_vps.Prelude.{
  Bool-cases, List, Option, Option-cases, String, [], arith, if◌then◌else◌, inl, inr, is_some, none,
  refl, some, subst, true, ℕ, ◌&&◌, ◌==ℕ◌, ◌==◌, ◌∷◌, ◌≡◌, ◌⊎◌,
}
use openmptcprouter_vps.Shadowsocks.Manager.{
  PortConf, SsManager, all_conf, chosen_port, manager_added, manager_removed, moved,
}
use openmptcprouter_vps.Shadowsocks.Ports.{
  highest_port, highest_port-free, port_entry, port_entry-drop_port, port_entry-put_port, put_port,
}

-- The key of a port: its entry in port_key, or else its record's.
unfoldable pub key_at : SsManager → ℕ → Option String
key_at m port = elim (port_entry port (get_or m.port_key [])) [
  | some key ↦ some key
  | none ↦ elim (port_entry port (get_or m.port_conf [])) [ none ↦ none | some r ↦ some r.key ]
]

abbrev key_of_conf : ℕ → List (ℕ × PortConf) → Option String
key_of_conf port conf = elim (port_entry port conf) [ none ↦ none | some r ↦ some r.key ]

-- A port stands in port_key once.
abbrev pub HasOncePorts : List (ℕ × String) → Type 0
HasOncePorts [] = Unit
HasOncePorts ((port, key) ∷ keys) = (port_entry port keys ≡ none) × HasOncePorts keys

-- Moving the keys into the records loses none of them.
moved-key :
    (keys : List (ℕ × String)) (conf : List (ℕ × PortConf)) (port : ℕ)
    → HasOncePorts keys
    → key_of_conf port (moved keys conf)
      ≡ (elim (port_entry port keys) [ some key ↦ some key | none ↦ key_of_conf port conf ])
unfolding moved port_entry
moved-key [] conf port d = refl
moved-key ((p, key) ∷ keys) conf port (once, d) =
    let r : PortConf = record { key = key; local_address = none; userid = none } in
    ground (arith, moved-key keys (put_port p r conf) port d, port_entry-put_port p port r conf)

-- The two ways to add, for the port that was chosen.
with_key : SsManager → ℕ → String → SsManager
with_key m p key = record m { port_key = some (put_port p key (get_or m.port_key [])) }

with_conf : SsManager → ℕ → PortConf → SsManager
with_conf m p r = record { port_key = none; port_conf = some (put_port p r (all_conf m)) }

key_at-with_key :
    (m : SsManager) (p : ℕ) (key : String) (q : ℕ)
    → key_at (with_key m p key) q ≡ (if p ==ℕ q then some key else key_at m q)
unfolding key_at with_key
key_at-with_key m p key q = ground (arith, port_entry-put_port p q key (get_or m.port_key []))

key_at-with_conf :
    (m : SsManager) (p : ℕ) (r : PortConf) (q : ℕ)
    → HasOncePorts (get_or m.port_key [])
    → key_at (with_conf m p r) q ≡ (if p ==ℕ q then some r.key else key_at m q)
unfolding key_at with_conf all_conf port_entry
key_at-with_conf m p r q once = ground (
  arith,
  port_entry-put_port p q r (moved (get_or m.port_key []) (get_or m.port_conf [])),
  moved-key (get_or m.port_key []) (get_or m.port_conf []) q once,
)

-- If adding a user works, the given key stands at the port that comes back, and every other port has the
-- key it had, also when the keys are moved into records to make room for an address. (Each port stands
-- once in port_key, as in any JSON object.)
pub manager_added-key_at :
    (m : SsManager) (port : Option ℕ) (key : String) (userid : ℕ) (ip : String) {m' : SsManager}
    {p : ℕ}
    → HasOncePorts (get_or m.port_key [])
    → manager_added m port key userid ip ≡ ok (m', p)
    → (q : ℕ) → key_at m' q ≡ (if p ==ℕ q then some key else key_at m q)
unfolding manager_added with_key with_conf
manager_added-key_at m port key userid ip once h q =
    elim (Bool-cases ((ip == "") && is_some m.port_key)) [
      | inl plain ↦ elim (Result-cases (chosen_port port (get_or m.port_key []))) [
        | inl (e, none_left) ↦ absurd (ground (arith, plain, none_left))
        | inr (c, chosen) ↦
            subst
              (λ (z : SsManager × ℕ). key_at z.0 q ≡ (if z.1 ==ℕ q then some key else key_at m q))
              (ok_inj (rw (plain, chosen) at h)) (key_at-with_key m c key q)
      ]
      | inr records ↦ elim (Result-cases (chosen_port port (all_conf m))) [
        | inl (e, none_left) ↦ absurd (ground (arith, records, none_left))
        | inr (c, chosen) ↦
            let r : PortConf = record {
              key = key;
              local_address = if ip == "" then none else some ip;
              userid = some userid;
            } in
            subst
              (λ (z : SsManager × ℕ). key_at z.0 q ≡ (if z.1 ==ℕ q then some key else key_at m q))
              (ok_inj (rw (records, chosen) at h)) (key_at-with_conf m c r q once)
      ]
    ]

-- manager.json has keys or records, not both.
abbrev pub HasOneForm : SsManager → Type 0
HasOneForm m = (m.port_key ≡ none) ⊎ (m.port_conf ≡ none)

key_at-all_conf :
    (m : SsManager) (q : ℕ)
    → HasOncePorts (get_or m.port_key [])
    → port_entry q (all_conf m) ≡ none
    → key_at m q ≡ none
unfolding key_at all_conf
key_at-all_conf m q once h =
    ground (arith, h, moved-key (get_or m.port_key []) (get_or m.port_conf []) q once)

chosen_port-free :
    {A : Type 0} (l : List (ℕ × A)) (p : ℕ) → chosen_port none l ≡ ok p → port_entry p l ≡ none
unfolding chosen_port
chosen_port-free l p h = elim (Option-cases (highest_port l)) [
  | inl empty ↦ absurd (ground (arith, empty))
  | inr (high, top) ↦ highest_port-free l high p top (ground (arith, top))
]

key_at-plain :
    (m : SsManager) (q : ℕ)
    → HasOneForm m
    → is_some m.port_key ≡ true
    → port_entry q (get_or m.port_key []) ≡ none
    → key_at m q ≡ none
unfolding key_at port_entry
key_at-plain m q one plain h = ground (arith, h)

-- If no port is asked for and manager.json has keys or records but not both, the port that a new user
-- gets is one that nobody has.
pub manager_added_fresh :
    (m : SsManager) (key : String) (userid : ℕ) (ip : String) {m' : SsManager} {p : ℕ}
    → HasOncePorts (get_or m.port_key [])
    → HasOneForm m
    → manager_added m none key userid ip ≡ ok (m', p)
    → key_at m p ≡ none
unfolding manager_added
manager_added_fresh m key userid ip once one h =
    elim (Bool-cases ((ip == "") && is_some m.port_key)) [
      | inl plain ↦ elim (Result-cases (chosen_port none (get_or m.port_key []))) [
        | inl (e, none_left) ↦ absurd (ground (arith, plain, none_left))
        | inr (c, chosen) ↦
            subst (λ (z : SsManager × ℕ). key_at m z.1 ≡ none) (ok_inj (rw (plain, chosen) at h))
              (key_at-plain m c one (ground (arith, plain))
                (chosen_port-free (get_or m.port_key []) c chosen))
      ]
      | inr records ↦ elim (Result-cases (chosen_port none (all_conf m))) [
        | inl (e, none_left) ↦ absurd (ground (arith, records, none_left))
        | inr (c, chosen) ↦
            subst (λ (z : SsManager × ℕ). key_at m z.1 ≡ none) (ok_inj (rw (records, chosen) at h))
              (key_at-all_conf m c once (chosen_port-free (all_conf m) c chosen))
      ]
    ]

-- Removing a port from a manager.json that has keys or records but not both: the port has no key any
-- more, and every other port has the key it had.
pub manager_removed-key_at :
    (m : SsManager) (port : ℕ) {m' : SsManager}
    → HasOneForm m
    → manager_removed m port ≡ ok m'
    → (q : ℕ) → key_at m' q ≡ (if port ==ℕ q then none else key_at m q)
unfolding manager_removed key_at port_entry
manager_removed-key_at m port one h q = elim (Option-cases m.port_key) [
  | inl absent ↦ elim (Option-cases m.port_conf) [
    | inl nothing ↦ absurd (ground (arith, absent, nothing))
    | inr (conf, present) ↦ ground (arith, absent, present, h, port_entry-drop_port port q conf)
  ]
  | inr (keys, present) ↦ ground (arith, present, h, one, port_entry-drop_port port q keys)
]
