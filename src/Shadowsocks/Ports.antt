-- ===== src/Shadowsocks/Ports.antt =====
-- A dict whose keys are the texts of port numbers.
use openmptcprouter_vps.Prelude.{
  List, Option, Option-cases, [], arith, if◌then◌else◌, inl, inr, ltb, none, refl, some, ℕ, ◌<◌,
  ◌==ℕ◌, ◌∷◌, ◌≡◌,
}

module _ {A : Type 0} where
  -- d.get(port)
  unfoldable pub port_entry : ℕ → List (ℕ × A) → Option A
  port_entry port [] = none
  port_entry port ((p, a) ∷ ports) = if p ==ℕ port then some a else port_entry port ports

  -- d[port] = a
  unfoldable pub put_port : ℕ → A → List (ℕ × A) → List (ℕ × A)
  put_port port a [] = (port, a) ∷ []
  put_port port a ((p, b) ∷ ports) =
      if p ==ℕ port then (p, a) ∷ ports else (p, b) ∷ put_port port a ports

  -- d.pop(port, None)
  unfoldable pub drop_port : ℕ → List (ℕ × A) → List (ℕ × A)
  drop_port port [] = []
  drop_port port ((p, a) ∷ ports) =
      if p ==ℕ port then drop_port port ports else (p, a) ∷ drop_port port ports

  -- int(max(d, key=int)); of an empty dict it is a ValueError.
  unfoldable pub highest_port : List (ℕ × A) → Option ℕ
  highest_port [] = none
  highest_port ((p, a) ∷ ports) = elim (highest_port ports) [
    | none ↦ some p
    | some q ↦ some (if ltb q p then p else q)
  ]

  pub port_entry-put_port :
      (port q : ℕ) (a : A) (l : List (ℕ × A))
      → port_entry q (put_port port a l) ≡ (if port ==ℕ q then some a else port_entry q l)
  unfolding port_entry put_port
  port_entry-put_port port q a [] = ground arith
  port_entry-put_port port q a ((p, b) ∷ l) = ground (arith, port_entry-put_port port q a l)

  pub port_entry-drop_port :
      (port q : ℕ) (l : List (ℕ × A))
      → port_entry q (drop_port port l) ≡ (if port ==ℕ q then none else port_entry q l)
  unfolding port_entry drop_port
  port_entry-drop_port port q [] = ground arith
  port_entry-drop_port port q ((p, b) ∷ l) = ground (arith, port_entry-drop_port port q l)

  no_port : (l : List (ℕ × A)) (q : ℕ) → highest_port l ≡ none → port_entry q l ≡ none
  unfolding port_entry highest_port
  no_port [] q e = refl
  no_port ((p, a) ∷ l) q e = ground arith

  -- No port is above the highest.
  pub highest_port-free :
      (l : List (ℕ × A)) (h q : ℕ) → highest_port l ≡ some h → h < q → port_entry q l ≡ none
  unfolding port_entry highest_port
  highest_port-free [] h q e above = refl
  highest_port-free ((p, a) ∷ l) h q e above = elim (Option-cases (highest_port l)) [
    | inl alone ↦ ground (arith, alone, no_port l q alone)
    | inr (h', rest) ↦ ground (arith, rest, highest_port-free l h' q rest)
  ]
