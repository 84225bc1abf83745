-- ===== src/Dscp/Desired.antt =====
-- The dicts of desired pins and weights against the lists that were sent.
use openmptcprouter_vps.Dict.{insert, lookup, lookup-insert}
use openmptcprouter_vps.Dscp.Classes.{is_class}
use openmptcprouter_vps.Dscp.Pins.{DscpPin, desired_pins, in_byte, pin_id}
use openmptcprouter_vps.Prelude.{
  Bool, Bool-cases, List, Option, Option-cases, String, [], all, arith, if◌then◌else◌, inl, inr,
  is_some, none, refl, some, ℕ, ◌&&◌, ◌==◌, ◌∙◌, ◌∷◌, ◌≡◌,
}

abbrev pub is_valid_pin : DscpPin → Bool
is_valid_pin pin = is_class pin.dscp && is_some (in_byte pin.remote_id)

-- The remote id of the last pin of a class.
unfoldable pub last_id : String → List DscpPin → Option ℕ
last_id dscp [] = none
last_id dscp (pin ∷ pins) = elim (last_id dscp pins) [
  | some id ↦ some id
  | none ↦ if pin.dscp == dscp then in_byte pin.remote_id else none
]

pin_id-valid : (pin : DscpPin) → is_some (pin_id pin) ≡ is_valid_pin pin
unfolding pin_id
pin_id-valid pin = elim (Bool-cases (is_class pin.dscp)) [
  | inl y ↦ rw (y, pin_id)
  | inr n ↦ rw (n, pin_id)
]

pin_id-in_byte : (pin : DscpPin) (id : ℕ) → pin_id pin ≡ some id → in_byte pin.remote_id ≡ some id
unfolding pin_id
pin_id-in_byte pin id h = ground arith

-- The pins are accepted exactly if each names a known class and an id below 256.
pub desired_pins_accepts :
    (pins : List DscpPin) (m : List (String × ℕ))
    → is_some (desired_pins pins m) ≡ all is_valid_pin pins
unfolding desired_pins all
desired_pins_accepts [] m = refl
desired_pins_accepts (pin ∷ pins) m = elim (Option-cases (pin_id pin)) [
  | inl bad ↦ rw (bad, desired_pins) (rw (← pin_id-valid pin, bad))
  | inr (id, good) ↦
      rw (good, desired_pins)
        (rw (← pin_id-valid pin, good) (desired_pins_accepts pins (insert pin.dscp id m)))
]

-- In the accepted dict a class has the id of its last pin, and one that was not sent what it had.
pub desired_pins_last :
    (pins : List DscpPin) (m : List (String × ℕ)) {desired : List (String × ℕ)}
    → desired_pins pins m ≡ some desired
    → (dscp : String)
    → lookup dscp desired ≡ (elim (last_id dscp pins) [ some id ↦ some id | none ↦ lookup dscp m ])
unfolding desired_pins last_id
desired_pins_last [] m h dscp = cc
desired_pins_last (pin ∷ pins) m h dscp = elim (Option-cases (pin_id pin)) [
  | inl bad ↦ ground arith
  | inr (id, good) ↦
      desired_pins_last pins (insert pin.dscp id m) (rw (good, desired_pins) at h) dscp
      ∙ ground (arith, lookup-insert pin.dscp dscp id m, pin_id-in_byte pin id good)
]
