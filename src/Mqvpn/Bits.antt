-- ===== src/Mqvpn/Bits.antt =====
-- A bit mask described by its bits, for the masks of /mqvpn_dscp.
use native.Mathlib.Nat.{div-div-eq-div-mul, pow-succ'}
use openmptcprouter_vps.Mqvpn.Masks.{set_bit}
use openmptcprouter_vps.Prelude.{
  Bool, Bool-cases, ap, arith, false, if◌then◌else◌, inl, inr, refl, suc, sym, zero, ℕ, ◌%◌, ◌*◌,
  ◌+◌, ◌/◌, ◌<◌, ◌==ℕ◌, ◌^◌, ◌||◌, ◌∙◌, ◌≡◌,
}

-- The number with at most w bits whose bit n is p n.
unfoldable pub bits : ℕ → (ℕ → Bool) → ℕ
bits zero p = 0
bits (suc w) p = (if p 0 then 1 else 0) + 2 * bits w (λ n. p (suc n))

pub bits-cong : (w : ℕ) (p q : ℕ → Bool) → ((n : ℕ) → p n ≡ q n) → bits w p ≡ bits w q
unfolding bits
bits-cong zero p q same = refl
bits-cong (suc w) p q same =
    rw same (ap (λ t. (if q 0 then 1 else 0) + 2 * t) (bits-cong w _ _ (λ n. same (suc n))))

set_bit-suc : (n b m : ℕ) → b < 2 → set_bit (suc n) (b + 2 * m) ≡ b + 2 * set_bit n m
unfolding set_bit
set_bit-suc n b m small =
    let doubled = pow-succ' 2 n in
    let half : (b + 2 * m) / 2 ≡ m = omega arith in
    let halved : (b + 2 * m) / 2 ^ suc n ≡ m / 2 ^ n =
      ap (λ k. (b + 2 * m) / k) doubled
      ∙ sym (div-div-eq-div-mul _ 2 (2 ^ n))
      ∙ ap (λ k. k / 2 ^ n) half in
    elim (Bool-cases (m / 2 ^ n % 2 ==ℕ 1)) [
      | inl set ↦ rw (halved, set) refl
      | inr unset ↦ rw (halved, unset) (omega (arith, doubled))
    ]

set_bit-odd : (m : ℕ) → set_bit 0 (1 + 2 * m) ≡ 1 + 2 * m
unfolding set_bit
set_bit-odd m = ground arith

set_bit-even : (m : ℕ) → set_bit 0 (0 + 2 * m) ≡ 1 + 2 * m
unfolding set_bit
set_bit-even m = ground arith

-- Setting a bit sets this bit and no other.
pub set_bit-bits :
    (w n : ℕ) (p : ℕ → Bool) → n < w → set_bit n (bits w p) ≡ bits w (λ j. p j || (n ==ℕ j))
unfolding bits
set_bit-bits zero n p below = absurd (omega arith)
set_bit-bits (suc w) zero p below =
    let others : bits w (λ n. p (suc n) || (0 ==ℕ suc n)) ≡ bits w (λ n. p (suc n)) =
      bits-cong w _ _ (λ n. ground arith) in
    elim (Bool-cases (p 0)) [
      | inl set ↦ rw (set, others) (set_bit-odd _)
      | inr unset ↦ rw (unset, others) (set_bit-even _)
    ]
set_bit-bits (suc w) (suc n) p below =
    let apart : (suc n ==ℕ 0) ≡ false = ground arith in
    let step : (b : ℕ)
        → b < 2
        → set_bit (suc n) (b + 2 * bits w (λ j. p (suc j)))
          ≡ b + 2 * bits w (λ j. p (suc j) || (suc n ==ℕ suc j)) =
      λ b small.
        set_bit-suc n b _ small
        ∙ ap (λ t. b + 2 * t)
            (set_bit-bits w n (λ j. p (suc j)) (omega arith)
              ∙ bits-cong w _ _ (λ j. ground arith)) in
    elim (Bool-cases (p 0)) [
      | inl set ↦ rw set (step 1 (omega arith))
      | inr unset ↦ rw (unset, apart) (step 0 (omega arith))
    ]
