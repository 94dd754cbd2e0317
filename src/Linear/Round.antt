-- ===== src/Linear/Round.antt =====
-- ROUND_TO_NEXT_POWER_OF_2_32 does not fall below its argument, up to 2 ^ 31.
use Prim.Native.Nat.{bit_or}
use native.Mathlib.Nat.{le_trans}
use swtpm.Common.{ℕ, ◌+◌, ◌-◌, ◌/◌, ◌%◌, ◌^◌, ◌≤◌, ◌<◌, ◌≡◌, arith}
use swtpm.Common.Bits.{le-bit_or, bit_or-lt}
use swtpm.Linear.{round_to_next_power_of_2}

-- a |= a >> k keeps what is there, and the 31 bits.
Smeared : ℕ → ℕ → Type 0
Smeared a b = (a ≤ b) × (b < 2 ^ 31)

smear : (n a k : ℕ) → Smeared n a → Smeared n (bit_or a (a / 2 ^ k))
unfolding Smeared
smear n a k h =
    (le_trans h.0 (le-bit_or a (a / 2 ^ k)), bit_or-lt 31 a (a / 2 ^ k) h.1 (omega arith))

pub round_bounds :
    (n : ℕ)
    → 0 < n
    → n ≤ 2 ^ 31
    → (n ≤ round_to_next_power_of_2 n) × (round_to_next_power_of_2 n ≤ 2 ^ 31)
unfolding round_to_next_power_of_2 Smeared
round_bounds n pos h =
    let e : (n + 2 ^ 32 - 1) % 2 ^ 32 ≡ n - 1 = omega arith in
    rw e (
      omega (
        arith,
        smear (n - 1) _ 16 (
            smear (n - 1) _ 8 (
              smear (n - 1) _ 4
                (smear (n - 1) _ 2 (smear (n - 1) (n - 1) 1 (omega arith, omega arith))))),
      ))
