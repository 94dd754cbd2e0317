-- ===== src/Common/Bits.antt =====
-- Laws of bit_or and bit_and at variables, by its digits in base 2.
use Prim.Native.Nat.{bit_and, bit_or, min, max, digits, bit_and-bitwise, bit_or-bitwise}
use native.Mathlib.Nat.{pow-suc, div-div-eq-div-mul, mul_assoc}
use swtpm.Common.{
  ℕ, zero, suc, ◌+◌, ◌-◌, ◌*◌, ◌/◌, ◌%◌, ◌^◌, ◌≤◌, ◌<◌, ◌≡◌, refl, sym, ap, ◌∙◌, arith,
}

abbrev or_digits : ℕ → ℕ → ℕ → ℕ
or_digits n a b = digits (λ b. b) max n a b

or_digits_fuel : (k l x y : ℕ) → x ≤ k → x ≤ l → or_digits k x y ≡ or_digits l x y
or_digits_fuel (suc k) (suc l) (suc x) y h g =
    omega (arith, or_digits_fuel k l (suc x / 2) (y / 2) (omega arith) (omega arith))
or_digits_fuel (suc k) (suc l) zero y h g = refl
or_digits_fuel (suc k) zero (suc x) y h g = absurd (omega arith)
or_digits_fuel (suc k) zero zero y h g = refl
or_digits_fuel zero (suc l) (suc x) y h g = absurd (omega arith)
or_digits_fuel zero (suc l) zero y h g = refl
or_digits_fuel zero zero x y h g = refl

zero-bit_or : (b : ℕ) → bit_or 0 b ≡ b
zero-bit_or b = bit_or-bitwise 0 b

pub bit_or_step : (x y : ℕ) → bit_or x y ≡ max (x % 2) (y % 2) + bit_or (x / 2) (y / 2) * 2
bit_or_step zero y = omega (arith, zero-bit_or y, zero-bit_or (y / 2))
bit_or_step (suc x) y = omega (
  arith,
  bit_or-bitwise (suc x) y,
  bit_or-bitwise (suc x / 2) (y / 2),
  or_digits_fuel x (suc x / 2) (suc x / 2) (y / 2) (omega arith) (omega arith),
)

le-bit_or_fuel : (n a b : ℕ) → a ≤ n → a ≤ bit_or a b
le-bit_or_fuel zero a b h = omega arith
le-bit_or_fuel (suc n) zero b h = omega arith
le-bit_or_fuel (suc n) (suc a) b h =
    omega (arith, bit_or_step (suc a) b, le-bit_or_fuel n (suc a / 2) (b / 2) (omega arith))

pub le-bit_or : (a b : ℕ) → a ≤ bit_or a b
le-bit_or a b = le-bit_or_fuel a a b (omega arith)

-- The or of two numbers of k bits has k bits.
pub bit_or-lt : (k a b : ℕ) → a < 2 ^ k → b < 2 ^ k → bit_or a b < 2 ^ k
bit_or-lt zero a b h g = let e : a ≡ 0 = omega arith in rw e (omega (arith, zero-bit_or b))
bit_or-lt (suc k) a b h g = omega (
  arith,
  pow-suc 2 k,
  bit_or_step a b,
  bit_or-lt k (a / 2) (b / 2) (omega (arith, pow-suc 2 k)) (omega (arith, pow-suc 2 k)),
)

abbrev common_digits : ℕ → ℕ → ℕ → ℕ
common_digits n a b = digits (λ b. zero) min n a b

common_digits_fuel : (k l x y : ℕ) → x ≤ k → x ≤ l → common_digits k x y ≡ common_digits l x y
common_digits_fuel zero zero x y h g = refl
common_digits_fuel zero (suc l) zero y h g = refl
common_digits_fuel zero (suc l) (suc x) y h g = absurd (omega arith)
common_digits_fuel (suc k) zero zero y h g = refl
common_digits_fuel (suc k) zero (suc x) y h g = absurd (omega arith)
common_digits_fuel (suc k) (suc l) zero y h g = refl
common_digits_fuel (suc k) (suc l) (suc x) y h g =
    omega (arith, common_digits_fuel k l (suc x / 2) (y / 2) (omega arith) (omega arith))

nothing_in_common : (y : ℕ) → bit_and 0 y ≡ 0
nothing_in_common y = bit_and-bitwise 0 y

last_digit : (x y : ℕ) → bit_and x y ≡ min (x % 2) (y % 2) + bit_and (x / 2) (y / 2) * 2
last_digit zero y = omega (arith, nothing_in_common y, nothing_in_common (y / 2))
last_digit (suc x) y = omega (
  arith,
  common_digits_fuel x (suc x / 2) (suc x / 2) (y / 2) (omega arith) (omega arith),
  bit_and-bitwise (suc x) y,
  bit_and-bitwise (suc x / 2) (y / 2),
)

pub pow_pos : (k : ℕ) → 0 < 2 ^ k
pow_pos zero = omega arith
pow_pos (suc k) = omega (arith, pow-suc 2 k, pow_pos k)

-- the mask of all w digits
all_digits : (w x : ℕ) → x < 2 ^ w → bit_and x (2 ^ w - 1) ≡ x
all_digits zero x h = let e : x ≡ 0 = omega arith in rw e (nothing_in_common 0)
all_digits (suc w) x h =
    let e : (2 ^ suc w - 1) / 2 ≡ 2 ^ w - 1 = omega (arith, pow-suc 2 w, pow_pos w) in
    let r : bit_and (x / 2) (2 ^ w - 1) ≡ x / 2 =
      all_digits w (x / 2) (omega (arith, pow-suc 2 w)) in
    omega (arith, last_digit x (2 ^ suc w - 1), rw (← e) at r, pow-suc 2 w, pow_pos w)

-- The mask of the digits of a word of w bits from the k-th on clears those below.
pub high_digits : (w k x : ℕ) → k ≤ w → x < 2 ^ w → bit_and x (2 ^ w - 2 ^ k) ≡ x / 2 ^ k * 2 ^ k
high_digits w zero x n h = omega (arith, all_digits w x h)
high_digits zero (suc k) x n h = absurd (omega arith)
high_digits (suc w) (suc k) x n h =
    let e : (2 ^ suc w - 2 ^ suc k) / 2 ≡ 2 ^ w - 2 ^ k = omega (arith, pow-suc 2 w, pow-suc 2 k) in
    let r = high_digits w k (x / 2) (omega arith) (omega (arith, pow-suc 2 w)) in
    let m : (2 ^ suc w - 2 ^ suc k) % 2 ≡ 0 = omega (arith, pow-suc 2 w, pow-suc 2 k) in
    let d : x / 2 ^ suc k ≡ x / 2 / 2 ^ k =
      ap (λ p. x / p) {x = 2 ^ suc k} {y = 2 * 2 ^ k} (omega (arith, pow-suc 2 k))
      ∙ sym (div-div-eq-div-mul x 2 (2 ^ k)) in
    let t : x / 2 / 2 ^ k * 2 ^ suc k ≡ x / 2 / 2 ^ k * 2 ^ k * 2 =
      ap (λ p. x / 2 / 2 ^ k * p) {x = 2 ^ suc k} {y = 2 ^ k * 2} (omega (arith, pow-suc 2 k))
      ∙ sym (mul_assoc (x / 2 / 2 ^ k) (2 ^ k) 2) in
    let l : bit_and x (2 ^ suc w - 2 ^ suc k)
        ≡ min (x % 2) 0 + bit_and (x / 2) (2 ^ w - 2 ^ k) * 2 =
      rw (e, m) at (last_digit x (2 ^ suc w - 2 ^ suc k)) in
    rw d (omega (arith, l, r, t))
