-- ===== src/Common/Result.antt =====
-- TPM_RESULT, and what a function that returns one writes through its output pointers.
-- The codes are named as libtpms names them, without the prefix TPM_; `lib n` is any other code
-- that a call of libtpms returns. Their numbers are libtpms' and are not in this repository.
use mathlib.Core.Path.{◌≡◌, refl, ap}
use mathlib.Core.Bool.{Bool, true, false}
use swtpm.Common.Tests.{if◌then◌else◌}
use swtpm.Common.{ℕ}

pub data Error : Type 0 where
  fail retry size : Error
  bad_parameter bad_version bad_datasize bad_mode bad_key_property bad_locality bad_ordinal : Error
  bad_param_size keynotfound encrypt_error decrypt_error ioerror : Error
  lib : ℕ → Error

-- TPM_SUCCESS with the outputs, or an error.
pub data Result {ℓ} (A : Type ℓ) : Type ℓ where
  err : Error → Result A
  ok : A → Result A

-- A code alone: TPM_SUCCESS, or an error.
pub data Rc : Type 0 where
  success : Rc
  error : Error → Rc

module _ {ℓ κ} {A : Type ℓ} {B : Type κ} where
  infixl 5 ◌>>=◌
  -- `if (rc == 0)` around what follows
  abbrev pub ◌>>=◌ : Result A → (A → Result B) → Result B
  err c >>= next = err c
  ok out >>= next = next out

  -- A chain that succeeds has succeeded at its first step.
  pub >>=-eq-ok :
      (first : Result A) (next : A → Result B) {end : B}
      → (first >>= next) ≡ ok end
      → (out : A) × (first ≡ ok out) × (next out ≡ ok end)
  >>=-eq-ok (err c) next h = cc
  >>=-eq-ok (ok out) next h = (out, refl, h)

-- A test that must hold for the result.
pub if-eq-ok {ℓ} :
    {A : Type ℓ} (c : Error) (b : Bool) (m : Result A) {a : A}
    → (if b then m else err c) ≡ ok a
    → (b ≡ true) × (m ≡ ok a)
if-eq-ok c true m h = (refl, h)
if-eq-ok c false m h = cc

-- A test that must fail for the result.
pub if-eq-ok_not {ℓ} :
    {A : Type ℓ} (c : Error) (b : Bool) (m : Result A) {a : A}
    → (if b then err c else m) ≡ ok a
    → (b ≡ false) × (m ≡ ok a)
if-eq-ok_not c true m h = cc
if-eq-ok_not c false m h = (refl, h)

ok_or {ℓ} : {A : Type ℓ} → A → Result A → A
ok_or a (ok b) = b
ok_or a (err c) = a

pub ok_injective {ℓ} : {A : Type ℓ} {a b : A} → ok a ≡ ok b → a ≡ b
unfolding ok_or
ok_injective {a = a} h = ap (ok_or a) h

infixl 5 ◌>>>◌
-- `if ((res = step()) != TPM_SUCCESS) return res` before what follows
abbrev pub ◌>>>◌ {ℓ} : {X : Type ℓ} → Rc × X → (X → Rc × X) → Rc × X
(error e, x) >>> next = (error e, x)
(success, x) >>> next = next x
