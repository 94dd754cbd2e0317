-- ===== src/Common/Words.antt =====
-- Words of 16, 32 and 64 bits, and their big-endian bytes.
use Prim.Native.Nat.{ℕ, ◌+◌, ◌*◌, ◌/◌, ◌%◌, ◌^◌, ◌<◌}
use mathlib.Core.Path.{◌≡◌}
use mathlib.Core.List.{List, [], ◌∷◌}
use native.Mathlib.Omega.{arith}
use swtpm.Common.Lists.{get_or}

abbrev pub u16_mod : ℕ
u16_mod = 2 ^ 16

abbrev pub u32_mod : ℕ
u32_mod = 2 ^ 32

abbrev pub u64_mod : ℕ
u64_mod = 2 ^ 64

-- The bytes that a store of htobe16(x) and of htobe32(x) leaves in memory.
abbrev pub be16 : ℕ → List ℕ
be16 x = x / 256 % 256 ∷ x % 256 ∷ []

abbrev pub be32 : ℕ → List ℕ
be32 x = x / 16777216 % 256 ∷ x / 65536 % 256 ∷ x / 256 % 256 ∷ x % 256 ∷ []

-- be16toh and be32toh of the word at an offset.
abbrev pub get16 : List ℕ → ℕ → ℕ
get16 bs i = get_or bs i 0 * 256 + get_or bs (i + 1) 0

abbrev pub get32 : List ℕ → ℕ → ℕ
get32 bs i =
    get_or bs i 0 * 16777216
    + get_or bs (i + 1) 0 * 65536
    + get_or bs (i + 2) 0 * 256
    + get_or bs (i + 3) 0

pub be16_value : (x : ℕ) → x < u16_mod → x / 256 % 256 * 256 + x % 256 ≡ x
be16_value x h = omega arith

pub be32_value :
    (x : ℕ)
    → x < u32_mod
    → x / 16777216 % 256 * 16777216 + x / 65536 % 256 * 65536 + x / 256 % 256 * 256 + x % 256 ≡ x
be32_value x h = omega arith
