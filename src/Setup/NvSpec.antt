-- ===== src/Setup/NvSpec.antt =====
-- What a TPM 2 makes of the commands on its NVRAM, as far as swtpm_setup sends them: the commands
-- are read by the layout of the TPM 2.0 specification, and applied to one index. It stands beside
-- src/swtpm_setup/swtpm.c and uses none of its functions.
use swtpm.Common.{
  ℕ, ◌+◌, Bool, true, false, ◌&&◌, not, Option, none, some, List, [], ◌∷◌, ◌++◌, ◌==◌, leb,
  if◌then◌else◌, length, take, drop, get16, get32, replicate,
}
use swtpm.Setup.{Bytes}

-- TPM2_NV_DefineSpace, TPM2_NV_Write and TPM2_NV_WriteLock
pub data NvCommand : Type 0 where
  define : ℕ → ℕ → ℕ → NvCommand
  write : ℕ → Bytes → ℕ → NvCommand
  lock : ℕ → NvCommand

-- an NV index: its attributes and contents once it is defined, and whether it is locked
pub record Area : Type 0 where
  pub attributes : ℕ
  pub content : Option Bytes
  pub locked : Bool

abbrev pub undefined_area : Area
undefined_area = record { attributes = 0; content = none; locked = false }

-- TPM_ST_SESSIONS, and commandSize is the length
unfoldable pub header_ok : Bytes → Bool
header_ok r = get16 r 0 == 0x8002 && get32 r 2 == length r

-- by TPM_RH_PLATFORM, with one session at the offset: TPM_RS_PW, no nonce, no attributes, no password
unfoldable pub authorized : Bytes → ℕ → Bool
authorized r at =
    get32 r 10 == 0x4000000c
    && get32 r at == 9
    && get32 r (at + 4) == 0x40000009
    && get16 r (at + 8) == 0
    && get16 r (at + 11) == 0

-- a TPM2B_AUTH, empty, and a TPM2B_NV_PUBLIC with an empty policy
unfoldable pub parse_define : Bytes → Option NvCommand
unfolding authorized
parse_define r =
    if authorized r 14 && get16 r 27 == 0 && get16 r 29 == 14 && get16 r 41 == 0 && length r == 45
    then some (define (get32 r 31) (get32 r 37) (get16 r 43))
    else none

-- a TPM2B_MAX_NV_BUFFER and the offset
unfoldable pub parse_write : Bytes → Option NvCommand
unfolding authorized
parse_write r =
    let size = get16 r 31 in
    if authorized r 18 && length r == 35 + size
    then some (write (get32 r 14) (take size (drop 33 r)) (get16 (drop (33 + size) r) 0))
    else none

unfoldable pub parse_lock : Bytes → Option NvCommand
unfolding authorized
parse_lock r = if authorized r 18 && length r == 31 then some (lock (get32 r 14)) else none

unfoldable pub parse_nv : Bytes → Option NvCommand
unfolding header_ok parse_define parse_write parse_lock
parse_nv r =
    if not (header_ok r)
    then none
    else if get32 r 6 == 0x12a
    then parse_define r
    else if get32 r 6 == 0x137
    then parse_write r
    else if get32 r 6 == 0x138
    then parse_lock r
    else none

unfoldable pub write_area : Area → Bytes → ℕ → Option Bytes → Option Area
write_area a bytes offset none = none
write_area a bytes offset (some c) =
    if not a.locked && leb (offset + length bytes) (length c)
    then some
        (record a { content = some (take offset c ++ (bytes ++ drop (offset + length bytes) c)) })
    else none

unfoldable pub define_area : ℕ → ℕ → Option Bytes → Option Area
define_area attributes size (some c) = none
define_area attributes size none =
    some (record { attributes = attributes; content = some (replicate size 255); locked = false })

unfoldable pub lock_area : Area → Option Bytes → Option Area
lock_area a none = none
lock_area a (some c) = some (record a { locked = true })

-- `none` is a command that the TPM refuses, or one on another index.
unfoldable pub apply_nv : ℕ → Area → NvCommand → Option Area
unfolding define_area write_area lock_area
apply_nv index a (define i attributes size) =
    if i == index then define_area attributes size a.content else none
apply_nv index a (write i bytes offset) =
    if i == index then write_area a bytes offset a.content else none
apply_nv index a (lock i) = if i == index then lock_area a a.content else none

abbrev pub apply_parsed : ℕ → Area → Option NvCommand → Option Area
apply_parsed index a none = none
apply_parsed index a (some c) = apply_nv index a c

-- the commands, one after the other
unfoldable pub replay : ℕ → Option Area → List Bytes → Option Area
unfolding parse_nv apply_nv
replay index a [] = a
replay index none (r ∷ rs) = none
replay index (some a) (r ∷ rs) = replay index (apply_parsed index a (parse_nv r)) rs
