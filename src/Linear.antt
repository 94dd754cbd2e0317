-- ===== src/Linear.antt =====
-- src/swtpm/swtpm_nvstore_linear.c and swtpm_nvstore_linear.h: files packed into one address space.
-- `state.data` is a memory with a length. `state.hdr` points into it; the header is kept decoded
-- beside the memory, with its words in host order, so le32toh and htole32 do not show.
-- The backing store (`struct nvram_linear_store_ops`) is a parameter, with a state of its own.
pub mod Ops
pub mod Packed
pub mod Round
pub mod Room
pub mod FileStore
pub mod Flush
pub mod Refine
pub mod Progress
pub mod Total
pub mod Alloc
pub mod Resize
pub mod Contents
pub mod Shift
pub mod Compact
mod Tests
use Prim.Native.Nat.{bit_or}
use swtpm.Common.{
  ℕ, zero, suc, ◌+◌, ◌-◌, ◌*◌, ◌/◌, ◌%◌, ◌^◌, ◌≤◌, ◌<◌, ◌≡◌, Bool, true, false, ◌&&◌, not, Option,
  none, some, List, [], ◌∷◌, u32_mod, ltb, leb, ◌==◌, if◌then◌else◌, length,
}
use swtpm.Common.Result.{Rc, Result, ok, err, success, fail, retry, size}
use swtpm.Common.Memory.{Memory, read, write, move, update}

-- The names of libtpms' tpm_nvfilename.h, TPM_PERMANENT_ALL_NAME and so on; `other` is any other.
pub data Name : Type 0 where
  permall volatilestate savestate other : Name

-- `struct nvram_linear_hdr_file`
pub record File : Type 0 where
  pub offset : ℕ
  pub data_length : ℕ
  pub section_length : ℕ

-- `struct nvram_linear_hdr`; of the function only the indices below `max_states` count
pub record Header : Type 0 where
  pub magic : ℕ
  pub version : ℕ
  pub hdrsize : ℕ
  pub files : ℕ → File

-- SWTPM_NVSTORE_LINEAR_MAX_STATES
abbrev pub max_states : ℕ
max_states = 15

-- sizeof(struct nvram_linear_hdr): 12 bytes, and 12 for each file
abbrev pub sizeof_hdr : ℕ
sizeof_hdr = 192

-- SWTPM_NVSTORE_LINEAR_MAGIC
abbrev pub linear_magic : ℕ
linear_magic = 0x737774706d6c696e

-- SWTPM_NVSTORE_LINEAR_VERSION
abbrev pub linear_version : ℕ
linear_version = 1

-- What an open or a resize hands out: *data and *length.
pub record Region : Type 0 where
  pub memory : Memory
  pub length : ℕ

-- `struct nvram_linear_store_ops` over the states W of a store. The memory that the store has handed
-- out is written without its knowledge, so it is an argument of what reads it back. `flush` and
-- `resize` may be left out.
pub record StoreOps (W : Type 0) : Type 0 where
  pub open_store : W → Result Region × W
  pub lock : ℕ → W → Rc × W
  pub unlock : W → W
  pub flush : Option (Memory → ℕ → ℕ → W → Rc × W)
  pub resize : Option (Memory → ℕ → W → Result Region × W)
  pub cleanup : Memory → W → W

-- The static `state`, and the store's own.
pub record State (W : Type 0) : Type 0 where
  pub initialized : Bool
  pub loaded_uri : Option (List ℕ)
  pub hdr : Header
  pub memory : Memory
  pub length : ℕ
  pub world : W

-- SWTPM_NVRAM_Linear_GetFileNr; `none` is FILE_NR_INVALID
unfoldable pub get_file_nr : Name → Option ℕ
get_file_nr Name.permall = some 0
get_file_nr Name.volatilestate = some 1
get_file_nr Name.savestate = some 2
get_file_nr Name.other = none

-- ROUND_TO_NEXT_POWER_OF_2_32 of utils.h, on a uint32_t
abbrev or_shifted : ℕ → ℕ → ℕ
or_shifted a k = bit_or a (a / 2 ^ k)

unfoldable pub round_to_next_power_of_2 : ℕ → ℕ
round_to_next_power_of_2 a =
    let a = (a + u32_mod - 1) % u32_mod in
    let a = or_shifted a 1 in
    let a = or_shifted a 2 in
    let a = or_shifted a 4 in let a = or_shifted a 8 in let a = or_shifted a 16 in (a + 1) % u32_mod

-- a round of AllocFile's loop: the end of a file, if that is further than all before it
unfoldable pub further_end : File → ℕ → ℕ
further_end file new_offset =
    if file.offset == 0
    then new_offset
    else let cur_end = (file.offset + file.section_length) % u32_mod in
      if ltb new_offset cur_end then cur_end else new_offset

-- AllocFile's loop over `n` entries from the i-th on
unfoldable pub find_end : (ℕ → File) → ℕ → ℕ → ℕ → ℕ
unfolding further_end
find_end files zero i new_offset = new_offset
find_end files (suc n) i new_offset = find_end files n (i + 1) (further_end (files i) new_offset)

-- The variables of RemoveFile's loop.
pub record Removal : Type 0 where
  pub files : ℕ → File
  pub next_offset : ℕ
  pub state_end : ℕ

-- a round of RemoveFile's loop
unfoldable pub shift_one : File → ℕ → Removal → Removal
shift_one old i r =
    let file = r.files i in
    if file.offset == 0
    then r
    else if ltb old.offset file.offset
    then (let cur_end = (file.offset + file.section_length) % u32_mod in
        record {
          files =
              update r.files i
                (record file { offset = (file.offset + u32_mod - old.section_length) % u32_mod });
          next_offset = if ltb file.offset r.next_offset then file.offset else r.next_offset;
          state_end = if ltb r.state_end cur_end then cur_end else r.state_end;
        })
    else r

unfoldable pub shift_files : File → ℕ → ℕ → Removal → Removal
unfolding shift_one
shift_files old zero i r = r
shift_files old (suc n) i r = shift_files old n (i + 1) (shift_one old i r)
