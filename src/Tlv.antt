-- ===== src/Tlv.antt =====
-- src/swtpm/tlv.c and tlv.h: the tag-length-value stream of a state blob.
-- A byte is a number. A pointer to bytes is the list of the bytes from there on.
pub mod RoundTrip
pub mod Bounds
mod Tests
use swtpm.Common.{
  ℕ, zero, suc, ◌+◌, ◌%◌, ◌≤◌, ◌<◌, Bool, Option, none, some, List, [], ◌∷◌, ◌++◌, u16_mod, u32_mod,
  u64_mod, be16, be32, get16, get32, ltb, leb, ◌==◌, if◌then◌else◌, length, take, drop,
}
use swtpm.Common.Result.{Result, ok, err, fail}

abbrev pub tag_data : ℕ
tag_data = 1

abbrev pub tag_encrypted_data : ℕ
tag_encrypted_data = 2

abbrev pub tag_hmac : ℕ
tag_hmac = 3

abbrev pub tag_migration_data : ℕ
tag_migration_data = 4

abbrev pub tag_encrypted_migration_data : ℕ
tag_encrypted_migration_data = 5

abbrev pub tag_ivec_encrypted_data : ℕ
tag_ivec_encrypted_data = 6

abbrev pub tag_ivec_encrypted_migration_data : ℕ
tag_ivec_encrypted_migration_data = 7

-- `tlv_data`: the header's two fields, and what its pointer points to.
pub record TlvData : Type 0 where
  pub tag : ℕ
  pub len : ℕ
  pub ptr : List ℕ

-- sizeof(tlv_header), which is packed
abbrev pub header_size : ℕ
header_size = 6

-- the `tlv.length` bytes at the pointer
abbrev pub payload : TlvData → List ℕ
payload td = take td.len td.ptr

-- The fields fit their words, and the pointer points to as many bytes as the header says.
pub record IsValid (td : TlvData) : Type 0 where
  pub tag_fits : td.tag < u16_mod
  pub len_fits : td.len < u32_mod
  pub backed : td.len ≤ length td.ptr

abbrev pub AllValid : List TlvData → Type 0
AllValid [] = Unit
AllValid (td ∷ tds) = IsValid td × AllValid tds

-- the loop that adds up `addlen`, a uint64_t
unfoldable pub added_length : ℕ → List TlvData → ℕ
added_length addlen [] = addlen
added_length addlen (td ∷ tds) = added_length ((addlen + (header_size + td.len)) % u64_mod) tds

-- what one round of the second loop copies
abbrev pub encode_one : TlvData → List ℕ
encode_one td = be16 td.tag ++ (be32 td.len ++ payload td)

unfoldable pub encode : List TlvData → List ℕ
encode [] = []
encode (td ∷ tds) = encode_one td ++ encode tds

-- `tlv_data_append`. The buffer stands for *buffer and *buffer_len; NULL is the empty buffer, since
-- each caller pairs NULL with length 0. `can_alloc n` is whether realloc gives n bytes.
unfoldable pub append : (ℕ → Bool) → List ℕ → List TlvData → Result (List ℕ)
unfolding added_length encode
append can_alloc buffer tds =
    let totlen = (length buffer + added_length 0 tds) % u64_mod in
    if ltb 0xffffffff totlen
    then err fail
    else if can_alloc totlen
    then ok (buffer ++ encode tds)
    else err fail

-- the loop of `tlv_data_find_tag`; each round goes on by at least a header
unfoldable pub find_from : ℕ → List ℕ → ℕ → ℕ → Option TlvData
find_from zero buffer tag offset = none
find_from (suc fuel) buffer tag offset =
    let header = drop offset buffer in
    let len = get32 header 2 in
    let body = offset + header_size in
    let rest = find_from fuel buffer tag (body + len) in
    if leb (length buffer) offset
    then none
    else if ltb (length buffer) (offset + header_size)
    then none
    else if ltb (length buffer) (body + len)
    then none
    else if get16 header 0 == tag
    then some (record { tag = get16 header 0; len = len; ptr = drop body buffer })
    else rest

-- `tlv_data_find_tag`: the entry that it fills in, or `none` for NULL.
unfoldable pub find_tag : List ℕ → ℕ → Option TlvData
unfolding find_from
find_tag buffer tag = find_from (suc (length buffer)) buffer tag 0
