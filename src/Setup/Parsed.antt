-- ===== src/Setup/Parsed.antt =====
-- The requests that src/swtpm_setup/swtpm.c sends for NVRAM, read by the TPM's layout.
use swtpm.Common.{
  ℕ, ◌&&◌, ◌+◌, ◌≡◌, ◌<◌, refl, ap, ◌∙◌, Bool, true, some, ◌==◌, ==_iff, length, take, drop, be16,
  get16, get32, u16_mod, u32_mod, be16_value, be32_value, length-append, take-append, drop-append,
  drop-add, arith,
}
use swtpm.Setup.{Bytes, request, authblock}
use swtpm.Setup.Nvram.{definespace_request, write_body, write_request, writelock_request}
use swtpm.Setup.NvSpec.{define, write, lock, header_ok, authorized, parse_write, parse_nv}

==_refl : (a b : ℕ) → a ≡ b → (a == b) ≡ true
==_refl a b e = (==_iff a b).1 e

both_true : {a b : Bool} → a ≡ true → b ≡ true → (a && b) ≡ true
both_true h k = rw h k

-- The header of a request holds its tag, length and ordinal.
pub request-header :
    (tag ordinal : ℕ) (body : Bytes)
    → tag < u16_mod
    → ordinal < u32_mod
    → 10 + length body < u32_mod
    → (get16 (request tag ordinal body) 0 ≡ tag)
      × (get32 (request tag ordinal body) 2 ≡ length (request tag ordinal body))
      × (get32 (request tag ordinal body) 6 ≡ ordinal)
unfolding request
request-header tag ordinal body h k l =
    (be16_value tag h, be32_value (10 + length body) l ∙ omega arith, be32_value ordinal k)

header_ok-request :
    (ordinal : ℕ) (body : Bytes)
    → ordinal < u32_mod
    → 10 + length body < u32_mod
    → header_ok (request 0x8002 ordinal body) ≡ true
unfolding header_ok
header_ok-request ordinal body h l =
    let fields = request-header 0x8002 ordinal body (omega arith) h l in
    both_true (==_refl _ _ fields.0) (==_refl _ _ fields.1)

pub parse_nv-definespace_request :
    (index attributes size : ℕ)
    → index < u32_mod
    → attributes < u32_mod
    → size < u16_mod
    → parse_nv (definespace_request index attributes size) ≡ some (define index attributes size)
unfolding parse_nv definespace_request request authblock
parse_nv-definespace_request index attributes size h k l =
    rw (be32_value index h, be32_value attributes k, be16_value size l) refl

pub parse_nv-writelock_request :
    (index : ℕ) → index < u32_mod → parse_nv (writelock_request index) ≡ some (lock index)
unfolding parse_nv writelock_request request authblock
parse_nv-writelock_request index h = rw (be32_value index h) refl

length-write_request :
    (index : ℕ) (bytes : Bytes) (offset : ℕ)
    → length (write_request index bytes offset) ≡ 35 + length bytes
unfolding write_request request authblock
length-write_request index bytes offset = omega (arith, length-append bytes (be16 offset))

-- The fields of a write request.
module _ (index : ℕ) (bytes : Bytes) (offset : ℕ) (h : index < u32_mod) (k : length bytes < u16_mod)
    (l : offset < u16_mod) where
  index_field : get32 (write_request index bytes offset) 14 ≡ index
  unfolding write_request request authblock
  index_field = be32_value index h

  size_field : get16 (write_request index bytes offset) 31 ≡ length bytes
  unfolding write_request request authblock
  size_field = be16_value (length bytes) k

  is_authorized : authorized (write_request index bytes offset) 18 ≡ true
  unfolding authorized write_request request authblock
  is_authorized = refl

  bytes_field : take (length bytes) (drop 33 (write_request index bytes offset)) ≡ bytes
  unfolding write_request request authblock
  bytes_field = take-append (length bytes) bytes (be16 offset) refl

  offset_field : get16 (drop (33 + length bytes) (write_request index bytes offset)) 0 ≡ offset
  unfolding write_request request authblock
  offset_field =
      ap (λ r. get16 r 0) (drop-add 33 (length bytes) (write_request index bytes offset))
      ∙ ap (λ r. get16 r 0) (drop-append (length bytes) bytes (be16 offset) refl)
      ∙ be16_value offset l

  parse_write-write_request :
      parse_write (write_request index bytes offset) ≡ some (write index bytes offset)
  unfolding parse_write
  parse_write-write_request =
      rw
        (
          size_field,
          both_true is_authorized (==_refl _ _ (length-write_request index bytes offset)),
        )
        (λ i. some (write (index_field i) (bytes_field i) (offset_field i)))

  whole : 10 + length (write_body index bytes offset) < u32_mod
  unfolding write_body authblock
  whole = omega (arith, length-append bytes (be16 offset))

  pub parse_nv-write_request :
      parse_nv (write_request index bytes offset) ≡ some (write index bytes offset)
  unfolding parse_nv write_request
  parse_nv-write_request =
      rw
        (
          header_ok-request 0x137 (write_body index bytes offset) (omega arith) whole,
          (request-header 0x8002 0x137 (write_body index bytes offset) (omega arith) (omega arith)
              whole).2,
        )
        parse_write-write_request
