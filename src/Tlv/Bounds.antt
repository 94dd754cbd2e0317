-- ===== src/Tlv/Bounds.antt =====
-- No length in tlv.c wraps, no read leaves the buffer, and the search ends.
use swtpm.Common.{
  ℕ, zero, suc, ◌+◌, ◌%◌, ◌≤◌, ◌<◌, ◌≡◌, refl, ap, Bool, true, some, List, [], ◌∷◌, ◌++◌, u32_mod,
  u64_mod, get16, get32, length, drop, arith, ◌⊎◌, inl, inr, length-append, get16, get32,
}
use swtpm.Common.Result.{ok}
use swtpm.Tlv.{
  TlvData, AllValid, header_size, added_length, encode_one, encode, append, find_from, find_tag,
}
use swtpm.Tlv.RoundTrip.{length-encode_one}

added_length-encode :
    (acc : ℕ) (tds : List TlvData)
    → AllValid tds
    → added_length acc tds % u64_mod ≡ (acc + length (encode tds)) % u64_mod
unfolding added_length encode
added_length-encode acc [] v = omega arith
added_length-encode acc (td ∷ tds) v = omega (
  arith,
  added_length-encode ((acc + (header_size + td.len)) % u64_mod) tds v.1,
  length-append (encode_one td) (encode tds),
  length-encode_one td v.0,
)

-- Where the true length of the result fits a uint64_t, an append that succeeds has asked for just
-- as many bytes as it has written, has kept what was there, and the length fits a uint32_t.
pub append-ok :
    (can_alloc : ℕ → Bool) (buffer : List ℕ) (tds : List TlvData) {out : List ℕ}
    → AllValid tds
    → length buffer + length (encode tds) < u64_mod
    → append can_alloc buffer tds ≡ ok out
    → (out ≡ buffer ++ encode tds) × (can_alloc (length out) ≡ true) × (length out < u32_mod)
unfolding append
append-ok can_alloc buffer tds {out} v small h =
    ground (arith, added_length-encode 0 tds v, length-append buffer (encode tds))

-- What the search finds lies in the buffer behind a header, with the tag that was asked for.
pub record Found (buffer : List ℕ) (tag : ℕ) (td : TlvData) : Type 0 where
  pub same_tag : td.tag ≡ tag
  pub at : ℕ
  pub behind_header : header_size ≤ at
  pub within : at + td.len ≤ length buffer
  pub there : td.ptr ≡ drop at buffer

-- A round finds the entry at its offset, or leaves the search to the next round.
module _ (fuel : ℕ) (buffer : List ℕ) (tag offset : ℕ) where
  abbrev len_here : ℕ
  len_here = get32 (drop offset buffer) 2

  abbrev entry_here : TlvData
  entry_here = record {
    tag = get16 (drop offset buffer) 0;
    len = len_here;
    ptr = drop (offset + header_size) buffer;
  }

  find_round :
      (td : TlvData)
      → find_from (suc fuel) buffer tag offset ≡ some td
      → ((td ≡ entry_here)
          × (entry_here.tag ≡ tag)
          × (offset + header_size + len_here ≤ length buffer))
        ⊎ (find_from fuel buffer tag (offset + header_size + len_here) ≡ some td)
  unfolding find_from
  find_round td h = ground arith

find_from-Found :
    (fuel : ℕ) (buffer : List ℕ) (tag offset : ℕ) {td : TlvData}
    → find_from fuel buffer tag offset ≡ some td
    → Found buffer tag td
find_from-Found zero buffer tag offset h = unfold find_from in cc
find_from-Found (suc fuel) buffer tag offset {td} h =
    elim (find_round fuel buffer tag offset td h) [
      | inl here ↦ record {
        same_tag = cc;
        at = offset + header_size;
        behind_header = omega arith;
        within = ground arith;
        there = ap (λ (t : TlvData). t.ptr) here.0;
      }
      | inr later ↦
          find_from-Found fuel buffer tag (offset + header_size + len_here fuel buffer tag offset)
            later
    ]

-- In any bytes, valid or not, what a search finds has the tag, and its bytes lie within the buffer,
-- behind a header.
pub find_tag-Found :
    (buffer : List ℕ) (tag : ℕ) {td : TlvData} → find_tag buffer tag ≡ some td → Found buffer tag td
unfolding find_tag
find_tag-Found buffer tag h = find_from-Found (suc (length buffer)) buffer tag 0 h

-- Two amounts of fuel that both exceed the bytes left give the same result: the loop has ended by
-- its own tests.
pub find_from_fuel :
    (f g : ℕ) (buffer : List ℕ) (tag offset : ℕ)
    → length buffer < f + offset
    → length buffer < g + offset
    → find_from f buffer tag offset ≡ find_from g buffer tag offset
unfolding find_from
find_from_fuel zero zero buffer tag offset p q = refl
find_from_fuel zero (suc g) buffer tag offset p q = ground arith
find_from_fuel (suc f) zero buffer tag offset p q = ground arith
find_from_fuel (suc f) (suc g) buffer tag offset p q =
    ground
      (arith, find_from_fuel f g buffer tag (offset + header_size + get32 (drop offset buffer) 2))

-- The bytes of a stream of entries.
abbrev pub encoded_length : List TlvData → ℕ
encoded_length [] = 0
encoded_length (td ∷ tds) = header_size + td.len + encoded_length tds

length-encode : (tds : List TlvData) → AllValid tds → length (encode tds) ≡ encoded_length tds
unfolding encode
length-encode [] v = refl
length-encode (td ∷ tds) v = omega (
  arith,
  length-encode tds v.1,
  length-encode_one td v.0,
  length-append (encode_one td) (encode tds),
)

pub length-append_nil :
    (can_alloc : ℕ → Bool) (tds : List TlvData) {out : List ℕ}
    → AllValid tds
    → append can_alloc [] tds ≡ ok out
    → length out ≡ encoded_length tds
unfolding append
length-append_nil can_alloc tds {out} v h =
    let e : encode tds ≡ out = ground arith in rw (← e) (length-encode tds v)
