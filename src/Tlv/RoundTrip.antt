-- ===== src/Tlv/RoundTrip.antt =====
-- What `append` writes, `find_tag` finds.
use swtpm.Common.{
  ℕ, zero, suc, ◌+◌, ◌<◌, ◌≡◌, refl, ◌∙◌, sym, Bool, Option, none, some, List, [], ◌∷◌, ◌++◌, get16,
  get32, be16_value, be32_value, ◌==◌, if◌then◌else◌, length, take, drop, arith, length-append,
  length-take, take-append, drop-append, drop-add,
}
use swtpm.Common.Result.{ok}
use mathlib.Core.List.{append_assoc}
use swtpm.Tlv.{TlvData, IsValid, AllValid, payload, encode_one, encode, append, find_from, find_tag}

-- The bytes of the first entry with the tag.
unfoldable pub first : ℕ → List TlvData → Option (List ℕ)
first tag [] = none
first tag (td ∷ tds) = if td.tag == tag then some (payload td) else first tag tds

abbrev pub payload? : Option TlvData → Option (List ℕ)
payload? none = none
payload? (some td) = some (payload td)

length-payload : (td : TlvData) → IsValid td → length (payload td) ≡ td.len
length-payload td v = omega (arith, length-take td.len td.ptr)

pub length-encode_one : (td : TlvData) → IsValid td → length (encode_one td) ≡ 6 + td.len
length-encode_one td v = omega (arith, length-payload td v)

take-payload :
    (td : TlvData) (rest : List ℕ) → IsValid td → take td.len (payload td ++ rest) ≡ payload td
take-payload td rest v = take-append td.len (payload td) rest (sym (length-payload td v))

drop-payload : (td : TlvData) (rest : List ℕ) → IsValid td → drop td.len (payload td ++ rest) ≡ rest
drop-payload td rest v = drop-append td.len (payload td) rest (sym (length-payload td v))

-- What the loop reads at an offset where an entry starts.
module _ (buffer : List ℕ) (offset : ℕ) (td : TlvData) (rest : List ℕ) (v : IsValid td)
    (e : drop offset buffer ≡ encode_one td ++ rest) where
  tag_at : get16 (drop offset buffer) 0 ≡ td.tag
  tag_at = rw e (be16_value td.tag v.tag_fits)

  len_at : get32 (drop offset buffer) 2 ≡ td.len
  len_at = rw e (be32_value td.len v.len_fits)

  body_at : drop (offset + 6) buffer ≡ payload td ++ rest
  body_at = drop-add offset 6 buffer ∙ rw e refl

  next_at : drop (offset + 6 + td.len) buffer ≡ rest
  next_at = drop-add (offset + 6) td.len buffer ∙ rw body_at (drop-payload td rest v)

  payload_at : take td.len (drop (offset + 6) buffer) ≡ payload td
  payload_at = rw body_at (take-payload td rest v)

find_from-encode :
    (fuel : ℕ) (buffer : List ℕ) (tag offset : ℕ) (tds : List TlvData)
    → AllValid tds
    → drop offset buffer ≡ encode tds
    → length buffer ≡ offset + length (encode tds)
    → length (encode tds) < fuel
    → payload? (find_from fuel buffer tag offset) ≡ first tag tds
unfolding find_from encode first
find_from-encode zero buffer tag offset tds v e n h = absurd (omega arith)
find_from-encode (suc fuel) buffer tag offset [] v e n h = ground arith
find_from-encode (suc fuel) buffer tag offset (td ∷ tds) v e n h =
    let r = encode tds in
    rw (tag_at buffer offset td r v.0 e, len_at buffer offset td r v.0 e)
      (ground (
        arith,
        length-append (encode_one td) r,
        length-encode_one td v.0,
        payload_at buffer offset td r v.0 e,
        find_from-encode fuel buffer tag (offset + 6 + td.len) tds v.1
            (next_at buffer offset td r v.0 e),
      ))

-- Searching the bytes that `append` writes to an empty buffer gives the first entry with the tag
-- and its bytes, and nothing if there is no such entry.
pub find_tag-encode :
    (tds : List TlvData) (tag : ℕ)
    → AllValid tds
    → payload? (find_tag (encode tds) tag) ≡ first tag tds
unfolding find_tag
find_tag-encode tds tag v =
    find_from-encode (suc (length (encode tds))) (encode tds) tag 0 tds v refl (omega arith)
      (omega arith)

encode-append : (xs ys : List TlvData) → encode (xs ++ ys) ≡ encode xs ++ encode ys
unfolding encode
encode-append [] ys = refl
encode-append (x ∷ xs) ys = simp (encode-append xs ys, append_assoc)

AllValid-append : (xs ys : List TlvData) → AllValid xs → AllValid ys → AllValid (xs ++ ys)
AllValid-append [] ys v w = w
AllValid-append (x ∷ xs) ys v w = (v.0, AllValid-append xs ys v.1 w)

-- After a stream of valid entries has valid entries appended to it, a search for any tag gives the
-- bytes of the first entry with that tag, the old entries before the new, and nothing if no entry
-- has it.
pub find_tag-append :
    (can_alloc : ℕ → Bool) (old new : List TlvData) (tag : ℕ) {buffer : List ℕ}
    → AllValid old
    → AllValid new
    → append can_alloc (encode old) new ≡ ok buffer
    → payload? (find_tag buffer tag) ≡ first tag (old ++ new)
unfolding append
find_tag-append can_alloc old new tag {buffer} v w h =
    let e : encode old ++ encode new ≡ buffer = ground arith in
    rw (← e) (
      rw (← encode-append old new) (find_tag-encode (old ++ new) tag (AllValid-append old new v w)))

-- The search in a stream of its own.
pub find_tag-append_nil :
    (can_alloc : ℕ → Bool) (tds : List TlvData) (tag : ℕ) {buffer : List ℕ}
    → AllValid tds
    → append can_alloc [] tds ≡ ok buffer
    → payload? (find_tag buffer tag) ≡ first tag tds
unfolding encode
find_tag-append_nil can_alloc tds tag v h = find_tag-append can_alloc [] tds tag tt v h
