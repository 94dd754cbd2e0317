-- ===== src/Tlv/Tests.antt =====
-- Tests of tlv.c, and the theorems at concrete inputs.
use swtpm.Common.{
  ℕ, ◌+◌, ◌^◌, ◌<◌, ◌≡◌, refl, Bool, true, none, some, List, [], ◌∷◌, ◌++◌, u32_mod, length, arith,
}
use swtpm.Common.Result.{ok}
use swtpm.Tlv.{TlvData, AllValid, tag_data, tag_hmac, encode, append, find_from, find_tag}
use swtpm.Tlv.RoundTrip.{first, payload?, find_tag-append}
use swtpm.Tlv.Bounds.{Found, append-ok, find_tag-Found, find_from_fuel}

abbrev data_entry : TlvData
data_entry = record { tag = tag_data; len = 2; ptr = 10 ∷ 20 ∷ 30 ∷ [] }

abbrev hmac_entry : TlvData
hmac_entry = record { tag = tag_hmac; len = 1; ptr = 7 ∷ [] }

abbrev any_size : ℕ → Bool
any_size n = true

abbrev stream : List ℕ
stream = 0 ∷ 1 ∷ 0 ∷ 0 ∷ 0 ∷ 2 ∷ 10 ∷ 20 ∷ 0 ∷ 3 ∷ 0 ∷ 0 ∷ 0 ∷ 1 ∷ 7 ∷ []

append-stream : append any_size (encode (data_entry ∷ [])) (hmac_entry ∷ []) ≡ ok stream
unfolding append encode
append-stream = refl

find_tag_truncated : find_tag (0 ∷ 1 ∷ 0 ∷ 0 ∷ 0 ∷ 9 ∷ 1 ∷ []) tag_data ≡ none
unfolding find_tag
find_tag_truncated = refl

entries_valid : AllValid (data_entry ∷ []) × AllValid (hmac_entry ∷ [])
entries_valid = omega arith

find_tag-append_example :
    payload? (find_tag stream tag_hmac) ≡ first tag_hmac (data_entry ∷ hmac_entry ∷ [])
find_tag-append_example =
    find_tag-append any_size (data_entry ∷ []) (hmac_entry ∷ []) tag_hmac entries_valid.0
      entries_valid.1 append-stream

stream_fits : length (encode (data_entry ∷ [])) + length (encode (hmac_entry ∷ [])) < 2 ^ 64
unfolding encode
stream_fits = omega arith

append-ok_example :
    (stream ≡ encode (data_entry ∷ []) ++ encode (hmac_entry ∷ []))
    × (any_size (length stream) ≡ true)
    × (length stream < u32_mod)
append-ok_example =
    append-ok any_size (encode (data_entry ∷ [])) (hmac_entry ∷ []) entries_valid.1 stream_fits
      append-stream

stream_hmac : find_tag stream tag_hmac ≡ some (record { tag = tag_hmac; len = 1; ptr = 7 ∷ [] })
unfolding find_tag
stream_hmac = refl

find_tag-Found_example : Found stream tag_hmac hmac_entry
find_tag-Found_example = find_tag-Found stream tag_hmac stream_hmac

find_from_fuel_example : find_from 16 stream tag_hmac 0 ≡ find_from 40 stream tag_hmac 0
find_from_fuel_example = find_from_fuel 16 40 stream tag_hmac 0 (omega arith) (omega arith)
