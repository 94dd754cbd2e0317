-- ===== src/Nvstore/Tests.antt =====
-- The theorems on src/swtpm/swtpm_aes.c and swtpm_nvstore.c at small data. The cipher leaves the data
-- as they are, and the digests are the first bytes.
use swtpm.Common.{
  ℕ, suc, ◌≡◌, ◌≢◌, ◌⊎◌, inl, inr, refl, true, false, Option, none, some, List, [], ◌∷◌, ◌++◌,
  length, take, drop, replicate, arith, if◌then◌else◌,
}
use swtpm.Common.Result.{Error, Rc, success, error, ok}
use swtpm.Linear.{Name}
use swtpm.Aes.{
  key_bytes, chaining_vector, has_aes_evp_fn, of_length, pad_length_of, padded,
  symmetric_key_data_encrypt, symmetric_key_data_decrypt,
}
use swtpm.Aes.RoundTrip.{symmetric_key_data_decrypt-encrypt}
use swtpm.Tlv.{TlvData, added_length, encode, append, tag_encrypted_data, tag_ivec_encrypted_data}
use swtpm.Nvstore.Crypt.{
  encrypt_data, encrypted_entries, roll_and_set_global_ivec, swtpm_hmac, calc_hmac, hmac_entry,
  decrypt_data,
}
use swtpm.Nvstore.Entries.{IsUsable, AreTags}
use swtpm.Nvstore.RoundTrip.{decrypt_data-encrypt_data}
use swtpm.Nvstore.Integrity.{Verified, decrypt_data-Verified, set_key-IsUsable}
use swtpm.Nvstore.Blob.{StateType, set_state_blob}
use swtpm.Nvstore.Storage.{set_state_blob-get_state_blob}
use swtpm.Nvstore.{
  has_flag, aes128_key_size, aes256_key_size, EncryptionMode, blob_header, prepend_header,
  check_header, set_key,
}
use swtpm.Nvstore.Header.{check_header-prepend_header}
use swtpm.Nvstore.Samples.{
  open_crypto, open_laws, short_key, three_bytes, state_key, state_key-IsUsable, no_ivec, one_place,
  sender, sender_loads, moved, moved_blob, moved_made, permanent_blob,
}

three_bytes_encrypted :
    symmetric_key_data_encrypt open_crypto three_bytes short_key none
    ≡ ok (three_bytes ++ replicate 13 13)
unfolding symmetric_key_data_encrypt chaining_vector has_aes_evp_fn of_length pad_length_of padded
three_bytes_encrypted = refl

symmetric_key_data_decrypt-encrypt_example :
    symmetric_key_data_decrypt open_crypto (three_bytes ++ replicate 13 13) short_key none
    ≡ ok three_bytes
symmetric_key_data_decrypt-encrypt_example =
    symmetric_key_data_decrypt-encrypt open_crypto open_laws three_bytes
      (three_bytes ++ replicate 13 13) short_key none (inl refl) (omega arith) three_bytes_encrypted

abbrev blob : List ℕ
blob = 2 ∷ 1 ∷ 0 ∷ 10 ∷ 0 ∷ 5 ∷ 0 ∷ 0 ∷ 0 ∷ 13 ∷ three_bytes

blob_made : prepend_header (λ n. true) three_bytes 5 ≡ ok blob
unfolding prepend_header blob_header
blob_made = refl

check_header-prepend_header_example :
    (check_header blob ≡ ok (record { dataoffset = 10; hdrflags = 5; hdrversion = 2 }))
    × (drop 10 blob ≡ three_bytes)
check_header-prepend_header_example =
    check_header-prepend_header (λ n. true) three_bytes blob 5 (omega arith) (omega arith) blob_made

state_tags_differ : AreTags tag_encrypted_data tag_ivec_encrypted_data
state_tags_differ = record {
  tag_fits = omega arith;
  tag_ivec_fits = omega arith;
  tag_not_hmac = omega arith;
  tag_ivec_not_hmac = omega arith;
  tag_ivec_not_tag = omega arith;
}

abbrev entries : List TlvData
entries =
    record { tag = 2; len = 16; ptr = three_bytes ++ replicate 13 13 }
    ∷ record { tag = 3; len = 32; ptr = three_bytes ++ (replicate 13 13 ++ replicate 16 7) }
    ∷ record { tag = 6; len = 16; ptr = replicate 16 7 }
    ∷ []

entries_made :
    (encrypt_data open_crypto state_key tag_encrypted_data three_bytes tag_ivec_encrypted_data
      no_ivec).0
    ≡ ok entries
unfolding encrypt_data encrypted_entries symmetric_key_data_encrypt chaining_vector
    roll_and_set_global_ivec has_aes_evp_fn of_length pad_length_of padded calc_hmac hmac_entry
    swtpm_hmac
entries_made = refl

abbrev stream : List ℕ
stream =
    (0 ∷ 2 ∷ 0 ∷ 0 ∷ 0 ∷ 16 ∷ (three_bytes ++ replicate 13 13))
    ++ ((0 ∷ 3 ∷ 0 ∷ 0 ∷ 0 ∷ 32 ∷ (three_bytes ++ (replicate 13 13 ++ replicate 16 7)))
        ++ (0 ∷ 6 ∷ 0 ∷ 0 ∷ 0 ∷ 16 ∷ replicate 16 7))

entries_appended : append (λ n. true) [] entries ≡ ok stream
unfolding append added_length encode
entries_appended = refl

decrypt_data-encrypt_data_example :
    decrypt_data open_crypto state_key stream tag_encrypted_data 2 tag_ivec_encrypted_data 1 8
    ≡ ok three_bytes
decrypt_data-encrypt_data_example =
    decrypt_data-encrypt_data open_laws state_key state_tags_differ three_bytes stream
      state_key-IsUsable (omega arith) no_ivec 1 8 entries (omega arith) refl entries_made
      entries_appended

decrypt_data-Verified_example :
    (state_key.data_encmode ≡ EncryptionMode.aes_cbc)
    × (state_key.symkey.user_key_length
        ≡ (if has_flag 1 8 then aes256_key_size else aes128_key_size))
    × Verified open_crypto short_key stream three_bytes tag_encrypted_data tag_ivec_encrypted_data
decrypt_data-Verified_example =
    decrypt_data-Verified open_crypto state_key stream three_bytes tag_encrypted_data
      tag_ivec_encrypted_data 1 8 decrypt_data-encrypt_data_example

set_key-IsUsable_example :
    (((set_key (replicate 16 4) 16 EncryptionMode.aes_cbc state_key).0 ≡ success)
      × (EncryptionMode.aes_cbc ≡ EncryptionMode.aes_cbc)
      × ((16 ≡ aes128_key_size) ⊎ (16 ≡ aes256_key_size))
      × IsUsable (set_key (replicate 16 4) 16 EncryptionMode.aes_cbc state_key).1
      × (key_bytes (set_key (replicate 16 4) 16 EncryptionMode.aes_cbc state_key).1.symkey
          ≡ take 16 (replicate 16 4))
      × (length (set_key (replicate 16 4) 16 EncryptionMode.aes_cbc state_key).1.symkey.user_key
          ≡ aes256_key_size))
    ⊎ ((e : Error) × ((set_key (replicate 16 4) 16 EncryptionMode.aes_cbc state_key).0 ≡ error e)
        × ((EncryptionMode.aes_cbc ≡ EncryptionMode.unknown)
            ⊎ ((16 ≢ aes128_key_size) × (16 ≢ aes256_key_size)))
        × ((set_key (replicate 16 4) 16 EncryptionMode.aes_cbc state_key).1 ≡ state_key))
set_key-IsUsable_example =
    set_key-IsUsable (replicate 16 4) 16 EncryptionMode.aes_cbc state_key refl (omega arith)

abbrev set_state : StateType → Option (List ℕ) → ℕ → Rc × ℕ
set_state st bytes t = (success, suc t)

set_state_blob-get_state_blob_example :
    set_state_blob open_crypto set_state moved_blob false 1 sender 0
    ≡ set_state StateType.permanent (some three_bytes) 0
set_state_blob-get_state_blob_example =
    set_state_blob-get_state_blob open_laws (λ n p. refl) one_place set_state three_bytes moved_blob
      false false Name.permall 1 StateType.permanent sender moved.1 sender 0 (inl refl)
      (inr (refl, state_key-IsUsable)) refl refl (omega arith) (omega arith) sender_loads
      permanent_blob moved_made
