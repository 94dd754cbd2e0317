-- ===== src/Nvstore/Crypt.antt =====
-- The encryption of a blob's data in src/swtpm/swtpm_nvstore.c.
use swtpm.Common.{
  ℕ, Bool, true, false, not, ◌&&◌, Option, none, some, List, [], ◌∷◌, ◌++◌, ltb, ◌==◌,
  if◌then◌else◌, length, take, drop, min,
}
use swtpm.Common.Result.{Result, ok, err, ◌>>=◌, fail, bad_mode, bad_key_property, decrypt_error}
use swtpm.Crypto.{Crypto, digest_length}
use swtpm.Aes.{SymmetricKeyData, key_bytes, symmetric_key_data_encrypt, symmetric_key_data_decrypt}
use swtpm.Tlv.{TlvData, find_tag, payload, tag_hmac}
use swtpm.Nvstore.{EncryptionKey, EncryptionMode, has_flag, aes128_key_size, aes256_key_size}

-- the statics g_ivec and g_ivec_length, which is its length, and the random number generator
pub record IvecState (R : Type 0) : Type 0 where
  pub g_ivec : List ℕ
  pub rng : R

-- memcmp of two buffers of the same length, and CRYPTO_memcmp
unfoldable pub bytes_eq : List ℕ → List ℕ → Bool
bytes_eq [] [] = true
bytes_eq [] (y ∷ ys) = false
bytes_eq (x ∷ xs) [] = false
bytes_eq (x ∷ xs) (y ∷ ys) = (x == y) && bytes_eq xs ys

-- the bytes of a vector that may be NULL
abbrev pub ivec_bytes : Option (List ℕ) → List ℕ
ivec_bytes none = []
ivec_bytes (some ivec) = ivec

-- SWTPM_GetIvec: the vector, or `none` for NULL
unfoldable pub get_ivec : List ℕ → ℕ → Option (List ℕ)
get_ivec bytes tag = elim (find_tag bytes tag) [ none ↦ none | some td ↦ some (payload td) ]

-- td[2], where there is a vector
abbrev pub ivec_entry : ℕ → Option (List ℕ) → List TlvData
ivec_entry tag none = []
ivec_entry tag (some ivec) = record { tag = tag; len = length ivec; ptr = ivec } ∷ []

module _ {R : Type 0} (crypto : Crypto R) where
  -- RAND_bytes into g_ivec, which has `n` bytes now, and the hash where it fails
  unfoldable pub roll : ℕ → R → Option (List ℕ) × IvecState R
  roll n r =
      let (good, bytes, r') = crypto.rand_bytes n r in
      let k = min n digest_length in
      let ivec = if good then bytes else take k (crypto.sha256 crypto.stack_data) ++ drop k bytes in
      (some ivec, record { g_ivec = ivec; rng = r' })

  -- SWTPM_RollAndSetGlobalIvec: the vector that *td points to, `none` where realloc fails
  unfoldable pub roll_and_set_global_ivec : ℕ → IvecState R → Option (List ℕ) × IvecState R
  unfolding roll
  roll_and_set_global_ivec ivec_length s =
      if ltb (length s.g_ivec) ivec_length
      then (if crypto.can_alloc ivec_length then roll ivec_length s.rng else (none, s))
      else roll (length s.g_ivec) s.rng

  -- SWTPM_HMAC
  unfoldable pub swtpm_hmac : SymmetricKeyData → List ℕ → Option (List ℕ) → Option (List ℕ)
  swtpm_hmac key bytes ivec = crypto.hmac (key_bytes key) (bytes ++ ivec_bytes ivec)

  -- CalcHMAC behind the HMAC
  unfoldable pub hmac_entry : Option (List ℕ) → Result TlvData
  hmac_entry none = err fail
  hmac_entry (some md) =
      if crypto.can_alloc (length md)
      then ok (record { tag = tag_hmac; len = length md; ptr = md })
      else err fail

  -- SWTPM_CalcHMAC: *td
  unfoldable pub calc_hmac : List ℕ → SymmetricKeyData → Option (List ℕ) → Result TlvData
  calc_hmac bytes key ivec = hmac_entry (swtpm_hmac key bytes ivec)

  -- CheckHMAC behind the HMAC, for the bytes at the HMAC's pointer
  unfoldable pub compare_hmac : List ℕ → Option (List ℕ) → Result (Unit {0})
  compare_hmac ptr none = err fail
  compare_hmac ptr (some md) =
      if bytes_eq (take (length md) ptr) md then ok tt else err decrypt_error

  -- SWTPM_CheckHMAC
  unfoldable pub check_hmac :
      TlvData → TlvData → SymmetricKeyData → Option (List ℕ) → Result (Unit {0})
  check_hmac hmac encrypted_data key ivec =
      if ltb hmac.len digest_length
      then err fail
      else compare_hmac hmac.ptr (swtpm_hmac key (payload encrypted_data) ivec)

  -- SWTPM_CheckHash
  unfoldable pub check_hash : List ℕ → Result (List ℕ)
  check_hash bytes =
      let rest = drop digest_length bytes in
      if ltb (length bytes) digest_length
      then err fail
      else if not (bytes_eq (take digest_length bytes) (crypto.sha256 rest))
      then err fail
      else if crypto.can_alloc (length rest)
      then ok rest
      else err fail

  -- the AES-CBC case of EncryptData, behind the choice of the vector
  unfoldable pub encrypted_entries :
      SymmetricKeyData → ℕ → List ℕ → ℕ → Option (List ℕ) → Result (List TlvData)
  encrypted_entries key tag_encrypted bytes tag_ivec ivec =
      symmetric_key_data_encrypt crypto bytes key ivec >>= λ tmp. calc_hmac tmp key ivec >>= λ hmac.
      ok (
        record { tag = tag_encrypted; len = length tmp; ptr = tmp }
        ∷ hmac
        ∷ ivec_entry tag_ivec ivec)

  -- SWTPM_NVRAM_EncryptData: td[0 .. *td_len]
  unfoldable pub encrypt_data :
      EncryptionKey → ℕ → List ℕ → ℕ → IvecState R → Result (List TlvData) × IvecState R
  encrypt_data key tag_encrypted bytes tag_ivec s =
      if ltb 0 key.symkey.user_key_length
      then elim key.data_encmode [
        | EncryptionMode.unknown ↦ (err bad_mode, s)
        | EncryptionMode.aes_cbc ↦
            let (ivec, s') = roll_and_set_global_ivec key.symkey.user_key_length s in
            (encrypted_entries key.symkey tag_encrypted bytes tag_ivec ivec, s')
      ]
      else (ok [], s)

  -- the case of DecryptData for version 1
  unfoldable pub decrypt_data_v1 : SymmetricKeyData → List ℕ → Result (List ℕ)
  decrypt_data_v1 key bytes = symmetric_key_data_decrypt crypto bytes key none >>= check_hash

  -- the case of DecryptData for version 2, behind the search for the HMAC and the data
  unfoldable pub checked_and_decrypted :
      SymmetricKeyData → Option (List ℕ) → Option TlvData → Option TlvData → Result (List ℕ)
  checked_and_decrypted key ivec none encrypted = err fail
  checked_and_decrypted key ivec (some hmac) none = err fail
  checked_and_decrypted key ivec (some hmac) (some encrypted) =
      check_hmac hmac encrypted key ivec >>= λ _.
      symmetric_key_data_decrypt crypto (payload encrypted) key ivec

  -- the case of DecryptData for version 2
  unfoldable pub decrypt_data_v2 : SymmetricKeyData → List ℕ → ℕ → ℕ → ℕ → ℕ → Result (List ℕ)
  unfolding checked_and_decrypted
  decrypt_data_v2 key bytes tag_encrypted tag_ivec hdrflags flag_256bitkey =
      let keylen = if has_flag hdrflags flag_256bitkey then aes256_key_size else aes128_key_size in
      if not (keylen == key.user_key_length)
      then err bad_key_property
      else checked_and_decrypted key (get_ivec bytes tag_ivec) (find_tag bytes tag_hmac)
          (find_tag bytes tag_encrypted)

  -- SWTPM_NVRAM_DecryptData
  unfoldable pub decrypt_data : EncryptionKey → List ℕ → ℕ → ℕ → ℕ → ℕ → ℕ → Result (List ℕ)
  decrypt_data key bytes tag_encrypted hdrversion tag_ivec hdrflags flag_256bitkey =
      if key.symkey.user_key_length == 0 then err fail else elim key.data_encmode [
        | EncryptionMode.unknown ↦ err bad_mode
        | EncryptionMode.aes_cbc ↦
            if hdrversion == 1
            then decrypt_data_v1 key.symkey bytes
            else if hdrversion == 2
            then decrypt_data_v2 key.symkey bytes tag_encrypted tag_ivec hdrflags flag_256bitkey
            else err fail
      ]

  -- a copy of an entry that was found
  unfoldable pub plain_entry : Option TlvData → Result (List ℕ)
  plain_entry none = err fail
  plain_entry (some td) = if crypto.can_alloc td.len then ok (payload td) else err fail

  -- SWTPM_NVRAM_GetPlainData
  unfoldable pub get_plain_data : List ℕ → ℕ → ℕ → Result (List ℕ)
  get_plain_data bytes tag hdrversion =
      if hdrversion == 1
      then (if crypto.can_alloc (length bytes) then ok bytes else err fail)
      else if hdrversion == 2
      then plain_entry (find_tag bytes tag)
      else err fail

  -- SWTPM_NVRAM_GetDecryptedData, with a key
  unfoldable pub get_decrypted_data :
      EncryptionKey → List ℕ → ℕ → ℕ → ℕ → ℕ → ℕ → ℕ → Result (List ℕ)
  get_decrypted_data key bytes tag_encrypted tag hdrversion tag_ivec hdrflags flag_256bitkey =
      if ltb 0 key.symkey.user_key_length
      then decrypt_data key bytes tag_encrypted hdrversion tag_ivec hdrflags flag_256bitkey
      else get_plain_data bytes tag hdrversion
