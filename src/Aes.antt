-- ===== src/Aes.antt =====
-- src/swtpm/swtpm_aes.c: the padding around AES in CBC mode, and its checks.
-- The output buffer is part of the result; a pointer to a vector that may be NULL is an Option.
pub mod RoundTrip
use swtpm.Common.{
  ℕ, zero, suc, ◌+◌, ◌-◌, ◌*◌, ◌%◌, ◌≡◌, Bool, true, false, ◌||◌, ◌&&◌, Option, none, some, List,
  [], ◌∷◌, ◌++◌, u32_mod, ltb, ◌==◌, if◌then◌else◌, length, get_or, take, drop, replicate,
}
use swtpm.Common.Result.{Error, Result, ok, err, ◌>>=◌, fail, size, encrypt_error, decrypt_error}
use swtpm.Crypto.{Crypto, block_size}

-- libtpms' TPM_SYMMETRIC_KEY_DATA: userKeyLength, and the array userKey.
pub record SymmetricKeyData : Type 0 where
  pub user_key_length : ℕ
  pub user_key : List ℕ

-- the bytes of the key that the cipher reads
abbrev pub key_bytes : SymmetricKeyData → List ℕ
key_bytes key = take key.user_key_length key.user_key

-- SWTPM_Get_AES_EVPFn: whether there is a cipher for that many bits
unfoldable pub has_aes_evp_fn : ℕ → Bool
has_aes_evp_fn bits = (bits == 128) || (bits == 256)

-- the chaining vector: the first block of the user's, or zeros
unfoldable pub chaining_vector : Error → Option (List ℕ) → Result (List ℕ)
chaining_vector bad none = ok (replicate block_size 0)
chaining_vector bad (some u_ivec) =
    if ltb (length u_ivec) block_size then err bad else ok (take block_size u_ivec)

-- the bytes that a cipher gives, if it gives as many as expected
unfoldable pub of_length : ℕ → Option (List ℕ) → Result (List ℕ)
of_length n none = err fail
of_length n (some bytes) = if length bytes == n then ok bytes else err fail

-- the padded clear text
unfoldable pub padded : ℕ → List ℕ → List ℕ
padded pad_length bytes = bytes ++ replicate pad_length (pad_length % 256)

unfoldable pub pad_length_of : ℕ → ℕ → ℕ
pad_length_of user_key_length n = user_key_length - n % user_key_length

-- whether each byte of the pad is the pad's length
unfoldable pub pad_ok : ℕ → List ℕ → Bool
pad_ok pad_length [] = true
pad_ok pad_length (b ∷ bs) = (b == pad_length) && pad_ok pad_length bs

-- the end of the decryption: the clear text without its pad
unfoldable pub unpadded : ℕ → List ℕ → Result (List ℕ)
unfolding pad_ok
unpadded user_key_length bytes =
    let n = length bytes in
    let pad_length = get_or bytes (n - 1) 0 in
    if (pad_length == 0) || ltb user_key_length pad_length
    then err decrypt_error
    else if pad_ok pad_length (drop (n - pad_length) bytes)
    then ok (take (n - pad_length) bytes)
    else err decrypt_error

module _ {R : Type 0} (crypto : Crypto R) where
  -- SWTPM_SymmetricKeyData_Encrypt
  unfoldable pub symmetric_key_data_encrypt :
      List ℕ → SymmetricKeyData → Option (List ℕ) → Result (List ℕ)
  symmetric_key_data_encrypt decrypt_data key u_ivec =
      let pad_length = pad_length_of key.user_key_length (length decrypt_data) in
      let encrypt_length = (length decrypt_data + pad_length) % u32_mod in
      chaining_vector encrypt_error u_ivec >>= λ ivec.
      if crypto.can_alloc encrypt_length
      then (if has_aes_evp_fn (key.user_key_length * 8)
          then of_length encrypt_length (
              crypto.aes_encrypt (key_bytes key) ivec
                (take encrypt_length (padded pad_length decrypt_data)))
          else err fail)
      else err size

  -- SWTPM_SymmetricKeyData_Decrypt
  unfoldable pub symmetric_key_data_decrypt :
      List ℕ → SymmetricKeyData → Option (List ℕ) → Result (List ℕ)
  symmetric_key_data_decrypt encrypt_data key u_ivec =
      if ltb (length encrypt_data) key.user_key_length
      then err decrypt_error
      else (chaining_vector decrypt_error u_ivec >>= λ ivec.
          if crypto.can_alloc (length encrypt_data)
          then (if has_aes_evp_fn (key.user_key_length * 8)
              then of_length (length encrypt_data)
                  (crypto.aes_decrypt (key_bytes key) ivec encrypt_data)
                >>= unpadded key.user_key_length
              else err fail)
          else err size)
