-- ===== src/Crypto.antt =====
-- What src/swtpm/swtpm_aes.c and swtpm_nvstore.c call of OpenSSL and of malloc, as parameters of the
-- model, and what they rely on.
use swtpm.Common.{ℕ, ◌%◌, ◌≡◌, Bool, Option, some, List, length}

-- SWTPM_AES_BLOCK_SIZE, the size of a block of every AES
abbrev pub block_size : ℕ
block_size = 16

-- SHA256_DIGEST_LENGTH, and EVP_MD_size(EVP_sha256())
abbrev pub digest_length : ℕ
digest_length = 32

-- R is the state of the random number generator. `none` is a call that fails: of the init, update
-- or final call of a cipher, or of one of the HMAC's.
pub record Crypto (R : Type 0) : Type 0 where
  -- key, chaining vector and data, with the padding off
  pub aes_encrypt : List ℕ → List ℕ → List ℕ → Option (List ℕ)
  pub aes_decrypt : List ℕ → List ℕ → List ℕ → Option (List ℕ)
  -- key, and the bytes of all updates
  pub hmac : List ℕ → List ℕ → Option (List ℕ)
  pub sha256 : List ℕ → List ℕ
  -- the uninitialised array that is hashed where RAND_bytes fails
  pub stack_data : List ℕ
  -- whether RAND_bytes gives 1, and the buffer that it leaves
  pub rand_bytes : ℕ → R → Bool × List ℕ × R
  pub can_alloc : ℕ → Bool

-- The documented behaviour: a cipher with the padding off keeps the length of whole blocks and is
-- undone by the same key and vector, an HMAC has the digest's length and depends on the key and the
-- bytes alone, and a buffer keeps its length.
pub record CryptoLaws {R : Type 0} (crypto : Crypto R) : Type 0 where
  pub aes_keeps_length :
      (key iv plain bytes : List ℕ)
      → length plain % block_size ≡ 0
      → crypto.aes_encrypt key iv plain ≡ some bytes
      → length bytes ≡ length plain
  pub aes_decrypts :
      (key iv plain bytes : List ℕ)
      → length plain % block_size ≡ 0
      → crypto.aes_encrypt key iv plain ≡ some bytes
      → crypto.aes_decrypt key iv bytes ≡ some plain
  pub length-hmac :
      (key bytes digest : List ℕ)
      → crypto.hmac key bytes ≡ some digest
      → length digest ≡ digest_length
  pub length-sha256 : (bytes : List ℕ) → length (crypto.sha256 bytes) ≡ digest_length
  pub length-rand_bytes : (n : ℕ) (r : R) → length (crypto.rand_bytes n r).1 ≡ n
