-- ===== src/Aes/RoundTrip.antt =====
-- What swtpm_aes.c encrypts, it decrypts.
use swtpm.Common.{
  ℕ, zero, suc, ◌+◌, ◌-◌, ◌*◌, ◌%◌, ◌<◌, ◌≤◌, ◌≡◌, ◌⊎◌, inl, inr, ◌∙◌, sym, ap, refl, true, false,
  Option, none, some, List, [], ◌∷◌, ◌++◌, u32_mod, ltb, ◌==◌, length, get_or, take, drop,
  replicate, arith, length-append, length-replicate, take-append, drop-append, take_all, ==_iff,
}
use swtpm.Common.Result.{Error, ok, >>=-eq-ok, if-eq-ok, if-eq-ok_not, encrypt_error, decrypt_error}
use swtpm.Crypto.{Crypto, CryptoLaws, block_size}
use swtpm.Aes.{
  SymmetricKeyData, key_bytes, has_aes_evp_fn, chaining_vector, of_length, padded, pad_length_of,
  pad_ok, unpadded, symmetric_key_data_encrypt, symmetric_key_data_decrypt,
}

pad_ok-replicate : (n b : ℕ) → pad_ok b (replicate n b) ≡ true
unfolding pad_ok
pad_ok-replicate zero b = refl
pad_ok-replicate (suc n) b = ground (arith, pad_ok-replicate n b)

get_or-append :
    (xs ys : List ℕ) (k i : ℕ) → k ≡ length xs + i → get_or (xs ++ ys) k 0 ≡ get_or ys i 0
get_or-append [] ys k i h = let e : k ≡ i = omega arith in ap (λ j. get_or ys j 0) e
get_or-append (x ∷ xs) ys zero i h = absurd (omega arith)
get_or-append (x ∷ xs) ys (suc k) i h = get_or-append xs ys k i (omega arith)

get_or-replicate : (n i b : ℕ) → i < n → get_or (replicate n b) i 0 ≡ b
get_or-replicate zero i b h = absurd (omega arith)
get_or-replicate (suc n) zero b h = refl
get_or-replicate (suc n) (suc i) b h = get_or-replicate n i b (omega arith)

-- A list that ends in a pad.
module _ (pad : ℕ) (bytes : List ℕ) (pos : 0 < pad) (small : pad < 256) where
  length-padded : length (padded pad bytes) ≡ length bytes + pad
  unfolding padded
  length-padded =
      omega
        (arith, length-append bytes (replicate pad (pad % 256)), length-replicate pad (pad % 256))

  last_of_padded : get_or (padded pad bytes) (length bytes + pad - 1) 0 ≡ pad
  unfolding padded
  last_of_padded = omega (
    arith,
    get_or-append bytes (replicate pad (pad % 256)) (length bytes + pad - 1) (pad - 1)
        (omega arith),
    get_or-replicate pad (pad - 1) (pad % 256) (omega arith),
  )

  pad_of_padded : pad_ok pad (drop (length bytes) (padded pad bytes)) ≡ true
  unfolding padded
  pad_of_padded =
      let e : pad % 256 ≡ pad = omega arith in
      rw (drop-append (length bytes) bytes (replicate pad (pad % 256)) refl, e)
        (pad_ok-replicate pad pad)

  data_of_padded : take (length bytes) (padded pad bytes) ≡ bytes
  unfolding padded
  data_of_padded = take-append (length bytes) bytes (replicate pad (pad % 256)) refl

pub unpadded-padded :
    (k pad : ℕ) (bytes : List ℕ)
    → 0 < pad
    → pad ≤ k
    → pad < 256
    → unpadded k (padded pad bytes) ≡ ok bytes
unfolding unpadded
unpadded-padded k pad bytes pos le small =
    let e : length bytes + pad - pad ≡ length bytes = omega arith in
    rw (length-padded pad bytes pos small, last_of_padded pad bytes pos small, e)
      (ground (arith, pad_of_padded pad bytes pos small, data_of_padded pad bytes pos small))

of_length-ok :
    (n : ℕ) (r : Option (List ℕ)) {bytes : List ℕ}
    → of_length n r ≡ ok bytes
    → (r ≡ some bytes) × (length bytes ≡ n)
unfolding of_length
of_length-ok n none h = cc
of_length-ok n (some x) {bytes} h =
    let (same, e) = if-eq-ok _ (length x == n) (ok x) h in
    let e' : x ≡ bytes = ground (arith, e) in (ap some e', rw (← e') ((==_iff (length x) n).0 same))

of_length-some : (n : ℕ) (bytes : List ℕ) → length bytes ≡ n → of_length n (some bytes) ≡ ok bytes
unfolding of_length
of_length-some n bytes h = ground arith

chaining_vector_any :
    (c d : Error) (u_ivec : Option (List ℕ)) {ivec : List ℕ}
    → chaining_vector c u_ivec ≡ ok ivec
    → chaining_vector d u_ivec ≡ ok ivec
unfolding chaining_vector
chaining_vector_any c d none h = h
chaining_vector_any c d (some u_ivec) h =
    let (enough, e) =
      if-eq-ok_not _ (ltb (length u_ivec) block_size) (ok (take block_size u_ivec)) h in
    rw enough e

-- The pad fills the data up to whole blocks of the key's length, with at least one byte.
module _ (k : ℕ) (sized : (k ≡ 16) ⊎ (k ≡ 32)) (plain : List ℕ) where
  abbrev n : ℕ
  n = length plain

  pad_length-pos : 0 < pad_length_of k n
  unfolding pad_length_of
  pad_length-pos = elim sized [ inl e ↦ rw e (omega arith) | inr e ↦ rw e (omega arith) ]

  pad_length-le : pad_length_of k n ≤ k
  unfolding pad_length_of
  pad_length-le = omega arith

  key_small : k < 256
  key_small = elim sized [ inl e ↦ omega arith | inr e ↦ omega arith ]

  key_pos : 0 < k
  key_pos = elim sized [ inl e ↦ omega arith | inr e ↦ omega arith ]

  pad_length-small : pad_length_of k n < 256
  pad_length-small = omega (arith, pad_length-le, key_small)

  length_padded : length (padded (pad_length_of k n) plain) ≡ n + pad_length_of k n
  length_padded = length-padded (pad_length_of k n) plain pad_length-pos pad_length-small

  whole_blocks : (n + pad_length_of k n) % block_size ≡ 0
  unfolding pad_length_of
  whole_blocks = elim sized [ inl e ↦ rw e (omega arith) | inr e ↦ rw e (omega arith) ]

  key-le : k ≤ n + pad_length_of k n
  unfolding pad_length_of
  key-le = elim sized [ inl e ↦ rw e (omega arith) | inr e ↦ rw e (omega arith) ]

-- Under CryptoLaws. A key of 16 or 32 bytes, and data that stay below 2 ^ 32 bytes with their pad: if the encryption
-- gives `bytes` and malloc gives as many, the decryption with the same key and vector gives the data.
pub symmetric_key_data_decrypt-encrypt :
    {R : Type 0} (crypto : Crypto R)
    → CryptoLaws crypto
    → (plain bytes : List ℕ) (key : SymmetricKeyData) (u_ivec : Option (List ℕ))
    → (key.user_key_length ≡ 16) ⊎ (key.user_key_length ≡ 32)
    → length plain + 32 < u32_mod
    → symmetric_key_data_encrypt crypto plain key u_ivec ≡ ok bytes
    → symmetric_key_data_decrypt crypto bytes key u_ivec ≡ ok plain
unfolding symmetric_key_data_encrypt symmetric_key_data_decrypt
symmetric_key_data_decrypt-encrypt crypto laws plain bytes key u_ivec sized fits h =
    let k = key.user_key_length in
    let pad = pad_length_of k (length plain) in
    let text = padded pad plain in
    let exact : (length plain + pad) % u32_mod ≡ length plain + pad =
      omega (arith, pad_length-le k sized plain, sized_small) in
    let (ivec, vector, h₁) = >>=-eq-ok (chaining_vector encrypt_error u_ivec) _ (rw exact at h) in
    let (alloc, h₂) = if-eq-ok _ (crypto.can_alloc (length plain + pad)) _ h₁ in
    let (has, h₃) = if-eq-ok _ (has_aes_evp_fn (k * 8)) _ h₂ in
    let (done, n) = of_length-ok (length plain + pad) _ h₃ in
    let whole = take_all (length plain + pad) text (sym (length_padded k sized plain)) in
    let blocks : length text % block_size ≡ 0 =
      rw (length_padded k sized plain) (whole_blocks k sized plain) in
    let back = laws.aes_decrypts (key_bytes key) ivec text bytes blocks (rw whole at done) in
    let same : length text ≡ length bytes = length_padded k sized plain ∙ sym n in
    let long : ltb (length bytes) k ≡ false = ground (arith, key-le k sized plain) in
    rw (long, chaining_vector_any encrypt_error decrypt_error u_ivec vector, n, alloc, has, back)
      (rw (of_length-some (length plain + pad) text (length_padded k sized plain)) (
        unpadded-padded k pad plain (pad_length-pos k sized plain) (pad_length-le k sized plain)
          (pad_length-small k sized plain)))
  where
    sized_small : key.user_key_length ≤ 32
    sized_small = elim sized [ inl e ↦ omega arith | inr e ↦ omega arith ]

-- The length of what is encrypted fits a uint32_t, and the pad is at most as long as the key.
pub length-symmetric_key_data_encrypt :
    {R : Type 0} (crypto : Crypto R) (plain bytes : List ℕ) (key : SymmetricKeyData)
    (u_ivec : Option (List ℕ))
    → symmetric_key_data_encrypt crypto plain key u_ivec ≡ ok bytes
    → (length bytes < u32_mod) × (length bytes ≤ length plain + key.user_key_length)
unfolding symmetric_key_data_encrypt pad_length_of
length-symmetric_key_data_encrypt crypto plain bytes key u_ivec h =
    let n = (length plain + pad_length_of key.user_key_length (length plain)) % u32_mod in
    let (ivec, vector, h₁) = >>=-eq-ok (chaining_vector encrypt_error u_ivec) _ h in
    let (alloc, h₂) = if-eq-ok _ (crypto.can_alloc n) _ h₁ in
    let (has, h₃) = if-eq-ok _ (has_aes_evp_fn (key.user_key_length * 8)) _ h₂ in
    omega (arith, (of_length-ok n _ h₃).1)
