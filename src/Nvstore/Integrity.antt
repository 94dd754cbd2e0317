-- ===== src/Nvstore/Integrity.antt =====
-- What src/swtpm/swtpm_nvstore.c asks of data before it decrypts them, and of a key before it is set.
use swtpm.Common.{
  ℕ, ◌≡◌, ◌≢◌, ◌≤◌, ◌⊎◌, inl, inr, refl, sym, ap, true, not, Option, none, some, List, [], ◌∷◌,
  ◌++◌, ltb, ◌==◌, if◌then◌else◌, length, take, drop, arith, take-append, length-append,
  length-take, length-drop,
}
use swtpm.Common.Result.{Error, Rc, success, error, ok, err, >>=-eq-ok, if-eq-ok, if-eq-ok_not}
use swtpm.Crypto.{Crypto, digest_length}
use swtpm.Aes.{SymmetricKeyData, key_bytes, symmetric_key_data_decrypt}
use swtpm.Tlv.{TlvData, find_tag, payload, tag_hmac}
use swtpm.Nvstore.{
  EncryptionKey, EncryptionMode, has_flag, aes128_key_size, aes256_key_size, key_param_check,
  key_taken, set_key,
}
use swtpm.Nvstore.Crypt.{
  bytes_eq, get_ivec, swtpm_hmac, compare_hmac, check_hmac, checked_and_decrypted, decrypt_data,
  decrypt_data_v2,
}
use swtpm.Nvstore.Entries.{IsUsable}

pub bytes_eq_sound : (xs ys : List ℕ) → bytes_eq xs ys ≡ true → xs ≡ ys
unfolding bytes_eq
bytes_eq_sound [] [] h = refl
bytes_eq_sound [] (y ∷ ys) h = cc
bytes_eq_sound (x ∷ xs) [] h = cc
bytes_eq_sound (x ∷ xs) (y ∷ ys) h =
    let first : x ≡ y = ground arith in
    let rest : bytes_eq xs ys ≡ true = ground arith in
    rw first (ap (λ zs. y ∷ zs) (bytes_eq_sound xs ys rest))

-- Data that the version-2 format has let through: an HMAC of at least a digest's length stands in
-- the stream, it is that of the encrypted data and the vector under the key, and what is given is
-- the decryption of these data.
pub record Verified {R : Type 0} (crypto : Crypto R) (key : SymmetricKeyData)
    (stream bytes : List ℕ) (tag tag_ivec : ℕ) : Type 0 where
  pub hmac : TlvData
  pub encrypted : TlvData
  pub md : List ℕ
  pub hmac_there : find_tag stream tag_hmac ≡ some hmac
  pub encrypted_there : find_tag stream tag ≡ some encrypted
  pub long : digest_length ≤ hmac.len
  pub computed : swtpm_hmac crypto key (payload encrypted) (get_ivec stream tag_ivec) ≡ some md
  pub same : take (length md) hmac.ptr ≡ md
  pub decrypted :
      symmetric_key_data_decrypt crypto (payload encrypted) key (get_ivec stream tag_ivec)
      ≡ ok bytes

Mode-cases : (m : EncryptionMode) → (m ≡ EncryptionMode.unknown) ⊎ (m ≡ EncryptionMode.aes_cbc)
Mode-cases EncryptionMode.unknown = inl refl
Mode-cases EncryptionMode.aes_cbc = inr refl

err-ok : {A : Type 0} {e : Error} {a : A} → ¬ (err e ≡ ok a)
err-ok h = cc

module _ {R : Type 0} (crypto : Crypto R) where
  compare_hmac-ok :
      (ptr : List ℕ) (r : Option (List ℕ)) {u : Unit {0}}
      → compare_hmac crypto ptr r ≡ ok u
      → (md : List ℕ) × (r ≡ some md) × (take (length md) ptr ≡ md)
  unfolding compare_hmac
  compare_hmac-ok ptr none h = cc
  compare_hmac-ok ptr (some md) h =
      let (same, _) = if-eq-ok _ (bytes_eq (take (length md) ptr) md) _ h in
      (md, refl, bytes_eq_sound (take (length md) ptr) md same)

  checked_and_decrypted-Verified :
      (key : SymmetricKeyData) (stream bytes : List ℕ) (tag tag_ivec : ℕ) (a b : Option TlvData)
      → find_tag stream tag_hmac ≡ a
      → find_tag stream tag ≡ b
      → checked_and_decrypted crypto key (get_ivec stream tag_ivec) a b ≡ ok bytes
      → Verified crypto key stream bytes tag tag_ivec
  unfolding checked_and_decrypted check_hmac
  checked_and_decrypted-Verified key stream bytes tag tag_ivec none b e f h = cc
  checked_and_decrypted-Verified key stream bytes tag tag_ivec (some hmac) none e f h = cc
  checked_and_decrypted-Verified key stream bytes tag tag_ivec (some hmac) (some encrypted) e f h =
      let ivec = get_ivec stream tag_ivec in
      let (u, checked, decrypted) = >>=-eq-ok (check_hmac crypto hmac encrypted key ivec) _ h in
      let (long, compared) = if-eq-ok_not _ (ltb hmac.len digest_length) _ checked in
      let (md, computed, same) = compare_hmac-ok hmac.ptr _ compared in
      record {
        hmac = hmac;
        encrypted = encrypted;
        md = md;
        hmac_there = e;
        encrypted_there = f;
        long = ground arith;
        computed = computed;
        same = same;
        decrypted = decrypted;
      }

  -- DecryptData for version 2 gives data only with a set key in AES-CBC mode of the size that the
  -- flags name, and only after the HMAC of the encrypted data has been found to be right.
  pub decrypt_data-Verified :
      (key : EncryptionKey) (stream bytes : List ℕ) (tag tag_ivec hdrflags flag_256bitkey : ℕ)
      → decrypt_data crypto key stream tag 2 tag_ivec hdrflags flag_256bitkey ≡ ok bytes
      → (key.data_encmode ≡ EncryptionMode.aes_cbc)
        × (key.symkey.user_key_length
            ≡ (if has_flag hdrflags flag_256bitkey then aes256_key_size else aes128_key_size))
        × Verified crypto key.symkey stream bytes tag tag_ivec
  unfolding decrypt_data decrypt_data_v2
  decrypt_data-Verified key stream bytes tag tag_ivec hdrflags flag_256bitkey h =
      let (set, h₁) = if-eq-ok_not _ (key.symkey.user_key_length == 0) _ h in
      elim (Mode-cases key.data_encmode) [
        | inl unknown_mode ↦ absurd (err-ok (rw unknown_mode at h₁))
        | inr aes_mode ↦
            let keylen =
              if has_flag hdrflags flag_256bitkey then aes256_key_size else aes128_key_size in
            let (fits, h₂) =
              if-eq-ok_not _ (not (keylen == key.symkey.user_key_length)) _ (rw aes_mode at h₁) in
            (
              aes_mode,
              ground (arith, fits),
              checked_and_decrypted-Verified key.symkey stream bytes tag tag_ivec _ _ refl refl h₂,
            )
      ]

key_param_check-success :
    (keylen : ℕ) (encmode : EncryptionMode)
    → key_param_check keylen encmode ≡ success
    → (encmode ≡ EncryptionMode.aes_cbc) × ((keylen ≡ aes128_key_size) ⊎ (keylen ≡ aes256_key_size))
unfolding key_param_check
key_param_check-success keylen EncryptionMode.unknown h = cc
key_param_check-success keylen EncryptionMode.aes_cbc h = (refl, ground arith)

key_param_check-error :
    (keylen : ℕ) (encmode : EncryptionMode) (e : Error)
    → key_param_check keylen encmode ≡ error e
    → (encmode ≡ EncryptionMode.unknown) ⊎ ((keylen ≢ aes128_key_size) × (keylen ≢ aes256_key_size))
unfolding key_param_check
key_param_check-error keylen EncryptionMode.unknown e h = inl refl
key_param_check-error keylen EncryptionMode.aes_cbc e h = inr (ground arith)

key_taken-IsUsable :
    (bytes : List ℕ) (keylen : ℕ) (encmode : EncryptionMode) (old : EncryptionKey) (checked : Rc)
    → length old.symkey.user_key ≡ aes256_key_size
    → keylen ≤ length bytes
    → key_param_check keylen encmode ≡ checked
    → (((key_taken bytes keylen encmode old checked).0 ≡ success)
        × (encmode ≡ EncryptionMode.aes_cbc)
        × ((keylen ≡ aes128_key_size) ⊎ (keylen ≡ aes256_key_size))
        × IsUsable (key_taken bytes keylen encmode old checked).1
        × (key_bytes (key_taken bytes keylen encmode old checked).1.symkey ≡ take keylen bytes)
        × (length (key_taken bytes keylen encmode old checked).1.symkey.user_key ≡ aes256_key_size))
      ⊎ ((e : Error) × ((key_taken bytes keylen encmode old checked).0 ≡ error e)
          × ((encmode ≡ EncryptionMode.unknown)
              ⊎ ((keylen ≢ aes128_key_size) × (keylen ≢ aes256_key_size)))
          × ((key_taken bytes keylen encmode old checked).1 ≡ old))
unfolding key_taken
key_taken-IsUsable bytes keylen encmode old (error e) p q h =
    inr (e, refl, key_param_check-error keylen encmode e h, refl)
key_taken-IsUsable bytes keylen encmode old success p q h =
    let (mode, sized) = key_param_check-success keylen encmode h in
    let n : length (take keylen bytes) ≡ keylen = omega (arith, length-take keylen bytes) in
    inl (
      refl,
      mode,
      sized,
      record { mode = mode; sized = sized },
      take-append keylen (take keylen bytes) (drop keylen old.symkey.user_key) (sym n),
      elim sized [ inl e ↦ whole n (omega arith) | inr e ↦ whole n (omega arith) ],
    )
  where
    whole :
        length (take keylen bytes) ≡ keylen
        → keylen ≤ aes256_key_size
        → length (take keylen bytes ++ drop keylen old.symkey.user_key) ≡ aes256_key_size
    whole n small = omega (
      arith,
      length-append (take keylen bytes) (drop keylen old.symkey.user_key),
      length-drop keylen old.symkey.user_key,
    )

-- For an array of 32 bytes and at least `keylen` bytes given: Set_FileKey or Set_MigrationKey either
-- returns success, where the mode is AES-CBC and the length 16 or 32, and then the key can be used, its
-- bytes are those that were given, and the array keeps its 32 bytes; or it returns an error, where the
-- mode is unknown or the length another, and then the key is as it was.
pub set_key-IsUsable :
    (bytes : List ℕ) (keylen : ℕ) (encmode : EncryptionMode) (old : EncryptionKey)
    → length old.symkey.user_key ≡ aes256_key_size
    → keylen ≤ length bytes
    → (((set_key bytes keylen encmode old).0 ≡ success)
        × (encmode ≡ EncryptionMode.aes_cbc)
        × ((keylen ≡ aes128_key_size) ⊎ (keylen ≡ aes256_key_size))
        × IsUsable (set_key bytes keylen encmode old).1
        × (key_bytes (set_key bytes keylen encmode old).1.symkey ≡ take keylen bytes)
        × (length (set_key bytes keylen encmode old).1.symkey.user_key ≡ aes256_key_size))
      ⊎ ((e : Error) × ((set_key bytes keylen encmode old).0 ≡ error e)
          × ((encmode ≡ EncryptionMode.unknown)
              ⊎ ((keylen ≢ aes128_key_size) × (keylen ≢ aes256_key_size)))
          × ((set_key bytes keylen encmode old).1 ≡ old))
unfolding set_key
set_key-IsUsable bytes keylen encmode old p q =
    key_taken-IsUsable bytes keylen encmode old (key_param_check keylen encmode) p q refl
