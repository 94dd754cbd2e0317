-- ===== src/Nvstore/Entries.antt =====
-- The entries of an encrypted stream, its HMAC and its keys, as src/swtpm/swtpm_nvstore.c writes and reads
-- them.
use swtpm.Common.{
  ℕ, ◌+◌, ◌≡◌, ◌≢◌, ◌<◌, ◌≤◌, ◌⊎◌, refl, ap, ◌∙◌, Bool, true, false, Option, none, some, List, [],
  ◌∷◌, u16_mod, u32_mod, ltb, length, take, drop, arith, take_all, length-take, min, length-append,
  length-drop,
}
use swtpm.Common.Result.{ok, >>=-eq-ok, if-eq-ok}
use swtpm.Crypto.{Crypto, CryptoLaws, digest_length}
use swtpm.Aes.{SymmetricKeyData, symmetric_key_data_encrypt}
use swtpm.Tlv.{TlvData, AllValid, append, find_tag, payload, tag_hmac}
use swtpm.Tlv.RoundTrip.{first, payload?, find_tag-append_nil}
use swtpm.Tlv.Bounds.{Found, find_tag-Found, encoded_length}
use swtpm.Nvstore.{EncryptionKey, EncryptionMode, aes128_key_size, aes256_key_size}
use swtpm.Nvstore.Crypt.{
  IvecState, hmac_entry, compare_hmac, bytes_eq, ivec_bytes, ivec_entry, get_ivec, roll,
  roll_and_set_global_ivec, swtpm_hmac, calc_hmac, check_hmac, encrypted_entries,
}

pub bytes_eq_self : (xs : List ℕ) → bytes_eq xs xs ≡ true
unfolding bytes_eq
bytes_eq_self [] = refl
bytes_eq_self (x ∷ xs) = ground (arith, bytes_eq_self xs)

pub payload?-some :
    (r : Option TlvData) {bytes : List ℕ}
    → payload? r ≡ some bytes
    → (td : TlvData) × (r ≡ some td) × (payload td ≡ bytes)
payload?-some none h = cc
payload?-some (some td) {bytes} h = let e : payload td ≡ bytes = ground (arith, h) in (td, refl, e)

-- An entry that is found, with its length and the bytes behind its pointer.
pub Found-length :
    {buffer : List ℕ} {tag : ℕ} {td : TlvData} → Found buffer tag td → td.len ≡ length (payload td)
Found-length {buffer} {tag} {td} f = omega (
  arith,
  f.within,
  f.behind_header,
  length-take td.len td.ptr,
  ap length f.there,
  length-drop f.at buffer,
)

pub found_entry :
    (can_alloc : ℕ → Bool) (tds : List TlvData) (buffer : List ℕ) (tag : ℕ) {bytes : List ℕ}
    → AllValid tds
    → append can_alloc [] tds ≡ ok buffer
    → first tag tds ≡ some bytes
    → (td : TlvData) × (find_tag buffer tag ≡ some td)
      × (payload td ≡ bytes)
      × (td.len ≡ length bytes)
found_entry can_alloc tds buffer tag {bytes} v h e =
    let (td, there, same) =
      payload?-some (find_tag buffer tag) (find_tag-append_nil can_alloc tds tag v h ∙ e) in
    let f = find_tag-Found buffer tag there in (td, there, same, Found-length f ∙ ap length same)

pub get_ivec-payload? :
    (buffer : List ℕ) (tag : ℕ) → get_ivec buffer tag ≡ payload? (find_tag buffer tag)
unfolding get_ivec
get_ivec-payload? buffer tag = refl

-- What EncryptData gives for an encryption, an HMAC and a vector.
abbrev pub entries_of : ℕ → ℕ → List ℕ → List ℕ → Option (List ℕ) → List TlvData
entries_of tag tag_ivec tmp md ivec =
    record { tag = tag; len = length tmp; ptr = tmp }
    ∷ record { tag = tag_hmac; len = length md; ptr = md }
    ∷ ivec_entry tag_ivec ivec

-- The vector has the length that was asked for, or the longer one that it had.
module _ {R : Type 0} {crypto : Crypto R} (laws : CryptoLaws crypto) where
  pub roll-length : (n : ℕ) (r : R) → length (roll crypto n r).1.g_ivec ≡ n
  unfolding roll
  roll-length n r = ground (
    arith,
    laws.length-rand_bytes n r,
    laws.length-sha256 crypto.stack_data,
    length-append (take (min n digest_length) (crypto.sha256 crypto.stack_data))
        (drop (min n digest_length) (crypto.rand_bytes n r).1),
    length-take (min n digest_length) (crypto.sha256 crypto.stack_data),
    length-drop (min n digest_length) (crypto.rand_bytes n r).1,
  )

  pub roll-same : (n : ℕ) (r : R) → (roll crypto n r).0 ≡ some (roll crypto n r).1.g_ivec
  unfolding roll
  roll-same n r = refl

  pub roll-Fits :
      (m n : ℕ) (s : IvecState R)
      → n ≤ m
      → length s.g_ivec ≤ m
      → (length (ivec_bytes (roll_and_set_global_ivec crypto n s).0) ≤ m)
        × (length (roll_and_set_global_ivec crypto n s).1.g_ivec ≤ m)
  unfolding roll_and_set_global_ivec
  roll-Fits m n s p q = ground (
    arith,
    roll-length n s.rng,
    roll-length (length s.g_ivec) s.rng,
    roll-same n s.rng,
    roll-same (length s.g_ivec) s.rng,
  )

  pub length-swtpm_hmac :
      (key : SymmetricKeyData) (bytes md : List ℕ) (ivec : Option (List ℕ))
      → swtpm_hmac crypto key bytes ivec ≡ some md
      → length md ≡ digest_length
  unfolding swtpm_hmac
  length-swtpm_hmac key bytes md ivec e = laws.length-hmac _ _ md e

  pub check_hmac_self :
      (hmac encrypted : TlvData) (key : SymmetricKeyData) (bytes md : List ℕ)
      (ivec : Option (List ℕ))
      → swtpm_hmac crypto key bytes ivec ≡ some md
      → payload hmac ≡ md
      → hmac.len ≡ length md
      → payload encrypted ≡ bytes
      → check_hmac crypto hmac encrypted key ivec ≡ ok tt
  unfolding check_hmac compare_hmac
  check_hmac_self hmac encrypted key bytes md ivec e p n q =
      let sized = length-swtpm_hmac key bytes md ivec e in
      let same : take (length md) hmac.ptr ≡ md = rw (← n) p in
      let long : ltb hmac.len digest_length ≡ false = ground arith in
      rw (long, q, e) (ground (arith, same, bytes_eq_self md))

  pub hmac_entry-ok :
      (r : Option (List ℕ)) {td : TlvData}
      → hmac_entry crypto r ≡ ok td
      → (md : List ℕ) × (r ≡ some md) × (record { tag = tag_hmac; len = length md; ptr = md } ≡ td)
  unfolding hmac_entry
  hmac_entry-ok none h = cc
  hmac_entry-ok (some md) {td} h =
      let (alloc, made) = if-eq-ok _ (crypto.can_alloc (length md)) _ h in
      (md, refl, ground (arith, made))

  -- What EncryptData gives, where it gives entries.
  module _ (key : EncryptionKey) (tag tag_ivec : ℕ) (bytes : List ℕ) where
    pub encrypted_entries-ok :
        (ivec : Option (List ℕ)) (td : List TlvData)
        → encrypted_entries crypto key.symkey tag bytes tag_ivec ivec ≡ ok td
        → (tmp : List ℕ) × (md : List ℕ) × (symmetric_key_data_encrypt crypto bytes key.symkey ivec
            ≡ ok tmp)
          × (swtpm_hmac crypto key.symkey tmp ivec ≡ some md)
          × (entries_of tag tag_ivec tmp md ivec ≡ td)
    unfolding encrypted_entries calc_hmac
    encrypted_entries-ok ivec td h =
        let (tmp, e, h₁) =
          >>=-eq-ok (symmetric_key_data_encrypt crypto bytes key.symkey ivec) _ h in
        let (hmac, c, h₂) = >>=-eq-ok (calc_hmac crypto tmp key.symkey ivec) _ h₁ in
        let (md, m, made) = hmac_entry-ok (swtpm_hmac crypto key.symkey tmp ivec) c in
        (tmp, md, e, m, ground (arith, made, h₂))

-- A key that Set_FileKey or Set_MigrationKey has set.
pub record IsUsable (key : EncryptionKey) : Type 0 where
  pub mode : key.data_encmode ≡ EncryptionMode.aes_cbc
  pub sized :
      (key.symkey.user_key_length ≡ aes128_key_size)
      ⊎ (key.symkey.user_key_length ≡ aes256_key_size)

-- Tags that tell the three entries apart.
pub record AreTags (tag tag_ivec : ℕ) : Type 0 where
  pub tag_fits : tag < u16_mod
  pub tag_ivec_fits : tag_ivec < u16_mod
  pub tag_not_hmac : tag ≢ tag_hmac
  pub tag_ivec_not_hmac : tag_ivec ≢ tag_hmac
  pub tag_ivec_not_tag : tag_ivec ≢ tag

pub valid_ivec :
    (tag : ℕ) (ivec : Option (List ℕ))
    → tag < u16_mod
    → length (ivec_bytes ivec) < u32_mod
    → AllValid (ivec_entry tag ivec)
valid_ivec tag none p q = tt
valid_ivec tag (some ivec) p q = (record { tag_fits = p; len_fits = q; backed = omega arith }, tt)

pub first-ivec : (tag : ℕ) (ivec : Option (List ℕ)) → first tag (ivec_entry tag ivec) ≡ ivec
unfolding first
first-ivec tag none = refl
first-ivec tag (some ivec) = ground (arith, take_all (length ivec) ivec refl)

pub encoded_length-ivec :
    (tag : ℕ) (ivec : Option (List ℕ))
    → encoded_length (ivec_entry tag ivec) ≤ 6 + length (ivec_bytes ivec)
encoded_length-ivec tag none = omega arith
encoded_length-ivec tag (some ivec) = omega arith

module _ {tag tag_ivec : ℕ} (tags : AreTags tag tag_ivec) (tmp md : List ℕ)
    (ivec : Option (List ℕ)) where
  abbrev td : List TlvData
  td = entries_of tag tag_ivec tmp md ivec

  pub valid :
      length tmp < u32_mod
      → length md ≡ digest_length
      → length (ivec_bytes ivec) < u32_mod
      → AllValid td
  valid p q r = (
    record { tag_fits = tags.tag_fits; len_fits = p; backed = omega arith },
    (
      record { tag_fits = omega arith; len_fits = omega arith; backed = omega arith },
      valid_ivec tag_ivec ivec tags.tag_ivec_fits r,
    ),
  )

  pub first_data : first tag td ≡ some tmp
  unfolding first
  first_data = ground (arith, take_all (length tmp) tmp refl)

  pub first_hmac : first tag_hmac td ≡ some md
  unfolding first
  first_hmac = ground (arith, tags.tag_not_hmac, take_all (length md) md refl)

  pub first_ivec : first tag_ivec td ≡ ivec
  unfolding first
  first_ivec =
      ground (arith, tags.tag_ivec_not_hmac, tags.tag_ivec_not_tag, first-ivec tag_ivec ivec)
