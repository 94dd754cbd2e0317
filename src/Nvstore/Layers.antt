-- ===== src/Nvstore/Layers.antt =====
-- The two layers of a state blob of src/swtpm/swtpm_nvstore.c, read back one by one.
use swtpm.Common.{
  ℕ, ◌+◌, ◌^◌, ◌≡◌, ◌<◌, ◌≤◌, ◌⊎◌, inl, inr, refl, sym, ap, Bool, true, false, some, List, [], ◌∷◌,
  u16_mod, u32_mod, length, arith, take_all,
}
use swtpm.Common.Result.{Result, ok, ok_injective}
use swtpm.Crypto.{Crypto, CryptoLaws}
use swtpm.Tlv.{
  TlvData, AllValid, append, tag_data, tag_encrypted_data, tag_migration_data,
  tag_encrypted_migration_data, tag_ivec_encrypted_data, tag_ivec_encrypted_migration_data,
}
use swtpm.Tlv.RoundTrip.{first}
use swtpm.Tlv.Bounds.{length-append_nil}
use swtpm.Nvstore.{
  HeaderInfo, EncryptionKey, has_flag, has_key, aes256_key_size, flag_encrypted,
  flag_migration_encrypted, flag_encrypted_256bit_key, flag_migration_256bit_key,
}
use swtpm.Nvstore.Crypt.{IvecState, encrypt_data, get_plain_data, plain_entry}
use swtpm.Nvstore.Blob.{
  is_256bit, state_entries, migration_entries, migration_decrypted, file_decrypted,
}
use swtpm.Nvstore.Entries.{IsUsable, AreTags, found_entry}
use swtpm.Nvstore.RoundTrip.{decrypt_data-encrypt_data, length-encrypted}

-- A key that is not set, or that has been set.
abbrev pub IsKey : EncryptionKey → Type 0
IsKey key = (has_key key ≡ false) ⊎ ((has_key key ≡ true) × IsUsable key)

pub state_tags : AreTags tag_encrypted_data tag_ivec_encrypted_data
state_tags = record {
  tag_fits = omega arith;
  tag_ivec_fits = omega arith;
  tag_not_hmac = omega arith;
  tag_ivec_not_hmac = omega arith;
  tag_ivec_not_tag = omega arith;
}

pub migration_tags : AreTags tag_encrypted_migration_data tag_ivec_encrypted_migration_data
migration_tags = record {
  tag_fits = omega arith;
  tag_ivec_fits = omega arith;
  tag_not_hmac = omega arith;
  tag_ivec_not_hmac = omega arith;
  tag_ivec_not_tag = omega arith;
}

module _ {R : Type 0} {crypto : Crypto R} (laws : CryptoLaws crypto)
    (enough : (n : ℕ) → n < u32_mod → crypto.can_alloc n ≡ true) where
  abbrev pub plain_entries : ℕ → List ℕ → List TlvData
  plain_entries tag bytes = record { tag = tag; len = length bytes; ptr = bytes } ∷ []

  first-plain : (tag : ℕ) (bytes : List ℕ) → first tag (plain_entries tag bytes) ≡ some bytes
  unfolding first
  first-plain tag bytes = ground (arith, take_all (length bytes) bytes refl)

  -- Plain data that are put into a stream are found there.
  pub get_plain_data-append :
      (tag : ℕ) (bytes buffer : List ℕ)
      → tag < u16_mod
      → length bytes < u32_mod
      → append crypto.can_alloc [] (plain_entries tag bytes) ≡ ok buffer
      → (get_plain_data crypto buffer tag 2 ≡ ok bytes) × (length buffer ≡ 6 + length bytes)
  unfolding get_plain_data plain_entry
  get_plain_data-append tag bytes buffer p q h =
      let valid : AllValid (plain_entries tag bytes) =
        (record { tag_fits = p; len_fits = q; backed = omega arith }, tt) in
      let (td, there, same, n) =
        found_entry crypto.can_alloc (plain_entries tag bytes) buffer tag valid h
          (first-plain tag bytes) in
      let alloc : crypto.can_alloc td.len ≡ true = enough td.len (omega arith) in
      (
        rw (there, alloc) (ap ok same),
        omega (arith, length-append_nil crypto.can_alloc (plain_entries tag bytes) valid h),
      )

  -- The inner stream of a blob gives the state back.
  module _ (filekey : EncryptionKey) (plain : List ℕ) (small : length plain ≤ 2 ^ 31)
      (s : IvecState R) (short : length s.g_ivec ≤ aes256_key_size) (buffer : List ℕ)
      (info : HeaderInfo) (version : info.hdrversion ≡ 2) where
    abbrev pub encrypted : Result (List TlvData) × IvecState R
    encrypted = encrypt_data crypto filekey tag_encrypted_data plain tag_ivec_encrypted_data s

    -- Read back, not too long, and the vector not longer than a key.
    abbrev pub IsRead : Bool → IvecState R → Type 0
    IsRead is_encrypted s' =
        (file_decrypted crypto filekey buffer is_encrypted info ≡ ok plain)
        × (length buffer ≤ length plain + 114)
        × (length s'.g_ivec ≤ aes256_key_size)

    file_decrypted_key :
        (td : List TlvData)
        → has_key filekey ≡ true
        → IsUsable filekey
        → has_flag info.hdrflags flag_encrypted_256bit_key ≡ is_256bit filekey
        → encrypted.0 ≡ ok td
        → append crypto.can_alloc [] td ≡ ok buffer
        → IsRead true encrypted.1
    unfolding file_decrypted
    file_decrypted_key td set usable f h a =
        let n =
          length-encrypted laws filekey state_tags plain buffer usable (omega arith) s td short h
            a in
        (
          rw (set, version)
              (decrypt_data-encrypt_data laws filekey state_tags plain buffer usable (omega arith) s
                info.hdrflags flag_encrypted_256bit_key td short f h a),
          n.0,
          n.2,
        )

    file_decrypted_plain :
        has_flag info.hdrflags flag_encrypted ≡ false
        → append crypto.can_alloc [] (plain_entries tag_data plain) ≡ ok buffer
        → IsRead false s
    unfolding file_decrypted
    file_decrypted_plain f a =
        let r = get_plain_data-append tag_data plain buffer (omega arith) (omega arith) a in
        (rw (f, version) r.0, omega (arith, r.1), short)

    pub file_decrypted-state_entries :
        (decrypt : Bool) (td : List TlvData)
        → IsKey filekey
        → (state_entries crypto filekey plain decrypt s).0.0 ≡ ok td
        → append crypto.can_alloc [] td ≡ ok buffer
        → has_flag info.hdrflags flag_encrypted ≡ (state_entries crypto filekey plain decrypt s).0.1
        → ((state_entries crypto filekey plain decrypt s).0.1 ≡ true
            → has_flag info.hdrflags flag_encrypted_256bit_key ≡ is_256bit filekey)
        → IsRead
            (state_entries crypto filekey plain decrypt s).0.1
            (state_entries crypto filekey plain decrypt s).1
    unfolding state_entries
    file_decrypted-state_entries true td key h a f g =
        file_decrypted_plain f (rw (sym (ok_injective h)) at a)
    file_decrypted-state_entries false td (inl unset) h a f g =
        rw unset
          (file_decrypted_plain (rw unset at f) (rw (sym (ok_injective (rw unset at h))) at a))
    file_decrypted-state_entries false td (inr (set, usable)) h a f g =
        rw set (file_decrypted_key td set usable ((rw set at g) refl) (rw set at h) a)

  -- The outer stream gives the inner one back.
  module _ (migrationkey : EncryptionKey) (plain : List ℕ) (small : length plain ≤ 2 ^ 31 + 114)
      (flags : ℕ) (s : IvecState R) (short : length s.g_ivec ≤ aes256_key_size) (buffer : List ℕ)
      (info : HeaderInfo) (version : info.hdrversion ≡ 2) where
    pub migration_decrypted-migration_entries :
        (td : List TlvData)
        → IsKey migrationkey
        → (migration_entries crypto migrationkey plain flags s).0.0 ≡ ok td
        → append crypto.can_alloc [] td ≡ ok buffer
        → has_flag info.hdrflags flag_migration_encrypted ≡ has_key migrationkey
        → (has_key migrationkey ≡ true
            → has_flag info.hdrflags flag_migration_256bit_key ≡ is_256bit migrationkey)
        → (migration_decrypted crypto migrationkey buffer info ≡ ok plain)
          × (length buffer ≤ length plain + 114)
          × (0 < length buffer)
    unfolding migration_entries migration_decrypted
    migration_decrypted-migration_entries td (inl unset) h a f g =
        let r =
          get_plain_data-append tag_migration_data plain buffer (omega arith) (omega arith)
            (rw (sym (ok_injective (rw unset at h))) at a) in
        (rw (f, unset, version) r.0, omega (arith, r.1), omega (arith, r.1))
    migration_decrypted-migration_entries td (inr (set, usable)) h a f g =
        let h' = rw set at h in
        let n =
          length-encrypted laws migrationkey migration_tags plain buffer usable (omega arith) s td
            short h' a in
        (
          rw (f, set, version)
              (decrypt_data-encrypt_data laws migrationkey migration_tags plain buffer usable
                (omega arith) s info.hdrflags flag_migration_256bit_key td short (g set) h' a),
          n.0,
          n.1,
        )
