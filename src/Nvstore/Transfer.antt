-- ===== src/Nvstore/Transfer.antt =====
-- A state that src/swtpm/swtpm_nvstore.c writes is read back, and one that it hands to another host
-- is taken over there.
use Prim.Native.Nat.{bit_or}
use swtpm.Common.{
  ℕ, ◌-◌, ◌^◌, ◌≡◌, ◌<◌, ◌≤◌, inl, inr, refl, ap, ◌∙◌, Bool, true, false, not, ◌&&◌, some, List, [],
  u16_mod, u32_mod, ◌==◌, length, drop, arith, length-drop, Bool-cases,
}
use swtpm.Common.Result.{Result, ok, err, >>=-eq-ok}
use swtpm.Crypto.{Crypto, CryptoLaws}
use swtpm.Tlv.{TlvData, append}
use swtpm.Nvstore.{
  HeaderInfo, EncryptionKey, header_size, header_version, has_flag, has_key, aes256_key_size,
  prepend_header, check_header, flag_encrypted, flag_migration_encrypted, flag_migration_data,
  flag_encrypted_256bit_key, flag_migration_256bit_key,
}
use swtpm.Nvstore.Crypt.{IvecState}
use swtpm.Nvstore.Blob.{
  or_flag, is_256bit, file_of_entries, state_entries, migration_entries, blob_of_buffer,
  blob_of_plain, migration_decrypted, file_decrypted, plain_of_blob,
}
use swtpm.Nvstore.Header.{check_header-prepend_header}
use swtpm.Nvstore.Layers.{
  IsKey, file_decrypted-state_entries, migration_decrypted-migration_entries,
}

-- The flags of a blob, by what it is encrypted with.
abbrev flags_of : Bool → Bool → Bool → Bool → ℕ
flags_of is_encrypted file_256 is_migration migration_256 = or_flag is_encrypted flag_encrypted (
    bit_or
      (or_flag (is_migration && migration_256) flag_migration_256bit_key (
        or_flag is_migration flag_migration_encrypted
          (or_flag (is_encrypted && file_256) flag_encrypted_256bit_key 0)))
      flag_migration_data)

-- Each flag can be read back.
abbrev Flags : ℕ → Bool → Bool → Bool → Bool → Type 0
Flags flags is_encrypted file_256 is_migration migration_256 =
    (flags < u16_mod)
    × (has_flag flags flag_encrypted ≡ is_encrypted)
    × (has_flag flags flag_encrypted_256bit_key ≡ (is_encrypted && file_256))
    × (has_flag flags flag_migration_encrypted ≡ is_migration)
    × (has_flag flags flag_migration_256bit_key ≡ (is_migration && migration_256))

flags_of-Flags : (a b c d : Bool) → Flags (flags_of a b c d) a b c d
flags_of-Flags true true true true = (omega arith, refl, refl, refl, refl)
flags_of-Flags true true true false = (omega arith, refl, refl, refl, refl)
flags_of-Flags true true false true = (omega arith, refl, refl, refl, refl)
flags_of-Flags true true false false = (omega arith, refl, refl, refl, refl)
flags_of-Flags true false true true = (omega arith, refl, refl, refl, refl)
flags_of-Flags true false true false = (omega arith, refl, refl, refl, refl)
flags_of-Flags true false false true = (omega arith, refl, refl, refl, refl)
flags_of-Flags true false false false = (omega arith, refl, refl, refl, refl)
flags_of-Flags false true true true = (omega arith, refl, refl, refl, refl)
flags_of-Flags false true true false = (omega arith, refl, refl, refl, refl)
flags_of-Flags false true false true = (omega arith, refl, refl, refl, refl)
flags_of-Flags false true false false = (omega arith, refl, refl, refl, refl)
flags_of-Flags false false true true = (omega arith, refl, refl, refl, refl)
flags_of-Flags false false true false = (omega arith, refl, refl, refl, refl)
flags_of-Flags false false false true = (omega arith, refl, refl, refl, refl)
flags_of-Flags false false false false = (omega arith, refl, refl, refl, refl)

module _ {R : Type 0} {crypto : Crypto R} (laws : CryptoLaws crypto)
    (enough : (n : ℕ) → n < u32_mod → crypto.can_alloc n ≡ true)
    (filekey migrationkey : EncryptionKey) where
  state_flags :
      (plain : List ℕ) (decrypt : Bool) (s : IvecState R)
      → (state_entries crypto filekey plain decrypt s).0.2
        ≡ or_flag
            ((state_entries crypto filekey plain decrypt s).0.1 && is_256bit filekey)
            flag_encrypted_256bit_key
            0
  unfolding state_entries
  state_flags plain decrypt s = elim (Bool-cases (not decrypt && has_key filekey)) [
    | inl on ↦ rw on refl
    | inr off ↦ rw off refl
  ]

  migration_flags :
      (buffer : List ℕ) (flags : ℕ) (s : IvecState R)
      → (migration_entries crypto migrationkey buffer flags s).0.1
        ≡ or_flag
            (has_key migrationkey && is_256bit migrationkey)
            flag_migration_256bit_key
            (or_flag (has_key migrationkey) flag_migration_encrypted flags)
  unfolding migration_entries
  migration_flags buffer flags s = elim (Bool-cases (has_key migrationkey)) [
    | inl on ↦ rw on refl
    | inr off ↦ rw off refl
  ]

  blob_of_buffer-ok :
      (is_encrypted : Bool) (flags : ℕ) (r : Result (List ℕ)) (s : IvecState R) {blob : List ℕ}
      → (blob_of_buffer crypto migrationkey is_encrypted flags r s).0 ≡ ok blob
      → (buffer : List ℕ) × (r ≡ ok buffer)
        × (file_of_entries crypto (migration_entries crypto migrationkey buffer flags s).0.0 (
              or_flag is_encrypted flag_encrypted (
                bit_or
                  (migration_entries crypto migrationkey buffer flags s).0.1
                  flag_migration_data))
            ≡ ok blob)
  unfolding blob_of_buffer
  blob_of_buffer-ok is_encrypted flags (err e) s h = cc
  blob_of_buffer-ok is_encrypted flags (ok buffer) s h = (buffer, refl, h)

  pub file_of_entries-ok :
      (r : Result (List TlvData)) (flags : ℕ) {file : List ℕ}
      → file_of_entries crypto r flags ≡ ok file
      → (td : List TlvData) × (buffer : List ℕ) × (r ≡ ok td)
        × (append crypto.can_alloc [] td ≡ ok buffer)
        × (prepend_header crypto.can_alloc buffer flags ≡ ok file)
  unfolding file_of_entries
  file_of_entries-ok r flags h =
      let (td, e, h₁) = >>=-eq-ok r _ h in
      let (buffer, a, h₂) = >>=-eq-ok (append crypto.can_alloc [] td) _ h₁ in (td, buffer, e, a, h₂)

  -- What SetStateBlob reads in a header and two streams that are as they should be.
  plain_of_blob_layers :
      (blob inner outer plain : List ℕ) (is_encrypted : Bool) (info : HeaderInfo)
      → check_header blob ≡ ok info
      → drop info.dataoffset blob ≡ outer
      → info.dataoffset < length blob
      → migration_decrypted crypto migrationkey outer info ≡ ok inner
      → file_decrypted crypto filekey inner is_encrypted info ≡ ok plain
      → plain_of_blob crypto filekey migrationkey blob is_encrypted ≡ ok (some plain)
  unfolding plain_of_blob
  plain_of_blob_layers blob inner outer plain is_encrypted info c d n m f =
      let some_bytes : (length blob == 0) ≡ false = ground arith in
      let more : (length blob - info.dataoffset == 0) ≡ false = ground arith in
      rw (some_bytes, c, more, d, m, f) refl

  -- The keys of the two hosts are set or not, malloc gives memory, the state has at most 2 ^ 31 bytes
  -- and g_ivec at most 32: from a blob that GetStateBlob makes of a state, SetStateBlob with the same
  -- keys reads just that state. This holds whether the caller asks for decryption or not.
  pub plain_of_blob-blob_of_plain :
      (plain : List ℕ) (decrypt : Bool) (s : IvecState R) {blob : List ℕ}
      → IsKey filekey
      → IsKey migrationkey
      → length plain ≤ 2 ^ 31
      → length s.g_ivec ≤ aes256_key_size
      → (blob_of_plain crypto filekey migrationkey plain decrypt s).0.0 ≡ ok blob
      → plain_of_blob crypto filekey migrationkey blob
          (blob_of_plain crypto filekey migrationkey plain decrypt s).0.1
        ≡ ok (some plain)
  unfolding blob_of_plain
  plain_of_blob-blob_of_plain plain decrypt s {blob} key mkey small short h =
      let enc = (state_entries crypto filekey plain decrypt s).0.1 in
      let flags₀ = (state_entries crypto filekey plain decrypt s).0.2 in
      let s' = (state_entries crypto filekey plain decrypt s).1 in
      let (inner, e, h₁) = blob_of_buffer-ok enc flags₀ _ s' h in
      let (td, e', a) = >>=-eq-ok (state_entries crypto filekey plain decrypt s).0.0 _ e in
      let (td', outer, e'', a', made) = file_of_entries-ok _ _ h₁ in
      let flags =
        flags_of enc (is_256bit filekey) (has_key migrationkey) (is_256bit migrationkey) in
      let same : or_flag enc flag_encrypted
            (bit_or (migration_entries crypto migrationkey inner flags₀ s').0.1 flag_migration_data)
          ≡ flags =
        rw (migration_flags inner flags₀ s', state_flags plain decrypt s) refl in
      let f =
        flags_of-Flags enc (is_256bit filekey) (has_key migrationkey) (is_256bit migrationkey) in
      let info : HeaderInfo = record {
        dataoffset = header_size;
        hdrflags = flags;
        hdrversion = header_version;
      } in
      let r =
        file_decrypted-state_entries laws enough filekey plain small s short inner info refl decrypt
          td key e' a f.1 (λ on. f.2 ∙ rw on refl) in
      let m =
        migration_decrypted-migration_entries laws enough migrationkey inner (omega (arith, r.1))
          flags₀ s' r.2 outer info refl td' mkey e'' a' f.3 (λ on. f.4 ∙ rw on refl) in
      let hdr =
        check_header-prepend_header crypto.can_alloc outer blob flags f.0 (omega (arith, m.1, r.1))
          (rw same at made) in
      plain_of_blob_layers blob inner outer plain enc info hdr.0 hdr.1
        (omega (arith, ap length hdr.1, length-drop header_size blob, m.2)) m.0 r.0
