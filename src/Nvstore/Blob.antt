-- ===== src/Nvstore/Blob.antt =====
-- A state on its way to and from the backend, and to and from another host: LoadData, StoreData,
-- GetStateBlob and SetStateBlob of src/swtpm/swtpm_nvstore.c.
use Prim.Native.Nat.{bit_or}
use swtpm.Common.{
  ℕ, ◌-◌, Bool, true, false, not, ◌||◌, ◌&&◌, Option, none, some, List, [], ◌∷◌, ◌==◌,
  if◌then◌else◌, length, drop,
}
use swtpm.Common.Result.{Rc, error, Result, ok, err, ◌>>=◌, bad_parameter, keynotfound}
use swtpm.Crypto.{Crypto}
use swtpm.Linear.{Name}
use swtpm.Tlv.{
  TlvData, append, tag_data, tag_encrypted_data, tag_migration_data, tag_encrypted_migration_data,
  tag_ivec_encrypted_data, tag_ivec_encrypted_migration_data,
}
use swtpm.Nvstore.{
  HeaderInfo, EncryptionKey, has_flag, has_key, aes256_key_size, prepend_header, check_header,
  flag_encrypted, flag_migration_encrypted, flag_migration_data, flag_encrypted_256bit_key,
  flag_migration_256bit_key,
}
use swtpm.Nvstore.Crypt.{IvecState, encrypt_data, decrypt_data, get_plain_data, get_decrypted_data}

-- `struct nvram_backend_ops` over the states W of a backend, as far as it carries data.
pub record Backend (W : Type 0) : Type 0 where
  pub load : Name → W → Result (List ℕ)
  pub store : List ℕ → Name → W → Rc × W

-- The statics of swtpm_nvstore.c, and the state of the backend.
pub record Nvram (R W : Type 0) : Type 0 where
  pub filekey : EncryptionKey
  pub migrationkey : EncryptionKey
  pub ivec : IvecState R
  pub world : W

-- libtpms' `enum TPMLIB_StateType`, less the value 0
pub data StateType : Type 0 where
  permanent volatile save_state : StateType

-- tpmlib_blobtype_to_statetype; `none` is 0
unfoldable pub blobtype_to_statetype : ℕ → Option StateType
blobtype_to_statetype blobtype =
    if blobtype == 1
    then some StateType.permanent
    else if blobtype == 2
    then some StateType.volatile
    else if blobtype == 3
    then some StateType.save_state
    else none

-- flags |= flag, under a condition
abbrev pub or_flag : Bool → ℕ → ℕ → ℕ
or_flag b flag flags = if b then bit_or flags flag else flags

-- whether a key is of 256 bits
abbrev pub is_256bit : EncryptionKey → Bool
is_256bit key = key.symkey.user_key_length == aes256_key_size

module _ {R : Type 0} (crypto : Crypto R) where
  -- SWTPM_NVRAM_LoadData behind the backend: the header, and the data without it
  unfoldable pub plain_of_file : EncryptionKey → List ℕ → Result (List ℕ)
  plain_of_file filekey bytes = check_header bytes >>= λ hdr.
      get_decrypted_data crypto filekey (drop hdr.dataoffset bytes) tag_encrypted_data tag_data
        hdr.hdrversion tag_ivec_encrypted_data hdr.hdrflags flag_encrypted_256bit_key

  -- the TLV entries and the flags of StoreData
  unfoldable pub file_entries :
      EncryptionKey → List ℕ → Bool → IvecState R → (Result (List TlvData) × ℕ) × IvecState R
  file_entries filekey bytes encrypt s =
      if encrypt && has_key filekey
      then (let (td, s') =
            encrypt_data crypto filekey tag_encrypted_data bytes tag_ivec_encrypted_data s in
          (
            (td, or_flag (is_256bit filekey) flag_encrypted_256bit_key (bit_or 0 flag_encrypted)),
            s',
          ))
      else ((ok (record { tag = tag_data; len = length bytes; ptr = bytes } ∷ []), 0), s)

  -- StoreData up to the backend: the bytes of the file
  unfoldable pub file_of_entries : Result (List TlvData) → ℕ → Result (List ℕ)
  file_of_entries td flags = td >>= λ td.
      append crypto.can_alloc [] td >>= λ bytes. prepend_header crypto.can_alloc bytes flags

  -- GetStateBlob behind LoadData: the inner TLV entries, *is_encrypted, and the flags
  unfoldable pub state_entries :
      EncryptionKey → List ℕ → Bool → IvecState R → (Result (List TlvData) × Bool × ℕ) × IvecState R
  state_entries filekey plain decrypt s =
      if not decrypt && has_key filekey
      then (let (td, s') =
            encrypt_data crypto filekey tag_encrypted_data plain tag_ivec_encrypted_data s in
          ((td, true, or_flag (is_256bit filekey) flag_encrypted_256bit_key 0), s'))
      else ((ok (record { tag = tag_data; len = length plain; ptr = plain } ∷ []), false, 0), s)

  -- the outer TLV entries, and the flags
  unfoldable pub migration_entries :
      EncryptionKey → List ℕ → ℕ → IvecState R → (Result (List TlvData) × ℕ) × IvecState R
  migration_entries migrationkey buffer flags s =
      if has_key migrationkey
      then (let flags = bit_or flags flag_migration_encrypted in
          let (td, s') =
            encrypt_data crypto migrationkey tag_encrypted_migration_data buffer
              tag_ivec_encrypted_migration_data s in
          ((td, or_flag (is_256bit migrationkey) flag_migration_256bit_key flags), s'))
      else (
        (ok (record { tag = tag_migration_data; len = length buffer; ptr = buffer } ∷ []), flags),
        s,
      )

  -- GetStateBlob behind the inner entries: *data
  unfoldable pub blob_of_buffer :
      EncryptionKey → Bool → ℕ → Result (List ℕ) → IvecState R → Result (List ℕ) × IvecState R
  blob_of_buffer migrationkey is_encrypted flags (err e) s = (err e, s)
  blob_of_buffer migrationkey is_encrypted flags (ok buffer) s =
      let ((td, flags), s') = migration_entries migrationkey buffer flags s in
      let flags = bit_or flags flag_migration_data in
      (file_of_entries td (or_flag is_encrypted flag_encrypted flags), s')

  -- GetStateBlob behind LoadData: *data, *is_encrypted
  unfoldable pub blob_of_plain :
      EncryptionKey
      → EncryptionKey
      → List ℕ
      → Bool
      → IvecState R
      → (Result (List ℕ) × Bool) × IvecState R
  blob_of_plain filekey migrationkey plain decrypt s =
      let ((td, is_encrypted, flags), s') = state_entries filekey plain decrypt s in
      let (blob, s'') =
        blob_of_buffer migrationkey is_encrypted flags (td >>= append crypto.can_alloc []) s' in
      ((blob, is_encrypted), s'')

  -- SetStateBlob: what is left of the data behind the header when the migration key is taken off
  unfoldable pub migration_decrypted : EncryptionKey → List ℕ → HeaderInfo → Result (List ℕ)
  migration_decrypted migrationkey bytes hdr =
      if has_flag hdr.hdrflags flag_migration_encrypted
      then if has_key migrationkey
        then decrypt_data crypto migrationkey bytes tag_encrypted_migration_data hdr.hdrversion
            tag_ivec_encrypted_migration_data hdr.hdrflags flag_migration_256bit_key
        else err keynotfound
      else get_plain_data crypto bytes tag_migration_data hdr.hdrversion

  -- and when the file key is taken off
  unfoldable pub file_decrypted : EncryptionKey → List ℕ → Bool → HeaderInfo → Result (List ℕ)
  file_decrypted filekey bytes is_encrypted hdr =
      if is_encrypted || has_flag hdr.hdrflags flag_encrypted
      then if has_key filekey
        then decrypt_data crypto filekey bytes tag_encrypted_data hdr.hdrversion
            tag_ivec_encrypted_data hdr.hdrflags flag_encrypted_256bit_key
        else err keynotfound
      else get_plain_data crypto bytes tag_data hdr.hdrversion

  -- SetStateBlob up to TPMLIB_SetState: the state's bytes, `none` for NULL
  unfoldable pub plain_of_blob :
      EncryptionKey → EncryptionKey → List ℕ → Bool → Result (Option (List ℕ))
  plain_of_blob filekey migrationkey bytes is_encrypted =
      if length bytes == 0
      then ok none
      else (check_header bytes >>= λ hdr.
          if length bytes - hdr.dataoffset == 0
          then ok none
          else (migration_decrypted migrationkey (drop hdr.dataoffset bytes) hdr >>= λ mig_decrypt.
              file_decrypted filekey mig_decrypt is_encrypted hdr >>= λ plain. ok (some plain)))

  -- SetStateBlob for a state type and the bytes that were read. `set_state` is TPMLIB_SetState, over
  -- the states T of libtpms.
  unfoldable pub set_plain :
      {T : Type 0}
      → (StateType → Option (List ℕ) → T → Rc × T)
      → Option StateType
      → Result (Option (List ℕ))
      → T
      → Rc × T
  set_plain set_state none plain t = (error bad_parameter, t)
  set_plain set_state (some st) (err e) t = (error e, t)
  set_plain set_state (some st) (ok plain) t = set_state st plain t

  -- SWTPM_NVRAM_SetStateBlob
  unfoldable pub set_state_blob :
      {T W : Type 0}
      → (StateType → Option (List ℕ) → T → Rc × T)
      → List ℕ
      → Bool
      → ℕ
      → Nvram R W
      → T
      → Rc × T
  unfolding set_plain
  set_state_blob set_state bytes is_encrypted blobtype s t =
      set_plain set_state (blobtype_to_statetype blobtype)
        (plain_of_blob s.filekey s.migrationkey bytes is_encrypted) t

  module _ {W : Type 0} (backend : Backend W) where
    -- SWTPM_NVRAM_LoadData
    unfoldable pub load_data : Name → Nvram R W → Result (List ℕ)
    load_data name s = backend.load name s.world >>= plain_of_file s.filekey

    -- the backend's store, for the bytes of a file
    unfoldable pub store_file : Result (List ℕ) → Name → Nvram R W → Rc × Nvram R W
    store_file (err e) name s = (error e, s)
    store_file (ok bytes) name s =
        let (rc, w) = backend.store bytes name s.world in (rc, record s { world = w })

    -- SWTPM_NVRAM_StoreData_Intern; SWTPM_NVRAM_StoreData is the case where `encrypt` is true
    unfoldable pub store_data_intern : List ℕ → Name → Bool → Nvram R W → Rc × Nvram R W
    store_data_intern bytes name encrypt s =
        let ((td, flags), ivec) = file_entries s.filekey bytes encrypt s.ivec in
        store_file (file_of_entries td flags) name (record s { ivec = ivec })

    -- SWTPM_NVRAM_GetStateBlob: the code, *data and *is_encrypted
    unfoldable pub get_state_blob : Name → Bool → Nvram R W → Result (List ℕ × Bool) × Nvram R W
    get_state_blob name decrypt s = elim (load_data name s) [
      | err e ↦ (err e, s)
      | ok plain ↦
          let ((blob, is_encrypted), ivec) =
            blob_of_plain s.filekey s.migrationkey plain decrypt s.ivec in
          (blob >>= λ bytes. ok (bytes, is_encrypted), record s { ivec = ivec })
    ]
