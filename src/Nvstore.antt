-- ===== src/Nvstore.antt =====
-- src/swtpm/swtpm_nvstore.c: the header of a state blob, its encryption, and its way into and out of
-- a backend. Here: the header and the keys.
pub mod Crypt
pub mod Blob
pub mod Header
pub mod Entries
pub mod RoundTrip
pub mod Layers
pub mod Transfer
pub mod Storage
pub mod Integrity
pub mod OverLinear
pub mod Samples
mod Tests
use Prim.Native.Nat.{bit_and}
use swtpm.Common.{
  ℕ, zero, suc, ◌+◌, ◌-◌, ◌*◌, ◌/◌, ◌%◌, ◌≡◌, Bool, true, false, not, ◌||◌, ◌&&◌, Option, none,
  some, List, [], ◌∷◌, ◌++◌, u16_mod, u32_mod, be16, be32, get16, get32, ltb, ◌==◌, if◌then◌else◌,
  length, get_or, take, drop, replicate, min,
}
use swtpm.Common.Result.{
  Error, Rc, success, error, Result, ok, err, ◌>>=◌, fail, bad_parameter, bad_version, bad_datasize,
  bad_mode, bad_key_property,
}
use swtpm.Aes.{SymmetricKeyData}

-- sizeof(blobheader), which is packed
abbrev pub header_size : ℕ
header_size = 10

-- BLOB_HEADER_VERSION
abbrev pub header_version : ℕ
header_version = 2

-- BLOB_FLAG_ENCRYPTED
abbrev pub flag_encrypted : ℕ
flag_encrypted = 0x01

-- BLOB_FLAG_MIGRATION_ENCRYPTED
abbrev pub flag_migration_encrypted : ℕ
flag_migration_encrypted = 0x02

-- BLOB_FLAG_MIGRATION_DATA
abbrev pub flag_migration_data : ℕ
flag_migration_data = 0x04

-- BLOB_FLAG_ENCRYPTED_256BIT_KEY
abbrev pub flag_encrypted_256bit_key : ℕ
flag_encrypted_256bit_key = 0x08

-- BLOB_FLAG_MIGRATION_256BIT_KEY
abbrev pub flag_migration_256bit_key : ℕ
flag_migration_256bit_key = 0x10

-- flags & flag, as a condition
abbrev pub has_flag : ℕ → ℕ → Bool
has_flag flags flag = not (bit_and flags flag == 0)

-- what SWTPM_NVRAM_CheckHeader gives: *dataoffset, *hdrflags, *hdrversion
pub record HeaderInfo : Type 0 where
  pub dataoffset : ℕ
  pub hdrflags : ℕ
  pub hdrversion : ℕ

-- the bytes of a `blobheader` with these flags, in front of `out_len` bytes less its own
unfoldable pub blob_header : ℕ → ℕ → List ℕ
blob_header flags out_len = header_version ∷ 1 ∷ (be16 header_size ++ (be16 flags ++ be32 out_len))

-- SWTPM_NVRAM_PrependHeader
unfoldable pub prepend_header : (ℕ → Bool) → List ℕ → ℕ → Result (List ℕ)
prepend_header can_alloc bytes flags =
    let out_len = (header_size + length bytes) % u32_mod in
    if can_alloc out_len then ok (blob_header flags out_len ++ bytes) else err fail

-- SWTPM_NVRAM_CheckHeader
unfoldable pub check_header : List ℕ → Result HeaderInfo
check_header bytes =
    if ltb (length bytes) header_size
    then err bad_parameter
    else if not (get32 bytes 6 == length bytes)
    then err bad_parameter
    else if ltb header_version (get_or bytes 1 0)
    then err bad_version
    else if not (get16 bytes 2 == header_size)
    then err bad_datasize
    else ok (record {
      dataoffset = get16 bytes 2;
      hdrflags = get16 bytes 4;
      hdrversion = get_or bytes 0 0;
    })

-- `enum encryption_mode`
pub data EncryptionMode : Type 0 where
  unknown aes_cbc : EncryptionMode

-- `encryptionkey`
pub record EncryptionKey : Type 0 where
  pub data_encmode : EncryptionMode
  pub symkey : SymmetricKeyData

-- SWTPM_AES128_KEY_SIZE
abbrev pub aes128_key_size : ℕ
aes128_key_size = 16

-- SWTPM_AES256_KEY_SIZE
abbrev pub aes256_key_size : ℕ
aes256_key_size = 32

-- SWTPM_NVRAM_KeyParamCheck. A bad mode is reported in place of a bad length.
unfoldable pub key_param_check : ℕ → EncryptionMode → Rc
key_param_check keylen EncryptionMode.unknown = error bad_mode
key_param_check keylen EncryptionMode.aes_cbc =
    if not (keylen == aes128_key_size) && not (keylen == aes256_key_size)
    then error bad_key_property
    else success

-- what a key becomes behind the check; the first `keylen` bytes of the array become the key's
unfoldable pub key_taken : List ℕ → ℕ → EncryptionMode → EncryptionKey → Rc → Rc × EncryptionKey
key_taken key keylen encmode old success = (
  success,
  record {
    data_encmode = encmode;
    symkey = record {
      user_key_length = keylen;
      user_key = take keylen key ++ drop keylen old.symkey.user_key;
    };
  },
)
key_taken key keylen encmode old (error e) = (error e, old)

-- SWTPM_NVRAM_Set_FileKey and SWTPM_NVRAM_Set_MigrationKey, on the key that they set
unfoldable pub set_key : List ℕ → ℕ → EncryptionMode → EncryptionKey → Rc × EncryptionKey
unfolding key_taken
set_key key keylen encmode old = key_taken key keylen encmode old (key_param_check keylen encmode)

-- SWTPM_NVRAM_Has_FileKey and SWTPM_NVRAM_Has_MigrationKey
abbrev pub has_key : EncryptionKey → Bool
has_key key = ltb 0 key.symkey.user_key_length
