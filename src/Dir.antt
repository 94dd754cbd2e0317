-- ===== src/Dir.antt =====
-- src/swtpm/swtpm_nvstore_dir.c: each name of the TPM's state is a file of a directory. The calls of
-- the system are a parameter, with a state W of the file system; a descriptor is named by the path
-- that it was opened for. With it: the file names of src/swtpm/swtpm_nvstore.c, and in FileIo the
-- file functions of src/swtpm/utils.c. tpm_number is 0, as in every call.
pub mod Restore
pub mod FileIo
pub mod Ops
pub mod Laws
pub mod Lock
pub mod Written
pub mod Stored
pub mod Loaded
pub mod Renames
pub mod Exchange
pub mod Backup
pub mod Paths
pub mod Samples
mod Tests
use swtpm.Common.{
  ℕ, ◌+◌, Bool, true, false, Option, List, [], ◌∷◌, ◌++◌, leb, ltb, if◌then◌else◌, length, drop,
}
use swtpm.Common.Result.{Rc, success, error, Result, ok, err, ◌>>=◌, fail}
use swtpm.Linear.{Name, permall}
use swtpm.Tpmlib.{TpmVersion}

abbrev pub Bytes : Type 0
Bytes = List ℕ

-- What a call of the system gives: 0, or -1 with errno.
pub data Call : Type 0 where
  done enoent other_errno : Call

-- st_size, S_ISREG(st_mode), st_mode & ACCESSPERMS and st_mode & 0200
pub record Stat : Type 0 where
  pub st_size : ℕ
  pub is_regular : Bool
  pub perms : ℕ
  pub writable : Bool

-- The calls; `true` is success. `write` and `read` give the count and the bytes, `none` is -1.
pub record FileOps (W : Type 0) : Type 0 where
  pub access : Bytes → W → Call
  pub stat : Bytes → W → Call × Stat
  pub rename : Bytes → Bytes → W → Bool × W
  pub unlink : Bytes → W → Bool × W
  pub remove : Bytes → W → Call × W
  pub open_trunc : Bytes → ℕ → W → Bool × W
  pub open_read : Bytes → W → Call × W
  pub write : Bytes → Bytes → W → Option ℕ × W
  pub read : Bytes → ℕ → W → Option Bytes
  pub fstat : Bytes → W → Option Stat
  pub fchmod : Bytes → ℕ → W → Bool × W
  pub fsync : Bytes → W → Bool × W
  pub close : Bytes → W → Bool × W

-- The statics of tpmstate.c that the backend reads, with FILENAME_MAX and the names of libtpms.
pub record DirConfig : Type 0 where
  pub version : TpmVersion
  pub make_backup : Bool
  pub mode : ℕ
  pub mode_is_default : Bool
  pub do_fsync : Bool
  pub filename_max : ℕ
  pub spelled : Name → Bytes

-- strcmp(name, TPM_PERMANENT_ALL_NAME) == 0
unfoldable pub is_permall : Name → Bool
is_permall permall = true
is_permall _ = false

-- SWTPM_NVRAM_Uri_to_Dir
unfoldable pub uri_to_dir : Bytes → Bytes
uri_to_dir uri = drop 6 uri

-- "TMP" or "tpm", the version's suffix, and "-00."
unfoldable pub file_prefix : TpmVersion → Bool → Bytes
file_prefix TpmVersion.tpm_1_2 true = 84 ∷ 77 ∷ 80 ∷ 45 ∷ 48 ∷ 48 ∷ 46 ∷ []
file_prefix TpmVersion.tpm_1_2 false = 116 ∷ 112 ∷ 109 ∷ 45 ∷ 48 ∷ 48 ∷ 46 ∷ []
file_prefix TpmVersion.tpm_2 true = 84 ∷ 77 ∷ 80 ∷ 50 ∷ 45 ∷ 48 ∷ 48 ∷ 46 ∷ []
file_prefix TpmVersion.tpm_2 false = 116 ∷ 112 ∷ 109 ∷ 50 ∷ 45 ∷ 48 ∷ 48 ∷ 46 ∷ []

-- snprintf into a buffer: what it prints, or TPM_FAIL where that with its NUL does not fit
unfoldable pub printed : ℕ → Bytes → Result Bytes
printed bufsize text = if leb bufsize (length text) then err fail else ok text

-- SWTPM_NVRAM_GetFilenameForName
unfoldable pub get_filename_for_name : DirConfig → Name → Bool → Result Bytes
get_filename_for_name c name is_tempfile =
    printed c.filename_max (file_prefix c.version is_tempfile ++ c.spelled name)

-- SWTPM_NVRAM_GetFilepathForName
unfoldable pub get_filepath_for_name : DirConfig → Name → Bool → Bytes → Result Bytes
get_filepath_for_name c name is_tempfile path =
    get_filename_for_name c name is_tempfile >>= λ filename.
    printed c.filename_max (path ++ 47 ∷ filename)

-- SWTPM_NVRAM_CreateBackupFilename; "bak" and "tmp"
unfoldable pub create_backup_filename : DirConfig → Bytes → Bytes → Result Bytes
create_backup_filename c filepath suffix = printed c.filename_max (filepath ++ 46 ∷ suffix)

abbrev pub bak : Bytes
bak = 98 ∷ 97 ∷ 107 ∷ []

abbrev pub tmp : Bytes
tmp = 116 ∷ 109 ∷ 112 ∷ []

-- TPM_FILENAME_MAX
abbrev pub tpm_filename_max : ℕ
tpm_filename_max = 20

-- SWTPM_NVRAM_Prepare_Dir with SWTPM_NVRAM_Validate_Dir
unfoldable pub prepare_dir : DirConfig → Bytes → Rc
prepare_dir c uri =
    if ltb c.filename_max (length (uri_to_dir uri) + tpm_filename_max) then error fail else success
