-- ===== src/Dir/FileIo.antt =====
-- Whole files: file_write, file_read and their helpers of src/swtpm/utils.c. Restarts after EINTR
-- and umask are left out.
use Prim.Native.Nat.{bit_or}
use swtpm.Common.{
  ℕ, zero, suc, Bool, true, false, ◌&&◌, Option, none, some, [], ◌∷◌, ◌==◌, if◌then◌else◌, length,
  drop,
}
use swtpm.Common.Result.{Result, ok, err, fail, retry}
use swtpm.Dir.{Bytes, Call, done, enoent, other_errno, Stat, FileOps}

-- What file_read gives: *buffer, where `none` is NULL, and the count that it returns.
pub record FileData : Type 0 where
  pub buffer : Option Bytes
  pub count : ℕ

module _ {W : Type 0} (ops : FileOps W) where
  -- the count that write() gave: nothing is written where it is 0 or -1
  unfoldable pub count_of : Option ℕ × W → ℕ
  count_of (none, w) = 0
  count_of (some n, w) = n

  -- write_full: the rounds that the fuel allows; a round writes a byte at least
  unfoldable pub write_full : ℕ → Bytes → Bytes → W → Bool × W
  write_full fuel path [] w = (true, w)
  write_full zero path (b ∷ bs) w = (false, w)
  write_full (suc fuel) path (b ∷ bs) w =
      let r = ops.write path (b ∷ bs) w in
      let rest = write_full fuel path (drop (count_of r) (b ∷ bs)) r.1 in
      if count_of r == 0 then (false, r.1) else rest

  -- fsync on the file, where all was written and `do_fsync` asks for it
  unfoldable pub sync_file : Bool → Bytes → Bool × W → Bool × W
  sync_file do_fsync path (false, w) = (false, w)
  sync_file do_fsync path (true, w) = if do_fsync then ops.fsync path w else (true, w)

  unfoldable pub close_file : Bytes → Bool × W → Bool × W
  close_file path (res, w) = let (closed, w') = ops.close path w in (res && closed, w')

  unfoldable pub synced_dir : Bytes → Call × W → Bool × W
  unfolding close_file
  synced_dir dir (done, w) = close_file dir (ops.fsync dir w)
  synced_dir dir (_, w) = (false, w)

  -- fsync_on_dir
  unfoldable pub fsync_on_dir : Bytes → W → Bool × W
  unfolding synced_dir
  fsync_on_dir dir w = synced_dir dir (ops.open_read dir w)

  unfoldable pub sync_dir : Bool → Bytes → Bool × W → Bool × W
  sync_dir do_fsync dir (false, w) = (false, w)
  sync_dir do_fsync dir (true, w) = if do_fsync then fsync_on_dir dir w else (true, w)

  -- unlink() after a failure
  unfoldable pub or_unlink : Bytes → Bool × W → Bool × W
  or_unlink path (false, w) = (false, (ops.unlink path w).1)
  or_unlink path (true, w) = (true, w)

  unfoldable pub write_opened : Bytes → Bytes → Bool → Bytes → Bool × W → Bool × W
  write_opened path buffer do_fsync dir (false, w) = (false, w)
  write_opened path buffer do_fsync dir (true, w) = or_unlink path (
      sync_dir do_fsync dir
        (close_file path (sync_file do_fsync path (write_full (length buffer) path buffer w))))

  -- file_write; `true` is any result but -1
  unfoldable pub file_write : Bytes → ℕ → Bytes → Bool → Bytes → W → Bool × W
  file_write path mode buffer do_fsync dir w =
      write_opened path buffer do_fsync dir (ops.open_trunc path mode w)

  -- whether file_read has to change the mode bits, and to which
  unfoldable pub chmod_of : Bool → ℕ → Stat → Option ℕ
  chmod_of true mode st = if st.perms == mode then none else some mode
  chmod_of false mode st = if st.writable then none else some (bit_or mode 128)

  unfoldable pub chmod_file : Bytes → Option ℕ → W → Bool × W
  chmod_file path none w = (true, w)
  chmod_file path (some mode) w = ops.fchmod path mode w

  -- The read() behind the malloc(). A short read or a failed fchmod() frees the buffer and keeps
  -- the count.
  unfoldable pub bytes_read : Bytes → Bytes → Bool × W → Result FileData × W
  bytes_read path buffer (true, w) =
      (ok (record { buffer = some buffer; count = length buffer }), (ops.close path w).1)
  bytes_read path buffer (false, w) =
      (ok (record { buffer = none; count = length buffer }), (ops.close path w).1)

  unfoldable pub read_sized : Bytes → Bool → ℕ → Stat → Option Bytes → W → Result FileData × W
  read_sized path do_chmod mode st none w = (err fail, (ops.close path w).1)
  read_sized path do_chmod mode st (some buffer) w =
      if length buffer == st.st_size
      then bytes_read path buffer (chmod_file path (chmod_of do_chmod mode st) w)
      else bytes_read path buffer (false, w)

  unfoldable pub read_stat : (ℕ → Bool) → Bytes → Bool → ℕ → Option Stat → W → Result FileData × W
  read_stat can_alloc path do_chmod mode none w = (err fail, (ops.close path w).1)
  read_stat can_alloc path do_chmod mode (some st) w =
      if can_alloc st.st_size
      then read_sized path do_chmod mode st (ops.read path st.st_size w) w
      else (err fail, (ops.close path w).1)

  unfoldable pub read_opened : (ℕ → Bool) → Bytes → Bool → ℕ → Call × W → Result FileData × W
  read_opened can_alloc path do_chmod mode (enoent, w) = (err retry, w)
  read_opened can_alloc path do_chmod mode (other_errno, w) = (err fail, w)
  read_opened can_alloc path do_chmod mode (done, w) =
      read_stat can_alloc path do_chmod mode (ops.fstat path w) w

  -- file_read. Its -1 stands with the code that SWTPM_NVRAM_LoadData_Dir makes of errno: TPM_RETRY
  -- for ENOENT, which only open() sets, and TPM_FAIL.
  unfoldable pub file_read : (ℕ → Bool) → Bytes → Bool → ℕ → W → Result FileData × W
  file_read can_alloc path do_chmod mode w =
      read_opened can_alloc path do_chmod mode (ops.open_read path w)
