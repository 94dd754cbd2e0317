-- ===== src/Dir/Ops.antt =====
-- The operations of src/swtpm/swtpm_nvstore_dir.c on the file of a name.
use swtpm.Common.{ℕ, Bool, true, false, not, ◌&&◌, if◌then◌else◌}
use swtpm.Common.Result.{Rc, success, error, Result, ok, err, ◌>>=◌, fail, retry}
use swtpm.Linear.{Name}
use swtpm.Dir.{
  Bytes, Call, done, enoent, other_errno, Stat, FileOps, DirConfig, is_permall, uri_to_dir,
  get_filepath_for_name, create_backup_filename, bak,
}
use swtpm.Dir.FileIo.{FileData, file_write, file_read}

module _ {W : Type 0} (ops : FileOps W) (c : DirConfig) (uri : Bytes) where
  -- the code of stat(), and the size of a regular file
  unfoldable pub size_of : Call × Stat → Result ℕ
  size_of (done, st) = if st.is_regular then ok st.st_size else err fail
  size_of (enoent, st) = err retry
  size_of (other_errno, st) = err fail

  -- SWTPM_NVRAM_CheckState_Dir
  unfoldable pub check_state_dir : Name → W → Result ℕ
  check_state_dir name w = get_filepath_for_name c name false (uri_to_dir uri) >>= λ filepath.
      size_of (ops.stat filepath w)

  unfoldable pub load_file : (ℕ → Bool) → Result Bytes → W → Result FileData × W
  load_file can_alloc (err e) w = (err e, w)
  load_file can_alloc (ok filepath) w =
      file_read ops can_alloc filepath (not c.mode_is_default) c.mode w

  -- SWTPM_NVRAM_LoadData_Dir, which takes any count but -1 for the data's length
  unfoldable pub load_data_dir : (ℕ → Bool) → Name → W → Result FileData × W
  load_data_dir can_alloc name w =
      load_file can_alloc (get_filepath_for_name c name false (uri_to_dir uri)) w

  unfoldable pub deleted : Bool → Call × W → Rc × W
  deleted must_exist (done, w) = (success, w)
  deleted must_exist (enoent, w) = (if must_exist then error fail else success, w)
  deleted must_exist (other_errno, w) = (error fail, w)

  unfoldable pub delete_file : Bool → Result Bytes → W → Rc × W
  delete_file must_exist (err e) w = (error e, w)
  delete_file must_exist (ok filepath) w = deleted must_exist (ops.remove filepath w)

  -- SWTPM_NVRAM_DeleteName_Dir
  unfoldable pub delete_name_dir : Name → Bool → W → Rc × W
  delete_name_dir name must_exist w =
      delete_file must_exist (get_filepath_for_name c name false (uri_to_dir uri)) w

  -- a file_write to `path`
  abbrev pub put_file : Bytes → Bytes → W → Bool × W
  put_file path filedata w = file_write ops path c.mode filedata c.do_fsync (uri_to_dir uri) w

  -- the rename of the temporary file
  unfoldable pub move_in : Bytes → Bool × W → Rc × W
  move_in tmpfile (true, w) = (success, w)
  move_in tmpfile (false, w) = (error fail, (ops.unlink tmpfile w).1)

  unfoldable pub written_tmp : Bytes → Bytes → Bool × W → Rc × W
  written_tmp filepath tmpfile (false, w) = (error fail, w)
  written_tmp filepath tmpfile (true, w) = move_in tmpfile (ops.rename tmpfile filepath w)

  -- storing with no backup: by a temporary file
  unfoldable pub store_by_tmp : Bytes → Bytes → Result Bytes → W → Rc × W
  store_by_tmp filedata filepath (err e) w = (error e, w)
  store_by_tmp filedata filepath (ok tmpfile) w =
      written_tmp filepath tmpfile (put_file tmpfile filedata w)

  -- `renamed` is true from its declaration on, unless the rename fails, which ends the call: a
  -- failed write always renames the backup back
  unfoldable pub written_new : Bytes → Bytes → Bool × W → Rc × W
  written_new filepath bakfile (true, w) = (success, w)
  written_new filepath bakfile (false, w) = (error fail, (ops.rename bakfile filepath w).1)

  unfoldable pub store_renamed : Bytes → Bytes → Bytes → Bool × W → Rc × W
  store_renamed filedata filepath bakfile (false, w) = (error fail, w)
  store_renamed filedata filepath bakfile (true, w) =
      written_new filepath bakfile (put_file filepath filedata w)

  -- the old file becomes the backup, if there is one
  unfoldable pub to_backup : Bytes → Bytes → Call → W → Bool × W
  to_backup filepath bakfile done w = ops.rename filepath bakfile w
  to_backup filepath bakfile _ w = (true, w)

  -- storing with a backup
  unfoldable pub store_by_backup : Bytes → Bytes → Result Bytes → W → Rc × W
  store_by_backup filedata filepath (err e) w = (error e, w)
  store_by_backup filedata filepath (ok bakfile) w =
      store_renamed filedata filepath bakfile (to_backup filepath bakfile (ops.access filepath w) w)

  unfoldable pub store_file_dir : Bytes → Name → Result Bytes → W → Rc × W
  store_file_dir filedata name (err e) w = (error e, w)
  store_file_dir filedata name (ok filepath) w =
      if c.make_backup && is_permall name
      then store_by_backup filedata filepath (create_backup_filename c filepath bak) w
      else store_by_tmp filedata filepath (get_filepath_for_name c name true (uri_to_dir uri)) w

  -- SWTPM_NVRAM_StoreData_Dir
  unfoldable pub store_data_dir : Bytes → Name → W → Rc × W
  store_data_dir filedata name w =
      store_file_dir filedata name (get_filepath_for_name c name false (uri_to_dir uri)) w
