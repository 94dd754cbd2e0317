-- ===== src/Dir/Restore.antt =====
-- The backup of the permanent state in src/swtpm/swtpm_nvstore_dir.c: restoring it on request, and
-- before the start where the file itself is missing.
use swtpm.Common.{Bool, true, false}
use swtpm.Common.Result.{Rc, success, error, Result, ok, err, fail}
use swtpm.Linear.{permall}
use swtpm.Dir.{
  Bytes, Call, done, enoent, FileOps, DirConfig, uri_to_dir, get_filepath_for_name,
  create_backup_filename, bak, tmp,
}

module _ {W : Type 0} (ops : FileOps W) (c : DirConfig) (uri : Bytes) where
  unfoldable pub renamed : Bool × W → Rc × W
  renamed (true, w) = (success, w)
  renamed (false, w) = (error fail, w)

  unfoldable pub restore_found : Bytes → Bytes → Call → W → Rc × W
  restore_found filepath bakfile done w = renamed (ops.rename bakfile filepath w)
  restore_found filepath bakfile _ w = (success, w)

  unfoldable pub restore_missing : Bytes → Result Bytes → W → Rc × W
  restore_missing filepath (err e) w = (error e, w)
  restore_missing filepath (ok bakfile) w = restore_found filepath bakfile (ops.access bakfile w) w

  -- only where the file is known not to exist
  unfoldable pub pre_start_access : Bytes → Call → W → Rc × W
  pre_start_access filepath enoent w =
      restore_missing filepath (create_backup_filename c filepath bak) w
  pre_start_access filepath _ w = (success, w)

  unfoldable pub pre_start_file : Result Bytes → W → Rc × W
  pre_start_file (err e) w = (error e, w)
  pre_start_file (ok filepath) w = pre_start_access filepath (ops.access filepath w) w

  -- SWTPM_NVRAM_RestoreBackupPreStart_Dir
  unfoldable pub restore_backup_pre_start_dir : W → Rc × W
  restore_backup_pre_start_dir w =
      pre_start_file (get_filepath_for_name c permall false (uri_to_dir uri)) w

  -- the revert of @2, and of @1 if that succeeded
  unfoldable pub revert_both : Bytes → Bytes → Bool × W → W
  revert_both filepath bakfile2 (false, w) = w
  revert_both filepath bakfile2 (true, w) = (ops.rename bakfile2 filepath w).1

  -- the file that was there becomes the backup
  unfoldable pub swap_last : Bytes → Bytes → Bytes → Bool × W → Rc × W
  swap_last filepath bakfile bakfile2 (true, w) = (success, w)
  swap_last filepath bakfile bakfile2 (false, w) =
      (error fail, revert_both filepath bakfile2 (ops.rename filepath bakfile w))

  -- @2, with a file that @1 has moved away
  unfoldable pub swap_second : Bytes → Bytes → Bytes → Bool × W → Rc × W
  swap_second filepath bakfile bakfile2 (true, w) =
      swap_last filepath bakfile bakfile2 (ops.rename bakfile2 bakfile w)
  swap_second filepath bakfile bakfile2 (false, w) =
      (error fail, (ops.rename bakfile2 filepath w).1)

  unfoldable pub swap_first : Bytes → Bytes → Bytes → Bool × W → Rc × W
  swap_first filepath bakfile bakfile2 (false, w) = (error fail, w)
  swap_first filepath bakfile bakfile2 (true, w) =
      swap_second filepath bakfile bakfile2 (ops.rename bakfile filepath w)

  -- by whether there is a file
  unfoldable pub restore_over : Bytes → Bytes → Bytes → Call → W → Rc × W
  restore_over filepath bakfile bakfile2 done w =
      swap_first filepath bakfile bakfile2 (ops.rename filepath bakfile2 w)
  restore_over filepath bakfile bakfile2 _ w = renamed (ops.rename bakfile filepath w)

  unfoldable pub restore_from : Bytes → Bytes → Bytes → Call → W → Rc × W
  restore_from filepath bakfile bakfile2 done w =
      restore_over filepath bakfile bakfile2 (ops.access filepath w) w
  restore_from filepath bakfile bakfile2 _ w = (error fail, w)

  unfoldable pub restore_named : Bytes → Result Bytes → Result Bytes → W → Rc × W
  restore_named filepath (err e) bakfile2 w = (error e, w)
  restore_named filepath (ok bakfile) (err e) w = (error e, w)
  restore_named filepath (ok bakfile) (ok bakfile2) w =
      restore_from filepath bakfile bakfile2 (ops.access bakfile w) w

  unfoldable pub restore_path : Result Bytes → W → Rc × W
  restore_path (err e) w = (error e, w)
  restore_path (ok filepath) w =
      restore_named filepath (create_backup_filename c filepath bak)
        (create_backup_filename c filepath tmp) w

  -- SWTPM_NVRAM_RestoreBackup_Dir
  unfoldable pub restore_backup_dir : W → Rc × W
  restore_backup_dir w = restore_path (get_filepath_for_name c permall false (uri_to_dir uri)) w
