-- ===== src/Dir/Tests.antt =====
-- Tests of swtpm_nvstore_dir.c on a sample file system, and the theorems at concrete inputs.
use swtpm.Common.{◌≡◌, refl, ◌∙◌, true, false, none, some, [], ◌∷◌}
use swtpm.Common.Result.{success}
use swtpm.Linear.{Name, permall, volatilestate}
use swtpm.Nvstore.Crypt.{bytes_eq}
use swtpm.Tpmlib.{TpmVersion}
use swtpm.Dir.{
  Bytes, DirConfig, is_permall, file_prefix, uri_to_dir, printed, get_filename_for_name,
  get_filepath_for_name, create_backup_filename,
}
use swtpm.Dir.FileIo.{
  count_of, write_full, sync_file, close_file, sync_dir, or_unlink, write_opened, file_write,
}
use swtpm.Dir.Ops.{
  written_new, store_renamed, to_backup, store_by_backup, store_file_dir, store_data_dir,
  load_data_dir,
}
use swtpm.Dir.Restore.{
  swap_last, swap_second, swap_first, restore_over, restore_from, restore_named, restore_path,
  restore_backup_dir,
}
use swtpm.Dir.Paths.{path_of, bak_of, tmp_of}
use swtpm.Dir.Stored.{Outcome, store_data_dir-Outcome}
use swtpm.Dir.Loaded.{Gives, load_data_dir-store_data_dir}
use swtpm.Dir.Exchange.{Restored}
use swtpm.Dir.Backup.{restore_backup_dir-Restored, restore_backup_dir-restore_backup_dir}
use swtpm.Dir.Samples.{Disk, put, move_file, append_file, disk_ops, disk_laws, content_is}

abbrev spelled : Name → Bytes
spelled permall = 112 ∷ []
spelled volatilestate = 118 ∷ []
spelled _ = 115 ∷ []

abbrev config : DirConfig
config = record {
  version = TpmVersion.tpm_2;
  make_backup = true;
  mode = 416;
  mode_is_default = true;
  do_fsync = false;
  filename_max = 64;
  spelled = spelled;
}

-- "dir:///d"
abbrev uri : Bytes
uri = 100 ∷ 105 ∷ 114 ∷ 58 ∷ 47 ∷ 47 ∷ 47 ∷ 100 ∷ []

abbrev state_file : Bytes
state_file = path_of config (uri_to_dir uri) false permall

abbrev empty_disk : Disk
empty_disk = record { files = λ q. none; renames = 9 }

-- a state of 1 and a backup of 2
abbrev backed_up : Disk
backed_up = put (bak_of state_file) (some (2 ∷ [])) (put state_file (some (1 ∷ [])) empty_disk)

store_data_dir-Outcome_example :
    Outcome disk_laws state_file
      (bak_of state_file)
      (3 ∷ [])
      true
      backed_up
      (store_data_dir disk_ops config uri (3 ∷ []) permall backed_up)
unfolding is_permall
store_data_dir-Outcome_example =
    store_data_dir-Outcome disk_laws config uri (3 ∷ []) permall backed_up

restore_backup_dir-Restored_example :
    Restored disk_laws state_file
      (bak_of state_file)
      (tmp_of state_file)
      backed_up
      (restore_backup_dir disk_ops config uri backed_up)
restore_backup_dir-Restored_example = restore_backup_dir-Restored disk_laws config uri backed_up

abbrev once : Disk
once = (restore_backup_dir disk_ops config uri backed_up).1

abbrev twice : Disk
twice = (restore_backup_dir disk_ops config uri once).1

once_succeeds : restore_backup_dir disk_ops config uri backed_up ≡ (success, once)
unfolding restore_backup_dir restore_path restore_named restore_from restore_over swap_first
    swap_second swap_last get_filepath_for_name get_filename_for_name create_backup_filename printed
    file_prefix uri_to_dir put bytes_eq move_file
once_succeeds = refl

twice_succeeds : restore_backup_dir disk_ops config uri once ≡ (success, twice)
unfolding restore_backup_dir restore_path restore_named restore_from restore_over swap_first
    swap_second swap_last get_filepath_for_name get_filename_for_name create_backup_filename printed
    file_prefix uri_to_dir put bytes_eq move_file
twice_succeeds = refl

state_is : backed_up.files state_file ≡ some (1 ∷ [])
unfolding put bytes_eq uri_to_dir file_prefix
state_is = refl

holds_state : disk_laws.content backed_up state_file ≡ some (1 ∷ [])
holds_state = content_is backed_up state_file ∙ state_is

no_tmp : backed_up.files (tmp_of state_file) ≡ none
unfolding put bytes_eq uri_to_dir file_prefix
no_tmp = refl

holds_no_tmp : disk_laws.content backed_up (tmp_of state_file) ≡ none
holds_no_tmp = content_is backed_up (tmp_of state_file) ∙ no_tmp

restore_backup_dir-restore_backup_dir_example :
    disk_laws.content twice (bak_of state_file) ≡ disk_laws.content backed_up (bak_of state_file)
restore_backup_dir-restore_backup_dir_example =
    restore_backup_dir-restore_backup_dir disk_laws config uri backed_up once twice (1 ∷ [])
      holds_state holds_no_tmp once_succeeds twice_succeeds (bak_of state_file)

abbrev stored_disk : Disk
stored_disk = (store_data_dir disk_ops config uri (3 ∷ 4 ∷ []) permall backed_up).1

store_succeeds :
    store_data_dir disk_ops config uri (3 ∷ 4 ∷ []) permall backed_up ≡ (success, stored_disk)
unfolding store_data_dir store_file_dir store_by_backup to_backup store_renamed written_new
    is_permall file_write write_opened write_full count_of sync_file close_file sync_dir or_unlink
    get_filepath_for_name get_filename_for_name create_backup_filename printed file_prefix
    uri_to_dir put bytes_eq move_file append_file
store_succeeds = refl

load_data_dir-store_data_dir_example :
    Gives disk_laws
      (λ n. true)
      (3 ∷ 4 ∷ [])
      (load_data_dir disk_ops config uri (λ n. true) permall stored_disk).0
load_data_dir-store_data_dir_example =
    load_data_dir-store_data_dir disk_laws (λ n. true) config uri (3 ∷ 4 ∷ []) permall backed_up
      stored_disk store_succeeds
