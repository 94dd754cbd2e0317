-- ===== src/Dir/Backup.antt =====
-- What SWTPM_NVRAM_RestoreBackup_Dir of src/swtpm/swtpm_nvstore_dir.c leaves in the file system, and
-- what a second call makes of it.
use swtpm.Common.{◌≡◌, refl, sym, ◌∙◌, false, none, some}
use native.Mathlib.Decide.{ℕ_discrete}
use swtpm.Common.Result.{success, error, Result, ok, err, Error}
use swtpm.Linear.{permall}
use swtpm.Dir.{
  Bytes, FileOps, DirConfig, uri_to_dir, get_filepath_for_name, create_backup_filename, bak, tmp,
}
use swtpm.Dir.Restore.{restore_named, restore_path, restore_backup_dir}
use swtpm.Dir.Laws.{FileLaws}
use swtpm.Dir.Paths.{
  path_of, bak_of, tmp_of, file-ne-bak, file-ne-tmp, bak-ne-tmp, printed-eq-ok, filepath-eq-ok,
}
use swtpm.Dir.Exchange.{Restored, unchanged, from-Restored}

Bytes_discrete : Discrete Bytes
Bytes_discrete = hlevel ℕ_discrete

module _ {W : Type 0} {ops : FileOps W} (laws : FileLaws ops) where
  open laws use {content}

  module _ (c : DirConfig) (uri : Bytes) where
    abbrev file : Bytes
    file = path_of c (uri_to_dir uri) false permall

    abbrev nothing :
        (w : W) (e : Error) → Restored laws file (bak_of file) (tmp_of file) w (error e, w)
    nothing w e =
        unchanged laws c uri file (bak_of file) (tmp_of file) (file-ne-bak file) (file-ne-tmp file)
          (bak-ne-tmp file) w e

    named-Restored :
        (w : W) (rb rt : Result Bytes)
        → create_backup_filename c file bak ≡ rb
        → create_backup_filename c file tmp ≡ rt
        → Restored laws file (bak_of file) (tmp_of file) w (restore_named ops c uri file rb rt w)
    unfolding restore_named create_backup_filename
    named-Restored w (err x) rt eb et = nothing w x
    named-Restored w (ok g) (err x) eb et = nothing w x
    named-Restored w (ok g) (ok h) eb et = rw (← printed-eq-ok c.filename_max _ eb) (
        rw (← printed-eq-ok c.filename_max _ et) (
          from-Restored laws c uri file (bak_of file) (tmp_of file) (file-ne-bak file)
            (file-ne-tmp file) (bak-ne-tmp file) w))

    path-Restored :
        (w : W) (r : Result Bytes)
        → get_filepath_for_name c permall false (uri_to_dir uri) ≡ r
        → Restored laws file (bak_of file) (tmp_of file) w (restore_path ops c uri r w)
    unfolding restore_path
    path-Restored w (err x) e = nothing w x
    path-Restored w (ok g) e =
        rw (← filepath-eq-ok c permall false (uri_to_dir uri) e) (named-Restored w _ _ refl refl)

    -- Under FileLaws. What SWTPM_NVRAM_RestoreBackup_Dir leaves, whichever renames fail. If it succeeds, then there was a
    -- backup and the permanent state's file holds it; the file that was there has become the
    -- backup, with no temporary file left, and without such a file no backup is left. In any case
    -- what the file held is in the file, the backup or the temporary file, what the backup held is
    -- in the file or the backup, and all other files are as they were.
    pub restore_backup_dir-Restored :
        (w : W) → Restored laws file (bak_of file) (tmp_of file) w (restore_backup_dir ops c uri w)
    unfolding restore_backup_dir
    restore_backup_dir-Restored w = path-Restored w _ refl

    -- Under FileLaws. Where there is a file of the permanent state and no temporary one, a second
    -- SWTPM_NVRAM_RestoreBackup_Dir after a first, where both succeed, leaves every file as it was before both.
    pub restore_backup_dir-restore_backup_dir :
        (w w1 w2 : W) (x : Bytes)
        → content w file ≡ some x
        → content w (tmp_of file) ≡ none
        → restore_backup_dir ops c uri w ≡ (success, w1)
        → restore_backup_dir ops c uri w1 ≡ (success, w2)
        → (q : Bytes) → content w2 q ≡ content w q
    restore_backup_dir-restore_backup_dir w w1 w2 x hx ht e e' q =
        let first : Restored laws file (bak_of file) (tmp_of file) w (success, w1) =
          rw e at (restore_backup_dir-Restored w) in
        let second : Restored laws file (bak_of file) (tmp_of file) w1 (success, w2) =
          rw e' at (restore_backup_dir-Restored w1) in
        let (y, had, now) = first.found refl in
        let (x', had', now') = second.found refl in
        let (b1, t1) = first.swapped x hx refl in
        let (b2, t2) = second.swapped y now refl in
        elim (Bytes_discrete q file) [
          | yes p ↦ rw p (now' ∙ sym had' ∙ b1 ∙ sym hx)
          | no nf ↦ elim (Bytes_discrete q (bak_of file)) [
            | yes p ↦ rw p (b2 ∙ sym had)
            | no nb ↦ elim (Bytes_discrete q (tmp_of file)) [
              | yes p ↦ rw p (t2 ∙ sym ht)
              | no nt ↦ second.apart q nf nb nt ∙ first.apart q nf nb nt
            ]
          ]
        ]
