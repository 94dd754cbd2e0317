-- ===== src/Dir/Stored.antt =====
-- What SWTPM_NVRAM_StoreData_Dir of src/swtpm/swtpm_nvstore_dir.c leaves in the file system.
use swtpm.Common.{
  ◌≡◌, ◌≢◌, refl, sym, ◌∙◌, ◌⊎◌, inl, inr, Bool, true, false, ◌&&◌, some, Option-cases, Bool-cases,
  if◌then◌else◌, if_both,
}
use swtpm.Common.Result.{Rc, success, error, Result, ok, err, fail, Error}
use swtpm.Linear.{Name}
use swtpm.Dir.{
  Bytes, FileOps, DirConfig, is_permall, uri_to_dir, get_filepath_for_name, create_backup_filename,
  bak,
}
use swtpm.Dir.Ops.{
  put_file, move_in, written_tmp, store_by_tmp, written_new, store_renamed, to_backup,
  store_by_backup, store_file_dir, store_data_dir,
}
use swtpm.Dir.Laws.{FileLaws}
use swtpm.Dir.Paths.{path_of, bak_of, file-ne-bak, file-ne-tempfile, printed-eq-ok, filepath-eq-ok}
use swtpm.Dir.Written.{Kept, Same, Written, file_write-Written}

module _ {W : Type 0} {ops : FileOps W} (laws : FileLaws ops) where
  open laws use {content}

  -- A call that was to put bytes into the file f, whose backup or temporary file is g: either the
  -- file has them, or the call failed, and what the file held before is still there.
  pub record Outcome (f g filedata : Bytes) (keeps_backup : Bool) (w : W) (r : Rc × W)
      : Type 0 where
    pub stored : r.0 ≡ success → content r.1 f ≡ some filedata
    pub safe :
        (old : Bytes)
        → content w f ≡ some old
        → (r.0 ≡ success)
          ⊎ (content r.1 f ≡ some old)
          ⊎ ((keeps_backup ≡ true) × (content r.1 g ≡ some old))
    pub backup :
        (old : Bytes)
        → content w f ≡ some old
        → keeps_backup ≡ true
        → r.0 ≡ success
        → content r.1 g ≡ some old
    pub apart : (q : Bytes) → q ≢ f → q ≢ g → content r.1 q ≡ content w q

  module _ (c : DirConfig) (uri f g filedata : Bytes) (ne : f ≢ g) where
    -- nothing was done
    failed-Outcome :
        (b : Bool) (e : Error) (w w' : W) → Same laws w w' → Outcome f g filedata b w (error e, w')
    failed-Outcome b e w w' same = record {
      stored = λ h. cc;
      safe = λ old h. inr (inl (same f ∙ h));
      backup = λ old h b s. cc;
      apart = λ q nf ng. same q;
    }

    -- g is a temporary file, and f has not changed
    kept-Outcome :
        (e : Error) (w w' : W) → Kept laws g w w' → Outcome f g filedata false w (error e, w')
    kept-Outcome e w w' kept = record {
      stored = λ h. cc;
      safe = λ old h. inr (inl (kept f ne ∙ h));
      backup = λ old h b s. cc;
      apart = λ q nf ng. kept q ng;
    }

    move_in-Outcome :
        (w w1 : W) (r : Bool × W)
        → Kept laws g w w1
        → content w1 g ≡ some filedata
        → ops.rename g f w1 ≡ r
        → Outcome f g filedata false w (move_in ops c uri g r)
    unfolding move_in
    move_in-Outcome w w1 (true, w2) kept put e = record {
      stored = λ h. (laws.rename_to g f w1 w2 (λ x. ne (sym x)) e).0 ∙ put;
      safe = λ old h. inl refl;
      backup = λ old h b s. cc;
      apart = λ q nf ng. laws.rename_keeps g f w1 w2 e q ng nf ∙ kept q ng;
    }
    move_in-Outcome w w1 (false, w2) kept put e =
        kept-Outcome fail w (ops.unlink g w2).1
          (λ q ng. laws.unlink_keeps g w2 q ng ∙ laws.rename_fails g f w1 w2 e q ∙ kept q ng)

    written_tmp-Outcome :
        (w : W) (r : Bool × W)
        → Written laws g filedata w r
        → Outcome f g filedata false w (written_tmp ops c uri f g r)
    unfolding written_tmp
    written_tmp-Outcome w (true, w1) d =
        move_in-Outcome w w1 (ops.rename g f w1) d.kept (d.stored refl) refl
    written_tmp-Outcome w (false, w1) d = kept-Outcome fail w w1 d.kept

    -- The old file, if there was one, is the backup, and nothing else has changed.
    record BackedUp (w w' : W) : Type 0 where
      old_is : (old : Bytes) → content w f ≡ some old → content w' g ≡ some old
      others : (q : Bytes) → q ≢ f → q ≢ g → content w' q ≡ content w q

    written_new-Outcome :
        (w w1 : W) (r : Bool × W)
        → BackedUp w w1
        → Written laws f filedata w1 r
        → Outcome f g filedata true w (written_new ops c uri f g r)
    unfolding written_new
    written_new-Outcome w w1 (true, w2) u d = record {
      stored = λ h. d.stored refl;
      safe = λ old h. inl refl;
      backup = λ old h b s. d.kept g (λ x. ne (sym x)) ∙ u.old_is old h;
      apart = λ q nf ng. d.kept q nf ∙ u.others q nf ng;
    }
    written_new-Outcome w w1 (false, w2) u d = back (ops.rename g f w2) refl
      where
        kept_g : content w2 g ≡ content w1 g
        kept_g = d.kept g (λ x. ne (sym x))

        back :
            (r : Bool × W) → ops.rename g f w2 ≡ r → Outcome f g filedata true w (error fail, r.1)
        back (true, w3) e = record {
          stored = λ h. cc;
          safe = λ old h.
              inr
                (inl ((laws.rename_to g f w2 w3 (λ x. ne (sym x)) e).0 ∙ kept_g ∙ u.old_is old h));
          backup = λ old h b s. cc;
          apart = λ q nf ng. laws.rename_keeps g f w2 w3 e q ng nf ∙ d.kept q nf ∙ u.others q nf ng;
        }
        back (false, w3) e =
            let same = laws.rename_fails g f w2 w3 e in
            record {
              stored = λ h. cc;
              safe = λ old h. inr (inr (refl, same g ∙ kept_g ∙ u.old_is old h));
              backup = λ old h b s. cc;
              apart = λ q nf ng. same q ∙ d.kept q nf ∙ u.others q nf ng;
            }

    store_renamed-Outcome :
        (w w1 : W)
        → BackedUp w w1
        → Outcome f g filedata true w (store_renamed ops c uri filedata f g (true, w1))
    unfolding store_renamed
    store_renamed-Outcome w w1 u =
        written_new-Outcome w w1 (put_file ops c uri f filedata w1) u
          (file_write-Written laws f filedata c.do_fsync (uri_to_dir uri) c.mode w1)

    moved-Outcome :
        (w : W) (r : Bool × W)
        → ops.rename f g w ≡ r
        → Outcome f g filedata true w (store_renamed ops c uri filedata f g r)
    unfolding store_renamed
    moved-Outcome w (false, w1) e = failed-Outcome true fail w w1 (laws.rename_fails f g w w1 e)
    moved-Outcome w (true, w1) e = store_renamed-Outcome w w1 (record {
      old_is = λ old h. (laws.rename_to f g w w1 ne e).0 ∙ h;
      others = laws.rename_keeps f g w w1 e;
    })

    -- storing with a backup
    backup-Outcome :
        (w : W)
        → Outcome f g filedata true w
            (store_renamed ops c uri filedata f g (to_backup ops c uri f g (ops.access f w) w))
    unfolding to_backup
    backup-Outcome w = elim (Option-cases (content w f)) [
      | inl e ↦ rw (laws.access_missing f w e) (
          store_renamed-Outcome w w
            (record { old_is = λ old h. cc (e, h); others = λ q nf ng. refl }))
      | inr (b, e) ↦ rw (laws.access_found f b w e) (moved-Outcome w (ops.rename f g w) refl)
    ]

  -- The file that a name is kept in, and the one that stands in for it.
  abbrev pub beside : DirConfig → Bytes → Name → Bytes
  beside c dir name =
      if c.make_backup && is_permall name
      then bak_of (path_of c dir false name)
      else path_of c dir true name

  module _ (c : DirConfig) (uri filedata : Bytes) (name : Name) where
    abbrev file : Bytes
    file = path_of c (uri_to_dir uri) false name

    by_backup-Outcome :
        (w : W) (r : Result Bytes)
        → create_backup_filename c file bak ≡ r
        → Outcome file (bak_of file) filedata true w (store_by_backup ops c uri filedata file r w)
    unfolding store_by_backup create_backup_filename
    by_backup-Outcome w (err x) e =
        failed-Outcome c uri file (bak_of file) filedata (file-ne-bak file) true x w w (λ q. refl)
    by_backup-Outcome w (ok g) e = rw (printed-eq-ok c.filename_max _ e) (
        backup-Outcome c uri file g filedata
          (λ x. file-ne-bak file (x ∙ sym (printed-eq-ok c.filename_max _ e))) w)

    by_tmp-Outcome :
        (w : W) (r : Result Bytes)
        → get_filepath_for_name c name true (uri_to_dir uri) ≡ r
        → Outcome file
            (path_of c (uri_to_dir uri) true name)
            filedata
            false
            w
            (store_by_tmp ops c uri filedata file r w)
    unfolding store_by_tmp
    by_tmp-Outcome w (err x) e =
        failed-Outcome c uri file (path_of c (uri_to_dir uri) true name) filedata
          (file-ne-tempfile c (uri_to_dir uri) name) false x w w (λ q. refl)
    by_tmp-Outcome w (ok g) e =
        let named = filepath-eq-ok c name true (uri_to_dir uri) e in
        rw named (
          written_tmp-Outcome c uri file g filedata
            (λ x. file-ne-tempfile c (uri_to_dir uri) name (x ∙ sym named)) w
            (put_file ops c uri g filedata w)
            (file_write-Written laws g filedata c.do_fsync (uri_to_dir uri) c.mode w))

    by_path-Outcome :
        (w : W) (r : Result Bytes)
        → get_filepath_for_name c name false (uri_to_dir uri) ≡ r
        → Outcome file
            (beside c (uri_to_dir uri) name)
            filedata
            (c.make_backup && is_permall name)
            w
            (store_file_dir ops c uri filedata name r w)
    unfolding store_file_dir
    by_path-Outcome w (err x) e =
        failed-Outcome c uri file (beside c (uri_to_dir uri) name) filedata
          (if_both (λ g. file ≢ g) (c.make_backup && is_permall name) (file-ne-bak file)
            (file-ne-tempfile c (uri_to_dir uri) name))
          _ x w w (λ q. refl)
    by_path-Outcome w (ok f) e = elim (Bool-cases (c.make_backup && is_permall name)) [
      | inl b ↦
          rw b
            (rw (sym (filepath-eq-ok c name false (uri_to_dir uri) e)) (by_backup-Outcome w _ refl))
      | inr b ↦
          rw b (rw (sym (filepath-eq-ok c name false (uri_to_dir uri) e)) (by_tmp-Outcome w _ refl))
    ]

    -- Under FileLaws. What SWTPM_NVRAM_StoreData_Dir leaves, whichever calls of the system fail. If it
    -- succeeds, the file of the name holds just the data. If it fails, then what the file held before
    -- is still in it, or, where backups are kept and the name is that of the permanent state, in
    -- the backup. With a backup, a success leaves the old data there. Every file but that of the name and
    -- its backup, or without a backup its temporary file, is as it was.
    pub store_data_dir-Outcome :
        (w : W)
        → Outcome file
            (beside c (uri_to_dir uri) name)
            filedata
            (c.make_backup && is_permall name)
            w
            (store_data_dir ops c uri filedata name w)
    unfolding store_data_dir
    store_data_dir-Outcome w = by_path-Outcome w _ refl
