-- ===== src/Dir/Loaded.antt =====
-- SWTPM_NVRAM_LoadData_Dir of src/swtpm/swtpm_nvstore_dir.c after SWTPM_NVRAM_StoreData_Dir.
use swtpm.Common.{
  ℕ, ◌≡◌, ◌≢◌, refl, ◌∙◌, inl, inr, Bool, true, false, not, Option, none, some, ◌==◌, ==_iff,
  if_cases, Bool-cases, length, take_all,
}
use swtpm.Common.Result.{success, Result, ok, err, fail}
use swtpm.Linear.{Name}
use swtpm.Dir.{
  Bytes, Call, done, enoent, other_errno, Stat, FileOps, DirConfig, uri_to_dir,
  get_filepath_for_name,
}
use swtpm.Dir.FileIo.{
  FileData, chmod_of, chmod_file, bytes_read, read_sized, read_stat, read_opened, file_read,
}
use swtpm.Dir.Ops.{load_file, load_data_dir, store_file_dir, store_data_dir}
use swtpm.Dir.Laws.{FileLaws}
use swtpm.Dir.Paths.{path_of, filepath-eq-ok}
use swtpm.Dir.Stored.{store_data_dir-Outcome}

module _ {W : Type 0} {ops : FileOps W} (laws : FileLaws ops) (can_alloc : ℕ → Bool) where
  open laws use {content}

  -- What reading a file that holds b gives: b and its length; NULL with a length; or TPM_FAIL.
  pub data Gives (b : Bytes) (r : Result FileData) : Type 0 where
    whole : r ≡ ok (record { buffer = some b; count = length b }) → Gives b r
    no_buffer : (n : ℕ) → r ≡ ok (record { buffer = none; count = n }) → Gives b r
    fails : r ≡ err fail → Gives b r

  module _ (p b : Bytes) (do_chmod : Bool) (mode : ℕ) where
    bytes_read-Gives : (r : Bool × W) → Gives b (bytes_read ops p b r).0
    unfolding bytes_read
    bytes_read-Gives (true, w) = whole refl
    bytes_read-Gives (false, w) = no_buffer (length b) refl

    short-Gives : (buffer : Bytes) (w : W) → Gives b (bytes_read ops p buffer (false, w)).0
    unfolding bytes_read
    short-Gives buffer w = no_buffer (length buffer) refl

    read_sized-Gives :
        (w : W) (st : Stat) (o : Option Bytes)
        → content w p ≡ some b
        → ops.fstat p w ≡ some st
        → ops.read p st.st_size w ≡ o
        → Gives b (read_sized ops p do_chmod mode st o w).0
    unfolding read_sized
    read_sized-Gives w st none h s e = fails refl
    read_sized-Gives w st (some buffer) h s e = elim (Bool-cases (length buffer == st.st_size)) [
      | inl t ↦
          let all : length buffer ≡ length b = (==_iff _ _).0 t ∙ laws.fstat_size p b w st h s in
          let same : buffer ≡ b =
            laws.read_starts p b buffer st.st_size w h e ∙ take_all (length buffer) b all in
          rw (t, same) (bytes_read-Gives (chmod_file ops p (chmod_of ops do_chmod mode st) w))
      | inr t ↦ rw t (short-Gives buffer w)
    ]

    read_stat-Gives :
        (w : W) (o : Option Stat)
        → content w p ≡ some b
        → ops.fstat p w ≡ o
        → Gives b (read_stat ops can_alloc p do_chmod mode o w).0
    unfolding read_stat
    read_stat-Gives w none h e = fails refl
    read_stat-Gives w (some st) h e =
        if_cases {A = Result FileData × W} (λ r. Gives b r.0) (can_alloc st.st_size)
          (λ t. read_sized-Gives w st (ops.read p st.st_size w) h e refl) (λ t. fails refl)

    read_opened-Gives :
        (c : Call) (w : W)
        → c ≢ enoent
        → content w p ≡ some b
        → Gives b (read_opened ops can_alloc p do_chmod mode (c, w)).0
    unfolding read_opened
    read_opened-Gives enoent w ne h = absurd (ne refl)
    read_opened-Gives other_errno w ne h = fails refl
    read_opened-Gives done w ne h = read_stat-Gives w (ops.fstat p w) h refl

    file_read-Gives :
        (w : W) → content w p ≡ some b → Gives b (file_read ops can_alloc p do_chmod mode w).0
    unfolding file_read
    file_read-Gives w h =
        let opened = ops.open_read p w in
        read_opened-Gives opened.0 opened.1 (laws.open_read_found p b w h)
          (laws.open_read_keeps p w p ∙ h)

  module _ (c : DirConfig) (uri filedata : Bytes) (name : Name) where
    named_by :
        (w w' : W) (r : Result Bytes)
        → store_file_dir ops c uri filedata name r w ≡ (success, w')
        → (p : Bytes) × (r ≡ ok p)
    unfolding store_file_dir
    named_by w w' (err e) h = cc
    named_by w w' (ok p) h = (p, refl)

    named :
        (w w' : W)
        → store_data_dir ops c uri filedata name w ≡ (success, w')
        → (p : Bytes) × (get_filepath_for_name c name false (uri_to_dir uri) ≡ ok p)
    unfolding store_data_dir
    named w w' h = named_by w w' (get_filepath_for_name c name false (uri_to_dir uri)) h

    -- Under FileLaws. After SWTPM_NVRAM_StoreData_Dir has succeeded, SWTPM_NVRAM_LoadData_Dir of the
    -- same name gives just the data that was stored, or no buffer but some length, or TPM_FAIL; it gives no
    -- other data, and does not report the file as missing by TPM_RETRY.
    pub load_data_dir-store_data_dir :
        (w w' : W)
        → store_data_dir ops c uri filedata name w ≡ (success, w')
        → Gives filedata (load_data_dir ops c uri can_alloc name w').0
    unfolding load_data_dir load_file
    load_data_dir-store_data_dir w w' h =
        let (p, e) = named w w' h in
        let held : content w' (path_of c (uri_to_dir uri) false name) ≡ some filedata =
          (rw h at (store_data_dir-Outcome laws c uri filedata name w)).stored refl in
        rw e (
          file_read-Gives p filedata (not c.mode_is_default) c.mode w'
            (rw (filepath-eq-ok c name false (uri_to_dir uri) e) at held))
