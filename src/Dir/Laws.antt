-- ===== src/Dir/Laws.antt =====
-- What src/swtpm/swtpm_nvstore_dir.c relies on in the calls of the system: what each of them does to
-- the contents of files, as its manual page says.
use swtpm.Common.{ℕ, ◌≤◌, ◌≡◌, ◌≢◌, true, false, Option, none, some, [], ◌++◌, length, take}
use swtpm.Dir.{Bytes, done, enoent, Stat, FileOps}
use swtpm.Dir.FileIo.{count_of}

-- Directories can be searched and nobody else changes the files, so access() tells what there is. A
-- call that fails changes nothing, but for a write(), which may have written in part before.
pub record FileLaws {W : Type 0} (ops : FileOps W) : Type 1 where
  pub content : W → Bytes → Option Bytes
  pub access_found : (p b : Bytes) (w : W) → content w p ≡ some b → ops.access p w ≡ done
  pub access_missing : (p : Bytes) (w : W) → content w p ≡ none → ops.access p w ≡ enoent
  pub rename_to :
      (a b : Bytes) (w w' : W)
      → a ≢ b
      → ops.rename a b w ≡ (true, w')
      → (content w' b ≡ content w a) × (content w' a ≡ none)
  pub rename_keeps :
      (a b : Bytes) (w w' : W)
      → ops.rename a b w ≡ (true, w')
      → (q : Bytes) → q ≢ a
      → q ≢ b
      → content w' q ≡ content w q
  pub rename_fails :
      (a b : Bytes) (w w' : W)
      → ops.rename a b w ≡ (false, w')
      → (q : Bytes) → content w' q ≡ content w q
  pub open_trunc_empty :
      (p : Bytes) (mode : ℕ) (w w' : W)
      → ops.open_trunc p mode w ≡ (true, w')
      → content w' p ≡ some []
  pub open_trunc_keeps :
      (p : Bytes) (mode : ℕ) (w : W) (q : Bytes)
      → q ≢ p
      → content (ops.open_trunc p mode w).1 q ≡ content w q
  pub write_appends :
      (p bytes old : Bytes) (w : W)
      → content w p ≡ some old
      → content (ops.write p bytes w).1 p
        ≡ some (old ++ take (count_of ops (ops.write p bytes w)) bytes)
  pub write_keeps :
      (p bytes : Bytes) (w : W) (q : Bytes)
      → q ≢ p
      → content (ops.write p bytes w).1 q ≡ content w q
  pub write_count : (p bytes : Bytes) (w : W) → count_of ops (ops.write p bytes w) ≤ length bytes
  pub unlink_keeps :
      (p : Bytes) (w : W) (q : Bytes) → q ≢ p → content (ops.unlink p w).1 q ≡ content w q
  pub remove_gone : (p : Bytes) (w w' : W) → ops.remove p w ≡ (done, w') → content w' p ≡ none
  pub remove_missing : (p : Bytes) (w w' : W) → ops.remove p w ≡ (enoent, w') → content w' p ≡ none
  pub remove_keeps :
      (p : Bytes) (w : W) (q : Bytes) → q ≢ p → content (ops.remove p w).1 q ≡ content w q
  pub fsync_keeps : (p : Bytes) (w : W) (q : Bytes) → content (ops.fsync p w).1 q ≡ content w q
  pub close_keeps : (p : Bytes) (w : W) (q : Bytes) → content (ops.close p w).1 q ≡ content w q
  pub open_read_keeps :
      (p : Bytes) (w : W) (q : Bytes) → content (ops.open_read p w).1 q ≡ content w q
  pub open_read_found :
      (p b : Bytes) (w : W) → content w p ≡ some b → (ops.open_read p w).0 ≢ enoent
  pub fstat_size :
      (p b : Bytes) (w : W) (st : Stat)
      → content w p ≡ some b
      → ops.fstat p w ≡ some st
      → st.st_size ≡ length b
  pub read_starts :
      (p b buffer : Bytes) (n : ℕ) (w : W)
      → content w p ≡ some b
      → ops.read p n w ≡ some buffer
      → buffer ≡ take (length buffer) b
