-- ===== src/Dir/Samples.antt =====
-- A file system for the theorems about src/swtpm/swtpm_nvstore_dir.c: a function from paths to
-- contents, in which all calls on files that exist succeed, and rename() as often as a counter says.
use swtpm.Common.{
  ℕ, zero, suc, ◌≤◌, ◌≡◌, ◌≢◌, refl, sym, ap, ◌∙◌, Bool, true, false, Option, none, some, [], ◌++◌,
  if◌then◌else◌, inl, inr, Bool-cases, ◌∷◌, length, take, take_all, arith,
}
use swtpm.Nvstore.Crypt.{bytes_eq}
use swtpm.Nvstore.Entries.{bytes_eq_self}
use swtpm.Nvstore.Integrity.{bytes_eq_sound}
use swtpm.Dir.{Bytes, Call, done, enoent, Stat, FileOps}
use swtpm.Dir.FileIo.{count_of}
use swtpm.Dir.Laws.{FileLaws}

-- the files, and how many calls of rename() still succeed
pub record Disk : Type 0 where
  pub files : Bytes → Option Bytes
  pub renames : ℕ

-- The file at p becomes o.
unfoldable pub put : Bytes → Option Bytes → Disk → Disk
put p o d = record d { files = λ q. if bytes_eq q p then o else d.files q }

put_self : (p : Bytes) (o : Option Bytes) (d : Disk) → (put p o d).files p ≡ o
unfolding put
put_self p o d = rw (bytes_eq_self p) refl

put_ne : (p q : Bytes) (o : Option Bytes) (d : Disk) → q ≢ p → (put p o d).files q ≡ d.files q
unfolding put
put_ne p q o d ne = elim (Bool-cases (bytes_eq q p)) [
  | inl e ↦ absurd (ne (bytes_eq_sound q p e))
  | inr e ↦ rw e refl
]

abbrev code_of : Option Bytes → Call
code_of none = enoent
code_of (some b) = done

abbrev stat_of : Option Bytes → Option Stat
stat_of none = none
stat_of (some b) =
    some (record { st_size = length b; is_regular = true; perms = 416; writable = true })

abbrev plain_stat : Stat
plain_stat = record { st_size = 0; is_regular = true; perms = 0; writable = true }

abbrev found_stat : Option Stat → Call × Stat
found_stat none = (enoent, plain_stat)
found_stat (some st) = (done, st)

unfoldable pub move_file : Bytes → Bytes → Option Bytes → ℕ → Disk → Bool × Disk
unfolding put
move_file a b none n d = (false, d)
move_file a b (some x) zero d = (false, d)
move_file a b (some x) (suc n) d = (true, put b (some x) (put a none (record d { renames = n })))

unfoldable pub append_file : Bytes → Bytes → Option Bytes → Disk → Option ℕ × Disk
unfolding put
append_file p bytes none d = (none, d)
append_file p bytes (some old) d = (some (length bytes), put p (some (old ++ bytes)) d)

abbrev read_of : ℕ → Option Bytes → Option Bytes
read_of n none = none
read_of n (some b) = some (take n b)

abbrev pub disk_ops : FileOps Disk
disk_ops = record {
  access = λ p d. code_of (d.files p);
  stat = λ p d. found_stat (stat_of (d.files p));
  rename = λ a b d. move_file a b (d.files a) d.renames d;
  unlink = λ p d. (true, put p none d);
  remove = λ p d. (code_of (d.files p), put p none d);
  open_trunc = λ p mode d. (true, put p (some []) d);
  open_read = λ p d. (code_of (d.files p), d);
  write = λ p bytes d. append_file p bytes (d.files p) d;
  read = λ p n d. read_of n (d.files p);
  fstat = λ p d. stat_of (d.files p);
  fchmod = λ p mode d. (true, d);
  fsync = λ p d. (true, d);
  close = λ p d. (true, d);
}

move_file-to :
    (a b : Bytes) (o : Option Bytes) (n : ℕ) (d d' : Disk)
    → d.files a ≡ o
    → a ≢ b
    → move_file a b o n d ≡ (true, d')
    → (d'.files b ≡ d.files a) × (d'.files a ≡ none)
unfolding move_file
move_file-to a b none n d d' h ne e = cc
move_file-to a b (some x) zero d d' h ne e = cc
move_file-to a b (some x) (suc n) d d' h ne e =
    let moved = put a none (record d { renames = n }) in
    let same : put b (some x) moved ≡ d' = ap (λ r. r.1) e in
    rw (← same) (
      put_self b (some x) moved ∙ sym h,
      put_ne b a (some x) moved ne ∙ put_self a none (record d { renames = n }),
    )

move_file-keeps :
    (a b : Bytes) (o : Option Bytes) (n : ℕ) (d d' : Disk)
    → move_file a b o n d ≡ (true, d')
    → (q : Bytes) → q ≢ a
    → q ≢ b
    → d'.files q ≡ d.files q
unfolding move_file
move_file-keeps a b none n d d' e q na nb = cc
move_file-keeps a b (some x) zero d d' e q na nb = cc
move_file-keeps a b (some x) (suc n) d d' e q na nb =
    let moved = put a none (record d { renames = n }) in
    let same : put b (some x) moved ≡ d' = ap (λ r. r.1) e in
    rw (← same) (put_ne b q (some x) moved nb ∙ put_ne a q none (record d { renames = n }) na)

move_file-fails :
    (a b : Bytes) (o : Option Bytes) (n : ℕ) (d d' : Disk)
    → move_file a b o n d ≡ (false, d')
    → (q : Bytes) → d'.files q ≡ d.files q
unfolding move_file
move_file-fails a b none n d d' e q = ap (λ r. r.1.files q) (sym e)
move_file-fails a b (some x) zero d d' e q = ap (λ r. r.1.files q) (sym e)
move_file-fails a b (some x) (suc n) d d' e q = cc

append_file-appends :
    (p bytes old : Bytes) (o : Option Bytes) (d : Disk)
    → o ≡ some old
    → (append_file p bytes o d).1.files p
      ≡ some (old ++ take (count_of disk_ops (append_file p bytes o d)) bytes)
unfolding append_file count_of
append_file-appends p bytes old none d h = cc
append_file-appends p bytes old (some b) d h =
    put_self p (some (b ++ bytes)) d
    ∙ ap some (
        ap (λ x. x ++ bytes) (some_injective h)
        ∙ ap (λ x. old ++ x) (sym (take_all (length bytes) bytes refl)))
  where
    some_injective : {x y : Bytes} → some x ≡ some y → x ≡ y
    some_injective e = cc

append_file-keeps :
    (p bytes : Bytes) (o : Option Bytes) (d : Disk) (q : Bytes)
    → q ≢ p
    → (append_file p bytes o d).1.files q ≡ d.files q
unfolding append_file
append_file-keeps p bytes none d q ne = refl
append_file-keeps p bytes (some b) d q ne = put_ne p q (some (b ++ bytes)) d ne

append_file-count :
    (p bytes : Bytes) (o : Option Bytes) (d : Disk)
    → count_of disk_ops (append_file p bytes o d) ≤ length bytes
unfolding append_file count_of
append_file-count p bytes none d = omega arith
append_file-count p bytes (some b) d = omega arith

abbrev size_or : Option Stat → ℕ
size_or none = 0
size_or (some st) = st.st_size

open_found : {b : Bytes} (o : Option Bytes) → o ≡ some b → code_of o ≢ enoent
open_found none h e = cc
open_found (some b) h e = cc

stat_size :
    (o : Option Bytes) (b : Bytes) (st : Stat)
    → o ≡ some b
    → stat_of o ≡ some st
    → st.st_size ≡ length b
stat_size none b st h e = cc
stat_size (some x) b st h e = let same : x ≡ b = cc in rw (← same) (ap size_or (sym e))

take_of_take : (n : ℕ) (b : Bytes) → take n b ≡ take (length (take n b)) b
take_of_take zero b = refl
take_of_take (suc n) [] = refl
take_of_take (suc n) (x ∷ xs) = ap (λ r. x ∷ r) (take_of_take n xs)

read_taken :
    (o : Option Bytes) (b buffer : Bytes) (n : ℕ)
    → o ≡ some b
    → read_of n o ≡ some buffer
    → buffer ≡ take (length buffer) b
read_taken none b buffer n h e = cc
read_taken (some x) b buffer n h e =
    let taken : take n b ≡ buffer = cc in rw (← taken) (take_of_take n b)

pub disk_laws : FileLaws disk_ops
disk_laws = record {
  content = λ d q. d.files q;
  access_found = λ p b d h. ap code_of h;
  access_missing = λ p d h. ap code_of h;
  rename_to = λ a b d d' ne e. move_file-to a b (d.files a) d.renames d d' refl ne e;
  rename_keeps = λ a b d d' e. move_file-keeps a b (d.files a) d.renames d d' e;
  rename_fails = λ a b d d' e. move_file-fails a b (d.files a) d.renames d d' e;
  open_trunc_empty = λ p mode d d' e. ap (λ r. r.1.files p) (sym e) ∙ put_self p (some []) d;
  open_trunc_keeps = λ p mode d q ne. put_ne p q (some []) d ne;
  write_appends = λ p bytes old d h. append_file-appends p bytes old (d.files p) d h;
  write_keeps = λ p bytes d q ne. append_file-keeps p bytes (d.files p) d q ne;
  write_count = λ p bytes d. append_file-count p bytes (d.files p) d;
  unlink_keeps = λ p d q ne. put_ne p q none d ne;
  remove_gone = λ p d d' e. ap (λ r. r.1.files p) (sym e) ∙ put_self p none d;
  remove_missing = λ p d d' e. ap (λ r. r.1.files p) (sym e) ∙ put_self p none d;
  remove_keeps = λ p d q ne. put_ne p q none d ne;
  fsync_keeps = λ p d q. refl;
  close_keeps = λ p d q. refl;
  open_read_keeps = λ p d q. refl;
  open_read_found = λ p b d h. open_found (d.files p) h;
  fstat_size = λ p b d st h e. stat_size (d.files p) b st h e;
  read_starts = λ p b buffer n d h e. read_taken (d.files p) b buffer n h e;
}

pub content_is : (d : Disk) (q : Bytes) → disk_laws.content d q ≡ d.files q
unfolding disk_laws
content_is d q = refl
