-- ===== src/Dir/Paths.antt =====
-- The paths of src/swtpm/swtpm_nvstore_dir.c: a file, its backup, and the temporary files differ.
use swtpm.Common.{
  ℕ, suc, ◌+◌, ◌≡◌, ◌≢◌, sym, ap, ◌∙◌, Bool, true, false, [], ◌∷◌, ◌++◌, leb, length, get_or,
  length-append, arith,
}
use swtpm.Common.Result.{ok, fail, >>=-eq-ok, if-eq-ok_not, ok_injective}
use swtpm.Linear.{Name}
use swtpm.Tpmlib.{TpmVersion}
use swtpm.Dir.{
  Bytes, DirConfig, file_prefix, printed, get_filename_for_name, get_filepath_for_name, bak, tmp,
}

-- the file of a name, its temporary file, and the names derived from a file
abbrev pub path_of : DirConfig → Bytes → Bool → Name → Bytes
path_of c dir is_tempfile name = dir ++ 47 ∷ (file_prefix c.version is_tempfile ++ c.spelled name)

abbrev pub bak_of : Bytes → Bytes
bak_of filepath = filepath ++ 46 ∷ bak

abbrev pub tmp_of : Bytes → Bytes
tmp_of filepath = filepath ++ 46 ∷ tmp

get_or-append : (xs ys : Bytes) (k : ℕ) → get_or (xs ++ ys) (length xs + k) 0 ≡ get_or ys k 0
get_or-append [] ys k = ap (λ i. get_or ys i 0) {x = 0 + k} {y = k} (omega arith)
get_or-append (x ∷ xs) ys k =
    ap (λ i. get_or (x ∷ (xs ++ ys)) i 0) {x = suc (length xs) + k} {y = suc (length xs + k)}
      (omega arith)
    ∙ get_or-append xs ys k

-- Two lists that go on differently are different.
ne-append : (xs ys zs : Bytes) (k : ℕ) → get_or ys k 0 ≢ get_or zs k 0 → xs ++ ys ≢ xs ++ zs
ne-append xs ys zs k ne e =
    ne
      (sym (get_or-append xs ys k) ∙ ap (λ l. get_or l (length xs + k) 0) e ∙ get_or-append xs zs k)

longer : (xs ys : Bytes) (y : ℕ) → xs ≢ xs ++ y ∷ ys
longer xs ys y e =
    let lengths : length xs ≡ length (xs ++ y ∷ ys) = ap length e in
    absurd (omega (arith, length-append xs (y ∷ ys), lengths))

pub file-ne-bak : (f : Bytes) → f ≢ bak_of f
file-ne-bak f = longer f bak 46

pub file-ne-tmp : (f : Bytes) → f ≢ tmp_of f
file-ne-tmp f = longer f tmp 46

pub bak-ne-tmp : (f : Bytes) → bak_of f ≢ tmp_of f
bak-ne-tmp f = ne-append f (46 ∷ bak) (46 ∷ tmp) 1 (λ e. absurd (omega (arith, e)))

first_letters :
    (v : TpmVersion) (rest : Bytes)
    → get_or (47 ∷ (file_prefix v false ++ rest)) 1 0
      ≢ get_or (47 ∷ (file_prefix v true ++ rest)) 1 0
unfolding file_prefix
first_letters TpmVersion.tpm_1_2 rest e = absurd (omega (arith, e))
first_letters TpmVersion.tpm_2 rest e = absurd (omega (arith, e))

pub file-ne-tempfile :
    (c : DirConfig) (dir : Bytes) (name : Name) → path_of c dir false name ≢ path_of c dir true name
file-ne-tempfile c dir name = ne-append dir _ _ 1 (first_letters c.version (c.spelled name))

-- What snprintf has printed is the text.
pub printed-eq-ok :
    (bufsize : ℕ) (text : Bytes) {t : Bytes} → printed bufsize text ≡ ok t → text ≡ t
unfolding printed
printed-eq-ok n text h = ok_injective (if-eq-ok_not fail (leb n (length text)) (ok text) h).1

pub filepath-eq-ok :
    (c : DirConfig) (name : Name) (is_tempfile : Bool) (dir : Bytes) {t : Bytes}
    → get_filepath_for_name c name is_tempfile dir ≡ ok t
    → path_of c dir is_tempfile name ≡ t
unfolding get_filepath_for_name get_filename_for_name
filepath-eq-ok c name b dir h =
    let (filename, e, h') = >>=-eq-ok (get_filename_for_name c name b) _ h in
    let e' : file_prefix c.version b ++ c.spelled name ≡ filename =
      printed-eq-ok c.filename_max _ e in
    ap (λ n. dir ++ 47 ∷ n) e' ∙ printed-eq-ok c.filename_max _ h'
