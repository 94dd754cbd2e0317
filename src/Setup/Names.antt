-- ===== src/Setup/Names.antt =====
-- Lists of names of PCR banks, as src/swtpm_setup/swtpm.c searches them.
use swtpm.Common.{
  ℕ, ◌+◌, ◌≡◌, ◌≤◌, refl, sym, ap, ◌∙◌, ◌⊎◌, inl, inr, Bool, true, false, ◌||◌, none, some, List,
  [], ◌∷◌, ◌++◌, if◌then◌else◌, be16, Bool-cases, arith,
}
use swtpm.Nvstore.Crypt.{bytes_eq}
use swtpm.Nvstore.Entries.{bytes_eq_self}
use swtpm.Nvstore.Integrity.{bytes_eq_sound}
use swtpm.Setup.{Bytes}
use swtpm.Setup.Banks.{get_hashalg_by_bankname, index_from, has_name}

-- A TPMS_PCR_SELECTION for each name, with this byte three times.
abbrev pub selections : ℕ → List Bytes → Bytes
selections byte [] = []
selections byte (n ∷ ns) =
    (be16 (get_hashalg_by_bankname n) ++ 3 ∷ byte ∷ byte ∷ byte ∷ []) ++ selections byte ns

-- the banks that there are and that are not chosen
abbrev pub unchosen : List Bytes → List Bytes → List Bytes
unchosen chosen [] = []
unchosen chosen (n ∷ ns) = if has_name n chosen then unchosen chosen ns else n ∷ unchosen chosen ns

-- no name stands twice
abbrev pub Distinct : List Bytes → Type 0
Distinct [] = Unit
Distinct (n ∷ ns) = (has_name n ns ≡ false) × Distinct ns

pub has_name-append :
    (n : Bytes) (xs ys : List Bytes) → has_name n (xs ++ ys) ≡ (has_name n xs || has_name n ys)
unfolding has_name
has_name-append n [] ys = refl
has_name-append n (x ∷ xs) ys = ground (arith, has_name-append n xs ys)

pub has_name_one : (n m : Bytes) → has_name n (m ∷ []) ≡ bytes_eq m n
unfolding has_name
has_name_one n m = ground arith

pub selections-append :
    (byte : ℕ) (xs ys : List Bytes)
    → selections byte (xs ++ ys) ≡ selections byte xs ++ selections byte ys
selections-append byte [] ys = refl
selections-append byte (x ∷ xs) ys =
    ap (λ r. (be16 (get_hashalg_by_bankname x) ++ 3 ∷ byte ∷ byte ∷ byte ∷ []) ++ r)
      (selections-append byte xs ys)

pub bytes_eq_comm : (m n : Bytes) → bytes_eq m n ≡ bytes_eq n m
unfolding bytes_eq
bytes_eq_comm [] [] = refl
bytes_eq_comm [] (y ∷ ys) = refl
bytes_eq_comm (x ∷ xs) [] = refl
bytes_eq_comm (x ∷ xs) (y ∷ ys) = ground (arith, bytes_eq_comm xs ys)

pub Distinct-append :
    (xs : List Bytes) (n : Bytes) → Distinct xs → has_name n xs ≡ false → Distinct (xs ++ n ∷ [])
unfolding has_name
Distinct-append [] n d h = (refl, tt)
Distinct-append (x ∷ xs) n (a, d) h = (
  ground (arith, has_name-append x xs (n ∷ []), has_name_one x n, bytes_eq_comm x n),
  Distinct-append xs n d (ground (arith, h)),
)

index_from-le : (k j : ℕ) (n : Bytes) (ns : List Bytes) → index_from k n ns ≡ some j → k ≤ j
unfolding index_from
index_from-le k j n [] h = cc
index_from-le k j n (m ∷ ms) h = ground (arith, index_from-le (k + 1) j n ms)

-- An index is that of one name, which is there.
pub index_from-injective :
    (k j : ℕ) (n m : Bytes) (ns : List Bytes)
    → index_from k n ns ≡ some j
    → index_from k m ns ≡ some j
    → n ≡ m
unfolding index_from
index_from-injective k j n m [] h g = cc
index_from-injective k j n m (x ∷ xs) h g = ground (
  arith,
  bytes_eq_sound n x,
  bytes_eq_sound m x,
  index_from-le (k + 1) j n xs,
  index_from-le (k + 1) j m xs,
  index_from-injective (k + 1) j n m xs,
)

pub index_from-has_name :
    (k j : ℕ) (n : Bytes) (ns : List Bytes) → index_from k n ns ≡ some j → has_name n ns ≡ true
unfolding index_from has_name
index_from-has_name k j n [] h = cc
index_from-has_name k j n (x ∷ xs) h =
    ground (arith, bytes_eq_comm x n, index_from-has_name (k + 1) j n xs)

pub index_from-missing :
    (k : ℕ) (n : Bytes) (ns : List Bytes) → index_from k n ns ≡ none → has_name n ns ≡ false
unfolding index_from has_name
index_from-missing k n [] h = refl
index_from-missing k n (x ∷ xs) h =
    ground (arith, bytes_eq_comm x n, index_from-missing (k + 1) n xs)

pub in_append :
    (m n : Bytes) (xs : List Bytes) → has_name m xs ≡ true → has_name m (xs ++ n ∷ []) ≡ true
in_append m n xs h = has_name-append m xs (n ∷ []) ∙ ap (λ b. b || has_name m (n ∷ [])) h

pub in_last : (m n : Bytes) (xs : List Bytes) → m ≡ n → has_name m (xs ++ n ∷ []) ≡ true
in_last m n xs e =
    has_name-append m xs (n ∷ [])
    ∙ (λ i. has_name m xs || ((has_name_one m n ∙ ap (λ x. bytes_eq n x) e ∙ bytes_eq_self n) i))
    ∙ or_true (has_name m xs)
  where
    or_true : (b : Bool) → (b || true) ≡ true
    or_true true = refl
    or_true false = refl

-- A name in a longer list was there, or is the new one.
pub in_cases :
    (m n : Bytes) (xs : List Bytes)
    → has_name m (xs ++ n ∷ []) ≡ true
    → (has_name m xs ≡ true) ⊎ (m ≡ n)
in_cases m n xs h = elim (Bool-cases (has_name m xs)) [
  | inl e ↦ inl e
  | inr e ↦ inr (
      sym (
        bytes_eq_sound n m (
          sym (has_name_one m n)
          ∙ ap (λ b. b || has_name m (n ∷ [])) (sym e)
          ∙ sym (has_name-append m xs (n ∷ []))
          ∙ h)))
]
