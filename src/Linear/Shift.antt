-- ===== src/Linear/Shift.antt =====
-- The loop of RemoveFile: what it finds, and the entries that it leaves.
use native.Mathlib.Nat.{le_trans}
use swtpm.Common.{
  ℕ, zero, suc, ◌+◌, ◌-◌, ◌%◌, ◌≤◌, ◌<◌, ◌≡◌, ◌≢◌, ◌⊎◌, inl, inr, refl, ap, ◌∙◌, u32_mod, ltb, ◌==◌,
  if◌then◌else◌, Bool-cases, ==_iff, arith,
}
use swtpm.Common.Memory.{update, update_self, update_ne}
use swtpm.Linear.{File, Removal, shift_one, shift_files}
use swtpm.Linear.Packed.{IsUsed, end_of}

-- The file lies behind `old`, so the loop moves it.
abbrev pub IsBehind : File → File → Type 0
IsBehind old file = IsUsed file × (old.offset < file.offset)

-- The entry that the loop leaves.
unfoldable pub shifted : File → File → File
shifted old file =
    if file.offset == 0
    then file
    else if ltb old.offset file.offset
    then record file { offset = (file.offset + u32_mod - old.section_length) % u32_mod }
    else file

module _ (old : File) where
  files-shift_one :
      (i : ℕ) (r : Removal) (j : ℕ)
      → (shift_one old i r).files j ≡ update r.files i (shifted old (r.files i)) j
  unfolding shift_one shifted
  files-shift_one i r j = elim (Bool-cases (j == i)) [
    | inl e ↦ let e' : j ≡ i = (==_iff j i).0 e in rw e' (ground arith)
    | inr ne ↦ ground arith
  ]

  files_before :
      (n i : ℕ) (r : Removal) (j : ℕ) → j < i → (shift_files old n i r).files j ≡ r.files j
  unfolding shift_files
  files_before zero i r j h = refl
  files_before (suc n) i r j h =
      files_before n (i + 1) (shift_one old i r) j (omega arith)
      ∙ files-shift_one i r j
      ∙ update_ne r.files i (shifted old (r.files i)) j (omega arith)

  pub files_moved :
      (n i : ℕ) (r : Removal) (j : ℕ)
      → i ≤ j
      → j < i + n
      → (shift_files old n i r).files j ≡ shifted old (r.files j)
  unfolding shift_files
  files_moved zero i r j p q = absurd (omega arith)
  files_moved (suc n) i r j p q = elim (Bool-cases (j == i)) [
    | inl e ↦
        let e' : j ≡ i = (==_iff j i).0 e in
        files_before n (i + 1) (shift_one old i r) j (omega arith)
        ∙ files-shift_one i r j
        ∙ rw e' (update_self r.files i (shifted old (r.files i)))
    | inr ne ↦
        files_moved n (i + 1) (shift_one old i r) j (ground arith) (omega arith)
        ∙ ap (shifted old)
            (files-shift_one i r j ∙ update_ne r.files i (shifted old (r.files i)) j (ground arith))
  ]

  next-shift_one : (i : ℕ) (r : Removal) → (shift_one old i r).next_offset ≤ r.next_offset
  unfolding shift_one
  next-shift_one i r = ground arith

  next-le : (n i : ℕ) (r : Removal) → (shift_files old n i r).next_offset ≤ r.next_offset
  unfolding shift_files
  next-le zero i r = omega arith
  next-le (suc n) i r = omega (arith, next-le n (i + 1) (shift_one old i r), next-shift_one i r)

  next-shift_one_behind :
      (i : ℕ) (r : Removal)
      → IsBehind old (r.files i)
      → (shift_one old i r).next_offset ≤ (r.files i).offset
  unfolding shift_one
  next-shift_one_behind i r b = ground arith

  -- what a round leaves of the entries that later rounds read
  later_file :
      (i : ℕ) (r : Removal) (j : ℕ) (file : File)
      → r.files j ≡ file
      → j ≢ i
      → (shift_one old i r).files j ≡ file
  later_file i r j file e ne =
      files-shift_one i r j ∙ update_ne r.files i (shifted old (r.files i)) j ne ∙ e

  pub next-le-behind :
      (n i : ℕ) (r : Removal) (j : ℕ) (file : File)
      → i ≤ j
      → j < i + n
      → r.files j ≡ file
      → IsBehind old file
      → (shift_files old n i r).next_offset ≤ file.offset
  unfolding shift_files
  next-le-behind zero i r j file p q e b = absurd (omega arith)
  next-le-behind (suc n) i r j file p q e b = elim (Bool-cases (j == i)) [
    | inl same ↦
        let e' : r.files i ≡ file = rw (← (==_iff j i).0 same) e in
        rw (← e')
          (le_trans (next-le n (i + 1) (shift_one old i r)) (next-shift_one_behind i r (rw e' b)))
    | inr ne ↦
        next-le-behind n (i + 1) (shift_one old i r) j file (ground arith) (omega arith)
          (later_file i r j file e (ground arith)) b
  ]

  -- The least offset behind `old` is that of a file, if there is one.
  abbrev pub NextIsAFile : (ℕ → File) → ℕ → ℕ → Type 0
  NextIsAFile files hi next =
      (j : ℕ) × (j < hi) × IsBehind old (files j) × (next ≡ (files j).offset)

  next-shift_one-cases :
      (i : ℕ) (r : Removal)
      → ((shift_one old i r).next_offset ≡ r.next_offset)
        ⊎ (IsBehind old (r.files i) × ((shift_one old i r).next_offset ≡ (r.files i).offset))
  unfolding shift_one
  next-shift_one-cases i r = ground arith

  pub next_attained :
      (files : ℕ → File) (n i : ℕ) (r : Removal)
      → ((j : ℕ) → i ≤ j → r.files j ≡ files j)
      → ((shift_files old n i r).next_offset ≡ r.next_offset)
        ⊎ NextIsAFile files (i + n) (shift_files old n i r).next_offset
  unfolding shift_files
  next_attained files zero i r h = inl refl
  next_attained files (suc n) i r h =
      elim (next_attained files n (i + 1) (shift_one old i r)
        (λ j p. later_file i r j (files j) (h j (omega arith)) (omega arith))) [
          | inl same ↦ elim (next-shift_one-cases i r) [
            | inl old_next ↦ inl (same ∙ old_next)
            | inr here ↦
                let e = h i (omega arith) in
                inr (i, omega arith, rw e at here.0, same ∙ here.1 ∙ ap (λ (f : File). f.offset) e)
          ]
          | inr later ↦ inr (later.0, omega (arith, later.1), later.2, later.3)
        ]

  end-shift_one : (i : ℕ) (r : Removal) → r.state_end ≤ (shift_one old i r).state_end
  unfolding shift_one
  end-shift_one i r = ground arith

  end-le : (n i : ℕ) (r : Removal) → r.state_end ≤ (shift_files old n i r).state_end
  unfolding shift_files
  end-le zero i r = omega arith
  end-le (suc n) i r = omega (arith, end-le n (i + 1) (shift_one old i r), end-shift_one i r)

  end-shift_one_behind :
      (i : ℕ) (r : Removal)
      → IsBehind old (r.files i)
      → end_of (r.files i) < u32_mod
      → end_of (r.files i) ≤ (shift_one old i r).state_end
  unfolding shift_one
  end-shift_one_behind i r b w = ground arith

  pub end-le-behind :
      (n i : ℕ) (r : Removal) (j : ℕ) (file : File)
      → i ≤ j
      → j < i + n
      → r.files j ≡ file
      → IsBehind old file
      → end_of file < u32_mod
      → end_of file ≤ (shift_files old n i r).state_end
  unfolding shift_files
  end-le-behind zero i r j file p q e b w = absurd (omega arith)
  end-le-behind (suc n) i r j file p q e b w = elim (Bool-cases (j == i)) [
    | inl same ↦
        let e' : r.files i ≡ file = rw (← (==_iff j i).0 same) e in
        rw (← e') (
          le_trans (end-shift_one_behind i r (rw e' b) (rw e' w))
            (end-le n (i + 1) (shift_one old i r)))
    | inr ne ↦
        end-le-behind n (i + 1) (shift_one old i r) j file (ground arith) (omega arith)
          (later_file i r j file e (ground arith)) b w
  ]

  end-shift_one_bounded :
      (bound i : ℕ) (r : Removal)
      → (IsUsed (r.files i) → end_of (r.files i) ≤ bound)
      → r.state_end ≤ bound
      → (shift_one old i r).state_end ≤ bound
  unfolding shift_one
  end-shift_one_bounded bound i r b e = elim (Bool-cases ((r.files i).offset == 0)) [
    | inl unused ↦ ground arith
    | inr used ↦ let h = b (ground arith) in ground arith
  ]

  -- No round moves the end past a bound that holds for every file behind `old`.
  pub end_bounded :
      (files : ℕ → File) (bound n i : ℕ) (r : Removal)
      → ((j : ℕ) → i ≤ j → r.files j ≡ files j)
      → ((j : ℕ) → i ≤ j → j < i + n → IsUsed (files j) → end_of (files j) ≤ bound)
      → r.state_end ≤ bound
      → (shift_files old n i r).state_end ≤ bound
  unfolding shift_files
  end_bounded files bound zero i r h b e = e
  end_bounded files bound (suc n) i r h b e =
      end_bounded files bound n (i + 1) (shift_one old i r)
        (λ j p. later_file i r j (files j) (h j (omega arith)) (omega arith))
        (λ j p q. b j (omega arith) (omega arith))
        (end-shift_one_bounded bound i r
          (λ u.
            rw (h i (omega arith)) (b i (omega arith) (omega arith) (rw (h i (omega arith)) at u)))
          e)
