-- ===== src/Linear/Contents.antt =====
-- What the store holds for each entry, and what the steps of an operation do to it.
use swtpm.Common.{
  ℕ, ◌-◌, ◌≤◌, ◌<◌, ◌≡◌, ◌≢◌, ◌⊎◌, inl, inr, refl, sym, ap, ◌∙◌, Option, none, some, List, ◌==◌,
  if◌then◌else◌, Bool-cases, ==_iff, length, arith,
}
use swtpm.Common.Memory.{Memory, read, write, read-write_self, read-write_apart}
use swtpm.Linear.{File, State, max_states}
use swtpm.Linear.Ops.{compacted, put_data}
use swtpm.Linear.Packed.{IsUsed, IsPacked, resize_data-IsPacked}
use swtpm.Linear.Compact.{
  found, found_self, found_unused, still-IsUsed, moved_memory, read-moved, compact-IsPacked,
}

-- The data of an entry, if it is in use.
unfoldable pub contents_at : Memory → File → Option (List ℕ)
contents_at m file = if file.offset == 0 then none else some (read m file.offset file.data_length)

pub contents_at_used :
    (m : Memory) (file : File)
    → IsUsed file
    → contents_at m file ≡ some (read m file.offset file.data_length)
unfolding contents_at
contents_at_used m file u = ground arith

pub contents_at_unused : (m : Memory) (file : File) → file.offset ≡ 0 → contents_at m file ≡ none
unfolding contents_at
contents_at_unused m file e = ground arith

pub Used-cases : (file : File) → (file.offset ≡ 0) ⊎ IsUsed file
Used-cases file = elim (Bool-cases (file.offset == 0)) [
  | inl e ↦ inl (ground arith)
  | inr ne ↦ inr (ground arith)
]

-- An entry other than the one taken out keeps its contents.
module _ {hdrsize len : ℕ} {files : ℕ → File} (v : IsPacked hdrsize len files) (nr : ℕ)
    (p : nr < max_states) (u : IsUsed (files nr)) (m : Memory) where
  contents_at-moved :
      (j : ℕ)
      → j < max_states
      → j ≢ nr
      → contents_at (moved_memory v nr p u m) ((found v nr p u).files j) ≡ contents_at m (files j)
  contents_at-moved j q ne = elim (Used-cases (files j)) [
    | inl unused ↦
        contents_at_unused (moved_memory v nr p u m) ((found v nr p u).files j)
          (found_unused v nr p u j q ne unused)
        ∙ sym (contents_at_unused m (files j) unused)
    | inr used ↦
        contents_at_used (moved_memory v nr p u m) ((found v nr p u).files j)
          (still-IsUsed v nr p u j q ne used)
        ∙ ap some (read-moved v nr p u m j q ne used)
        ∙ sym (contents_at_used m (files j) used)
  ]

  contents_at-taken : contents_at (moved_memory v nr p u m) ((found v nr p u).files nr) ≡ none
  contents_at-taken =
      contents_at_unused (moved_memory v nr p u m) ((found v nr p u).files nr)
        (ap (λ (f : File). f.offset) (found_self v nr p u))

module _ {W : Type 0} where
  abbrev pub contents : State W → ℕ → Option (List ℕ)
  contents s i = contents_at s.memory (s.hdr.files i)

  abbrev pub IsLaidOut : State W → Type 0
  IsLaidOut s = IsPacked s.hdr.hdrsize s.length s.hdr.files

  -- Taking out a file leaves the contents of every other entry, and none of its own.
  pub contents-compacted :
      (s : State W) (nr j : ℕ)
      → IsLaidOut s
      → nr < max_states
      → IsUsed (s.hdr.files nr)
      → j < max_states
      → contents (compacted nr s) j ≡ (if j == nr then none else contents s j)
  unfolding compacted
  contents-compacted s nr j v p u q = elim (Bool-cases (j == nr)) [
    | inl same ↦
        let e : j ≡ nr = (==_iff j nr).0 same in
        rw same (rw e (contents_at-taken v nr p u s.memory))
    | inr other ↦ rw other (contents_at-moved v nr p u s.memory j q (ground arith))
  ]

  pub compacted-IsLaidOut :
      (s : State W) (nr : ℕ) (v : IsLaidOut s)
      → nr < max_states
      → IsUsed (s.hdr.files nr)
      → IsPacked s.hdr.hdrsize
          (s.length - (s.hdr.files nr).section_length)
          (compacted nr s).hdr.files
  unfolding compacted
  compacted-IsLaidOut s nr v p u = compact-IsPacked v nr p u

  -- Writing data that fit the section of a file in use: its contents are the data, and every other
  -- entry keeps its own.
  pub contents-put_data :
      (s : State W) (nr j : ℕ) (filedata : List ℕ)
      → IsLaidOut s
      → nr < max_states
      → IsUsed (s.hdr.files nr)
      → length filedata ≤ (s.hdr.files nr).section_length
      → j < max_states
      → contents (put_data nr filedata s) j ≡ (if j == nr then some filedata else contents s j)
  unfolding put_data
  contents-put_data s nr j filedata v p u fits q = elim (Bool-cases (j == nr)) [
    | inl same ↦
        rw
          (
            same,
            contents_at_used (write s.memory (s.hdr.files nr).offset filedata)
                (record (s.hdr.files nr) { data_length = length filedata }) u,
            read-write_self,
          )
          refl
    | inr other ↦
        let ne : j ≢ nr = ground arith in
        rw other (elim (Used-cases (s.hdr.files j)) [
          | inl unused ↦
              contents_at_unused (write s.memory (s.hdr.files nr).offset filedata) (s.hdr.files j)
                unused
              ∙ sym (contents_at_unused s.memory (s.hdr.files j) unused)
          | inr used ↦
              contents_at_used (write s.memory (s.hdr.files nr).offset filedata) (s.hdr.files j)
                used
              ∙ ap some (
                  read-write_apart s.memory (s.hdr.files nr).offset filedata (s.hdr.files j).offset
                    (s.hdr.files j).data_length
                    (omega (arith, v.apart j nr q p ne used u, (v.in_space j q used).holds)))
              ∙ sym (contents_at_used s.memory (s.hdr.files j) used)
        ])
  ]

  pub put_data-IsLaidOut :
      (s : State W) (nr : ℕ) (filedata : List ℕ)
      → IsLaidOut s
      → length filedata ≤ (s.hdr.files nr).section_length
      → IsLaidOut (put_data nr filedata s)
  unfolding put_data
  put_data-IsLaidOut s nr filedata v fits = resize_data-IsPacked v nr (length filedata) fits
