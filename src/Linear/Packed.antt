-- ===== src/Linear/Packed.antt =====
-- The layout that the allocator keeps: the files' sections follow the header one after the other.
use native.Mathlib.Nat.{le_trans}
use swtpm.Common.{
  ℕ, zero, suc, ◌+◌, ◌≤◌, ◌<◌, ◌≡◌, ◌≢◌, ◌⊎◌, inl, inr, refl, sym, ◌∙◌, u32_mod, ◌==◌, Bool-cases,
  ==_iff, arith,
}
use swtpm.Common.Memory.{update, update-elim, update_ne}
use swtpm.Linear.{File, max_states, sizeof_hdr, further_end, find_end}

-- the offset behind a file's section
abbrev pub end_of : File → ℕ
end_of file = file.offset + file.section_length

-- An entry in use. Its section is not empty and lies behind the header, within the length.
pub record InSpace (hdrsize len : ℕ) (file : File) : Type 0 where
  pub behind : hdrsize ≤ file.offset
  pub room : 0 < file.section_length
  pub holds : file.data_length ≤ file.section_length
  pub within : end_of file ≤ len

abbrev pub IsUsed : File → Type 0
IsUsed file = file.offset ≢ 0

abbrev pub Apart : File → File → Type 0
Apart f g = (end_of f ≤ g.offset) ⊎ (end_of g ≤ f.offset)

-- Another file ends where this one starts.
abbrev pub Follows : (ℕ → File) → ℕ → Type 0
Follows files i =
    (j : ℕ) × (j < max_states) × IsUsed (files j) × (end_of (files j) ≡ (files i).offset)

-- The used sections lie behind the header and within the length, do not overlap, and leave no hole.
pub record IsPacked (hdrsize len : ℕ) (files : ℕ → File) : Type 0 where
  pub hdr_fits : sizeof_hdr ≤ hdrsize
  pub hdr_in : hdrsize ≤ len
  pub small : len < u32_mod
  pub in_space : (i : ℕ) → i < max_states → IsUsed (files i) → InSpace hdrsize len (files i)
  pub apart :
      (i j : ℕ)
      → i < max_states
      → j < max_states
      → i ≢ j
      → IsUsed (files i)
      → IsUsed (files j)
      → Apart (files i) (files j)
  pub no_hole :
      (i : ℕ) → i < max_states → IsUsed (files i) → ((files i).offset ≡ hdrsize) ⊎ Follows files i

end-le-further_end :
    (file : File) (acc : ℕ)
    → IsUsed file
    → end_of file < u32_mod
    → end_of file ≤ further_end file acc
unfolding further_end
end-le-further_end file acc u w = ground arith

further_end-cases :
    (file : File) (acc : ℕ)
    → (IsUsed file → end_of file < u32_mod)
    → (further_end file acc ≡ acc) ⊎ (IsUsed file × (end_of file ≡ further_end file acc))
unfolding further_end
further_end-cases file acc w = elim (Bool-cases (file.offset == 0)) [
  | inl e ↦ ground arith
  | inr ne ↦ let h = w (ground arith) in ground arith
]

-- What the loop that looks for the end finds, if no end wraps.
module _ (files : ℕ → File) where
  abbrev NoWrap : ℕ → ℕ → Type 0
  NoWrap i n = (j : ℕ) → i ≤ j → j < i + n → IsUsed (files j) → end_of (files j) < u32_mod

  acc-le-find_end : (n i acc : ℕ) → acc ≤ find_end files n i acc
  unfolding find_end
  acc-le-find_end zero i acc = omega arith
  acc-le-find_end (suc n) i acc =
      ground (arith, acc-le-find_end n (i + 1) (further_end (files i) acc))

  end-le-find_end :
      (n i acc j : ℕ)
      → NoWrap i n
      → i ≤ j
      → j < i + n
      → IsUsed (files j)
      → end_of (files j) ≤ find_end files n i acc
  unfolding find_end
  end-le-find_end zero i acc j w p q u = absurd (omega arith)
  end-le-find_end (suc n) i acc j w p q u = elim (Bool-cases (j == i)) [
    | inl e ↦
        let e' : i ≡ j = sym ((==_iff j i).0 e) in
        rw e' (
          le_trans (end-le-further_end (files j) acc u (w j p q u))
            (acc-le-find_end n (j + 1) (further_end (files j) acc)))
    | inr ne ↦
        end-le-find_end n (i + 1) (further_end (files i) acc) j
          (λ k a b. w k (omega arith) (omega arith)) (ground arith) (omega arith) u
  ]

  find_end_attained :
      (n i acc : ℕ)
      → NoWrap i n
      → (find_end files n i acc ≡ acc)
        ⊎ ((j : ℕ) × (j < i + n) × IsUsed (files j) × (end_of (files j) ≡ find_end files n i acc))
  unfolding find_end
  find_end_attained zero i acc w = inl refl
  find_end_attained (suc n) i acc w =
      elim (find_end_attained n (i + 1) (further_end (files i) acc)
        (λ k a b. w k (omega arith) (omega arith))) [
          | inl same ↦ elim (further_end-cases (files i) acc (w i (omega arith) (omega arith))) [
            | inl old ↦ inl (same ∙ old)
            | inr used ↦ inr (i, omega arith, used.0, used.1 ∙ sym same)
          ]
          | inr later ↦ inr (later.0, omega (arith, later.1), later.2, later.3)
        ]

-- A new file behind all others keeps the layout, if its end does not wrap and lies within the new
-- length.
module _ {hdrsize len : ℕ} {files : ℕ → File} (v : IsPacked hdrsize len files)
    (nr n section len' : ℕ) (in_range : nr < max_states) (unused : (files nr).offset ≡ 0)
    (positive : 0 < section) (fits : n ≤ section) where
  abbrev pub new_offset : ℕ
  new_offset = find_end files max_states 0 hdrsize

  abbrev pub new_file : File
  new_file = record { offset = new_offset; data_length = n; section_length = section }

  no_wrap : NoWrap files 0 max_states
  no_wrap j p q u = omega (arith, (v.in_space j (omega arith) u).within, v.small)

  pub hdrsize-le-new_offset : hdrsize ≤ new_offset
  hdrsize-le-new_offset = acc-le-find_end files max_states 0 hdrsize

  pub end-le-new_offset :
      (j : ℕ) → j < max_states → IsUsed (files j) → end_of (files j) ≤ new_offset
  end-le-new_offset j p u =
      end-le-find_end files max_states 0 hdrsize j no_wrap (omega arith) (omega arith) u

  pub new_offset-le-len : new_offset ≤ len
  new_offset-le-len = elim (find_end_attained files max_states 0 hdrsize no_wrap) [
    | inl e ↦ omega (arith, e, v.hdr_in)
    | inr at ↦ omega (arith, at.3, (v.in_space at.0 (omega (arith, at.1)) at.2).within)
  ]

  module _ (inside : new_offset + section ≤ len') (small : len' < u32_mod) where
    pub place-IsPacked : IsPacked hdrsize len' (update files nr new_file)
    place-IsPacked = record {
      hdr_fits = v.hdr_fits;
      hdr_in = omega (arith, hdrsize-le-new_offset);
      small = small;
      in_space = λ i p.
          update-elim (λ f. IsUsed f → InSpace hdrsize len' f) files nr new_file i
            (λ _ _. record {
              behind = hdrsize-le-new_offset;
              room = positive;
              holds = fits;
              within = inside;
            })
            (λ _ u.
              let s = v.in_space i p u in
              record {
                behind = s.behind;
                room = s.room;
                holds = s.holds;
                within = omega (arith, end-le-new_offset i p u);
              });
      apart = λ i j p q ne.
          update-elim
            (λ f.
              IsUsed f → IsUsed (update files nr new_file j) → Apart f (update files nr new_file j))
            files nr new_file i
            (λ e.
              update-elim (λ g. IsUsed new_file → IsUsed g → Apart new_file g) files nr new_file j
                (λ e'. absurd (ne (e ∙ sym e'))) (λ _ _ w. inr (end-le-new_offset j q w)))
            (λ ni.
              update-elim (λ g. IsUsed (files i) → IsUsed g → Apart (files i) g) files nr new_file j
                (λ _ u _. inl (end-le-new_offset i p u)) (λ _ u w. v.apart i j p q ne u w));
      no_hole = λ i p.
          update-elim (λ f. IsUsed f → (f.offset ≡ hdrsize) ⊎ Before f) files nr new_file i
            (λ _ _. behind_last) (λ _ u. behind_old i p u);
    }
      where
        Before : File → Type 0
        Before f =
            (j : ℕ) × (j < max_states)
            × IsUsed (update files nr new_file j)
            × (end_of (update files nr new_file j) ≡ f.offset)

        kept :
            (j : ℕ) (f : File)
            → IsUsed (files j)
            → end_of (files j) ≡ f.offset
            → j < max_states
            → Before f
        kept j f u e p =
            let ne : j ≢ nr = λ (e : j ≡ nr). u (rw e unused) in
            (j, p, rw (update_ne files nr new_file j ne) u, rw (update_ne files nr new_file j ne) e)

        behind_last : (new_file.offset ≡ hdrsize) ⊎ Before new_file
        behind_last = elim (find_end_attained files max_states 0 hdrsize no_wrap) [
          | inl e ↦ inl e
          | inr at ↦ inr (kept at.0 new_file at.2 at.3 (omega (arith, at.1)))
        ]

        behind_old :
            (i : ℕ)
            → i < max_states
            → IsUsed (files i)
            → ((files i).offset ≡ hdrsize) ⊎ Before (files i)
        behind_old i p u = elim (v.no_hole i p u) [
          | inl e ↦ inl e
          | inr at ↦ inr (kept at.0 (files i) at.2 at.3 at.1)
        ]

-- More room behind the last file does no harm.
pub longer-IsPacked :
    {hdrsize len len' : ℕ} {files : ℕ → File}
    → IsPacked hdrsize len files
    → len ≤ len'
    → len' < u32_mod
    → IsPacked hdrsize len' files
longer-IsPacked v h small = record {
  hdr_fits = v.hdr_fits;
  hdr_in = omega (arith, v.hdr_in);
  small = small;
  in_space = λ i p u.
      let s = v.in_space i p u in
      record {
        behind = s.behind;
        room = s.room;
        holds = s.holds;
        within = omega (arith, s.within);
      };
  apart = v.apart;
  no_hole = v.no_hole;
}

-- The layout does not depend on how much of a section is in use.
pub resize_data-IsPacked :
    {hdrsize len : ℕ} {files : ℕ → File}
    → IsPacked hdrsize len files
    → (nr n : ℕ) → n ≤ (files nr).section_length
    → IsPacked hdrsize len (update files nr (record (files nr) { data_length = n }))
resize_data-IsPacked {hdrsize} {len} {files} v nr n fits = record {
  hdr_fits = v.hdr_fits;
  hdr_in = v.hdr_in;
  small = v.small;
  in_space = λ i p.
      update-elim (λ f. IsUsed f → InSpace hdrsize len f) files nr changed i
        (λ e u.
          let s = v.in_space nr (rw e at p) u in
          record { behind = s.behind; room = s.room; holds = fits; within = s.within })
        (λ _ u. v.in_space i p u);
  apart = λ i j p q ne u w.
      rw (offset_kept i, offset_kept j, section_kept i, section_kept j)
        (v.apart i j p q ne (rw offset_kept at u) (rw offset_kept at w));
  no_hole = λ i p u. elim (v.no_hole i p (rw offset_kept at u)) [
    | inl first ↦ inl (offset_kept i ∙ first)
    | inr at ↦ inr (
      at.0,
      at.1,
      rw offset_kept at.2,
      rw (offset_kept at.0, section_kept at.0, offset_kept i) at.3,
    )
  ];
}
  where
    changed : File
    changed = record (files nr) { data_length = n }

    offset_kept : (i : ℕ) → (update files nr changed i).offset ≡ (files i).offset
    offset_kept i =
        update-elim (λ f. f.offset ≡ (files i).offset) files nr changed i (λ e. rw e refl)
          (λ _. refl)

    section_kept : (i : ℕ) → (update files nr changed i).section_length ≡ (files i).section_length
    section_kept i =
        update-elim (λ f. f.section_length ≡ (files i).section_length) files nr changed i
          (λ e. rw e refl) (λ _. refl)
