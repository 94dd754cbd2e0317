-- ===== src/Linear/Compact.antt =====
-- Taking a file out of a packed layout: what the loop of RemoveFile finds, and the layout it leaves.
use swtpm.Common.{
  ℕ, ◌+◌, ◌-◌, ◌%◌, ◌≤◌, ◌<◌, ◌≡◌, ◌≢◌, ◌⊎◌, inl, inr, refl, sym, ap, ◌∙◌, false, u32_mod, ◌==◌,
  if◌then◌else◌, Bool-cases, ==_iff, arith,
}
use swtpm.Common.Memory.{
  Memory, read, move, read-move_inside, read-move_before, update, update-elim, update_self,
  update_ne,
}
use swtpm.Linear.{File, Removal, max_states, shift_files}
use swtpm.Linear.Packed.{IsUsed, end_of, InSpace, IsPacked, Apart, Follows}
use swtpm.Linear.Shift.{
  IsBehind, shifted, files_moved, next-le-behind, next_attained, end-le-behind, end_bounded,
}

-- What the loop has found when a file of a packed layout is taken out.
module _ {hdrsize len : ℕ} {files : ℕ → File} (v : IsPacked hdrsize len files) (nr : ℕ)
    (in_range : nr < max_states) (used : IsUsed (files nr)) where
  abbrev pub old : File
  old = files nr

  abbrev pub no_file : File
  no_file = record { offset = 0; data_length = 0; section_length = 0 }

  abbrev start : Removal
  start = record { files = update files nr no_file; next_offset = 0xffffffff; state_end = 0 }

  abbrev pub found : Removal
  found = shift_files old max_states 0 start

  here : InSpace hdrsize len old
  here = v.in_space nr in_range used

  -- A used entry other than the one taken out lies wholly before it or wholly behind it.
  pub before_or_behind :
      (j : ℕ)
      → j < max_states
      → j ≢ nr
      → IsUsed (files j)
      → (end_of (files j) ≤ old.offset) ⊎ (end_of old ≤ (files j).offset)
  before_or_behind j p ne u = v.apart j nr p in_range ne u used

  start_file : (j : ℕ) → j ≢ nr → start.files j ≡ files j
  start_file j ne = update_ne files nr no_file j ne

  abbrev AllBefore : Type 0
  AllBefore = (j : ℕ) → j < max_states → j ≢ nr → IsUsed (files j) → end_of (files j) ≤ old.offset

  -- The first file behind the hole starts just where the hole ends.
  first_behind :
      (k : ℕ)
      → k < max_states
      → IsBehind old (files k)
      → ((j : ℕ)
          → j < max_states
          → j ≢ nr
          → IsBehind old (files j)
          → (files k).offset ≤ (files j).offset)
      → (files k).offset ≡ end_of old
  first_behind k p b least = elim (v.no_hole k p b.0) [
    | inl first ↦ absurd (omega (arith, here.behind))
    | inr at ↦ elim (Bool-cases (at.0 == nr)) [
      | inl same ↦ sym at.3 ∙ ap (λ i. end_of (files i)) ((==_iff at.0 nr).0 same)
      | inr other ↦
          let ne : at.0 ≢ nr = ground arith in
          elim (before_or_behind at.0 at.1 ne at.2) [
            | inl before ↦ absurd (omega (arith, at.3))
            | inr behind ↦ absurd (
                omega (
                  arith,
                  at.3,
                  (v.in_space at.0 at.1 at.2).room,
                  here.room,
                  least at.0 at.1 ne (at.2, omega (arith, here.room)),
                ))
          ]
    ]
  ]

  next-le-file :
      (j : ℕ)
      → j < max_states
      → j ≢ nr
      → IsBehind old (files j)
      → found.next_offset ≤ (files j).offset
  next-le-file j p ne b =
      next-le-behind old max_states 0 start j (files j) (omega arith) (omega arith)
        (start_file j ne) b

  -- The loop finds no file behind the one taken out, or the end of the hole.
  pub next_is_end :
      (AllBefore × (found.next_offset ≡ 0xffffffff)) ⊎ (found.next_offset ≡ end_of old)
  next_is_end = elim (next_attained old start.files max_states 0 start (λ j p. refl)) [
    | inl sentinel ↦ inl (none_behind sentinel, sentinel)
    | inr at ↦ inr (at_end at.0 (omega (arith, at.1)) at.2 at.3)
  ]
    where
      none_behind : found.next_offset ≡ 0xffffffff → AllBefore
      none_behind e j p ne u = elim (before_or_behind j p ne u) [
        | inl before ↦ before
        | inr behind ↦ absurd (
            omega (
              arith,
              v.small,
              (v.in_space j p u).within,
              (v.in_space j p u).room,
              e,
              next-le-file j p ne (u, omega (arith, here.room)),
            ))
      ]

      at_end :
          (k : ℕ)
          → k < max_states
          → IsBehind old (start.files k)
          → found.next_offset ≡ (start.files k).offset
          → found.next_offset ≡ end_of old
      at_end k p b e =
          let ne : k ≢ nr = λ (same : k ≡ nr). b.0 (rw (same, update_self files nr no_file) refl) in
          let e' = start_file k ne in
          let next : found.next_offset ≡ (files k).offset = e ∙ ap (λ (f : File). f.offset) e' in
          next
          ∙ first_behind k p (rw e' at b)
              (λ j q ne' b'. omega (arith, next, next-le-file j q ne' b'))

  -- An entry other than the one taken out, after the loop: as it was, or moved by the section.
  pub record Kept (j : ℕ) (file : File) : Type 0 where
    pub same_data : file.data_length ≡ (files j).data_length
    pub same_section : file.section_length ≡ (files j).section_length
    pub place :
        ((end_of (files j) ≤ old.offset) × (file.offset ≡ (files j).offset))
        ⊎ ((end_of old ≤ (files j).offset) × (file.offset + old.section_length ≡ (files j).offset))

  shifted-Kept :
      (j : ℕ) → j < max_states → j ≢ nr → IsUsed (files j) → Kept j (shifted old (files j))
  unfolding shifted
  shifted-Kept j p ne u =
      let t = v.in_space j p u in
      elim (before_or_behind j p ne u) [
        | inl before ↦ ground (arith, here.room, t.room)
        | inr behind ↦ ground (arith, here.room, here.behind, t.within, v.small)
      ]

  file_found : (j : ℕ) → j < max_states → j ≢ nr → found.files j ≡ shifted old (files j)
  file_found j p ne =
      files_moved old max_states 0 start j (omega arith) (omega arith)
      ∙ ap (shifted old) (start_file j ne)

  pub found-Kept : (j : ℕ) → j < max_states → j ≢ nr → IsUsed (files j) → Kept j (found.files j)
  found-Kept j p ne u = rw (file_found j p ne) (shifted-Kept j p ne u)

  pub found_self : found.files nr ≡ no_file
  unfolding shifted
  found_self =
      files_moved old max_states 0 start nr (omega arith) (omega arith)
      ∙ ap (shifted old) (update_self files nr no_file)

  shifted_unused : (file : File) → file.offset ≡ 0 → shifted old file ≡ file
  unfolding shifted
  shifted_unused file e = ground arith

  pub found_unused :
      (j : ℕ) → j < max_states → j ≢ nr → (files j).offset ≡ 0 → (found.files j).offset ≡ 0
  found_unused j p ne e = rw (file_found j p ne, shifted_unused (files j) e) e

  -- What is still in use was in use, and is another entry.
  pub IsUsed-before :
      (j : ℕ) → j < max_states → IsUsed (found.files j) → (j ≢ nr) × IsUsed (files j)
  IsUsed-before j p u =
      let ne : j ≢ nr = λ (e : j ≡ nr). u (rw (e, found_self) refl) in
      (ne, λ e. u (found_unused j p ne e))

  Kept-used : (j : ℕ) → j < max_states → IsUsed (found.files j) → Kept j (found.files j)
  Kept-used j p u = let b = IsUsed-before j p u in found-Kept j p b.0 b.1

  space_before : (j : ℕ) → j < max_states → IsUsed (found.files j) → InSpace hdrsize len (files j)
  space_before j p u = v.in_space j p (IsUsed-before j p u).1

  pub still-IsUsed : (j : ℕ) → j < max_states → j ≢ nr → IsUsed (files j) → IsUsed (found.files j)
  still-IsUsed j p ne u = omega (arith, used, (found-Kept j p ne u).place, here.behind)

  -- A file that followed another still follows it.
  still-Follows :
      (j m : ℕ)
      → m < max_states
      → m ≢ nr
      → IsUsed (files m)
      → Kept j (found.files j)
      → InSpace hdrsize len (files j)
      → end_of (files m) ≡ (files j).offset
      → Follows found.files j
  still-Follows j m p ne u k t e =
      let l = found-Kept m p ne u in
      (
        m,
        p,
        still-IsUsed m p ne u,
        omega (
          arith,
          e,
          k.place,
          l.place,
          l.same_section,
          here.room,
          t.room,
          (v.in_space m p u).room,
        ),
      )

  -- The file behind the hole now follows what the file taken out followed.
  closes_hole :
      (j : ℕ)
      → Kept j (found.files j)
      → InSpace hdrsize len (files j)
      → end_of old ≡ (files j).offset
      → ((found.files j).offset ≡ hdrsize) ⊎ Follows found.files j
  closes_hole j k t e = elim (v.no_hole nr in_range used) [
    | inl first ↦ inl (omega (arith, e, first, k.place, here.room, t.room))
    | inr at ↦
        let ne : at.0 ≢ nr =
          λ (same : at.0 ≡ nr). omega (arith, here.room, at.3, ap (λ i. end_of (files i)) same) in
        let l = found-Kept at.0 at.1 ne at.2 in
        inr (
          at.0,
          at.1,
          still-IsUsed at.0 at.1 ne at.2,
          omega (arith, e, at.3, k.place, l.place, l.same_section, here.room, t.room),
        )
  ]

  no_hole_after :
      (j : ℕ)
      → j < max_states
      → IsUsed (found.files j)
      → ((found.files j).offset ≡ hdrsize) ⊎ Follows found.files j
  no_hole_after j p u =
      let b = IsUsed-before j p u in
      let k = Kept-used j p u in
      let t = space_before j p u in
      elim (v.no_hole j p b.1) [
        | inl first ↦ inl (omega (arith, first, k.place, here.behind, here.room))
        | inr at ↦ elim (Bool-cases (at.0 == nr)) [
          | inl same ↦
              closes_hole j k t (sym (ap (λ i. end_of (files i)) ((==_iff at.0 nr).0 same)) ∙ at.3)
          | inr other ↦ inr (still-Follows j at.0 at.1 (ground arith) at.2 k t at.3)
        ]
      ]

  -- The files that stay are packed, in a space shorter by the section taken out.
  pub compact-IsPacked : IsPacked hdrsize (len - old.section_length) found.files
  compact-IsPacked = record {
    hdr_fits = v.hdr_fits;
    hdr_in = omega (arith, here.behind, here.within);
    small = omega (arith, v.small);
    in_space = λ j p u. space_after j p u (Kept-used j p u) (space_before j p u);
    apart = λ i j p q ne u w.
        apart_after i j (Kept-used i p u) (Kept-used j q w) (space_before i p u)
          (space_before j q w) (v.apart i j p q ne (IsUsed-before i p u).1 (IsUsed-before j q w).1);
    no_hole = no_hole_after;
  }
    where
      space_after :
          (j : ℕ)
          → j < max_states
          → IsUsed (found.files j)
          → Kept j (found.files j)
          → InSpace hdrsize len (files j)
          → InSpace hdrsize (len - old.section_length) (found.files j)
      space_after j p u k t = elim k.place [
        | inl before ↦ record {
          behind = omega (arith, t.behind, before.1);
          room = omega (arith, t.room, k.same_section);
          holds = omega (arith, t.holds, k.same_section, k.same_data);
          within = omega (arith, before.0, before.1, k.same_section, here.within);
        }
        | inr behind ↦ record {
          behind = omega (arith, here.behind, behind.0, behind.1);
          room = omega (arith, t.room, k.same_section);
          holds = omega (arith, t.holds, k.same_section, k.same_data);
          within = omega (arith, behind.1, k.same_section, t.within);
        }
      ]

      apart_after :
          (i j : ℕ)
          → Kept i (found.files i)
          → Kept j (found.files j)
          → InSpace hdrsize len (files i)
          → InSpace hdrsize len (files j)
          → Apart (files i) (files j)
          → Apart (found.files i) (found.files j)
      apart_after i j k l t s a =
          omega (arith, here.room, t.room, s.room, k.same_section, l.same_section, k.place, l.place)

  pub state_end-le : found.state_end ≤ len
  state_end-le =
      end_bounded old start.files len max_states 0 start (λ j p. refl)
        (λ j p q.
          update-elim (λ f. IsUsed f → end_of f ≤ len) files nr no_file j (λ _ u. absurd (u refl))
            (λ _ u. (v.in_space j (omega arith) u).within))
        (omega arith)

  pub end-le-state_end :
      (j : ℕ)
      → j < max_states
      → j ≢ nr
      → IsUsed (files j)
      → end_of old ≤ (files j).offset
      → end_of (files j) ≤ found.state_end
  end-le-state_end j p ne u b =
      end-le-behind old max_states 0 start j (files j) (omega arith) (omega arith) (start_file j ne)
        (u, omega (arith, here.room)) (omega (arith, v.small, (v.in_space j p u).within))

  -- The memory behind the loop.
  abbrev pub moved_memory : Memory → Memory
  moved_memory m =
      if found.next_offset == 0xffffffff
      then m
      else move m old.offset found.next_offset
          ((found.state_end + u32_mod - found.next_offset) % u32_mod)

  read-moved_behind :
      (m : Memory) (j : ℕ)
      → j < max_states
      → j ≢ nr
      → IsUsed (files j)
      → found.next_offset ≡ end_of old
      → end_of old ≤ (files j).offset
      → (found.files j).offset + old.section_length ≡ (files j).offset
      → read (moved_memory m) (found.files j).offset (files j).data_length
        ≡ read m (files j).offset (files j).data_length
  read-moved_behind m j p ne u e b o =
      let t = v.in_space j p u in
      let last = end-le-state_end j p ne u b in
      let not_last : (found.next_offset == 0xffffffff) ≡ false =
        ground (arith, v.small, t.room, t.within, e) in
      rw not_last (
        read-move_inside m old.offset found.next_offset
          ((found.state_end + u32_mod - found.next_offset) % u32_mod) (found.files j).offset
          (files j).offset (files j).data_length (omega (arith, b, o))
          (omega (arith, last, e, o, t.holds, state_end-le, v.small, here.within))
          (omega (arith, e, o)))

  read-moved_before :
      (m : Memory) (a l : ℕ) → a + l ≤ old.offset → read (moved_memory m) a l ≡ read m a l
  read-moved_before m a l h = elim (Bool-cases (found.next_offset == 0xffffffff)) [
    | inl last ↦ rw last refl
    | inr more ↦ rw more (read-move_before m old.offset found.next_offset _ a l h)
  ]

  -- The data of every other file are where its entry says, after the move as before.
  pub read-moved :
      (m : Memory) (j : ℕ)
      → j < max_states
      → j ≢ nr
      → IsUsed (files j)
      → read (moved_memory m) (found.files j).offset (found.files j).data_length
        ≡ read m (files j).offset (files j).data_length
  read-moved m j p ne u =
      let k = found-Kept j p ne u in
      let t = v.in_space j p u in
      rw k.same_data (elim k.place [
        | inl before ↦ rw before.1 (
            read-moved_before m (files j).offset (files j).data_length
              (omega (arith, before.0, t.holds)))
        | inr behind ↦ elim next_is_end [
          | inl none_behind ↦
              absurd (omega (arith, none_behind.0 j p ne u, behind.0, here.room, t.room))
          | inr e ↦ read-moved_behind m j p ne u e behind.0 behind.1
        ]
      ])
