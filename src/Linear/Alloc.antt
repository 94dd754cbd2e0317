-- ===== src/Linear/Alloc.antt =====
-- A file that AllocFile places.
use swtpm.Common.{ℕ, ◌+◌, ◌%◌, ◌^◌, ◌≤◌, ◌<◌, ◌≡◌, ◌≢◌, refl, ap, ◌∙◌, u32_mod, arith}
use swtpm.Common.Result.{Rc, success, error}
use swtpm.Common.Memory.{update, update_self, update_ne}
use swtpm.Linear.{File, StoreOps, State, max_states, find_end, round_to_next_power_of_2}
use swtpm.Linear.Ops.{set_file, safe_resize, alloc_file}
use swtpm.Linear.Packed.{
  IsUsed, IsPacked, place-IsPacked, hdrsize-le-new_offset, end-le-new_offset, new_offset-le-len,
}
use swtpm.Linear.Contents.{contents, contents_at}
use swtpm.Linear.Resize.{StoreLaws, IsValid, Resized, safe_resize-Resized, contents-Resized}
use swtpm.Linear.Round.{round_bounds}

abbrev pub with_file : {W : Type 0} → State W → ℕ → File → State W
with_file s nr file = record s { hdr = record s.hdr { files = update s.hdr.files nr file } }

set_file-success :
    {W : Type 0} (nr : ℕ) (file : File) (r : Rc × State W) (s' : State W)
    → set_file nr file r ≡ (success, s')
    → (s₁ : State W) × (r ≡ (success, s₁)) × (with_file s₁ nr file ≡ s')
unfolding set_file
set_file-success nr file (success, s₁) s' h = (s₁, refl, ap (λ p. p.1) h)
set_file-success nr file (error e, s₁) s' h = cc

module _ {W : Type 0} {ops : StoreOps W} (laws : StoreLaws ops) where
  -- What a step that makes room for n bytes in an entry leaves.
  pub record HasRoom (nr n : ℕ) (s s' : State W) : Type 0 where
    pub valid : IsValid laws s'
    pub used : IsUsed (s'.hdr.files nr)
    pub fits : n ≤ (s'.hdr.files nr).section_length
    pub others : (j : ℕ) → j < max_states → j ≢ nr → contents s' j ≡ contents s j

  module _ (nr n : ℕ) (s s' : State W) (v : IsValid laws s) (in_range : nr < max_states)
      (unused : (s.hdr.files nr).offset ≡ 0) (positive : 0 < n) (limit : n ≤ 2 ^ 31)
      (no_wrap : s.length + round_to_next_power_of_2 n < u32_mod) where
    abbrev section : ℕ
    section = round_to_next_power_of_2 n

    abbrev offset : ℕ
    offset = find_end s.hdr.files max_states 0 s.hdr.hdrsize

    placed :
        (s₁ : State W)
        → Resized laws (offset + section) s s₁
        → HasRoom nr n s (
            with_file s₁ nr (record { offset = offset; data_length = n; section_length = section }))
    placed s₁ r = record {
      valid = record { laid_out = layout; within_map = r.within_map };
      used = rw (update_self s₁.hdr.files nr file) offset_pos;
      fits = rw (update_self s₁.hdr.files nr file) fits;
      others = λ j q ne.
          ap (contents_at s₁.memory) (update_ne s₁.hdr.files nr file j ne)
          ∙ contents-Resized laws (offset + section) s s₁ j r (λ u. in_both j q u);
    }
      where
        file : File
        file = record { offset = offset; data_length = n; section_length = section }

        fits : n ≤ section
        fits = (round_bounds n positive limit).0

        offset_pos : offset ≢ 0
        offset_pos = omega (
          arith,
          v.laid_out.hdr_fits,
          hdrsize-le-new_offset v.laid_out nr n section s₁.length in_range unused
              (omega (arith, fits)) fits,
        )

        layout : IsPacked s₁.hdr.hdrsize s₁.length (update s₁.hdr.files nr file)
        layout = rw r.same_hdr (
            place-IsPacked v.laid_out nr n section s₁.length in_range unused (omega (arith, fits))
              fits r.enough r.small)

        in_both :
            (j : ℕ)
            → j < max_states
            → IsUsed (s.hdr.files j)
            → ((s.hdr.files j).offset + (s.hdr.files j).data_length ≤ offset + section)
              × ((s.hdr.files j).offset + (s.hdr.files j).data_length ≤ s.length)
        in_both j q u =
            let t = v.laid_out.in_space j q u in
            let last =
              end-le-new_offset v.laid_out nr n section s₁.length in_range unused
                (omega (arith, fits)) fits j q u in
            (omega (arith, t.holds, last), omega (arith, t.holds, t.within))

    -- AllocFile that succeeds.
    pub alloc_file-HasRoom : alloc_file ops nr n s ≡ (success, s') → HasRoom nr n s s'
    unfolding alloc_file
    alloc_file-HasRoom h =
        let file : File = record { offset = offset; data_length = n; section_length = section } in
        let (s₁, e, e') =
          set_file-success nr file (safe_resize ops ((offset + section) % u32_mod) s) s' h in
        let fits = (round_bounds n positive limit).0 in
        let exact : (offset + section) % u32_mod ≡ offset + section = omega (
          arith,
          new_offset-le-len v.laid_out nr n section s.length in_range unused (omega (arith, fits))
              fits,
        ) in
        rw e' at (placed s₁ (safe_resize-Resized laws (offset + section) s s₁ v (rw exact at e)))
