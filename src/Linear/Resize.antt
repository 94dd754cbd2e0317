-- ===== src/Linear/Resize.antt =====
-- What the allocator relies on in a backing store, and what a resize does to the contents.
use swtpm.Common.{
  ℕ, ◌+◌, ◌≤◌, ◌<◌, ◌≡◌, inl, inr, refl, sym, ap, ◌∙◌, Option, none, some, u32_mod, arith,
}
use swtpm.Common.Result.{Rc, Result, ok, err, success}
use swtpm.Common.Memory.{Memory, read_shift}
use swtpm.Linear.{Region, StoreOps, State}
use swtpm.Linear.Ops.{resized, resize_with, safe_resize}
use swtpm.Linear.Packed.{IsUsed}
use swtpm.Linear.Contents.{contents, contents_at_used, contents_at_unused, Used-cases, IsLaidOut}

-- The documented behaviour of a backing store: a resize that succeeds keeps the bytes that were
-- mapped and that were asked for, and says what is mapped now; a flush changes no mapping.
pub record StoreLaws {W : Type 0} (ops : StoreOps W) : Type 0 where
  pub mapped : W → ℕ
  pub resize_keeps :
      (resize : Memory → ℕ → W → Result Region × W)
      → ops.resize ≡ some resize
      → (m : Memory) (n : ℕ) (w w' : W) (region : Region) → resize m n w ≡ (ok region, w')
      → (region.length < u32_mod)
        × (region.length ≤ mapped w')
        × ((i : ℕ) → i < n → i < mapped w → region.memory i ≡ m i)
  pub flush_keeps :
      (flush : Memory → ℕ → ℕ → W → Rc × W)
      → ops.flush ≡ some flush
      → (m : Memory) (offset count : ℕ) (w : W) → mapped w ≤ mapped (flush m offset count w).1

module _ {W : Type 0} {ops : StoreOps W} (laws : StoreLaws ops) where
  -- The layout is packed, and the length does not pass what is mapped.
  pub record IsValid (s : State W) : Type 0 where
    pub laid_out : IsLaidOut s
    pub within_map : s.length ≤ laws.mapped s.world

  -- A resize that succeeds: the header stays, the length is as asked for, and so do the bytes that
  -- both lengths have.
  pub record Resized (n : ℕ) (s s' : State W) : Type 0 where
    pub same_hdr : s'.hdr ≡ s.hdr
    pub enough : n ≤ s'.length
    pub small : s'.length < u32_mod
    pub within_map : s'.length ≤ laws.mapped s'.world
    pub same_bytes : (i : ℕ) → i < n → i < s.length → s'.memory i ≡ s.memory i

  resized-Resized :
      (resize : Memory → ℕ → W → Result Region × W)
      → ops.resize ≡ some resize
      → (n : ℕ) (s s' : State W) → s.length ≤ laws.mapped s.world
      → (reply : Result Region × W) → resize s.memory n s.world ≡ reply
      → resized n s reply ≡ (success, s')
      → Resized n s s'
  unfolding resized
  resized-Resized resize has n s s' v (err c, w) e h = cc
  resized-Resized resize has n s s' v (ok region, w) e h =
      ground (arith, laws.resize_keeps resize has s.memory n s.world w region e)

  resize_with-Resized :
      (resize : Option (Memory → ℕ → W → Result Region × W))
      → ops.resize ≡ resize
      → (n : ℕ) (s s' : State W) → IsValid s
      → resize_with resize n s ≡ (success, s')
      → Resized n s s'
  unfolding resize_with
  resize_with-Resized none has n s s' v h =
      let e : s ≡ s' = ground arith in
      rw (← e) (record {
        same_hdr = refl;
        enough = ground arith;
        small = v.laid_out.small;
        within_map = v.within_map;
        same_bytes = λ i p q. refl;
      })
  resize_with-Resized (some resize) has n s s' v h =
      resized-Resized resize has n s s' v.within_map (resize s.memory n s.world) refl h

  pub safe_resize-Resized :
      (n : ℕ) (s s' : State W) → IsValid s → safe_resize ops n s ≡ (success, s') → Resized n s s'
  unfolding safe_resize
  safe_resize-Resized n s s' v h = resize_with-Resized ops.resize refl n s s' v h

  -- An entry whose section lies below both lengths reads the same after the resize.
  pub contents-Resized :
      (n : ℕ) (s s' : State W) (i : ℕ)
      → Resized n s s'
      → (IsUsed (s.hdr.files i)
          → ((s.hdr.files i).offset + (s.hdr.files i).data_length ≤ n)
            × ((s.hdr.files i).offset + (s.hdr.files i).data_length ≤ s.length))
      → contents s' i ≡ contents s i
  contents-Resized n s s' i r room = rw r.same_hdr (elim (Used-cases (s.hdr.files i)) [
    | inl unused ↦
        contents_at_unused s'.memory (s.hdr.files i) unused
        ∙ sym (contents_at_unused s.memory (s.hdr.files i) unused)
    | inr used ↦
        let b = room used in
        contents_at_used s'.memory (s.hdr.files i) used
        ∙ ap some (
            read_shift s'.memory s.memory (s.hdr.files i).offset (s.hdr.files i).offset
              (s.hdr.files i).data_length
              (λ k p. r.same_bytes ((s.hdr.files i).offset + k) (omega arith) (omega arith)))
        ∙ sym (contents_at_used s.memory (s.hdr.files i) used)
  ])
