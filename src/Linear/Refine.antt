-- ===== src/Linear/Refine.antt =====
-- The linear store is a map from names to data: what each operation returns, and what it changes.
use swtpm.Common.{
  ℕ, ◌+◌, ◌-◌, ◌%◌, ◌^◌, ◌≤◌, ◌<◌, ◌≡◌, ◌≢◌, inl, inr, refl, sym, ap, ◌∙◌, Bool, true, false,
  Option, none, some, List, u32_mod, ◌==◌, if◌then◌else◌, Bool-cases, ==_iff, length, arith,
}
use swtpm.Common.Result.{Rc, Result, ok, err, success, error, retry, fail}
use swtpm.Common.Memory.{length-read}
use swtpm.Linear.{Name, StoreOps, State, max_states, round_to_next_power_of_2, get_file_nr}
use swtpm.Linear.Ops.{
  Owed, set_length, safe_resize, compacted, remove_file, make_room, put_data, finish_store,
  store_placed, store_data, load_data, check_state, flush_all, delete_name,
}
use swtpm.Linear.Packed.{IsUsed}
use swtpm.Linear.Contents.{
  contents, contents_at_used, contents_at_unused, Used-cases, contents-compacted,
  compacted-IsLaidOut, contents-put_data, put_data-IsLaidOut,
}
use swtpm.Linear.Resize.{StoreLaws, IsValid, Resized, safe_resize-Resized, contents-Resized}
use swtpm.Linear.Room.{make_room-HasRoom, compacted-IsValid}
use swtpm.Linear.Flush.{Flushed, finish_store-Flushed, flush_range-Flushed}

pub get_file_nr-lt : (name : Name) (nr : ℕ) → get_file_nr name ≡ some nr → nr < max_states
unfolding get_file_nr
get_file_nr-lt name nr h = ground arith

if_kept :
    (j nr : ℕ) (x : Option (List ℕ)) {a b : Option (List ℕ)}
    → (j ≢ nr → a ≡ b)
    → (if j == nr then x else a) ≡ (if j == nr then x else b)
if_kept j nr x h = elim (Bool-cases (j == nr)) [
  | inl same ↦ rw same refl
  | inr other ↦ rw other (h (ground arith))
]

module _ {W : Type 0} {ops : StoreOps W} (laws : StoreLaws ops) where
  contents-Flushed : (s s' : State W) (j : ℕ) → Flushed laws s s' → contents s' j ≡ contents s j
  contents-Flushed s s' j f = rw (f.same_hdr, f.same_memory) refl

  IsValid-Flushed : (s s' : State W) → Flushed laws s s' → IsValid laws s → IsValid laws s'
  IsValid-Flushed s s' f v = record {
    laid_out = rw (f.same_hdr, f.same_length) v.laid_out;
    within_map = omega (arith, f.within_map, f.same_length, v.within_map);
  }

  put_data-IsValid :
      (s : State W) (nr : ℕ) (filedata : List ℕ)
      → IsValid laws s
      → length filedata ≤ (s.hdr.files nr).section_length
      → IsValid laws (put_data nr filedata s)
  put_data-IsValid s nr filedata v fits = record {
    laid_out = put_data-IsLaidOut s nr filedata v.laid_out fits;
    within_map = unfold put_data in v.within_map;
  }

  store_placed-ok :
      (nr : ℕ) (filedata : List ℕ) (r : Result Owed × State W) (s' : State W)
      → store_placed ops nr filedata r ≡ (success, s')
      → (owed : Owed) × (s₁ : State W) × (r ≡ (ok owed, s₁))
        × (s' ≡ (finish_store ops nr filedata owed s₁).1)
  unfolding store_placed
  store_placed-ok nr filedata (ok owed, s₁) s' h = (owed, s₁, refl, ap (λ p. p.1) (sym h))
  store_placed-ok nr filedata (err e, s₁) s' h = cc

  -- For a store that keeps StoreLaws, in a valid state, and a known name. Data of at least one byte
  -- and at most 2 ^ 31, which leave the whole store below 2 ^ 32 bytes:
  -- where StoreData succeeds, the file of that name holds just these data, every other file holds
  -- what it held, and the layout is packed as before.
  pub store_data-contents :
      (s s' : State W) (name : Name) (nr : ℕ) (filedata : List ℕ)
      → IsValid laws s
      → get_file_nr name ≡ some nr
      → 0 < length filedata
      → length filedata ≤ 2 ^ 31
      → s.length + round_to_next_power_of_2 (length filedata) < u32_mod
      → store_data ops filedata name s ≡ (success, s')
      → IsValid laws s'
        × ((j : ℕ)
            → j < max_states
            → contents s' j ≡ (if j == nr then some filedata else contents s j))
  unfolding store_data
  store_data-contents s s' name nr filedata v e pos limit no_wrap h =
      let p = get_file_nr-lt name nr e in
      let (owed, s₁, made, e') =
        store_placed-ok nr filedata (make_room ops nr (length filedata) s) s'
          (rw (e, store_data) at h) in
      let r = make_room-HasRoom laws nr (length filedata) s v p pos limit no_wrap owed s₁ made in
      let f = finish_store-Flushed laws nr filedata owed s₁ in
      rw e' (
        IsValid-Flushed (put_data nr filedata s₁) _ f
            (put_data-IsValid s₁ nr filedata r.valid r.fits),
        λ j q.
            contents-Flushed (put_data nr filedata s₁) _ j f
            ∙ contents-put_data s₁ nr j filedata r.valid.laid_out p r.used r.fits q
            ∙ if_kept j nr (some filedata) (r.others j q),
      )

  set_length-ok :
      (n : ℕ) (r : Rc × State W) (s' : State W)
      → set_length n r ≡ (success, s')
      → (s₁ : State W) × (r ≡ (success, s₁)) × (s' ≡ record s₁ { length = n })
  unfolding set_length
  set_length-ok n (success, s₁) s' h = (s₁, refl, ap (λ p. p.1) (sym h))
  set_length-ok n (error e, s₁) s' h = cc

  flush_all-ok :
      (r : Rc × State W) (s' : State W)
      → flush_all ops r ≡ (success, s')
      → (s₁ : State W) × (r ≡ (success, s₁)) × Flushed laws s₁ s'
  unfolding flush_all
  flush_all-ok (success, s₁) s' h =
      (s₁, refl, rw (ap (λ p. p.1) h) at (flush_range-Flushed laws 0 s₁.length s₁))
  flush_all-ok (error e, s₁) s' h = cc

  absent :
      (s : State W) (nr j : ℕ)
      → (s.hdr.files nr).offset ≡ 0
      → contents s j ≡ (if j == nr then none else contents s j)
  absent s nr j unused = elim (Bool-cases (j == nr)) [
    | inl same ↦
        rw same (rw ((==_iff j nr).0 same) (contents_at_unused s.memory (s.hdr.files nr) unused))
    | inr other ↦ rw other refl
  ]

  -- A file taken out, and the length cut by its section.
  shortened :
      (s s₁ : State W) (nr : ℕ)
      → IsValid laws s
      → nr < max_states
      → IsUsed (s.hdr.files nr)
      → Resized laws (s.length - (s.hdr.files nr).section_length) (compacted nr s) s₁
      → IsValid laws (record s₁ { length = s.length - (s.hdr.files nr).section_length })
        × ((j : ℕ) → j < max_states → contents s₁ j ≡ (if j == nr then none else contents s j))
  unfolding compacted
  shortened s s₁ nr v p used r =
      let packed = compacted-IsLaidOut s nr v.laid_out p used in
      (
        record {
          laid_out = rw r.same_hdr packed;
          within_map = omega (arith, r.enough, r.within_map);
        },
        λ j q.
            contents-Resized laws (s.length - (s.hdr.files nr).section_length) (compacted nr s) s₁ j
              r
              (λ u.
                let t = packed.in_space j q u in
                (omega (arith, t.holds, t.within), omega (arith, t.holds, t.within, same_length)))
            ∙ contents-compacted s nr j v.laid_out p used q,
      )
    where
      same_length : (compacted nr s).length ≡ s.length
      same_length = unfold compacted in refl

  -- What a removal with a resize leaves, if the resize succeeds.
  remove_file-contents :
      (s s' : State W) (nr : ℕ)
      → IsValid laws s
      → nr < max_states
      → remove_file ops nr true s ≡ (success, s')
      → IsValid laws s'
        × ((j : ℕ) → j < max_states → contents s' j ≡ (if j == nr then none else contents s j))
  unfolding remove_file
  remove_file-contents s s' nr v p h = elim (Used-cases (s.hdr.files nr)) [
    | inl unused ↦
        let test : ((s.hdr.files nr).offset == 0) ≡ true = ground arith in
        let e : s ≡ s' = ap (λ p. p.1) (rw test at h) in rw (← e) (v, λ j q. absent s nr j unused)
    | inr used ↦
        let test : ((s.hdr.files nr).offset == 0) ≡ false = ground arith in
        let t = v.laid_out.in_space nr p used in
        let n = s.length - (s.hdr.files nr).section_length in
        let exact : (s.length + u32_mod - (s.hdr.files nr).section_length) % u32_mod ≡ n =
          omega (arith, t.within, v.laid_out.small) in
        let (s₁, e, e') =
          set_length-ok n (safe_resize ops n (compacted nr s)) s' (rw (test, exact) at h) in
        let r =
          safe_resize-Resized laws n (compacted nr s) s₁ (compacted-IsValid laws nr s v p used) e in
        rw e' (shortened s s₁ nr v p used r)
  ]

  -- For a store that keeps StoreLaws, in a valid state, and a known name: where DeleteName succeeds,
  -- the file of that name is gone, every other file holds what it held,
  -- and the layout is packed as before.
  pub delete_name-contents :
      (s s' : State W) (name : Name) (nr : ℕ)
      → IsValid laws s
      → get_file_nr name ≡ some nr
      → delete_name ops name s ≡ (success, s')
      → IsValid laws s'
        × ((j : ℕ) → j < max_states → contents s' j ≡ (if j == nr then none else contents s j))
  unfolding delete_name
  delete_name-contents s s' name nr v e h =
      let (s₁, removed, f) =
        flush_all-ok (remove_file ops nr true s) s' (rw (e, delete_name) at h) in
      let r = remove_file-contents s s₁ nr v (get_file_nr-lt name nr e) removed in
      (IsValid-Flushed s₁ s' f r.0, λ j q. contents-Flushed s₁ s' j f ∙ r.1 j q)

-- What LoadData returns for what a file holds.
abbrev pub loaded : (ℕ → Bool) → Option (List ℕ) → Result (List ℕ)
loaded can_alloc none = err retry
loaded can_alloc (some bytes) = if can_alloc (length bytes) then ok bytes else err fail

abbrev pub size_of : Option (List ℕ) → Result ℕ
size_of none = err retry
size_of (some bytes) = ok (length bytes)

module _ {W : Type 0} {ops : StoreOps W} (laws : StoreLaws ops) where
  -- In a valid state and for a known name the range check of LoadData never fails: it returns what the file holds,
  -- TPM_RETRY where there is no file, and TPM_FAIL only where malloc gives no memory.
  pub load_data-contents :
      (can_alloc : ℕ → Bool) (s : State W) (name : Name) (nr : ℕ)
      → IsValid laws s
      → get_file_nr name ≡ some nr
      → load_data can_alloc name s ≡ loaded can_alloc (contents s nr)
  unfolding load_data
  load_data-contents can_alloc s name nr v e =
      rw (e, load_data)
        (elim (Used-cases (s.hdr.files nr)) [
          | inl unused ↦ rw (contents_at_unused s.memory (s.hdr.files nr) unused) (ground arith)
          | inr used ↦
              let t = v.laid_out.in_space nr (get_file_nr-lt name nr e) used in
              rw (contents_at_used s.memory (s.hdr.files nr) used) (
                ground (
                  arith,
                  length-read s.memory (s.hdr.files nr).offset (s.hdr.files nr).data_length,
                  t.holds,
                  t.within,
                  v.laid_out.small,
                ))
        ])

module _ {W : Type 0} where
  -- For a known name CheckState returns the size of what the file holds, and TPM_RETRY where there is no file.
  pub check_state-contents :
      (s : State W) (name : Name) (nr : ℕ)
      → get_file_nr name ≡ some nr
      → check_state name s ≡ size_of (contents s nr)
  unfolding check_state
  check_state-contents s name nr e =
      rw (e, check_state)
        (elim (Used-cases (s.hdr.files nr)) [
          | inl unused ↦ rw (contents_at_unused s.memory (s.hdr.files nr) unused) (ground arith)
          | inr used ↦ rw (contents_at_used s.memory (s.hdr.files nr) used) (
              ground
                (arith, length-read s.memory (s.hdr.files nr).offset (s.hdr.files nr).data_length))
        ])
