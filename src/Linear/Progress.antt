-- ===== src/Linear/Progress.antt =====
-- Where the backing store gives what it is asked for, the operations of
-- src/swtpm/swtpm_nvstore_linear.c that write succeed.
use swtpm.Common.{
  ℕ, ◌+◌, ◌-◌, ◌%◌, ◌≤◌, ◌<◌, ◌≡◌, inl, inr, refl, Bool, true, false, Option, none, some, List,
  u32_mod, ltb, ◌==◌, Bool-cases, length, arith,
}
use swtpm.Common.Result.{Rc, Result, ok, err, success, error}
use swtpm.Common.Memory.{Memory}
use swtpm.Linear.{Name, File, Region, StoreOps, State, get_file_nr}
use swtpm.Linear.Ops.{
  Owed, nothing, header, everything, resized, resize_with, safe_resize, set_file, set_length,
  alloc_file, remove_file, compacted, realloc_file, owing, make_room, flush_with, flush_range,
  flush_header, flush_data, finish_store, store_placed, store_data, flush_all, delete_name,
}

-- A store that can be resized to any length, and whose flushes succeed.
pub record IsObliging {W : Type 0} (ops : StoreOps W) : Type 0 where
  pub resize : Memory → ℕ → W → Result Region × W
  pub has_resize : ops.resize ≡ some resize
  pub grows :
      (m : Memory) (n : ℕ) (w : W)
      → n < u32_mod
      → (region : Region) × (w' : W) × (resize m n w ≡ (ok region, w')) × (n ≤ region.length)
  pub flushes :
      (flush : Memory → ℕ → ℕ → W → Rc × W)
      → ops.flush ≡ some flush
      → (m : Memory) (offset count : ℕ) (w : W) → (flush m offset count w).0 ≡ success

module _ {W : Type 0} {ops : StoreOps W} (obliging : IsObliging ops) where
  abbrev Succeeds : Rc × State W → Type 0
  Succeeds r = r.0 ≡ success

  safe_resize-Succeeds : (n : ℕ) (s : State W) → n < u32_mod → Succeeds (safe_resize ops n s)
  unfolding safe_resize resize_with resized
  safe_resize-Succeeds n s p =
      let (region, w, e, enough) = obliging.grows s.memory n s.world p in
      let long : ltb region.length n ≡ false = ground arith in
      rw (obliging.has_resize, e, long) refl

  set_file-Succeeds :
      (nr : ℕ) (file : File) (r : Rc × State W) → Succeeds r → Succeeds (set_file nr file r)
  unfolding set_file
  set_file-Succeeds nr file (success, s) h = refl
  set_file-Succeeds nr file (error e, s) h = h

  set_length-Succeeds : (n : ℕ) (r : Rc × State W) → Succeeds r → Succeeds (set_length n r)
  unfolding set_length
  set_length-Succeeds n (success, s) h = refl
  set_length-Succeeds n (error e, s) h = h

  alloc_file-Succeeds : (nr n : ℕ) (s : State W) → Succeeds (alloc_file ops nr n s)
  unfolding alloc_file
  alloc_file-Succeeds nr n s = set_file-Succeeds nr _ _ (safe_resize-Succeeds _ s (omega arith))

  remove_file-Succeeds : (nr : ℕ) (b : Bool) (s : State W) → Succeeds (remove_file ops nr b s)
  unfolding remove_file
  remove_file-Succeeds nr false s = elim (Bool-cases ((s.hdr.files nr).offset == 0)) [
    | inl unused ↦ rw unused refl
    | inr used ↦ rw used refl
  ]
  remove_file-Succeeds nr true s = elim (Bool-cases ((s.hdr.files nr).offset == 0)) [
    | inl unused ↦ rw unused refl
    | inr used ↦ rw used (
        set_length-Succeeds ((s.length + u32_mod - (s.hdr.files nr).section_length) % u32_mod) _
          (safe_resize-Succeeds _ (compacted nr s) (omega arith)))
  ]

  realloc_file-Succeeds :
      (nr n : ℕ) (r : Rc × State W) → Succeeds r → Succeeds (realloc_file ops nr n r)
  unfolding realloc_file
  realloc_file-Succeeds nr n (success, s) h = alloc_file-Succeeds nr n s
  realloc_file-Succeeds nr n (error e, s) h = h

  owing-ok : (o : Owed) (r : Rc × State W) → Succeeds r → (owing o r).0 ≡ ok o
  unfolding owing
  owing-ok o (success, s) h = refl
  owing-ok o (error e, s) h = cc

  make_room-ok : (nr n : ℕ) (s : State W) → (o : Owed) × ((make_room ops nr n s).0 ≡ ok o)
  unfolding make_room
  make_room-ok nr n s = elim (Bool-cases ((s.hdr.files nr).offset == 0)) [
    | inl unused ↦ (header, rw unused (owing-ok header _ (alloc_file-Succeeds nr n s)))
    | inr used ↦ elim (Bool-cases (ltb (s.hdr.files nr).section_length n)) [
      | inl longer ↦ (
        everything,
        rw (used, longer)
            (owing-ok everything _
              (realloc_file-Succeeds nr n _ (remove_file-Succeeds nr false s))),
      )
      | inr fits ↦ (nothing, rw (used, fits) refl)
    ]
  ]

  flush_with-Succeeds :
      (flush : Option (Memory → ℕ → ℕ → W → Rc × W))
      → ops.flush ≡ flush
      → (offset count : ℕ) (s : State W) → Succeeds (flush_with flush offset count s)
  unfolding flush_with
  flush_with-Succeeds none e offset count s = refl
  flush_with-Succeeds (some flush) e offset count s =
      obliging.flushes flush e s.memory offset count s.world

  flush_range-Succeeds :
      (offset count : ℕ) (s : State W) → Succeeds (flush_range ops offset count s)
  unfolding flush_range
  flush_range-Succeeds = flush_with-Succeeds ops.flush refl

  flush_data-Succeeds :
      (offset n : ℕ) (r : Rc × State W) → Succeeds r → Succeeds (flush_data ops offset n r)
  unfolding flush_data
  flush_data-Succeeds offset n (success, s) h = flush_range-Succeeds offset n s
  flush_data-Succeeds offset n (error e, s) h = h

  flush_all-Succeeds : (r : Rc × State W) → Succeeds r → Succeeds (flush_all ops r)
  unfolding flush_all
  flush_all-Succeeds (success, s) h = flush_range-Succeeds 0 s.length s
  flush_all-Succeeds (error e, s) h = h

  flush_both-Succeeds :
      (offset n : ℕ) (s : State W) → Succeeds (flush_data ops offset n (flush_header ops s))
  unfolding flush_header
  flush_both-Succeeds offset n s =
      flush_data-Succeeds offset n _ (flush_range-Succeeds 0 s.hdr.hdrsize s)

  finish_store-Succeeds :
      (nr : ℕ) (filedata : List ℕ) (o : Owed) (s : State W)
      → Succeeds (finish_store ops nr filedata o s)
  unfolding finish_store
  finish_store-Succeeds nr filedata everything s = flush_range-Succeeds 0 _ _
  finish_store-Succeeds nr filedata header s = flush_both-Succeeds _ _ _
  finish_store-Succeeds nr filedata nothing s =
      elim (Bool-cases ((s.hdr.files nr).data_length == length filedata)) [
        | inl same ↦ rw same (flush_range-Succeeds _ _ _)
        | inr other ↦ rw other (flush_both-Succeeds _ _ _)
      ]

  store_placed-Succeeds :
      (nr : ℕ) (filedata : List ℕ) (r : Result Owed × State W) (o : Owed)
      → r.0 ≡ ok o
      → Succeeds (store_placed ops nr filedata r)
  unfolding store_placed
  store_placed-Succeeds nr filedata (ok o', s) o h = finish_store-Succeeds nr filedata o' s
  store_placed-Succeeds nr filedata (err e, s) o h = cc

  -- StoreData of the model succeeds for each name that is known. The model's memory has no end: for
  -- what the C code does see Linear.Total, which asks for a valid state and bounded data.
  pub store_data-Succeeds :
      (s : State W) (name : Name) (nr : ℕ) (filedata : List ℕ)
      → get_file_nr name ≡ some nr
      → (store_data ops filedata name s).0 ≡ success
  unfolding store_data
  store_data-Succeeds s name nr filedata e =
      let (o, made) = make_room-ok nr (length filedata) s in
      rw (e, store_data) (store_placed-Succeeds nr filedata _ o made)

  -- DeleteName of the model succeeds for each name that is known; see Linear.Total too.
  pub delete_name-Succeeds :
      (s : State W) (name : Name) (nr : ℕ)
      → get_file_nr name ≡ some nr
      → (delete_name ops name s).0 ≡ success
  unfolding delete_name
  delete_name-Succeeds s name nr e =
      rw (e, delete_name) (flush_all-Succeeds _ (remove_file-Succeeds nr true s))
