-- ===== src/Linear/Flush.antt =====
-- A flush changes the store's own state alone.
use swtpm.Common.{
  ℕ, ◌≤◌, ◌≡◌, inl, inr, refl, ◌∙◌, Option, none, some, List, ◌==◌, Bool-cases, length, arith,
}
use swtpm.Common.Result.{Rc, success, error}
use swtpm.Common.Memory.{Memory}
use swtpm.Linear.{StoreOps, State}
use swtpm.Linear.Ops.{
  Owed, nothing, header, everything, put_data, flush_range, flush_with, flush_header, flush_data,
  finish_store,
}
use swtpm.Linear.Resize.{StoreLaws}

module _ {W : Type 0} {ops : StoreOps W} (laws : StoreLaws ops) where
  -- The state after flushes: the store's own state may have changed, and nothing else.
  pub record Flushed (s s' : State W) : Type 0 where
    pub same_hdr : s'.hdr ≡ s.hdr
    pub same_memory : s'.memory ≡ s.memory
    pub same_length : s'.length ≡ s.length
    pub within_map : laws.mapped s.world ≤ laws.mapped s'.world

  flush_with-Flushed :
      (flush : Option (Memory → ℕ → ℕ → W → Rc × W))
      → ops.flush ≡ flush
      → (offset count : ℕ) (s : State W) → Flushed s (flush_with flush offset count s).1
  unfolding flush_with
  flush_with-Flushed none has offset count s = record {
    same_hdr = refl;
    same_memory = refl;
    same_length = refl;
    within_map = omega arith;
  }
  flush_with-Flushed (some flush) has offset count s = record {
    same_hdr = refl;
    same_memory = refl;
    same_length = refl;
    within_map = laws.flush_keeps flush has s.memory offset count s.world;
  }

  pub flush_range-Flushed :
      (offset count : ℕ) (s : State W) → Flushed s (flush_range ops offset count s).1
  unfolding flush_range
  flush_range-Flushed = flush_with-Flushed ops.flush refl

  Flushed-trans : (s t u : State W) → Flushed s t → Flushed t u → Flushed s u
  Flushed-trans s t u f g = record {
    same_hdr = g.same_hdr ∙ f.same_hdr;
    same_memory = g.same_memory ∙ f.same_memory;
    same_length = g.same_length ∙ f.same_length;
    within_map = omega (arith, f.within_map, g.within_map);
  }

  flush_data-Flushed :
      (offset n : ℕ) (s : State W) (r : Rc × State W)
      → Flushed s r.1
      → Flushed s (flush_data ops offset n r).1
  unfolding flush_data
  flush_data-Flushed offset n s (success, t) f =
      Flushed-trans s t _ f (flush_range-Flushed offset n t)
  flush_data-Flushed offset n s (error e, t) f = f

  flush_header-Flushed : (s : State W) → Flushed s (flush_header ops s).1
  unfolding flush_header
  flush_header-Flushed s = flush_range-Flushed 0 s.hdr.hdrsize s

  -- From the memcpy on StoreData changes what `put_data` changes, whether or not a flush fails.
  pub finish_store-Flushed :
      (nr : ℕ) (filedata : List ℕ) (owed : Owed) (s : State W)
      → Flushed (put_data nr filedata s) (finish_store ops nr filedata owed s).1
  unfolding finish_store
  finish_store-Flushed nr filedata nothing s =
      elim (Bool-cases ((s.hdr.files nr).data_length == length filedata)) [
        | inl same ↦
            rw same (
              flush_range-Flushed (s.hdr.files nr).offset (length filedata)
                (put_data nr filedata s))
        | inr differs ↦ rw differs (
            flush_data-Flushed (s.hdr.files nr).offset (length filedata) (put_data nr filedata s)
              (flush_header ops (put_data nr filedata s))
              (flush_header-Flushed (put_data nr filedata s)))
      ]
  finish_store-Flushed nr filedata header s =
      flush_data-Flushed (s.hdr.files nr).offset (length filedata) (put_data nr filedata s)
        (flush_header ops (put_data nr filedata s)) (flush_header-Flushed (put_data nr filedata s))
  finish_store-Flushed nr filedata everything s =
      flush_range-Flushed 0 (put_data nr filedata s).length (put_data nr filedata s)
