-- ===== src/Linear/Room.antt =====
-- What StoreData leaves before its memcpy: an entry with room for the data.
use swtpm.Common.{
  ℕ, ◌+◌, ◌^◌, ◌≤◌, ◌<◌, ◌≡◌, inl, inr, refl, ap, ◌∙◌, true, false, u32_mod, ltb, ◌==◌, Bool-cases,
  arith, ltb→ge,
}
use swtpm.Common.Result.{Rc, ok, success, error}
use swtpm.Linear.{File, StoreOps, State, max_states, round_to_next_power_of_2}
use swtpm.Linear.Ops.{
  Owed, header, everything, owing, alloc_file, compacted, remove_file, realloc_file, make_room,
}
use swtpm.Linear.Packed.{IsUsed, longer-IsPacked}
use swtpm.Linear.Contents.{Used-cases, contents-compacted, compacted-IsLaidOut}
use swtpm.Linear.Resize.{StoreLaws, IsValid}
use swtpm.Linear.Alloc.{HasRoom, alloc_file-HasRoom}
use swtpm.Linear.Compact.{found_self}

-- Taking out a file in use without a resize.
remove_file_used :
    {W : Type 0} (ops : StoreOps W) (nr : ℕ) (s : State W)
    → IsUsed (s.hdr.files nr)
    → remove_file ops nr false s ≡ (success, compacted nr s)
unfolding remove_file
remove_file_used ops nr s u = ground arith

owing-ok :
    {W : Type 0} (o : Owed) (r : Rc × State W) {o' : Owed} {s' : State W}
    → owing o r ≡ (ok o', s')
    → r ≡ (success, s')
unfolding owing
owing-ok o (success, s) h = ap (λ p. (success, p.1)) h
owing-ok o (error e, s) h = cc

module _ {W : Type 0} {ops : StoreOps W} (laws : StoreLaws ops) where
  pub compacted-IsValid :
      (nr : ℕ) (s : State W)
      → IsValid laws s
      → nr < max_states
      → IsUsed (s.hdr.files nr)
      → IsValid laws (compacted nr s)
  compacted-IsValid nr s v p u = record {
    laid_out =
        unfold compacted in
        longer-IsPacked (compacted-IsLaidOut s nr v.laid_out p u) (omega arith) v.laid_out.small;
    within_map = unfold compacted in v.within_map;
  }

  unused-compacted :
      (nr : ℕ) (s : State W)
      → IsValid laws s
      → nr < max_states
      → IsUsed (s.hdr.files nr)
      → ((compacted nr s).hdr.files nr).offset ≡ 0
  unfolding compacted
  unused-compacted nr s v p u = ap (λ (f : File). f.offset) (found_self v.laid_out nr p u)

  module _ (nr n : ℕ) (s : State W) (v : IsValid laws s) (in_range : nr < max_states)
      (positive : 0 < n) (limit : n ≤ 2 ^ 31)
      (no_wrap : s.length + round_to_next_power_of_2 n < u32_mod) where
    realloc_file-HasRoom :
        (s' : State W)
        → IsUsed (s.hdr.files nr)
        → alloc_file ops nr n (compacted nr s) ≡ (success, s')
        → HasRoom laws nr n s s'
    realloc_file-HasRoom s' u h =
        let r =
          alloc_file-HasRoom laws nr n (compacted nr s) s' (compacted-IsValid nr s v in_range u)
            in_range (unused-compacted nr s v in_range u) positive limit
            (unfold compacted in no_wrap) h in
        record {
          valid = r.valid;
          used = r.used;
          fits = r.fits;
          others = λ j q ne.
              r.others j q ne ∙ contents-compacted s nr j v.laid_out in_range u q ∙ ground arith;
        }

    pub make_room-HasRoom :
        (owed : Owed) (s' : State W) → make_room ops nr n s ≡ (ok owed, s') → HasRoom laws nr n s s'
    unfolding make_room realloc_file
    make_room-HasRoom owed s' h = elim (Used-cases (s.hdr.files nr)) [
      | inl unused ↦
          alloc_file-HasRoom laws nr n s s' v in_range unused positive limit no_wrap
            (owing-ok header (alloc_file ops nr n s) (rw (unused_test unused) at h))
      | inr used ↦ elim (Bool-cases (ltb (s.hdr.files nr).section_length n)) [
        | inl grows ↦ realloc_file-HasRoom s' used (
            owing-ok everything (alloc_file ops nr n (compacted nr s))
              (rw (used_test used, grows, remove_file_used ops nr s used) at h))
        | inr fits ↦
            let e : s ≡ s' = ap (λ p. p.1) (rw (used_test used, fits) at h) in
            rw (← e) (record {
              valid = v;
              used = used;
              fits = ltb→ge (s.hdr.files nr).section_length n fits;
              others = λ j q ne. refl;
            })
      ]
    ]
      where
        unused_test : (s.hdr.files nr).offset ≡ 0 → ((s.hdr.files nr).offset == 0) ≡ true
        unused_test e = ground arith

        used_test : IsUsed (s.hdr.files nr) → ((s.hdr.files nr).offset == 0) ≡ false
        used_test u = ground arith
