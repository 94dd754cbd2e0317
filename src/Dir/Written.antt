-- ===== src/Dir/Written.antt =====
-- What file_write of src/swtpm/utils.c leaves in the file system.
use swtpm.Common.{
  ℕ, zero, suc, ◌≤◌, ◌<◌, ◌≡◌, ◌≢◌, refl, ap, ◌∙◌, Bool, true, false, some, [], ◌∷◌, ◌++◌, ◌==◌,
  inl, inr, Bool-cases, length, take, drop, take-drop_append, length-drop, arith,
}
use mathlib.Core.List.{append-nil, append_assoc}
use swtpm.Dir.{Bytes, Call, done, enoent, other_errno, FileOps}
use swtpm.Dir.FileIo.{
  count_of, write_full, sync_file, close_file, synced_dir, fsync_on_dir, sync_dir, or_unlink,
  write_opened, file_write,
}
use swtpm.Dir.Laws.{FileLaws}

module _ {W : Type 0} {ops : FileOps W} (laws : FileLaws ops) where
  open laws use {content}

  -- every file but one is as it was
  abbrev pub Kept : Bytes → W → W → Type 0
  Kept p w w' = (q : Bytes) → q ≢ p → content w' q ≡ content w q

  abbrev pub Same : W → W → Type 0
  Same w w' = (q : Bytes) → content w' q ≡ content w q

  write_full-Kept :
      (fuel : ℕ) (p bytes : Bytes) (w : W) → Kept p w (write_full ops fuel p bytes w).1
  unfolding write_full
  write_full-Kept zero p [] w q ne = refl
  write_full-Kept zero p (b ∷ bs) w q ne = refl
  write_full-Kept (suc f) p [] w q ne = refl
  write_full-Kept (suc f) p (b ∷ bs) w q ne =
      let r = ops.write p (b ∷ bs) w in
      elim (Bool-cases (count_of ops r == 0)) [
        | inl e ↦ rw e (laws.write_keeps p (b ∷ bs) w q ne)
        | inr e ↦ rw e (
            write_full-Kept f p (drop (count_of ops r) (b ∷ bs)) r.1 q ne
            ∙ laws.write_keeps p (b ∷ bs) w q ne)
      ]

  write_full-stored :
      (fuel : ℕ) (p bytes old : Bytes) (w : W)
      → content w p ≡ some old
      → (write_full ops fuel p bytes w).0 ≡ true
      → content (write_full ops fuel p bytes w).1 p ≡ some (old ++ bytes)
  unfolding write_full
  write_full-stored zero p [] old w h t = rw append-nil h
  write_full-stored zero p (b ∷ bs) old w h t = cc
  write_full-stored (suc f) p [] old w h t = rw append-nil h
  write_full-stored (suc f) p (b ∷ bs) old w h t =
      let r = ops.write p (b ∷ bs) w in
      let n = count_of ops r in
      elim (Bool-cases (count_of ops r == 0)) [
        | inl e ↦ cc (rw e at t)
        | inr e ↦ rw e (
            write_full-stored f p (drop n (b ∷ bs)) (old ++ take n (b ∷ bs)) r.1
              (laws.write_appends p (b ∷ bs) old w h) (rw e at t)
            ∙ ap some (
                append_assoc old (take n (b ∷ bs)) (drop n (b ∷ bs))
                ∙ ap (λ x. old ++ x) (take-drop_append n (b ∷ bs))))
      ]

  -- A step after the write: it changes no file, and succeeds only where all before it did.
  record After (r r' : Bool × W) : Type 0 where
    same : Same r.1 r'.1
    only : r'.0 ≡ true → r.0 ≡ true

  sync_file-After : (b : Bool) (p : Bytes) (r : Bool × W) → After r (sync_file ops b p r)
  unfolding sync_file
  sync_file-After b p (false, w) = record { same = λ q. refl; only = λ h. h }
  sync_file-After true p (true, w) = record { same = laws.fsync_keeps p w; only = λ h. refl }
  sync_file-After false p (true, w) = record { same = λ q. refl; only = λ h. refl }

  close_file-After : (p : Bytes) (r : Bool × W) → After r (close_file ops p r)
  unfolding close_file
  close_file-After p (true, w) = record { same = laws.close_keeps p w; only = λ h. refl }
  close_file-After p (false, w) = record { same = laws.close_keeps p w; only = λ h. cc }

  synced_dir-Same : (dir : Bytes) (c : Call) (w : W) → Same w (synced_dir ops dir (c, w)).1
  unfolding synced_dir
  synced_dir-Same dir done w q =
      (close_file-After dir (ops.fsync dir w)).same q ∙ laws.fsync_keeps dir w q
  synced_dir-Same dir enoent w q = refl
  synced_dir-Same dir other_errno w q = refl

  sync_dir-After : (b : Bool) (dir : Bytes) (r : Bool × W) → After r (sync_dir ops b dir r)
  unfolding sync_dir fsync_on_dir
  sync_dir-After b dir (false, w) = record { same = λ q. refl; only = λ h. h }
  sync_dir-After true dir (true, w) =
      let opened = ops.open_read dir w in
      record {
        same = λ q. synced_dir-Same dir opened.0 opened.1 q ∙ laws.open_read_keeps dir w q;
        only = λ h. refl;
      }
  sync_dir-After false dir (true, w) = record { same = λ q. refl; only = λ h. refl }

  or_unlink-Kept : (p : Bytes) (r : Bool × W) → Kept p r.1 (or_unlink ops p r).1
  unfolding or_unlink
  or_unlink-Kept p (false, w) q ne = laws.unlink_keeps p w q ne
  or_unlink-Kept p (true, w) q ne = refl

  or_unlink-Same :
      (p : Bytes) (r : Bool × W)
      → (or_unlink ops p r).0 ≡ true
      → (r.0 ≡ true) × Same r.1 (or_unlink ops p r).1
  unfolding or_unlink
  or_unlink-Same p (false, w) h = cc
  or_unlink-Same p (true, w) h = (refl, λ q. refl)

  -- What file_write leaves: no other file has changed, and where it succeeds the file holds just the
  -- bytes that it was given.
  pub record Written (p buffer : Bytes) (w : W) (r : Bool × W) : Type 0 where
    pub kept : Kept p w r.1
    pub stored : r.0 ≡ true → content r.1 p ≡ some buffer

  module _ (p buffer : Bytes) (do_fsync : Bool) (dir : Bytes) where
    tail-Written :
        (w : W) (r : Bool × W)
        → Kept p w r.1
        → (r.0 ≡ true → content r.1 p ≡ some buffer)
        → Written p buffer w (
            or_unlink ops p
              (sync_dir ops do_fsync dir (close_file ops p (sync_file ops do_fsync p r))))
    tail-Written w r kept stored =
        let r1 = sync_file ops do_fsync p r in
        let r2 = close_file ops p r1 in
        let r3 = sync_dir ops do_fsync dir r2 in
        let a1 = sync_file-After do_fsync p r in
        let a2 = close_file-After p r1 in
        let a3 = sync_dir-After do_fsync dir r2 in
        record {
          kept = λ q ne. or_unlink-Kept p r3 q ne ∙ a3.same q ∙ a2.same q ∙ a1.same q ∙ kept q ne;
          stored = λ h.
              let (t, same) = or_unlink-Same p r3 h in
              same p ∙ a3.same p ∙ a2.same p ∙ a1.same p ∙ stored (a1.only (a2.only (a3.only t)));
        }

    write_opened-Written :
        (w : W) (r : Bool × W)
        → Kept p w r.1
        → (r.0 ≡ true → content r.1 p ≡ some [])
        → Written p buffer w (write_opened ops p buffer do_fsync dir r)
    unfolding write_opened
    write_opened-Written w (false, w1) kept empty = record { kept = kept; stored = λ h. cc }
    write_opened-Written w (true, w1) kept empty =
        tail-Written w (write_full ops (length buffer) p buffer w1)
          (λ q ne. write_full-Kept (length buffer) p buffer w1 q ne ∙ kept q ne)
          (write_full-stored (length buffer) p buffer [] w1 (empty refl))

    pub file_write-Written :
        (mode : ℕ) (w : W) → Written p buffer w (file_write ops p mode buffer do_fsync dir w)
    unfolding file_write
    file_write-Written mode w =
        write_opened-Written w (ops.open_trunc p mode w) (laws.open_trunc_keeps p mode w)
          (λ h. laws.open_trunc_empty p mode w (ops.open_trunc p mode w).1 (opened h))
      where
        opened :
            (ops.open_trunc p mode w).0 ≡ true
            → ops.open_trunc p mode w ≡ (true, (ops.open_trunc p mode w).1)
        opened h i = (h i, (ops.open_trunc p mode w).1)

  write_full_fuels :
      (f g : ℕ) (p bytes : Bytes) (w : W)
      → length bytes ≤ f
      → length bytes ≤ g
      → write_full ops f p bytes w ≡ write_full ops g p bytes w
  unfolding write_full
  write_full_fuels zero zero p [] w h k = refl
  write_full_fuels zero (suc g) p [] w h k = refl
  write_full_fuels (suc f) zero p [] w h k = refl
  write_full_fuels (suc f) (suc g) p [] w h k = refl
  write_full_fuels zero g p (b ∷ bs) w h k = absurd (omega arith)
  write_full_fuels (suc f) zero p (b ∷ bs) w h k = absurd (omega arith)
  write_full_fuels (suc f) (suc g) p (b ∷ bs) w h k =
      let r = ops.write p (b ∷ bs) w in
      let n = count_of ops r in
      elim (Bool-cases (count_of ops r == 0)) [
        | inl e ↦ rw e refl
        | inr e ↦
            let left : length (drop n (b ∷ bs)) ≤ length bs =
              omega (arith, length-drop n (b ∷ bs), positive n e) in
            rw e (
              write_full_fuels f g p (drop n (b ∷ bs)) r.1 (omega (arith, left))
                (omega (arith, left)))
      ]
    where
      positive : (n : ℕ) → (n == 0) ≡ false → 0 < n
      positive n e = ground arith

  -- The fuel that file_write gives to write_full is enough: more gives the same.
  pub write_full_fuel :
      (f : ℕ) (p bytes : Bytes) (w : W)
      → length bytes ≤ f
      → write_full ops f p bytes w ≡ write_full ops (length bytes) p bytes w
  write_full_fuel f p bytes w h = write_full_fuels f (length bytes) p bytes w h (omega arith)
