-- ===== src/Dir/Exchange.antt =====
-- The exchange of a file and its backup in SWTPM_NVRAM_RestoreBackup_Dir of
-- src/swtpm/swtpm_nvstore_dir.c, whichever of its renames fail.
use swtpm.Common.{
  ◌≡◌, ◌≢◌, refl, sym, ◌∙◌, ◌⊎◌, inl, inr, Bool, true, false, Option, none, some, Option-cases,
}
use swtpm.Common.Result.{Rc, success, error, fail, Error}
use swtpm.Dir.{Bytes, FileOps, DirConfig}
use swtpm.Dir.Restore.{
  renamed, revert_both, swap_last, swap_second, swap_first, restore_over, restore_from,
}
use swtpm.Dir.Laws.{FileLaws}
use swtpm.Dir.Renames.{At, still, to_second, rotate-At, swap-At}

module _ {W : Type 0} {ops : FileOps W} (laws : FileLaws ops) where
  open laws use {content}

  -- A call that was to exchange the file f and its backup b, by way of t: what it has done where it
  -- succeeds, and where the contents are in any case.
  pub record Restored (f b t : Bytes) (w : W) (r : Rc × W) : Type 0 where
    pub found : r.0 ≡ success → (y : Bytes) × (content w b ≡ some y) × (content r.1 f ≡ some y)
    pub swapped :
        (x : Bytes)
        → content w f ≡ some x
        → r.0 ≡ success
        → (content r.1 b ≡ some x) × (content r.1 t ≡ none)
    pub used : content w f ≡ none → r.0 ≡ success → content r.1 b ≡ none
    pub keeps_file :
        (x : Bytes)
        → content w f ≡ some x
        → (content r.1 f ≡ some x) ⊎ (content r.1 b ≡ some x) ⊎ (content r.1 t ≡ some x)
    pub keeps_backup :
        (y : Bytes) → content w b ≡ some y → (content r.1 f ≡ some y) ⊎ (content r.1 b ≡ some y)
    pub apart : (q : Bytes) → q ≢ f → q ≢ b → q ≢ t → content r.1 q ≡ content w q

  module _ (c : DirConfig) (uri f b t : Bytes) (fb : f ≢ b) (ft : f ≢ t) (bt : b ≢ t) where
    start-At : (w : W) → At laws f b t w w (content w f) (content w b) (content w t)
    start-At w = record { at_f = refl; at_b = refl; at_t = refl; others = λ q nf nb nt. refl }

    -- A failure after which each content is in one of its places.
    lost_none :
        {w w' : W} {cf cb ct : Option Bytes} (e : Error)
        → At laws f b t w w' cf cb ct
        → ((content w f ≡ cf) ⊎ (content w f ≡ cb) ⊎ (content w f ≡ ct))
        → ((content w b ≡ cf) ⊎ (content w b ≡ cb))
        → Restored f b t w (error e, w')
    lost_none e a hf hb = record {
      found = λ h. cc;
      swapped = λ x h s. cc;
      used = λ h s. cc;
      keeps_file = λ x h. elim hf [
        | inl p ↦ inl (a.at_f ∙ sym p ∙ h)
        | inr (inl p) ↦ inr (inl (a.at_b ∙ sym p ∙ h))
        | inr (inr p) ↦ inr (inr (a.at_t ∙ sym p ∙ h))
      ];
      keeps_backup =
          λ y h. elim hb [ inl p ↦ inl (a.at_f ∙ sym p ∙ h) | inr p ↦ inr (a.at_b ∙ sym p ∙ h) ];
      apart = a.others;
    }

    pub unchanged : (w : W) (e : Error) → Restored f b t w (error e, w)
    unchanged w e = lost_none e (start-At w) (inl refl) (inr refl)

    module _ {w w1 : W} {cf cb ct : Option Bytes} (w2 : W) (a : At laws f b t w w1 cf cb ct) where
      file_to_tmp : ops.rename f t w1 ≡ (true, w2) → At laws f b t w w2 none cb cf
      file_to_tmp e = rotate-At laws (
          swap-At laws
            (to_second laws w2 ft (λ p. fb (sym p)) bt (rotate-At laws (swap-At laws a)) e))

      backup_to_file : ops.rename b f w1 ≡ (true, w2) → At laws f b t w w2 cb none ct
      backup_to_file e = swap-At laws (
          to_second laws w2 (λ p. fb (sym p)) (λ p. bt (sym p)) (λ p. ft (sym p)) (swap-At laws a)
            e)

      tmp_to_file : ops.rename t f w1 ≡ (true, w2) → At laws f b t w w2 ct cb none
      tmp_to_file e = rotate-At laws (
          to_second laws w2 (λ p. ft (sym p)) bt (λ p. fb (sym p))
            (rotate-At laws (rotate-At laws a)) e)

      tmp_to_backup : ops.rename t b w1 ≡ (true, w2) → At laws f b t w w2 cf ct none
      tmp_to_backup e = rotate-At laws (
          rotate-At laws (
            swap-At laws
              (to_second laws w2 (λ p. bt (sym p)) ft fb (swap-At laws (rotate-At laws a)) e)))

      file_to_backup : ops.rename f b w1 ≡ (true, w2) → At laws f b t w w2 none cf ct
      file_to_backup e = to_second laws w2 fb (λ p. ft (sym p)) (λ p. bt (sym p)) a e

    module _ (w : W) where
      -- the last revert, with the backup in its place
      revert_first :
          (w1 : W) (r : Bool × W)
          → At laws f b t w w1 none (content w b) (content w f)
          → ops.rename t f w1 ≡ r
          → Restored f b t w (error fail, r.1)
      revert_first w1 (true, w2) a e = lost_none fail (tmp_to_file w2 a e) (inl refl) (inr refl)
      revert_first w1 (false, w2) a e =
          lost_none fail (still laws t f w2 a e) (inr (inr refl)) (inr refl)

      revert_both-Restored :
          (w1 : W) (r : Bool × W)
          → At laws f b t w w1 (content w b) none (content w f)
          → ops.rename f b w1 ≡ r
          → Restored f b t w (error fail, revert_both ops c uri f t r)
      unfolding revert_both
      revert_both-Restored w1 (true, w2) a e =
          revert_first w2 (ops.rename t f w2) (file_to_backup w2 a e) refl
      revert_both-Restored w1 (false, w2) a e =
          lost_none fail (still laws f b w2 a e) (inr (inr refl)) (inl refl)

      swap_last-Restored :
          (x y : Bytes) (w1 : W) (r : Bool × W)
          → content w f ≡ some x
          → content w b ≡ some y
          → At laws f b t w w1 (content w b) none (content w f)
          → ops.rename t b w1 ≡ r
          → Restored f b t w (swap_last ops c uri f b t r)
      unfolding swap_last
      swap_last-Restored x y w1 (false, w2) hx hy a e =
          revert_both-Restored w2 (ops.rename f b w2) (still laws t b w2 a e) refl
      swap_last-Restored x y w1 (true, w2) hx hy a e =
          let end = tmp_to_backup w2 a e in
          record {
            found = λ s. (y, hy, end.at_f ∙ hy);
            swapped = λ x' h s. (end.at_b ∙ h, end.at_t);
            used = λ h s. cc;
            keeps_file = λ x' h. inr (inl (end.at_b ∙ h));
            keeps_backup = λ y' h. inl (end.at_f ∙ h);
            apart = end.others;
          }

      swap_second-Restored :
          (x y : Bytes) (w1 : W) (r : Bool × W)
          → content w f ≡ some x
          → content w b ≡ some y
          → At laws f b t w w1 none (content w b) (content w f)
          → ops.rename b f w1 ≡ r
          → Restored f b t w (swap_second ops c uri f b t r)
      unfolding swap_second
      swap_second-Restored x y w1 (true, w2) hx hy a e =
          swap_last-Restored x y w2 (ops.rename t b w2) hx hy (backup_to_file w2 a e) refl
      swap_second-Restored x y w1 (false, w2) hx hy a e =
          revert_first w2 (ops.rename t f w2) (still laws b f w2 a e) refl

      swap_first-Restored :
          (x y : Bytes) (r : Bool × W)
          → content w f ≡ some x
          → content w b ≡ some y
          → ops.rename f t w ≡ r
          → Restored f b t w (swap_first ops c uri f b t r)
      unfolding swap_first
      swap_first-Restored x y (true, w1) hx hy e =
          swap_second-Restored x y w1 (ops.rename b f w1) hx hy (file_to_tmp w1 (start-At w) e) refl
      swap_first-Restored x y (false, w1) hx hy e =
          lost_none fail (still laws f t w1 (start-At w) e) (inl refl) (inr refl)

      renamed-Restored :
          (y : Bytes) (r : Bool × W)
          → content w f ≡ none
          → content w b ≡ some y
          → ops.rename b f w ≡ r
          → Restored f b t w (renamed ops c uri r)
      unfolding renamed
      renamed-Restored y (false, w1) hx hy e =
          lost_none fail (still laws b f w1 (start-At w) e) (inl refl) (inr refl)
      renamed-Restored y (true, w1) hx hy e =
          let end = backup_to_file w1 (start-At w) e in
          record {
            found = λ s. (y, hy, end.at_f ∙ hy);
            swapped = λ x h s. cc;
            used = λ h s. end.at_b;
            keeps_file = λ x h. cc;
            keeps_backup = λ y' h. inl (end.at_f ∙ h);
            apart = end.others;
          }

      over-Restored :
          (y : Bytes)
          → content w b ≡ some y
          → Restored f b t w (restore_over ops c uri f b t (ops.access f w) w)
      unfolding restore_over
      over-Restored y hy = elim (Option-cases (content w f)) [
        | inl e ↦ rw (laws.access_missing f w e) (renamed-Restored y (ops.rename b f w) e hy refl)
        | inr (x, e) ↦
            rw (laws.access_found f x w e) (swap_first-Restored x y (ops.rename f t w) e hy refl)
      ]

      pub from-Restored : Restored f b t w (restore_from ops c uri f b t (ops.access b w) w)
      unfolding restore_from
      from-Restored = elim (Option-cases (content w b)) [
        | inl e ↦ rw (laws.access_missing b w e) (unchanged w fail)
        | inr (y, e) ↦ rw (laws.access_found b y w e) (over-Restored y e)
      ]
