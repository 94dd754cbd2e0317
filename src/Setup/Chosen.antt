-- ===== src/Setup/Chosen.antt =====
-- Which PCR banks swtpm_tpm2_set_active_pcr_banks of src/swtpm_setup/swtpm.c activates.
use swtpm.Common.{
  ℕ, ◌+◌, ◌≡◌, ◌≢◌, ◌<◌, refl, sym, ap, ◌∙◌, inl, inr, Bool, true, false, Option, none, some, List,
  [], ◌∷◌, ◌++◌, ◌==◌, ltb, if◌then◌else◌, length, be16, be32, length-append, Bool-cases,
  Option-cases, arith,
}
use mathlib.Core.Path.{subst}
use mathlib.Core.List.{append-nil, append_assoc}
use swtpm.Setup.{Bytes, Sockets, Link, command, request, authblock}
use swtpm.Setup.Banks.{
  Selected, no_banks, get_hashalg_by_bankname, has_name, select_all, deselect_one, deselect_all,
  some_selected, pcr_allocate_request, allocate, set_active_pcr_banks, pcrselects_size,
}
use swtpm.Setup.Names.{selections, unchosen, Distinct, selections-append}
use swtpm.Setup.Selecting.{IsSelected, select_all-IsSelected, no_banks-IsSelected}

-- The loop that deactivates changes the selections and their count alone.
record Deselected (left : List Bytes) (s s' : Selected) : Type 0 where
  active_same : s'.active ≡ s.active
  bytes_more : s'.pcrselects ≡ s.pcrselects ++ selections 0 left
  count_more : s'.count ≡ s.count + length left

abbrev left_one : List Bytes → Bytes → List Bytes
left_one chosen n = if has_name n chosen then [] else n ∷ []

deselect_one-Deselected :
    (chosen : List Bytes) (n : Bytes) (s s' : Selected)
    → deselect_one chosen n s ≡ some s'
    → Deselected (left_one chosen n) s s'
unfolding deselect_one
deselect_one-Deselected chosen n s s' h = elim (Bool-cases (has_name n chosen)) [
  | inl e ↦
      let same : s ≡ s' = cc (rw e at h) in
      rw (e, ← same)
        (record {
          active_same = refl;
          bytes_more = sym (append-nil s.pcrselects);
          count_more = omega arith;
        })
  | inr e ↦ elim (Bool-cases (ltb pcrselects_size (length s.pcrselects + 6))) [
    | inl full ↦ cc (rw (e, full) at h)
    | inr room ↦
        let entry = be16 (get_hashalg_by_bankname n) ++ 3 ∷ 0 ∷ 0 ∷ 0 ∷ [] in
        let same : record s { pcrselects = s.pcrselects ++ entry; count = s.count + 1 } ≡ s' =
          cc (rw (e, room) at h) in
        rw (e, ← same) (record { active_same = refl; bytes_more = refl; count_more = refl })
  ]
]

unchosen_cons :
    (chosen : List Bytes) (n : Bytes) (ns : List Bytes)
    → unchosen chosen (n ∷ ns) ≡ left_one chosen n ++ unchosen chosen ns
unchosen_cons chosen n ns = ground arith

deselect_all-Deselected :
    (chosen names : List Bytes) (o : Option Selected) (s s' : Selected)
    → o ≡ some s
    → deselect_all chosen names o ≡ some s'
    → Deselected (unchosen chosen names) s s'
unfolding deselect_all
deselect_all-Deselected chosen names none s s' e h = cc
deselect_all-Deselected chosen [] (some t) s s' e h =
    let same : s ≡ s' = cc in
    rw (← same) (record {
      active_same = refl;
      bytes_more = sym (append-nil s.pcrselects);
      count_more = omega arith;
    })
deselect_all-Deselected chosen (n ∷ ns) (some t) s s' e h =
    elim (Option-cases (deselect_one chosen n t)) [
      | inl stop ↦
          cc (sym (deselect_all-none chosen ns) ∙ ap (deselect_all chosen ns) (sym stop) ∙ h)
      | inr (u, go) ↦
          let one : Deselected (left_one chosen n) s u =
            deselect_one-Deselected chosen n s u (cc) in
          let rest = deselect_all-Deselected chosen ns (deselect_one chosen n t) u s' go h in
          rw (unchosen_cons chosen n ns) (record {
            active_same = rest.active_same ∙ one.active_same;
            bytes_more =
                rest.bytes_more
                ∙ ap (λ b. b ++ selections 0 (unchosen chosen ns)) one.bytes_more
                ∙ append_assoc s.pcrselects (selections 0 (left_one chosen n)) _
                ∙ ap (λ b. s.pcrselects ++ b)
                    (sym (selections-append 0 (left_one chosen n) (unchosen chosen ns)));
            count_more = omega (
              arith,
              rest.count_more,
              one.count_more,
              length-append (left_one chosen n) (unchosen chosen ns),
            );
          })
    ]
  where
    deselect_all-none : (chosen names : List Bytes) → deselect_all chosen names none ≡ none
    deselect_all-none chosen [] = refl
    deselect_all-none chosen (n ∷ ns) = refl

-- The bytes of PCR_Allocate as the TPM 2.0 specification lays them out: TPM_ST_SESSIONS, the size,
-- TPM_CC_PCR_Allocate, TPM_RH_PLATFORM, an authorization area of nine bytes for an empty password, the
-- number of selections, and those with all PCRs before those with none.
abbrev pub allocate_command_of : ℕ → List Bytes → List Bytes → Bytes
allocate_command_of size on off =
    be16 0x8002
    ++ (be32 size
        ++ (be32 0x12b
            ++ (be32 0x4000000c
                ++ (be32 9
                    ++ (be32 0x40000009
                        ++ (0 ∷ 0 ∷ 0 ∷ 0 ∷ 0 ∷ []
                            ++ (be32 (length on + length off)
                                ++ (selections 255 on ++ selections 0 off))))))))

abbrev pub allocate_command : List Bytes → List Bytes → Bytes
allocate_command on off =
    allocate_command_of (31 + length (selections 255 on ++ selections 0 off)) on off

-- The banks that a choice makes active.
pub record Allocates (all chosen active : List Bytes) : Type 0 where
  pub not_none : 0 < length active
  pub distinct : Distinct active
  pub known :
      (n : Bytes)
      → has_name n active ≡ true
      → (get_hashalg_by_bankname n ≢ 0) × (has_name n all ≡ true) × (has_name n chosen ≡ true)
  pub complete :
      (n : Bytes)
      → has_name n chosen ≡ true
      → has_name n all ≡ true
      → get_hashalg_by_bankname n ≢ 0
      → has_name n active ≡ true

some_selected-eq-some :
    (o : Option Selected) (s : Selected) → some_selected o ≡ some s → (o ≡ some s) × (0 < s.count)
unfolding some_selected
some_selected-eq-some none s h = cc
some_selected-eq-some (some t) s h = elim (Bool-cases (t.count == 0)) [
  | inl e ↦ cc (rw e at h)
  | inr e ↦ let same : t ≡ s = cc (rw e at h) in rw (← same) (refl, ground arith)
]

deselect_all-eq-some :
    (chosen names : List Bytes) (o : Option Selected) (s : Selected)
    → deselect_all chosen names o ≡ some s
    → (t : Selected) × (o ≡ some t) × (deselect_all chosen names (some t) ≡ some s)
unfolding deselect_all
deselect_all-eq-some chosen [] none s h = cc
deselect_all-eq-some chosen (n ∷ ns) none s h = cc
deselect_all-eq-some chosen names (some t) s h = (t, refl, h)

chosen-Allocates :
    (all chosen : List Bytes) (s : Selected)
    → deselect_all chosen all (some_selected (select_all all chosen (some no_banks))) ≡ some s
    → Allocates all chosen s.active
      × (s.pcrselects ≡ selections 255 s.active ++ selections 0 (unchosen chosen all))
      × (s.count ≡ length s.active + length (unchosen chosen all))
chosen-Allocates all chosen s h =
    let (t, first, second) = deselect_all-eq-some chosen all _ s h in
    let (picked, some_count) = some_selected-eq-some _ t first in
    let d = deselect_all-Deselected chosen all (some t) t s refl second in
    let v : IsSelected all chosen t =
      select_all-IsSelected all [] chosen (some no_banks) t
        (λ u e. subst (IsSelected all []) (some_injective e) (no_banks-IsSelected all)) picked in
    rw d.active_same (
      record {
        not_none = omega (arith, v.count_is, some_count);
        distinct = v.distinct;
        known = v.known;
        complete = v.complete;
      },
      d.bytes_more ∙ ap (λ b. b ++ selections 0 (unchosen chosen all)) v.bytes_are,
      omega (arith, d.count_more, v.count_is),
    )
  where
    some_injective : {a b : Selected} → some a ≡ some b → a ≡ b
    some_injective e = cc

pcr_allocate_request-allocate_command :
    (on off : List Bytes) (s : Selected)
    → s.pcrselects ≡ selections 255 on ++ selections 0 off
    → s.count ≡ length on + length off
    → pcr_allocate_request s ≡ allocate_command on off
unfolding pcr_allocate_request request authblock
pcr_allocate_request-allocate_command on off s bytes count =
    rw (bytes, count) (ap (λ n. allocate_command_of n on off) (omega arith))

module _ {W : Type 0} (sockets : Sockets W) where
  allocate-some :
      (o : Option Selected) (active : List Bytes) (l l' : Link W)
      → allocate sockets o l ≡ (some active, l')
      → (s : Selected) × (o ≡ some s)
        × (s.active ≡ active)
        × (command sockets (pcr_allocate_request s) l ≡ (true, l'))
  unfolding allocate
  allocate-some none active l l' h = cc
  allocate-some (some s) active l l' h = taken (command sockets (pcr_allocate_request s) l) refl h
    where
      taken :
          (r : Bool × Link W)
          → command sockets (pcr_allocate_request s) l ≡ r
          → ◌≡◌ {A = Option (List Bytes) × Link W}
              (if r.0 then some s.active else none, r.1)
              (some active, l')
          → (s' : Selected) × (some s ≡ some s')
            × (s'.active ≡ active)
            × (command sockets (pcr_allocate_request s') l ≡ (true, l'))
      taken (true, l1) e g = (s, refl, cc, cc)
      taken (false, l1) e g = cc

  -- Where swtpm_tpm2_set_active_pcr_banks returns 0, the TPM took a PCR_Allocate with these bytes: the number of
  -- selections, then, with all PCRs, the banks that are reported as active, then, with none, the available banks
  -- that the user did not choose, a bank of an unknown name by the algorithm 0. There is an active bank and none
  -- twice; they are just the banks that the user chose, that are available, and whose algorithm is known.
  pub set_active_pcr_banks-Allocates :
      (chosen all active : List Bytes) (l l' : Link W)
      → set_active_pcr_banks sockets chosen all l ≡ (some active, l')
      → (command sockets (allocate_command active (unchosen chosen all)) l ≡ (true, l'))
        × Allocates all chosen active
  unfolding set_active_pcr_banks
  set_active_pcr_banks-Allocates chosen all active l l' h =
      let (s, made, same, sent) = allocate-some _ active l l' h in
      let (is, bytes, count) = chosen-Allocates all chosen s made in
      let e : pcr_allocate_request s ≡ allocate_command active (unchosen chosen all) =
        pcr_allocate_request-allocate_command active (unchosen chosen all) s (rw same at bytes)
          (rw same at count) in
      (ap (λ c. command sockets c l) (sym e) ∙ sent, subst (Allocates all chosen) same is)
