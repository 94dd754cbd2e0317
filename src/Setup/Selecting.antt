-- ===== src/Setup/Selecting.antt =====
-- What the first loop of swtpm_tpm2_set_active_pcr_banks of src/swtpm_setup/swtpm.c selects.
use swtpm.Common.{
  ℕ, ◌+◌, ◌≡◌, ◌≢◌, refl, sym, ap, ◌∙◌, inl, inr, Bool, true, false, ◌||◌, Option, none, some, List,
  [], ◌∷◌, ◌++◌, ◌==◌, ==_iff, ltb, length, be16, length-append, Bool-cases, arith,
}
use mathlib.Core.List.{append-nil, append_assoc}
use swtpm.Nvstore.Crypt.{bytes_eq}
use swtpm.Nvstore.Integrity.{bytes_eq_sound}
use swtpm.Setup.{Bytes}
use swtpm.Setup.Banks.{
  Selected, no_banks, get_hashalg_by_bankname, index_from, has_bit, has_name, select_at,
  select_found, select_all, pcrselects_size,
}
use swtpm.Setup.Names.{
  selections, Distinct, has_name-append, has_name_one, selections-append, Distinct-append,
  index_from-injective, index_from-has_name, index_from-missing, in_append, in_last, in_cases,
}

-- What has been selected, after the names `taken` of the user's list.
pub record IsSelected (all taken : List Bytes) (s : Selected) : Type 0 where
  pub bytes_are : s.pcrselects ≡ selections 255 s.active
  pub count_is : s.count ≡ length s.active
  pub distinct : Distinct s.active
  pub bits :
      (n : Bytes) (j : ℕ)
      → index_from 0 n all ≡ some j
      → has_bit j s.activated ≡ has_name n s.active
  pub known :
      (n : Bytes)
      → has_name n s.active ≡ true
      → (get_hashalg_by_bankname n ≢ 0) × (has_name n all ≡ true) × (has_name n taken ≡ true)
  pub complete :
      (n : Bytes)
      → has_name n taken ≡ true
      → has_name n all ≡ true
      → get_hashalg_by_bankname n ≢ 0
      → has_name n s.active ≡ true

module _ (all taken : List Bytes) (n : Bytes) (s : Selected) (v : IsSelected all taken s) where
  -- the name adds nothing
  skipped-IsSelected :
      (has_name n all ≡ true → get_hashalg_by_bankname n ≢ 0 → has_name n s.active ≡ true)
      → IsSelected all (taken ++ n ∷ []) s
  skipped-IsSelected there = record {
    bytes_are = v.bytes_are;
    count_is = v.count_is;
    distinct = v.distinct;
    bits = v.bits;
    known = λ m h. let (a, b, c) = v.known m h in (a, b, in_append m n taken c);
    complete = λ m h b a. elim (in_cases m n taken h) [
      | inl old ↦ v.complete m old b a
      | inr e ↦ rw e (there (rw e at b) (rw e at a))
    ];
  }

  module _ (j : ℕ) (at_j : index_from 0 n all ≡ some j) (alg : get_hashalg_by_bankname n ≢ 0)
      (fresh : has_bit j s.activated ≡ false) where
    abbrev longer : Selected
    longer = record {
      active = s.active ++ n ∷ [];
      pcrselects = s.pcrselects ++ (be16 (get_hashalg_by_bankname n) ++ 3 ∷ 255 ∷ 255 ∷ 255 ∷ []);
      count = s.count + 1;
      activated = j ∷ s.activated;
    }

    longer_bits :
        (m : Bytes) (i : ℕ)
        → index_from 0 m all ≡ some i
        → has_bit i longer.activated ≡ has_name m longer.active
    unfolding has_bit
    longer_bits m i h =
        let split = has_name-append m s.active (n ∷ []) in
        let one = has_name_one m n in
        let old = v.bits m i h in
        elim (Bool-cases (j == i)) [
          | inl e ↦
              let same : j ≡ i = (==_iff j i).0 e in
              let equal : n ≡ m = index_from-injective 0 i n m all (at_j ∙ ap some same) h in
              rw e (sym (in_last m n s.active (sym equal)))
          | inr e ↦
              let apart : bytes_eq n m ≡ false = elim (Bool-cases (bytes_eq n m)) [
                | inl t ↦
                    let equal : n ≡ m = bytes_eq_sound n m t in
                    let again : index_from 0 m all ≡ some j = rw (← equal) at_j in
                    let same : j ≡ i = cc in absurd (ground arith)
                | inr f ↦ f
              ] in
              rw (e, split, one, apart, old) (sym (or_false (has_name m s.active)))
        ]
      where
        or_false : (b : Bool) → (b || false) ≡ b
        or_false true = refl
        or_false false = refl

    longer-IsSelected : IsSelected all (taken ++ n ∷ []) longer
    longer-IsSelected = record {
      bytes_are =
          ap (λ b. b ++ (be16 (get_hashalg_by_bankname n) ++ 3 ∷ 255 ∷ 255 ∷ 255 ∷ [])) v.bytes_are
          ∙ sym (selections-append 255 s.active (n ∷ []));
      count_is = omega (arith, v.count_is, length-append s.active (n ∷ []));
      distinct = Distinct-append s.active n v.distinct (sym (v.bits n j at_j) ∙ fresh);
      bits = longer_bits;
      known = λ m h. elim (in_cases m n s.active h) [
        | inl old ↦ let (a, b, c) = v.known m old in (a, b, in_append m n taken c)
        | inr e ↦ rw e (alg, index_from-has_name 0 j n all at_j, in_last n n taken refl)
      ];
      complete = λ m h b a. elim (in_cases m n taken h) [
        | inl old ↦ in_append m n s.active (v.complete m old b a)
        | inr e ↦ in_last m n s.active e
      ];
    }

  select_at-IsSelected :
      (j : ℕ) (s' : Selected)
      → index_from 0 n all ≡ some j
      → select_at n j s ≡ some s'
      → IsSelected all (taken ++ n ∷ []) s'
  unfolding select_at
  select_at-IsSelected j s' at_j h = elim (Bool-cases (get_hashalg_by_bankname n == 0)) [
    | inl unknown ↦
        let same : s ≡ s' = cc (rw unknown at h) in
        let zero_alg : get_hashalg_by_bankname n ≡ 0 = (==_iff _ 0).0 unknown in
        rw (← same) (skipped-IsSelected (λ b a. absurd (a zero_alg)))
    | inr alg ↦ elim (Bool-cases (has_bit j s.activated)) [
      | inl again ↦
          let same : s ≡ s' = cc (rw (alg, again) at h) in
          rw (← same) (skipped-IsSelected (λ b a. sym (v.bits n j at_j) ∙ again))
      | inr fresh ↦ elim (Bool-cases (ltb pcrselects_size (length s.pcrselects + 6))) [
        | inl full ↦ cc (rw (alg, fresh, full) at h)
        | inr room ↦
            let same : longer j at_j (λ e. cc (alg, (==_iff _ 0).1 e)) fresh ≡ s' =
              cc (rw (alg, fresh, room) at h) in
            rw (← same) (longer-IsSelected j at_j (λ e. cc (alg, (==_iff _ 0).1 e)) fresh)
      ]
    ]
  ]

  select_found-IsSelected :
      (o : Option ℕ) (s' : Selected)
      → index_from 0 n all ≡ o
      → select_found n o s ≡ some s'
      → IsSelected all (taken ++ n ∷ []) s'
  select_found-IsSelected none s' e h =
      let same : s ≡ s' = cc in
      rw (← same) (skipped-IsSelected (λ b a. cc (b, index_from-missing 0 n all e)))
  select_found-IsSelected (some j) s' e h = select_at-IsSelected j s' e h

pub select_all-IsSelected :
    (all taken names : List Bytes) (o : Option Selected) (s' : Selected)
    → ((s : Selected) → o ≡ some s → IsSelected all taken s)
    → select_all all names o ≡ some s'
    → IsSelected all (taken ++ names) s'
unfolding select_all
select_all-IsSelected all taken [] none s' v h = cc
select_all-IsSelected all taken (n ∷ ns) none s' v h = cc
select_all-IsSelected all taken [] (some s) s' v h = rw append-nil (v s' h)
select_all-IsSelected all taken (n ∷ ns) (some s) s' v h =
    let step =
      select_all-IsSelected all (taken ++ n ∷ []) ns (select_found n (index_from 0 n all) s) s'
        (λ t e. select_found-IsSelected all taken n s (v s refl) (index_from 0 n all) t refl e) h in
    rw (append_assoc taken (n ∷ []) ns) at step

pub no_banks-IsSelected : (all : List Bytes) → IsSelected all [] no_banks
unfolding has_bit has_name
no_banks-IsSelected all = record {
  bytes_are = refl;
  count_is = refl;
  distinct = tt;
  bits = λ n j h. refl;
  known = λ n h. cc;
  complete = λ n h b a. cc;
}
