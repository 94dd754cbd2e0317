-- ===== src/Tpmlib/Locality.antt =====
-- SetLocality on the data channel: tpmlib_process of src/swtpm/tpmlib.c.
use swtpm.Common.{
  ℕ, ◌+◌, ◌≤◌, ◌≡◌, refl, ◌⊎◌, inl, inr, Bool, true, false, List, ◌==◌, ltb, leb, leb→le, ==_iff,
  Bool-cases, length, get_or, get32, arith,
}
use swtpm.Common.Result.{Error}
use swtpm.Nvstore.{has_flag}
use swtpm.Tpmlib.{
  TpmVersion, Response, req_header_size, cc_set_locality, flag_reject_locality_4,
  flag_allow_setlocality, is_refused_locality, process_setlocality, process, write_success_response,
}

-- What a SetLocality that is obeyed has: the flag, a body, and a locality that is not refused.
pub record IsObeyed (command : List ℕ) (locality_flags : ℕ) : Type 0 where
  pub is_setlocality : get32 command 6 ≡ cc_set_locality
  pub has_body : req_header_size + 1 ≤ length command
  pub allowed : has_flag locality_flags flag_allow_setlocality ≡ true
  pub in_range : get_or command req_header_size 0 ≤ 4
  pub not_refused :
      get_or command req_header_size 0 ≡ 4 → has_flag locality_flags flag_reject_locality_4 ≡ false

pub is_refused_locality-ok :
    (flags l : ℕ)
    → is_refused_locality flags l ≡ false
    → (l ≤ 4) × (l ≡ 4 → has_flag flags flag_reject_locality_4 ≡ false)
unfolding is_refused_locality
is_refused_locality-ok flags l h = ground arith

module _ (codes : Error → ℕ) (can_alloc : ℕ → Bool) where
  -- tpmlib_process leaves the locality as it is, or the command is a SetLocality that the flags
  -- allow, of a whole header and a body, with a locality of at most 4, and not 4 where that is
  -- rejected; then this becomes the locality and the response is the one for success.
  pub process-IsObeyed :
      (command : List ℕ) (locality_flags locality : ℕ) (tpmversion : TpmVersion) (r : Response)
      → ((process codes can_alloc command locality_flags locality tpmversion r).1 ≡ locality)
        ⊎ (IsObeyed command locality_flags
            × (process codes can_alloc command locality_flags locality tpmversion r ≡ (
              write_success_response codes can_alloc tpmversion r,
              get_or command req_header_size 0,
            )))
  unfolding process process_setlocality
  process-IsObeyed command flags locality v r = elim (Bool-cases (ltb (length command) 10)) [
    | inl short ↦ inl (rw short refl)
    | inr whole ↦ elim (Bool-cases (get32 command 6 == cc_set_locality)) [
      | inr other ↦ inl (rw (whole, other) refl)
      | inl is ↦ elim (Bool-cases (leb 11 (length command))) [
        | inr short ↦ inl (rw (whole, is, short) refl)
        | inl body ↦ elim (Bool-cases (has_flag flags flag_allow_setlocality)) [
          | inr off ↦ inl (rw (whole, is, body, off) refl)
          | inl on ↦ elim (Bool-cases (is_refused_locality flags (get_or command 10 0))) [
            | inl refused ↦ inl (rw (whole, is, body, on, refused) refl)
            | inr fine ↦ inr (
              record {
                is_setlocality = (==_iff (get32 command 6) cc_set_locality).0 is;
                has_body = leb→le 11 (length command) body;
                allowed = on;
                in_range = (is_refused_locality-ok flags (get_or command 10 0) fine).0;
                not_refused = (is_refused_locality-ok flags (get_or command 10 0) fine).1;
              },
              rw (whole, is, body, on, fine) refl,
            )
          ]
        ]
      ]
    ]
  ]
