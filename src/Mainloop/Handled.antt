-- ===== src/Mainloop/Handled.antt =====
-- Who answers a request in mainLoop of src/swtpm/mainloop.c.
use swtpm.Common.{
  ℕ, ◌+◌, ◌<◌, ◌≤◌, ◌≢◌, ◌≡◌, get32, leb, if_both, lt→ltb, ltb→lt, ltb→ge, if_cases, ==_iff, refl,
  ◌⊎◌, inl, inr, ap, Bool, true, false, not, if◌then◌else◌, Option, none, some, List, [], be16,
  ◌++◌, ◌==◌, ltb, length, drop, get_or, be32, arith, Bool-cases,
}
use swtpm.Nvstore.{has_flag}
use swtpm.Tpmlib.{
  req_header_size, cc_set_locality, flag_allow_setlocality, is_refused_locality, resp_header,
  fresh_response, into_buffer, write_error_response, write_shortmsg_error_response,
  write_locality_error_response, write_success_response, process, process_setlocality,
  get_cmd_ordinal, TpmVersion, Response, response_tag, write_fatal_error_response,
}
use swtpm.Ctrl.{Env, CtrlState}
use swtpm.Common.Result.{Rc, Error, success, error, fail}
use swtpm.Host.{Host}
use swtpm.Mainloop.Request.{last_of, processed, passed_on, run_request}

not-true : (b : Bool) → not b ≡ true → b ≡ false
not-true true e = cc
not-true false e = refl

not-false : (b : Bool) → not b ≡ false → b ≡ true
not-false true e = refl
not-false false e = cc

if_not {ℓ} : {A : Type ℓ} (b : Bool) {x : A} (y : A) → b ≡ false → (if not b then x else y) ≡ x
if_not true y e = cc
if_not false y e = refl

-- A response that starts with a whole header: the version's tag, its size, and this code.
pub record Headed (v : TpmVersion) (code : ℕ) (r : Response) : Type 0 where
  pub rlength_is : r.rlength ≡ 10
  pub rest : List ℕ
  pub bytes_are : r.rbuffer ≡ some (be16 (response_tag v) ++ (be32 10 ++ (be32 code ++ rest)))

module _ {T R W : Type 0} (env : Env T R W) where
  -- the code of a fatal error: TPM_RC_FAILURE, or TPM_FAIL
  abbrev pub fatal_code : TpmVersion → ℕ
  fatal_code TpmVersion.tpm_1_2 = env.codes fail
  fatal_code TpmVersion.tpm_2 = 257

  -- the state behind a request: the last command is noted, if the request has an ordinal
  abbrev pub noted : List ℕ → CtrlState T R W → CtrlState T R W
  noted command s = record s {
    mlp = record s.mlp { last_command = last_of (get_cmd_ordinal command) s.mlp.last_command };
  }

  -- Who answers a request, and what becomes of the process: the fatal error while the TPM does not run;
  -- swtpm itself, to a request that is too short or a SetLocality; or libtpms, by what it returns.
  pub data Handled (command : List ℕ) (s : CtrlState T R W)
      : Option Response × CtrlState T R W → Type 0 where
    fatally :
        (answer : Response)
        → s.tpm_running ≡ false
        → Headed s.mlp.tpmversion (fatal_code s.mlp.tpmversion) answer
        → Handled command s (some answer, s)
    itself :
        (answer : Response) (code l : ℕ)
        → s.tpm_running ≡ true
        → (length command < req_header_size) ⊎ (get32 command 6 ≡ cc_set_locality)
        → Headed s.mlp.tpmversion code answer
        → Handled command s (some answer, record (noted command s) { locality = l })
    by_libtpms :
        (bytes : List ℕ) (h : Host T R W)
        → s.tpm_running ≡ true
        → req_header_size ≤ length command
        → get32 command 6 ≢ cc_set_locality
        → env.libtpms.run_command s.locality command s.host ≡ (success, bytes, h)
        → Handled command s (
          some (record { rbuffer = some bytes; rlength = length bytes }),
          record (noted command s) { host = h },
        )
    failed :
        (e : Error) (bytes : List ℕ) (h : Host T R W)
        → s.tpm_running ≡ true
        → req_header_size ≤ length command
        → get32 command 6 ≢ cc_set_locality
        → env.libtpms.run_command s.locality command s.host ≡ (error e, bytes, h)
        → Handled command s (none, record (noted command s) { host = h })

  module _ (room : env.crypto.can_alloc req_header_size ≡ true) where
    write_error_response-Headed :
        (errcode : ℕ) (v : TpmVersion) (r : Response)
        → Headed v errcode (write_error_response env.codes env.crypto.can_alloc errcode v r)
    unfolding write_error_response into_buffer fresh_response resp_header
    write_error_response-Headed errcode v r = by_buffer r.rbuffer
      where
        fresh :
            Headed v errcode
              (fresh_response env.codes env.crypto.can_alloc (resp_header v errcode) r)
        fresh = rw room (record { rlength_is = refl; rest = []; bytes_are = refl })

        copied :
            (buffer : List ℕ)
            → Headed v errcode (record {
              rbuffer = some (resp_header v errcode ++ drop req_header_size buffer);
              rlength = req_header_size;
            })
        copied buffer = record {
          rlength_is = refl;
          rest = drop req_header_size buffer;
          bytes_are = refl;
        }

        by_buffer :
            (b : Option (List ℕ))
            → Headed v errcode
                (into_buffer env.codes env.crypto.can_alloc b (resp_header v errcode) r)
        by_buffer none = fresh
        by_buffer (some buffer) =
            if_both (Headed v errcode) (ltb (length buffer) req_header_size) fresh (copied buffer)

    abbrev Whole : TpmVersion → Response × ℕ → Type 0
    Whole v a = (code : ℕ) × Headed v code a.0

    process-Whole :
        (command : List ℕ) (flags locality : ℕ) (v : TpmVersion) (r : Response)
        → (length command < req_header_size) ⊎ (get32 command 6 ≡ cc_set_locality)
        → Whole v (process env.codes env.crypto.can_alloc command flags locality v r)
    unfolding process process_setlocality write_shortmsg_error_response write_fatal_error_response
        write_locality_error_response write_success_response
    process-Whole command flags locality v r (inl short) =
        rw (lt→ltb (length command) req_header_size short) (_, write_error_response-Headed _ v r)
    process-Whole command flags locality v r (inr is) =
        let e : (get32 command 6 == cc_set_locality) ≡ true = (==_iff _ _).1 is in
        if_both (Whole v) (ltb (length command) req_header_size)
          (_, write_error_response-Headed _ v r)
          (rw e (
            if_both (Whole v) (leb (req_header_size + 1) (length command))
              (if_both (Whole v) (not (has_flag flags flag_allow_setlocality))
                (_, write_error_response-Headed _ v r)
                (if_both (Whole v) (is_refused_locality flags (get_or command req_header_size 0))
                  (_, write_error_response-Headed _ v r) (_, write_error_response-Headed _ v r)))
              (_, write_error_response-Headed _ v r)))

    process_passes :
        (command : List ℕ) (flags locality : ℕ) (v : TpmVersion) (r : Response)
        → req_header_size ≤ length command
        → get32 command 6 ≢ cc_set_locality
        → process env.codes env.crypto.can_alloc command flags locality v r ≡ (r, locality)
    unfolding process
    process_passes command flags locality v r whole other = ground arith

    module _ (command : List ℕ) (r : Response) (s : CtrlState T R W)
        (on : s.tpm_running ≡ true) where
      -- tpmlib_process of the command, with the response buffer cleared
      abbrev tried : Response × ℕ
      tried =
          process env.codes env.crypto.can_alloc command s.mlp.locality_flags s.locality
            s.mlp.tpmversion (record r { rlength = 0 })

      own-Handled :
          (length command < req_header_size) ⊎ (get32 command 6 ≡ cc_set_locality)
          → Handled command s (passed_on env command tried (noted command s))
      unfolding passed_on
      own-Handled why =
          let (code, h) =
            process-Whole command s.mlp.locality_flags s.locality s.mlp.tpmversion
              (record r { rlength = 0 }) why in
          rw (if_not (tried.0.rlength == 0) _ (ap (λ n. n == 0) h.rlength_is))
            (itself tried.0 code tried.1 on why h)

      processed-Handled :
          (a : Rc × List ℕ × Host T R W)
          → req_header_size ≤ length command
          → get32 command 6 ≢ cc_set_locality
          → env.libtpms.run_command s.locality command s.host ≡ a
          → Handled command s (processed env a (noted command s))
      unfolding processed
      processed-Handled (success, bytes, h) long other e = by_libtpms bytes h on long other e
      processed-Handled (error x, bytes, h) long other e = failed x bytes h on long other e

      other-Handled :
          req_header_size ≤ length command
          → get32 command 6 ≢ cc_set_locality
          → Handled command s (passed_on env command tried (noted command s))
      unfolding passed_on
      other-Handled long other =
          rw
            (process_passes command s.mlp.locality_flags s.locality s.mlp.tpmversion
              (record r { rlength = 0 }) long other)
            (processed-Handled (env.libtpms.run_command s.locality command s.host) long other refl)

      passed_on-Handled : Handled command s (passed_on env command tried (noted command s))
      passed_on-Handled = elim (Bool-cases (ltb (length command) req_header_size)) [
        | inl short ↦ own-Handled (inl (ltb→lt (length command) req_header_size short))
        | inr long ↦ elim (Bool-cases (get32 command 6 == cc_set_locality)) [
          | inl is ↦ own-Handled (inr ((==_iff (get32 command 6) cc_set_locality).0 is))
          | inr other ↦ other-Handled (ltb→ge (length command) req_header_size long) (λ is.
              let yes : (get32 command 6 == cc_set_locality) ≡ true =
                (==_iff (get32 command 6) cc_set_locality).1 is in
              cc)
        ]
      ]

    fatal-Headed :
        (v : TpmVersion) (r : Response)
        → Headed v (fatal_code v) (write_fatal_error_response env.codes env.crypto.can_alloc v r)
    unfolding write_fatal_error_response
    fatal-Headed TpmVersion.tpm_1_2 r = write_error_response-Headed _ _ r
    fatal-Headed TpmVersion.tpm_2 r = write_error_response-Headed _ _ r

    -- Where memory can be allocated, every request has one of these fates: while the TPM does not run it is answered
    -- by a header with the fatal error and nothing changes; a request that is shorter than a header, or a SetLocality, is
    -- answered by swtpm with a header, and only the locality and the last command may change; any other goes to libtpms as
    -- it is, at the locality that is set: where it succeeds, just its bytes are the answer, and where it fails
    -- there is none, and the process is as libtpms leaves it but for the last command.
    pub run_request-Handled :
        (command : List ℕ) (r : Response) (s : CtrlState T R W)
        → Handled command s (run_request env command r s)
    unfolding run_request
    run_request-Handled command r s =
        if_cases (Handled command s) (not s.tpm_running)
          (λ off. fatally _ (not-true s.tpm_running off) (fatal-Headed s.mlp.tpmversion r))
          (λ on. passed_on-Handled command r s (not-false s.tpm_running on))
