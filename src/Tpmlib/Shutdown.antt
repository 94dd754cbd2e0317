-- ===== src/Tpmlib/Shutdown.antt =====
-- tpmlib_maybe_send_tpm2_shutdown of src/swtpm/tpmlib.c: TPM2_Shutdown(SU_STATE), or else
-- TPM2_Shutdown(SU_CLEAR), if the last command was no TPM2_Shutdown.
use swtpm.Common.{
  ℕ, ◌≡◌, ◌≢◌, ==_iff, Bool-cases, refl, ◌⊎◌, inl, inr, true, not, ◌||◌, List, [], ◌∷◌, ◌++◌, ◌==◌,
  ltb, ltb→lt, ltb→ge, ◌≤◌, arith, length, get32, be16, be32, if◌then◌else◌,
}
use swtpm.Common.Result.{Rc, success, error}
use swtpm.Host.{Libtpms}
use swtpm.Tpmlib.{TpmVersion, is_tpm_2, req_header_size, tag_no_session}

abbrev pub cc_shutdown : ℕ
cc_shutdown = 325

-- TPM_RC_INITIALIZE
abbrev pub rc_initialize : ℕ
rc_initialize = 256

-- `tpm2_shutdown` as the bytes in memory
unfoldable pub shutdown_bytes : ℕ → List ℕ
shutdown_bytes shutdown_type =
    be16 tag_no_session ++ be32 12 ++ be32 cc_shutdown ++ be16 shutdown_type

-- what a response means for the loop: the next type, TPM_SUCCESS, or that no other will work
pub data Verdict : Type 0 where
  again taken hopeless : Verdict

unfoldable pub verdict_of : Rc → List ℕ → Verdict
verdict_of (error e) rbuffer = Verdict.again
verdict_of success rbuffer =
    if ltb (length rbuffer) req_header_size
    then Verdict.again
    else if get32 rbuffer 6 == 0
    then Verdict.taken
    else if get32 rbuffer 6 == rc_initialize
    then Verdict.hopeless
    else Verdict.again

-- the bytes of TPM2_Shutdown as the TPM 2.0 specification lays them out: TPM_ST_NO_SESSIONS, 12 bytes,
-- TPM_CC_Shutdown, and the startup type
abbrev pub shutdown_command : ℕ → List ℕ
shutdown_command t = 0x80 ∷ 0x01 ∷ 0 ∷ 0 ∷ 0 ∷ 12 ∷ 0 ∷ 0 ∷ 0x01 ∷ 0x45 ∷ 0 ∷ t ∷ []

-- a response of at least a header with this code
pub record IsCode (code : ℕ) (res : Rc) (rbuffer : List ℕ) : Type 0 where
  pub run : res ≡ success
  pub whole : 10 ≤ length rbuffer
  pub code_is : get32 rbuffer 6 ≡ code

abbrev Means : Verdict → Rc → List ℕ → Type 0
Means Verdict.taken res rbuffer = IsCode 0 res rbuffer
Means Verdict.hopeless res rbuffer = IsCode 256 res rbuffer
Means Verdict.again res rbuffer = (¬ IsCode 0 res rbuffer) × (¬ IsCode 256 res rbuffer)

no-IsCode : (res : Rc) (rbuffer : List ℕ) → IsCode 256 res rbuffer → ¬ IsCode 0 res rbuffer
no-IsCode res rbuffer h g = let e = h.code_is in let f = g.code_is in omega (arith, e, f)

verdict_of-Means : (res : Rc) (rbuffer : List ℕ) → Means (verdict_of res rbuffer) res rbuffer
unfolding verdict_of
verdict_of-Means (error e) rbuffer = (λ h. cc (h.run), λ h. cc (h.run))
verdict_of-Means success rbuffer = elim (Bool-cases (ltb (length rbuffer) req_header_size)) [
  | inl short ↦
      let n = ltb→lt (length rbuffer) req_header_size short in
      rw short (λ h. omega (arith, n, h.whole), λ h. omega (arith, n, h.whole))
  | inr long ↦
      let n = ltb→ge (length rbuffer) req_header_size long in
      elim (Bool-cases (get32 rbuffer 6 == 0)) [
        | inl ok_code ↦
            rw (long, ok_code) (record { run = refl; whole = n; code_is = (==_iff _ _).0 ok_code })
        | inr other ↦ elim (Bool-cases (get32 rbuffer 6 == rc_initialize)) [
          | inl is ↦
              rw (long, other, is) (record { run = refl; whole = n; code_is = (==_iff _ _).0 is })
          | inr not_init ↦
              rw (long, other, not_init)
                (
                  λ h. let e : (get32 rbuffer 6 == 0) ≡ true = (==_iff _ _).1 h.code_is in cc,
                  λ h.
                      let e : (get32 rbuffer 6 == rc_initialize) ≡ true =
                        (==_iff _ _).1 h.code_is in
                      cc,
                )
        ]
      ]
]

module _ {X : Type 0} (libtpms : Libtpms X) (locality : ℕ) where
  -- TPM2_SU_STATE and TPM2_SU_CLEAR
  abbrev pub shutdown_types : List ℕ
  shutdown_types = 1 ∷ 0 ∷ []

  -- the process after one of the commands, and what its response means
  abbrev pub send : ℕ → X → Verdict × X
  send shutdown_type x =
      let (res, rbuffer, x') = libtpms.run_command locality (shutdown_bytes shutdown_type) x in
      (verdict_of res rbuffer, x')

  -- *lastCommand and the process, after a response
  unfoldable pub next_shutdown : (X → ℕ × X) → ℕ → Verdict × X → ℕ × X
  next_shutdown rest last_command (Verdict.again, x) = rest x
  next_shutdown rest last_command (Verdict.taken, x) = (cc_shutdown, x)
  next_shutdown rest last_command (Verdict.hopeless, x) = (last_command, x)

  -- the loop
  unfoldable pub send_shutdowns : List ℕ → ℕ → X → ℕ × X
  unfolding next_shutdown
  send_shutdowns [] last_command x = (last_command, x)
  send_shutdowns (shutdown_type ∷ types) last_command x =
      next_shutdown (send_shutdowns types last_command) last_command (send shutdown_type x)

  -- tpmlib_maybe_send_tpm2_shutdown
  unfoldable pub maybe_send_tpm2_shutdown : TpmVersion → ℕ → X → ℕ × X
  maybe_send_tpm2_shutdown tpmversion last_command x =
      if not (is_tpm_2 tpmversion) || last_command == cc_shutdown
      then (last_command, x)
      else send_shutdowns shutdown_types last_command x

  -- The commands of the loop, one or two, by their bytes, what each response says, and *lastCommand
  -- then.
  pub data Sent (last_command : ℕ) (x : X) : ℕ × X → Type 0 where
    first_taken :
        (res : Rc) (rbuffer : List ℕ) (y : X)
        → libtpms.run_command locality (shutdown_command 1) x ≡ (res, rbuffer, y)
        → IsCode 0 res rbuffer
        → Sent last_command x (cc_shutdown, y)
    first_hopeless :
        (res : Rc) (rbuffer : List ℕ) (y : X)
        → libtpms.run_command locality (shutdown_command 1) x ≡ (res, rbuffer, y)
        → IsCode 256 res rbuffer
        → Sent last_command x (last_command, y)
    second :
        (res res' : Rc) (rbuffer rbuffer' : List ℕ) (y z : X)
        → libtpms.run_command locality (shutdown_command 1) x ≡ (res, rbuffer, y)
        → ¬ IsCode 0 res rbuffer
        → ¬ IsCode 256 res rbuffer
        → libtpms.run_command locality (shutdown_command 0) y ≡ (res', rbuffer', z)
        → (last : ℕ)
        → (IsCode 0 res' rbuffer' × (last ≡ cc_shutdown))
          ⊎ ((¬ IsCode 0 res' rbuffer') × (last ≡ last_command))
        → Sent last_command x (last, z)

  second-Sent :
      (last : ℕ) (x y z : X) (res res' : Rc) (rbuffer rbuffer' : List ℕ) (v : Verdict)
      → libtpms.run_command locality (shutdown_command 1) x ≡ (res, rbuffer, y)
      → ¬ IsCode 0 res rbuffer
      → ¬ IsCode 256 res rbuffer
      → libtpms.run_command locality (shutdown_command 0) y ≡ (res', rbuffer', z)
      → Means v res' rbuffer'
      → Sent last x (next_shutdown (λ z. (last, z)) last (v, z))
  unfolding next_shutdown
  second-Sent last x y z res res' rbuffer rbuffer' Verdict.taken e n n' e' m =
      second res res' rbuffer rbuffer' y z e n n' e' cc_shutdown (inl (m, refl))
  second-Sent last x y z res res' rbuffer rbuffer' Verdict.hopeless e n n' e' m =
      second res res' rbuffer rbuffer' y z e n n' e' last (inr (no-IsCode res' rbuffer' m, refl))
  second-Sent last x y z res res' rbuffer rbuffer' Verdict.again e n n' e' m =
      second res res' rbuffer rbuffer' y z e n n' e' last (inr (m.0, refl))

  after_first-Sent :
      (last : ℕ) (x y : X) (res : Rc) (rbuffer : List ℕ) (v : Verdict)
      → libtpms.run_command locality (shutdown_command 1) x ≡ (res, rbuffer, y)
      → Means v res rbuffer
      → Sent last x (next_shutdown (send_shutdowns (0 ∷ []) last) last (v, y))
  unfolding next_shutdown send_shutdowns shutdown_bytes
  after_first-Sent last x y res rbuffer Verdict.taken e m = first_taken res rbuffer y e m
  after_first-Sent last x y res rbuffer Verdict.hopeless e m = first_hopeless res rbuffer y e m
  after_first-Sent last x y res rbuffer Verdict.again e m =
      let r = libtpms.run_command locality (shutdown_command 0) y in
      second-Sent last x y r.2 res r.0 rbuffer r.1 (verdict_of r.0 r.1) e m.0 m.1 refl
        (verdict_of-Means r.0 r.1)

  send_shutdowns-Sent : (last : ℕ) (x : X) → Sent last x (send_shutdowns (1 ∷ 0 ∷ []) last x)
  unfolding send_shutdowns shutdown_bytes
  send_shutdowns-Sent last x =
      let r = libtpms.run_command locality (shutdown_command 1) x in
      after_first-Sent last x r.2 r.0 r.1 (verdict_of r.0 r.1) refl (verdict_of-Means r.0 r.1)

  -- For a TPM 1.2, or where the last command was TPM2_Shutdown, nothing is sent and nothing changes.
  -- Otherwise the 12 bytes of TPM2_Shutdown(SU_STATE) are sent, and those of TPM2_Shutdown(SU_CLEAR) only if the
  -- first response has neither TPM_RC_SUCCESS nor TPM_RC_INITIALIZE. *lastCommand becomes TPM2_Shutdown exactly
  -- where libtpms succeeded with a response of at least a header that has TPM_RC_SUCCESS.
  pub maybe_send_tpm2_shutdown-Sent :
      (v : TpmVersion) (last : ℕ) (x : X)
      → (((v ≡ TpmVersion.tpm_1_2) ⊎ (last ≡ cc_shutdown))
          × (maybe_send_tpm2_shutdown v last x ≡ (last, x)))
        ⊎ ((v ≡ TpmVersion.tpm_2)
            × (last ≢ cc_shutdown)
            × Sent last x (maybe_send_tpm2_shutdown v last x))
  unfolding maybe_send_tpm2_shutdown
  maybe_send_tpm2_shutdown-Sent TpmVersion.tpm_1_2 last x = inl (inl refl, refl)
  maybe_send_tpm2_shutdown-Sent TpmVersion.tpm_2 last x = elim (Bool-cases (last == cc_shutdown)) [
    | inl is ↦ inl (inr ((==_iff last cc_shutdown).0 is), rw is refl)
    | inr not_yet ↦ inr (
      refl,
      λ is. let yes : (last == cc_shutdown) ≡ true = (==_iff last cc_shutdown).1 is in cc,
      rw not_yet (send_shutdowns-Sent last x),
    )
  ]
