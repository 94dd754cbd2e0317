-- ===== src/Tpmlib/Running.antt =====
-- What src/swtpm/tpmlib.c leaves behind when tpmlib_start fails, and what it has when it succeeds.
use swtpm.Common.{
  ℕ, ◌≡◌, refl, ◌∙◌, Bool, true, false, not, Option, none, some, List, if◌then◌else◌,
}
use swtpm.Common.Result.{Error, Rc, success, error, fail, ◌>>>◌}
use swtpm.Linear.{Name}
use swtpm.Nvstore.{has_flag}
use swtpm.Mainloop.{lock_storage}
use swtpm.Host.{
  BackendOps, Host, Libtpms, storage_of, back, restore_with, restore_by, restore_data, delete_by,
  delete_data,
}
use swtpm.Tpmlib.{TpmVersion}
use swtpm.Tpmlib.Openssl.{Openssl, maybe_configure_openssl}
use swtpm.Tpmlib.Start.{
  flag_delete_volatile, profile_for, set_profile, with_backup, restored, or_backup,
  check_manufactured, lock_nvram, delete_volatile, openssl_code, or_terminate, start_running, start,
}

-- Whether a TPM runs, as the state of libtpms has it: MainInit that succeeds starts it, one that
-- fails does not, Terminate stops it, and OpenSSL has no part in it.
pub record RunLaws {T R W : Type 0} (libtpms : Libtpms (Host T R W)) (ssl : Openssl (Host T R W))
    : Type 0 where
  pub runs : T → Bool
  pub main_init_starts :
      (h h' : Host T R W) → libtpms.main_init h ≡ (success, h') → runs h'.tpm ≡ true
  pub main_init_fails :
      (h h' : Host T R W) (e : Error)
      → libtpms.main_init h ≡ (error e, h')
      → runs h'.tpm ≡ runs h.tpm
  pub terminate_stops : (h : Host T R W) → runs (libtpms.terminate h).tpm ≡ false
  pub choice_keeps :
      (v : TpmVersion) (h : Host T R W) → runs (libtpms.choose_tpm_version v h).1.tpm ≡ runs h.tpm
  pub profile_keeps :
      (profile : List ℕ) (h : Host T R W) → runs (libtpms.set_profile profile h).1.tpm ≡ runs h.tpm
  pub openssl_keeps :
      (v : TpmVersion) (h : Host T R W) → runs (maybe_configure_openssl ssl v h).1.tpm ≡ runs h.tpm

seq_assoc :
    {X : Type 0} (r : Rc × X) (f g : X → Rc × X) → (r >>> f >>> g) ≡ (r >>> (λ x. f x >>> g))
seq_assoc (success, x) f g = refl
seq_assoc (error e, x) f g = refl

-- res == TPM_SUCCESS
abbrev pub is_success : Rc → Bool
is_success success = true
is_success (error e) = false

module _ {T R W : Type 0} (libtpms : Libtpms (Host T R W)) (ssl : Openssl (Host T R W))
    (laws : RunLaws libtpms ssl) where
  abbrev pub is_running : Host T R W → Bool
  is_running h = laws.runs h.tpm

  -- A TPM runs exactly where the code is success.
  abbrev pub Told : Rc × Host T R W → Type 0
  Told r = is_running r.1 ≡ is_success r.0

  -- How tpmlib_start ends: the code tells whether a TPM runs; or a profile for a TPM 2 was not applied,
  -- since the TPM was not manufactured, and then it runs although the code is TPM_FAIL.
  pub data Ends (wanted : Option (List ℕ)) (r : Rc × Host T R W) : Type 0 where
    told : Told r → Ends wanted r
    unapplied :
        (profile : List ℕ)
        → wanted ≡ some profile
        → r.0 ≡ error fail
        → libtpms.was_manufactured r.1 ≡ false
        → is_running r.1 ≡ true
        → Ends wanted r

  -- a step from where no TPM runs
  stopped-Told :
      (r : Rc × Host T R W) (next : Host T R W → Rc × Host T R W)
      → is_running r.1 ≡ false
      → ((h : Host T R W) → is_running h ≡ false → Told (next h))
      → Told (r >>> next)
  stopped-Told (error e, h) next off k = off
  stopped-Told (success, h) next off k = k h off

  -- a step whose code tells
  success-Ends :
      (wanted : Option (List ℕ)) (r : Rc × Host T R W) (next : Host T R W → Rc × Host T R W)
      → Told r
      → ((h : Host T R W) → is_running h ≡ true → Ends wanted (next h))
      → Ends wanted (r >>> next)
  success-Ends wanted (error e, h) next t k = told t
  success-Ends wanted (success, h) next t k = k h t

  -- steps that keep whether a TPM runs
  seq_keeps :
      (b : Bool) (r : Rc × Host T R W) (next : Host T R W → Rc × Host T R W)
      → is_running r.1 ≡ b
      → ((h : Host T R W) → is_running h ≡ b → is_running (next h).1 ≡ b)
      → is_running (r >>> next).1 ≡ b
  seq_keeps b (error e, h) next on k = on
  seq_keeps b (success, h) next on k = k h on

  back_keeps : (h : Host T R W) (r : Rc × W) → is_running (back h r).1 ≡ is_running h
  back_keeps h (rc, w) = refl

  restore_data_keeps : (h : Host T R W) → is_running (restore_data h).1 ≡ is_running h
  unfolding restore_data restore_by restore_with
  restore_data_keeps h = by_ops h.ops
    where
      by_option :
          (restore : Option (W → Rc × W)) → is_running (restore_with restore h).1 ≡ is_running h
      by_option none = refl
      by_option (some restore) = back_keeps h (restore h.nvram.world)

      by_ops : (ops : Option (BackendOps W)) → is_running (restore_by ops h).1 ≡ is_running h
      by_ops none = refl
      by_ops (some ops) = by_option ops.restore_backup

  delete_data_keeps :
      (name : Name) (b : Bool) (h : Host T R W) → is_running (delete_data name b h).1 ≡ is_running h
  unfolding delete_data delete_by
  delete_data_keeps name b h = by_ops h.ops
    where
      by_ops : (ops : Option (BackendOps W)) → is_running (delete_by ops name b h).1 ≡ is_running h
      by_ops none = refl
      by_ops (some ops) = back_keeps h (ops.delete name b h.nvram.world)

  with_backup-Told :
      (r : Rc × Host T R W) (h : Host T R W)
      → is_running h ≡ false
      → libtpms.main_init h ≡ r
      → Told (with_backup libtpms ssl r)
  unfolding with_backup
  with_backup-Told (success, h') h off e = laws.main_init_starts h h' e
  with_backup-Told (error c, h') h off e =
      restore_data_keeps h' ∙ laws.main_init_fails h h' c e ∙ off

  restored-Told : (r : Rc × Host T R W) → is_running r.1 ≡ false → Told (restored libtpms ssl r)
  unfolding restored
  restored-Told (error c, h) off = off
  restored-Told (success, h) off = with_backup-Told (libtpms.main_init h) h off refl

  or_backup-Told :
      (r : Rc × Host T R W) (h : Host T R W)
      → is_running h ≡ false
      → libtpms.main_init h ≡ r
      → Told (or_backup libtpms ssl r)
  unfolding or_backup
  or_backup-Told (success, h') h off e = laws.main_init_starts h h' e
  or_backup-Told (error c, h') h off e = by_flag h'.make_backup
    where
      still : is_running h' ≡ false
      still = laws.main_init_fails h h' c e ∙ off

      by_flag :
          (b : Bool) → Told (if b then restored libtpms ssl (restore_data h') else (error c, h'))
      by_flag true = restored-Told (restore_data h') (restore_data_keeps h' ∙ still)
      by_flag false = still

  lock_nvram_keeps :
      (b : Bool) (h : Host T R W) → is_running (lock_nvram libtpms ssl b h).1 ≡ is_running h
  unfolding lock_nvram
  lock_nvram_keeps true h = back_keeps h (lock_storage (storage_of h) 0 h.nvram.world)
  lock_nvram_keeps false h = refl

  delete_volatile_keeps :
      (flags : ℕ) (h : Host T R W)
      → is_running (delete_volatile libtpms ssl flags h).1 ≡ is_running h
  unfolding delete_volatile
  delete_volatile_keeps flags h = by_flag (has_flag flags flag_delete_volatile)
    where
      by_flag :
          (b : Bool)
          → is_running (if b then delete_data Name.volatilestate false h else (success, h)).1
            ≡ is_running h
      by_flag true = delete_data_keeps Name.volatilestate false h
      by_flag false = refl

  openssl_code_keeps :
      (r : Bool × Host T R W) → is_running (openssl_code libtpms ssl r).1 ≡ is_running r.1
  unfolding openssl_code
  openssl_code_keeps (true, h) = refl
  openssl_code_keeps (false, h) = refl

  or_terminate-Told :
      (r : Rc × Host T R W) → is_running r.1 ≡ true → Told (or_terminate libtpms ssl r)
  unfolding or_terminate
  or_terminate-Told (success, h) on = on
  or_terminate-Told (error e, h) on = laws.terminate_stops h

  start_running-Told :
      (flags : ℕ) (v : TpmVersion) (lock : Bool) (h : Host T R W)
      → is_running h ≡ true
      → Told (start_running libtpms ssl flags v lock h)
  unfolding start_running
  start_running-Told flags v lock h on = or_terminate-Told _ (
      seq_keeps true (lock_nvram libtpms ssl lock h >>> delete_volatile libtpms ssl flags)
        (λ h. openssl_code libtpms ssl (maybe_configure_openssl ssl v h))
        (seq_keeps true (lock_nvram libtpms ssl lock h) (delete_volatile libtpms ssl flags)
          (lock_nvram_keeps lock h ∙ on) (λ h on. delete_volatile_keeps flags h ∙ on))
        (λ h on.
          openssl_code_keeps (maybe_configure_openssl ssl v h) ∙ laws.openssl_keeps v h ∙ on))

  checked-Ends :
      (wanted : Option (List ℕ)) (flags : ℕ) (v : TpmVersion) (lock : Bool) (h : Host T R W)
      → is_running h ≡ true
      → Ends wanted
          (check_manufactured libtpms ssl wanted h >>> start_running libtpms ssl flags v lock)
  unfolding check_manufactured
  checked-Ends none flags v lock h on = told (start_running-Told flags v lock h on)
  checked-Ends (some profile) flags v lock h on = by_flag (libtpms.was_manufactured h) refl
    where
      by_flag :
          (b : Bool)
          → libtpms.was_manufactured h ≡ b
          → Ends (some profile) (
              (if not b then (error fail, h) else (success, h))
              >>> start_running libtpms ssl flags v lock)
      by_flag true e = told (start_running-Told flags v lock h on)
      by_flag false e = unapplied profile refl refl e on

  set_profile_keeps :
      (wanted : Option (List ℕ)) (h : Host T R W)
      → is_running (set_profile libtpms ssl wanted h).1 ≡ is_running h
  unfolding set_profile
  set_profile_keeps none h = refl
  set_profile_keeps (some profile) h = laws.profile_keeps profile h

  -- tpmlib_start, from where no TPM runs, ends with a running TPM where it gives success, and with none
  -- where it fails, whatever fails and whether or not the backup is tried. There is one exception: where a
  -- profile was to be applied to a TPM 2 that was not manufactured, the TPM runs behind the code TPM_FAIL.
  -- This is for a libtpms whose MainInit and Terminate alone start and stop a TPM.
  pub start-Ends :
      (flags : ℕ) (v : TpmVersion) (lock : Bool) (json_profile : Option (List ℕ)) (h : Host T R W)
      → is_running h ≡ false
      → Ends (profile_for v json_profile) (start libtpms ssl flags v lock json_profile h)
  unfolding start
  start-Ends flags v lock json_profile h off = by_steps (profile_for v json_profile)
    where
      by_steps :
          (wanted : Option (List ℕ))
          → Ends wanted (
              libtpms.choose_tpm_version v h
              >>> set_profile libtpms ssl wanted
              >>> (λ h. or_backup libtpms ssl (libtpms.main_init h))
              >>> check_manufactured libtpms ssl wanted
              >>> start_running libtpms ssl flags v lock)
      by_steps wanted =
          let begun = libtpms.choose_tpm_version v h >>> set_profile libtpms ssl wanted in
          let inited = begun >>> (λ h. or_backup libtpms ssl (libtpms.main_init h)) in
          rw
            (seq_assoc inited (check_manufactured libtpms ssl wanted)
              (start_running libtpms ssl flags v lock))
            (success-Ends wanted inited
              (λ h.
                check_manufactured libtpms ssl wanted h >>> start_running libtpms ssl flags v lock)
              (stopped-Told begun (λ h. or_backup libtpms ssl (libtpms.main_init h))
                (seq_keeps false (libtpms.choose_tpm_version v h) (set_profile libtpms ssl wanted)
                  (laws.choice_keeps v h ∙ off) (λ h off. set_profile_keeps wanted h ∙ off))
                (λ h off. or_backup-Told (libtpms.main_init h) h off refl))
              (λ h on. checked-Ends wanted flags v lock h on))
