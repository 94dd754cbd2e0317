-- ===== src/Tpmlib/Start.antt =====
-- Starting libtpms: tpmlib_start of src/swtpm/tpmlib.c.
use swtpm.Common.{ℕ, Bool, true, false, not, Option, none, some, List, if◌then◌else◌}
use swtpm.Common.Result.{Rc, success, error, fail, ◌>>>◌}
use swtpm.Linear.{Name}
use swtpm.Nvstore.{has_flag}
use swtpm.Mainloop.{lock_storage}
use swtpm.Host.{Host, Libtpms, storage_of, back, restore_data, delete_data}
use swtpm.Tpmlib.{TpmVersion}
use swtpm.Tpmlib.Openssl.{Openssl, maybe_configure_openssl}

-- PTM_INIT_FLAG_DELETE_VOLATILE
abbrev pub flag_delete_volatile : ℕ
flag_delete_volatile = 1

-- json_profile != NULL && tpmversion == TPMLIB_TPM_VERSION_2
unfoldable pub profile_for : TpmVersion → Option (List ℕ) → Option (List ℕ)
profile_for TpmVersion.tpm_1_2 json_profile = none
profile_for TpmVersion.tpm_2 json_profile = json_profile

module _ {T R W : Type 0} (libtpms : Libtpms (Host T R W)) (ssl : Openssl (Host T R W)) where
  -- TPMLIB_SetProfile where there is a profile
  unfoldable pub set_profile : Option (List ℕ) → Host T R W → Rc × Host T R W
  set_profile none h = (success, h)
  set_profile (some profile) h = libtpms.set_profile profile h

  -- the second TPMLIB_MainInit; a second call of RestoreBackup reverts the first
  unfoldable pub with_backup : Rc × Host T R W → Rc × Host T R W
  with_backup (success, h) = (success, h)
  with_backup (error e, h) = (error e, (restore_data h).1)

  unfoldable pub restored : Rc × Host T R W → Rc × Host T R W
  restored (error e, h) = (error e, h)
  restored (success, h) = with_backup (libtpms.main_init h)

  -- the first TPMLIB_MainInit, and the backup where it fails
  unfoldable pub or_backup : Rc × Host T R W → Rc × Host T R W
  or_backup (success, h) = (success, h)
  or_backup (error e, h) = if h.make_backup then restored (restore_data h) else (error e, h)

  -- a profile is for a TPM that is manufactured now
  unfoldable pub check_manufactured : Option (List ℕ) → Host T R W → Rc × Host T R W
  check_manufactured none h = (success, h)
  check_manufactured (some profile) h =
      if not (libtpms.was_manufactured h) then (error fail, h) else (success, h)

  unfoldable pub lock_nvram : Bool → Host T R W → Rc × Host T R W
  lock_nvram false h = (success, h)
  lock_nvram true h = back h (lock_storage (storage_of h) 0 h.nvram.world)

  unfoldable pub delete_volatile : ℕ → Host T R W → Rc × Host T R W
  delete_volatile flags h =
      if has_flag flags flag_delete_volatile
      then delete_data Name.volatilestate false h
      else (success, h)

  -- TPM_FAIL where OpenSSL cannot be configured
  unfoldable pub openssl_code : Bool × Host T R W → Rc × Host T R W
  openssl_code (true, h) = (success, h)
  openssl_code (false, h) = (error fail, h)

  -- error_terminate
  unfoldable pub or_terminate : Rc × Host T R W → Rc × Host T R W
  or_terminate (success, h) = (success, h)
  or_terminate (error e, h) = (error e, libtpms.terminate h)

  -- the steps that a failure of undoes TPMLIB_MainInit
  unfoldable pub start_running : ℕ → TpmVersion → Bool → Host T R W → Rc × Host T R W
  start_running flags tpmversion lock h = or_terminate (
      lock_nvram lock h >>> delete_volatile flags >>> λ h.
      openssl_code (maybe_configure_openssl ssl tpmversion h))

  -- tpmlib_start
  unfoldable pub start : ℕ → TpmVersion → Bool → Option (List ℕ) → Host T R W → Rc × Host T R W
  start flags tpmversion lock json_profile h =
      libtpms.choose_tpm_version tpmversion h
      >>> set_profile (profile_for tpmversion json_profile)
      >>> (λ h. or_backup (libtpms.main_init h))
      >>> check_manufactured (profile_for tpmversion json_profile)
      >>> start_running flags tpmversion lock
