-- ===== src/Mainloop.antt =====
-- The lock of the storage: src/swtpm/mainloop.c and the lock calls of src/swtpm/swtpm_nvstore.c.
-- `tpmstate` says whether locking was asked for, and names the backend's URI.
pub mod Locked
pub mod Request
pub mod Served
pub mod Handled
mod Tests
use swtpm.Common.{ℕ, Bool, true, false, Option, none, some, List, if◌then◌else◌}
use swtpm.Tpmlib.{TpmVersion}
use swtpm.Common.Result.{Rc, success, error, Error, fail, retry}

-- The lock and unlock operations of `struct nvram_backend_ops` over the states W of a backend.
pub record LockOps (W : Type 0) : Type 0 where
  pub lock : List ℕ → ℕ → W → Rc × W
  pub unlock : W → W

-- tpmstate_get_locking, g_nvram_backend_ops (`none` is NULL) and tpmstate_get_backend_uri
pub record Storage (W : Type 0) : Type 0 where
  pub locking : Bool
  pub backend : Option (LockOps W)
  pub backend_uri : Option (List ℕ)

-- `struct mainLoopParams` as far as the lock, the control channel and the commands of a TPM use it.
-- A descriptor of -1 is `none`.
pub record MainLoopParams : Type 0 where
  pub flags : ℕ
  pub fd : Option ℕ
  pub locality_flags : ℕ
  pub tpmversion : TpmVersion
  pub last_command : ℕ
  pub disable_auto_shutdown : Bool
  pub json_profile : Option (List ℕ)
  pub storage_locked : Bool
  pub incoming_migration : Bool
  pub locking_retries : ℕ

-- res == TPM_RETRY
abbrev pub is_retry : Error → Bool
is_retry retry = true
is_retry e = false

module _ {W : Type 0} where
  -- Lock_Storage for a backend and a URI that may be missing
  unfoldable pub lock_with : Option (LockOps W) → Option (List ℕ) → ℕ → W → Rc × W
  lock_with none uri retries w = (error retry, w)
  lock_with (some ops) none retries w = (error fail, w)
  lock_with (some ops) (some uri) retries w = ops.lock uri retries w

  -- SWTPM_NVRAM_Lock_Storage
  unfoldable pub lock_storage : Storage W → ℕ → W → Rc × W
  unfolding lock_with
  lock_storage st retries w =
      if st.locking then lock_with st.backend st.backend_uri retries w else (success, w)

  -- the backend's unlock; the code calls it only where there is a backend
  unfoldable pub unlock_with : Option (LockOps W) → W → W
  unlock_with none w = w
  unlock_with (some ops) w = ops.unlock w

  -- SWTPM_NVRAM_Unlock
  unfoldable pub unlock_storage : Storage W → W → W
  unfolding unlock_with
  unlock_storage st w = if st.locking then unlock_with st.backend w else w

  -- mainloop_ensure_locked_storage behind the lock
  unfoldable pub after_lock : MainLoopParams → Rc × W → Bool × MainLoopParams × W
  after_lock mlp (success, w) = (
    true,
    record mlp { storage_locked = true; incoming_migration = false; locking_retries = 0 },
    w,
  )
  after_lock mlp (error e, w) = (is_retry e, mlp, w)

  -- mainloop_ensure_locked_storage
  unfoldable pub ensure_locked_storage : Storage W → MainLoopParams → W → Bool × MainLoopParams × W
  ensure_locked_storage st mlp w =
      if mlp.storage_locked
      then (true, mlp, w)
      else after_lock mlp (lock_storage st mlp.locking_retries w)

  -- mainloop_unlock_nvram
  unfoldable pub unlock_nvram : Storage W → MainLoopParams → ℕ → W → MainLoopParams × W
  unlock_nvram st mlp locking_retries w = (
    record mlp { storage_locked = false; locking_retries = locking_retries },
    unlock_storage st w,
  )
