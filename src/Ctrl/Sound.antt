-- ===== src/Ctrl/Sound.antt =====
-- What every command of src/swtpm/ctrlchannel.c keeps of the state: the locality that may be set,
-- and the flag that tells whether the TPM runs.
use swtpm.Common.{
  ℕ, ◌≤◌, ◌≡◌, refl, ◌∙◌, Bool, true, false, Option, none, some, List, [], ◌∷◌, ◌-◌, ◌==◌, min,
  take, if_both, length,
}
use swtpm.Common.Result.{Rc, success, error, Result, ok, err}
use swtpm.Linear.{Name}
use swtpm.Nvstore.{has_flag}
use swtpm.Mainloop.{MainLoopParams, after_lock, ensure_locked_storage, lock_storage}
use swtpm.Host.{
  Host, BackendOps, storage_of, with_world, delete_by, delete_data, store_by, store_state,
  store_result, store_volatile, get_blob_by, get_blob,
}
use swtpm.Tpmlib.{flag_reject_locality_4}
use swtpm.Tpmlib.Running.{RunLaws}
use swtpm.Ctrl.{Read, bytes_of, Env, CtrlState, ensure_locked}
use swtpm.Ctrl.Blobs.{
  stored_first, blob_behind, without_volatile, named_state, hash_data_size, hash_rest, hash_all,
}

-- A locality of 0 to 4, and not 4 where that is rejected.
pub record IsAllowed (locality locality_flags : ℕ) : Type 0 where
  pub in_range : locality ≤ 4
  pub not_rejected : locality ≡ 4 → has_flag locality_flags flag_reject_locality_4 ≡ false

-- The calls of libtpms that neither start nor stop a TPM.
pub record CallLaws {T R W : Type 0} (env : Env T R W) : Type 0 where
  pub starting : RunLaws env.libtpms env.ssl
  pub volatile_keeps :
      (h : Host T R W)
      → starting.runs (env.libtpms.volatile_all_store h).1.tpm ≡ starting.runs h.tpm
  pub reset_keeps :
      (l : ℕ) (h : Host T R W)
      → starting.runs (env.libtpms.established_reset l h).1.tpm ≡ starting.runs h.tpm
  pub hash_start_keeps :
      (l : ℕ) (h : Host T R W)
      → starting.runs (env.libtpms.hash_start l h).1.tpm ≡ starting.runs h.tpm
  pub hash_data_keeps :
      (bytes : List ℕ) (h : Host T R W)
      → starting.runs (env.libtpms.hash_data bytes h).1.tpm ≡ starting.runs h.tpm
  pub hash_end_keeps :
      (h : Host T R W) → starting.runs (env.libtpms.hash_end h).1.tpm ≡ starting.runs h.tpm
  pub cancel_keeps :
      (h : Host T R W) → starting.runs (env.libtpms.cancel_command h).1.tpm ≡ starting.runs h.tpm
  pub buffer_keeps :
      (n : ℕ) (h : Host T R W)
      → starting.runs (env.libtpms.set_buffer_size n h).1.tpm ≡ starting.runs h.tpm

module _ {T R W : Type 0} (env : Env T R W) (laws : CallLaws env) where
  abbrev pub runs : Host T R W → Bool
  runs h = laws.starting.runs h.tpm

  -- The locality is allowed, and where *tpm_running is set libtpms has a running TPM.
  pub record IsSound (s : CtrlState T R W) : Type 0 where
    pub allowed : IsAllowed s.locality s.mlp.locality_flags
    pub truth : s.tpm_running ≡ true → runs s.host ≡ true

  pub host-IsSound :
      (s : CtrlState T R W) (h : Host T R W)
      → IsSound s
      → runs h ≡ runs s.host
      → IsSound (record s { host = h })
  host-IsSound s h sound e = record { allowed = sound.allowed; truth = λ on. e ∙ sound.truth on }

  -- a process in which the TPM does not run
  pub idle-IsSound :
      (s : CtrlState T R W) (h : Host T R W)
      → IsSound s
      → s.tpm_running ≡ false
      → IsSound (record s { host = h })
  idle-IsSound s h sound off = record { allowed = sound.allowed; truth = λ on. cc }

  pub locked-IsSound :
      (s : CtrlState T R W) (r : Bool × MainLoopParams × W)
      → IsSound s
      → r.1.locality_flags ≡ s.mlp.locality_flags
      → IsSound (record s { mlp = r.1; host = with_world s.host r.2 })
  locked-IsSound s r sound e = record { allowed = rw e sound.allowed; truth = sound.truth }

  after_lock_flags :
      (mlp : MainLoopParams) (r : Rc × W) → (after_lock mlp r).1.locality_flags ≡ mlp.locality_flags
  unfolding after_lock
  after_lock_flags mlp (success, w) = refl
  after_lock_flags mlp (error e, w) = refl

  pub ensure_locked-IsSound : (s : CtrlState T R W) → IsSound s → IsSound (ensure_locked env s).1
  unfolding ensure_locked_storage
  ensure_locked-IsSound s sound =
      locked-IsSound s (ensure_locked_storage (storage_of s.host) s.mlp s.host.nvram.world) sound (
        if_both (λ (r : Bool × MainLoopParams × W). r.1.locality_flags ≡ s.mlp.locality_flags)
          s.mlp.storage_locked refl
          (after_lock_flags s.mlp
            (lock_storage (storage_of s.host) s.mlp.locking_retries s.host.nvram.world)))

  -- The functions on states of src/swtpm/swtpm_nvstore.c leave the TPM as it is.
  delete_data_runs :
      (name : Name) (b : Bool) (h : Host T R W) → runs (delete_data name b h).1 ≡ runs h
  unfolding delete_data delete_by
  delete_data_runs name b h = by_ops h.ops
    where
      by_ops : (ops : Option (BackendOps W)) → runs (delete_by ops name b h).1 ≡ runs h
      by_ops none = refl
      by_ops (some ops) = refl

  store_result_runs :
      (r : Result (List ℕ)) (h : Host T R W)
      → runs (store_result env.crypto env.libtpms r h).1 ≡ runs h
  unfolding store_result store_state store_by
  store_result_runs (err e) h = refl
  store_result_runs (ok bytes) h = by_ops h.ops
    where
      by_ops :
          (ops : Option (BackendOps W))
          → runs (store_by env.crypto ops bytes Name.volatilestate h).1 ≡ runs h
      by_ops none = refl
      by_ops (some ops) = refl

  pub store_volatile_runs :
      (h : Host T R W) → runs (store_volatile env.crypto env.libtpms h).1 ≡ runs h
  unfolding store_volatile
  store_volatile_runs h =
      let r = env.libtpms.volatile_all_store h in store_result_runs r.0 r.1 ∙ laws.volatile_keeps h

  get_blob_runs :
      (name : Name) (b : Bool) (h : Host T R W) → runs (get_blob env.crypto name b h).1 ≡ runs h
  unfolding get_blob get_blob_by
  get_blob_runs name b h = by_ops h.ops
    where
      by_ops : (ops : Option (BackendOps W)) → runs (get_blob_by env.crypto ops name b h).1 ≡ runs h
      by_ops none = refl
      by_ops (some ops) = refl

  blob_behind_runs :
      (name : Name) (b : Bool) (r : Rc × Host T R W) → runs (blob_behind env name b r).1 ≡ runs r.1
  unfolding blob_behind
  blob_behind_runs name b (success, h) = get_blob_runs name b h
  blob_behind_runs name b (error e, h) = refl

  pub named_state_runs :
      (name : Option Name) (b : Bool) (h : Host T R W) → runs (named_state env name b h).1 ≡ runs h
  unfolding named_state stored_first without_volatile
  named_state_runs none b h = refl
  named_state_runs (some Name.permall) b h = blob_behind_runs Name.permall b (success, h)
  named_state_runs (some Name.savestate) b h = blob_behind_runs Name.savestate b (success, h)
  named_state_runs (some Name.other) b h = blob_behind_runs Name.other b (success, h)
  named_state_runs (some Name.volatilestate) b h =
      delete_data_runs Name.volatilestate false _
      ∙ blob_behind_runs Name.volatilestate b (store_volatile env.crypto env.libtpms h)
      ∙ store_volatile_runs h

  hash_rest_runs :
      (reads : List Read) (remain : ℕ) (r : Rc × Host T R W)
      → runs (hash_rest env reads remain r).1 ≡ runs r.1
  unfolding hash_rest
  hash_rest_runs reads remain (error e, h) = refl
  hash_rest_runs [] remain (success, h) =
      if_both (λ (r : Rc × Host T R W). runs r.1 ≡ runs h) (remain == 0) refl refl
  hash_rest_runs (read ∷ reads) remain (success, h) =
      let bytes = take (min remain hash_data_size) (bytes_of read) in
      if_both (λ (r : Rc × Host T R W). runs r.1 ≡ runs h) (remain == 0) refl
        (if_both (λ (r : Rc × Host T R W). runs r.1 ≡ runs h) (length bytes == 0) refl
          (hash_rest_runs reads (remain - length bytes) (env.libtpms.hash_data bytes h)
            ∙ laws.hash_data_keeps bytes h))

  pub hash_all_runs :
      (reads : List Read) (remain : ℕ) (bytes : List ℕ) (h : Host T R W)
      → runs (hash_all env reads remain bytes h).1 ≡ runs h
  unfolding hash_all
  hash_all_runs reads remain bytes h =
      hash_rest_runs reads (remain - length bytes) (env.libtpms.hash_data bytes h)
      ∙ laws.hash_data_keeps bytes h
