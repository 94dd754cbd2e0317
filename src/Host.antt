-- ===== src/Host.antt =====
-- swtpm between libtpms and a backend: the statics of src/swtpm/swtpm_nvstore.c and of
-- src/swtpm/tpmstate.c, the functions of the former that call the backend through
-- g_nvram_backend_ops, and the calls of libtpms.
pub mod Samples
use swtpm.Common.{
  ℕ, Bool, true, false, ◌&&◌, Option, none, some, List, [], ◌∷◌, ◌==◌, if◌then◌else◌, replicate,
}
use swtpm.Common.Result.{Rc, success, error, Error, Result, ok, err, fail}
use swtpm.Crypto.{Crypto}
use swtpm.Linear.{Name}
use swtpm.Aes.{SymmetricKeyData}
use swtpm.Nvstore.{EncryptionKey, EncryptionMode}
use swtpm.Nvstore.Blob.{
  Backend, Nvram, StateType, store_data_intern, get_state_blob, set_state_blob,
}
use swtpm.Mainloop.{LockOps, Storage}
use swtpm.Tpmlib.{TpmVersion}

-- `struct nvram_backend_ops` over the states W of all backends. The URI, which stays the same, is
-- an argument of `prepare` and `lock` only; `none` is a NULL pointer.
pub record BackendOps (W : Type 0) : Type 0 where
  pub prepare : List ℕ → W → Rc × W
  pub locks : LockOps W
  pub files : Backend W
  pub delete : Name → Bool → W → Rc × W
  pub restore_backup_pre_start : Option (W → Rc × W)
  pub restore_backup : Option (W → Rc × W)
  pub cleanup : W → W

-- The statics of tpmstate.c, g_nvram_backend_ops, the statics of swtpm_nvstore.c with the backends'
-- states, and the state T of libtpms.
pub record Host (T R W : Type 0) : Type 0 where
  pub locking : Bool
  pub make_backup : Bool
  pub backend_uri : Option (List ℕ)
  pub ops : Option (BackendOps W)
  pub nvram : Nvram R W
  pub tpm : T

-- libtpms, over the states X of the process: its functions call back. A callback reads the
-- locality, which is the first argument of the functions that ask for it. A code and what is
-- written through pointers are a Result or a Rc with more.
pub record Libtpms (X : Type 0) : Type 0 where
  pub choose_tpm_version : TpmVersion → X → Rc × X
  pub set_profile : List ℕ → X → Rc × X
  pub main_init : X → Rc × X
  pub was_manufactured : X → Bool
  pub terminate : X → X
  pub run_command : ℕ → List ℕ → X → Rc × List ℕ × X
  pub volatile_all_store : X → Result (List ℕ) × X
  pub established_get : X → Rc × ℕ
  pub established_reset : ℕ → X → Rc × X
  pub hash_start : ℕ → X → Rc × X
  pub hash_data : List ℕ → X → Rc × X
  pub hash_end : X → Rc × X
  pub cancel_command : X → Rc × X
  pub set_buffer_size : ℕ → X → (ℕ × ℕ × ℕ) × X
  pub get_info : ℕ → X → Option (List ℕ)

-- strncmp(uri, prefix, strlen(prefix)) == 0
unfoldable pub starts_with : List ℕ → List ℕ → Bool
starts_with [] uri = true
starts_with (p ∷ ps) [] = false
starts_with (p ∷ ps) (c ∷ uri) = (p == c) && starts_with ps uri

-- "dir://" and "file://"
abbrev pub dir_scheme : List ℕ
dir_scheme = 100 ∷ 105 ∷ 114 ∷ 58 ∷ 47 ∷ 47 ∷ []

abbrev pub file_scheme : List ℕ
file_scheme = 102 ∷ 105 ∷ 108 ∷ 101 ∷ 58 ∷ 47 ∷ 47 ∷ []

-- a key of zeros
abbrev pub no_key : EncryptionKey
no_key = record {
  data_encmode = EncryptionMode.unknown;
  symkey = record { user_key = replicate 32 0; user_key_length = 0 };
}

module _ {W : Type 0} where
  -- the part of the backend that the lock needs
  abbrev pub locks_of : Option (BackendOps W) → Option (LockOps W)
  locks_of none = none
  locks_of (some ops) = some ops.locks

  -- SWTPM_NVRAM_Shutdown: the backend's cleanup, where there is one
  unfoldable pub cleaned : Option (BackendOps W) → W → W
  cleaned none w = w
  cleaned (some ops) w = ops.cleanup w

module _ {T R W : Type 0} where
  -- what tells of the lock
  abbrev pub storage_of : Host T R W → Storage W
  storage_of h = record {
    locking = h.locking;
    backend = locks_of h.ops;
    backend_uri = h.backend_uri;
  }

  abbrev pub with_world : Host T R W → W → Host T R W
  with_world h w = record h { nvram = record h.nvram { world = w } }

  -- a call of a backend, with its code
  abbrev pub back : Host T R W → Rc × W → Rc × Host T R W
  back h (rc, w) = (rc, with_world h w)

  -- SWTPM_NVRAM_RestoreBackup where there is a backend
  unfoldable pub restore_with : Option (W → Rc × W) → Host T R W → Rc × Host T R W
  restore_with none h = (error fail, h)
  restore_with (some restore) h = back h (restore h.nvram.world)

  -- The functions read g_nvram_backend_ops unchecked; a call with no backend, which ends the
  -- process, gives TPM_FAIL here.
  unfoldable pub restore_by : Option (BackendOps W) → Host T R W → Rc × Host T R W
  unfolding restore_with
  restore_by none h = (error fail, h)
  restore_by (some ops) h = restore_with ops.restore_backup h

  -- SWTPM_NVRAM_RestoreBackup
  unfoldable pub restore_data : Host T R W → Rc × Host T R W
  restore_data h = restore_by h.ops h

  unfoldable pub delete_by : Option (BackendOps W) → Name → Bool → Host T R W → Rc × Host T R W
  delete_by none name must_exist h = (error fail, h)
  delete_by (some ops) name must_exist h = back h (ops.delete name must_exist h.nvram.world)

  -- SWTPM_NVRAM_DeleteName
  unfoldable pub delete_data : Name → Bool → Host T R W → Rc × Host T R W
  delete_data name must_exist h = delete_by h.ops name must_exist h

  -- SWTPM_NVRAM_Shutdown
  unfoldable pub nvram_shutdown : Host T R W → Host T R W
  nvram_shutdown h = record h {
    nvram = record h.nvram {
      world = cleaned h.ops h.nvram.world;
      filekey = no_key;
      migrationkey = no_key;
    };
  }

  unfoldable pub pre_start_with : Option (W → Rc × W) → Host T R W → Rc × Host T R W
  pre_start_with none h = (success, h)
  pre_start_with (some restore) h = back h (restore h.nvram.world)

  -- SWTPM_NVRAM_Init behind prepare
  unfoldable pub pre_start : BackendOps W → Rc × Host T R W → Rc × Host T R W
  pre_start ops (error e, h) = (error e, h)
  pre_start ops (success, h) =
      if h.make_backup then pre_start_with ops.restore_backup_pre_start h else (success, h)

  -- and for the backend that the URI names
  unfoldable pub init_with : BackendOps W → List ℕ → Host T R W → Rc × Host T R W
  init_with ops uri h =
      let h' = record h { ops = some ops } in
      pre_start ops (back h' (ops.prepare uri h'.nvram.world))

  -- `dir_ops` is nvram_dir_ops and `linear_ops` is nvram_linear_ops
  module _ (dir_ops linear_ops : BackendOps W) where
    unfoldable pub init_uri : Option (List ℕ) → Host T R W → Rc × Host T R W
    init_uri none h = (error fail, h)
    init_uri (some uri) h =
        if starts_with dir_scheme uri
        then init_with dir_ops uri h
        else if starts_with file_scheme uri
        then init_with linear_ops uri h
        else (error fail, h)

    -- SWTPM_NVRAM_Init
    unfoldable pub nvram_init : Host T R W → Rc × Host T R W
    nvram_init h = init_uri h.backend_uri h

  module _ (crypto : Crypto R) where
    unfoldable pub store_by : Option (BackendOps W) → List ℕ → Name → Host T R W → Rc × Host T R W
    store_by none bytes name h = (error fail, h)
    store_by (some ops) bytes name h =
        let (rc, nvram) = store_data_intern crypto ops.files bytes name true h.nvram in
        (rc, record h { nvram = nvram })

    -- SWTPM_NVRAM_StoreData
    unfoldable pub store_state : List ℕ → Name → Host T R W → Rc × Host T R W
    store_state bytes name h = store_by h.ops bytes name h

    unfoldable pub get_blob_by :
        Option (BackendOps W) → Name → Bool → Host T R W → Result (List ℕ × Bool) × Host T R W
    get_blob_by none name decrypt h = (err fail, h)
    get_blob_by (some ops) name decrypt h =
        let (blob, nvram) = get_state_blob crypto ops.files name decrypt h.nvram in
        (blob, record h { nvram = nvram })

    -- SWTPM_NVRAM_GetStateBlob
    unfoldable pub get_blob : Name → Bool → Host T R W → Result (List ℕ × Bool) × Host T R W
    get_blob name decrypt h = get_blob_by h.ops name decrypt h

    -- SWTPM_NVRAM_SetStateBlob, over the whole state
    unfoldable pub set_blob :
        (StateType → Option (List ℕ) → T → Rc × T)
        → List ℕ
        → Bool
        → ℕ
        → Host T R W
        → Rc × Host T R W
    set_blob set_state bytes is_encrypted blobtype h =
        let (rc, t) = set_state_blob crypto set_state bytes is_encrypted blobtype h.nvram h.tpm in
        (rc, record h { tpm = t })

    module _ (libtpms : Libtpms (Host T R W)) where
      -- behind TPMLIB_VolatileAll_Store
      unfoldable pub store_result : Result (List ℕ) → Host T R W → Rc × Host T R W
      store_result (err e) h = (error e, h)
      store_result (ok buffer) h = store_state buffer Name.volatilestate h

      -- SWTPM_NVRAM_Store_Volatile
      unfoldable pub store_volatile : Host T R W → Rc × Host T R W
      store_volatile h = let (buffer, h') = libtpms.volatile_all_store h in store_result buffer h'
