-- ===== src/Ctrl/Process.antt =====
-- One command of the control channel: ctrlchannel_process_fd of src/swtpm/ctrlchannel.c.
use Prim.Native.Nat.{bit_or}
use swtpm.Common.{
  ℕ, ◌+◌, ◌-◌, ◌*◌, Bool, true, false, not, ◌&&◌, Option, none, some, List, [], ◌∷◌, ◌++◌, ◌==◌,
  ltb, leb, if◌then◌else◌, length, get_or, take, drop, get32, be32, u32_mod,
}
use swtpm.Common.Result.{
  Rc, success, error, Error, size, bad_parameter, bad_locality, bad_ordinal, ioerror, fail,
}
use swtpm.Nvstore.{has_key}
use swtpm.Host.{Host, nvram_init, store_volatile}
use swtpm.Tpmlib.{is_refused_locality}
use swtpm.Tpmlib.Start.{start}
use swtpm.Ctrl.{
  Command, command_of, cmd_size, Read, Env, CtrlState, get_ptm_caps_supported, code_of,
  ensure_locked, auto_shutdown, terminated,
}
use swtpm.Ctrl.Recv.{Wait, recv_cmd}
use swtpm.Ctrl.Blobs.{return_state, receive_state, hash_all}

-- MAIN_LOOP_FLAG_USE_FD | MAIN_LOOP_FLAG_KEEP_CONNECTION
abbrev pub data_fd_flags : ℕ
data_fd_flags = 6

-- PTM_CONFIG_FLAG_FILE_KEY and PTM_CONFIG_FLAG_MIGRATION_KEY
abbrev pub config_flags : Bool → Bool → ℕ
config_flags file migration = bit_or (if file then 1 else 0) (if migration then 2 else 0)

module _ {T R W : Type 0} (env : Env T R W) where
  -- The commands that answer at once give their response and the state behind them.
  abbrev Answer : Type 0
  Answer = List ℕ × CtrlState T R W

  -- err_bad_input, err_running, err_not_running, err_io, err_memory
  abbrev pub refuse : Error → CtrlState T R W → List ℕ × CtrlState T R W
  refuse e s = (be32 (env.codes e), s)

  -- a response that is a code, and the process behind the call that gave it
  abbrev pub reply : Rc × Host T R W → CtrlState T R W → List ℕ × CtrlState T R W
  reply (rc, h) s = (be32 (code_of env rc), record s { host = h })

  -- a command of no more bytes, on a running TPM
  unfoldable pub on_running :
      List ℕ → (CtrlState T R W → List ℕ × CtrlState T R W) → CtrlState T R W → Answer
  on_running body run s =
      if not s.tpm_running
      then refuse bad_ordinal s
      else if not (length body == 0)
      then refuse bad_parameter s
      else run s

  -- CMD_INIT behind tpmlib_start. A TPM that runs has used the profile.
  unfoldable pub started : Rc × Host T R W → CtrlState T R W → Answer
  started (error e, h) s = (be32 (env.codes e), record s { host = h })
  started (success, h) s = (
    be32 0,
    record s { host = h; tpm_running = true; mlp = record s.mlp { json_profile = none } },
  )

  -- CMD_INIT behind TPMLIB_Terminate
  unfoldable pub start_again : ℕ → CtrlState T R W → Answer
  start_again init_flags s =
      let mlp = record s.mlp { storage_locked = not s.mlp.incoming_migration } in
      let s = record s { mlp = mlp } in
      started
        (start env.libtpms env.ssl init_flags mlp.tpmversion mlp.storage_locked mlp.json_profile
          s.host)
        s

  unfoldable pub init : List ℕ → CtrlState T R W → Answer
  init body s =
      if not (length body == 4)
      then refuse bad_parameter s
      else start_again (get32 body 0) (terminated env (auto_shutdown env s))

  unfoldable pub stop : List ℕ → CtrlState T R W → Answer
  stop body s =
      if not (length body == 0)
      then refuse bad_parameter s
      else (be32 0, terminated env (auto_shutdown env s))

  unfoldable pub shutdown : List ℕ → CtrlState T R W → Answer
  shutdown body s =
      if not (length body == 0)
      then refuse bad_parameter s
      else (be32 0, record (terminated env (auto_shutdown env s)) { terminate = true })

  -- CMD_GET_TPMESTABLISHED: a ptm_est
  unfoldable pub established : CtrlState T R W → Answer
  established s =
      let (rc, established_bit) = env.libtpms.established_get s.host in
      (be32 (code_of env rc) ++ established_bit ∷ 0 ∷ 0 ∷ 0 ∷ [], s)

  -- CMD_RESET_TPMESTABLISHED: the locality is the command's during the call
  unfoldable pub reset_established : List ℕ → CtrlState T R W → Answer
  reset_established body s =
      if not s.tpm_running
      then refuse bad_ordinal s
      else if ltb (length body) 1
      then refuse bad_parameter s
      else if ltb 4 (get_or body 0 0)
      then refuse bad_locality s
      else reply (env.libtpms.established_reset (get_or body 0 0) s.host) s

  unfoldable pub set_locality : List ℕ → CtrlState T R W → Answer
  set_locality body s =
      if ltb (length body) 1
      then refuse bad_parameter s
      else if is_refused_locality s.mlp.locality_flags (get_or body 0 0)
      then refuse bad_locality s
      else (be32 0, record s { locality = get_or body 0 0 })

  unfoldable pub hash_data : List ℕ → List Read → CtrlState T R W → Answer
  hash_data body reads s =
      if not s.tpm_running
      then refuse bad_ordinal s
      else if ltb (length body) 4
      then refuse bad_parameter s
      else if ltb (get32 body 0) (length body - 4)
      then refuse bad_parameter s
      else reply (hash_all env reads (get32 body 0) (drop 4 body) s.host) s

  unfoldable pub get_config : List ℕ → CtrlState T R W → Answer
  get_config body s = if not (length body == 0) then refuse bad_parameter s else (
    be32 0
        ++ be32 (config_flags (has_key s.host.nvram.filekey) (has_key s.host.nvram.migrationkey)),
    s,
  )

  -- CMD_SET_DATAFD with the descriptor that came with the message, if one did
  unfoldable pub take_fd : Option ℕ → Option ℕ → CtrlState T R W → Answer
  take_fd (some fd) passed s = refuse ioerror s
  take_fd none none s = refuse bad_parameter s
  take_fd none (some fd) s = (
    be32 0,
    record s { mlp = record s.mlp { flags = bit_or s.mlp.flags data_fd_flags; fd = some fd } },
  )

  -- CMD_SET_BUFFERSIZE; a size of 0 only asks
  unfoldable pub set_buffersize : List ℕ → CtrlState T R W → Answer
  set_buffersize body s =
      if ltb (length body) 4
      then refuse bad_parameter s
      else if ltb 0 (get32 body 0) && s.tpm_running
      then refuse bad_ordinal s
      else (let ((buffersize, minsize, maxsize), h) =
            env.libtpms.set_buffer_size (get32 body 0) s.host in
          (be32 0 ++ be32 buffersize ++ be32 minsize ++ be32 maxsize, record s { host = h }))

  -- CMD_GET_INFO behind TPMLIB_GetInfo: a part of the string, its final 0 included
  unfoldable pub info_part : Option (List ℕ) → ℕ → CtrlState T R W → Answer
  info_part none offset s = refuse size s
  info_part (some info_data) offset s =
      if leb (length info_data) offset
      then refuse bad_parameter s
      else (let part = take 3072 (drop offset (info_data ++ 0 ∷ [])) in
          (be32 0 ++ be32 (length info_data + 1) ++ be32 (length part) ++ part, s))

  unfoldable pub get_info : List ℕ → CtrlState T R W → Answer
  get_info body s =
      if ltb (length body) 16
      then refuse bad_parameter s
      else info_part (env.libtpms.get_info (get32 body 0 * u32_mod + get32 body 4) s.host)
          (get32 body 8) s

  -- the answer to whether the storage could be locked
  unfoldable pub lock_answer : Bool × CtrlState T R W → Answer
  lock_answer (true, s) = (be32 0, s)
  lock_answer (false, s) = refuse fail s

  unfoldable pub relock : List ℕ → CtrlState T R W → Answer
  relock body s =
      if ltb (length body) 4
      then refuse bad_parameter s
      else lock_answer
          (ensure_locked env (record s { mlp = record s.mlp { locking_retries = get32 body 0 } }))

  module _ (sent : List ℕ → Bool) where
    -- send_resp: what is written, and whether the channel stays open
    abbrev pub respond : List ℕ × CtrlState T R W → (List ℕ × Bool) × CtrlState T R W
    respond (response, s) = ((response, sent response), s)

    unfoldable pub get_stateblob : List ℕ → CtrlState T R W → (List ℕ × Bool) × CtrlState T R W
    get_stateblob body s =
        if not s.tpm_running
        then respond (refuse bad_ordinal s)
        else if ltb (length body) 12
        then respond (refuse bad_parameter s)
        else return_state env sent body s

    -- CMD_SET_STATEBLOB behind mainloop_ensure_locked_storage
    unfoldable pub set_locked :
        List ℕ → List Read → Bool × CtrlState T R W → (List ℕ × Bool) × CtrlState T R W
    set_locked body reads (false, s) = respond (refuse ioerror (record s { terminate = true }))
    set_locked body reads (true, s) =
        let s = record s { terminate = false } in
        if ltb (length body) 12
        then respond (refuse bad_parameter s)
        else receive_state env sent body reads s

    unfoldable pub set_stateblob :
        List ℕ → List Read → CtrlState T R W → (List ℕ × Bool) × CtrlState T R W
    set_stateblob body reads s =
        if s.tpm_running
        then respond (refuse bad_ordinal s)
        else set_locked body reads (
            ensure_locked env
              (record s { host = (nvram_init env.dir_ops env.linear_ops s.host).1 }))

    -- the switch over the commands: the body, what more can be read, and a descriptor that was passed
    unfoldable pub run_command :
        Option Command
        → List ℕ
        → List Read
        → Option ℕ
        → CtrlState T R W
        → (List ℕ × Bool) × CtrlState T R W
    run_command (some Command.get_capability) body reads fd s =
        respond (be32 0 ++ be32 (get_ptm_caps_supported s.mlp.tpmversion), s)
    run_command (some Command.init) body reads fd s = respond (init body s)
    run_command (some Command.shutdown) body reads fd s = respond (shutdown body s)
    run_command (some Command.get_tpmestablished) body reads fd s =
        respond (on_running body established s)
    run_command (some Command.set_locality) body reads fd s = respond (set_locality body s)
    run_command (some Command.hash_start) body reads fd s =
        respond (on_running body (λ s. reply (env.libtpms.hash_start s.locality s.host) s) s)
    run_command (some Command.hash_data) body reads fd s = respond (hash_data body reads s)
    run_command (some Command.hash_end) body reads fd s =
        respond (on_running body (λ s. reply (env.libtpms.hash_end s.host) s) s)
    run_command (some Command.cancel_tpm_cmd) body reads fd s =
        respond (on_running body (λ s. reply (env.libtpms.cancel_command s.host) s) s)
    run_command (some Command.store_volatile) body reads fd s =
        respond (on_running body (λ s. reply (store_volatile env.crypto env.libtpms s.host) s) s)
    run_command (some Command.reset_tpmestablished) body reads fd s =
        respond (reset_established body s)
    run_command (some Command.get_stateblob) body reads fd s = get_stateblob body s
    run_command (some Command.set_stateblob) body reads fd s = set_stateblob body reads s
    run_command (some Command.stop) body reads fd s = respond (stop body s)
    run_command (some Command.get_config) body reads fd s = respond (get_config body s)
    run_command (some Command.set_datafd) body reads fd s = respond (take_fd s.mlp.fd fd s)
    run_command (some Command.set_buffersize) body reads fd s = respond (set_buffersize body s)
    run_command (some Command.get_info) body reads fd s = respond (get_info body s)
    run_command (some Command.lock_storage) body reads fd s = respond (relock body s)
    run_command none body reads fd s = respond (refuse bad_ordinal s)

    -- ctrlchannel_process_fd for what was received; `none` closes the channel
    unfoldable pub run_input :
        Option (List ℕ) → List Read → Option ℕ → CtrlState T R W → (List ℕ × Bool) × CtrlState T R W
    run_input none reads fd s = (([], false), s)
    run_input (some input) reads fd s =
        if ltb (length input) cmd_size
        then respond (refuse bad_parameter s)
        else run_command (command_of (get32 input 0)) (drop cmd_size input) reads fd s

    -- ctrlchannel_process_fd
    unfoldable pub process_fd :
        List (List ℕ × Wait)
        → List Read
        → Option ℕ
        → CtrlState T R W
        → (List ℕ × Bool) × CtrlState T R W
    process_fd pieces reads fd s = run_input (recv_cmd pieces) reads fd s
