-- ===== src/Ctrl/Sessions.antt =====
-- Sequences of commands on the control channel of src/swtpm/ctrlchannel.c.
use swtpm.Common.{
  ℕ, ◌+◌, ◌*◌, u32_mod, ◌≡◌, Bool, true, false, not, ◌&&◌, ◌==◌, ltb, Option, none, some, List,
  if_both, if_cases, length, get32, drop,
}
use swtpm.Common.Result.{Rc}
use swtpm.Mainloop.{unlock_nvram}
use swtpm.Host.{Host, nvram_init, store_volatile}
use swtpm.Tpmlib.{get_blobname}
use swtpm.Nvstore.{has_flag}
use swtpm.Ctrl.{Command, command_of, Read, Env, CtrlState, ensure_locked, unlocked}
use swtpm.Ctrl.Recv.{Wait, recv_cmd}
use swtpm.Ctrl.Blobs.{
  default_locking_retries, getstate_response, named_state, received_state, return_state,
  receive_response, receive_state,
}
use swtpm.Ctrl.Process.{
  reply, stop, shutdown, established, get_config, get_info, relock, get_stateblob, set_locked,
  set_stateblob, run_command, run_input, process_fd,
}
use swtpm.Ctrl.Commands.{
  reply-IsSound, on_running-IsSound, terminated-IsIdle, init-IsSound, reset_established-IsSound,
  set_locality-IsSound, hash_data-IsSound, take_fd-IsSound, set_buffersize-IsSound,
  info_part-IsSound, lock_answer-IsSound, unlocked_truth,
}
use swtpm.Ctrl.Sound.{
  CallLaws, IsSound, host-IsSound, idle-IsSound, ensure_locked-IsSound, store_volatile_runs,
  named_state_runs,
}

module _ {T R W : Type 0} (env : Env T R W) (laws : CallLaws env) where
  abbrev Sound : CtrlState T R W → Type 0
  Sound = IsSound env laws

  abbrev Answered : List ℕ × CtrlState T R W → Type 0
  Answered a = Sound a.1

  module _ (sent : List ℕ → Bool) where
    abbrev Responded : (List ℕ × Bool) × CtrlState T R W → Type 0
    Responded a = Sound a.1

    get_stateblob-IsSound :
        (body : List ℕ) (s : CtrlState T R W) → Sound s → Responded (get_stateblob env sent body s)
    unfolding get_stateblob return_state unlock_nvram
    get_stateblob-IsSound body s sound = if_both Responded (not s.tpm_running) sound (
        if_both Responded (ltb (length body) 12) sound (
          let state =
            named_state env (get_blobname (get32 body 4)) (has_flag (get32 body 0) 1) s.host in
          let s' = record s { host = state.1 } in
          let sound' : Sound s' = host-IsSound env laws s state.1 sound (
            named_state_runs env laws (get_blobname (get32 body 4)) (has_flag (get32 body 0) 1)
              s.host) in
          if_both Sound
            (sent (getstate_response env (get32 body 8) state.0.0 state.0.1) && (get32 body 4 == 3))
            {x = unlocked env default_locking_retries s'}
            (record { allowed = sound'.allowed; truth = unlocked_truth env laws s' sound' })
            sound'))

    receive_response-IsSound :
        (r : Option Rc × Host T R W) (s : CtrlState T R W)
        → Sound s
        → s.tpm_running ≡ false
        → Responded (receive_response env sent r s)
    unfolding receive_response
    receive_response-IsSound (none, h) s sound off = idle-IsSound env laws s h sound off
    receive_response-IsSound (some rc, h) s sound off = idle-IsSound env laws s h sound off

    set_locked-IsSound :
        (body : List ℕ) (reads : List Read) (r : Bool × CtrlState T R W)
        → Sound r.1
        → r.1.tpm_running ≡ false
        → Responded (set_locked env sent body reads r)
    unfolding set_locked receive_state
    set_locked-IsSound body reads (false, s) sound off = record {
      allowed = sound.allowed;
      truth = sound.truth;
    }
    set_locked-IsSound body reads (true, s) sound off =
        let s' = record s { terminate = false } in
        let sound' : Sound s' = record { allowed = sound.allowed; truth = sound.truth } in
        if_both Responded (ltb (length body) 12) sound'
          (receive_response-IsSound (received_state env body reads s'.host) s' sound' off)

    set_stateblob-IsSound :
        (body : List ℕ) (reads : List Read) (s : CtrlState T R W)
        → Sound s
        → Responded (set_stateblob env sent body reads s)
    unfolding set_stateblob
    set_stateblob-IsSound body reads s sound =
        let h = (nvram_init env.dir_ops env.linear_ops s.host).1 in
        let s' = record s { host = h } in
        if_cases Responded s.tpm_running (λ on. sound)
          (λ off.
            set_locked-IsSound body reads (ensure_locked env s')
              (ensure_locked-IsSound env laws s' (idle-IsSound env laws s h sound off)) off)

    run_command-IsSound :
        (command : Option Command) (body : List ℕ) (reads : List Read) (fd : Option ℕ)
        (s : CtrlState T R W)
        → Sound s
        → Responded (run_command env sent command body reads fd s)
    unfolding run_command shutdown stop established get_config get_info relock
    run_command-IsSound none body reads fd s sound = sound
    run_command-IsSound (some Command.get_capability) body reads fd s sound = sound
    run_command-IsSound (some Command.init) body reads fd s sound =
        init-IsSound env laws body s sound
    run_command-IsSound (some Command.shutdown) body reads fd s sound =
        let idle = terminated-IsIdle env laws s sound in
        if_both Answered (not (length body == 0)) sound
          (record { allowed = idle.sound.allowed; truth = idle.sound.truth })
    run_command-IsSound (some Command.stop) body reads fd s sound =
        if_both Answered (not (length body == 0)) sound (terminated-IsIdle env laws s sound).sound
    run_command-IsSound (some Command.get_tpmestablished) body reads fd s sound =
        on_running-IsSound env laws body (established env) s sound sound
    run_command-IsSound (some Command.set_locality) body reads fd s sound =
        set_locality-IsSound env laws body s sound
    run_command-IsSound (some Command.hash_start) body reads fd s sound =
        on_running-IsSound env laws body
          (λ s. reply env (env.libtpms.hash_start s.locality s.host) s) s sound
          (reply-IsSound env laws (env.libtpms.hash_start s.locality s.host) s sound
            (laws.hash_start_keeps s.locality s.host))
    run_command-IsSound (some Command.hash_data) body reads fd s sound =
        hash_data-IsSound env laws body reads s sound
    run_command-IsSound (some Command.hash_end) body reads fd s sound =
        on_running-IsSound env laws body (λ s. reply env (env.libtpms.hash_end s.host) s) s sound
          (reply-IsSound env laws (env.libtpms.hash_end s.host) s sound
            (laws.hash_end_keeps s.host))
    run_command-IsSound (some Command.cancel_tpm_cmd) body reads fd s sound =
        on_running-IsSound env laws body (λ s. reply env (env.libtpms.cancel_command s.host) s) s
          sound
          (reply-IsSound env laws (env.libtpms.cancel_command s.host) s sound
            (laws.cancel_keeps s.host))
    run_command-IsSound (some Command.store_volatile) body reads fd s sound =
        on_running-IsSound env laws body
          (λ s. reply env (store_volatile env.crypto env.libtpms s.host) s) s sound
          (reply-IsSound env laws (store_volatile env.crypto env.libtpms s.host) s sound
            (store_volatile_runs env laws s.host))
    run_command-IsSound (some Command.reset_tpmestablished) body reads fd s sound =
        reset_established-IsSound env laws body s sound
    run_command-IsSound (some Command.get_stateblob) body reads fd s sound =
        get_stateblob-IsSound body s sound
    run_command-IsSound (some Command.set_stateblob) body reads fd s sound =
        set_stateblob-IsSound body reads s sound
    run_command-IsSound (some Command.get_config) body reads fd s sound =
        if_both Answered (not (length body == 0)) sound sound
    run_command-IsSound (some Command.set_datafd) body reads fd s sound =
        take_fd-IsSound env laws s.mlp.fd fd s sound
    run_command-IsSound (some Command.set_buffersize) body reads fd s sound =
        set_buffersize-IsSound env laws body s sound
    run_command-IsSound (some Command.get_info) body reads fd s sound =
        if_both Answered (ltb (length body) 16) sound (
          info_part-IsSound env laws
            (env.libtpms.get_info (get32 body 0 * u32_mod + get32 body 4) s.host) (get32 body 8) s
            sound)
    run_command-IsSound (some Command.lock_storage) body reads fd s sound =
        let s' = record s { mlp = record s.mlp { locking_retries = get32 body 0 } } in
        if_both Answered (ltb (length body) 4) sound (
          lock_answer-IsSound env laws (ensure_locked env s') (
            ensure_locked-IsSound env laws s'
              (record { allowed = sound.allowed; truth = sound.truth })))

    process_fd-IsSound :
        (pieces : List (List ℕ × Wait)) (reads : List Read) (fd : Option ℕ) (s : CtrlState T R W)
        → Sound s
        → Responded (process_fd env sent pieces reads fd s)
    unfolding process_fd run_input
    process_fd-IsSound pieces reads fd s sound = by_input (recv_cmd pieces)
      where
        by_input : (input : Option (List ℕ)) → Responded (run_input env sent input reads fd s)
        by_input none = sound
        by_input (some input) =
            if_both Responded (ltb (length input) 4) sound
              (run_command-IsSound (command_of (get32 input 0)) (drop 4 input) reads fd s sound)

  -- A client's session: one call of ctrlchannel_process_fd after another, each with what arrives in its
  -- time, and with writes that succeed or fail.
  pub data Session : CtrlState T R W → CtrlState T R W → Type 0 where
    rest : (s : CtrlState T R W) → Session s s
    serve :
        {s' : CtrlState T R W} (sent : List ℕ → Bool) (pieces : List (List ℕ × Wait))
        (reads : List Read) (fd : Option ℕ) (s : CtrlState T R W)
        → Session (process_fd env sent pieces reads fd s).1 s'
        → Session s s'

  -- Whatever a client sends, in any number of messages and with any failures: if the locality is at most
  -- 4, and not 4 where that is rejected, and if libtpms has a running TPM where *tpm_running is set, the
  -- same holds afterwards, for a libtpms whose MainInit and Terminate alone start and stop a TPM.
  pub Session-IsSound : {s s' : CtrlState T R W} → Session s s' → Sound s → Sound s'
  Session-IsSound (rest s) sound = sound
  Session-IsSound (serve sent pieces reads fd s session) sound =
      Session-IsSound session (process_fd-IsSound sent pieces reads fd s sound)
