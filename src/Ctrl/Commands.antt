-- ===== src/Ctrl/Commands.antt =====
-- What each command of src/swtpm/ctrlchannel.c keeps of the state.
use swtpm.Common.{
  ℕ, ◌-◌, ◌≡◌, refl, Bool, true, false, not, ◌&&◌, ◌==◌, ltb, leb, Option, none, some, List,
  if_both, if_cases, length, get_or, get32, drop,
}
use swtpm.Common.Result.{Rc, success, error}
use swtpm.Mainloop.{unlock_nvram}
use swtpm.Host.{Host}
use swtpm.Tpmlib.{is_refused_locality}
use swtpm.Tpmlib.Locality.{is_refused_locality-ok}
use swtpm.Tpmlib.Start.{profile_for, start}
use swtpm.Tpmlib.Running.{start-Ends, Ends, told, unapplied}
use swtpm.Ctrl.{Read, Env, CtrlState, auto_shutdown, terminated, unlocked}
use swtpm.Ctrl.Blobs.{default_locking_retries, hash_all}
use swtpm.Ctrl.Process.{
  reply, on_running, started, start_again, init, reset_established, set_locality, hash_data,
  take_fd, set_buffersize, info_part, lock_answer,
}
use swtpm.Ctrl.Sound.{IsAllowed, CallLaws, IsSound, runs, host-IsSound, idle-IsSound, hash_all_runs}

module _ {T R W : Type 0} (env : Env T R W) (laws : CallLaws env) where
  abbrev pub Sound : CtrlState T R W → Type 0
  Sound = IsSound env laws

  abbrev pub Answered : List ℕ × CtrlState T R W → Type 0
  Answered a = Sound a.1

  pub reply-IsSound :
      (r : Rc × Host T R W) (s : CtrlState T R W)
      → Sound s
      → runs env laws r.1 ≡ runs env laws s.host
      → Answered (reply env r s)
  reply-IsSound (rc, h) s sound e = host-IsSound env laws s h sound e

  pub on_running-IsSound :
      (body : List ℕ) (run : CtrlState T R W → List ℕ × CtrlState T R W) (s : CtrlState T R W)
      → Sound s
      → Answered (run s)
      → Answered (on_running env body run s)
  unfolding on_running
  on_running-IsSound body run s sound h =
      if_both Answered (not s.tpm_running) sound (if_both Answered (not (length body == 0)) sound h)

  -- behind TPMLIB_Terminate
  pub record IsIdle (s : CtrlState T R W) : Type 0 where
    pub sound : Sound s
    pub off : s.tpm_running ≡ false
    pub none_runs : runs env laws s.host ≡ false

  pub terminated-IsIdle :
      (s : CtrlState T R W) → Sound s → IsIdle (terminated env (auto_shutdown env s))
  unfolding terminated auto_shutdown
  terminated-IsIdle s sound =
      let allowed =
        if_both (λ (s' : CtrlState T R W). IsAllowed s'.locality s'.mlp.locality_flags)
          (s.tpm_running && not s.mlp.disable_auto_shutdown) sound.allowed sound.allowed in
      record {
        sound = record { allowed = allowed; truth = λ on. cc };
        off = refl;
        none_runs = laws.starting.terminate_stops (auto_shutdown env s).host;
      }

  started-IsSound :
      (wanted : Option (List ℕ)) (r : Rc × Host T R W) (s : CtrlState T R W)
      → IsIdle s
      → Ends env.libtpms env.ssl laws.starting wanted r
      → Answered (started env r s)
  unfolding started
  started-IsSound wanted (error e, h) s idle ends = idle-IsSound env laws s h idle.sound idle.off
  started-IsSound wanted (success, h) s idle (told t) = record {
    allowed = idle.sound.allowed;
    truth = λ on. t;
  }
  started-IsSound wanted (success, h) s idle (unapplied profile w failed m on) = cc

  start_again-IsSound :
      (init_flags : ℕ) (s : CtrlState T R W) → IsIdle s → Answered (start_again env init_flags s)
  unfolding start_again
  start_again-IsSound init_flags s idle =
      let lock = not s.mlp.incoming_migration in
      started-IsSound (profile_for s.mlp.tpmversion s.mlp.json_profile)
        (start env.libtpms env.ssl init_flags s.mlp.tpmversion lock s.mlp.json_profile s.host)
        (record s { mlp = record s.mlp { storage_locked = lock } })
        (record {
          sound = record { allowed = idle.sound.allowed; truth = idle.sound.truth };
          off = idle.off;
          none_runs = idle.none_runs;
        })
        (start-Ends env.libtpms env.ssl laws.starting init_flags s.mlp.tpmversion lock
          s.mlp.json_profile s.host idle.none_runs)

  pub init-IsSound : (body : List ℕ) (s : CtrlState T R W) → Sound s → Answered (init env body s)
  unfolding init
  init-IsSound body s sound = if_both Answered (not (length body == 4)) sound (
      start_again-IsSound (get32 body 0) (terminated env (auto_shutdown env s))
        (terminated-IsIdle s sound))

  pub reset_established-IsSound :
      (body : List ℕ) (s : CtrlState T R W) → Sound s → Answered (reset_established env body s)
  unfolding reset_established
  reset_established-IsSound body s sound = if_both Answered (not s.tpm_running) sound (
      if_both Answered (ltb (length body) 1) sound (
        if_both Answered (ltb 4 (get_or body 0 0)) sound (
          reply-IsSound (env.libtpms.established_reset (get_or body 0 0) s.host) s sound
            (laws.reset_keeps (get_or body 0 0) s.host))))

  pub set_locality-IsSound :
      (body : List ℕ) (s : CtrlState T R W) → Sound s → Answered (set_locality env body s)
  unfolding set_locality
  set_locality-IsSound body s sound = if_both Answered (ltb (length body) 1) sound (
      if_cases Answered (is_refused_locality s.mlp.locality_flags (get_or body 0 0))
        (λ refused. sound)
        (λ fine.
          let ok = is_refused_locality-ok s.mlp.locality_flags (get_or body 0 0) fine in
          record {
            allowed = record { in_range = ok.0; not_rejected = ok.1 };
            truth = sound.truth;
          }))

  pub hash_data-IsSound :
      (body : List ℕ) (reads : List Read) (s : CtrlState T R W)
      → Sound s
      → Answered (hash_data env body reads s)
  unfolding hash_data
  hash_data-IsSound body reads s sound = if_both Answered (not s.tpm_running) sound (
      if_both Answered (ltb (length body) 4) sound (
        if_both Answered (ltb (get32 body 0) (length body - 4)) sound (
          reply-IsSound (hash_all env reads (get32 body 0) (drop 4 body) s.host) s sound
            (hash_all_runs env laws reads (get32 body 0) (drop 4 body) s.host))))

  pub take_fd-IsSound :
      (old passed : Option ℕ) (s : CtrlState T R W) → Sound s → Answered (take_fd env old passed s)
  unfolding take_fd
  take_fd-IsSound (some fd) passed s sound = sound
  take_fd-IsSound none none s sound = sound
  take_fd-IsSound none (some fd) s sound = record { allowed = sound.allowed; truth = sound.truth }

  pub set_buffersize-IsSound :
      (body : List ℕ) (s : CtrlState T R W) → Sound s → Answered (set_buffersize env body s)
  unfolding set_buffersize
  set_buffersize-IsSound body s sound = if_both Answered (ltb (length body) 4) sound (
      if_both Answered (ltb 0 (get32 body 0) && s.tpm_running) sound (
        host-IsSound env laws s (env.libtpms.set_buffer_size (get32 body 0) s.host).1 sound
          (laws.buffer_keeps (get32 body 0) s.host)))

  pub info_part-IsSound :
      (info_data : Option (List ℕ)) (offset : ℕ) (s : CtrlState T R W)
      → Sound s
      → Answered (info_part env info_data offset s)
  unfolding info_part
  info_part-IsSound none offset s sound = sound
  info_part-IsSound (some info_data) offset s sound =
      if_both Answered (leb (length info_data) offset) sound sound

  pub lock_answer-IsSound : (r : Bool × CtrlState T R W) → Sound r.1 → Answered (lock_answer env r)
  unfolding lock_answer
  lock_answer-IsSound (true, s) sound = sound
  lock_answer-IsSound (false, s) sound = sound

  pub unlocked_truth :
      (s : CtrlState T R W)
      → Sound s
      → s.tpm_running ≡ true
      → runs env laws (unlocked env default_locking_retries s).host ≡ true
  unfolding unlock_nvram
  unlocked_truth s sound = sound.truth
