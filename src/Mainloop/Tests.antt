-- ===== src/Mainloop/Tests.antt =====
-- The theorem on the lock of src/swtpm/mainloop.c at a backend whose state is whether it is locked, and
-- those on requests at a sample process.
use swtpm.Common.{
  ℕ, List, ◌∷◌, ◌++◌, refl, inl, Bool, true, false, Option, none, some, [], ◌∙◌, ◌≡◌, ap, sym,
}
use swtpm.Common.Result.{success}
use swtpm.Tpmlib.{TpmVersion}
use swtpm.Tpmlib.{Response}
use swtpm.Tpmlib.Headers.{tcg_prefix}
use swtpm.Host.Samples.{Tpm}
use swtpm.Ctrl.{CtrlState}
use swtpm.Ctrl.Samples.{env, fresh}
use swtpm.Mainloop.Request.{run_request, serve_command}
use swtpm.Mainloop.Handled.{Handled, run_request-Handled}
use swtpm.Mainloop.Served.{with_frame, serve_command-tcg_prefix}
use swtpm.Mainloop.{LockOps, Storage, MainLoopParams, ensure_locked_storage}
use swtpm.Mainloop.Locked.{LockLaws, IsTrue, Run, done, next, ensure, Run-IsTrue}

abbrev flag_ops : LockOps Bool
flag_ops = record { lock = λ uri retries w. (success, true); unlock = λ w. false }

abbrev storage : Storage Bool
storage = record { locking = true; backend = some flag_ops; backend_uri = some [] }

some_or : LockOps Bool → Option (LockOps Bool) → LockOps Bool
some_or d none = d
some_or d (some x) = x

flag_laws : LockLaws storage
unfolding some_or
flag_laws = record {
  Held = λ w. w ≡ true;
  lock_holds = λ ops has uri retries w w' e.
      let same : flag_ops ≡ ops = ap (some_or flag_ops) has in
      ap (λ p. p.1) (sym (ap (λ (o : LockOps Bool). o.lock uri retries w) same ∙ e));
}

-- Not locked yet, after an incoming migration.
abbrev waiting : MainLoopParams
waiting = record {
  flags = 0;
  fd = none;
  locality_flags = 0;
  tpmversion = TpmVersion.tpm_2;
  last_command = 0;
  disable_auto_shutdown = false;
  json_profile = none;
  storage_locked = false;
  incoming_migration = true;
  locking_retries = 300;
}

one_call :
    Run storage flag_laws
      (waiting, false)
      (
        (ensure_locked_storage storage waiting false).1,
        (ensure_locked_storage storage waiting false).2,
      )
one_call = next (ensure waiting false) (done _)

not_waiting : ¬ (false ≡ true)
not_waiting on = cc

Run-IsTrue_example :
    IsTrue storage flag_laws
      (ensure_locked_storage storage waiting false).1
      (ensure_locked_storage storage waiting false).2
Run-IsTrue_example = Run-IsTrue storage flag_laws one_call (λ on. absurd (not_waiting on))

abbrev running : CtrlState Tpm ℕ (List ℕ)
running = record fresh { tpm_running = true }

abbrev no_response : Response
no_response = record { rbuffer = none; rlength = 0 }

-- TPM2_Startup, behind its first byte
abbrev startup_rest : List ℕ
startup_rest = 1 ∷ 0 ∷ 0 ∷ 0 ∷ 12 ∷ 0 ∷ 0 ∷ 1 ∷ 68 ∷ 0 ∷ 0 ∷ []

run_request-Handled_example :
    Handled env
      (128 ∷ startup_rest)
      running
      (run_request env (128 ∷ startup_rest) no_response running)
run_request-Handled_example = run_request-Handled env refl (128 ∷ startup_rest) no_response running

serve_command-tcg_prefix_example :
    serve_command env (tcg_prefix 3 12 ++ 128 ∷ startup_rest) no_response running
    ≡ with_frame
        (serve_command env (128 ∷ startup_rest) no_response (record running { locality = 3 }))
serve_command-tcg_prefix_example =
    serve_command-tcg_prefix env 3 12 128 startup_rest no_response running refl (inl refl)
