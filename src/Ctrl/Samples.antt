-- ===== src/Ctrl/Samples.antt =====
-- A sample channel for the theorems about src/swtpm/ctrlchannel.c and src/swtpm/mainloop.c: test data.
use swtpm.Common.{ℕ, false, none, List}
use swtpm.Common.Result.{success}
use swtpm.Nvstore.Samples.{open_crypto}
use swtpm.Mainloop.{MainLoopParams}
use swtpm.Host.Samples.{Tpm, sample_libtpms, sample_ssl, sample_ops, sample_process}
use swtpm.Tpmlib.{TpmVersion}
use swtpm.Ctrl.{Env, CtrlState}

abbrev pub env : Env Tpm ℕ (List ℕ)
env = record {
  crypto = open_crypto;
  dir_ops = sample_ops;
  linear_ops = sample_ops;
  libtpms = sample_libtpms;
  ssl = sample_ssl;
  set_state = λ st plain t. (success, t);
  codes = λ e. 9;
}

abbrev pub params : MainLoopParams
params = record {
  flags = 0;
  fd = none;
  locality_flags = 1;
  tpmversion = TpmVersion.tpm_2;
  last_command = 0;
  disable_auto_shutdown = false;
  json_profile = none;
  storage_locked = false;
  incoming_migration = false;
  locking_retries = 0;
}

-- Before CMD_INIT.
abbrev pub fresh : CtrlState Tpm ℕ (List ℕ)
fresh = record {
  terminate = false;
  locality = 0;
  tpm_running = false;
  mlp = params;
  host = sample_process;
}
