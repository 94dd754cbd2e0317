-- ===== src/Host/Samples.antt =====
-- A sample process for the theorems about src/swtpm/tpmlib.c and src/swtpm/ctrlchannel.c: a libtpms
-- whose state is whether a TPM runs and what was hashed, and a backend of one file.
use swtpm.Common.{
  ℕ, ◌≡◌, refl, sym, ap, Bool, true, false, none, some, List, [], ◌∷◌, ◌++◌, be16, be32,
}
use mathlib.Core.List.{append_assoc}
use swtpm.Common.Result.{Rc, success, ok}
use swtpm.Nvstore.Samples.{one_place, sender}
use swtpm.Host.{BackendOps, Host, Libtpms, file_scheme}
use swtpm.Tpmlib.{TpmVersion}
use swtpm.Tpmlib.Openssl.{
  Openssl, maybe_configure_openssl, configure_sha1, check_config, fix_sha1,
  check_need_enable_sha1_signatures, check_need_modify_ossl_config, needs_no_fix,
}
use swtpm.Tpmlib.Running.{RunLaws}

abbrev pub Tpm : Type 0
Tpm = Bool × List ℕ

abbrev pub Process : Type 0
Process = Host Tpm ℕ (List ℕ)

abbrev pub sample_libtpms : Libtpms Process
sample_libtpms = record {
  choose_tpm_version = λ v h. (success, h);
  set_profile = λ profile h. (success, h);
  main_init = λ h. (success, record h { tpm = (true, h.tpm.1) });
  was_manufactured = λ h. false;
  terminate = λ h. record h { tpm = (false, h.tpm.1) };
  run_command = λ l command h. (success, be16 32769 ++ be32 10 ++ be32 0, h);
  volatile_all_store = λ h. (ok (5 ∷ []), h);
  established_get = λ h. (success, 1);
  established_reset = λ l h. (success, h);
  hash_start = λ l h. (success, record h { tpm = (h.tpm.0, []) });
  hash_data = λ bytes h. (success, record h { tpm = (h.tpm.0, h.tpm.1 ++ bytes) });
  hash_end = λ h. (success, h);
  cancel_command = λ h. (success, h);
  set_buffer_size = λ n h. ((4096, 4096, 4096), h);
  get_info = λ flags h. some (7 ∷ []);
}

-- No algorithm is disabled.
abbrev pub sample_ssl : Openssl Process
sample_ssl = record {
  fips_mode_enabled = λ h. false;
  fips_mode_disable = λ h. (true, h);
  enable_sha1_signatures = λ h. (true, h);
  check_disabled_algorithms = λ disabled first h. some 0;
  disables_sha1_signatures = λ h. false;
}

pub configured : (v : TpmVersion) (h : Process) → maybe_configure_openssl sample_ssl v h ≡ (true, h)
unfolding maybe_configure_openssl configure_sha1 check_config fix_sha1
    check_need_enable_sha1_signatures check_need_modify_ossl_config needs_no_fix
configured TpmVersion.tpm_1_2 h = refl
configured TpmVersion.tpm_2 h = refl

unfoldable pub sample_RunLaws : RunLaws sample_libtpms sample_ssl
sample_RunLaws = record {
  runs = λ t. t.0;
  main_init_starts = λ h h' e. ap (λ (r : Rc × Process). r.1.tpm.0) (sym e);
  main_init_fails = λ h h' c e. cc;
  terminate_stops = λ h. refl;
  choice_keeps = λ v h. refl;
  profile_keeps = λ profile h. refl;
  openssl_keeps = λ v h. ap (λ (r : Bool × Process). r.1.tpm.0) (configured v h);
}

abbrev pub sample_ops : BackendOps (List ℕ)
sample_ops = record {
  prepare = λ uri w. (success, w);
  locks = record { lock = λ uri retries w. (success, w); unlock = λ w. w };
  files = one_place;
  delete = λ name must_exist w. (success, []);
  restore_backup_pre_start = none;
  restore_backup = some (λ w. (success, w));
  cleanup = λ w. w;
}

abbrev pub sample_process : Process
sample_process = record {
  locking = true;
  make_backup = false;
  backend_uri = some file_scheme;
  ops = some sample_ops;
  nvram = sender;
  tpm = (false, []);
}

pub sample_stopped : sample_RunLaws.runs sample_process.tpm ≡ false
unfolding sample_RunLaws
sample_stopped = refl

pub sample_hashes :
    (xs ys : List ℕ) (h : Process)
    → sample_libtpms.hash_data (xs ++ ys) h
      ≡ sample_libtpms.hash_data ys (sample_libtpms.hash_data xs h).1
sample_hashes xs ys h =
    ap (λ hashed. (success, record h { tpm = (h.tpm.0, hashed) }))
      (sym (append_assoc h.tpm.1 xs ys))
