-- ===== src/Tpmlib/Openssl.antt =====
-- Whether OpenSSL can run the algorithms of the TPM: tpmlib_maybe_configure_openssl of
-- src/swtpm/tpmlib.c and the checks that it makes.
use swtpm.Common.{ℕ, ◌+◌, Bool, true, false, Option, none, some, ◌==◌, if◌then◌else◌}
use swtpm.Nvstore.{has_flag}
use swtpm.Tpmlib.{TpmVersion}

-- OpenSSL and libtpms' runtime information, as the process with the states X sees them: whether
-- FIPS mode is on; fips_mode_disable and g_setenv, with whether they succeed; the fix flags for
-- the algorithms of libtpms' RuntimeAlgorithms, by filter and by whether to stop at the first
-- (`none` where that information has no such entry); and whether RuntimeAttributes has both of
-- "no-sha1-signing" and "no-sha1-verification", or "fips-host".
pub record Openssl (X : Type 0) : Type 0 where
  pub fips_mode_enabled : X → Bool
  pub fips_mode_disable : X → Bool × X
  pub enable_sha1_signatures : X → Bool × X
  pub check_disabled_algorithms : ℕ → Bool → X → Option ℕ
  pub disables_sha1_signatures : X → Bool

abbrev pub disabled_by_fips : ℕ
disabled_by_fips = 1

abbrev pub disabled_sha1_signatures : ℕ
disabled_sha1_signatures = 2

abbrev pub disabled_by_config : ℕ
disabled_by_config = 4

abbrev pub fix_disable_fips : ℕ
fix_disable_fips = 1

abbrev pub fix_enable_sha1_signatures : ℕ
fix_enable_sha1_signatures = 2

module _ {X : Type 0} (ssl : Openssl X) where
  -- the flags that FIPS mode asks for, by tpmlib_check_need_disable_fips_mode for a TPM 2
  unfoldable pub fips_fix : TpmVersion → X → Option ℕ
  fips_fix TpmVersion.tpm_1_2 x = some fix_disable_fips
  fips_fix TpmVersion.tpm_2 x = ssl.check_disabled_algorithms disabled_by_fips true x

  unfoldable pub fix_fips : Option ℕ → X → Bool × X
  fix_fips none x = (false, x)
  fix_fips (some fix_flags) x =
      if has_flag fix_flags fix_disable_fips then ssl.fips_mode_disable x else (true, x)

  -- tpmlib_check_need_enable_sha1_signatures
  unfoldable pub check_need_enable_sha1_signatures : X → Option ℕ
  check_need_enable_sha1_signatures x =
      if ssl.disables_sha1_signatures x
      then some 0
      else ssl.check_disabled_algorithms disabled_sha1_signatures true x

  -- whether to go on, check_sha1_signatures, and the state
  unfoldable pub fix_sha1 : Option ℕ → X → Bool × Bool × X
  fix_sha1 none x = (false, false, x)
  fix_sha1 (some fix_flags) x =
      if has_flag fix_flags fix_enable_sha1_signatures
      then (let (set, x') = ssl.enable_sha1_signatures x in (set, set, x'))
      else (true, false, x)

  -- tpmlib_check_need_modify_ossl_config
  unfoldable pub check_need_modify_ossl_config : Bool → X → Option ℕ
  check_need_modify_ossl_config true x =
      ssl.check_disabled_algorithms (disabled_by_config + disabled_sha1_signatures) false x
  check_need_modify_ossl_config false x = ssl.check_disabled_algorithms disabled_by_config false x

  unfoldable pub needs_no_fix : Option ℕ → Bool
  needs_no_fix none = false
  needs_no_fix (some fix_flags) = fix_flags == 0

  -- the checks for a TPM 2, behind the setting for SHA-1
  unfoldable pub check_config : Bool × Bool × X → Bool × X
  check_config (false, check_sha1_signatures, x) = (false, x)
  check_config (true, check_sha1_signatures, x) =
      (needs_no_fix (check_need_modify_ossl_config check_sha1_signatures x), x)

  -- the part behind FIPS mode
  unfoldable pub configure_sha1 : TpmVersion → Bool × X → Bool × X
  configure_sha1 v (false, x) = (false, x)
  configure_sha1 TpmVersion.tpm_1_2 (true, x) = (true, x)
  configure_sha1 TpmVersion.tpm_2 (true, x) =
      check_config (fix_sha1 (check_need_enable_sha1_signatures x) x)

  -- tpmlib_maybe_configure_openssl: whether it returns 0
  unfoldable pub maybe_configure_openssl : TpmVersion → X → Bool × X
  maybe_configure_openssl v x =
      configure_sha1 v (if ssl.fips_mode_enabled x then fix_fips (fips_fix v x) x else (true, x))
