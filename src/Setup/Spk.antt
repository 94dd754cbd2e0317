-- ===== src/Setup/Spk.antt =====
-- The storage primary key (SPK) of a TPM 2, in src/swtpm_setup/swtpm.c, over Setup.Primary.
use swtpm.Common.{
  ℕ, Bool, false, Option, none, some, [], ◌++◌, ◌==◌, if◌then◌else◌, replicate, be16, be32,
}
use swtpm.Setup.{Sockets, Link, Outcome, evictcontrol, flushcontext, rh_owner}
use swtpm.Setup.Primary.{PkParams, Key, createprimary_rsa, createprimary_ecc, failed}

-- enum keyalgo
pub data Keyalgo : Type 0 where
  keyalgo_none : Keyalgo
  keyalgo_rsa : Keyalgo
  keyalgo_ecc : Keyalgo

-- fixedTPM, fixedParent, sensitiveDataOrigin, userWithAuth, noDA, restricted and decrypt
abbrev pub keyflags_spk : ℕ
keyflags_spk = 0x30472

abbrev pub spk_handle : ℕ
spk_handle = 0x81000001

-- the entries of spk_params, with .off 42 for ECC and 44 for RSA
abbrev pub spk_ecc : ℕ → ℕ → ℕ → ℕ → PkParams
spk_ecc curve keysize hashalg symkey_len = record {
  nonce = be16 keysize ++ replicate keysize 0;
  nonce2 = none;
  hashalg = hashalg;
  authpolicy = [];
  schemedata = be16 0x10 ++ (be16 curve ++ be16 0x10);
  symkey_len = symkey_len;
  keysize = keysize;
}

abbrev pub spk_rsa : ℕ → ℕ → ℕ → ℕ → PkParams
spk_rsa bits keysize hashalg symkey_len = record {
  nonce = be16 keysize ++ replicate keysize 0;
  nonce2 = none;
  hashalg = hashalg;
  authpolicy = [];
  schemedata = be16 0x10 ++ (be16 bits ++ be32 0);
  symkey_len = symkey_len;
  keysize = keysize;
}

-- get_spk_params
unfoldable pub get_spk_params : Keyalgo → ℕ → Option PkParams
get_spk_params keyalgo_none param = none
get_spk_params keyalgo_rsa param =
    if param == 2048
    then some (spk_rsa 2048 0x100 0xb 128)
    else if param == 3072
    then some (spk_rsa 3072 0x180 0xc 256)
    else if param == 4096
    then some (spk_rsa 4096 0x200 0xc 256)
    else none
get_spk_params keyalgo_ecc param =
    if param == 3
    then some (spk_ecc 3 32 0xb 128)
    else if param == 4
    then some (spk_ecc 4 48 0xc 256)
    else if param == 5
    then some (spk_ecc 5 66 0xd 256)
    else none

module _ {W : Type 0} (sockets : Sockets W) where
  -- the key's parameter and description are not asked for
  unfoldable pub spk_ecc_with : Option PkParams → Link W → Outcome Key W
  spk_ecc_with none l = failed sockets l
  spk_ecc_with (some pk) l = createprimary_ecc sockets rh_owner keyflags_spk [] pk 42 none false l

  -- swtpm_tpm2_createprimary_spk_ecc
  unfoldable pub createprimary_spk_ecc : ℕ → Link W → Outcome Key W
  createprimary_spk_ecc param l = spk_ecc_with (get_spk_params keyalgo_ecc param) l

  unfoldable pub spk_rsa_with : Option PkParams → Link W → Outcome Key W
  spk_rsa_with none l = failed sockets l
  spk_rsa_with (some pk) l = createprimary_rsa sockets rh_owner keyflags_spk pk 44 none false l

  -- swtpm_tpm2_createprimary_spk_rsa
  unfoldable pub createprimary_spk_rsa : ℕ → Link W → Outcome Key W
  createprimary_spk_rsa param l = spk_rsa_with (get_spk_params keyalgo_rsa param) l

  unfoldable pub createprimary_spk : Keyalgo → ℕ → Link W → Outcome Key W
  createprimary_spk keyalgo_none param l = failed sockets l
  createprimary_spk keyalgo_rsa param l = createprimary_spk_rsa param l
  createprimary_spk keyalgo_ecc param l = createprimary_spk_ecc param l

  -- a key that was created: what evictcontrol gives is only logged
  unfoldable pub made_permanent : Outcome Key W → Bool × Link W
  made_permanent r =
      if r.done
      then flushcontext sockets r.out.handle (evictcontrol sockets r.out.handle spk_handle r.link).1
      else (false, r.link)

  -- swtpm_tpm2_create_spk: whether it returns 0
  unfoldable pub create_spk : Keyalgo → ℕ → Link W → Bool × Link W
  create_spk keyalgo param l = made_permanent (createprimary_spk keyalgo param l)
