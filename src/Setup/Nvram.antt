-- ===== src/Setup/Nvram.antt =====
-- Certificates in the TPM's NVRAM: swtpm_tpm2_write_nvram of src/swtpm_setup/swtpm.c and the functions
-- it calls.
use swtpm.Common.{
  ℕ, zero, suc, ◌+◌, Bool, true, false, [], ◌∷◌, ◌++◌, if◌then◌else◌, length, take, drop, be16,
  be32, min,
}
use swtpm.Setup.{
  Bytes, Sockets, Link, request, authblock, authblock_size, command, st_sessions, cc_nv_definespace,
  cc_nv_write, cc_nv_writelock, rh_platform, rs_pw,
}

-- TPM2_ALG_SHA256
abbrev pub alg_sha256 : ℕ
alg_sha256 = 0xb

-- the request of swtpm_tpm2_nvdefinespace; data_len is a uint16_t
unfoldable pub definespace_request : ℕ → ℕ → ℕ → Bytes
definespace_request nvindex nvindexattrs data_len =
    let nvpublic =
      be32 nvindex ++ (be16 alg_sha256 ++ (be32 nvindexattrs ++ (be16 0 ++ be16 data_len))) in
    request st_sessions cc_nv_definespace (
      be32 rh_platform
      ++ (be32 authblock_size
          ++ (authblock rs_pw ++ (be16 0 ++ (be16 (length nvpublic) ++ nvpublic)))))

-- a request of swtpm_tpm2_nv_write
unfoldable pub write_body : ℕ → Bytes → ℕ → Bytes
write_body nvindex bytes offset =
    be32 rh_platform
    ++ (be32 nvindex
        ++ (be32 authblock_size
            ++ (authblock rs_pw ++ (be16 (length bytes) ++ (bytes ++ be16 offset)))))

unfoldable pub write_request : ℕ → Bytes → ℕ → Bytes
unfolding write_body
write_request nvindex bytes offset =
    request st_sessions cc_nv_write (write_body nvindex bytes offset)

-- the request of swtpm_tpm2_nv_writelock
unfoldable pub writelock_request : ℕ → Bytes
writelock_request nvindex =
    request st_sessions cc_nv_writelock
      (be32 rh_platform ++ (be32 nvindex ++ (be32 authblock_size ++ authblock rs_pw)))

module _ {W : Type 0} (sockets : Sockets W) where
  -- swtpm_tpm2_nvdefinespace
  unfoldable pub nvdefinespace : ℕ → ℕ → ℕ → Link W → Bool × Link W
  nvdefinespace nvindex nvindexattrs data_len l =
      command sockets (definespace_request nvindex nvindexattrs data_len) l

  -- what follows a step that must return 0
  infixl 5 ◌then_do◌
  abbrev pub ◌then_do◌ : Bool × Link W → (Link W → Bool × Link W) → Bool × Link W
  (false, l) then_do next = (false, l)
  (true, l) then_do next = next l

  -- the loop of swtpm_tpm2_nv_write: the data from the offset on, in pieces of 1024 bytes. The fuel
  -- bounds the rounds.
  unfoldable pub nv_write_from : ℕ → ℕ → Bytes → ℕ → Link W → Bool × Link W
  nv_write_from fuel nvindex [] offset l = (true, l)
  nv_write_from zero nvindex (b ∷ bs) offset l = (false, l)
  nv_write_from (suc fuel) nvindex (b ∷ bs) offset l =
      let txlen = min (length (b ∷ bs)) 1024 in
      command sockets (write_request nvindex (take txlen (b ∷ bs)) offset) l
      then_do nv_write_from fuel nvindex (drop txlen (b ∷ bs)) (offset + txlen)

  -- swtpm_tpm2_nv_write
  unfoldable pub nv_write : ℕ → Bytes → Link W → Bool × Link W
  nv_write nvindex bytes l = nv_write_from (length bytes) nvindex bytes 0 l

  -- swtpm_tpm2_nv_writelock
  unfoldable pub nv_writelock : ℕ → Link W → Bool × Link W
  nv_writelock nvindex l = command sockets (writelock_request nvindex) l

  -- swtpm_tpm2_write_nvram
  unfoldable pub write_nvram : ℕ → ℕ → Bytes → Bool → Link W → Bool × Link W
  write_nvram nvindex nvindexattrs bytes lock_nvram l =
      nvdefinespace nvindex nvindexattrs (length bytes) l
      then_do nv_write nvindex bytes
      then_do λ l. if lock_nvram then nv_writelock nvindex l else (true, l)

-- TPMA_NV_PLATFORMCREATE, _AUTHREAD, _OWNERREAD, _PPREAD, _PPWRITE, _NO_DA and _WRITEDEFINE
abbrev pub cert_attrs : ℕ
cert_attrs = 0x40000000 + 0x40000 + 0x20000 + 0x10000 + 0x1 + 0x2000000 + 0x2000

abbrev pub nv_index_platformcert : ℕ
nv_index_platformcert = 0x01c08000

abbrev pub nv_index_iak_cert : ℕ
nv_index_iak_cert = 0x01c90100

abbrev pub nv_index_idevid_cert : ℕ
nv_index_idevid_cert = 0x01c90200

module _ {W : Type 0} (sockets : Sockets W) where
  -- swtpm_tpm2_write_cert_nvram, but for its message
  unfoldable pub write_cert_nvram : ℕ → ℕ → Bytes → Bool → Link W → Bool × Link W
  write_cert_nvram nvindex nvindexattrs bytes lock_nvram l =
      write_nvram sockets nvindex nvindexattrs bytes lock_nvram l

  -- swtpm_tpm2_write_platform_cert_nvram
  unfoldable pub write_platform_cert_nvram : Bool → Bytes → Link W → Bool × Link W
  write_platform_cert_nvram lock_nvram bytes l =
      write_cert_nvram nv_index_platformcert cert_attrs bytes lock_nvram l

  -- swtpm_tpm2_write_iak_cert_nvram
  unfoldable pub write_iak_cert_nvram : Bool → Bytes → Link W → Bool × Link W
  write_iak_cert_nvram lock_nvram bytes l =
      write_cert_nvram nv_index_iak_cert cert_attrs bytes lock_nvram l

  -- swtpm_tpm2_write_idevid_cert_nvram
  unfoldable pub write_idevid_cert_nvram : Bool → Bytes → Link W → Bool × Link W
  write_idevid_cert_nvram lock_nvram bytes l =
      write_cert_nvram nv_index_idevid_cert cert_attrs bytes lock_nvram l
