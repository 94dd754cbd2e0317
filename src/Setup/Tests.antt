-- ===== src/Setup/Tests.antt =====
-- Tests of swtpm_setup/swtpm.c over sockets that a sample TPM answers, and the theorems at concrete
-- inputs.
use swtpm.Common.{
  ℕ, suc, ◌≡◌, refl, inr, true, false, some, List, [], ◌∷◌, ◌++◌, ◌==◌, if◌then◌else◌, length,
  replicate, be16, be32, arith,
}
use swtpm.Nvstore.Crypt.{bytes_eq}
use swtpm.Setup.{
  Bytes, evictcontrol, flushcontext, rh_endorsement, Sockets, Link, request, authblock, answered,
  polled, written, transfer, command,
}
use swtpm.Setup.Nvram.{
  definespace_request, write_request, writelock_request, nvdefinespace, nv_write_from, nv_write,
  nv_writelock, write_nvram, cert_attrs,
}
use swtpm.Setup.NvSpec.{undefined_area, replay}
use swtpm.Setup.Willing.{Willing, write_nvram-Stores}
use swtpm.Setup.Banks.{
  get_name_for_bank, bank_name, get_hashalg_by_bankname, pcrs_request, get_all_pcr_banks,
  index_from, has_bit, has_name, select_at, select_all, deselect_one, deselect_all, some_selected,
  pcr_allocate_request, allocate, set_active_pcr_banks,
}
use swtpm.Setup.Available.{
  Selection, capability_response, none_left, one_fits, names_of, get_all_pcr_banks-Named,
}
use swtpm.Setup.Primary.{
  create_symkeydata, public_fields, alg_rsa, createprimary_request, print_as_hex, too_small,
  handled, createprimary, rsa_parsed, createprimary_rsa, ek_rsa_2048, get_ek_params_rsa,
  ek_rsa_request, ek_rsa_for, createprimary_ek_rsa,
}
use swtpm.Setup.Spk.{
  keyalgo_rsa, keyflags_spk, spk_rsa, get_spk_params, spk_rsa_with, createprimary_spk_rsa,
  createprimary_spk, made_permanent, create_spk,
}
use swtpm.Setup.Created.{key_response, createprimary_ek_rsa-Found}
use swtpm.Setup.Names.{unchosen}
use swtpm.Setup.Chosen.{Allocates, allocate_command, set_active_pcr_banks-Allocates}

-- Sockets whose other end gives this response to everything; the state counts the reads.
abbrev replying : Bytes → Sockets ℕ
replying resp = record {
  write = λ c b w. (some (length b), w);
  poll = λ c w. (true, w);
  read = λ c w. (some resp, suc w);
}

abbrev success_response : Bytes
success_response = be16 0x8001 ++ (be32 10 ++ be32 0)

abbrev fresh : Link ℕ
fresh = record { world = 0; sent = [] }

abbrev tpm : Sockets ℕ
tpm = replying success_response

tpm-Willing : Willing tpm
tpm-Willing = record {
  takes = λ b w. refl;
  ready = λ w. refl;
  answers = λ w. (success_response, refl, omega arith, refl);
}

abbrev certificate : Bytes
certificate = 1 ∷ 2 ∷ 3 ∷ []

write_returns : (write_nvram tpm 0x1c00002 cert_attrs certificate true fresh).0 ≡ true
unfolding write_nvram nvdefinespace nv_write nv_write_from nv_writelock command transfer written
    polled answered definespace_request request authblock write_request writelock_request
write_returns = refl

write_nvram-Stores_example :
    ((write_nvram tpm 0x1c00002 cert_attrs certificate true fresh).0 ≡ true)
    × (rs : List Bytes) × ((write_nvram tpm 0x1c00002 cert_attrs certificate true fresh).1.sent
        ≡ [] ++ rs)
    × (replay 0x1c00002 (some undefined_area) rs
        ≡ some (record { attributes = cert_attrs; content = some certificate; locked = true }))
write_nvram-Stores_example =
    write_nvram-Stores tpm 0x1c00002 cert_attrs certificate true fresh (omega arith) (omega arith)
      (omega arith) (inr tpm-Willing)

-- sha1 and sha256, with bitmaps of 3 bytes
abbrev banks : List Selection
banks =
    record { alg = 0x4; bitmap = 255 ∷ 255 ∷ 255 ∷ [] }
    ∷ record { alg = 0xb; bitmap = 0 ∷ 0 ∷ 0 ∷ [] }
    ∷ []

abbrev header : Bytes
header = be16 0x8001 ++ (be32 35 ++ be32 0)

abbrev sha1_name : Bytes
sha1_name = 115 ∷ 104 ∷ 97 ∷ 49 ∷ []

abbrev sha256_name : Bytes
sha256_name = 115 ∷ 104 ∷ 97 ∷ 50 ∷ 53 ∷ 54 ∷ []

bank_names : names_of banks ≡ sha1_name ∷ sha256_name ∷ []
unfolding bank_name get_name_for_bank
bank_names = refl

abbrev asked : Link ℕ
asked = record {
  world = 1;
  sent = pcrs_request (replying (capability_response header 0 banks)) ∷ [];
}

banks_answer :
    transfer
      (replying (capability_response header 0 banks))
      false
      (pcrs_request (replying (capability_response header 0 banks)))
      256
      fresh
    ≡ record { done = true; out = capability_response header 0 banks; link = asked }
unfolding transfer written polled answered pcrs_request request
banks_answer = refl

get_all_pcr_banks-Named_example :
    get_all_pcr_banks (replying (capability_response header 0 banks)) fresh
    ≡ (some (names_of banks), asked)
get_all_pcr_banks-Named_example =
    get_all_pcr_banks-Named (replying (capability_response header 0 banks)) fresh asked header 0
      banks refl (omega arith) (one_fits (omega arith) (one_fits (omega arith) none_left))
      banks_answer

-- The user chooses sha256, twice, and a bank that there is not.
abbrev user_choice : List Bytes
user_choice = sha256_name ∷ sha256_name ∷ (120 ∷ []) ∷ []

abbrev allocated : Link ℕ
allocated = (set_active_pcr_banks tpm user_choice (sha1_name ∷ sha256_name ∷ []) fresh).1

only_sha256 :
    set_active_pcr_banks tpm user_choice (sha1_name ∷ sha256_name ∷ []) fresh
    ≡ (some (sha256_name ∷ []), allocated)
unfolding set_active_pcr_banks allocate some_selected select_all select_at deselect_all deselect_one
    index_from has_bit has_name bytes_eq get_hashalg_by_bankname command transfer written polled
    answered pcr_allocate_request request authblock
only_sha256 = refl

set_active_pcr_banks-Allocates_example :
    (command tpm
        (allocate_command (sha256_name ∷ []) (unchosen user_choice (sha1_name ∷ sha256_name ∷ [])))
        fresh
      ≡ (true, allocated))
    × Allocates (sha1_name ∷ sha256_name ∷ []) user_choice (sha256_name ∷ [])
set_active_pcr_banks-Allocates_example =
    set_active_pcr_banks-Allocates tpm user_choice (sha1_name ∷ sha256_name ∷ []) (sha256_name ∷ [])
      fresh allocated only_sha256

-- an RSA 2048 endorsement key that decrypts
abbrev ek_fields : Bytes
ek_fields =
    public_fields alg_rsa (ek_rsa_for 2048 false true ek_rsa_2048).keyflags
      (ek_rsa_for 2048 false true ek_rsa_2048).pk

abbrev modulus : Bytes
modulus = 171 ∷ replicate 255 7

abbrev key_header : Bytes
key_header = be16 0x8002 ++ (be32 400 ++ be32 0)

abbrev ek_response : Bytes
ek_response = key_response key_header 0x80000000 300 314 ek_fields modulus (0 ∷ [])

abbrev ek_public : Bytes
ek_public = ek_fields ++ (ek_rsa_for 2048 false true ek_rsa_2048).pk.nonce

abbrev ek_asked : Link ℕ
ek_asked = record { world = 1; sent = createprimary_request rh_endorsement ek_public ∷ [] }

is_supported : get_ek_params_rsa 2048 ≡ some ek_rsa_2048
unfolding get_ek_params_rsa
is_supported = refl

ek_room : too_small (some 512) ek_public ≡ false
unfolding too_small public_fields create_symkeydata ek_rsa_for ek_rsa_request
ek_room = refl

ek_answer :
    transfer
      (replying ek_response)
      false
      (createprimary_request rh_endorsement ek_public)
      2048
      fresh
    ≡ record { done = true; out = ek_response; link = ek_asked }
unfolding transfer written polled answered createprimary_request request authblock public_fields
    create_symkeydata ek_rsa_for ek_rsa_request
ek_answer = refl

createprimary_ek_rsa-Found_example :
    createprimary_ek_rsa (replying ek_response) 2048 false true (some 512) true fresh ≡ record {
      done = true;
      out = record { handle = 0x80000000; param = print_as_hex modulus };
      link = ek_asked;
    }
createprimary_ek_rsa-Found_example =
    createprimary_ek_rsa-Found (replying ek_response) 2048 false true (some 512) ek_rsa_2048
      key_header modulus (0 ∷ []) 0x80000000 300 314 fresh ek_asked is_supported refl (omega arith)
      refl (ek_room, ek_answer)

-- A TPM that creates the storage primary key, refuses to make it permanent, and flushes it.
abbrev refused_response : Bytes
refused_response = be16 0x8001 ++ (be32 10 ++ be32 0x101)

abbrev refusing : ℕ → Bytes
refusing n =
    if n == 0
    then key_response key_header 0x80000000 300 280
        (public_fields alg_rsa keyflags_spk (spk_rsa 2048 0x100 0xb 128)) modulus []
    else if n == 1
    then refused_response
    else success_response

abbrev refusing_tpm : Sockets ℕ
refusing_tpm = record {
  write = λ c b w. (some (length b), w);
  poll = λ c w. (true, w);
  read = λ c w. (some (refusing w), suc w);
}

evict_fails :
    (evictcontrol refusing_tpm 0x80000000 0x81000001 (record { world = 1; sent = [] })).0 ≡ false
unfolding evictcontrol command transfer written polled answered request authblock
evict_fails = refl

-- The refusal is logged, and the function returns 0.
create_spk_returns : (create_spk refusing_tpm keyalgo_rsa 2048 fresh).0 ≡ true
unfolding create_spk made_permanent createprimary_spk createprimary_spk_rsa spk_rsa_with
    get_spk_params createprimary_rsa rsa_parsed createprimary handled too_small evictcontrol
    flushcontext command transfer written polled answered createprimary_request request authblock
    public_fields create_symkeydata
create_spk_returns = refl
