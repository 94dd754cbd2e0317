-- ===== src/Nvstore/Samples.antt =====
-- Sample keys, a sample cipher that leaves the data open, and a host that hands out a state: test data for
-- the theorems about src/swtpm/swtpm_nvstore.c and src/swtpm/ctrlchannel.c.
use swtpm.Common.{
  ℕ, suc, ◌≡◌, inl, refl, sym, ap, Bool, true, false, Option, none, some, List, [], ◌∷◌, ◌++◌,
  length, take, replicate, arith, length-take, length-append, length-replicate,
}
use swtpm.Common.Result.{success, Result, ok, err}
use swtpm.Crypto.{Crypto, CryptoLaws, digest_length}
use swtpm.Linear.{Name}
use swtpm.Aes.{
  SymmetricKeyData, chaining_vector, has_aes_evp_fn, of_length, pad_length_of, padded,
  symmetric_key_data_encrypt,
}
use swtpm.Tlv.{added_length, encode, append, find_tag, find_from}
use swtpm.Nvstore.Crypt.{
  IvecState, get_decrypted_data, get_plain_data, plain_entry, encrypt_data, encrypted_entries,
  roll_and_set_global_ivec, swtpm_hmac, calc_hmac, hmac_entry,
}
use swtpm.Nvstore.Entries.{IsUsable}
use swtpm.Nvstore.Blob.{
  plain_of_file, blob_of_plain, state_entries, blob_of_buffer, migration_entries, StateType,
  blobtype_to_statetype, Backend, Nvram, file_of_entries, load_data, get_state_blob,
}
use swtpm.Nvstore.{EncryptionKey, EncryptionMode, blob_header, prepend_header, check_header}

-- the first 32 bytes, filled up with zeros
abbrev pub digest : List ℕ → List ℕ
digest bytes = take digest_length (bytes ++ replicate digest_length 0)

pub length-digest : (bytes : List ℕ) → length (digest bytes) ≡ digest_length
length-digest bytes = omega (
  arith,
  length-take digest_length (bytes ++ replicate digest_length 0),
  length-append bytes (replicate digest_length 0),
  length-replicate {A = ℕ} digest_length 0,
)

abbrev pub open_crypto : Crypto ℕ
open_crypto = record {
  aes_encrypt = λ key iv bytes. some bytes;
  aes_decrypt = λ key iv bytes. some bytes;
  hmac = λ key bytes. some (digest bytes);
  sha256 = digest;
  stack_data = [];
  rand_bytes = λ n r. (true, replicate n r, suc r);
  can_alloc = λ n. true;
}

pub some_or : {A : Type 0} → A → Option A → A
some_or d none = d
some_or d (some x) = x

pub some_injective : {A : Type 0} {x y : A} → some x ≡ some y → x ≡ y
unfolding some_or
some_injective {x = x} e = ap (some_or x) e

pub open_laws : CryptoLaws open_crypto
open_laws = record {
  aes_keeps_length = λ key iv plain bytes whole e. ap length (sym (some_injective e));
  aes_decrypts = λ key iv plain bytes whole e. ap some (sym (some_injective e));
  length-hmac = λ key bytes md e. rw (← some_injective e) (length-digest bytes);
  length-sha256 = length-digest;
  length-rand_bytes = λ n r. length-replicate n r;
}

-- A key of 16 bytes.
abbrev pub short_key : SymmetricKeyData
short_key = record { user_key_length = 16; user_key = replicate 32 9 }

abbrev pub three_bytes : List ℕ
three_bytes = 1 ∷ 2 ∷ 3 ∷ []

-- The same as a file key or a migration key.
abbrev pub state_key : EncryptionKey
state_key = record { data_encmode = EncryptionMode.aes_cbc; symkey = short_key }

pub state_key-IsUsable : IsUsable state_key
state_key-IsUsable = record { mode = refl; sized = inl refl }

abbrev pub no_ivec : IvecState ℕ
no_ivec = record { g_ivec = []; rng = 7 }

pub list_or : {A : Type 0} → A → Result A → A
list_or d (ok a) = a
list_or d (err e) = d

-- A backend that holds one file of any length.
abbrev pub one_place : Backend (List ℕ)
one_place = record { load = λ name w. ok w; store = λ bytes name w. (success, bytes) }

-- A host with a file of its own, no file key, and a migration key.
abbrev pub no_key : EncryptionKey
no_key = record {
  data_encmode = EncryptionMode.unknown;
  symkey = record { user_key_length = 0; user_key = replicate 32 0 };
}

abbrev pub sender : Nvram ℕ (List ℕ)
sender = record {
  filekey = no_key;
  migrationkey = state_key;
  ivec = no_ivec;
  world = 2 ∷ 1 ∷ 0 ∷ 10 ∷ 0 ∷ 0 ∷ 0 ∷ 0 ∷ 0 ∷ 19 ∷ 0 ∷ 1 ∷ 0 ∷ 0 ∷ 0 ∷ 3 ∷ three_bytes;
}

pub sender_loads : load_data open_crypto one_place Name.permall sender ≡ ok three_bytes
unfolding load_data plain_of_file check_header get_decrypted_data get_plain_data plain_entry
    find_tag find_from
sender_loads = refl

abbrev pub moved : Result (List ℕ × Bool) × Nvram ℕ (List ℕ)
moved = get_state_blob open_crypto one_place Name.permall false sender

abbrev pub moved_blob : List ℕ
moved_blob = (list_or ([], false) moved.0).0

pub moved_made :
    get_state_blob open_crypto one_place Name.permall false sender
    ≡ (ok (moved_blob, false), moved.1)
unfolding get_state_blob list_or load_data plain_of_file check_header get_decrypted_data
    get_plain_data plain_entry find_tag find_from blob_of_plain state_entries blob_of_buffer
    migration_entries file_of_entries encrypt_data encrypted_entries symmetric_key_data_encrypt
    chaining_vector roll_and_set_global_ivec has_aes_evp_fn of_length pad_length_of padded calc_hmac
    hmac_entry swtpm_hmac append added_length encode prepend_header blob_header
moved_made = refl

pub permanent_blob : blobtype_to_statetype 1 ≡ some StateType.permanent
unfolding blobtype_to_statetype
permanent_blob = refl

pub length-moved_blob : length moved_blob ≡ 92
unfolding get_state_blob list_or load_data plain_of_file check_header get_decrypted_data
    get_plain_data plain_entry find_tag find_from blob_of_plain state_entries blob_of_buffer
    migration_entries file_of_entries encrypt_data encrypted_entries symmetric_key_data_encrypt
    chaining_vector roll_and_set_global_ivec has_aes_evp_fn of_length pad_length_of padded calc_hmac
    hmac_entry swtpm_hmac append added_length encode prepend_header blob_header
length-moved_blob = refl
