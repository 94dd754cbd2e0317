-- ===== src/Nvstore/Storage.antt =====
-- LoadData, StoreData, GetStateBlob and SetStateBlob of src/swtpm/swtpm_nvstore.c over a backend.
use Prim.Native.Nat.{bit_or}
use swtpm.Common.{
  ℕ, ◌+◌, ◌^◌, ◌≡◌, ◌<◌, ◌≤◌, inl, inr, refl, sym, ap, ◌∙◌, Bool, true, false, Option, some, List,
  u16_mod, u32_mod, length, arith, length-drop,
}
use swtpm.Common.Result.{Rc, success, Result, ok, err, ◌>>=◌, >>=-eq-ok, ok_injective}
use swtpm.Crypto.{Crypto, CryptoLaws}
use swtpm.Linear.{Name}
use swtpm.Tlv.{tag_data}
use swtpm.Nvstore.{
  EncryptionKey, header_size, has_flag, aes256_key_size, flag_encrypted, flag_encrypted_256bit_key,
}
use swtpm.Nvstore.Crypt.{IvecState, get_decrypted_data}
use swtpm.Nvstore.Blob.{
  StateType, blobtype_to_statetype, Backend, Nvram, or_flag, is_256bit, plain_of_file, file_entries,
  file_of_entries, blob_of_plain, load_data, store_file, store_data_intern, get_state_blob,
  set_state_blob,
}
use swtpm.Nvstore.Header.{check_header-prepend_header, check_header-Accepted}
use swtpm.Nvstore.Layers.{IsKey, get_plain_data-append, state_tags}
use swtpm.Nvstore.Transfer.{file_of_entries-ok, plain_of_blob-blob_of_plain}
use swtpm.Nvstore.RoundTrip.{decrypt_data-encrypt_data, length-encrypted}

-- What LoadData and StoreData rely on in a backend: bytes that it can take and has stored under a
-- name are those that it loads from there.
pub record BackendLaws {W : Type 0} (backend : Backend W) : Type 1 where
  pub CanTake : List ℕ → Name → W → Type 0
  pub load-store :
      (bytes : List ℕ) (name : Name) (w w' : W)
      → CanTake bytes name w
      → backend.store bytes name w ≡ (success, w')
      → backend.load name w' ≡ ok bytes

key_flag :
    (b : Bool)
    → (or_flag b flag_encrypted_256bit_key (bit_or 0 flag_encrypted) < u16_mod)
      × (has_flag
            (or_flag b flag_encrypted_256bit_key (bit_or 0 flag_encrypted))
            flag_encrypted_256bit_key
          ≡ b)
key_flag true = (omega arith, refl)
key_flag false = (omega arith, refl)

module _ {R W : Type 0} (crypto : Crypto R) (backend : Backend W) where
  -- A store that succeeds has had bytes, and the backend has stored them.
  store_file-ok :
      (r : Result (List ℕ)) (name : Name) (s s' : Nvram R W)
      → store_file crypto backend r name s ≡ (success, s')
      → (file : List ℕ) × (r ≡ ok file)
        × (s'.filekey ≡ s.filekey)
        × (backend.store file name s.world ≡ (success, s'.world))
  unfolding store_file
  store_file-ok (err e) name s s' h = cc
  store_file-ok (ok file) name s s' h =
      let same = ap (λ (p : Rc × Nvram R W). p.1) h in
      (
        file,
        refl,
        sym (ap (λ (n : Nvram R W). n.filekey) same),
        ap (λ (p : Rc × Nvram R W). (p.0, p.1.world)) h,
      )

module _ {R : Type 0} {crypto : Crypto R} (laws : CryptoLaws crypto)
    (enough : (n : ℕ) → n < u32_mod → crypto.can_alloc n ≡ true) (filekey : EncryptionKey) where
  -- The bytes of a file that StoreData makes of a state give the state.
  plain_of_file-file_entries :
      (plain : List ℕ) (s : IvecState R) (file : List ℕ)
      → IsKey filekey
      → length plain ≤ 2 ^ 31
      → length s.g_ivec ≤ aes256_key_size
      → file_of_entries crypto
          (file_entries crypto filekey plain true s).0.0
          (file_entries crypto filekey plain true s).0.1
        ≡ ok file
      → (plain_of_file crypto filekey file ≡ ok plain)
        × (header_size ≤ length file)
        × (length file ≤ length plain + 124)
  unfolding file_entries plain_of_file get_decrypted_data
  plain_of_file-file_entries plain s file (inl unset) small short h =
      let (td, buffer, e, a, made) =
        file_of_entries-ok laws enough filekey filekey _ _ (rw unset at h) in
      let r =
        get_plain_data-append laws enough tag_data plain buffer (omega arith) (omega arith)
          (rw (sym (ok_injective e)) at a) in
      let hdr =
        check_header-prepend_header crypto.can_alloc buffer file 0 (omega arith)
          (omega (arith, r.1)) made in
      (
        rw (hdr.0, hdr.1, unset) r.0,
        (check_header-Accepted file hdr.0).0,
        omega (arith, ap length hdr.1, length-drop header_size file, r.1),
      )
  plain_of_file-file_entries plain s file (inr (set, usable)) small short h =
      let flags = or_flag (is_256bit filekey) flag_encrypted_256bit_key (bit_or 0 flag_encrypted) in
      let (td, buffer, e, a, made) =
        file_of_entries-ok laws enough filekey filekey _ flags (rw set at h) in
      let f = key_flag (is_256bit filekey) in
      let n =
        length-encrypted laws filekey state_tags plain buffer usable (omega arith) s td short e a in
      let hdr =
        check_header-prepend_header crypto.can_alloc buffer file flags f.0 (omega (arith, n.0))
          made in
      (
        rw (hdr.0, hdr.1, set)
            (decrypt_data-encrypt_data laws filekey state_tags plain buffer usable (omega arith) s
              flags flag_encrypted_256bit_key td short f.1 e a),
        (check_header-Accepted file hdr.0).0,
        omega (arith, ap length hdr.1, length-drop header_size file, n.0),
      )

module _ {R W : Type 0} (crypto : Crypto R) (backend : Backend W) where
  -- What GetStateBlob has made of the state that it has loaded.
  get_state_blob-ok :
      (plain blob : List ℕ) (is_encrypted decrypt : Bool) (name : Name) (s s' : Nvram R W)
      → load_data crypto backend name s ≡ ok plain
      → get_state_blob crypto backend name decrypt s ≡ (ok (blob, is_encrypted), s')
      → ((blob_of_plain crypto s.filekey s.migrationkey plain decrypt s.ivec).0.0 ≡ ok blob)
        × ((blob_of_plain crypto s.filekey s.migrationkey plain decrypt s.ivec).0.1 ≡ is_encrypted)
  unfolding get_state_blob
  get_state_blob-ok plain blob is_encrypted decrypt name s s' loaded h =
      let r = blob_of_plain crypto s.filekey s.migrationkey plain decrypt s.ivec in
      let e : (r.0.0 >>= λ bytes. ok (bytes, r.0.1)) ≡ ok (blob, is_encrypted) =
        ap (λ p. p.0) (rw (loaded, get_state_blob) at h) in
      let (bytes, made, same) = >>=-eq-ok r.0.0 _ e in
      (made ∙ ap (λ p. ok p.0) (ok_injective same), ap (λ p. p.1) (ok_injective same))

module _ {R W : Type 0} {crypto : Crypto R} (laws : CryptoLaws crypto)
    (enough : (n : ℕ) → n < u32_mod → crypto.can_alloc n ≡ true) (backend : Backend W) where
  -- Under CryptoLaws and BackendLaws. The file key is set or not, malloc gives memory, the state has at most 2 ^ 31 bytes and g_ivec at
  -- most 32, and the backend can take each file of at least a header's 10 bytes that is at most 124 bytes longer than the state: where
  -- StoreData succeeds, LoadData under the same name gives the state.
  pub load_data-store_data_intern :
      (works : BackendLaws backend) (plain : List ℕ) (name : Name) (s s' : Nvram R W)
      → IsKey s.filekey
      → length plain ≤ 2 ^ 31
      → length s.ivec.g_ivec ≤ aes256_key_size
      → ((file : List ℕ)
          → header_size ≤ length file
          → length file ≤ length plain + 124
          → works.CanTake file name s.world)
      → store_data_intern crypto backend plain name true s ≡ (success, s')
      → load_data crypto backend name s' ≡ ok plain
  unfolding store_data_intern load_data
  load_data-store_data_intern works plain name s s' key small short takes h =
      let ivec = (file_entries crypto s.filekey plain true s.ivec).1 in
      let (file, made, same, stored) =
        store_file-ok crypto backend _ name (record s { ivec = ivec }) s' h in
      let r =
        plain_of_file-file_entries laws enough s.filekey plain s.ivec file key small short made in
      rw (works.load-store file name s.world s'.world (takes file r.1 r.2) stored, same) r.0

  -- Under CryptoLaws. The keys of the host are set or not, malloc gives memory, the state that is loaded has at most
  -- 2 ^ 31 bytes and g_ivec at most 32. Where GetStateBlob gives a blob, SetStateBlob with this blob,
  -- with what GetStateBlob says of its encryption, and on a host with the same keys hands just that
  -- state to TPMLIB_SetState, and gives its code.
  pub set_state_blob-get_state_blob :
      {T W' : Type 0} (set_state : StateType → Option (List ℕ) → T → Rc × T) (plain blob : List ℕ)
      (is_encrypted decrypt : Bool) (name : Name) (blobtype : ℕ) (st : StateType) (s s' : Nvram R W)
      (s'' : Nvram R W') (t : T)
      → IsKey s.filekey
      → IsKey s.migrationkey
      → s''.filekey ≡ s.filekey
      → s''.migrationkey ≡ s.migrationkey
      → length plain ≤ 2 ^ 31
      → length s.ivec.g_ivec ≤ aes256_key_size
      → load_data crypto backend name s ≡ ok plain
      → blobtype_to_statetype blobtype ≡ some st
      → get_state_blob crypto backend name decrypt s ≡ (ok (blob, is_encrypted), s')
      → set_state_blob crypto set_state blob is_encrypted blobtype s'' t
        ≡ set_state st (some plain) t
  unfolding set_state_blob
  set_state_blob-get_state_blob set_state plain blob is_encrypted decrypt name blobtype st s s' s''
        t key mkey same same' small short loaded known h =
      let (made, flag) =
        get_state_blob-ok crypto backend plain blob is_encrypted decrypt name s s' loaded h in
      let r =
        plain_of_blob-blob_of_plain laws enough s.filekey s.migrationkey plain decrypt s.ivec key
          mkey small short made in
      rw (same, same', known, rw flag at r) refl
