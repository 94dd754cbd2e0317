-- ===== src/Nvstore/OverLinear.antt =====
-- src/swtpm/swtpm_nvstore.c over the linear backend of swtpm_nvstore_linear.c.
use swtpm.Common.{
  ℕ, ◌+◌, ◌^◌, ◌≤◌, ◌<◌, ◌≡◌, refl, ◌∙◌, true, some, List, ◌==◌, length, u32_mod, arith,
  if◌then◌else◌,
}
use swtpm.Common.Result.{success, ok}
use swtpm.Crypto.{Crypto, CryptoLaws}
use swtpm.Linear.{Name, StoreOps, State, get_file_nr, round_to_next_power_of_2}
use swtpm.Linear.Ops.{load_data, store_data}
use swtpm.Linear.Resize.{StoreLaws, IsValid}
use swtpm.Linear.Contents.{contents}
use swtpm.Linear.Refine.{store_data-contents, load_data-contents, get_file_nr-lt}
use swtpm.Linear.Round.{round_bounds}
use swtpm.Nvstore.{header_size, aes256_key_size}
use swtpm.Nvstore.Layers.{IsKey}
use swtpm.Nvstore.Blob
use swtpm.Nvstore.Blob.{Backend, Nvram, store_data_intern}
use swtpm.Nvstore.Storage.{BackendLaws, load_data-store_data_intern}

-- The load and store operations of nvram_linear_ops.
abbrev pub linear_backend : {R W : Type 0} → Crypto R → StoreOps W → Backend (State W)
linear_backend crypto ops = record {
  load = λ name s. load_data crypto.can_alloc name s;
  store = λ bytes name s. store_data ops bytes name s;
}

module _ {R W : Type 0} (crypto : Crypto R) {ops : StoreOps W} (laws : StoreLaws ops)
    (enough : (n : ℕ) → n < u32_mod → crypto.can_alloc n ≡ true) where
  -- Files of at least a byte and at most 2 ^ 31, which leave the store below 2 ^ 32 bytes.
  pub record CanTake (bytes : List ℕ) (name : Name) (s : State W) : Type 0 where
    pub valid : IsValid laws s
    pub nr : ℕ
    pub known : get_file_nr name ≡ some nr
    pub positive : 0 < length bytes
    pub limit : length bytes ≤ 2 ^ 31
    pub no_wrap : s.length + round_to_next_power_of_2 (length bytes) < u32_mod

  -- A store that can take a file gives it back.
  pub linear-load-store :
      (bytes : List ℕ) (name : Name) (s s' : State W)
      → CanTake bytes name s
      → store_data ops bytes name s ≡ (success, s')
      → load_data crypto.can_alloc name s' ≡ ok bytes
  linear-load-store bytes name s s' c h =
      let (valid, holds) =
        store_data-contents laws s s' name c.nr bytes c.valid c.known c.positive c.limit c.no_wrap
          h in
      let e : contents s' c.nr ≡ some bytes =
        holds c.nr (get_file_nr-lt name c.nr c.known) ∙ self in
      let alloc : crypto.can_alloc (length bytes) ≡ true =
        enough (length bytes) (omega (arith, c.limit)) in
      load_data-contents laws crypto.can_alloc s' name c.nr valid c.known ∙ rw (e, alloc) refl
    where
      self : (if c.nr == c.nr then some bytes else contents s c.nr) ≡ some bytes
      self = ground arith

  unfoldable pub linear_laws : BackendLaws (linear_backend crypto ops)
  linear_laws = record { CanTake = CanTake; load-store = linear-load-store }

  -- A valid store of less than 2 ^ 31 bytes can take every file of 1 to 2 ^ 31 bytes, since it is rounded to
  -- no more.
  pub can_take :
      (file : List ℕ) (name : Name) (nr : ℕ) (s : State W)
      → IsValid laws s
      → get_file_nr name ≡ some nr
      → s.length < 2 ^ 31
      → header_size ≤ length file
      → length file ≤ 2 ^ 31
      → CanTake file name s
  can_take file name nr s v e room some_bytes limit =
      let r = round_bounds (length file) (omega (arith, some_bytes)) limit in
      record {
        valid = v;
        nr = nr;
        known = e;
        positive = omega (arith, some_bytes);
        limit = limit;
        no_wrap = omega (arith, room, r.1);
      }

module _ {R W : Type 0} {crypto : Crypto R} (crypto_laws : CryptoLaws crypto)
    (enough : (n : ℕ) → n < u32_mod → crypto.can_alloc n ≡ true) {ops : StoreOps W}
    (laws : StoreLaws ops) where
  -- Under CryptoLaws and StoreLaws, from the state of the TPM to the bytes of the linear store and back. The store is valid and has less than
  -- 2 ^ 31 bytes, the name is known, the file key is set or not, malloc gives memory, g_ivec has at most 32 bytes, and the
  -- state, with the 124 bytes that its file may have more, at most 2 ^ 31: where StoreData
  -- succeeds over the linear backend, LoadData under the same name gives the state.
  pub load_data-store_data_linear :
      (plain : List ℕ) (name : Name) (nr : ℕ) (s s' : Nvram R (State W))
      → IsValid laws s.world
      → get_file_nr name ≡ some nr
      → s.world.length < 2 ^ 31
      → IsKey s.filekey
      → length plain + 124 ≤ 2 ^ 31
      → length s.ivec.g_ivec ≤ aes256_key_size
      → store_data_intern crypto (linear_backend crypto ops) plain name true s ≡ (success, s')
      → Blob.load_data crypto (linear_backend crypto ops) name s' ≡ ok plain
  unfolding linear_laws
  load_data-store_data_linear plain name nr s s' v e room key limit short h =
      load_data-store_data_intern crypto_laws enough (linear_backend crypto ops)
        (linear_laws crypto laws enough) plain name s s' key (omega (arith, limit)) short
        (λ file some_bytes few.
          can_take crypto laws enough file name nr s.world v e room some_bytes
            (omega (arith, limit, few)))
        h
