-- ===== src/Linear/Tests.antt =====
-- The theorems on src/swtpm/swtpm_nvstore_linear.c at a store with two files, over a backing store
-- that grows and shrinks.
use swtpm.Common.{
  ℕ, ◌+◌, ◌<◌, ◌≤◌, ◌≡◌, ◌^◌, refl, ap, ◌∙◌, false, Bool, true, Option, none, some, [], ◌∷◌,
  u32_mod, ltb, lt→ltb, inr, if◌then◌else◌, ◌==◌, arith,
}
use swtpm.Common.Result.{Rc, Result, ok, err, success, fail, size}
use swtpm.Common.Memory.{Memory}
use swtpm.Linear.{
  Name, Region, StoreOps, State, max_states, linear_magic, linear_version, get_file_nr, find_end,
  shift_files, round_to_next_power_of_2,
}
use swtpm.Linear.Ops.{
  store_data, put_data, store_placed, make_room, owing, alloc_file, set_file, safe_resize,
  finish_store, flush_data, flush_header, flush_all, remove_file, set_length, compacted, load_data,
  delete_name,
}
use swtpm.Linear.Contents.{contents}
use swtpm.Linear.FileStore.{page_down, msync_range, ArePages, msync_range-ArePages}
use swtpm.Linear.Resize.{StoreLaws, IsValid}
use swtpm.Linear.Progress.{IsObliging}
use swtpm.Linear.Total.{store_data-Stores, delete_name-Deletes}
use swtpm.Aes.{
  chaining_vector, has_aes_evp_fn, of_length, pad_length_of, padded, symmetric_key_data_encrypt,
}
use swtpm.Tlv.{added_length, encode, append}
use swtpm.Nvstore.{prepend_header, blob_header}
use swtpm.Nvstore.Crypt.{
  encrypt_data, encrypted_entries, roll_and_set_global_ivec, swtpm_hmac, calc_hmac, hmac_entry,
}
use swtpm.Nvstore.Blob
use swtpm.Nvstore.Blob.{Nvram, file_entries, file_of_entries, store_file, store_data_intern}
use swtpm.Nvstore.Storage.{load_data-store_data_intern}
use swtpm.Nvstore.OverLinear.{linear_backend, linear_laws, can_take, load_data-store_data_linear}
use swtpm.Nvstore.Samples.{
  open_crypto, open_laws, three_bytes, state_key, state_key-IsUsable, no_ivec,
}
use swtpm.Linear.Refine.{store_data-contents, delete_name-contents, load_data-contents, loaded}

-- A store of less than 2 ^ 32 bytes. Its state is the number of bytes that are mapped.
abbrev grow_if : Bool → Memory → ℕ → ℕ → Result Region × ℕ
grow_if true m n w = (ok (record { memory = m; length = n }), n)
grow_if false m n w = (err size, w)

abbrev grow : Memory → ℕ → ℕ → Result Region × ℕ
grow m n w = grow_if (ltb n (u32_mod)) m n w

abbrev keep_map : Memory → ℕ → ℕ → ℕ → Rc × ℕ
keep_map _ _ _ w = (success, w)

abbrev sample_store : StoreOps ℕ
sample_store = record {
  open_store = λ w. (err fail, w);
  lock = λ _ w. (success, w);
  unlock = λ w. w;
  flush = some keep_map;
  resize = some grow;
  cleanup = λ _ w. w;
}

grown :
    (m : Memory) (n w w' : ℕ) (region : Region)
    → (b : Bool) → ltb n (u32_mod) ≡ b
    → grow_if b m n w ≡ (ok region, w')
    → (region.length < u32_mod)
      × (region.length ≤ w')
      × ((i : ℕ) → i < n → i < w → region.memory i ≡ m i)
grown m n w w' region true test e = ground arith
grown m n w w' region false test e = cc

some_value : {A : Type 0} → A → Option A → A
some_value d none = d
some_value d (some x) = x

is_grow :
    (resize : Memory → ℕ → ℕ → Result Region × ℕ)
    → sample_store.resize ≡ some resize
    → grow ≡ resize
unfolding some_value
is_grow resize has = ap (some_value grow) has

keeps_map : (f : Memory → ℕ → ℕ → ℕ → Rc × ℕ) → some keep_map ≡ some f → keep_map ≡ f
unfolding some_value
keeps_map f has = ap (some_value keep_map) has

store_laws : StoreLaws sample_store
store_laws = record {
  mapped = λ w. w;
  resize_keeps = λ resize has m n w w' region e.
      grown m n w w' region (ltb n (u32_mod)) refl (ap (λ f. f m n w) (is_grow resize has) ∙ e);
  flush_keeps = λ flush has m offset count w. rw (← keeps_map flush has) (omega arith);
}

abbrev formatted : State ℕ
formatted = record {
  initialized = true;
  loaded_uri = none;
  hdr = record {
    magic = linear_magic;
    version = linear_version;
    hdrsize = 192;
    files = λ _. record { offset = 0; data_length = 0; section_length = 0 };
  };
  memory = λ _. 0;
  length = 192;
  world = 192;
}

formatted-IsValid : IsValid store_laws formatted
unfolding store_laws
formatted-IsValid = record {
  laid_out = record {
    hdr_fits = omega arith;
    hdr_in = omega arith;
    small = omega arith;
    in_space = λ i p u. absurd (u refl);
    apart = λ i j p q ne u. absurd (u refl);
    no_hole = λ i p u. absurd (u refl);
  };
  within_map = omega arith;
}

abbrev one_file : State ℕ
one_file = (store_data sample_store (1 ∷ 2 ∷ 3 ∷ []) Name.permall formatted).1

one_file_stored :
    store_data sample_store (1 ∷ 2 ∷ 3 ∷ []) Name.permall formatted ≡ (success, one_file)
unfolding store_data get_file_nr store_placed make_room owing alloc_file set_file safe_resize
    find_end round_to_next_power_of_2 finish_store flush_data flush_header put_data
one_file_stored = refl

one_file_small : formatted.length + round_to_next_power_of_2 3 < u32_mod
unfolding round_to_next_power_of_2
one_file_small = omega arith

two_files_small : one_file.length + round_to_next_power_of_2 2 < u32_mod
unfolding store_data get_file_nr store_placed make_room owing alloc_file set_file safe_resize
    find_end round_to_next_power_of_2 finish_store flush_data flush_header put_data
two_files_small = omega arith

file_0 : get_file_nr Name.permall ≡ some 0
unfolding get_file_nr
file_0 = refl

file_1 : get_file_nr Name.volatilestate ≡ some 1
unfolding get_file_nr
file_1 = refl

one_file-IsValid : IsValid store_laws one_file
one_file-IsValid =
    (store_data-contents store_laws formatted one_file Name.permall 0 (1 ∷ 2 ∷ 3 ∷ [])
      formatted-IsValid file_0 (omega arith) (omega arith) one_file_small one_file_stored).0

store_data-contents_example :
    IsValid store_laws one_file
    × ((j : ℕ)
        → j < max_states
        → contents one_file j ≡ (if j == 0 then some (1 ∷ 2 ∷ 3 ∷ []) else contents formatted j))
store_data-contents_example =
    store_data-contents store_laws formatted one_file Name.permall 0 (1 ∷ 2 ∷ 3 ∷ [])
      formatted-IsValid file_0 (omega arith) (omega arith) one_file_small one_file_stored

load_data-contents_example :
    load_data (λ _. true) Name.permall one_file ≡ loaded (λ _. true) (contents one_file 0)
load_data-contents_example =
    load_data-contents store_laws (λ _. true) one_file Name.permall 0 one_file-IsValid file_0

abbrev two_files : State ℕ
two_files = (store_data sample_store (4 ∷ 5 ∷ []) Name.volatilestate one_file).1

two_files_stored :
    store_data sample_store (4 ∷ 5 ∷ []) Name.volatilestate one_file ≡ (success, two_files)
unfolding store_data get_file_nr store_placed make_room owing alloc_file set_file safe_resize
    find_end round_to_next_power_of_2 finish_store flush_data flush_header put_data
two_files_stored = refl

two_files-IsValid : IsValid store_laws two_files
two_files-IsValid =
    (store_data-contents store_laws one_file two_files Name.volatilestate 1 (4 ∷ 5 ∷ [])
      one_file-IsValid file_1 (omega arith) (omega arith) two_files_small two_files_stored).0

-- The first file goes, and the second one moves to its place.
abbrev second_file : State ℕ
second_file = (delete_name sample_store Name.permall two_files).1

first_file_deleted : delete_name sample_store Name.permall two_files ≡ (success, second_file)
unfolding delete_name flush_all remove_file set_length compacted shift_files store_data get_file_nr
    store_placed make_room owing alloc_file set_file safe_resize find_end round_to_next_power_of_2
    finish_store flush_data flush_header put_data
first_file_deleted = refl

delete_name-contents_example :
    IsValid store_laws second_file
    × ((j : ℕ)
        → j < max_states
        → contents second_file j ≡ (if j == 0 then none else contents two_files j))
delete_name-contents_example =
    delete_name-contents store_laws two_files second_file Name.permall 0 two_files-IsValid file_0
      first_file_deleted

sample_store-IsObliging : IsObliging sample_store
sample_store-IsObliging = record {
  resize = grow;
  has_resize = refl;
  grows =
      λ m n w p. rw (lt→ltb n u32_mod p) (record { memory = m; length = n }, n, refl, omega arith);
  flushes = λ flush has m offset count w. rw (← keeps_map flush has) refl;
}

store_data-Stores_example :
    (s' : State ℕ) × (store_data sample_store (1 ∷ 2 ∷ 3 ∷ []) Name.permall formatted
      ≡ (success, s'))
    × IsValid store_laws s'
    × ((j : ℕ)
        → j < max_states
        → contents s' j ≡ (if j == 0 then some (1 ∷ 2 ∷ 3 ∷ []) else contents formatted j))
store_data-Stores_example =
    store_data-Stores store_laws sample_store-IsObliging formatted Name.permall 0 (1 ∷ 2 ∷ 3 ∷ [])
      formatted-IsValid file_0 (omega arith) (omega arith) one_file_small

delete_name-Deletes_example :
    (s' : State ℕ) × (delete_name sample_store Name.permall two_files ≡ (success, s'))
    × IsValid store_laws s'
    × ((j : ℕ) → j < max_states → contents s' j ≡ (if j == 0 then none else contents two_files j))
delete_name-Deletes_example =
    delete_name-Deletes store_laws sample_store-IsObliging two_files Name.permall 0
      two_files-IsValid file_0

-- A host whose state is in the linear store, under a file key.
abbrev host : Nvram ℕ (State ℕ)
host = record { filekey = state_key; migrationkey = state_key; ivec = no_ivec; world = formatted }

abbrev stored : Nvram ℕ (State ℕ)
stored =
    (store_data_intern open_crypto (linear_backend open_crypto sample_store) three_bytes
      Name.permall true host).1

host_stores :
    store_data_intern open_crypto
      (linear_backend open_crypto sample_store)
      three_bytes
      Name.permall
      true
      host
    ≡ (success, stored)
unfolding store_data get_file_nr store_placed make_room owing alloc_file set_file safe_resize
    find_end round_to_next_power_of_2 finish_store flush_data flush_header put_data
    store_data_intern store_file file_entries file_of_entries encrypt_data encrypted_entries
    symmetric_key_data_encrypt chaining_vector roll_and_set_global_ivec has_aes_evp_fn of_length
    pad_length_of padded calc_hmac hmac_entry swtpm_hmac append added_length encode prepend_header
    blob_header
host_stores = refl

load_data-store_data_linear_example :
    Blob.load_data open_crypto (linear_backend open_crypto sample_store) Name.permall stored
    ≡ ok three_bytes
load_data-store_data_linear_example =
    load_data-store_data_linear open_laws (λ n p. refl) store_laws three_bytes Name.permall 0 host
      stored formatted-IsValid file_0 (omega arith) (inr (refl, state_key-IsUsable)) (omega arith)
      (omega arith) host_stores

load_data-store_data_intern_example :
    Blob.load_data open_crypto (linear_backend open_crypto sample_store) Name.permall stored
    ≡ ok three_bytes
unfolding linear_laws
load_data-store_data_intern_example =
    load_data-store_data_intern open_laws (λ n p. refl) (linear_backend open_crypto sample_store)
      (linear_laws open_crypto store_laws (λ n p. refl)) three_bytes Name.permall host stored
      (inr (refl, state_key-IsUsable)) (omega arith) (omega arith)
      (λ file some_bytes few.
        can_take open_crypto store_laws (λ n p. refl) file Name.permall 0 formatted
          formatted-IsValid file_0 (omega arith) some_bytes (omega arith))
      host_stores

-- A file of 4000 bytes behind the header: its last bytes are on the second page.
msync_range-ArePages_example :
    (start : ℕ) × (size : ℕ) × (msync_range (2 ^ 12) 192 4000 ≡ some (start, size))
    × ArePages (2 ^ 12) 192 4000 start size
msync_range-ArePages_example =
    msync_range-ArePages 12 192 4000 (omega arith) (omega arith) (omega arith)

last_page_missed : msync_range 4096 192 4000 ≡ some (0, 4096)
unfolding msync_range page_down
last_page_missed = refl
