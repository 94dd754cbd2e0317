-- ===== src/Linear/Total.antt =====
-- Over a backing store that keeps its laws and gives what it is asked for, the operations of
-- src/swtpm/swtpm_nvstore_linear.c that write succeed, and do what they are for.
use swtpm.Common.{
  ℕ, ◌+◌, ◌<◌, ◌≤◌, ◌≡◌, ◌^◌, ap, List, none, some, ◌==◌, if◌then◌else◌, u32_mod, length,
}
use swtpm.Common.Result.{Rc, success}
use swtpm.Linear.{Name, StoreOps, State, max_states, get_file_nr, round_to_next_power_of_2}
use swtpm.Linear.Ops.{store_data, delete_name}
use swtpm.Linear.Resize.{StoreLaws, IsValid}
use swtpm.Linear.Contents.{contents}
use swtpm.Linear.Refine.{store_data-contents, delete_name-contents}
use swtpm.Linear.Progress.{IsObliging, store_data-Succeeds, delete_name-Succeeds}

module _ {W : Type 0} {ops : StoreOps W} (laws : StoreLaws ops) (obliging : IsObliging ops) where
  with_state : (r : Rc × State W) → r.0 ≡ success → r ≡ (success, r.1)
  with_state r e = ap (λ c. (c, r.1)) e

  -- Under StoreLaws, with a store that can be resized to any length below 2 ^ 32 and whose flushes succeed.
  -- In a valid state and for a known name, data of 1 to 2 ^ 31 bytes, which leave the whole store below
  -- 2 ^ 32 bytes with their rounded section: StoreData succeeds, the state stays valid, the file holds just the
  -- data, and the others what they held.
  pub store_data-Stores :
      (s : State W) (name : Name) (nr : ℕ) (filedata : List ℕ)
      → IsValid laws s
      → get_file_nr name ≡ some nr
      → 0 < length filedata
      → length filedata ≤ 2 ^ 31
      → s.length + round_to_next_power_of_2 (length filedata) < u32_mod
      → (s' : State W) × (store_data ops filedata name s ≡ (success, s'))
        × IsValid laws s'
        × ((j : ℕ)
            → j < max_states
            → contents s' j ≡ (if j == nr then some filedata else contents s j))
  store_data-Stores s name nr filedata v e pos limit no_wrap =
      let r = store_data ops filedata name s in
      let done = with_state r (store_data-Succeeds obliging s name nr filedata e) in
      let c = store_data-contents laws s r.1 name nr filedata v e pos limit no_wrap done in
      (r.1, done, c.0, c.1)

  -- Under StoreLaws, with a store that can be resized to any length below 2 ^ 32 and whose flushes succeed.
  -- In a valid state and for a known name, DeleteName succeeds, the state stays valid, the name has no data, and
  -- the other files hold what they held.
  pub delete_name-Deletes :
      (s : State W) (name : Name) (nr : ℕ)
      → IsValid laws s
      → get_file_nr name ≡ some nr
      → (s' : State W) × (delete_name ops name s ≡ (success, s'))
        × IsValid laws s'
        × ((j : ℕ) → j < max_states → contents s' j ≡ (if j == nr then none else contents s j))
  delete_name-Deletes s name nr v e =
      let r = delete_name ops name s in
      let done = with_state r (delete_name-Succeeds obliging s name nr e) in
      let c = delete_name-contents laws s r.1 name nr v e done in (r.1, done, c.0, c.1)
