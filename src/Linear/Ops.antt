-- ===== src/Linear/Ops.antt =====
-- The operations of src/swtpm/swtpm_nvstore_linear.c. Each gives its TPM_RESULT beside the state.
use swtpm.Common.{
  ℕ, Option, ◌+◌, ◌-◌, ◌%◌, Bool, true, false, none, some, List, u32_mod, ltb, ◌==◌, if◌then◌else◌,
  length,
}
use swtpm.Common.Result.{Rc, Result, ok, err, success, error, fail, retry, size}
use swtpm.Common.Memory.{Memory, read, write, move, update}
use swtpm.Linear.{
  Name, File, Region, StoreOps, State, Removal, max_states, get_file_nr, round_to_next_power_of_2,
  find_end, shift_files,
}

-- Which flush StoreData owes: needs_hdr_flush, needs_full_flush.
pub data Owed : Type 0 where
  nothing header everything : Owed

module _ {W : Type 0} where
  -- the part of SafeResize behind ops->resize
  unfoldable pub resized : ℕ → State W → Result Region × W → Rc × State W
  resized new_size s (err e, w) = (error e, record s { world = w })
  resized new_size s (ok region, w) =
      let s' = record s { memory = region.memory; length = region.length; world = w } in
      if ltb region.length new_size then (error size, s') else (success, s')

  -- SafeResize, by whether there is an ops->resize
  unfoldable pub resize_with :
      Option (Memory → ℕ → W → Result Region × W) → ℕ → State W → Rc × State W
  unfolding resized
  resize_with none new_size s = if ltb new_size s.length then (success, s) else (error size, s)
  resize_with (some resize) new_size s = resized new_size s (resize s.memory new_size s.world)

  -- a call of ops->flush, if there is one
  unfoldable pub flush_with : Option (Memory → ℕ → ℕ → W → Rc × W) → ℕ → ℕ → State W → Rc × State W
  flush_with none offset count s = (success, s)
  flush_with (some flush) offset count s =
      let (rc, w) = flush s.memory offset count s.world in (rc, record s { world = w })

  -- the end of AllocFile, behind the resize
  unfoldable pub set_file : ℕ → File → Rc × State W → Rc × State W
  set_file file_nr file (success, s) =
      (success, record s { hdr = record s.hdr { files = update s.hdr.files file_nr file } })
  set_file file_nr file (error e, s) = (error e, s)

  -- the end of RemoveFile: `state.length = new_len` if the resize succeeds
  unfoldable pub set_length : ℕ → Rc × State W → Rc × State W
  set_length new_len (success, s) = (success, record s { length = new_len })
  set_length new_len (error e, s) = (error e, s)

  -- what RemoveFile's loop finds
  unfoldable pub removal : ℕ → State W → Removal
  removal file_nr s = shift_files (s.hdr.files file_nr) max_states 0 (record {
    files = update s.hdr.files file_nr (record { offset = 0; data_length = 0; section_length = 0 });
    next_offset = 0xffffffff;
    state_end = 0;
  })

  -- the header without the file, and the files behind it moved forward
  unfoldable pub compacted : ℕ → State W → State W
  unfolding removal
  compacted file_nr s =
      let old = s.hdr.files file_nr in
      let r = removal file_nr s in
      record s {
        hdr = record s.hdr { files = r.files };
        memory =
            if r.next_offset == 0xffffffff
            then s.memory
            else move s.memory old.offset r.next_offset
                ((r.state_end + u32_mod - r.next_offset) % u32_mod);
      }

  -- SWTPM_NVRAM_LoadData_Linear, with a place for the data. `can_alloc n` is whether malloc gives
  -- n bytes.
  unfoldable pub load_data : (ℕ → Bool) → Name → State W → Result (List ℕ)
  unfolding get_file_nr
  load_data can_alloc name s = elim (get_file_nr name) [
    | none ↦ err fail
    | some file_nr ↦
        let file = s.hdr.files file_nr in
        if file.offset == 0
        then err retry
        else if ltb s.length ((file.offset + file.data_length) % u32_mod)
        then err fail
        else if can_alloc file.data_length
        then ok (read s.memory file.offset file.data_length)
        else err fail
  ]

  -- AllocFile as StoreData calls it: an error ends StoreData
  unfoldable pub owing : Owed → Rc × State W → Result Owed × State W
  owing o (success, s) = (ok o, s)
  owing o (error e, s) = (err e, s)

  -- the new data_length, and the memcpy
  unfoldable pub put_data : ℕ → List ℕ → State W → State W
  put_data file_nr filedata s =
      let file = s.hdr.files file_nr in
      record s {
        hdr = record s.hdr {
          files = update s.hdr.files file_nr (record file { data_length = length filedata });
        };
        memory = write s.memory file.offset filedata;
      }

  -- SWTPM_NVRAM_CheckState_Linear: the code, or *blobsize
  unfoldable pub check_state : Name → State W → Result ℕ
  unfolding get_file_nr
  check_state name s = elim (get_file_nr name) [
    | none ↦ err fail
    | some file_nr ↦
        let file = s.hdr.files file_nr in
        if file.offset == 0 then err retry else ok file.data_length
  ]

module _ {W : Type 0} (ops : StoreOps W) where
  -- ops->flush, where there is one
  unfoldable pub flush_range : ℕ → ℕ → State W → Rc × State W
  unfolding flush_with
  flush_range = flush_with ops.flush

  -- SWTPM_NVRAM_Linear_FlushHeader
  unfoldable pub flush_header : State W → Rc × State W
  unfolding flush_range
  flush_header s = flush_range 0 s.hdr.hdrsize s

  -- SWTPM_NVRAM_Linear_SafeResize
  unfoldable pub safe_resize : ℕ → State W → Rc × State W
  unfolding resize_with
  safe_resize = resize_with ops.resize

  -- SWTPM_NVRAM_Linear_AllocFile
  unfoldable pub alloc_file : ℕ → ℕ → State W → Rc × State W
  alloc_file file_nr n s =
      let section_size = round_to_next_power_of_2 n in
      let new_offset = find_end s.hdr.files max_states 0 s.hdr.hdrsize in
      let new_size = (new_offset + section_size) % u32_mod in
      let file : File = record {
        offset = new_offset;
        data_length = n;
        section_length = section_size;
      } in
      set_file file_nr file (safe_resize new_size s)

  -- SWTPM_NVRAM_Linear_RemoveFile
  unfoldable pub remove_file : ℕ → Bool → State W → Rc × State W
  remove_file file_nr resize s =
      let old = s.hdr.files file_nr in
      if old.offset == 0
      then (success, s)
      else if resize
      then (let new_len = (s.length + u32_mod - old.section_length) % u32_mod in
          set_length new_len (safe_resize new_len (compacted file_nr s)))
      else (success, compacted file_nr s)

  -- StoreData's realloc
  unfoldable pub realloc_file : ℕ → ℕ → Rc × State W → Rc × State W
  realloc_file file_nr n (success, s) = alloc_file file_nr n s
  realloc_file file_nr n (error e, s) = (error e, s)

  -- StoreData up to the memcpy: the file has room for `n` bytes
  unfoldable pub make_room : ℕ → ℕ → State W → Result Owed × State W
  make_room file_nr n s =
      let file = s.hdr.files file_nr in
      if file.offset == 0
      then owing header (alloc_file file_nr n s)
      else if ltb file.section_length n
      then owing everything (realloc_file file_nr n (remove_file file_nr false s))
      else (ok nothing, s)

  -- the last flush, of the data alone
  unfoldable pub flush_data : ℕ → ℕ → Rc × State W → Rc × State W
  unfolding flush_range
  flush_data offset n (success, s) = flush_range offset n s
  flush_data offset n (error e, s) = (error e, s)

  -- StoreData from the memcpy on; `same` is whether data_length is as it was
  unfoldable pub finish_store : ℕ → List ℕ → Owed → State W → Rc × State W
  finish_store file_nr filedata owed s =
      let file = s.hdr.files file_nr in
      let s' = put_data file_nr filedata s in
      let same = file.data_length == length filedata in
      let offset = file.offset in
      elim owed [
        | everything ↦ flush_range 0 s'.length s'
        | header ↦ flush_data offset (length filedata) (flush_header s')
        | nothing ↦
            if same
            then flush_range offset (length filedata) s'
            else flush_data offset (length filedata) (flush_header s')
      ]

  unfoldable pub store_placed : ℕ → List ℕ → Result Owed × State W → Rc × State W
  store_placed file_nr filedata (err e, s) = (error e, s)
  store_placed file_nr filedata (ok owed, s) = finish_store file_nr filedata owed s

  -- SWTPM_NVRAM_StoreData_Linear
  unfoldable pub store_data : List ℕ → Name → State W → Rc × State W
  store_data filedata name s = elim (get_file_nr name) [
    | none ↦ (error fail, s)
    | some file_nr ↦ store_placed file_nr filedata (make_room file_nr (length filedata) s)
  ]

  -- the flush behind a removal that has succeeded
  unfoldable pub flush_all : Rc × State W → Rc × State W
  unfolding flush_range
  flush_all (success, s) = flush_range 0 s.length s
  flush_all (error e, s) = (error e, s)

  -- SWTPM_NVRAM_DeleteName_Linear
  unfoldable pub delete_name : Name → State W → Rc × State W
  delete_name name s = elim (get_file_nr name) [
    | none ↦ (error fail, s)
    | some file_nr ↦ flush_all (remove_file file_nr true s)
  ]
