-- ===== src/Ctrl/Blobs.antt =====
-- The commands that move many bytes over the control channel: ctrlchannel_return_state,
-- ctrlchannel_receive_state and the loop of CMD_HASH_DATA of src/swtpm/ctrlchannel.c.
use swtpm.Common.{
  ℕ, ◌-◌, Bool, true, false, ◌&&◌, ◌||◌, not, Option, none, some, List, [], ◌∷◌, ◌++◌, ◌==◌, ltb,
  min, if◌then◌else◌, length, take, drop, get32, be32,
}
use swtpm.Common.Result.{Rc, success, error, Result, ok, err, fail, bad_parameter, ioerror}
use swtpm.Linear.{Name}
use swtpm.Nvstore.{has_flag}
use swtpm.Nvstore.Blob.{Nvram, state_entries, load_data}
use swtpm.Host.{Host, BackendOps, store_volatile, get_blob, set_blob, delete_data}
use swtpm.Tpmlib.{get_blobname}
use swtpm.Ctrl.{Read, got, broken, bytes_of, Env, CtrlState, code_of, unlocked}

-- the largest state that is taken
abbrev pub max_state_size : ℕ
max_state_size = 524288

-- sizeof(pss->u.req.data) and sizeof(data->u.req.data)
abbrev pub setstate_data_size : ℕ
setstate_data_size = 4088

abbrev pub hash_data_size : ℕ
hash_data_size = 4096

abbrev pub default_locking_retries : ℕ
default_locking_retries = 300

-- PTM_STATE_FLAG_ENCRYPTED where the blob is
abbrev pub encrypted_flag : Bool → ℕ
encrypted_flag true = 2
encrypted_flag false = 0

-- The data of a state as ctrlchannel_receive_state collects it: all of them, more than were
-- announced or fewer (TPM_BAD_PARAMETER), or the socket broke.
pub data Gathered : Type 0 where
  whole : List ℕ → Gathered
  refused : Gathered
  lost : Gathered

-- what the next read makes of it
unfoldable pub after_read : Read → Gathered → Gathered
after_read broken rest = Gathered.lost
after_read (got bytes) rest = if length bytes == 0 then Gathered.refused else rest

-- The loop of ctrlchannel_receive_state, with `remain` bytes to come, `blob` collected, and `bytes`
-- just read. Behind the last read is the end of the stream.
unfoldable pub gather : List Read → ℕ → List ℕ → List ℕ → Gathered
gather [] remain blob bytes =
    if ltb remain (length bytes)
    then Gathered.refused
    else if remain == length bytes
    then Gathered.whole (blob ++ bytes)
    else Gathered.refused
gather (read ∷ reads) remain blob bytes =
    let rest =
      gather reads (remain - length bytes) (blob ++ bytes)
        (take setstate_data_size (bytes_of read)) in
    if ltb remain (length bytes)
    then Gathered.refused
    else if remain == length bytes
    then Gathered.whole (blob ++ bytes)
    else after_read read rest

-- res == 0
abbrev pub is_ok : {A : Type 0} → Result A → Bool
is_ok (ok a) = true
is_ok (err e) = false

module _ {T R W : Type 0} (env : Env T R W) where
  -- the response of a ptm_getstate: its code, flags and lengths, and the blob from the offset on
  unfoldable pub getstate_response : ℕ → Bool → Result (List ℕ × Bool) → List ℕ
  getstate_response offset marked (err e) =
      be32 (env.codes e) ++ be32 (encrypted_flag marked) ++ be32 0 ++ be32 0
  getstate_response offset marked (ok (blob, is_encrypted)) =
      be32 0
      ++ be32 (encrypted_flag is_encrypted)
      ++ be32 (length blob - offset)
      ++ be32 (length blob - offset)
      ++ drop offset blob

  -- SWTPM_NVRAM_Store_Volatile before a volatile state is read
  unfoldable pub stored_first : Name → Host T R W → Rc × Host T R W
  stored_first Name.volatilestate h = store_volatile env.crypto env.libtpms h
  stored_first name h = (success, h)

  -- *is_encrypted where SWTPM_NVRAM_GetStateBlob fails: it is set once the file key has encrypted
  unfoldable pub marked_plain : Bool → Nvram R W → Result (List ℕ) → Bool
  marked_plain decrypt nvram (err e) = false
  marked_plain decrypt nvram (ok plain) =
      let (entries, s) = state_entries env.crypto nvram.filekey plain decrypt nvram.ivec in
      is_ok entries.0 && entries.1

  unfoldable pub marked_by : Option (BackendOps W) → Name → Bool → Nvram R W → Bool
  marked_by none name decrypt nvram = false
  marked_by (some ops) name decrypt nvram =
      marked_plain decrypt nvram (load_data env.crypto ops.files name nvram)

  -- SWTPM_NVRAM_GetStateBlob behind that, and *is_encrypted where it fails
  unfoldable pub blob_behind :
      Name → Bool → Rc × Host T R W → (Bool × Result (List ℕ × Bool)) × Host T R W
  blob_behind name decrypt (error e, h) = ((false, err e), h)
  blob_behind name decrypt (success, h) =
      let (blob, h') = get_blob env.crypto name decrypt h in
      ((marked_by h.ops name decrypt h.nvram, blob), h')

  -- "make sure the volatile state file is gone"
  unfoldable pub without_volatile : Name → Host T R W → Host T R W
  without_volatile Name.volatilestate h = (delete_data Name.volatilestate false h).1
  without_volatile name h = h

  -- ctrlchannel_return_state up to its response, for the name of a blob
  unfoldable pub named_state :
      Option Name → Bool → Host T R W → (Bool × Result (List ℕ × Bool)) × Host T R W
  named_state none decrypt h = ((false, err fail), h)
  named_state (some name) decrypt h =
      let (blob, h') = blob_behind name decrypt (stored_first name h) in
      (blob, without_volatile name h')

  -- ctrlchannel_return_state for the body of a message: what is written, whether the channel stays
  -- open, and the state. `sent` is whether a write succeeds.
  unfoldable pub return_state :
      (List ℕ → Bool) → List ℕ → CtrlState T R W → (List ℕ × Bool) × CtrlState T R W
  return_state sent body s =
      let (blob, h) =
        named_state (get_blobname (get32 body 4)) (has_flag (get32 body 0) 1) s.host in
      let response = getstate_response (get32 body 8) blob.0 blob.1 in
      let s' = record s { host = h } in
      (
        (response, sent response),
        if sent response && (get32 body 4 == 3)
            then unlocked env default_locking_retries s'
            else s',
      )

  -- the code of ctrlchannel_receive_state, and the process; `none` where the socket broke
  unfoldable pub set_gathered : ℕ → Bool → Gathered → Host T R W → Option Rc × Host T R W
  set_gathered blobtype is_encrypted (Gathered.whole blob) h =
      let (rc, h') = set_blob env.crypto env.set_state blob is_encrypted blobtype h in (some rc, h')
  set_gathered blobtype is_encrypted Gathered.refused h = (some (error bad_parameter), h)
  set_gathered blobtype is_encrypted Gathered.lost h = (none, h)

  -- ctrlchannel_receive_state up to its response
  unfoldable pub received_state : List ℕ → List Read → Host T R W → Option Rc × Host T R W
  received_state body reads h =
      let blob_length = get32 body 8 in
      let bytes = drop 12 body in
      if ltb max_state_size blob_length
      then (some (error fail), h)
      else if not (blob_length == 0) && not (env.crypto.can_alloc blob_length)
      then (some (error fail), h)
      else if ltb (length body) 12
          || ltb setstate_data_size (length bytes)
          || ((blob_length == 0) && not (length bytes == 0))
      then (some (error bad_parameter), h)
      else set_gathered (get32 body 4) (has_flag (get32 body 0) 2)
          (if blob_length == 0 then Gathered.whole [] else gather reads blob_length [] bytes) h

  -- the response of ctrlchannel_receive_state
  unfoldable pub receive_response :
      (List ℕ → Bool) → Option Rc × Host T R W → CtrlState T R W → (List ℕ × Bool) × CtrlState T R W
  receive_response sent (none, h) s = (([], false), record s { host = h })
  receive_response sent (some rc, h) s =
      let response = be32 (code_of env rc) in ((response, sent response), record s { host = h })

  -- ctrlchannel_receive_state
  unfoldable pub receive_state :
      (List ℕ → Bool) → List ℕ → List Read → CtrlState T R W → (List ℕ × Bool) × CtrlState T R W
  receive_state sent body reads s = receive_response sent (received_state body reads s.host) s

  -- The loop of CMD_HASH_DATA behind a call of TPM_IO_Hash_Data, with `remain` bytes to come.
  unfoldable pub hash_rest : List Read → ℕ → Rc × Host T R W → Rc × Host T R W
  hash_rest reads remain (error e, h) = (error e, h)
  hash_rest [] remain (success, h) = if remain == 0 then (success, h) else (error ioerror, h)
  hash_rest (read ∷ reads) remain (success, h) =
      let bytes = take (min remain hash_data_size) (bytes_of read) in
      let rest = hash_rest reads (remain - length bytes) (env.libtpms.hash_data bytes h) in
      if remain == 0 then (success, h) else if length bytes == 0 then (error ioerror, h) else rest

  -- the loop, from the bytes that came with the command
  unfoldable pub hash_all : List Read → ℕ → List ℕ → Host T R W → Rc × Host T R W
  hash_all reads remain bytes h =
      hash_rest reads (remain - length bytes) (env.libtpms.hash_data bytes h)
