-- ===== src/Ctrl/Migration.antt =====
-- A state that a client takes from one swtpm and gives to another, over their control channels:
-- CMD_GET_STATEBLOB and CMD_SET_STATEBLOB of src/swtpm/ctrlchannel.c.
use swtpm.Common.{
  ℕ, ◌+◌, ◌-◌, ◌≤◌, ◌<◌, ◌^◌, ◌≡◌, refl, ap, ◌∙◌, Bool, true, false, ◌==◌, ltb, Option, some, List,
  [], ◌++◌, length, take, drop, get32, be32, be32_value, u32_mod, arith, length-append,
}
use swtpm.Common.Result.{Rc, ok}
use swtpm.Crypto.{CryptoLaws}
use swtpm.Linear.{Name}
use swtpm.Nvstore.{has_flag, aes256_key_size}
use swtpm.Nvstore.Blob.{StateType, blobtype_to_statetype, get_state_blob, load_data}
use swtpm.Nvstore.Layers.{IsKey}
use swtpm.Nvstore.Storage.{set_state_blob-get_state_blob}
use swtpm.Host.{Host, BackendOps, get_blob_by, get_blob, set_blob}
use swtpm.Ctrl.{Env}
use swtpm.Ctrl.Blobs.{
  max_state_size, setstate_data_size, encrypted_flag, Gathered, getstate_response, set_gathered,
  received_state,
}
use swtpm.Ctrl.Streams.{ArePieces, reads_of, joined, gather-joined}

-- What a client makes of the response to CMD_GET_STATEBLOB: a CMD_SET_STATEBLOB with its flags and its
-- length, and the first bytes of the blob.
pub forwarded : ℕ → List ℕ → List ℕ → List ℕ
forwarded blobtype response bytes =
    take 4 (drop 4 response) ++ be32 blobtype ++ take 4 (drop 12 response) ++ bytes

flag_kept : (b : Bool) → has_flag (get32 (be32 (encrypted_flag b)) 0) 2 ≡ b
flag_kept true = refl
flag_kept false = refl

module _ {T R W : Type 0} (env : Env T R W) where
  -- what a whole blob does to the process
  taken : ℕ → Bool → List ℕ → Host T R W → Option Rc × Host T R W
  taken blobtype is_encrypted blob h =
      set_gathered env blobtype is_encrypted (Gathered.whole blob) h

  -- a message with these fields, as far as a whole blob follows
  received_state-fields :
      (body bytes : List ℕ) (pieces : List (List ℕ)) (blobtype n : ℕ) (is_encrypted : Bool)
      (h : Host T R W)
      → get32 body 8 ≡ n
      → drop 12 body ≡ bytes
      → get32 body 4 ≡ blobtype
      → has_flag (get32 body 0) 2 ≡ is_encrypted
      → length body ≡ 12 + length bytes
      → length bytes + length (joined pieces) ≡ n
      → 0 < n
      → n ≤ max_state_size
      → length bytes ≤ setstate_data_size
      → ArePieces setstate_data_size pieces
      → env.crypto.can_alloc n ≡ true
      → received_state env body (reads_of pieces) h
        ≡ taken blobtype is_encrypted (bytes ++ joined pieces) h
  unfolding received_state taken
  received_state-fields body bytes pieces blobtype n enc h len rest type flag size total pos small
        fits all room =
      let not_large : ltb max_state_size n ≡ false = ground arith in
      let not_empty : (n == 0) ≡ false = ground arith in
      let long : ltb (length body) 12 ≡ false = ground arith in
      let not_wide : ltb setstate_data_size (length bytes) ≡ false = ground arith in
      let whole = gather-joined pieces n [] bytes all total in
      rw (len, rest, type, flag, not_large, not_empty, room, long, not_wide, whole) refl

  received_state-forwarded :
      (blobtype : ℕ) (marked is_encrypted : Bool) (bytes : List ℕ) (pieces : List (List ℕ))
      (h : Host T R W)
      → blobtype < u32_mod
      → 0 < length (bytes ++ joined pieces)
      → length (bytes ++ joined pieces) ≤ max_state_size
      → length bytes ≤ setstate_data_size
      → ArePieces setstate_data_size pieces
      → env.crypto.can_alloc (length (bytes ++ joined pieces)) ≡ true
      → received_state env
          (forwarded blobtype
            (getstate_response env 0 marked (ok (bytes ++ joined pieces, is_encrypted)))
            bytes)
          (reads_of pieces)
          h
        ≡ taken blobtype is_encrypted (bytes ++ joined pieces) h
  unfolding forwarded getstate_response
  received_state-forwarded blobtype marked is_encrypted bytes pieces h t some_bytes small fits all
        room =
      let n = length (bytes ++ joined pieces) in
      let total = length-append bytes (joined pieces) in
      let n_less_0 : n - 0 ≡ n = omega arith in
      received_state-fields
        (forwarded blobtype
          (getstate_response env 0 marked (ok (bytes ++ joined pieces, is_encrypted))) bytes)
        bytes pieces blobtype n is_encrypted h (be32_value (n - 0) (omega arith) ∙ n_less_0) refl
        (be32_value blobtype t) (flag_kept is_encrypted) (omega arith) (omega (arith, total))
        some_bytes small fits all room

  -- what TPMLIB_SetState does to the process, with its code as the answer
  pub set_as : StateType → List ℕ → Host T R W → Option Rc × Host T R W
  set_as st plain h = (
    some (env.set_state st (some plain) h.tpm).0,
    record h { tpm = (env.set_state st (some plain) h.tpm).1 },
  )

  module _ (laws : CryptoLaws env.crypto)
      (enough : (n : ℕ) → n < u32_mod → env.crypto.can_alloc n ≡ true) where
    -- A state that one swtpm hands out over its control channel arrives in another. GET_STATEBLOB of the sender,
    -- with the backend `ops`, has loaded `plain` and made a blob of it, encrypted or not; the client forwards the flags, the length
    -- and the blob of the response, from offset 0, in a SET_STATEBLOB and any further pieces. Then the receiver, if it has
    -- the same file key and migration key, each set to a usable key or not set, gives exactly `plain` to TPMLIB_SetState, for the
    -- state type that was asked for, and answers with its code. The blob has at most 512 KiB, the state at most 2 ^ 31 bytes, g_ivec at most 32,
    -- memory can be allocated, and the cipher and the HMAC behave as documented.
    pub received_state-get_blob :
        (ops : BackendOps W) (plain : List ℕ) (bytes : List ℕ) (pieces : List (List ℕ))
        (is_encrypted decrypt marked : Bool) (name : Name) (blobtype : ℕ) (st : StateType)
        (sender sender' receiver : Host T R W)
        → IsKey sender.nvram.filekey
        → IsKey sender.nvram.migrationkey
        → receiver.nvram.filekey ≡ sender.nvram.filekey
        → receiver.nvram.migrationkey ≡ sender.nvram.migrationkey
        → length plain ≤ 2 ^ 31
        → length sender.nvram.ivec.g_ivec ≤ aes256_key_size
        → sender.ops ≡ some ops
        → load_data env.crypto ops.files name sender.nvram ≡ ok plain
        → blobtype_to_statetype blobtype ≡ some st
        → blobtype < u32_mod
        → get_blob env.crypto name decrypt sender
          ≡ (ok (bytes ++ joined pieces, is_encrypted), sender')
        → 0 < length (bytes ++ joined pieces)
        → length (bytes ++ joined pieces) ≤ max_state_size
        → length bytes ≤ setstate_data_size
        → ArePieces setstate_data_size pieces
        → received_state env
            (forwarded blobtype
              (getstate_response env 0 marked (ok (bytes ++ joined pieces, is_encrypted)))
              bytes)
            (reads_of pieces)
            receiver
          ≡ set_as st plain receiver
    unfolding get_blob get_blob_by taken set_gathered set_blob set_as
    received_state-get_blob ops plain bytes pieces enc decrypt marked name blobtype st sender
          sender' receiver key mkey same same' small short has loaded known t made pos fits_all fits
          all =
        let made' = ap (λ r. r.0) (rw has at made) in
        let set =
          set_state_blob-get_state_blob laws enough ops.files env.set_state plain
            (bytes ++ joined pieces) enc decrypt name blobtype st sender.nvram
            (get_state_blob env.crypto ops.files name decrypt sender.nvram).1 receiver.nvram
            receiver.tpm key mkey same same' small short loaded known
            (ap (λ r. (r, (get_state_blob env.crypto ops.files name decrypt sender.nvram).1))
              made') in
        received_state-forwarded blobtype marked enc bytes pieces receiver t pos fits_all fits all
          (enough (length (bytes ++ joined pieces)) (omega arith))
        ∙ ap (λ (r : Rc × T). (some r.0, record receiver { tpm = r.1 })) set
