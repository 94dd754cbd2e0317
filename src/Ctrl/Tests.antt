-- ===== src/Ctrl/Tests.antt =====
-- The theorems about src/swtpm/ctrlchannel.c at a sample process and at small messages.
use swtpm.Common.{
  ℕ, ◌+◌, ◌≡◌, refl, inl, inr, Bool, true, false, none, List, [], ◌∷◌, ◌++◌, length, take, drop,
  sym, ap, ◌∙◌, take-drop_append, length-take, length-drop, arith,
}
use swtpm.Common.Result.{ok}
use swtpm.Linear.{Name}
use swtpm.Nvstore.Blob.{StateType}
use swtpm.Nvstore.Samples.{
  open_crypto, open_laws, three_bytes, sender_loads, moved_blob, moved_made, length-moved_blob,
  permanent_blob, state_key-IsUsable,
}
use swtpm.Host.{get_blob, get_blob_by}
use swtpm.Host.Samples.{
  Tpm, sample_libtpms, sample_RunLaws, sample_ops, sample_process, sample_hashes,
}
use swtpm.Ctrl.Samples.{env, fresh}
use swtpm.Ctrl.{CtrlState}
use swtpm.Ctrl.Recv.{Wait, recv_cmd}
use swtpm.Ctrl.Arriving.{arriving, Begins}
use swtpm.Ctrl.Received.{Received, recv_cmd-Received}
use swtpm.Ctrl.Blobs.{Gathered, gather, hash_all, getstate_response, received_state}
use swtpm.Ctrl.Streams.{
  ArePieces, empty, more, reads_of, joined, gather-joined, append-nil, HashesBytes, hash_all-joined,
}
use swtpm.Ctrl.Migration.{forwarded, set_as, received_state-get_blob}
use swtpm.Ctrl.Process.{process_fd}
use swtpm.Ctrl.Sound.{CallLaws, IsSound}
use swtpm.Ctrl.Sessions.{Session, rest, serve, Session-IsSound}

env_laws : CallLaws env
unfolding sample_RunLaws
env_laws = record {
  starting = sample_RunLaws;
  volatile_keeps = λ h. refl;
  reset_keeps = λ l h. refl;
  hash_start_keeps = λ l h. refl;
  hash_data_keeps = λ bytes h. refl;
  hash_end_keeps = λ h. refl;
  cancel_keeps = λ h. refl;
  buffer_keeps = λ n h. refl;
}

fresh-IsSound : IsSound env env_laws fresh
fresh-IsSound = record {
  allowed = record { in_range = omega arith; not_rejected = λ is. absurd (omega arith) };
  truth = λ on. cc;
}

abbrev sent : List ℕ → Bool
sent response = true

-- CMD_INIT in two pieces, and CMD_SET_LOCALITY to 3
abbrev init_pieces : List (List ℕ × Wait)
init_pieces = (0 ∷ 0 ∷ 0 ∷ [], Wait.ready) ∷ (2 ∷ 0 ∷ 0 ∷ 0 ∷ 0 ∷ [], Wait.ready) ∷ []

abbrev locality_pieces : List (List ℕ × Wait)
locality_pieces = (0 ∷ 0 ∷ 0 ∷ 5 ∷ 3 ∷ [], Wait.ready) ∷ []

abbrev started : CtrlState Tpm ℕ (List ℕ)
started = (process_fd env sent init_pieces [] none fresh).1

abbrev moved_on : CtrlState Tpm ℕ (List ℕ)
moved_on = (process_fd env sent locality_pieces [] none started).1

two_messages : Session env env_laws fresh moved_on
two_messages =
    serve sent init_pieces [] none fresh
      (serve sent locality_pieces [] none started (rest moved_on))

Session-IsSound_example : IsSound env env_laws moved_on
Session-IsSound_example = Session-IsSound env env_laws two_messages fresh-IsSound

recv_cmd-Received_example :
    Received init_pieces (recv_cmd init_pieces)
    × Begins (arriving init_pieces) (recv_cmd init_pieces)
recv_cmd-Received_example = recv_cmd-Received init_pieces

abbrev one_byte : List ℕ
one_byte = 1 ∷ []

abbrev two_pieces : List (List ℕ)
two_pieces = (4 ∷ []) ∷ (5 ∷ 6 ∷ []) ∷ []

two_pieces-ArePieces : ArePieces 4088 two_pieces
two_pieces-ArePieces =
    more _ _ (omega arith) (omega arith) (more _ _ (omega arith) (omega arith) empty)

hashed-ArePieces : ArePieces 4096 two_pieces
hashed-ArePieces = more _ _ (omega arith) (omega arith) (more _ _ (omega arith) (omega arith) empty)

two_pieces_length : length one_byte + length (joined two_pieces) ≡ 4
unfolding joined
two_pieces_length = refl

gather-joined_example :
    gather (reads_of two_pieces) 4 [] (1 ∷ []) ≡ Gathered.whole (1 ∷ joined two_pieces)
gather-joined_example =
    gather-joined two_pieces 4 [] (1 ∷ []) two_pieces-ArePieces two_pieces_length

env-HashesBytes : HashesBytes env
unfolding HashesBytes
env-HashesBytes = sample_hashes

hash_all-joined_example :
    hash_all env (reads_of two_pieces) 4 (1 ∷ []) sample_process
    ≡ sample_libtpms.hash_data (1 ∷ joined two_pieces) sample_process
hash_all-joined_example =
    hash_all-joined env env-HashesBytes two_pieces 4 (1 ∷ []) sample_process hashed-ArePieces
      two_pieces_length

-- The sender's blob, of which the first ten bytes come with the command.
abbrev first_bytes : List ℕ
first_bytes = take 10 moved_blob

abbrev further_pieces : List (List ℕ)
further_pieces = drop 10 moved_blob ∷ []

forwarded_whole : first_bytes ++ joined further_pieces ≡ moved_blob
unfolding joined
forwarded_whole =
    ap (λ r. first_bytes ++ r) (append-nil (drop 10 moved_blob)) ∙ take-drop_append 10 moved_blob

further_pieces-ArePieces : ArePieces 4088 further_pieces
further_pieces-ArePieces =
    more _ _ (omega (arith, length-drop 10 moved_blob, length-moved_blob))
      (omega (arith, length-drop 10 moved_blob, length-moved_blob)) empty

sample_hands_out : get_blob open_crypto Name.permall false sample_process ≡ (
  ok (first_bytes ++ joined further_pieces, false),
  (get_blob open_crypto Name.permall false sample_process).1,
)
unfolding get_blob get_blob_by
sample_hands_out =
    let whole = sym forwarded_whole in
    ap (λ r. (r, (get_blob open_crypto Name.permall false sample_process).1))
      (ap (λ r. r.0) moved_made ∙ ap (λ b. ok (b, false)) whole)

received_state-get_blob_example :
    received_state env
      (forwarded 1
        (getstate_response env 0 false (ok (first_bytes ++ joined further_pieces, false)))
        first_bytes)
      (reads_of further_pieces)
      sample_process
    ≡ set_as env StateType.permanent three_bytes sample_process
received_state-get_blob_example =
    let whole = ap length forwarded_whole in
    received_state-get_blob env open_laws (λ n p. refl) sample_ops three_bytes first_bytes
      further_pieces false false false Name.permall 1 StateType.permanent sample_process
      (get_blob open_crypto Name.permall false sample_process).1 sample_process (inl refl)
      (inr (refl, state_key-IsUsable)) refl refl (omega arith) (omega arith) refl sender_loads
      permanent_blob (omega arith) sample_hands_out (omega (arith, whole, length-moved_blob))
      (omega (arith, whole, length-moved_blob)) (omega (arith, length-take 10 moved_blob))
      further_pieces-ArePieces
