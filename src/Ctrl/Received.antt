-- ===== src/Ctrl/Received.antt =====
-- How much ctrlchannel_recv_cmd of src/swtpm/ctrlchannel.c receives, and when it stops.
use swtpm.Common.{
  ℕ, ◌-◌, ◌≤◌, ◌≡◌, true, List, [], ◌∷◌, ◌++◌, ◌==◌, ltb, leb, ltb→ge, leb→le, if_cases, Bool-cases,
  inl, inr, get32, ◌+◌, Option, none, some, length, take, arith, length-append, length-take,
}
use swtpm.Ctrl.{Command, command_of, input_size, cmd_size}
use swtpm.Ctrl.Arriving.{arriving, Begins, recv_from-Begins}
use swtpm.Ctrl.Recv.{Wait, needed_for, after_wait, recv_from, recv_cmd, is_complete}

-- Whether some wait ended past the deadline.
pub data IsLate : List (List ℕ × Wait) → Type 0 where
  now :
      (piece : List ℕ) (pieces : List (List ℕ × Wait))
      → IsLate ((piece, Wait.past_deadline) ∷ pieces)
  later :
      (piece : List ℕ × Wait) (pieces : List (List ℕ × Wait))
      → IsLate pieces
      → IsLate (piece ∷ pieces)

-- The bytes of a message, with those that it announces itself, as far as the code waits for them: of
-- the commands that are not named it waits for the number alone, also of CMD_SET_BUFFERSIZE,
-- CMD_GET_INFO and CMD_LOCK_STORAGE, which have more.
abbrev pub message_size : Option Command → List ℕ → ℕ
message_size (some Command.init) message = 8
message_size (some Command.set_locality) message = 5
message_size (some Command.hash_data) message = 8 + get32 message 4
message_size (some Command.reset_tpmestablished) message = 5
message_size (some Command.get_stateblob) message = 16
message_size (some Command.set_stateblob) message = 16 + get32 message 12
message_size command message = 4

-- a message with all of these bytes
pub IsAwaited : List ℕ → Type 0
IsAwaited message =
    (4 ≤ length message) × (message_size (command_of (get32 message 0)) message ≤ length message)

needed_for-message_size :
    (command : Option Command) (message : List ℕ)
    → 4 ≤ length message
    → needed_for command message ≤ length message
    → message_size command message ≤ length message
unfolding needed_for
needed_for-message_size none m four h = four
needed_for-message_size (some Command.get_capability) m four h = four
needed_for-message_size (some Command.init) m four h = h
needed_for-message_size (some Command.shutdown) m four h = four
needed_for-message_size (some Command.get_tpmestablished) m four h = four
needed_for-message_size (some Command.set_locality) m four h = h
needed_for-message_size (some Command.hash_start) m four h = four
needed_for-message_size (some Command.hash_data) m four h = ground arith
needed_for-message_size (some Command.hash_end) m four h = four
needed_for-message_size (some Command.cancel_tpm_cmd) m four h = four
needed_for-message_size (some Command.store_volatile) m four h = four
needed_for-message_size (some Command.reset_tpmestablished) m four h = h
needed_for-message_size (some Command.get_stateblob) m four h = h
needed_for-message_size (some Command.set_stateblob) m four h = ground arith
needed_for-message_size (some Command.stop) m four h = four
needed_for-message_size (some Command.get_config) m four h = four
needed_for-message_size (some Command.set_datafd) m four h = four
needed_for-message_size (some Command.set_buffersize) m four h = four
needed_for-message_size (some Command.get_info) m four h = four
needed_for-message_size (some Command.lock_storage) m four h = four

is_complete-IsAwaited : (message : List ℕ) → is_complete message ≡ true → IsAwaited message
unfolding is_complete IsAwaited
is_complete-IsAwaited m h = elim (Bool-cases (ltb (length m) cmd_size)) [
  | inl short ↦ cc (rw short at h)
  | inr long ↦
      let four : 4 ≤ length m = ltb→ge (length m) cmd_size long in
      let n = needed_for (command_of (get32 m 0)) m in
      (four, needed_for-message_size _ m four (leb→le n (length m) (rw long at h)))
]

-- Why what was received is passed on: all that is awaited is there, there is no more room, or it is late.
pub data Reason (pieces : List (List ℕ × Wait)) (received : List ℕ) : Type 0 where
  complete : IsAwaited received → Reason pieces received
  full : length received ≡ input_size → Reason pieces received
  late : IsLate pieces → Reason pieces received

-- What is received fits in a struct input, and there is a reason to stop.
pub data Received (pieces : List (List ℕ × Wait)) : Option (List ℕ) → Type 0 where
  closed : Received pieces none
  passed_on :
      (received : List ℕ)
      → length received ≤ input_size
      → Reason pieces received
      → Received pieces (some received)

weaken :
    (piece : List ℕ × Wait) (pieces : List (List ℕ × Wait)) (o : Option (List ℕ))
    → Received pieces o
    → Received (piece ∷ pieces) o
weaken piece pieces none closed = closed
weaken piece pieces (some _) (passed_on received fits (complete c)) =
    passed_on received fits (complete c)
weaken piece pieces (some _) (passed_on received fits (full f)) = passed_on received fits (full f)
weaken piece pieces (some _) (passed_on received fits (late l)) =
    passed_on received fits (late (later piece pieces l))

after_wait-Received :
    (wait : Wait) (piece received : List ℕ) (pieces : List (List ℕ × Wait)) (rest : Option (List ℕ))
    → length received ≤ input_size
    → Received pieces rest
    → Received ((piece, wait) ∷ pieces) (after_wait wait rest received)
unfolding after_wait
after_wait-Received Wait.ready piece received pieces rest fits r = weaken _ pieces rest r
after_wait-Received Wait.past_deadline piece received pieces rest fits r =
    passed_on received fits (late (now piece pieces))
after_wait-Received Wait.timed_out piece received pieces rest fits r = closed

recv_from-Received :
    (pieces : List (List ℕ × Wait)) (received : List ℕ)
    → length received ≤ input_size
    → Received pieces (recv_from pieces received)
unfolding recv_from
recv_from-Received [] received fits =
    if_cases (Received []) (ltb (length received) input_size) (λ short. closed)
      (λ long.
        passed_on received fits (full (omega (arith, ltb→ge (length received) input_size long))))
recv_from-Received ((piece, wait) ∷ pieces) received fits =
    let part = take (input_size - length received) piece in
    let room : length (received ++ part) ≤ input_size =
      omega
        (arith, length-append received part, length-take (input_size - length received) piece) in
    if_cases (Received ((piece, wait) ∷ pieces)) (leb input_size (length received))
      (λ no_room.
        passed_on received fits (full (omega (arith, leb→le input_size (length received) no_room))))
      (λ some_room.
        if_cases (Received ((piece, wait) ∷ pieces)) (length part == 0) (λ nothing. closed)
          (λ something.
            if_cases (Received ((piece, wait) ∷ pieces)) (is_complete (received ++ part))
              (λ c.
                passed_on (received ++ part) room
                  (complete (is_complete-IsAwaited (received ++ part) c)))
              (λ more.
                after_wait-Received wait piece (received ++ part) pieces
                  (recv_from pieces (received ++ part)) room
                  (recv_from-Received pieces (received ++ part) room))))

-- Whatever pieces a message arrives in, ctrlchannel_recv_cmd writes no more than a struct input, and what it
-- passes on is the beginning of the bytes that arrive; it does so only if the number and all bytes that the code
-- awaits behind it are there, the structure is full, or a deadline has passed.
pub recv_cmd-Received :
    (pieces : List (List ℕ × Wait))
    → Received pieces (recv_cmd pieces) × Begins (arriving pieces) (recv_cmd pieces)
unfolding recv_cmd
recv_cmd-Received pieces =
    (recv_from-Received pieces [] (omega arith), recv_from-Begins pieces [] (omega arith))
