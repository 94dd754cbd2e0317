-- ===== src/Ctrl/Recv.antt =====
-- Receiving a control command in pieces: ctrlchannel_recv_cmd of src/swtpm/ctrlchannel.c.
use swtpm.Common.{
  ℕ, ◌+◌, ◌-◌, Bool, false, Option, none, some, List, [], ◌∷◌, ◌++◌, ◌==◌, ltb, leb, if◌then◌else◌,
  length, take, get32,
}
use swtpm.Ctrl.{Command, command_of, input_size, cmd_size}

-- the bytes that a message of a command needs, as far as these bytes of it tell
unfoldable pub needed_for : Option Command → List ℕ → ℕ
needed_for (some Command.init) received = cmd_size + 4
needed_for (some Command.set_locality) received = cmd_size + 1
needed_for (some Command.hash_data) received =
    if leb 8 (length received) then 8 + get32 received 4 else 8
needed_for (some Command.reset_tpmestablished) received = cmd_size + 1
needed_for (some Command.get_stateblob) received = cmd_size + 12
needed_for (some Command.set_stateblob) received =
    if leb 16 (length received) then 16 + get32 received 12 else 16
needed_for command received = cmd_size

-- How the wait for the next piece ends: there are data, the 500 ms have passed before it, or poll()
-- gives no data.
pub data Wait : Type 0 where
  ready past_deadline timed_out : Wait

-- whether all has been received
unfoldable pub is_complete : List ℕ → Bool
is_complete received =
    if ltb (length received) cmd_size
    then false
    else leb (needed_for (command_of (get32 received 0)) received) (length received)

-- behind a piece
unfoldable pub after_wait : Wait → Option (List ℕ) → List ℕ → Option (List ℕ)
after_wait Wait.ready rest received = rest
after_wait Wait.past_deadline rest received = some received
after_wait Wait.timed_out rest received = none

-- ctrlchannel_recv_cmd: what was received, or `none` where it returns 0 or less. Each piece is what
-- one read gives, with the wait behind it.
unfoldable pub recv_from : List (List ℕ × Wait) → List ℕ → Option (List ℕ)
recv_from [] received = if ltb (length received) input_size then none else some received
recv_from ((piece, wait) ∷ pieces) received =
    let piece = take (input_size - length received) piece in
    let received' = received ++ piece in
    let rest = recv_from pieces received' in
    if leb input_size (length received)
    then some received
    else if length piece == 0
    then none
    else if is_complete received'
    then some received'
    else after_wait wait rest received'

unfoldable pub recv_cmd : List (List ℕ × Wait) → Option (List ℕ)
recv_cmd pieces = recv_from pieces []
