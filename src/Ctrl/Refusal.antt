-- ===== src/Ctrl/Refusal.antt =====
-- Which messages src/swtpm/ctrlchannel.c refuses.
use swtpm.Common.{
  ℕ, ◌≡◌, ◌⊎◌, Bool, true, false, ◌&&◌, get32, not, Option, none, some, List, ◌==◌, ltb,
  if◌then◌else◌, length,
}
use swtpm.Common.Result.{Error, bad_parameter, bad_ordinal, ioerror}
use swtpm.Ctrl.{ensure_locked, Command, Env, CtrlState}
use swtpm.Host.{nvram_init}
use swtpm.Ctrl.Process.{
  refuse, respond, init, stop, shutdown, set_locality, hash_data, get_config, set_buffersize,
  get_info, get_stateblob, set_stateblob,
}

-- When a command is taken: whether the TPM runs or not, only while it runs, or only while it does
-- not; and with how many bytes behind the command's number.
pub data Phase : Type 0 where
  always while_running while_stopped : Phase

pub data Size : Type 0 where
  any : Size
  exactly at_least : ℕ → Size

-- The protocol of the channel; for CMD_SET_BUFFERSIZE see `refusal`.
unfoldable pub protocol : Command → Phase × Size
protocol Command.get_capability = (Phase.always, Size.any)
protocol Command.init = (Phase.always, Size.exactly 4)
protocol Command.shutdown = (Phase.always, Size.exactly 0)
protocol Command.get_tpmestablished = (Phase.while_running, Size.exactly 0)
protocol Command.set_locality = (Phase.always, Size.at_least 1)
protocol Command.hash_start = (Phase.while_running, Size.exactly 0)
protocol Command.hash_data = (Phase.while_running, Size.at_least 4)
protocol Command.hash_end = (Phase.while_running, Size.exactly 0)
protocol Command.cancel_tpm_cmd = (Phase.while_running, Size.exactly 0)
protocol Command.store_volatile = (Phase.while_running, Size.exactly 0)
protocol Command.reset_tpmestablished = (Phase.while_running, Size.at_least 1)
protocol Command.get_stateblob = (Phase.while_running, Size.at_least 12)
protocol Command.set_stateblob = (Phase.while_stopped, Size.at_least 12)
protocol Command.stop = (Phase.always, Size.exactly 0)
protocol Command.get_config = (Phase.always, Size.exactly 0)
protocol Command.set_datafd = (Phase.always, Size.any)
protocol Command.set_buffersize = (Phase.always, Size.at_least 4)
protocol Command.get_info = (Phase.always, Size.at_least 16)
protocol Command.lock_storage = (Phase.always, Size.at_least 4)

-- whether the TPM's state, or the number of bytes, breaks the protocol
unfoldable pub out_of_phase : Phase → Bool → Bool
out_of_phase Phase.always running = false
out_of_phase Phase.while_running running = not running
out_of_phase Phase.while_stopped running = running

unfoldable pub bad_size : Size → ℕ → Bool
bad_size Size.any n = false
bad_size (Size.exactly k) n = not (n == k)
bad_size (Size.at_least k) n = ltb n k

-- the error of a message that breaks the protocol: the phase is looked at first
unfoldable pub violation : Phase × Size → Bool → ℕ → Option Error
violation (phase, size) running n =
    if out_of_phase phase running
    then some bad_ordinal
    else if bad_size size n
    then some bad_parameter
    else none

-- the error of a message: a buffer size other than 0 cannot be set while the TPM runs either
unfoldable pub refusal : Command → Bool → List ℕ → Option Error
refusal Command.set_buffersize running body =
    if ltb (length body) 4
    then some bad_parameter
    else if ltb 0 (get32 body 0) && running
    then some bad_ordinal
    else none
refusal command running body = violation (protocol command) running (length body)

module _ {T R W : Type 0} (env : Env T R W) (sent : List ℕ → Bool) where
  -- what CMD_SET_STATEBLOB has done before it looks at the message: the backend is chosen again, and
  -- the storage locked
  abbrev locked : CtrlState T R W → Bool × CtrlState T R W
  locked s =
      ensure_locked env (record s { host = (nvram_init env.dir_ops env.linear_ops s.host).1 })

  -- The answer to a CMD_SET_STATEBLOB that is too short: TPM_IOERROR, and the end of swtpm, where the
  -- storage cannot be locked, or else TPM_BAD_PARAMETER, with the storage locked.
  abbrev TooLate : (List ℕ × Bool) × CtrlState T R W → CtrlState T R W → Type 0
  TooLate r s =
      (((locked s).0 ≡ false)
        × (r ≡ respond env sent (refuse env ioerror (record (locked s).1 { terminate = true }))))
      ⊎ (((locked s).0 ≡ true)
          × (r
              ≡ respond env sent
                  (refuse env bad_parameter (record (locked s).1 { terminate = false }))))

  -- The error is answered and nothing changes, but for the one command that acts before it looks.
  abbrev pub Refuses :
      Command → Error → CtrlState T R W → (List ℕ × Bool) × CtrlState T R W → Type 0
  Refuses command e s r =
      (r ≡ respond env sent (refuse env e s))
      ⊎ ((command ≡ Command.set_stateblob)
          × (s.tpm_running ≡ false)
          × (e ≡ bad_parameter)
          × TooLate r s)
