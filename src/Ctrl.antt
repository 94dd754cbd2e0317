-- ===== src/Ctrl.antt =====
-- The control channel: src/swtpm/ctrlchannel.c, with the messages of
-- include/swtpm/tpm_ioctl.h. A message is the list of its bytes; input that was not received is 0.
pub mod Arriving
pub mod Received
pub mod Recv
pub mod Migration
pub mod Blobs
pub mod Process
pub mod Refusal
pub mod Sound
pub mod Commands
pub mod Sessions
pub mod Streams
pub mod Samples
mod Tests
use swtpm.Common.{
  ℕ, ◌+◌, ◌*◌, Bool, true, false, not, ◌&&◌, Option, none, some, List, [], ◌∷◌, ◌==◌, if◌then◌else◌,
  get32,
}
use swtpm.Common.Result.{Rc, success, error, Error}
use swtpm.Crypto.{Crypto}
use swtpm.Nvstore.Blob.{StateType}
use swtpm.Mainloop.{MainLoopParams, ensure_locked_storage, unlock_nvram}
use swtpm.Host.{Host, BackendOps, Libtpms, storage_of, with_world}
use swtpm.Tpmlib.{TpmVersion}
use swtpm.Tpmlib.Openssl.{Openssl}
use swtpm.Tpmlib.Shutdown.{maybe_send_tpm2_shutdown}

-- the CMD_... of tpm_ioctl.h
pub data Command : Type 0 where
  get_capability init shutdown get_tpmestablished set_locality : Command
  hash_start hash_data hash_end cancel_tpm_cmd store_volatile : Command
  reset_tpmestablished get_stateblob set_stateblob stop get_config : Command
  set_datafd set_buffersize get_info lock_storage : Command

-- the commands from CMD_GET_CAPABILITY, which is 1, on
abbrev pub commands : List Command
commands =
    Command.get_capability ∷ Command.init ∷ Command.shutdown ∷ Command.get_tpmestablished
    ∷ Command.set_locality ∷ Command.hash_start ∷ Command.hash_data ∷ Command.hash_end
    ∷ Command.cancel_tpm_cmd ∷ Command.store_volatile ∷ Command.reset_tpmestablished
    ∷ Command.get_stateblob ∷ Command.set_stateblob ∷ Command.stop ∷ Command.get_config
    ∷ Command.set_datafd ∷ Command.set_buffersize ∷ Command.get_info ∷ Command.lock_storage ∷ []

-- the command of a number, in the order of the enum; `none` for a number of no command
unfoldable pub command_from : List Command → ℕ → ℕ → Option Command
command_from [] first number = none
command_from (command ∷ rest) first number =
    if first == number then some command else command_from rest (first + 1) number

unfoldable pub command_of : ℕ → Option Command
command_of number = command_from commands 1 number

-- sizeof(struct input): the command and a ptm_hdata
abbrev pub input_size : ℕ
input_size = 4104

-- sizeof(input.cmd)
abbrev pub cmd_size : ℕ
cmd_size = 4

-- what one read_eintr gives: bytes (none at the end of the stream), or an error
pub data Read : Type 0 where
  got : List ℕ → Read
  broken : Read

abbrev pub bytes_of : Read → List ℕ
bytes_of (got bytes) = bytes
bytes_of broken = []

-- What the channel works with: the parts of swtpm and the libraries, and the numbers that libtpms
-- gives errors.
pub record Env (T R W : Type 0) : Type 0 where
  pub crypto : Crypto R
  pub dir_ops : BackendOps W
  pub linear_ops : BackendOps W
  pub libtpms : Libtpms (Host T R W)
  pub ssl : Openssl (Host T R W)
  pub set_state : StateType → Option (List ℕ) → T → Rc × T
  pub codes : Error → ℕ

-- What ctrlchannel_process_fd can change: *terminate, *locality, *tpm_running, *mlp, and the rest of
-- the process.
pub record CtrlState (T R W : Type 0) : Type 0 where
  pub terminate : Bool
  pub locality : ℕ
  pub tpm_running : Bool
  pub mlp : MainLoopParams
  pub host : Host T R W

-- get_ptm_caps_supported: PTM_CAP_INIT to PTM_CAP_GET_INFO are bits 0 to 14, PTM_CAP_LOCK_STORAGE is bit
-- 16, and PTM_CAP_SEND_COMMAND_HEADER is bit 15
unfoldable pub get_ptm_caps_supported : TpmVersion → ℕ
get_ptm_caps_supported TpmVersion.tpm_1_2 = 32767 + 65536
get_ptm_caps_supported TpmVersion.tpm_2 = 32767 + 65536 + 32768

module _ {T R W : Type 0} (env : Env T R W) where
  -- the number of a TPM_RESULT
  abbrev pub code_of : Rc → ℕ
  code_of success = 0
  code_of (error e) = env.codes e

  -- mainloop_ensure_locked_storage
  abbrev pub ensure_locked : CtrlState T R W → Bool × CtrlState T R W
  ensure_locked s =
      let (locked, mlp, w) = ensure_locked_storage (storage_of s.host) s.mlp s.host.nvram.world in
      (locked, record s { mlp = mlp; host = with_world s.host w })

  -- mainloop_unlock_nvram
  abbrev pub unlocked : ℕ → CtrlState T R W → CtrlState T R W
  unlocked retries s =
      let (mlp, w) = unlock_nvram (storage_of s.host) s.mlp retries s.host.nvram.world in
      record s { mlp = mlp; host = with_world s.host w }

  -- TPM2_Shutdown where the TPM runs and it was not turned off
  unfoldable pub auto_shutdown : CtrlState T R W → CtrlState T R W
  auto_shutdown s =
      if s.tpm_running && not s.mlp.disable_auto_shutdown
      then (let (last_command, host) =
            maybe_send_tpm2_shutdown env.libtpms s.locality s.mlp.tpmversion s.mlp.last_command
              s.host in
          record s { mlp = record s.mlp { last_command = last_command }; host = host })
      else s

  -- TPMLIB_Terminate, and *tpm_running
  unfoldable pub terminated : CtrlState T R W → CtrlState T R W
  terminated s = record s { tpm_running = false; host = env.libtpms.terminate s.host }
