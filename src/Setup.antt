-- ===== src/Setup.antt =====
-- src/swtpm_setup/swtpm.c: swtpm_setup talks to a swtpm that it has started. Here: the exchange of a
-- request for a response, and the requests of fixed form. The calls on the sockets are a parameter;
-- with their states W stands a list of the buffers that write() has taken whole.
pub mod Banks
pub mod Nvram
pub mod Primary
pub mod Spk
pub mod Created
pub mod NvSpec
pub mod Written
pub mod Willing
pub mod Available
pub mod Names
pub mod Selecting
pub mod Chosen
pub mod Parsed
mod Tests
use swtpm.Common.{
  ℕ, ◌+◌, Bool, true, false, Option, none, some, List, [], ◌∷◌, ◌++◌, ◌==◌, ltb, if◌then◌else◌,
  length, take, get32, be16, be32,
}

abbrev pub Bytes : Type 0
Bytes = List ℕ

-- write(), poll() for an answer, and read() of up to 4096 bytes, on the control channel (`true`) or
-- the data channel. `none` is -1.
pub record Sockets (W : Type 0) : Type 0 where
  pub write : Bool → Bytes → W → Option ℕ × W
  pub poll : Bool → W → Bool × W
  pub read : Bool → W → Option Bytes × W

pub record Link (W : Type 0) : Type 0 where
  pub world : W
  pub sent : List Bytes

-- What a function of the file gives: whether it returns 0, what it writes through its pointers, and
-- the link.
pub record Outcome (A W : Type 0) : Type 0 where
  pub done : Bool
  pub out : A
  pub link : Link W

abbrev pub st_no_sessions : ℕ
st_no_sessions = 0x8001

abbrev pub st_sessions : ℕ
st_sessions = 0x8002

abbrev pub cc_evictcontrol : ℕ
cc_evictcontrol = 0x120

abbrev pub cc_nv_definespace : ℕ
cc_nv_definespace = 0x12a

abbrev pub cc_pcr_allocate : ℕ
cc_pcr_allocate = 0x12b

abbrev pub cc_createprimary : ℕ
cc_createprimary = 0x131

abbrev pub cc_nv_write : ℕ
cc_nv_write = 0x137

abbrev pub cc_nv_writelock : ℕ
cc_nv_writelock = 0x138

abbrev pub cc_shutdown : ℕ
cc_shutdown = 0x145

abbrev pub cc_flushcontext : ℕ
cc_flushcontext = 0x165

abbrev pub cc_getcapability : ℕ
cc_getcapability = 0x17a

abbrev pub rh_owner : ℕ
rh_owner = 0x40000001

abbrev pub rs_pw : ℕ
rs_pw = 0x40000009

abbrev pub rh_endorsement : ℕ
rh_endorsement = 0x4000000b

abbrev pub rh_platform : ℕ
rh_platform = 0x4000000c

-- a request: struct tpm_req_header with the size of the whole, and what follows it
unfoldable pub request : ℕ → ℕ → Bytes → Bytes
request tag ordinal body = be16 tag ++ (be32 (10 + length body) ++ (be32 ordinal ++ body))

-- sizeof(struct tpm2_authblock), and TPM2_AUTHBLOCK_INITIALIZER
abbrev pub authblock_size : ℕ
authblock_size = 9

unfoldable pub authblock : ℕ → Bytes
authblock auth = be32 auth ++ (be16 0 ++ 0 ∷ be16 0)

module _ {W : Type 0} (sockets : Sockets W) where
  -- where the return code stands
  abbrev pub code_offset : Bool → ℕ
  code_offset true = 0
  code_offset false = 6

  -- the bytes that a response must have
  abbrev pub least_response : Bool → ℕ
  least_response true = 4
  least_response false = 10

  unfoldable pub answered : Bool → ℕ → List Bytes → Option Bytes × W → Outcome Bytes W
  answered use_ctrl size sent (none, w) = record {
    done = false;
    out = [];
    link = record { world = w; sent = sent };
  }
  answered use_ctrl size sent (some resp, w) =
      let link : Link W = record { world = w; sent = sent } in
      if ltb (length resp) (least_response use_ctrl)
      then record { done = false; out = []; link = link }
      else record {
        done = get32 resp (code_offset use_ctrl) == 0;
        out = take size resp;
        link = link;
      }

  unfoldable pub polled : Bool → ℕ → List Bytes → Bool × W → Outcome Bytes W
  polled use_ctrl size sent (false, w) = record {
    done = false;
    out = [];
    link = record { world = w; sent = sent };
  }
  polled use_ctrl size sent (true, w) = answered use_ctrl size sent (sockets.read use_ctrl w)

  unfoldable pub written : Bool → Bytes → ℕ → List Bytes → Option ℕ × W → Outcome Bytes W
  written use_ctrl buffer size sent (none, w) = record {
    done = false;
    out = [];
    link = record { world = w; sent = sent };
  }
  written use_ctrl buffer size sent (some n, w) =
      if n == length buffer
      then polled use_ctrl size (sent ++ buffer ∷ []) (sockets.poll use_ctrl w)
      else record { done = false; out = []; link = record { world = w; sent = sent } }

  -- transfer; `size` is the size of respbuffer, whose bytes are `out`
  unfoldable pub transfer : Bool → Bytes → ℕ → Link W → Outcome Bytes W
  transfer use_ctrl buffer size l =
      written use_ctrl buffer size l.sent (sockets.write use_ctrl buffer l.world)

  -- an exchange on the data channel of which only the return value is used
  unfoldable pub command : Bytes → Link W → Bool × Link W
  command buffer l = let r = transfer false buffer 0 l in (r.done, r.link)

  -- swtpm_ctrl_shutdown; CMD_SHUTDOWN is 3
  unfoldable pub ctrl_shutdown : Link W → Bool × Link W
  ctrl_shutdown l = let r = transfer true (be32 3) 0 l in (r.done, r.link)

  -- swtpm_tpm2_shutdown, with TPM2_SU_CLEAR
  unfoldable pub tpm2_shutdown : Link W → Bool × Link W
  tpm2_shutdown l = command (request st_no_sessions cc_shutdown (be16 0)) l

  -- swtpm_tpm2_flushcontext
  unfoldable pub flushcontext : ℕ → Link W → Bool × Link W
  flushcontext handle l = command (request st_no_sessions cc_flushcontext (be32 handle)) l

  -- swtpm_tpm2_evictcontrol
  unfoldable pub evictcontrol : ℕ → ℕ → Link W → Bool × Link W
  evictcontrol curr_handle perm_handle l =
      command
        (request st_sessions cc_evictcontrol (
          be32 rh_owner
          ++ (be32 curr_handle ++ (be32 authblock_size ++ (authblock rs_pw ++ be32 perm_handle)))))
        l
