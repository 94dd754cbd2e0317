-- ===== src/Tpmlib.antt =====
-- What swtpm does itself around the calls of libtpms: src/swtpm/tpmlib.c, with the headers of
-- requests and responses of src/swtpm/tpmlib.h. The functions are those of a build with the vTPM
-- proxy, where SetLocality is a command on the data channel.
pub mod Headers
pub mod Locality
pub mod Openssl
pub mod Running
pub mod Shutdown
pub mod Start
mod Tests
use swtpm.Common.{
  ℕ, ◌+◌, ◌≤◌, Bool, true, false, ◌||◌, ◌&&◌, not, Option, none, some, List, [], ◌∷◌, ◌++◌, ◌==◌,
  ltb, leb, min, if◌then◌else◌, length, get_or, get16, get32, take, drop, be16, be32,
}
use swtpm.Common.Result.{Error, fail, bad_locality, bad_param_size}
use swtpm.Linear.{Name}
use swtpm.Nvstore.{has_flag}

-- libtpms' `enum TPMLIB_TPMVersion`
pub data TpmVersion : Type 0 where
  tpm_1_2 tpm_2 : TpmVersion

-- tpmversion == TPMLIB_TPM_VERSION_2
abbrev pub is_tpm_2 : TpmVersion → Bool
is_tpm_2 TpmVersion.tpm_1_2 = false
is_tpm_2 TpmVersion.tpm_2 = true

-- sizeof(struct tpm_req_header), of the response's too, and of the TCG prefix
abbrev pub req_header_size : ℕ
req_header_size = 10

abbrev pub send_command_prefix_size : ℕ
send_command_prefix_size = 9

abbrev pub tag_no_session : ℕ
tag_no_session = 32769

abbrev pub tag_sessions : ℕ
tag_sessions = 32770

abbrev pub tag_rqu_command : ℕ
tag_rqu_command = 193

-- TPM_CC_SET_LOCALITY and TPM2_CC_SET_LOCALITY
abbrev pub cc_set_locality : ℕ
cc_set_locality = 536875008

abbrev pub flag_reject_locality_4 : ℕ
flag_reject_locality_4 = 1

abbrev pub flag_allow_setlocality : ℕ
flag_allow_setlocality = 2

-- tpmlib_get_blobname; `none` is NULL
unfoldable pub get_blobname : ℕ → Option Name
get_blobname blobtype =
    if blobtype == 1
    then some Name.permall
    else if blobtype == 2
    then some Name.volatilestate
    else if blobtype == 3
    then some Name.savestate
    else none

-- tpmlib_get_cmd_ordinal; TPM_ORDINAL_NONE is 0
unfoldable pub get_cmd_ordinal : List ℕ → ℕ
get_cmd_ordinal request = if ltb (length request) req_header_size then 0 else get32 request 6

-- tpmlib_is_request_cancelable behind the ordinal
unfoldable pub is_cancelable : TpmVersion → ℕ → Bool
is_cancelable TpmVersion.tpm_2 ordinal = ordinal == 305 || ordinal == 339
is_cancelable TpmVersion.tpm_1_2 ordinal = ordinal == 13 || ordinal == 31

-- tpmlib_is_request_cancelable
unfoldable pub is_request_cancelable : TpmVersion → List ℕ → Bool
is_request_cancelable tpmversion request =
    if get_cmd_ordinal request == 0
    then false
    else is_cancelable tpmversion (get_cmd_ordinal request)

-- *rbuffer (`none` is NULL, else its rTotal bytes) and *rlength
pub record Response : Type 0 where
  pub rbuffer : Option (List ℕ)
  pub rlength : ℕ

-- the response's tag
abbrev pub response_tag : TpmVersion → ℕ
response_tag TpmVersion.tpm_2 = 32769
response_tag TpmVersion.tpm_1_2 = 196

-- `struct tpm_resp_header` as the bytes in memory
unfoldable pub resp_header : TpmVersion → ℕ → List ℕ
resp_header tpmversion errcode =
    be16 (response_tag tpmversion) ++ be32 req_header_size ++ be32 errcode

-- a code for TPM 2, which this repository numbers, or one of libtpms
abbrev pub errcode_for : (Error → ℕ) → TpmVersion → ℕ → Error → ℕ
errcode_for codes TpmVersion.tpm_2 rc e = rc
errcode_for codes TpmVersion.tpm_1_2 rc e = codes e

-- whether a locality is refused
unfoldable pub is_refused_locality : ℕ → ℕ → Bool
is_refused_locality locality_flags new_locality =
    leb 5 new_locality || (new_locality == 4 && has_flag locality_flags flag_reject_locality_4)

-- `codes` is the number that libtpms gives an error; `can_alloc` whether malloc succeeds.
module _ (codes : Error → ℕ) (can_alloc : ℕ → Bool) where
  -- a fresh buffer of the header's size, or none
  unfoldable pub fresh_response : List ℕ → Response → Response
  fresh_response header r =
      if can_alloc req_header_size
      then record { rbuffer = some header; rlength = req_header_size }
      else record r { rbuffer = none }

  -- memcpy into a buffer that is there, if it is large enough
  unfoldable pub into_buffer : Option (List ℕ) → List ℕ → Response → Response
  unfolding fresh_response
  into_buffer none header r = fresh_response header r
  into_buffer (some buffer) header r =
      if ltb (length buffer) req_header_size then fresh_response header r else record {
        rbuffer = some (header ++ drop req_header_size buffer);
        rlength = req_header_size;
      }

  -- tpmlib_write_error_response
  unfoldable pub write_error_response : ℕ → TpmVersion → Response → Response
  write_error_response errcode tpmversion r =
      into_buffer r.rbuffer (resp_header tpmversion errcode) r

  -- tpmlib_write_fatal_error_response: TPM_RC_FAILURE or TPM_FAIL
  unfoldable pub write_fatal_error_response : TpmVersion → Response → Response
  write_fatal_error_response tpmversion =
      write_error_response (errcode_for codes tpmversion 257 fail) tpmversion

  -- tpmlib_write_locality_error_response: TPM_RC_LOCALITY or TPM_BAD_LOCALITY
  unfoldable pub write_locality_error_response : TpmVersion → Response → Response
  write_locality_error_response tpmversion =
      write_error_response (errcode_for codes tpmversion 263 bad_locality) tpmversion

  -- tpmlib_write_success_response
  unfoldable pub write_success_response : TpmVersion → Response → Response
  write_success_response tpmversion = write_error_response 0 tpmversion

  -- tpmlib_write_shortmsg_error_response: TPM_RC_INSUFFICIENT or TPM_BAD_PARAM_SIZE
  unfoldable pub write_shortmsg_error_response : TpmVersion → Response → Response
  write_shortmsg_error_response tpmversion =
      write_error_response (errcode_for codes tpmversion 154 bad_param_size) tpmversion

  -- tpmlib_process_setlocality: the response, and the locality
  unfoldable pub process_setlocality : List ℕ → TpmVersion → ℕ → Response → ℕ → Response × ℕ
  process_setlocality command tpmversion locality_flags r locality =
      if leb (req_header_size + 1) (length command)
      then if not (has_flag locality_flags flag_allow_setlocality)
        then (write_fatal_error_response tpmversion r, locality)
        else if is_refused_locality locality_flags (get_or command req_header_size 0)
        then (write_locality_error_response tpmversion r, locality)
        else (write_success_response tpmversion r, get_or command req_header_size 0)
      else (write_shortmsg_error_response tpmversion r, locality)

  -- tpmlib_process: the response, and the locality. Both versions have the same ordinal.
  unfoldable pub process : List ℕ → ℕ → ℕ → TpmVersion → Response → Response × ℕ
  process command locality_flags locality tpmversion r =
      if ltb (length command) req_header_size
      then (write_shortmsg_error_response tpmversion r, locality)
      else if get32 command 6 == cc_set_locality
      then process_setlocality command tpmversion locality_flags r locality
      else (r, locality)

-- tpmlib_handle_tcg_tpm2_cmd_header: the offset, and the locality
unfoldable pub handle_tcg_tpm2_cmd_header : List ℕ → ℕ → ℕ × ℕ
handle_tcg_tpm2_cmd_header command locality =
    if ltb (length command) req_header_size
      || get16 command 0 == tag_no_session
      || get16 command 0 == tag_sessions
      || ltb (length command) send_command_prefix_size
    then (0, locality)
    else if get32 command 0 == 8
    then (send_command_prefix_size, get_or command 4 0)
    else (0, locality)

-- `struct tpm_startup` as the bytes in memory
unfoldable pub startup_bytes : ℕ → ℕ → ℕ → List ℕ
startup_bytes tag ordinal startup_type = be16 tag ++ be32 12 ++ be32 ordinal ++ be16 startup_type

-- the command for a TPM 2: TPM_ST_CLEAR is 1, TPM_ST_STATE is 2; nothing for any other type
unfoldable pub startup_tpm_2 : ℕ → List ℕ
startup_tpm_2 startup_type =
    if startup_type == 1
    then startup_bytes tag_no_session 324 0
    else if startup_type == 2
    then startup_bytes tag_no_session 324 1
    else []

-- tpmlib_create_startup_cmd: the bytes that are copied; their number is what is returned
unfoldable pub create_startup_cmd : ℕ → TpmVersion → ℕ → List ℕ
create_startup_cmd startup_type TpmVersion.tpm_1_2 buffersize =
    take (min 12 buffersize) (startup_bytes tag_rqu_command 153 startup_type)
create_startup_cmd startup_type TpmVersion.tpm_2 buffersize =
    take (min 12 buffersize) (startup_tpm_2 startup_type)
