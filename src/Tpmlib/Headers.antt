-- ===== src/Tpmlib/Headers.antt =====
-- The headers that src/swtpm/tpmlib.c writes and reads: of error responses, of the TCG's TPM2 command
-- prefix, and of the startup command.
use swtpm.Common.{
  ℕ, min, ◌≤◌, ◌<◌, ◌≡◌, refl, ◌⊎◌, Bool, true, false, Option, none, some, List, [], ◌∷◌, ◌++◌,
  if◌then◌else◌, sym, ltb, length, get_or, get16, get32, drop, be32, u32_mod, be32_value, arith,
}
use swtpm.Common.Result.{Error}
use swtpm.Tpmlib.{
  TpmVersion, Response, req_header_size, send_command_prefix_size, response_tag, resp_header,
  fresh_response, into_buffer, write_error_response, handle_tcg_tpm2_cmd_header, startup_bytes,
  startup_tpm_2, create_startup_cmd, get_cmd_ordinal,
}

-- A response that a client reads as this code: a whole header, with the version's tag and the size of
-- the header.
pub record Answers (tpmversion : TpmVersion) (errcode : ℕ) (r : Response) (buffer : List ℕ)
    : Type 0 where
  pub rlength_is : r.rlength ≡ req_header_size
  pub fits : req_header_size ≤ length buffer
  pub tag_is : get16 buffer 0 ≡ response_tag tpmversion
  pub size_is : get32 buffer 2 ≡ req_header_size
  pub errcode_is : get32 buffer 6 ≡ errcode

header-Answers :
    (v : TpmVersion) (errcode : ℕ) (rest : List ℕ)
    → errcode < u32_mod
    → Answers v errcode
        (record { rbuffer = some (resp_header v errcode ++ rest); rlength = 10 })
        (resp_header v errcode ++ rest)
unfolding resp_header
header-Answers TpmVersion.tpm_1_2 e rest h = record {
  rlength_is = refl;
  fits = omega arith;
  tag_is = refl;
  size_is = refl;
  errcode_is = be32_value e h;
}
header-Answers TpmVersion.tpm_2 e rest h = record {
  rlength_is = refl;
  fits = omega arith;
  tag_is = refl;
  size_is = refl;
  errcode_is = be32_value e h;
}

resp_header-nil :
    (v : TpmVersion) (errcode : ℕ) → resp_header v errcode ++ [] ≡ resp_header v errcode
unfolding resp_header
resp_header-nil TpmVersion.tpm_1_2 e = refl
resp_header-nil TpmVersion.tpm_2 e = refl

-- What a client can make of a response: no buffer, where malloc gives none, or an answer.
pub data Outcome (can_alloc : ℕ → Bool) (tpmversion : TpmVersion) (errcode : ℕ) (r : Response)
    : Type 0 where
  lost :
      can_alloc req_header_size ≡ false → r.rbuffer ≡ none → Outcome can_alloc tpmversion errcode r
  answered :
      (buffer : List ℕ)
      → r.rbuffer ≡ some buffer
      → Answers tpmversion errcode r buffer
      → Outcome can_alloc tpmversion errcode r

module _ (codes : Error → ℕ) (can_alloc : ℕ → Bool) (v : TpmVersion) (errcode : ℕ)
    (h : errcode < u32_mod) where
  fresh_response-Outcome :
      (r : Response)
      → Outcome can_alloc v errcode (fresh_response codes can_alloc (resp_header v errcode) r)
  unfolding fresh_response
  fresh_response-Outcome r = by_flag (can_alloc 10) refl
    where
      by_flag :
          (b : Bool)
          → can_alloc 10 ≡ b
          → Outcome can_alloc v errcode (
              if b
              then record { rbuffer = some (resp_header v errcode); rlength = 10 }
              else record r { rbuffer = none })
      by_flag true e =
          answered (resp_header v errcode) refl
            (rw (sym (resp_header-nil v errcode)) (header-Answers v errcode [] h))
      by_flag false e = lost e refl

  into_buffer-Outcome :
      (b : Option (List ℕ)) (r : Response)
      → Outcome can_alloc v errcode (into_buffer codes can_alloc b (resp_header v errcode) r)
  unfolding into_buffer
  into_buffer-Outcome none r = fresh_response-Outcome r
  into_buffer-Outcome (some buffer) r = by_flag (ltb (length buffer) 10)
    where
      by_flag :
          (b : Bool)
          → Outcome can_alloc v errcode (
              if b then fresh_response codes can_alloc (resp_header v errcode) r else record {
                rbuffer = some (resp_header v errcode ++ drop 10 buffer);
                rlength = 10;
              })
      by_flag true = fresh_response-Outcome r
      by_flag false = answered _ refl (header-Answers v errcode (drop 10 buffer) h)

  -- Where tpmlib_write_error_response leaves a buffer, whether it was large enough or a new one, *rlength is 10
  -- and the buffer starts with a whole header that reads as the code, which fits a uint32_t; else malloc gives no 10 bytes.
  pub write_error_response-Outcome :
      (r : Response)
      → Outcome can_alloc v errcode (write_error_response codes can_alloc errcode v r)
  unfolding write_error_response
  write_error_response-Outcome r = into_buffer-Outcome r.rbuffer r

-- A prefix of the TCG: TPM2_SEND_COMMAND, a locality, and the size of the request behind it.
abbrev pub tcg_prefix : ℕ → ℕ → List ℕ
tcg_prefix locality size = be32 8 ++ locality ∷ be32 size

-- Where tpmlib_handle_tcg_tpm2_cmd_header gives an offset, it is the prefix's 9 bytes, the command is longer
-- than them, and the locality is the one in the prefix; else the offset is 0 and the locality is left.
pub handle_tcg_tpm2_cmd_header-bounds :
    (command : List ℕ) (locality : ℕ)
    → (handle_tcg_tpm2_cmd_header command locality ≡ (0, locality))
      ⊎ ((send_command_prefix_size < length command)
          × (handle_tcg_tpm2_cmd_header command locality
              ≡ (send_command_prefix_size, get_or command 4 0)))
unfolding handle_tcg_tpm2_cmd_header
handle_tcg_tpm2_cmd_header-bounds command locality = ground arith

-- A request behind a prefix, if it is not empty, is found behind it, with the prefix's locality.
pub handle_tcg_tpm2_cmd_header-prefix :
    (l size x : ℕ) (request : List ℕ) (locality : ℕ)
    → (handle_tcg_tpm2_cmd_header (tcg_prefix l size ++ x ∷ request) locality ≡ (9, l))
      × (drop
            (handle_tcg_tpm2_cmd_header (tcg_prefix l size ++ x ∷ request) locality).0
            (tcg_prefix l size ++ x ∷ request)
          ≡ x ∷ request)
unfolding handle_tcg_tpm2_cmd_header
handle_tcg_tpm2_cmd_header-prefix l size x request locality = ground arith

-- A startup command is empty, or it is whole: its size field is its length.
pub IsWhole : List ℕ → ℕ → Type 0
IsWhole command ordinal =
    (length command ≡ 12) × (get32 command 2 ≡ 12) × (get_cmd_ordinal command ≡ ordinal)

-- With a buffer of at least 12 bytes: for a TPM 1.2 the startup command has 12 bytes, its size field says so and its ordinal is
-- that of TPM_Startup; for a TPM 2 the same holds with TPM2_Startup, or there is no command; and the one for a TPM 2
-- is not taken for one with a prefix of the TCG.
pub create_startup_cmd-IsWhole :
    (startup_type buffersize locality : ℕ)
    → 12 ≤ buffersize
    → IsWhole (create_startup_cmd startup_type TpmVersion.tpm_1_2 buffersize) 153
      × ((create_startup_cmd startup_type TpmVersion.tpm_2 buffersize ≡ [])
          ⊎ (IsWhole (create_startup_cmd startup_type TpmVersion.tpm_2 buffersize) 324
              × (handle_tcg_tpm2_cmd_header
                    (create_startup_cmd startup_type TpmVersion.tpm_2 buffersize)
                    locality
                  ≡ (0, locality))))
unfolding create_startup_cmd startup_tpm_2 startup_bytes get_cmd_ordinal handle_tcg_tpm2_cmd_header
    IsWhole
create_startup_cmd-IsWhole t b l h =
    let all : min 12 b ≡ 12 = omega arith in rw all ((refl, refl, refl), ground arith)
