-- ===== src/Mainloop/Request.antt =====
-- A request of the data client: the part of mainLoop of src/swtpm/mainloop.c from the lock of the
-- storage to the response. Polling and accepting connections are not part of it.
use swtpm.Common.{
  ℕ, Bool, true, false, not, Option, none, some, List, [], ◌++◌, ◌==◌, ltb, if◌then◌else◌, length,
  take, drop, be32,
}
use swtpm.Common.Result.{Rc, success, error, Result, ok, err}
use swtpm.Host.{Host}
use swtpm.Tpmlib.{
  TpmVersion, Response, get_cmd_ordinal, process, handle_tcg_tpm2_cmd_header,
  write_fatal_error_response,
}
use swtpm.Ctrl.{Env, CtrlState, ensure_locked}

-- The loop's variables: the response buffer, and what the control channel shares with it.
pub record LoopState (T R W : Type 0) : Type 0 where
  pub response : Response
  pub shared : CtrlState T R W

-- cmd_offset and g_locality; only a TPM 2 has a header in front
unfoldable pub cmd_offset : TpmVersion → List ℕ → ℕ → ℕ × ℕ
cmd_offset TpmVersion.tpm_1_2 command locality = (0, locality)
cmd_offset TpmVersion.tpm_2 command locality = handle_tcg_tpm2_cmd_header command locality

-- the bytes of the response
abbrev pub response_bytes : Response → List ℕ
response_bytes r = bytes_in r.rbuffer r.rlength
  where
    bytes_in : Option (List ℕ) → ℕ → List ℕ
    bytes_in none n = []
    bytes_in (some buffer) n = take n buffer

-- what SWTPM_IO_Write is given: behind a header, the size in front and four zeros behind
unfoldable pub framed : Bool → Response → List ℕ
framed false r = response_bytes r
framed true r = be32 r.rlength ++ response_bytes r ++ be32 0

-- if (lastCommand != TPM_ORDINAL_NONE) mlp->lastCommand = lastCommand
abbrev pub last_of : ℕ → ℕ → ℕ
last_of ordinal last_command = if ordinal == 0 then last_command else ordinal

module _ {T R W : Type 0} (env : Env T R W) where
  -- Behind TPMLIB_Process, which gives the buffer its response; nothing is written where it fails.
  unfoldable pub processed :
      Rc × List ℕ × Host T R W → CtrlState T R W → Option Response × CtrlState T R W
  processed (error e, bytes, h) s = (none, record s { host = h })
  processed (success, bytes, h) s =
      (some (record { rbuffer = some bytes; rlength = length bytes }), record s { host = h })

  -- behind tpmlib_process: its response, or the request goes on to libtpms
  unfoldable pub passed_on :
      List ℕ → Response × ℕ → CtrlState T R W → Option Response × CtrlState T R W
  passed_on command (r, locality) s =
      let s = record s { locality = locality } in
      if not (r.rlength == 0)
      then (some r, s)
      else processed (env.libtpms.run_command locality command s.host) s

  -- a command without a header: what answers it, `none` where nothing is written
  unfoldable pub run_request :
      List ℕ → Response → CtrlState T R W → Option Response × CtrlState T R W
  run_request command r s =
      if not s.tpm_running
      then (some (write_fatal_error_response env.codes env.crypto.can_alloc s.mlp.tpmversion r), s)
      else (let mlp = record s.mlp {
        last_command = last_of (get_cmd_ordinal command) s.mlp.last_command;
      } in
          passed_on command
            (process env.codes env.crypto.can_alloc command mlp.locality_flags s.locality
              mlp.tpmversion (record r { rlength = 0 }))
            (record s { mlp = mlp }))

  -- the answer as it is written, and the loop's variables
  unfoldable pub written :
      Bool → Option Response × CtrlState T R W → Response → Option (List ℕ) × LoopState T R W
  written prefixed (none, s) r = (none, record { response = r; shared = s })
  written prefixed (some answer, s) r =
      (some (framed prefixed answer), record { response = answer; shared = s })

  -- behind SWTPM_IO_Read
  unfoldable pub serve_command :
      List ℕ → Response → CtrlState T R W → Option (List ℕ) × LoopState T R W
  serve_command command r s =
      let (offset, locality) = cmd_offset s.mlp.tpmversion command s.locality in
      written (ltb 0 offset)
        (run_request (drop offset command) r (record s { locality = locality })) r

  unfoldable pub serve_read :
      Result (List ℕ) → Response → CtrlState T R W → Option (List ℕ) × LoopState T R W
  serve_read (err e) r s = (none, record { response = r; shared = s })
  serve_read (ok command) r s = serve_command command r s

  -- the lock first; the loop ends where it cannot be had
  unfoldable pub serve_locked :
      Result (List ℕ) → Response → Bool × CtrlState T R W → Option (List ℕ) × LoopState T R W
  serve_locked command r (false, s) =
      (none, record { response = r; shared = record s { terminate = true } })
  serve_locked command r (true, s) = serve_read command r (record s { terminate = false })

  -- one request, as SWTPM_IO_Read gives it
  unfoldable pub serve_request :
      Result (List ℕ) → LoopState T R W → Option (List ℕ) × LoopState T R W
  serve_request command s = serve_locked command s.response (ensure_locked env s.shared)
