-- ===== src/Mainloop/Served.antt =====
-- How mainLoop of src/swtpm/mainloop.c answers a request.
use swtpm.Common.{
  ℕ, ◌≡◌, refl, ◌⊎◌, sym, ap, ◌∙◌, true, false, Option, none, some, List, ◌∷◌, ◌++◌, ltb, drop,
  get16, be32, arith,
}
use swtpm.Tpmlib.{TpmVersion, Response, tag_no_session, tag_sessions, handle_tcg_tpm2_cmd_header}
use swtpm.Tpmlib.Headers.{tcg_prefix, handle_tcg_tpm2_cmd_header-prefix}
use swtpm.Ctrl.{Env, CtrlState}
use swtpm.Mainloop.Request.{LoopState, cmd_offset, framed, run_request, written, serve_command}

module _ {T R W : Type 0} where
  -- The size of the response in front of what is written, and four zeros behind.
  unfoldable pub with_frame : Option (List ℕ) × LoopState T R W → Option (List ℕ) × LoopState T R W
  with_frame (none, s) = (none, s)
  with_frame (some answer, s) = (some (be32 s.response.rlength ++ answer ++ be32 0), s)

plain_request :
    (request : List ℕ) (locality : ℕ)
    → (get16 request 0 ≡ tag_no_session) ⊎ (get16 request 0 ≡ tag_sessions)
    → handle_tcg_tpm2_cmd_header request locality ≡ (0, locality)
unfolding handle_tcg_tpm2_cmd_header
plain_request request locality tag = ground arith

cmd_offset_plain :
    (v : TpmVersion) (request : List ℕ) (locality : ℕ)
    → v ≡ TpmVersion.tpm_2
    → (get16 request 0 ≡ tag_no_session) ⊎ (get16 request 0 ≡ tag_sessions)
    → cmd_offset v request locality ≡ (0, locality)
unfolding cmd_offset
cmd_offset_plain v request locality e tag = rw e (plain_request request locality tag)

cmd_offset_prefix :
    (v : TpmVersion) (l size x : ℕ) (request : List ℕ) (locality : ℕ)
    → v ≡ TpmVersion.tpm_2
    → cmd_offset v (tcg_prefix l size ++ x ∷ request) locality ≡ (9, l)
unfolding cmd_offset
cmd_offset_prefix v l size x request locality e =
    rw e (handle_tcg_tpm2_cmd_header-prefix l size x request locality).0

module _ {T R W : Type 0} (env : Env T R W) where
  written_framed :
      (a : Option Response × CtrlState T R W) (r : Response)
      → written env true a r ≡ with_frame (written env false a r)
  unfolding written framed with_frame
  written_framed (none, s) r = refl
  written_framed (some answer, s) r = refl

  -- serve_command behind the offset and the locality
  abbrev at : List ℕ → Response → CtrlState T R W → ℕ × ℕ → Option (List ℕ) × LoopState T R W
  at command r s c =
      written env (ltb 0 c.0) (run_request env (drop c.0 command) r (record s { locality = c.1 })) r

  -- For a TPM 2, a request behind a prefix of the TCG does what the same request without a prefix does at the
  -- prefix's locality, and its answer is the same but for the frame: the size in front and four zeros
  -- behind. The request starts with a tag of a TPM 2.
  pub serve_command-tcg_prefix :
      (l size x : ℕ) (request : List ℕ) (r : Response) (s : CtrlState T R W)
      → s.mlp.tpmversion ≡ TpmVersion.tpm_2
      → (get16 (x ∷ request) 0 ≡ tag_no_session) ⊎ (get16 (x ∷ request) 0 ≡ tag_sessions)
      → serve_command env (tcg_prefix l size ++ x ∷ request) r s
        ≡ with_frame (serve_command env (x ∷ request) r (record s { locality = l }))
  unfolding serve_command
  serve_command-tcg_prefix l size x request r s version tag =
      ap (at (tcg_prefix l size ++ x ∷ request) r s)
        (cmd_offset_prefix s.mlp.tpmversion l size x request s.locality version)
      ∙ written_framed (run_request env (x ∷ request) r (record s { locality = l })) r
      ∙ ap (λ c. with_frame (at (x ∷ request) r (record s { locality = l }) c))
          (sym (cmd_offset_plain s.mlp.tpmversion (x ∷ request) l version tag))
