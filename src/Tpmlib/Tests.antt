-- ===== src/Tpmlib/Tests.antt =====
-- The theorems about src/swtpm/tpmlib.c at a sample process and at small messages.
use swtpm.Common.{ℕ, ◌≡◌, ◌≢◌, ◌⊎◌, Bool, true, none, List, [], ◌∷◌, arith}
use swtpm.Common.Result.{Error}
use swtpm.Host.Samples.{sample_libtpms, sample_ssl, sample_RunLaws, sample_process, sample_stopped}
use swtpm.Tpmlib.{TpmVersion, Response, process, write_success_response, write_error_response}
use swtpm.Tpmlib.Locality.{IsObeyed, process-IsObeyed}
use swtpm.Tpmlib.Headers.{Outcome, write_error_response-Outcome}
use swtpm.Tpmlib.Start.{profile_for, start}
use swtpm.Tpmlib.Running.{Ends, start-Ends}
use swtpm.Tpmlib.Shutdown.{
  cc_shutdown, Sent, maybe_send_tpm2_shutdown, maybe_send_tpm2_shutdown-Sent,
}

abbrev no_codes : Error → ℕ
no_codes e = 9

abbrev memory : ℕ → Bool
memory n = true

abbrev no_response : Response
no_response = record { rbuffer = none; rlength = 0 }

-- TPM2_CC_SET_LOCALITY with locality 3
abbrev to_locality_3 : List ℕ
to_locality_3 = 128 ∷ 1 ∷ 0 ∷ 0 ∷ 0 ∷ 11 ∷ 32 ∷ 0 ∷ 16 ∷ 0 ∷ 3 ∷ []

process-IsObeyed_example :
    ((process no_codes memory to_locality_3 2 0 TpmVersion.tpm_2 no_response).1 ≡ 0)
    ⊎ (IsObeyed to_locality_3 2
        × (process no_codes memory to_locality_3 2 0 TpmVersion.tpm_2 no_response
            ≡ (write_success_response no_codes memory TpmVersion.tpm_2 no_response, 3)))
process-IsObeyed_example =
    process-IsObeyed no_codes memory to_locality_3 2 0 TpmVersion.tpm_2 no_response

write_error_response-Outcome_example :
    Outcome memory TpmVersion.tpm_1_2 263
      (write_error_response no_codes memory 263 TpmVersion.tpm_1_2 no_response)
write_error_response-Outcome_example =
    write_error_response-Outcome no_codes memory TpmVersion.tpm_1_2 263 (omega arith) no_response

start-Ends_example :
    Ends sample_libtpms sample_ssl sample_RunLaws
      (profile_for TpmVersion.tpm_2 none)
      (start sample_libtpms sample_ssl 1 TpmVersion.tpm_2 true none sample_process)
start-Ends_example =
    start-Ends sample_libtpms sample_ssl sample_RunLaws 1 TpmVersion.tpm_2 true none sample_process
      sample_stopped

maybe_send_tpm2_shutdown-Sent_example :
    (((TpmVersion.tpm_2 ≡ TpmVersion.tpm_1_2) ⊎ (5 ≡ cc_shutdown))
      × (maybe_send_tpm2_shutdown sample_libtpms 0 TpmVersion.tpm_2 5 sample_process
          ≡ (5, sample_process)))
    ⊎ ((TpmVersion.tpm_2 ≡ TpmVersion.tpm_2)
        × (5 ≢ cc_shutdown)
        × Sent sample_libtpms 0 5 sample_process
            (maybe_send_tpm2_shutdown sample_libtpms 0 TpmVersion.tpm_2 5 sample_process))
maybe_send_tpm2_shutdown-Sent_example =
    maybe_send_tpm2_shutdown-Sent sample_libtpms 0 TpmVersion.tpm_2 5 sample_process
