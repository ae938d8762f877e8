-- ===== src/Standard/Upload.antt =====
-- src/defib/protocol/hisilicon_standard.py: the upload of the DDR steps, the SPL and U-Boot.
pub mod Delivery
pub mod Device
pub mod Reentry
pub mod Flash
use openipc_defib.Prelude.{
  ℕ, zero, suc, ◌+◌, ◌-◌, ◌*◌, min, List, [], ◌∷◌, ◌++◌, length, take, replicate, Bool, true, false,
  if◌then◌else◌, Option, none, some,
}
use openipc_defib.Prelude.Result.{Result, ok, err}
use openipc_defib.Line.{
  Action, sleep, emit, Stage, ddr_init, spl, uboot, complete, Line, Exec, pure, perform, lift,
  continue, ◌>>=◌, ◌>>◌,
}
use openipc_defib.Frames.{HeadFrame, encode_head, chunk_data, max_data_len}
use openipc_defib.Standard.Image.{detect_spl_size, zero_long_ff_runs}
use openipc_defib.Standard.Send.{send_frame_with_retry, send_head, send_data, send_tail}
use openipc_defib.Standard.Handshake.{rehandshake, send_frame_for_start}

-- What the upload reads of a `SoCProfile`.
pub record Profile : Type 0 where
  pub ddr_step_address : ℕ
  pub prestep_data : Option (List ℕ)
  pub ddr_step_data : List ℕ
  pub prestep1_data : Option (List ℕ)
  pub spl_address : ℕ
  pub spl_max_size : ℕ
  pub spl_sram_limit : Option ℕ
  pub uboot_address : ℕ

-- Which sub-step `_send_ddr_step` names in the string that it returns.
pub data DdrFailure : Type 0 where
  handshake_timed_out prestep0_head prestep0_data ddrstep0_head ddrstep0_data : DdrFailure
  prestep1_head prestep1_data : DdrFailure

-- HEAD, DATA and TAIL of one step. A TAIL that is not acknowledged is no failure.
unfoldable pub send_step : ℕ → ℕ → List ℕ → DdrFailure → DdrFailure → Exec (Option DdrFailure)
send_step size address payload head_failure data_failure = do
  head_acked ← send_head size address
  elim head_acked [
    | false ↦ pure (some head_failure)
    | true ↦ do
      data_acked ← send_data 1 payload
      elim data_acked [ false ↦ pure (some data_failure) | true ↦ do _ ← send_tail 2; pure none ]
  ]

-- What comes before DDRSTEP0: the blast and PRESTEP0, on chips that have it.
unfoldable pub send_prestep0 : Profile → Exec (Option DdrFailure)
send_prestep0 profile = elim profile.prestep_data [
  | none ↦ pure none
  | some prestep ↦ do
    started ← send_frame_for_start profile.ddr_step_address
    elim started [
      | false ↦ pure (some handshake_timed_out)
      | true ↦ send_step 64 profile.ddr_step_address prestep prestep0_head prestep0_data
    ]
]

unfoldable pub send_prestep1 : Profile → Exec (Option DdrFailure)
send_prestep1 profile = elim profile.prestep1_data [
  | none ↦ pure none
  | some prestep1 ↦
      send_step (length prestep1) profile.ddr_step_address prestep1 prestep1_head prestep1_data
]

-- `if failure: return failure`, before the rest of the function.
abbrev pub unless_failed :
    Exec (Option DdrFailure) → Exec (Option DdrFailure) → Exec (Option DdrFailure)
unless_failed first rest =
    first >>= λ failure. elim failure [ some f ↦ pure (some f) | none ↦ rest ]

unfoldable pub send_ddr_step : Profile → Exec (Option DdrFailure)
send_ddr_step profile = do
  perform (emit ddr_init 0 64)
  unless_failed (send_prestep0 profile) (
      unless_failed
        (send_step 64 profile.ddr_step_address profile.ddr_step_data ddrstep0_head ddrstep0_data)
        (unless_failed (send_prestep1 profile) (do perform (emit ddr_init 64 64); pure none)))

-- `for i, chunk in enumerate(chunks)`, from the chunk with number `seq` on.
unfoldable pub send_chunks : Stage → ℕ → ℕ → List (List ℕ) → Exec Bool
send_chunks stage total seq [] s = (ok true, s)
send_chunks stage total seq (chunk ∷ chunks) s =
    let (r, s') = send_data seq chunk s in
    continue r
      (λ acked s''. elim acked [
        | false ↦ (ok false, s'')
        | true ↦
            send_chunks stage total (seq + 1) chunks (record s'' {
              log = s''.log ++ emit stage (min (seq * max_data_len) total) total ∷ [];
            })
      ])
      s'

-- `spl_override[:spl_size].ljust(spl_size, b"\x00")`, or the front of the firmware.
abbrev pub spl_image : List ℕ → Option (List ℕ) → ℕ → List ℕ
spl_image firmware none spl_size = take spl_size firmware
spl_image firmware (some image) spl_size =
    take spl_size image ++ replicate (spl_size - length (take spl_size image)) 0

abbrev pub scanned : List ℕ → Option (List ℕ) → List ℕ
scanned firmware none = firmware
scanned firmware (some image) = image

-- The end of a stage.
abbrev pub finish_spl : ℕ → Exec Bool
finish_spl spl_size = do perform sleep; perform (emit spl spl_size spl_size); pure true

unfoldable pub send_spl : List ℕ → Profile → Option (List ℕ) → Exec Bool
send_spl firmware profile spl_override = do
  spl_size ←
      lift (
        detect_spl_size (scanned firmware spl_override) profile.spl_max_size profile.spl_sram_limit)
  let spl_data = zero_long_ff_runs (spl_image firmware spl_override spl_size) 12
  perform (emit spl 0 spl_size)
  head_acked ← send_head spl_size profile.spl_address
  elim head_acked [
    | false ↦ pure false
    | true ↦ do
      chunks ← lift (chunk_data spl_data max_data_len)
      data_acked ← send_chunks spl spl_size 1 chunks
      elim data_acked [
        | false ↦ pure false
        | true ↦ do
          tail_acked ← send_tail (length chunks + 1)
          elim tail_acked [
            | true ↦ finish_spl spl_size
            | false ↦ elim profile.prestep_data [
              | none ↦ pure false
              | some prestep ↦ finish_spl spl_size
            ]
          ]
      ]
  ]

-- Into download mode again after the SPL: only the blast can fail.
unfoldable pub reenter : Profile → Exec Bool
reenter profile = elim profile.prestep_data [
  | some prestep ↦ send_frame_for_start profile.ddr_step_address
  | none ↦ do _ ← rehandshake; pure true
]

unfoldable pub send_uboot : List ℕ → Profile → Exec Bool
send_uboot firmware profile = do
  let image = zero_long_ff_runs firmware 12
  let total = length image
  perform (emit uboot 0 total)
  started ← reenter profile
  elim started [
    | false ↦ pure false
    | true ↦ do
      head ← lift (encode_head (record { length = total; address = profile.uboot_address }))
      head_acked ← send_frame_with_retry head 64
      elim head_acked [
        | false ↦ pure false
        | true ↦ do
          chunks ← lift (chunk_data image max_data_len)
          data_acked ← send_chunks uboot total 1 chunks
          elim data_acked [
            | false ↦ pure false
            | true ↦ do
              _ ← send_tail (length chunks + 1)
              perform (emit uboot total total)
              pure true
          ]
      ]
  ]

pub data Failure : Type 0 where
  no_profile : Failure
  ddr_failed : DdrFailure → Failure
  spl_failed : Failure
  uboot_failed : Failure

pub record RecoveryResult : Type 0 where
  pub success : Bool
  pub stages_completed : List Stage
  pub error : Option Failure

abbrev pub failed_with : List Stage → Failure → RecoveryResult
failed_with stages failure = record {
  success = false;
  stages_completed = stages;
  error = some failure;
}

-- After the DDR steps, and after the SPL.
unfoldable pub after_spl : List ℕ → Profile → Exec RecoveryResult
after_spl firmware profile = do
  sent ← send_uboot firmware profile
  elim sent [
    | false ↦ pure (failed_with (ddr_init ∷ spl ∷ []) uboot_failed)
    | true ↦ do
      perform (emit complete 1 1)
      pure (record {
        success = true;
        stages_completed = ddr_init ∷ spl ∷ uboot ∷ complete ∷ [];
        error = none;
      })
  ]

unfoldable pub after_ddr : List ℕ → Profile → Option (List ℕ) → Exec RecoveryResult
after_ddr firmware profile spl_override = do
  _ ← rehandshake
  sent ← send_spl firmware profile spl_override
  elim sent [
    | false ↦ pure (failed_with (ddr_init ∷ []) spl_failed)
    | true ↦ after_spl firmware profile
  ]

-- `send_firmware`; without a profile nothing is sent.
unfoldable pub send_firmware : Option Profile → List ℕ → Option (List ℕ) → Exec RecoveryResult
send_firmware none firmware spl_override = pure (failed_with [] no_profile)
send_firmware (some profile) firmware spl_override = do
  ddr_failure ← send_ddr_step profile
  elim ddr_failure [
    | some failure ↦ pure (failed_with [] (ddr_failed failure))
    | none ↦ after_ddr firmware profile spl_override
  ]
