-- ===== src/Cv6xx/Firmware.antt =====
-- src/defib/protocol/hisilicon_cv6xx.py: `send_firmware`.
use openipc_defib.Prelude.{
  ℕ, List, [], ◌∷◌, ◌++◌, Bool, true, false, if◌then◌else◌, Option, none, some,
}
use openipc_defib.Prelude.Result.{Error, Result, ok, err, protocol_error, transport_error}
use openipc_defib.Line.{
  Read, received, timed_out, expired, failed, Action, sleep, emit, Stage, gsl, board_id, ddr_table,
  ddr_training, uboot, complete, Line, Exec, pure, perform, lift, ◌>>=◌, ◌>>◌,
}
use openipc_defib.Bootrom.{send_data_to_bootrom}
use openipc_defib.Cv6xx.Boot.{Cv6xxBootParts, parse_cv6xx_boot, build_ddr_table}
use openipc_defib.Cv6xx.Query.{HiSiliconCv6xx, get_board_id}

abbrev pub gsl_load_addr : ℕ
gsl_load_addr = 0x04020000

abbrev pub ddr_load_addr : ℕ
ddr_load_addr = 0x41000000

abbrev pub uboot_load_addr : ℕ
uboot_load_addr = 0x41000000

-- The four messages of a failure.
pub data Cv6xxFailure : Type 0 where
  not_a_boot_file gsl_not_sent ddr_table_not_sent uboot_not_sent : Cv6xxFailure

-- `RecoveryResult`, whose other fields keep their defaults.
pub record Cv6xxResult : Type 0 where
  pub success : Bool
  pub stages_completed : List Stage
  pub error : Option Cv6xxFailure

abbrev pub refused_with : List Stage → Cv6xxFailure → Cv6xxResult
refused_with stages failure = record {
  success = false;
  stages_completed = stages;
  error = some failure;
}

-- The rounds of `while time.monotonic() - start < self._ddr_training_wait`: what the device prints
-- is only logged.
unfoldable pub training_loop : List Read → List Action → Result (Unit {0}) × Line
training_loop [] log = (ok tt, record { reads = []; log = log })
training_loop (expired ∷ reads) log = (ok tt, record { reads = reads; log = log })
training_loop (failed ∷ reads) log = (err transport_error, record { reads = reads; log = log })
training_loop (timed_out ∷ reads) log = training_loop reads (log ++ sleep ∷ [])
training_loop (received bytes ∷ reads) log = training_loop reads (log ++ sleep ∷ [])

unfoldable pub wait_for_training : Exec (Unit {0})
wait_for_training s = training_loop s.reads s.log

-- `if not await ...: return RecoveryResult(success=False, ...)`, before the rest.
abbrev pub or_fail : Exec Bool → Cv6xxResult → Exec Cv6xxResult → Exec Cv6xxResult
or_fail m failure k = m >>= λ sent. elim sent [ false ↦ pure failure | true ↦ k ]

-- After the DDR training.
unfoldable pub send_uboot_stage : List ℕ → Exec Cv6xxResult
send_uboot_stage payload =
    or_fail (send_data_to_bootrom payload uboot_load_addr uboot)
      (refused_with (gsl ∷ ddr_table ∷ ddr_training ∷ []) uboot_not_sent)
      (do
        perform (emit complete 1 1)
        pure (record {
          success = true;
          stages_completed = gsl ∷ ddr_table ∷ ddr_training ∷ uboot ∷ complete ∷ [];
          error = none;
        }))

-- After the GSL, with the DDR table for the board.
unfoldable pub send_table_stage : List ℕ → List ℕ → Exec Cv6xxResult
send_table_stage table payload =
    or_fail (send_data_to_bootrom table ddr_load_addr ddr_table)
      (refused_with (gsl ∷ []) ddr_table_not_sent)
      (do
        perform (emit ddr_training 0 1)
        wait_for_training
        perform (emit ddr_training 1 1)
        send_uboot_stage payload)

-- The question for the board, and the table.
unfoldable pub query_board : Cv6xxBootParts → ℕ → HiSiliconCv6xx → Exec (List ℕ × HiSiliconCv6xx)
query_board parts now p = do
  perform (emit board_id 0 1)
  found ← get_board_id now p
  perform (emit board_id 1 1)
  table ← lift (build_ddr_table parts found.0)
  pure (table, found.1)

-- The object after the run, with its result.
abbrev pub with_state : HiSiliconCv6xx → Exec Cv6xxResult → Exec (Cv6xxResult × HiSiliconCv6xx)
with_state p m = m >>= λ r. pure (r, p)

abbrev pub uboot_payload : Cv6xxBootParts → Option (List ℕ) → List ℕ
uboot_payload parts none = parts.uboot_data
uboot_payload parts (some payload) = payload

unfoldable pub send_parts :
    Cv6xxBootParts → List ℕ → ℕ → HiSiliconCv6xx → Exec (Cv6xxResult × HiSiliconCv6xx)
send_parts parts payload now p = send_data_to_bootrom parts.gsl_data gsl_load_addr gsl >>= λ sent.
    elim sent [
      | false ↦ pure (refused_with [] gsl_not_sent, p)
      | true ↦ query_board parts now p >>= λ queried.
          with_state queried.1 (send_table_stage queried.0 payload)
    ]

abbrev pub is_protocol_error : Error → Bool
is_protocol_error protocol_error = true
is_protocol_error other = false

-- `send_firmware`. `except ProtocolError` catches only what the parser raises as such.
unfoldable pub cv6xx_send_firmware :
    List ℕ → Option (List ℕ) → ℕ → HiSiliconCv6xx → Exec (Cv6xxResult × HiSiliconCv6xx)
cv6xx_send_firmware firmware uboot_override now p = elim (parse_cv6xx_boot firmware) [
  | ok parts ↦ send_parts parts (uboot_payload parts uboot_override) now p
  | err e ↦ if is_protocol_error e then pure (refused_with [] not_a_boot_file, p) else lift (err e)
]
