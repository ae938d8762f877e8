-- ===== src/V500.antt =====
-- src/defib/protocol/hisilicon_v500.py: the boot protocol of the GK7205V500 series. The transfer of
-- a section is Bootrom's.
pub mod Flash
pub mod Answered
mod Tests
use openipc_defib.Prelude.{
  ℕ, ◌+◌, List, [], ◌∷◌, ◌++◌, length, slice, take, replicate, Bool, true, false, leb, ◌&&◌,
  if◌then◌else◌, Option, none, some,
}
use openipc_defib.Prelude.Result.{Result, ok, err, transport_error}
use openipc_defib.Struct.{unpack_le, be_value}
use openipc_defib.Crc.{append_crc}
use openipc_defib.Search.{starts_with}
use openipc_defib.Line.{
  Read, received, timed_out, expired, failed, Action, write, sleep, emit, Stage, handshake,
  head_area, aux_area, boot_image, complete, Line, Exec, pure, perform, lift, ◌>>=◌, ◌>>◌,
}
use openipc_defib.Bootrom.{send_data_to_bootrom}

abbrev pub boot_load_addr : ℕ
boot_load_addr = 0x41000000

abbrev pub v500_handshake_magic : List ℕ
v500_handshake_magic = 0xbd ∷ 0x00 ∷ 0xff ∷ 0x01 ∷ []

unfoldable pub v500_handshake_frame : List ℕ
v500_handshake_frame = append_crc (v500_handshake_magic ++ replicate 8 0)

-- `while True`: the chip's number, or `none` where the reads end and it still waits. There is no
-- deadline here, so `expired` cannot come.
unfoldable pub v500_handshake_loop : List Read → List Action → Option (Result ℕ) × Line
v500_handshake_loop [] log =
    (none, record { reads = []; log = log ++ write v500_handshake_frame ∷ [] })
v500_handshake_loop (expired ∷ reads) log = v500_handshake_loop reads log
v500_handshake_loop (timed_out ∷ reads) log =
    v500_handshake_loop reads (log ++ write v500_handshake_frame ∷ [])
v500_handshake_loop (failed ∷ reads) log = (
  some (err transport_error),
  record { reads = reads; log = log ++ write v500_handshake_frame ∷ [] },
)
v500_handshake_loop (received response ∷ reads) log =
    elim (starts_with (0xbd ∷ 0x00 ∷ []) response && leb 12 (length response)) [
      | true ↦ (
        some (ok (be_value (slice 8 4 response))),
        record {
          reads = reads;
          log = log ++ (write v500_handshake_frame ∷ emit handshake 1 1 ∷ []);
        },
      )
      | false ↦ v500_handshake_loop reads (log ++ write v500_handshake_frame ∷ [])
    ]

unfoldable pub v500_handshake : Line → Option (Result ℕ) × Line
v500_handshake s = v500_handshake_loop s.reads (s.log ++ emit handshake 0 1 ∷ [])

pub data V500Failure : Type 0 where
  head_area_not_sent aux_area_not_sent boot_image_not_sent : V500Failure

-- `RecoveryResult`, whose other fields keep their defaults.
pub record V500Result : Type 0 where
  pub success : Bool
  pub stages_completed : List Stage
  pub error : Option V500Failure

abbrev pub gave_up : List Stage → V500Failure → V500Result
gave_up stages failure = record { success = false; stages_completed = stages; error = some failure }

-- `if not await ...: return RecoveryResult(success=False, ...)`, before the rest.
abbrev pub or_give_up : Exec Bool → V500Result → Exec V500Result → Exec V500Result
or_give_up m failure k = m >>= λ sent. elim sent [ false ↦ pure failure | true ↦ k ]

-- After the AUX area.
unfoldable pub send_boot_image : List ℕ → Exec V500Result
send_boot_image firmware = do
  perform sleep
  or_give_up (send_data_to_bootrom firmware boot_load_addr boot_image)
      (gave_up (head_area ∷ aux_area ∷ []) boot_image_not_sent)
      (do
        perform (emit complete 1 1)
        pure (record {
          success = true;
          stages_completed = head_area ∷ aux_area ∷ boot_image ∷ complete ∷ [];
          error = none;
        }))

-- After the HEAD area: `struct.unpack` raises on an image of less than 1028 bytes.
unfoldable pub send_aux_area : List ℕ → Exec V500Result
send_aux_area firmware = do
  aux_len ← lift (unpack_le 4 1024 firmware)
  or_give_up (send_data_to_bootrom (slice 8192 aux_len firmware) 8192 aux_area)
      (gave_up (head_area ∷ []) aux_area_not_sent) (send_boot_image firmware)

-- `send_firmware`.
unfoldable pub v500_send_firmware : List ℕ → Exec V500Result
v500_send_firmware firmware =
    or_give_up (send_data_to_bootrom (take 8192 firmware) 0 head_area)
      (gave_up [] head_area_not_sent) (send_aux_area firmware)
