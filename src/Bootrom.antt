-- ===== src/Bootrom.antt =====
-- src/defib/protocol/hisilicon_cv6xx.py: `_send_frame_wait_ack` and `_send_data_to_bootrom`, which
-- src/defib/protocol/hisilicon_v500.py repeats word for word.
pub mod Upload
pub mod Device
pub mod Sent
pub mod Answered
mod Tests
pub mod Rounds
pub mod Delivery
use openipc_defib.Prelude.{
  ℕ, zero, suc, ◌+◌, ◌-◌, ◌/◌, min, List, [], ◌∷◌, ◌++◌, length, slice, Bool, true, false, ltb,
  bytes_eq, if◌then◌else◌,
}
use openipc_defib.Prelude.Bits.{u8}
use openipc_defib.Prelude.Result.{Result, ok, err, transport_error, out_of_fuel}
use openipc_defib.Struct.{pack_be}
use openipc_defib.Crc.{append_crc}
use openipc_defib.Line.{
  Read, received, timed_out, expired, failed, Action, write, emit, Stage, Line, Exec, pure, perform,
  lift, continue, ◌>>=◌, ◌>>◌,
}
use openipc_defib.Line.Outcomes.{checked}
use openipc_defib.Standard.Send.{ack_byte}
use openipc_defib.Frames.{inverted}

abbrev pub nak_byte : List ℕ
nak_byte = b'U' ∷ []

abbrev pub max_nak_retries : ℕ
max_nak_retries = 10

-- `while time.monotonic() - start < timeout and retries < 10`, over the retries left. Bytes that
-- are neither ACK nor NAK are skipped.
unfoldable pub ack_loop : List ℕ → ℕ → List Read → List Action → Result Bool × Line
ack_loop frame zero reads log = (ok false, record { reads = reads; log = log })
ack_loop frame (suc left) [] log = (ok false, record { reads = []; log = log })
ack_loop frame (suc left) (expired ∷ reads) log = (ok false, record { reads = reads; log = log })
ack_loop frame (suc left) (timed_out ∷ reads) log = (ok false, record { reads = reads; log = log })
ack_loop frame (suc left) (failed ∷ reads) log =
    (err transport_error, record { reads = reads; log = log })
ack_loop frame (suc left) (received bytes ∷ reads) log = elim (bytes_eq bytes ack_byte) [
  | true ↦ (ok true, record { reads = reads; log = log })
  | false ↦ elim (bytes_eq bytes nak_byte) [
    | true ↦ ack_loop frame left reads (log ++ write frame ∷ [])
    | false ↦ ack_loop frame (suc left) reads log
  ]
]

unfoldable pub send_frame_wait_ack : List ℕ → Exec Bool
send_frame_wait_ack frame s = ack_loop frame max_nak_retries s.reads (s.log ++ write frame ∷ [])

-- The frames, as the source puts them together.
unfoldable pub head_frame : ℕ → ℕ → Result (List ℕ)
head_frame total address = elim (pack_be 4 total) [
  | err e ↦ err e
  | ok len ↦ elim (pack_be 4 address) [
    | err e ↦ err e
    | ok addr ↦ ok (append_crc ((0xfe ∷ 0x00 ∷ 0xff ∷ 0x01 ∷ []) ++ (len ++ addr)))
  ]
]

unfoldable pub data_frame : ℕ → List ℕ → List ℕ
data_frame idx chunk = append_crc (0xda ∷ u8 idx ∷ inverted idx ∷ chunk)

unfoldable pub tail_frame : ℕ → List ℕ
tail_frame count = append_crc (0xed ∷ u8 count ∷ inverted count ∷ [])

-- `while remaining > 0`; each round takes a byte at least, so the length of the data is fuel
-- enough.
unfoldable pub send_rounds : ℕ → Stage → List ℕ → ℕ → ℕ → ℕ → Exec Bool
send_rounds zero stage bytes idx pos remaining s =
    (if ltb 0 remaining then err out_of_fuel else ok true, s)
send_rounds (suc fuel) stage bytes idx pos remaining s =
    let chunk_size = min 1024 remaining in
    let (r, s') =
      send_frame_wait_ack (data_frame (idx + 1) (slice pos chunk_size bytes))
        (record s { log = s.log ++ emit stage (pos + chunk_size) (length bytes) ∷ [] }) in
    let rest =
      continue r
        (λ acked s''. elim acked [
          | false ↦ (ok false, s'')
          | true ↦
              send_rounds fuel stage bytes (idx + 1) (pos + chunk_size) (remaining - chunk_size) s''
        ])
        s' in
    if ltb 0 remaining then rest else (ok true, s)

-- The number of the TAIL frame.
abbrev pub tail_count : ℕ → ℕ
tail_count total = (total + 1023) / 1024 + 1

-- After the HEAD frame was acknowledged.
unfoldable pub send_body : List ℕ → Stage → Exec Bool
send_body bytes stage =
    let total = length bytes in
    checked (send_rounds total stage bytes 0 0 total) (
      checked (send_frame_wait_ack (tail_frame (tail_count total)))
        (do perform (emit stage total total); pure true))

unfoldable pub send_data_to_bootrom : List ℕ → ℕ → Stage → Exec Bool
send_data_to_bootrom bytes address stage = do
  head ← lift (head_frame (length bytes) address)
  checked (send_frame_wait_ack head) (send_body bytes stage)
