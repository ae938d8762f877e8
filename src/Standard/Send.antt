-- ===== src/Standard/Send.antt =====
-- src/defib/protocol/hisilicon_standard.py: sending one frame until it is acknowledged.
pub mod Retry
use openipc_defib.Prelude.{ℕ, zero, suc, List, [], ◌∷◌, ◌++◌, Bool, true, false, bytes_eq}
use openipc_defib.Prelude.Result.{Result, ok, err, transport_error}
use openipc_defib.Line.{
  Read, received, timed_out, expired, failed, Action, flush_input, flush_output, write, Line, Exec,
  lift, perform, ◌>>=◌, ◌>>◌,
}
use openipc_defib.Frames.{HeadFrame, DataFrame, TailFrame, encode_head, encode_data, encode_tail}

abbrev pub ack_byte : List ℕ
ack_byte = 0xaa ∷ []

abbrev pub frame_send_retries_short : ℕ
frame_send_retries_short = 16

abbrev pub frame_send_retries_long : ℕ
frame_send_retries_long = 32

-- The inner `while True`: bytes other than the acknowledgement are skipped. The `except Exception`
-- round the attempt ends it as a timeout does.
unfoldable pub await_ack : List Read → Bool × List Read
await_ack [] = (false, [])
await_ack (expired ∷ reads) = (false, reads)
await_ack (timed_out ∷ reads) = (false, reads)
await_ack (failed ∷ reads) = (false, reads)
await_ack (received bytes ∷ reads) = elim (bytes_eq bytes ack_byte) [
  | true ↦ (true, reads)
  | false ↦ await_ack reads
]

-- What one attempt does before it waits.
abbrev pub attempt : List ℕ → List Action
attempt frame = flush_input ∷ flush_output ∷ write frame ∷ []

-- `_send_frame_with_retry`, over the attempts left.
unfoldable pub send_frame_with_retry : List ℕ → ℕ → Exec Bool
send_frame_with_retry frame zero s = (ok false, s)
send_frame_with_retry frame (suc retries) s =
    let (acked, reads) = await_ack s.reads in
    let s' : Line = record { reads = reads; log = s.log ++ attempt frame } in
    elim acked [ true ↦ (ok true, s') | false ↦ send_frame_with_retry frame retries s' ]

unfoldable pub send_head : ℕ → ℕ → Exec Bool
send_head length address = do
  frame ← lift (encode_head (record { length = length; address = address }))
  send_frame_with_retry frame frame_send_retries_short

unfoldable pub send_data : ℕ → List ℕ → Exec Bool
send_data seq payload =
    send_frame_with_retry (encode_data (record { seq = seq; payload = payload }))
      frame_send_retries_long

unfoldable pub send_tail : ℕ → Exec Bool
send_tail seq = send_frame_with_retry (encode_tail (record { seq = seq })) frame_send_retries_short
