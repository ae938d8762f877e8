-- ===== src/Agent/Receive.antt =====
-- src/defib/agent/protocol.py: `recv_packet`, `recv_response` and `wait_for_ready` over an
-- asynchronous transport. A read either brings bytes or times out; the clock is an event too, so a
-- list of events is one course that the transport and the clock can take.
pub mod Stream
pub mod InOrder
pub mod Response
use openipc_defib.Prelude.{
  ℕ, ◌+◌, List, [], ◌∷◌, ◌++◌, Bool, true, false, Option, none, some, length, ltb, ◌==◌,
  if◌then◌else◌,
}
use openipc_defib.Prelude.Result.{Result, ok, err, transport_timeout}
use openipc_defib.Agent.Packet.{Packet, parse_packet, rsp_ready, max_packet_size}

-- What one round of the receive loop meets: the bytes of a read, a read that timed out, or the
-- deadline.
pub data Event : Type 0 where
  chunk : List ℕ → Event
  silence : Event
  deadline : Event

-- `if frame`.
abbrev pub is_empty : List ℕ → Bool
is_empty [] = true
is_empty (b ∷ bs) = false

-- `except ValueError: pass`, the one exception that `parse_packet` raises.
abbrev pub parsed : Result Packet → Option Packet
parsed (ok p) = some p
parsed (err e) = none

-- The packet that byte `b` completes, and the frame buffer after it.
unfoldable pub packet_at : List ℕ → ℕ → Option Packet
packet_at frame b =
    if b == 0 then (if is_empty frame then none else parsed (parse_packet frame)) else none

unfoldable pub next_frame : List ℕ → ℕ → List ℕ
next_frame frame b =
    if b == 0
    then []
    else if ltb max_packet_size (length (frame ++ b ∷ []))
    then []
    else frame ++ b ∷ []

-- `_consume`: the first packet that completes, with the bytes after its delimiter; or the frame
-- buffer at the end of the bytes.
pub data Consumed : Type 0 where
  got : Packet → List ℕ → Consumed
  pending : List ℕ → Consumed

unfoldable pub consume : List ℕ → List ℕ → Consumed
consume frame [] = pending frame
consume frame (b ∷ bs) = elim (packet_at frame b) [
  | some p ↦ got p bs
  | none ↦ consume (next_frame frame b) bs
]

-- What a call of `recv_packet` leaves behind: its result, the leftover buffer, the later events.
pub record Received : Type 0 where
  pub result : Result Packet
  pub leftover : List ℕ
  pub events : List Event

-- The loop `while time.monotonic() < deadline`; the leftover buffer is empty in it.
unfoldable pub receive_loop : List ℕ → List Event → Received
receive_loop frame [] = record { result = err transport_timeout; leftover = []; events = [] }
receive_loop frame (deadline ∷ events) = record {
  result = err transport_timeout;
  leftover = [];
  events = events;
}
receive_loop frame (silence ∷ events) = receive_loop frame events
receive_loop frame (chunk bytes ∷ events) = elim (consume frame bytes) [
  | got p rest ↦ record { result = ok p; leftover = rest; events = events }
  | pending frame' ↦ receive_loop frame' events
]

-- The leftover buffer is drained first.
unfoldable pub recv_packet : List ℕ → List Event → Received
recv_packet leftover events = elim (consume [] leftover) [
  | got p rest ↦ record { result = ok p; leftover = rest; events = events }
  | pending frame ↦ receive_loop frame events
]
