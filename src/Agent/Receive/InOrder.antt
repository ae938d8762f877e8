-- ===== src/Agent/Receive/InOrder.antt =====
-- Packets arrive whole and in order, however the line cuts them into reads, and a damaged frame
-- costs no packet behind the next delimiter.
use openipc_defib.Prelude.{
  ℕ, zero, suc, ◌≤◌, ◌<◌, ◌≡◌, refl, ap₂, arith, List, [], ◌∷◌, ◌++◌, append_assoc,
}
use openipc_defib.Prelude.{none, map, length, All}
use openipc_defib.Prelude.Result.{Result, ok}
use openipc_defib.Prelude.Bits.{IsByte}
use openipc_defib.Cobs.Bounds.{IsStuffed, encode-pos}
use openipc_defib.Agent.Packet.{Packet, parse_packet}
use openipc_defib.Agent.Packet.RoundTrip.{
  packet_body, parse_packet-packet_body, packet_body-IsStuffed, length-packet_body,
}
use openipc_defib.Agent.Receive.{
  Event, parsed, packet_at, next_frame, got, pending, consume, recv_packet,
}
use openipc_defib.Agent.Receive.Stream.{
  consume_packet, consume_next, consume-append, bytes_in, InTime, Delivers, recv_packet-Delivers,
}

-- A packet that the host may send or receive: bytes, and at most 1090 of data.
pub record IsPacket (p : Packet) : Type 0 where
  pub cmd_byte : IsByte p.0
  pub payload_bytes : All IsByte p.1
  pub short : length p.1 ≤ 1090

-- What `build_packet` puts on the wire for each of `ps`.
unfoldable pub wire : List Packet → List ℕ
wire [] = []
wire ((cmd, payload) ∷ ps) = packet_body cmd payload ++ (0 ∷ wire ps)

All-stuffed : (xs : List ℕ) → All IsStuffed xs → All (λ b. 1 ≤ b) xs
All-stuffed [] h = tt
All-stuffed (x ∷ xs) h = (h.0.0, All-stuffed xs h.1)

not_empty : (cmd : ℕ) (payload : List ℕ) → 0 < length (packet_body cmd payload)
unfolding packet_body
not_empty cmd payload = encode-pos _

pub consume-wire :
    (cmd : ℕ) (payload rest : List ℕ)
    → IsPacket (cmd, payload)
    → consume [] (packet_body cmd payload ++ (0 ∷ rest)) ≡ got (cmd, payload) rest
consume-wire cmd payload rest ok_packet =
    consume_packet (packet_body cmd payload) rest (cmd, payload)
      (All-stuffed _ (packet_body-IsStuffed cmd payload ok_packet.cmd_byte ok_packet.payload_bytes))
      (length-packet_body cmd payload ok_packet.short) (not_empty cmd payload)
      (parse_packet-packet_body cmd payload)

-- Calls of `recv_packet` one after the other.
pub recv_many : ℕ → List ℕ → List Event → List (Result Packet)
recv_many zero leftover events = []
recv_many (suc n) leftover events =
    let r = recv_packet leftover events in r.result ∷ recv_many n r.leftover r.events

-- The packets of a stream are received one by one, in order, whatever reads bring the stream.
pub recv_many-wire :
    (ps : List Packet) (leftover rest : List ℕ) (events : List Event)
    → All IsPacket ps
    → InTime events
    → leftover ++ bytes_in events ≡ wire ps ++ rest
    → recv_many (length ps) leftover events ≡ map ok ps
unfolding recv_many wire
recv_many-wire [] leftover rest events valid t h = refl
recv_many-wire ((cmd, payload) ∷ ps) leftover rest events valid t h =
    let stream : leftover ++ bytes_in events ≡ packet_body cmd payload ++ (0 ∷ (wire ps ++ rest)) =
      rw append_assoc at h in
    let d =
      recv_packet-Delivers leftover (wire ps ++ rest) events (cmd, payload) t
        (rw stream (consume-wire cmd payload (wire ps ++ rest) valid.0)) in
    ap₂ ◌∷◌ d.result (recv_many-wire ps _ rest _ valid.1 d.in_time d.rest_eq)

-- A damaged frame ends at its delimiter: the packet behind it is received.
pub recv_packet_resync :
    (noise frame : List ℕ) (cmd : ℕ) (payload leftover rest : List ℕ) (events : List Event)
    → consume [] noise ≡ pending frame
    → parsed (parse_packet frame) ≡ none
    → IsPacket (cmd, payload)
    → InTime events
    → leftover ++ bytes_in events ≡ noise ++ (0 ∷ (packet_body cmd payload ++ (0 ∷ rest)))
    → Delivers (recv_packet leftover events) (cmd, payload) rest
recv_packet_resync noise frame cmd payload leftover rest events lost bad valid t h =
    recv_packet-Delivers leftover rest events (cmd, payload) t
      (rw (h, consume-append, lost)
        (rw (consume_next frame 0 (packet_body cmd payload ++ (0 ∷ rest)) skip, cleared)
          (consume-wire cmd payload rest valid)))
  where
    skip : packet_at frame 0 ≡ none
    skip = unfold packet_at in ground arith

    cleared : next_frame frame 0 ≡ []
    cleared = unfold next_frame in refl
