-- ===== src/Agent/Receive/Response.antt =====
-- src/defib/agent/protocol.py: `recv_response`, which passes over the agent's READY packets.
use openipc_defib.Prelude.{
  ℕ, zero, suc, ◌≤◌, ◌<◌, ◌≡◌, ◌≢◌, refl, ap, arith, List, [], ◌∷◌, ◌++◌, append_assoc, length,
  length-append, All, ◌==◌, if◌then◌else◌, false,
}
use openipc_defib.Prelude.Result.{ok, err, out_of_fuel}
use openipc_defib.Agent.Packet.{Packet, rsp_ready}
use openipc_defib.Agent.Packet.RoundTrip.{packet_body}
use openipc_defib.Agent.Receive.{Event, Received, recv_packet}
use openipc_defib.Agent.Receive.Stream.{bytes_in, InTime, Delivers, recv_packet-Delivers}
use openipc_defib.Agent.Receive.InOrder.{IsPacket, wire, consume-wire}

-- `if cmd != RSP_READY: return cmd, data`, over what one call of `recv_packet` left; `next` is the
-- next round, whose deadline starts afresh.
abbrev pub unless_ready : Received → Received → Received
unless_ready r next = elim r.result [ err e ↦ r | ok p ↦ if p.0 == rsp_ready then next else r ]

-- The loop of `recv_response`.
unfoldable pub response_loop : ℕ → List ℕ → List Event → Received
response_loop zero leftover events = record {
  result = err out_of_fuel;
  leftover = leftover;
  events = events;
}
response_loop (suc fuel) leftover events =
    let r = recv_packet leftover events in unless_ready r (response_loop fuel r.leftover r.events)

-- A packet takes at least one byte, so the bytes that are still to come bound the rounds.
unfoldable pub recv_response : List ℕ → List Event → Received
recv_response leftover events =
    response_loop (suc (length (leftover ++ bytes_in events))) leftover events

abbrev IsReady : Packet → Type 0
IsReady p = p.0 ≡ rsp_ready

module _ (fuel : ℕ) (leftover : List ℕ) (events : List Event) where
  loop_ready :
      (p : Packet)
      → (recv_packet leftover events).result ≡ ok p
      → p.0 ≡ rsp_ready
      → response_loop (suc fuel) leftover events
        ≡ response_loop fuel
            (recv_packet leftover events).leftover
            (recv_packet leftover events).events
  unfolding response_loop
  loop_ready p h ready = rw (h, ready) refl

  loop_answer :
      (p : Packet)
      → (recv_packet leftover events).result ≡ ok p
      → p.0 ≢ rsp_ready
      → response_loop (suc fuel) leftover events ≡ recv_packet leftover events
  unfolding response_loop
  loop_answer p h other = let test : (p.0 == rsp_ready) ≡ false = ground arith in rw (h, test) refl

pub length-wire : (ps : List Packet) (rest : List ℕ) → length ps ≤ length (wire ps ++ rest)
unfolding wire
length-wire [] rest = omega arith
length-wire ((cmd, payload) ∷ ps) rest =
    let tail = length-append (packet_body cmd payload) (0 ∷ wire ps) in
    omega (
      arith,
      length-wire ps rest,
      tail,
      length-append (packet_body cmd payload ++ (0 ∷ wire ps)) rest,
      length-append (wire ps) rest,
    )

response_loop-Delivers :
    (ps : List Packet) (p : Packet) (fuel : ℕ) (leftover rest : List ℕ) (events : List Event)
    → All IsPacket ps
    → All IsReady ps
    → IsPacket p
    → p.0 ≢ rsp_ready
    → InTime events
    → leftover ++ bytes_in events ≡ wire ps ++ (packet_body p.0 p.1 ++ (0 ∷ rest))
    → length ps < fuel
    → Delivers (response_loop fuel leftover events) p rest
unfolding wire
response_loop-Delivers ps p zero leftover rest events valid ready fits other t h enough =
    absurd (omega arith)
response_loop-Delivers [] p (suc fuel) leftover rest events valid ready fits other t h enough =
    let d = recv_packet-Delivers leftover rest events p t (rw h (consume-wire p.0 p.1 rest fits)) in
    rw (loop_answer fuel leftover events p d.result other) d
response_loop-Delivers ((cmd, payload) ∷ ps) p (suc fuel) leftover rest events valid ready fits
      other t h enough =
    let behind = wire ps ++ (packet_body p.0 p.1 ++ (0 ∷ rest)) in
    let stream : leftover ++ bytes_in events ≡ packet_body cmd payload ++ (0 ∷ behind) =
      rw append_assoc at h in
    let d =
      recv_packet-Delivers leftover behind events (cmd, payload) t
        (rw stream (consume-wire cmd payload behind valid.0)) in
    rw (loop_ready fuel leftover events (cmd, payload) d.result ready.0) (
      response_loop-Delivers ps p fuel _ rest _ valid.1 ready.1 fits other d.in_time d.rest_eq
        (omega arith))

-- The answer behind any number of READY packets is returned, whatever reads bring them, and what
-- follows it is kept for the next call.
pub recv_response-Delivers :
    (ps : List Packet) (p : Packet) (leftover rest : List ℕ) (events : List Event)
    → All IsPacket ps
    → All IsReady ps
    → IsPacket p
    → p.0 ≢ rsp_ready
    → InTime events
    → leftover ++ bytes_in events ≡ wire ps ++ (packet_body p.0 p.1 ++ (0 ∷ rest))
    → Delivers (recv_response leftover events) p rest
unfolding recv_response
recv_response-Delivers ps p leftover rest events valid ready fits other t h =
    response_loop-Delivers ps p _ leftover rest events valid ready fits other t h
      (omega (arith, length-wire ps (packet_body p.0 p.1 ++ (0 ∷ rest)), ap length h))
