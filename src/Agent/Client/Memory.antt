-- ===== src/Agent/Client/Memory.antt =====
-- `read_memory` returns what the agent sent, and raises when a packet of it is missing.
use openipc_defib.Prelude.{
  ℕ, ◌^◌, ◌<◌, ◌≡◌, ◌≢◌, refl, arith, List, [], ◌∷◌, ◌++◌, length, All, Bool, true, false, ◌&&◌,
  ltb, ◌==◌,
}
use openipc_defib.Prelude.Result.{ok, err, runtime_error}
use openipc_defib.Struct.{pack_le, le_bytes}
use openipc_defib.Slices.{join}
use openipc_defib.Agent.Packet.{Packet}
use openipc_defib.Agent.Packet.RoundTrip.{packet_body, build_packet_lem}
use openipc_defib.Agent.Receive.Stream.{bytes_in, InTime}
use openipc_defib.Agent.Receive.InOrder.{IsPacket, wire}
use openipc_defib.Agent.Client.{cmd_read, hurry, send_packet, Session, rsp_ack, ack_ok}
use openipc_defib.Agent.Client.Transfer.{pack_region, read_memory, read_step, read_answer, finish}
use openipc_defib.Agent.Client.Reading.{
  Carries, Ends, data_packet_of, number_after, step_gap, read_answer-Ends,
}

packed : (v : ℕ) → v < 2 ^ 32 → pack_le 4 v ≡ ok (le_bytes 4 v)
unfolding pack_le
packed v h = let t : ltb v (256 ^ 4) ≡ true = ground arith in rw t refl

not_hurried :
    (fast : Bool) (size : ℕ) (s : Session)
    → fast && ltb 4096 size ≡ false
    → hurry fast size s ≡ (ok tt, s)
unfolding hurry
not_hurried fast size s slow = rw slow refl

pub region_packed :
    (addr size : ℕ)
    → addr < 2 ^ 32
    → size < 2 ^ 32
    → pack_region addr size ≡ ok (le_bytes 4 addr ++ le_bytes 4 size)
unfolding pack_region
region_packed addr size low small = rw (packed addr low, packed size small, pack_region) refl

read_asked :
    (region : List ℕ) (s : Session)
    → send_packet cmd_read region s
      ≡ (ok tt, record s { sent = s.sent ++ (packet_body cmd_read region ++ 0 ∷ []) ∷ [] })
unfolding send_packet
read_asked region s = rw (build_packet_lem cmd_read region) refl

-- A request without a change of rate: one packet goes out.
asked :
    (addr size : ℕ) (fast : Bool) (s : Session)
    → fast && ltb 4096 size ≡ false
    → addr < 2 ^ 32
    → size < 2 ^ 32
    → (packet : List ℕ) × (read_memory addr size fast s
        ≡ read_answer size (record s { sent = s.sent ++ packet ∷ [] }))
unfolding read_memory
asked addr size fast s slow low small =
    let region = le_bytes 4 addr ++ le_bytes 4 size in
    (
      packet_body cmd_read region ++ 0 ∷ [],
      rw (not_hurried fast size s slow, region_packed addr size low small, read_asked region s)
          refl,
    )

-- A region for which no change of the baud rate is asked (without `fast`, or of at most 4096 bytes),
-- with address and size below 2 ^ 32: if the stream brings the data in chunks under the numbers from 0 on, with any READY packets among them and behind them the
-- acknowledgement, however the reads cut it, then `read_memory` returns the chunks together, and
-- leaves the rest of the stream.
pub read_memory-Ends :
    (addr size : ℕ) (fast : Bool) (chunks : List (List ℕ)) (ps : List Packet) (rest : List ℕ)
    (s : Session)
    → fast && ltb 4096 size ≡ false
    → addr < 2 ^ 32
    → size < 2 ^ 32
    → length (join chunks) ≡ size
    → Carries 0 chunks ps
    → All IsPacket ps
    → InTime s.events
    → s.leftover ++ bytes_in s.events ≡ wire ps ++ (packet_body rsp_ack (ack_ok ∷ []) ++ (0 ∷ rest))
    → Ends (ok (join chunks)) rest (read_memory addr size fast s)
read_memory-Ends addr size fast chunks ps rest s slow low small whole c valid t stream =
    let (packet, e) = asked addr size fast s slow low small in
    let ack : IsPacket (rsp_ack, ack_ok ∷ []) = record {
      cmd_byte = omega arith;
      payload_bytes = (omega arith, tt);
      short = omega arith;
    } in
    let enough : (length (join chunks) == size) ≡ true = ground arith in
    rw e (
      read_answer-Ends size (rsp_ack, ack_ok ∷ []) (ok (join chunks)) rest ack chunks ps _ c valid t
        stream (unfold read_step in rw enough refl))

-- The packet that comes behind some chunks of a region where one is missing: a data packet whose
-- number is not the next, or, if it was among the last, the acknowledgement.
pub data Incomplete (size : ℕ) (chunks : List (List ℕ)) : Packet → Type 0 where
  skipped :
      (number : ℕ) (chunk : List ℕ)
      → number < 2 ^ 16
      → number ≢ number_after 0 chunks
      → 0 < length chunk
      → Incomplete size chunks (data_packet_of number chunk)
  short : length (join chunks) ≢ size → Incomplete size chunks (rsp_ack, ack_ok ∷ [])

Incomplete-read_step :
    (size : ℕ) (chunks : List (List ℕ)) (p : Packet)
    → Incomplete size chunks p
    → read_step size (join chunks) (number_after 0 chunks) p ≡ finish (err runtime_error)
Incomplete-read_step size chunks p (skipped number chunk small other pos) =
    step_gap size (join chunks) (number_after 0 chunks) number chunk small other pos
Incomplete-read_step size chunks p (short ne) =
    let wrong : (length (join chunks) == size) ≡ false = ground arith in
    unfold read_step in rw wrong refl

-- The same, but some packet of the region is missing: behind some chunks a data packet comes whose
-- number is not the next, or the acknowledgement comes before all bytes were there. Then
-- `read_memory` raises, and returns no data with a part missing.
pub read_memory-gap :
    (addr size : ℕ) (fast : Bool) (chunks : List (List ℕ)) (ps : List Packet) (p : Packet)
    (rest : List ℕ) (s : Session)
    → fast && ltb 4096 size ≡ false
    → addr < 2 ^ 32
    → size < 2 ^ 32
    → Carries 0 chunks ps
    → All IsPacket ps
    → IsPacket p
    → Incomplete size chunks p
    → InTime s.events
    → s.leftover ++ bytes_in s.events ≡ wire ps ++ (packet_body p.0 p.1 ++ (0 ∷ rest))
    → Ends (err runtime_error) rest (read_memory addr size fast s)
read_memory-gap addr size fast chunks ps p rest s slow low small c valid fits gap t stream =
    let (packet, e) = asked addr size fast s slow low small in
    rw e (
      read_answer-Ends size p (err runtime_error) rest fits chunks ps _ c valid t stream
        (Incomplete-read_step size chunks p gap))
