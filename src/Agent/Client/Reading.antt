-- ===== src/Agent/Client/Reading.antt =====
-- What the loop of `read_memory` makes of a stream of packets.
use openipc_defib.Prelude.{
  ℕ, zero, suc, ◌+◌, ◌^◌, ◌<◌, ◌≡◌, ◌≢◌, refl, ap, ◌∙◌, arith, List, [], ◌∷◌, ◌++◌, append_assoc,
  append-nil, length, length-append, take, drop, take-append, drop-append, All, true, false, ltb,
  ◌==◌,
}
use openipc_defib.Prelude.Bits.{u16}
use openipc_defib.Prelude.Result.{Result, ok, err, runtime_error}
use openipc_defib.Struct.{le_bytes, le_value, length-le_bytes, le_value-le_bytes}
use openipc_defib.Slices.{join}
use openipc_defib.Agent.Packet.{Packet, rsp_ready}
use openipc_defib.Agent.Packet.RoundTrip.{packet_body}
use openipc_defib.Agent.Receive.{recv_packet}
use openipc_defib.Agent.Receive.Stream.{bytes_in, InTime, recv_packet-Delivers}
use openipc_defib.Agent.Receive.InOrder.{IsPacket, wire, consume-wire}
use openipc_defib.Agent.Receive.Response.{length-wire}
use openipc_defib.Agent.Client.{Session, rsp_data, packet_in}
use openipc_defib.Agent.Client.Transfer.{more, ready, finish, read_step, read_loop, read_answer}

-- The packet of a chunk.
abbrev pub data_packet_of : ℕ → List ℕ → Packet
data_packet_of seq chunk = (rsp_data, le_bytes 2 seq ++ chunk)

-- `ps` carry `chunks` under the numbers from `seq` on, which wrap at 16 bits, with READY packets
-- among them.
pub data Carries : ℕ → List (List ℕ) → List Packet → Type 0 where
  nothing : {seq : ℕ} → Carries seq [] []
  among :
      {seq : ℕ} {chunks : List (List ℕ)} {ps : List Packet} (payload : List ℕ)
      → Carries seq chunks ps
      → Carries seq chunks ((rsp_ready, payload) ∷ ps)
  next :
      {seq : ℕ} {chunks : List (List ℕ)} {ps : List Packet} (chunk : List ℕ)
      → seq < 2 ^ 16
      → 0 < length chunk
      → Carries (u16 (seq + 1)) chunks ps
      → Carries seq (chunk ∷ chunks) (data_packet_of seq chunk ∷ ps)

-- What a call returned or raised, and what it left of the stream.
pub record Ends (value : Result (List ℕ)) (rest : List ℕ) (r : Result (List ℕ) × Session)
    : Type 0 where
  pub result : r.0 ≡ value
  pub left : r.1.leftover ++ bytes_in r.1.events ≡ rest

step_next :
    (size : ℕ) (received : List ℕ) (seq : ℕ) (chunk : List ℕ)
    → seq < 2 ^ 16
    → 0 < length chunk
    → read_step size received seq (data_packet_of seq chunk)
      ≡ more (received ++ chunk) (u16 (seq + 1))
unfolding read_step
step_next size received seq chunk small pos =
    let two = length-le_bytes 2 seq in
    let long : ltb 2 (length (le_bytes 2 seq ++ chunk)) ≡ true =
      ground (arith, length-append (le_bytes 2 seq) chunk) in
    let number : le_value (take 2 (le_bytes 2 seq ++ chunk)) ≡ seq =
      ap le_value (take-append 2 (le_bytes 2 seq) chunk two) ∙ le_value-le_bytes 2 seq small in
    let payload : drop 2 (le_bytes 2 seq ++ chunk) ≡ chunk =
      drop-append 2 (le_bytes 2 seq) chunk two in
    let same : (seq == seq) ≡ true = ground arith in rw (long, number, same, payload) refl

pub step_gap :
    (size : ℕ) (received : List ℕ) (expected number : ℕ) (chunk : List ℕ)
    → number < 2 ^ 16
    → number ≢ expected
    → 0 < length chunk
    → read_step size received expected (data_packet_of number chunk) ≡ finish (err runtime_error)
unfolding read_step
step_gap size received expected number chunk small ne pos =
    let two = length-le_bytes 2 number in
    let long : ltb 2 (length (le_bytes 2 number ++ chunk)) ≡ true =
      ground (arith, length-append (le_bytes 2 number) chunk) in
    let value : le_value (take 2 (le_bytes 2 number ++ chunk)) ≡ number =
      ap le_value (take-append 2 (le_bytes 2 number) chunk two)
      ∙ le_value-le_bytes 2 number small in
    let other : (number == expected) ≡ false = ground arith in rw (long, value, other) refl

module _ (fuel size : ℕ) (received : List ℕ) (seq : ℕ) (s : Session) (p : Packet) where
  abbrev got_by : Session
  got_by = (packet_in s).1

  module _ (h : (recv_packet s.leftover s.events).result ≡ ok p) where
    loop_more :
        (received' : List ℕ) (seq' : ℕ)
        → read_step size received seq p ≡ more received' seq'
        → read_loop (suc fuel) size received seq s
          ≡ read_loop fuel size received' seq'
              (record got_by { reports = got_by.reports ++ (length received', size) ∷ [] })
    unfolding read_loop packet_in
    loop_more received' seq' e = rw (h, e, read_loop, packet_in) refl

    loop_ready :
        read_step size received seq p ≡ ready
        → read_loop (suc fuel) size received seq s ≡ read_loop fuel size received seq got_by
    unfolding read_loop packet_in
    loop_ready e = rw (h, e, read_loop, packet_in) refl

    loop_finish :
        (value : Result (List ℕ))
        → read_step size received seq p ≡ finish value
        → read_loop (suc fuel) size received seq s ≡ (value, got_by)
    unfolding read_loop packet_in
    loop_finish value e = rw (h, e, read_loop, packet_in) refl

-- The number behind the chunks.
abbrev pub number_after : ℕ → List (List ℕ) → ℕ
number_after seq [] = seq
number_after seq (chunk ∷ chunks) = number_after (u16 (seq + 1)) chunks

-- The stream of the session `s` starts with packet `p`, and `behind` follows it.
record Starts (p : Packet) (behind : List ℕ) (s : Session) : Type 0 where
  result : (recv_packet s.leftover s.events).result ≡ ok p
  follows : (packet_in s).1.leftover ++ bytes_in (packet_in s).1.events ≡ behind
  in_time : InTime (packet_in s).1.events

starts :
    (p : Packet) (behind : List ℕ) (s : Session)
    → IsPacket p
    → InTime s.events
    → s.leftover ++ bytes_in s.events ≡ packet_body p.0 p.1 ++ (0 ∷ behind)
    → Starts p behind s
unfolding packet_in
starts p behind s valid t stream =
    let d =
      recv_packet-Delivers s.leftover behind s.events p t
        (rw stream (consume-wire p.0 p.1 behind valid)) in
    record { result = d.result; follows = d.rest_eq; in_time = d.in_time }

module _ (size : ℕ) (final : Packet) (value : Result (List ℕ)) (rest : List ℕ)
    (fits : IsPacket final) where
  read_loop-Ends :
      (seq : ℕ) (chunks : List (List ℕ)) (ps : List Packet) (fuel : ℕ) (received : List ℕ)
      (s : Session)
      → Carries seq chunks ps
      → All IsPacket ps
      → InTime s.events
      → s.leftover ++ bytes_in s.events ≡ wire ps ++ (packet_body final.0 final.1 ++ (0 ∷ rest))
      → read_step size (received ++ join chunks) (number_after seq chunks) final ≡ finish value
      → length ps < fuel
      → Ends value rest (read_loop fuel size received seq s)
  unfolding wire
  read_loop-Ends seq chunks ps zero received s c valid t stream last enough = absurd (omega arith)
  read_loop-Ends seq [] [] (suc fuel) received s nothing valid t stream last enough =
      let d = starts final rest s fits t stream in
      rw (loop_finish fuel size received seq s final d.result value (rw append-nil at last))
        (record { result = refl; left = d.follows })
  read_loop-Ends seq chunks (p ∷ ps) (suc fuel) received s (among payload c) valid t stream last
        enough =
      let behind = wire ps ++ (packet_body final.0 final.1 ++ (0 ∷ rest)) in
      let d = starts (rsp_ready, payload) behind s valid.0 t (rw append_assoc at stream) in
      rw
        (loop_ready fuel size received seq s (rsp_ready, payload) d.result
          (unfold read_step in refl))
        (read_loop-Ends seq chunks ps fuel received _ c valid.1 d.in_time d.follows last
          (omega arith))
  read_loop-Ends seq (c₀ ∷ chunks) [] (suc fuel) received s c valid t stream last enough =
      elim c [ ]
  read_loop-Ends seq (c₀ ∷ chunks) (p ∷ ps) (suc fuel) received s (next chunk small pos c) valid t
        stream last enough =
      let behind = wire ps ++ (packet_body final.0 final.1 ++ (0 ∷ rest)) in
      let d = starts (data_packet_of seq chunk) behind s valid.0 t (rw append_assoc at stream) in
      rw
        (loop_more fuel size received seq s (data_packet_of seq chunk) d.result (received ++ chunk)
          (u16 (seq + 1)) (step_next size received seq chunk small pos))
        (read_loop-Ends (u16 (seq + 1)) chunks ps fuel (received ++ chunk) _ c valid.1 d.in_time
          d.follows (rw append_assoc last) (omega arith))

  pub read_answer-Ends :
      (chunks : List (List ℕ)) (ps : List Packet) (s : Session)
      → Carries 0 chunks ps
      → All IsPacket ps
      → InTime s.events
      → s.leftover ++ bytes_in s.events ≡ wire ps ++ (packet_body final.0 final.1 ++ (0 ∷ rest))
      → read_step size (join chunks) (number_after 0 chunks) final ≡ finish value
      → Ends value rest (read_answer size s)
  unfolding read_answer
  read_answer-Ends chunks ps s c valid t stream last =
      read_loop-Ends 0 chunks ps _ [] s c valid t stream last (
        omega (arith, length-wire ps (packet_body final.0 final.1 ++ (0 ∷ rest)), ap length stream))
