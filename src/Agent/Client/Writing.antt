-- ===== src/Agent/Client/Writing.antt =====
-- `_write_block` sends the whole block, and returns True if the agent agrees to it and then to its
-- checksum.
use openipc_defib.Prelude.{
  ℕ, zero, suc, ◌+◌, ◌-◌, ◌*◌, ◌^◌, ◌≤◌, ◌<◌, ◌≡◌, refl, ap, ◌∙◌, arith, min, List, [], ◌∷◌, ◌++◌,
  map, append_assoc, append-nil, length, slice, All, Bool, true, false, ltb, inl, inr, Bool-cases,
}
use openipc_defib.Prelude.Bits.{u16, u32}
use openipc_defib.Prelude.Result.{Result, ok}
use openipc_defib.Struct.{pack_le, le_bytes}
use openipc_defib.Crc32.{crc32}
use openipc_defib.Slices.{
  slices, slices_from, join, join-slices, slices-IsBlock, IsBlock, length-slices, block_at,
  next_blocks,
}
use openipc_defib.Agent.Packet.{Packet}
use openipc_defib.Agent.Packet.RoundTrip.{packet_body, build_packet_lem}
use openipc_defib.Agent.Receive.Stream.{bytes_in, InTime}
use openipc_defib.Agent.Receive.InOrder.{IsPacket, wire}
use openipc_defib.Agent.Receive.Response.{recv_response-Delivers}
use openipc_defib.Agent.Client.{
  Session, cmd_write, rsp_data, rsp_ack, ack_ok, send_packet, response_in, ◌>>=◌, ◌>>◌, given,
  unless_refused, accepted,
}
use openipc_defib.Agent.Client.Transfer.{stream_chunks, write_block, pack_region}
use openipc_defib.Agent.Client.Reading.{Carries, nothing, next, data_packet_of}
use openipc_defib.Agent.Client.Memory.{region_packed}

-- The packets of the chunks from number `seq` on.
abbrev chunk_packets : ℕ → List (List ℕ) → List Packet
chunk_packets seq [] = []
chunk_packets seq (chunk ∷ chunks) = data_packet_of seq chunk ∷ chunk_packets (seq + 1) chunks

-- A packet as it is written.
abbrev pub framed : Packet → List ℕ
framed p = packet_body p.0 p.1 ++ 0 ∷ []

chunk_packets-Carries :
    (seq : ℕ) (chunks : List (List ℕ))
    → All (IsBlock 512) chunks
    → seq + length chunks ≤ 65536
    → Carries seq chunks (chunk_packets seq chunks)
chunk_packets-Carries seq [] blocks few = nothing
chunk_packets-Carries seq (c ∷ []) (block, blocks) few = next c (omega arith) block.0 nothing
chunk_packets-Carries seq (c ∷ d ∷ cs) (block, blocks) few =
    let same : u16 (seq + 1) ≡ seq + 1 = omega arith in
    next c (omega arith) block.0
      (rw same (chunk_packets-Carries (seq + 1) (d ∷ cs) blocks (omega arith)))

send_packet-framed :
    (cmd : ℕ) (payload : List ℕ) (s : Session)
    → cmd < 256
    → send_packet cmd payload s ≡ (ok tt, record s { sent = s.sent ++ framed (cmd, payload) ∷ [] })
unfolding send_packet
send_packet-framed cmd payload s byte =
    let t : ltb cmd 256 ≡ true = ground arith in rw (build_packet_lem cmd payload, t) refl

number_packed : (seq : ℕ) → seq < 2 ^ 16 → pack_le 2 seq ≡ ok (le_bytes 2 seq)
unfolding pack_le
number_packed seq h = let t : ltb seq (256 ^ 2) ≡ true = ground arith in rw t refl

stream_chunks-sent :
    (fuel : ℕ) (bytes : List ℕ) (offset seq : ℕ) (s : Session)
    → length bytes ≤ offset + fuel
    → seq + length (slices_from fuel 512 offset bytes) ≤ 65536
    → stream_chunks fuel bytes offset seq s ≡ (
      ok tt,
      record s {
        sent = s.sent ++ map framed (chunk_packets seq (slices_from fuel 512 offset bytes));
      },
    )
unfolding stream_chunks slices_from
stream_chunks-sent zero bytes offset seq s enough few =
    let none_left : ltb offset (length bytes) ≡ false = ground arith in
    rw (none_left, append-nil) refl
stream_chunks-sent (suc fuel) bytes offset seq s enough few =
    elim (Bool-cases (ltb offset (length bytes))) [
      | inr past ↦ rw (past, append-nil) refl
      | inl left ↦
          let chunk = slice offset 512 bytes in
          let frame = framed (data_packet_of seq chunk) in
          let n = min 512 (length bytes - offset) in
          let after = next_blocks fuel 512 offset bytes in
          let count : seq + suc (length (slices_from fuel 512 (offset + 512) bytes)) ≤ 65536 =
            rw left at few in
          let s' : Session = record s { sent = s.sent ++ frame ∷ [] } in
          let rest : List (List ℕ) → List (List ℕ) =
            λ cs. map framed (chunk_packets (seq + 1) cs) in
          rw
            (
              left,
              number_packed seq (omega arith),
              block_at 512 offset bytes,
              send_packet-framed rsp_data (le_bytes 2 seq ++ chunk) s (omega arith),
            )
            (stream_chunks-sent fuel bytes (offset + n) (seq + 1) s' (omega arith)
                (rw after (omega arith))
              ∙ ap (λ (x : List (List ℕ)). (ok tt, record s { sent = x }))
                  (append_assoc s.sent (frame ∷ []) (rest (slices_from fuel 512 (offset + n) bytes))
                    ∙ ap (λ (cs : List (List ℕ)). s.sent ++ frame ∷ rest cs) after))
    ]

stream_all :
    (block : List ℕ) (s : Session)
    → length (slices 512 block) ≤ 65536
    → stream_chunks (length block) block 0 0 s
      ≡ (ok tt, record s { sent = s.sent ++ map framed (chunk_packets 0 (slices 512 block)) })
unfolding slices
stream_all block s few = stream_chunks-sent (length block) block 0 0 s (omega arith) (omega arith)

abbrev agreed : Packet
agreed = (rsp_ack, ack_ok ∷ [])

-- The agent's consent is next in the stream, and `behind` follows it.
record Agrees (behind : List ℕ) (s : Session) : Type 0 where
  answer : (response_in s).0 ≡ ok agreed
  follows : (response_in s).1.leftover ++ bytes_in (response_in s).1.events ≡ behind
  in_time : InTime (response_in s).1.events
  unsent : (response_in s).1.sent ≡ s.sent

agrees :
    (behind : List ℕ) (s : Session)
    → InTime s.events
    → s.leftover ++ bytes_in s.events ≡ packet_body rsp_ack (ack_ok ∷ []) ++ (0 ∷ behind)
    → Agrees behind s
unfolding response_in wire
agrees behind s t stream =
    let valid : IsPacket agreed = record {
      cmd_byte = omega arith;
      payload_bytes = (omega arith, tt);
      short = omega arith;
    } in
    let d =
      recv_response-Delivers [] agreed s.leftover behind s.events tt tt valid (omega arith) t
        stream in
    record { answer = d.result; follows = d.rest_eq; in_time = d.in_time; unsent = refl }

-- What a block under a command has sent and left of the stream.
pub record Written (cmd addr : ℕ) (block rest : List ℕ) (s : Session) (r : Result Bool × Session)
    : Type 0 where
  pub result : r.0 ≡ ok true
  pub packets : List Packet
  pub carries : Carries 0 (slices 512 block) packets
  pub whole : join (slices 512 block) ≡ block
  pub sent :
      r.1.sent
      ≡ s.sent
        ++ framed
            (cmd, (le_bytes 4 addr ++ le_bytes 4 (length block)) ++ le_bytes 4 (u32 (crc32 block)))
          ∷ map framed packets
  pub left : r.1.leftover ++ bytes_in r.1.events ≡ rest

-- The exchange that `_write_block` and `selfupdate` share, up to the command and to how the last
-- answer is read.
pub exchange-Written :
    (cmd : ℕ) (verdict : Packet → Result Bool) (addr : ℕ) (block rest : List ℕ) (s : Session)
    → cmd < 256
    → verdict (rsp_ack, ack_ok ∷ []) ≡ ok true
    → addr < 2 ^ 32
    → length block ≤ 512 * 65536
    → InTime s.events
    → s.leftover ++ bytes_in s.events
      ≡ packet_body rsp_ack (ack_ok ∷ []) ++ (0 ∷ (packet_body rsp_ack (ack_ok ∷ []) ++ (0 ∷ rest)))
    → Written cmd addr block rest s (
        (do
          region ← given (pack_region addr (length block))
          send_packet cmd (region ++ le_bytes 4 (u32 (crc32 block)))
          answer ← response_in
          unless_refused answer
              (do stream_chunks (length block) block 0 0; last ← response_in; given (verdict last)))
          s)
exchange-Written cmd verdict addr block rest s byte good low small t stream =
    let count = length-slices 512 block (omega arith) in
    let packets = chunk_packets 0 (slices 512 block) in
    let payload =
      (le_bytes 4 addr ++ le_bytes 4 (length block)) ++ le_bytes 4 (u32 (crc32 block)) in
    let s₁ : Session = record s { sent = s.sent ++ framed (cmd, payload) ∷ [] } in
    let first = agrees (packet_body rsp_ack (ack_ok ∷ []) ++ (0 ∷ rest)) s₁ t stream in
    let s₂ = (response_in s₁).1 in
    let s₃ : Session = record s₂ { sent = s₂.sent ++ map framed packets } in
    let streamed : stream_chunks (length block) block 0 0 s₂ ≡ (ok tt, s₃) =
      stream_all block s₂ (omega arith) in
    let second = agrees rest s₃ first.in_time first.follows in
    rw
      (
        region_packed addr (length block) low (omega arith),
        send_packet-framed cmd payload s (omega arith),
        first.answer,
        streamed,
        second.answer,
        good,
      )
      (record {
        result = refl;
        packets = packets;
        carries =
            chunk_packets-Carries 0 (slices 512 block) (slices-IsBlock 512 block (omega arith))
              (omega arith);
        whole = join-slices 512 block (omega arith);
        sent =
            second.unsent
            ∙ ap (λ (x : List (List ℕ)). x ++ map framed packets) first.unsent
            ∙ append_assoc s.sent (framed (cmd, payload) ∷ []) (map framed packets);
        left = second.follows;
      })

-- A block of at most 32 MiB, and an agent that agrees to the command and then to the checksum,
-- however the reads cut its answers: `_write_block` returns True, it has sent the command with
-- address, length and CRC-32, and then the whole block in numbered packets of at most 512 bytes,
-- and it leaves the rest of the stream.
pub write_block-Written :
    (addr : ℕ) (block rest : List ℕ) (s : Session)
    → addr < 2 ^ 32
    → length block ≤ 512 * 65536
    → InTime s.events
    → s.leftover ++ bytes_in s.events
      ≡ packet_body rsp_ack (ack_ok ∷ []) ++ (0 ∷ (packet_body rsp_ack (ack_ok ∷ []) ++ (0 ∷ rest)))
    → Written cmd_write addr block rest s (write_block addr block s)
unfolding write_block
write_block-Written addr block rest s =
    exchange-Written cmd_write accepted addr block rest s (omega arith) refl
