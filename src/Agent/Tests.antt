-- ===== src/Agent/Tests.antt =====
-- The agent protocol's theorems at concrete packets and reads.
use openipc_defib.Prelude.{
  ℕ, ◌≤◌, ◌≡◌, refl, sym, ◌∙◌, arith, List, [], ◌∷◌, ◌++◌, append-nil, take, drop, take-append-drop,
  none, ◌<◌, ◌⊎◌,
}
use openipc_defib.Prelude.Result.{ok, err, value_error}
use openipc_defib.Cobs.{decode, decode_loop, copy}
use openipc_defib.Agent.Packet.{Packet, parse_packet, build_packet}
use openipc_defib.Agent.Packet.RoundTrip.{packet_body, build_packet-parses, Carries}
use openipc_defib.Agent.Receive.{
  Event, chunk, silence, parsed, packet_at, next_frame, pending, consume, recv_packet,
}
use openipc_defib.Agent.Receive.Stream.{bytes_in, Delivers}
use openipc_defib.Agent.Receive.Response.{recv_response, recv_response-Delivers}
use openipc_defib.Agent.Receive.InOrder.{
  IsPacket, wire, recv_many, recv_many-wire, recv_packet_resync,
}

abbrev first_packet : Packet
first_packet = (0x81, 0x10 ∷ 0x00 ∷ [])

abbrev second_packet : Packet
second_packet = (0x82, [])

first_packet-IsPacket : IsPacket first_packet
first_packet-IsPacket = record {
  cmd_byte = omega arith;
  payload_bytes = omega arith;
  short = omega arith;
}

second_packet-IsPacket : IsPacket second_packet
second_packet-IsPacket = record { cmd_byte = omega arith; payload_bytes = tt; short = omega arith }

abbrev packets : List Packet
packets = first_packet ∷ second_packet ∷ []

-- The stream in two reads, the first of three bytes, with a pause between them.
abbrev two_reads : List ℕ → List Event
two_reads stream = chunk (take 3 stream) ∷ silence ∷ chunk (drop 3 stream) ∷ []

two_reads-bytes : (stream : List ℕ) → bytes_in (two_reads stream) ≡ stream
unfolding bytes_in
two_reads-bytes stream = rw (append-nil, take-append-drop) refl

recv_many-wire_example :
    recv_many 2 [] (two_reads (wire packets)) ≡ ok first_packet ∷ ok second_packet ∷ []
recv_many-wire_example =
    recv_many-wire packets [] [] (two_reads (wire packets))
      (first_packet-IsPacket, (second_packet-IsPacket, tt)) tt
      (two_reads-bytes (wire packets) ∙ sym (append-nil (wire packets)))

abbrev noise : List ℕ
noise = 0x05 ∷ 0x11 ∷ []

noise_pending : consume [] noise ≡ pending noise
unfolding consume packet_at next_frame
noise_pending = refl

noise_refused : parsed (parse_packet noise) ≡ none
unfolding parse_packet decode decode_loop copy
noise_refused = refl

noise_error : parse_packet noise ≡ err value_error
unfolding parse_packet decode decode_loop copy
noise_error = refl

abbrev noisy : List ℕ
noisy = noise ++ (0 ∷ (packet_body 0x82 [] ++ (0 ∷ [])))

recv_packet_resync_example : Delivers (recv_packet noisy []) (0x82, []) []
unfolding bytes_in
recv_packet_resync_example =
    recv_packet_resync noise noise 0x82 [] noisy [] [] noise_pending noise_refused
      second_packet-IsPacket tt (append-nil noisy)

build_packet-parses_example :
    ((packet : List ℕ) × (build_packet 0x81 (0x10 ∷ []) ≡ ok packet)
      × (0x81 < 256)
      × Carries 0x81 (0x10 ∷ []) packet)
    ⊎ ((build_packet 0x81 (0x10 ∷ []) ≡ err value_error) × (256 ≤ 0x81))
build_packet-parses_example = build_packet-parses 0x81 (0x10 ∷ []) (omega arith)

abbrev stale_packet : Packet
stale_packet = (0x85, [])

stale_packet-IsPacket : IsPacket stale_packet
stale_packet-IsPacket = record { cmd_byte = omega arith; payload_bytes = tt; short = omega arith }

-- A READY packet, and an answer behind it.
abbrev answered : List ℕ
answered = wire (stale_packet ∷ []) ++ (packet_body 0x81 (0x10 ∷ 0x00 ∷ []) ++ (0 ∷ []))

recv_response-Delivers_example : Delivers (recv_response [] (two_reads answered)) first_packet []
recv_response-Delivers_example =
    recv_response-Delivers (stale_packet ∷ []) first_packet [] [] (two_reads answered)
      (stale_packet-IsPacket, tt) (refl, tt) first_packet-IsPacket (omega arith) tt
      (two_reads-bytes answered)
