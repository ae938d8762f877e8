-- ===== src/Agent/Client/Tests.antt =====
-- A region of four bytes in two packets, with a READY packet between them.
use openipc_defib.Prelude.{
  ℕ, ◌≡◌, refl, arith, List, [], ◌∷◌, ◌++◌, append-nil, replicate, All, true, false,
}
use openipc_defib.Prelude.Result.{ok, err, runtime_error, index_error}
use openipc_defib.Struct.{le_bytes, le_value}
use openipc_defib.Agent.Packet.{Packet}
use openipc_defib.Agent.Packet.RoundTrip.{packet_body}
use openipc_defib.Agent.Receive.{chunk}
use openipc_defib.Agent.Receive.Stream.{bytes_in}
use openipc_defib.Agent.Receive.InOrder.{IsPacket, wire}
use openipc_defib.Agent.Client.{Session, cmd_write, rsp_data, rsp_ack, given}
use openipc_defib.Agent.Client.Transfer.{read_memory, write_block}
use openipc_defib.Agent.Client.Commands.{verdict_of, note_info}
use openipc_defib.Agent.Client.Reading.{Carries, nothing, among, next, Ends, data_packet_of}
use openipc_defib.Agent.Client.Writing.{Written, write_block-Written}
use openipc_defib.Agent.Client.Memory.{read_memory-Ends, read_memory-gap, skipped}

abbrev pieces : List (List ℕ)
pieces = (1 ∷ 2 ∷ 3 ∷ []) ∷ (4 ∷ []) ∷ []

abbrev packets : List Packet
packets = (0x82, 0 ∷ 0 ∷ 1 ∷ 2 ∷ 3 ∷ []) ∷ (0x85, []) ∷ (0x82, 1 ∷ 0 ∷ 4 ∷ []) ∷ []

pieces-packets : Carries 0 pieces packets
unfolding le_bytes
pieces-packets =
    next (1 ∷ 2 ∷ 3 ∷ []) (omega arith) (omega arith)
      (among [] (next (4 ∷ []) (omega arith) (omega arith) nothing))

packets_valid : All IsPacket packets
packets_valid = (
  record {
    cmd_byte = omega arith;
    payload_bytes = (omega arith, (omega arith, (omega arith, (omega arith, (omega arith, tt)))));
    short = omega arith;
  },
  (
    record { cmd_byte = omega arith; payload_bytes = tt; short = omega arith },
    (
      record {
        cmd_byte = omega arith;
        payload_bytes = (omega arith, (omega arith, (omega arith, tt)));
        short = omega arith;
      },
      tt,
    ),
  ),
)

abbrev listening : List ℕ → Session
listening stream = record {
  leftover = [];
  events = chunk stream ∷ [];
  sent = [];
  host_baud = 115200;
  has_baud_control = false;
  current_baud = 115200;
  sector_size = 0x10000;
  flash_size = 0;
  ram_base = 0;
  flash_mem = 0x14000000;
  reports = [];
}

abbrev acknowledged_stream : List ℕ
acknowledged_stream = wire packets ++ (packet_body rsp_ack (0 ∷ []) ++ (0 ∷ 7 ∷ []))

in_stream : (stream : List ℕ) → [] ++ bytes_in (chunk stream ∷ []) ≡ stream
unfolding bytes_in
in_stream stream = append-nil stream

read_memory-Ends_example :
    Ends
      (ok (1 ∷ 2 ∷ 3 ∷ 4 ∷ []))
      (7 ∷ [])
      (read_memory 0x41000000 4 true (listening acknowledged_stream))
read_memory-Ends_example =
    read_memory-Ends 0x41000000 4 true pieces packets (7 ∷ []) (listening acknowledged_stream) refl
      (omega arith) (omega arith) refl pieces-packets packets_valid tt
      (in_stream acknowledged_stream)

-- Number 3 comes where 2 is due.
abbrev gap_stream : List ℕ
gap_stream = wire packets ++ (packet_body rsp_data (le_bytes 2 3 ++ 9 ∷ []) ++ (0 ∷ []))

gap-IsPacket : IsPacket (data_packet_of 3 (9 ∷ []))
unfolding le_bytes
gap-IsPacket = record {
  cmd_byte = omega arith;
  payload_bytes = (omega arith, (omega arith, (omega arith, tt)));
  short = omega arith;
}

read_memory-gap_example :
    Ends (err runtime_error) [] (read_memory 0x41000000 6 false (listening gap_stream))
read_memory-gap_example =
    read_memory-gap 0x41000000 6 false pieces packets (data_packet_of 3 (9 ∷ [])) []
      (listening gap_stream) refl (omega arith) (omega arith) pieces-packets packets_valid
      gap-IsPacket (skipped 3 (9 ∷ []) (omega arith) (omega arith) (omega arith)) tt
      (in_stream gap_stream)

abbrev agreeing_stream : List ℕ
agreeing_stream = packet_body rsp_ack (0 ∷ []) ++ (0 ∷ (packet_body rsp_ack (0 ∷ []) ++ (0 ∷ [])))

write_block-Written_example :
    Written cmd_write 0x41000000
      (replicate 600 7)
      []
      (listening agreeing_stream)
      (write_block 0x41000000 (replicate 600 7) (listening agreeing_stream))
write_block-Written_example =
    write_block-Written 0x41000000 (replicate 600 7) [] (listening agreeing_stream) (omega arith)
      (omega arith) tt (in_stream agreeing_stream)

-- An update that is refused without a status byte raises.
bare_refusal : (given (verdict_of (rsp_data, [])) (listening [])).0 ≡ err index_error
bare_refusal = refl

-- An INFO answer of 16 bytes.
abbrev info_bytes : List ℕ
info_bytes = 0xef ∷ 0x40 ∷ 0x18 ∷ 0 ∷ 0 ∷ 0 ∷ 0 ∷ 1 ∷ 0 ∷ 0 ∷ 0 ∷ 0x40 ∷ 0 ∷ 0 ∷ 1 ∷ 0 ∷ []

info_read : (note_info info_bytes (listening [])).1.flash_size ≡ 0x1000000
unfolding note_info le_value
info_read = refl

info_has_no_window : (note_info info_bytes (listening [])).1.flash_mem ≡ 0x14000000
unfolding note_info
info_has_no_window = refl
