-- ===== src/Agent/Packet.antt =====
-- src/defib/agent/protocol.py: packets, a command byte and its data under a CRC-32 and COBS.
pub mod RoundTrip
use openipc_defib.Prelude.{
  ℕ, ◌-◌, List, [], ◌∷◌, ◌++◌, not, length, take, drop, get_or, drop_last, ltb, ◌==◌, if◌then◌else◌,
}
use openipc_defib.Prelude.Bits.{u32}
use openipc_defib.Prelude.Result.{Result, ok, value_error, guard, ◌>>=◌, ◌>>◌}
use openipc_defib.Struct.{le_bytes, le_value}
use openipc_defib.Cobs.{encode, decode}
use openipc_defib.Crc32.{crc32}

abbrev pub cmd_flash_stream : ℕ
cmd_flash_stream = 0x0b

abbrev pub rsp_ready : ℕ
rsp_ready = 0x85

abbrev pub frame_delimiter : ℕ
frame_delimiter = 0x00

abbrev pub max_packet_size : ℕ
max_packet_size = 1100

-- `bytes([cmd])` raises a ValueError past 255; the checksum is masked before it is packed.
unfoldable pub build_packet : ℕ → List ℕ → Result (List ℕ)
build_packet cmd payload = do
  guard (ltb cmd 256) value_error
  let raw = cmd ∷ payload
  ok (encode (raw ++ le_bytes 4 (u32 (crc32 raw))) ++ frame_delimiter ∷ [])

-- A packet as the caller sees it: the command byte and the data.
abbrev pub Packet : Type 0
Packet = ℕ × List ℕ

-- `decoded[:-4]`, `decoded[-4:]`; at least five bytes are there.
unfoldable pub parse_packet : List ℕ → Result Packet
parse_packet raw = do
  decoded ← decode raw
  guard (not (ltb (length decoded) 5)) value_error
  let payload = drop_last 4 decoded
  guard (u32 (crc32 payload) == le_value (drop (length decoded - 4) decoded)) value_error
  ok (get_or payload 0 0, drop 1 payload)
