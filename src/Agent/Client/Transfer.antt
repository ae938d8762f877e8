-- ===== src/Agent/Client/Transfer.antt =====
-- src/defib/agent/client.py: `read_memory`, `_write_block`, `erase_flash`, `crc32` and `verify`.
use openipc_defib.Prelude.{
  ℕ, zero, suc, ◌+◌, ◌-◌, ◌*◌, ◌/◌, min, List, [], ◌∷◌, ◌++◌, length, take, drop, slice, Bool, not,
  ◌&&◌, ◌||◌, ltb, leb, ◌==◌, if◌then◌else◌,
}
use openipc_defib.Prelude.Bits.{u16, u32}
use openipc_defib.Prelude.Result.{Result, ok, err, runtime_error, out_of_fuel}
use openipc_defib.Struct.{le_value, le_bytes, pack_le}
use openipc_defib.Crc32.{crc32}
use openipc_defib.Agent.Packet.{Packet, rsp_ready}
use openipc_defib.Agent.Receive.Stream.{bytes_in}
use openipc_defib.Agent.Client.{
  cmd_read, cmd_write, cmd_erase, cmd_crc32, rsp_data, rsp_ack, rsp_crc32, ack_ok, Talk, returning,
  ◌>>=◌, ◌>>◌, given, send_packet, packet_in, response_in, unless_refused, accepted, hurry,
}

-- What one packet is to `read_memory`: more data, under the number that comes next, or the end.
pub data Step : Type 0 where
  more : List ℕ → ℕ → Step
  ready : Step
  finish : Result (List ℕ) → Step

abbrev pub status_of : List ℕ → ℕ
status_of [] = 0
status_of (b ∷ bs) = b

-- `data[0] | (data[1] << 8)` of two bytes is their value.
unfoldable pub read_step : ℕ → List ℕ → ℕ → Packet → Step
read_step size received expected_seq (cmd, bytes) =
    if cmd == rsp_ready
    then ready
    else if cmd == rsp_data && ltb 2 (length bytes)
    then if le_value (take 2 bytes) == expected_seq
      then more (received ++ drop 2 bytes) (u16 (expected_seq + 1))
      else finish (err runtime_error)
    else if cmd == rsp_ack
    then if not (status_of bytes == ack_ok)
      then finish (err runtime_error)
      else if length received == size
      then finish (ok received)
      else finish (err runtime_error)
    else finish (err runtime_error)

-- `while True`; each round takes a packet, so the bytes to come are fuel enough.
unfoldable pub read_loop : ℕ → ℕ → List ℕ → ℕ → Talk (List ℕ)
read_loop zero size received expected_seq s = (err out_of_fuel, s)
read_loop (suc fuel) size received expected_seq s =
    let (r, s') = packet_in s in
    elim r [
      | err e ↦ (err e, s')
      | ok p ↦ elim (read_step size received expected_seq p) [
        | ready ↦ read_loop fuel size received expected_seq s'
        | more received' next ↦
            read_loop fuel size received' next
              (record s' { reports = s'.reports ++ (length received', size) ∷ [] })
        | finish result ↦ (result, s')
      ]
    ]

-- Address and size of a command.
unfoldable pub pack_region : ℕ → ℕ → Result (List ℕ)
pack_region addr size = elim (pack_le 4 addr) [
  | err e ↦ err e
  | ok a ↦ elim (pack_le 4 size) [ err e ↦ err e | ok n ↦ ok (a ++ n) ]
]

-- After the command was sent.
unfoldable pub read_answer : ℕ → Talk (List ℕ)
read_answer size s = read_loop (suc (length (s.leftover ++ bytes_in s.events))) size [] 0 s

unfoldable pub read_memory : ℕ → ℕ → Bool → Talk (List ℕ)
read_memory addr size fast = do
  hurry fast size
  payload ← given (pack_region addr size)
  send_packet cmd_read payload
  read_answer size

abbrev pub write_chunk_size : ℕ
write_chunk_size = 512

-- `while offset < len(data)`, with the length of the data as fuel; the number of a chunk that has
-- no two bytes makes `struct.pack` raise.
unfoldable pub stream_chunks : ℕ → List ℕ → ℕ → ℕ → Talk (Unit {0})
stream_chunks zero bytes offset seq s =
    (if ltb offset (length bytes) then err out_of_fuel else ok tt, s)
stream_chunks (suc fuel) bytes offset seq s =
    let chunk = min write_chunk_size (length bytes - offset) in
    let rest =
      (do
        number ← given (pack_le 2 seq)
        send_packet rsp_data (number ++ slice offset chunk bytes)
        stream_chunks fuel bytes (offset + chunk) (seq + 1))
        s in
    if ltb offset (length bytes) then rest else (ok tt, s)

unfoldable pub write_block : ℕ → List ℕ → Talk Bool
write_block addr bytes = do
  region ← given (pack_region addr (length bytes))
  send_packet cmd_write (region ++ le_bytes 4 (u32 (crc32 bytes)))
  answer ← response_in
  unless_refused answer
      (do stream_chunks (length bytes) bytes 0 0; verdict ← response_in; given (accepted verdict))

-- `for _ in range(num_sectors)`: a progress packet, or any other, each round.
unfoldable pub erase_progress : ℕ → ℕ → ℕ → Talk (Unit {0})
erase_progress zero sector_sz size s = (ok tt, s)
erase_progress (suc left) sector_sz size s =
    let (r, s') = packet_in s in
    elim r [
      | err e ↦ (err e, s')
      | ok (cmd, bytes) ↦
          let told = record s' {
            reports = s'.reports ++ (le_value (take 2 bytes) * sector_sz, size) ∷ [];
          } in
          erase_progress left sector_sz size
            (if cmd == rsp_data && leb 2 (length bytes) then told else s')
    ]

-- `self._sector_size or 0x10000`.
abbrev pub sector_or_default : ℕ → ℕ
sector_or_default n = if n == 0 then 0x10000 else n

unfoldable pub erase_flash : ℕ → ℕ → Talk Bool
erase_flash addr size = do
  payload ← given (pack_region addr size)
  send_packet cmd_erase payload
  answer ← response_in
  unless_refused answer (do
    λ s.
        erase_progress (size / sector_or_default s.sector_size) (sector_or_default s.sector_size)
          size s
    verdict ← response_in
    given (accepted verdict))

-- `crc32` of a region of the device.
abbrev pub crc_of : Packet → Result ℕ
crc_of (cmd, bytes) =
    if cmd == rsp_ack
    then err runtime_error
    else if not (cmd == rsp_crc32) || ltb (length bytes) 4
    then err runtime_error
    else ok (le_value (take 4 bytes))

unfoldable pub device_crc32 : ℕ → ℕ → Talk ℕ
device_crc32 addr size = do
  payload ← given (pack_region addr size)
  send_packet cmd_crc32 payload
  answer ← response_in
  given (crc_of answer)

unfoldable pub verify : ℕ → List ℕ → Talk Bool
verify addr bytes = do
  device_crc ← device_crc32 addr (length bytes)
  returning (u32 (crc32 bytes) == device_crc)
