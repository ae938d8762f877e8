-- ===== src/Agent/Client/Commands.antt =====
-- src/defib/agent/client.py: the commands `selfupdate`, `mark_bad_block`, `reboot`,
-- `_restore_baud` and `get_info` of `FlashAgentClient`.
use openipc_defib.Prelude.{
  ℕ, List, [], ◌∷◌, ◌++◌, length, take, slice, Bool, true, not, ◌||◌, ltb, leb, ◌==◌, if◌then◌else◌,
  Option, none, some,
}
use openipc_defib.Prelude.Bits.{u32}
use openipc_defib.Prelude.Result.{Result, ok, err, index_error}
use openipc_defib.Struct.{le_bytes, le_value, pack_le}
use openipc_defib.Crc32.{crc32}
use openipc_defib.Agent.Packet.{Packet}
use openipc_defib.Agent.Client.{
  Talk, ◌>>=◌, ◌>>◌, given, returning, send_packet, response_in, unless_refused, accepted,
  attempted, set_baud, fallback_baud, cmd_info, rsp_info,
}
use openipc_defib.Agent.Client.Transfer.{pack_region, stream_chunks}

abbrev cmd_reboot : ℕ
cmd_reboot = 0x06

abbrev pub cmd_selfupdate : ℕ
cmd_selfupdate = 0x07

abbrev cmd_mark_bad : ℕ
cmd_mark_bad = 0x0c

-- The answer to the checksum. A refusal is logged with `resp[0]`, so that an answer with no bytes
-- raises whatever its command is.
abbrev pub verdict_of : Packet → Result Bool
verdict_of (cmd, []) = err index_error
verdict_of (cmd, b ∷ bs) = accepted (cmd, b ∷ bs)

-- `selfupdate`: the chunks are streamed as a block's are.
unfoldable pub selfupdate : List ℕ → ℕ → Talk Bool
selfupdate firmware load_addr = do
  region ← given (pack_region load_addr (length firmware))
  send_packet cmd_selfupdate (region ++ le_bytes 4 (u32 (crc32 firmware)))
  answer ← response_in
  unless_refused answer (do
    stream_chunks (length firmware) firmware 0 0
    verdict ← response_in
    given (verdict_of verdict))

unfoldable pub mark_bad_block : ℕ → Talk Bool
mark_bad_block block = do
  payload ← given (pack_le 4 block)
  send_packet cmd_mark_bad payload
  answer ← response_in
  given (accepted answer)

-- `reboot`: the agent may be gone before it answers.
unfoldable pub reboot : Talk Bool
reboot = do send_packet cmd_reboot []; attempted (response_in >>= λ _. returning true)

unfoldable pub restore_baud : Talk Bool
restore_baud s =
    if s.current_baud == fallback_baud
    then (ok true, s)
    else (do
      restored ← set_baud fallback_baud
      λ t. (ok restored, if restored then record t { current_baud = fallback_baud } else t))
        s

-- The dictionary of `get_info`; a key that is not in it is none.
pub record Info : Type 0 where
  pub jedec_id : List ℕ
  pub flash_size : ℕ
  pub ram_base : ℕ
  pub sector_size : ℕ
  pub agent_version : Option ℕ
  pub capabilities : Option ℕ
  pub flash_mem : Option ℕ

-- `struct.unpack("<I", data[i:i + 4])[0]`, of data that is long enough.
abbrev word_at : ℕ → List ℕ → ℕ
word_at i bytes = le_value (slice i 4 bytes)

abbrev word_if : ℕ → ℕ → List ℕ → Option ℕ
word_if needed i bytes = if leb needed (length bytes) then some (word_at i bytes) else none

-- What the client keeps and returns of an answer of at least 16 bytes.
unfoldable pub note_info : List ℕ → Talk (Option Info)
note_info bytes s =
    let window = word_if 28 24 bytes in
    (
      ok (
          some (record {
            jedec_id = take 3 bytes;
            flash_size = word_at 4 bytes;
            ram_base = word_at 8 bytes;
            sector_size = word_at 12 bytes;
            agent_version = word_if 24 16 bytes;
            capabilities = word_if 24 20 bytes;
            flash_mem = window;
          })),
      record s {
        flash_size = word_at 4 bytes;
        ram_base = word_at 8 bytes;
        sector_size = word_at 12 bytes;
        flash_mem = if leb 28 (length bytes) then word_at 24 bytes else s.flash_mem;
      },
    )

-- `get_info`, whose empty dictionary is none.
unfoldable pub get_info : Talk (Option Info)
get_info = do
  send_packet cmd_info []
  answer ← response_in
  if not (answer.0 == rsp_info) || ltb (length answer.1) 16
      then returning none
      else note_info answer.1
