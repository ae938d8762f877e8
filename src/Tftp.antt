-- ===== src/Tftp.antt =====
-- src/defib/network/tftp_server.py: the TFTP server that hands a device its firmware. A peer's
-- address is a number. What the server sends and reports is kept in its state.
pub mod Invariant
pub mod Peers
pub mod Serving
pub mod Delivery
pub mod Overflow
mod Tests
use openipc_defib.Prelude.{
  ℕ, zero, suc, ◌+◌, ◌-◌, ◌*◌, min, max, List, [], ◌∷◌, ◌++◌, Bool, true, false, ◌&&◌, ◌||◌, ltb,
  leb, ◌==◌, bytes_eq, if◌then◌else◌, Option, none, some, length, get_or, slice, take, drop, map,
}
use openipc_defib.Prelude.Result.{Result, ok, err, struct_error}
use openipc_defib.Struct.{be_bytes, be_value}
use openipc_defib.Text.{is_ascii, decode_replace, lower, split, basename, int_or_zero, decimal}

abbrev pub default_blocksize : ℕ
default_blocksize = 512

-- `TFTPTransfer`. The table holds one object for each address, and `addr` is its key.
pub record Transfer : Type 0 where
  pub content : List ℕ
  pub blocksize : ℕ
  pub block_num : ℕ
  pub complete : Bool
  pub retries : ℕ

-- `TFTPServerStats`.
pub record Stats : Type 0 where
  pub requests : ℕ
  pub bytes_sent : ℕ
  pub transfers_complete : ℕ
  pub errors : ℕ

-- `TFTPServerProtocol`. `outbox` is what was sent, `progress` what the callback was told.
pub record Server : Type 0 where
  pub files : List (List ℕ × List ℕ)
  pub default_content : Option (List ℕ)
  pub reports : Bool
  pub transfers : List (ℕ × Transfer)
  pub connected : Bool
  pub stats : Stats
  pub done_count : ℕ
  pub done : Bool
  pub outbox : List (ℕ × List ℕ)
  pub progress : List (ℕ × ℕ)

-- A dictionary in the order of insertion.
unfoldable pub find : ℕ → List (ℕ × Transfer) → Option Transfer
find addr [] = none
find addr ((a, t) ∷ rest) = if a == addr then some t else find addr rest

unfoldable pub put : ℕ → Transfer → List (ℕ × Transfer) → List (ℕ × Transfer)
put addr t [] = (addr, t) ∷ []
put addr t ((a, u) ∷ rest) = if a == addr then (a, t) ∷ rest else (a, u) ∷ put addr t rest

unfoldable pub remove : ℕ → List (ℕ × Transfer) → List (ℕ × Transfer)
remove addr [] = []
remove addr ((a, u) ∷ rest) = if a == addr then rest else (a, u) ∷ remove addr rest

-- `_send`.
unfoldable pub send : ℕ → List ℕ → Server → Server
send addr packet s =
    if s.connected then record s { outbox = s.outbox ++ (addr, packet) ∷ [] } else s

-- `_send_error`; the message is ASCII.
unfoldable pub send_error : ℕ → ℕ → List ℕ → Server → Server
send_error addr code message s =
    let st = s.stats in
    send addr (0 ∷ 5 ∷ be_bytes 2 code ++ (message ++ 0 ∷ []))
      (record s { stats = record st { errors = st.errors + 1 } })

-- The bytes of block `n`.
abbrev pub block_of : Transfer → ℕ → List ℕ
block_of t n = slice ((n - 1) * t.blocksize) t.blocksize t.content

abbrev pub data_packet : ℕ → List ℕ → List ℕ
data_packet n block = 0 ∷ 3 ∷ be_bytes 2 n ++ block

-- `_send_data_block` of the transfer `t` at `addr`: the number goes up before `struct.pack` may
-- refuse it.
unfoldable pub send_data_block : ℕ → Transfer → Server → Server × Result (Unit {0})
send_data_block addr t s =
    let n = t.block_num + 1 in
    let block = block_of t n in
    let refused = record s { transfers = put addr (record t { block_num = n }) s.transfers } in
    let t' = record t { block_num = n; complete = t.complete || ltb (length block) t.blocksize } in
    let sent = send addr (data_packet n block) (record s { transfers = put addr t' s.transfers }) in
    if ltb n 65536 then (sent, ok tt) else (refused, err struct_error)

unfoldable pub lookup_file : List ℕ → List (List ℕ × List ℕ) → Option (List ℕ)
lookup_file name [] = none
lookup_file name ((key, content) ∷ rest) =
    if bytes_eq key name then some content else lookup_file name rest

unfoldable pub lookup_caseless : List ℕ → List ℕ → List (List ℕ × List ℕ) → Option (List ℕ)
lookup_caseless name base [] = none
lookup_caseless name base ((key, content) ∷ rest) =
    if bytes_eq (lower key) (lower name) || bytes_eq (lower key) (lower base)
    then some content
    else lookup_caseless name base rest

abbrev pub or_else : Option (List ℕ) → Option (List ℕ) → Option (List ℕ)
or_else (some x) y = some x
or_else none y = y

-- `_resolve_file`.
unfoldable pub resolve_file : List ℕ → Server → Option (List ℕ)
resolve_file name s = or_else (lookup_file name s.files) (
    or_else (lookup_file (basename name) s.files)
      (or_else (lookup_caseless name (basename name) s.files) s.default_content))

-- The options behind name and mode, the last one first; names are in lower case.
unfoldable pub parse_options : List (List ℕ × List ℕ) → List (List ℕ) → List (List ℕ × List ℕ)
parse_options found [] = found
parse_options found (name ∷ []) = found
parse_options found (name ∷ value ∷ rest) =
    parse_options ((lower (decode_replace name), decode_replace value) ∷ found) rest

abbrev pub blksize_name : List ℕ
blksize_name = b'b' ∷ b'l' ∷ b'k' ∷ b's' ∷ b'i' ∷ b'z' ∷ b'e' ∷ []

-- `while i < len(parts) - 1` from 2 on takes the pairs that are whole.
abbrev pub options_of : List (List ℕ) → List (List ℕ × List ℕ)
options_of (name ∷ mode ∷ rest) = parse_options [] rest
options_of (name ∷ []) = []
options_of [] = []

abbrev pub clamp_blocksize : Option ℕ → ℕ
clamp_blocksize none = default_blocksize
clamp_blocksize (some requested) = max 8 (min requested 65464)

unfoldable pub negotiated : List (List ℕ × List ℕ) → ℕ
negotiated options = elim (lookup_file blksize_name options) [
  | none ↦ default_blocksize
  | some value ↦ clamp_blocksize (int_or_zero value)
]

abbrev pub no_options : List (List ℕ × List ℕ) → Bool
no_options [] = true
no_options (o ∷ os) = false

-- The first two parts decode as ASCII.
abbrev pub well_formed : List (List ℕ) → Bool
well_formed [] = false
well_formed (name ∷ []) = is_ascii name
well_formed (name ∷ mode ∷ rest) = is_ascii name && is_ascii mode

abbrev pub first_part : List (List ℕ) → List ℕ
first_part [] = []
first_part (name ∷ rest) = name

abbrev pub oack_packet : ℕ → List ℕ
oack_packet blocksize = 0 ∷ 6 ∷ blksize_name ++ (0 ∷ decimal blocksize ++ 0 ∷ [])

-- A request that names a file: a new transfer in the place of the peer's last.
unfoldable pub start_transfer :
    ℕ → List ℕ → List (List ℕ × List ℕ) → Server → Server × Result (Unit {0})
start_transfer addr content options s =
    let blocksize = negotiated options in
    let t : Transfer = record {
      content = content;
      blocksize = blocksize;
      block_num = 0;
      complete = false;
      retries = 0;
    } in
    let s' = record s { transfers = put addr t s.transfers } in
    if no_options options || blocksize == default_blocksize
    then send_data_block addr t s'
    else (send addr (oack_packet blocksize) s', ok tt)

abbrev pub malformed : List ℕ
malformed =
    b'M' ∷ b'a' ∷ b'l' ∷ b'f' ∷ b'o' ∷ b'r' ∷ b'm' ∷ b'e' ∷ b'd' ∷ b' ' ∷ b'R' ∷ b'R' ∷ b'Q' ∷ []

abbrev pub not_found : List ℕ
not_found =
    b'F' ∷ b'i' ∷ b'l' ∷ b'e' ∷ b' ' ∷ b'n' ∷ b'o' ∷ b't' ∷ b' ' ∷ b'f' ∷ b'o' ∷ b'u' ∷ b'n' ∷ b'd'
    ∷ b':' ∷ b' ' ∷ []

-- `_handle_rrq`, with the datagram's bytes behind the opcode.
unfoldable pub handle_rrq : List ℕ → ℕ → Server → Server × Result (Unit {0})
handle_rrq body addr s =
    let st = s.stats in
    let s' = record s { stats = record st { requests = st.requests + 1 } } in
    let parts = split 0 body in
    if well_formed parts
    then (elim (resolve_file (first_part parts) s') [
      | none ↦ (send_error addr 1 (not_found ++ first_part parts) s', ok tt)
      | some content ↦ start_transfer addr content (options_of parts) s'
    ])
    else (send_error addr 0 malformed s', ok tt)

-- An ACK of the last block: the end of the transfer, or the next block.
unfoldable pub acknowledged : ℕ → Transfer → Server → Server × Result (Unit {0})
acknowledged addr t s =
    let st = s.stats in
    let t' = record t { retries = 0 } in
    let sent = min (t.block_num * t.blocksize) (length t.content) in
    let reported = if s.reports then s.progress ++ (sent, length t.content) ∷ [] else s.progress in
    let finished = st.transfers_complete + 1 in
    let after = record s {
      progress = reported;
      transfers = remove addr s.transfers;
      stats = record st {
        transfers_complete = finished;
        bytes_sent = st.bytes_sent + length t.content;
      };
      done = s.done || leb s.done_count finished;
    } in
    if t.complete
    then (after, ok tt)
    else send_data_block addr t'
        (record s { progress = reported; transfers = put addr t' s.transfers })

-- `_handle_ack`, past the test of its length.
unfoldable pub handle_ack : ℕ → ℕ → Server → Server × Result (Unit {0})
handle_ack block_num addr s = elim (find addr s.transfers) [
  | none ↦ (s, ok tt)
  | some t ↦
      if block_num == 0 && t.block_num == 0
      then send_data_block addr t s
      else if block_num == t.block_num
      then acknowledged addr t s
      else (s, ok tt)
]

-- `_handle_error`.
unfoldable pub handle_error : ℕ → Server → Server
handle_error addr s =
    let st = s.stats in
    record s { stats = record st { errors = st.errors + 1 }; transfers = remove addr s.transfers }

abbrev pub unsupported : List ℕ
unsupported =
    b'U' ∷ b'n' ∷ b's' ∷ b'u' ∷ b'p' ∷ b'p' ∷ b'o' ∷ b'r' ∷ b't' ∷ b'e' ∷ b'd' ∷ b' ' ∷ b'o' ∷ b'p'
    ∷ b'e' ∷ b'r' ∷ b'a' ∷ b't' ∷ b'i' ∷ b'o' ∷ b'n' ∷ []

-- By the opcode, with the datagram's bytes behind it.
unfoldable pub dispatch : ℕ → List ℕ → ℕ → Server → Server × Result (Unit {0})
dispatch opcode body addr s =
    if opcode == 1
    then handle_rrq body addr s
    else if opcode == 4
    then (if ltb (length body) 2 then (s, ok tt) else handle_ack (be_value (take 2 body)) addr s)
    else if opcode == 5
    then (handle_error addr s, ok tt)
    else (send_error addr 4 unsupported s, ok tt)

-- `datagram_received`.
unfoldable pub datagram_received : List ℕ → ℕ → Server → Server × Result (Unit {0})
datagram_received bytes addr s =
    if ltb (length bytes) 2
    then (s, ok tt)
    else dispatch (be_value (take 2 bytes)) (drop 2 bytes) addr s

-- An exception in a callback does not stop the event loop.
unfoldable pub serve : List (ℕ × List ℕ) → Server → Server
serve [] s = s
serve ((addr, bytes) ∷ rest) s = serve rest (datagram_received bytes addr s).0
