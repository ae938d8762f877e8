-- ===== src/Tftp/Tests.antt =====
-- A server with one file, and a peer that asks for it in blocks of 8 bytes.
use openipc_defib.Prelude.{
  ℕ, ◌≡◌, refl, arith, List, [], ◌∷◌, ◌++◌, take, replicate, bytes_eq, inl, true, false, none, some,
}
use openipc_defib.Struct.{be_bytes, be_value_from}
use openipc_defib.Text.{
  split, split_from, is_ascii, all_space, decimal_from, int_digits, int_magnitude, rstrip, lstrip,
}
use openipc_defib.Tftp.{
  unsupported, well_formed, first_part, options_of, Transfer, Stats, Server, find, put, remove,
  send, send_error, send_data_block, lookup_file, lookup_caseless, resolve_file, parse_options,
  negotiated, start_transfer, handle_rrq, acknowledged, handle_ack, handle_error, dispatch,
  datagram_received, serve,
}
use openipc_defib.Tftp.Invariant.{IsServer, serve-IsServer}
use openipc_defib.Tftp.Peers.{sent_to, Untouched, datagram_received-Untouched}
use openipc_defib.Tftp.Serving.{ack, Delivered}
use openipc_defib.Tftp.Delivery.{request, replies, greeting, last_block, serve-Delivered, from}
use openipc_defib.Tftp.Overflow.{Stops, ack-IsStalled}

abbrev content : List ℕ
content = 1 ∷ 2 ∷ 3 ∷ 4 ∷ 5 ∷ 6 ∷ 7 ∷ 8 ∷ 9 ∷ 10 ∷ []

abbrev no_stats : Stats
no_stats = record { requests = 0; bytes_sent = 0; transfers_complete = 0; errors = 0 }

abbrev fresh : Server
fresh = record {
  files = (b'f' ∷ b'w' ∷ [], content) ∷ [];
  default_content = none;
  reports = false;
  transfers = [];
  connected = true;
  stats = no_stats;
  done_count = 1;
  done = false;
  outbox = [];
  progress = [];
}

abbrev asked : List ℕ
asked =
    b'f' ∷ b'w' ∷ 0 ∷ b'o' ∷ b'c' ∷ b't' ∷ b'e' ∷ b't' ∷ 0 ∷ b'b' ∷ b'l' ∷ b'k' ∷ b's' ∷ b'i' ∷ b'z'
    ∷ b'e' ∷ 0 ∷ b'8' ∷ 0 ∷ []

abbrev rest : List (ℕ × List ℕ)
rest = (1, ack 0) ∷ (2, request asked) ∷ (1, ack 1) ∷ (2, 0 ∷ 9 ∷ []) ∷ (1, ack 2) ∷ []

-- OACK, two blocks to the peer, and two errors to the other.
transfer_ends :
    (serve ((1, request asked) ∷ rest) fresh).outbox
    ≡ (1, 0 ∷ 6 ∷ b'b' ∷ b'l' ∷ b'k' ∷ b's' ∷ b'i' ∷ b'z' ∷ b'e' ∷ 0 ∷ b'8' ∷ 0 ∷ [])
      ∷ (1, 0 ∷ 3 ∷ 0 ∷ 1 ∷ take 8 content)
      ∷ (2, 0 ∷ 6 ∷ b'b' ∷ b'l' ∷ b'k' ∷ b's' ∷ b'i' ∷ b'z' ∷ b'e' ∷ 0 ∷ b'8' ∷ 0 ∷ [])
      ∷ (1, 0 ∷ 3 ∷ 0 ∷ 2 ∷ 9 ∷ 10 ∷ [])
      ∷ (2, 0 ∷ 5 ∷ 0 ∷ 4 ∷ unsupported ++ 0 ∷ [])
      ∷ []
unfolding serve datagram_received dispatch handle_rrq resolve_file lookup_file lookup_caseless
    start_transfer negotiated parse_options send_data_block send send_error handle_ack acknowledged
    handle_error find put remove be_bytes be_value_from split_from is_ascii bytes_eq rstrip lstrip
    all_space int_magnitude int_digits decimal_from
transfer_ends = refl

fresh-IsServer : IsServer fresh
fresh-IsServer = record {
  each = tt;
  done_counted = λ d. absurd (cc);
  waits = λ d. inl (omega arith);
}

serve-IsServer_example : IsServer (serve ((1, request asked) ∷ rest) fresh)
serve-IsServer_example = serve-IsServer ((1, request asked) ∷ rest) fresh fresh-IsServer

asked_well : well_formed (split 0 asked) ≡ true
unfolding split_from is_ascii
asked_well = refl

asked_there : resolve_file (first_part (split 0 asked)) fresh ≡ some content
unfolding split_from resolve_file lookup_file bytes_eq
asked_there = refl

asked_size : negotiated (options_of (split 0 asked)) ≡ 8
unfolding split_from parse_options negotiated lookup_file bytes_eq rstrip lstrip all_space
    int_magnitude int_digits is_ascii
asked_size = refl

rest_replies : from 1 rest ≡ replies (options_of (split 0 asked)) content
unfolding split_from parse_options negotiated lookup_file bytes_eq rstrip lstrip all_space
    int_magnitude int_digits is_ascii from be_bytes
rest_replies = refl

serve-Delivered_example :
    Delivered 1 content
      (sent_to 1 [] ++ greeting (options_of (split 0 asked)))
      (negotiated (options_of (split 0 asked)))
      (last_block content (negotiated (options_of (split 0 asked))))
      fresh
      (serve ((1, request asked) ∷ rest) fresh)
serve-Delivered_example =
    serve-Delivered 1 asked content rest fresh asked_well asked_there refl
      (rw asked_size (omega arith)) rest_replies

datagram_received-Untouched_example :
    Untouched 1 fresh (datagram_received (request asked) 2 fresh).0
datagram_received-Untouched_example =
    datagram_received-Untouched 1 2 (omega arith) (request asked) fresh

-- 512 KiB in blocks of 8 bytes.
unfoldable large : List ℕ
large = replicate 524288 0

abbrev last_numbered : Transfer
last_numbered = record {
  content = large;
  blocksize = 8;
  block_num = 65535;
  complete = false;
  retries = 0;
}

abbrev serving_large : Server
serving_large = record fresh { transfers = (1, last_numbered) ∷ [] }

large_there : find 1 serving_large.transfers ≡ some last_numbered
unfolding find
large_there = refl

ack-IsStalled_example : Stops 1 serving_large (datagram_received (ack 65535) 1 serving_large)
ack-IsStalled_example = ack-IsStalled 1 last_numbered serving_large large_there refl refl
