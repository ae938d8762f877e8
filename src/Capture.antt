-- ===== src/Capture.antt =====
-- src/defib/capture/format.py: the .dcap files that record a serial session.
pub mod RoundTrip
pub mod Tests
use openipc_defib.Prelude.{
  ℕ, zero, suc, ◌+◌, ◌-◌, List, [], ◌∷◌, ◌++◌, length, slice, take, drop, get_or, replicate, Bool,
  true, false, not, ltb, ◌==◌, bytes_eq, if◌then◌else◌, Option, none, some,
}
use openipc_defib.Prelude.Result.{Result, ok, err, guard, value_error, ◌>>=◌, ◌>>◌}
use openipc_defib.Struct.{pack_le, unpack_le}
use openipc_defib.Rockusb.Loader.{rstrip_zeros}

abbrev pub dcap_magic : List ℕ
dcap_magic = 0x44 ∷ 0x43 ∷ 0x41 ∷ 0x50 ∷ []

abbrev pub dcap_version : ℕ
dcap_version = 1

abbrev pub header_size : ℕ
header_size = 48

pub data Direction : Type 0 where
  tx rx : Direction

-- The value of an enum member, and `Direction(code)`.
abbrev pub direction_code : Direction → ℕ
direction_code tx = 0
direction_code rx = 1

unfoldable pub direction_from : ℕ → Result Direction
direction_from code = if code == 0 then ok tx else if code == 1 then ok rx else err value_error

pub record CaptureRecord : Type 0 where
  pub timestamp_us : ℕ
  pub direction : Direction
  pub content : List ℕ

-- The chip's name is its characters.
pub record CaptureFile : Type 0 where
  pub baudrate : ℕ
  pub chip : List ℕ
  pub flags : ℕ
  pub records : List CaptureRecord

abbrev pub add_tx : CaptureFile → ℕ → List ℕ → CaptureFile
add_tx c stamp content = record c {
  records = c.records ++ record { timestamp_us = stamp; direction = tx; content = content } ∷ [];
}

abbrev pub add_rx : CaptureFile → ℕ → List ℕ → CaptureFile
add_rx c stamp content = record c {
  records = c.records ++ record { timestamp_us = stamp; direction = rx; content = content } ∷ [];
}

-- The bytes of the records of each direction.
unfoldable pub tx_count : List CaptureRecord → ℕ
tx_count [] = 0
tx_count (r ∷ rs) = elim r.direction [ tx ↦ length r.content | rx ↦ 0 ] + tx_count rs

unfoldable pub rx_count : List CaptureRecord → ℕ
rx_count [] = 0
rx_count (r ∷ rs) = elim r.direction [ tx ↦ 0 | rx ↦ length r.content ] + rx_count rs

abbrev pub tx_bytes : CaptureFile → ℕ
tx_bytes c = tx_count c.records

abbrev pub rx_bytes : CaptureFile → ℕ
rx_bytes c = rx_count c.records

-- `struct.pack("<QBH", ...)` and the data.
unfoldable pub encode_record : CaptureRecord → Result (List ℕ)
encode_record r = do
  stamp ← pack_le 8 r.timestamp_us
  size ← pack_le 2 (length r.content)
  ok (stamp ++ (direction_code r.direction ∷ size ++ r.content))

unfoldable pub encode_records : List CaptureRecord → Result (List ℕ)
encode_records [] = ok []
encode_records (r ∷ rs) = do first ← encode_record r; rest ← encode_records rs; ok (first ++ rest)

-- The record at the front of the bytes from `offset` on, and what follows it; `none` for the two
-- ways out of the loop that an incomplete record takes.
unfoldable pub next_record : List ℕ → Result (Option (CaptureRecord × List ℕ))
next_record bytes = if ltb (length bytes) 11 then ok none else (do
  stamp ← unpack_le 8 0 bytes
  size ← unpack_le 2 9 bytes
  if ltb (length (drop 11 bytes)) size then ok none else (do
    direction ← direction_from (get_or bytes 8 0)
    ok (
        some (
          record {
            timestamp_us = stamp;
            direction = direction;
            content = take size (drop 11 bytes);
          },
          drop size (drop 11 bytes),
        ))))

-- `while offset < len(data)`; a round takes at least eleven bytes.
unfoldable pub decode_records : ℕ → List ℕ → Result (List CaptureRecord)
decode_records zero bytes = ok []
decode_records (suc fuel) bytes = do
  next ← next_record bytes
  elim next [ none ↦ ok [] | some (r, rest) ↦ (decode_records fuel rest >>= λ rs. ok (r ∷ rs)) ]

-- The codec's `encode("utf-8")` and `decode("utf-8", errors="replace")`.
module _ (encode_utf8 decode_utf8 : List ℕ → List ℕ) where
  -- `[:32].ljust(32, b"\x00")`.
  abbrev pub chip_field : List ℕ → List ℕ
  chip_field chip =
      let front = take 32 (encode_utf8 chip) in front ++ replicate (32 - length front) 0

  unfoldable pub encode_capture : CaptureFile → Result (List ℕ)
  encode_capture c = do
    baud ← pack_le 4 c.baudrate
    flags ← pack_le 2 c.flags
    body ← encode_records c.records
    ok (dcap_magic ++ (1 ∷ 0 ∷ baud ++ (chip_field c.chip ++ (flags ++ (0 ∷ 0 ∷ 0 ∷ 0 ∷ body)))))

  unfoldable pub decode_capture : List ℕ → Result CaptureFile
  decode_capture bytes = do
    guard (not (ltb (length bytes) header_size)) value_error
    version ← unpack_le 2 4 bytes
    baud ← unpack_le 4 6 bytes
    flags ← unpack_le 2 42 bytes
    guard (bytes_eq (slice 0 4 bytes) dcap_magic) value_error
    guard (version == dcap_version) value_error
    records ← decode_records (length bytes) (drop header_size bytes)
    ok (record {
      baudrate = baud;
      chip = decode_utf8 (rstrip_zeros (slice 10 32 bytes));
      flags = flags;
      records = records;
    })
