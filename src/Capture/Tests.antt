-- ===== src/Capture/Tests.antt =====
-- A capture with two records, and the front of a third behind it.
use openipc_defib.Prelude.{ℕ, ◌≡◌, refl, List, [], ◌∷◌, ◌++◌, none, replicate}
use openipc_defib.Prelude.Result.{ok}
use openipc_defib.Rockusb.Loader.{rstrip_zeros}
use openipc_defib.Struct.{pack_le, le_bytes}
use openipc_defib.Capture.{
  tx, rx, CaptureFile, encode_record, encode_records, next_record, chip_field, encode_capture,
  decode_capture,
}
use openipc_defib.Capture.RoundTrip.{decode_capture-encode_capture}

-- The codec on ASCII.
abbrev ascii : List ℕ → List ℕ
ascii text = text

abbrev session : CaptureFile
session = record {
  baudrate = 115200;
  chip = 0x68 ∷ 0x69 ∷ [];
  flags = 1;
  records =
      record { timestamp_us = 5; direction = tx; content = 0xaa ∷ [] }
      ∷ record { timestamp_us = 300; direction = rx; content = 0x20 ∷ 0x20 ∷ [] }
      ∷ [];
}

abbrev session_bytes : List ℕ
session_bytes =
    0x44 ∷ 0x43 ∷ 0x41 ∷ 0x50 ∷ 1 ∷ 0 ∷ 0 ∷ 0xc2 ∷ 1 ∷ 0 ∷ 0x68 ∷ 0x69 ∷ replicate 30 0
    ++ (1 ∷ 0 ∷ 0 ∷ 0 ∷ 0 ∷ 0 ∷ 5 ∷ 0 ∷ 0 ∷ 0 ∷ 0 ∷ 0 ∷ 0 ∷ 0 ∷ 0 ∷ 1 ∷ 0 ∷ 0xaa ∷ 0x2c ∷ 1 ∷ 0 ∷ 0
        ∷ 0 ∷ 0 ∷ 0 ∷ 0 ∷ 1 ∷ 2 ∷ 0 ∷ 0x20 ∷ 0x20 ∷ [])

session-encoded : encode_capture ascii ascii session ≡ ok session_bytes
unfolding encode_capture encode_records encode_record pack_le le_bytes
session-encoded = refl

torn : next_record (1 ∷ 2 ∷ 3 ∷ []) ≡ ok none
unfolding next_record
torn = refl

decode_capture-encode_capture_example :
    decode_capture ascii ascii (session_bytes ++ (1 ∷ 2 ∷ 3 ∷ []))
    ≡ ok (record {
      baudrate = session.baudrate;
      chip = rstrip_zeros (chip_field ascii ascii session.chip);
      flags = session.flags;
      records = session.records;
    })
decode_capture-encode_capture_example =
    decode_capture-encode_capture ascii ascii session session_bytes (1 ∷ 2 ∷ 3 ∷ []) session-encoded
      torn
