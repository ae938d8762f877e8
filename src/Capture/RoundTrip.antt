-- ===== src/Capture/RoundTrip.antt =====
-- A capture that was written is read back.
use openipc_defib.Prelude.{
  ℕ, zero, suc, ◌-◌, ◌^◌, ◌<◌, ◌≡◌, refl, ap, arith, List, [], ◌∷◌, ◌++◌, append_assoc, length,
  length-append, length-take, length-replicate, take, take-append, drop-append, drop-drop,
  replicate, bytes_eq, none, some,
}
use openipc_defib.Prelude.Result.{Result, ok, err}
use openipc_defib.Struct.{pack_le, unpack_le, le_bytes, le_value, le_value-le_bytes}
use openipc_defib.Rockusb.Loader.{rstrip_zeros}
use openipc_defib.Capture.{
  dcap_magic, Direction, tx, rx, direction_code, direction_from, CaptureRecord, CaptureFile,
  encode_record, encode_records, next_record, decode_records, chip_field, encode_capture,
  decode_capture,
}

direction_from-direction_code : (d : Direction) → direction_from (direction_code d) ≡ ok d
unfolding direction_from
direction_from-direction_code tx = refl
direction_from-direction_code rx = refl

-- The bytes of a record whose fields fit.
abbrev layout : CaptureRecord → List ℕ
layout r =
    le_bytes 8 r.timestamp_us
    ++ (direction_code r.direction ∷ le_bytes 2 (length r.content) ++ r.content)

encode_record_lem :
    (r : CaptureRecord) (bytes : List ℕ)
    → encode_record r ≡ ok bytes
    → (bytes ≡ layout r) × (r.timestamp_us < 256 ^ 8) × (length r.content < 256 ^ 2)
unfolding encode_record pack_le
encode_record_lem r bytes h = (ground arith, ground arith, ground arith)

next_record-layout :
    (r : CaptureRecord) (rest : List ℕ)
    → r.timestamp_us < 256 ^ 8
    → length r.content < 256 ^ 2
    → next_record (layout r ++ rest) ≡ ok (some (r, rest))
unfolding next_record unpack_le le_bytes
next_record-layout r rest ht hs =
    let size = length-append r.content rest in
    let stamp = le_value-le_bytes 8 r.timestamp_us ht in
    let count = le_value-le_bytes 2 (length r.content) hs in
    ground (
      arith,
      size,
      stamp,
      count,
      direction_from-direction_code r.direction,
      take-append (length r.content) r.content rest refl,
      drop-append (length r.content) r.content rest refl,
    )

-- The parts of an encoding of several records.
record Parts (r : CaptureRecord) (rs : List CaptureRecord) (bytes : List ℕ) : Type 0 where
  first : List ℕ
  rest : List ℕ
  here : encode_record r ≡ ok first
  there : encode_records rs ≡ ok rest
  whole : bytes ≡ first ++ rest

encode_records-Parts :
    (r : CaptureRecord) (rs : List CaptureRecord) (bytes : List ℕ)
    → encode_records (r ∷ rs) ≡ ok bytes
    → Parts r rs bytes
unfolding encode_records
encode_records-Parts r rs bytes h = go (encode_record r) refl (encode_records rs) refl
  where
    go :
        (a : Result (List ℕ))
        → encode_record r ≡ a
        → (b : Result (List ℕ)) → encode_records rs ≡ b
        → Parts r rs bytes
    go (err e) ea b eb = absurd (ground arith)
    go (ok x) ea (err e) eb = absurd (ground arith)
    go (ok x) ea (ok y) eb = record {
      first = x;
      rest = y;
      here = ea;
      there = eb;
      whole = ground arith;
    }

module _ (fuel : ℕ) (bytes : List ℕ) where
  decode_step :
      (r : CaptureRecord) (rest : List ℕ) (rs : List CaptureRecord)
      → next_record bytes ≡ ok (some (r, rest))
      → decode_records fuel rest ≡ ok rs
      → decode_records (suc fuel) bytes ≡ ok (r ∷ rs)
  unfolding decode_records
  decode_step r rest rs h ih = rw (h, decode_records) (ground arith)

  decode_end : next_record bytes ≡ ok none → decode_records (suc fuel) bytes ≡ ok []
  unfolding decode_records
  decode_end h = rw (h, decode_records)

-- Records are read back, and an incomplete one behind them is dropped.
decode_records-encode_records :
    (rs : List CaptureRecord) (bytes tail : List ℕ) (fuel : ℕ)
    → encode_records rs ≡ ok bytes
    → next_record tail ≡ ok none
    → length bytes < fuel
    → decode_records fuel (bytes ++ tail) ≡ ok rs
decode_records-encode_records rs bytes tail zero h t enough = absurd (omega arith)
decode_records-encode_records [] bytes tail (suc fuel) h t enough =
    let none_there : bytes ≡ [] = unfold encode_records in cc in
    rw none_there (decode_end fuel tail t)
decode_records-encode_records (r ∷ rs) bytes tail (suc fuel) h t enough =
    let p = encode_records-Parts r rs bytes h in
    let (shape, ht, hs) = encode_record_lem r p.first p.here in
    let sizes = length-append p.first p.rest in
    let some_bytes : 0 < length p.first = rw shape (unfold le_bytes in omega arith) in
    let short : length p.rest < fuel = omega (arith, ap length p.whole) in
    let ih = decode_records-encode_records rs p.rest tail fuel p.there t short in
    let front : next_record (bytes ++ tail) ≡ ok (some (r, p.rest ++ tail)) =
      rw (p.whole, shape, append_assoc) (next_record-layout r (p.rest ++ tail) ht hs) in
    decode_step fuel (bytes ++ tail) r (p.rest ++ tail) rs front ih

module _ (encode_utf8 decode_utf8 : List ℕ → List ℕ) where
  length-chip_field : (chip : List ℕ) → length (chip_field encode_utf8 decode_utf8 chip) ≡ 32
  length-chip_field chip =
      let front = take 32 (encode_utf8 chip) in
      let pad = length-replicate {A = ℕ} (32 - length front) 0 in
      omega (
        arith,
        length-append front (replicate (32 - length front) 0),
        length-take 32 (encode_utf8 chip),
        pad,
      )

  -- A file's bytes, with the chip's field `x` and the records' bytes `body`.
  abbrev file : ℕ → List ℕ → ℕ → List ℕ → List ℕ
  file baud x flags body =
      dcap_magic ++ (1 ∷ 0 ∷ le_bytes 4 baud ++ (x ++ (le_bytes 2 flags ++ (0 ∷ 0 ∷ 0 ∷ 0 ∷ body))))

  decode_file :
      (baud flags : ℕ) (x body : List ℕ) (records : List CaptureRecord)
      → length x ≡ 32
      → baud < 2 ^ 32
      → flags < 2 ^ 16
      → decode_records (length (file baud x flags body)) body ≡ ok records
      → decode_capture encode_utf8 decode_utf8 (file baud x flags body)
        ≡ ok (record {
          baudrate = baud;
          chip = decode_utf8 (rstrip_zeros x);
          flags = flags;
          records = records;
        })
  unfolding decode_capture unpack_le le_bytes bytes_eq le_value
  decode_file baud flags x body records hx hb hf h =
      let y = le_bytes 2 flags ++ (0 ∷ 0 ∷ 0 ∷ 0 ∷ body) in
      let front = take-append 32 x y hx in
      let back = drop-append 32 x y hx in
      let far = drop-drop 6 32 (x ++ y) in
      let size = length-append x y in
      ground
        (arith, front, back, far, size, le_value-le_bytes 4 baud hb, le_value-le_bytes 2 flags hf)

  -- What `encode_capture` wrote.
  record Written (c : CaptureFile) (bytes : List ℕ) : Type 0 where
    body : List ℕ
    records : encode_records c.records ≡ ok body
    baud_fits : c.baudrate < 2 ^ 32
    flags_fit : c.flags < 2 ^ 16
    whole : bytes ≡ file c.baudrate (chip_field encode_utf8 decode_utf8 c.chip) c.flags body

  encode_capture-Written :
      (c : CaptureFile) (bytes : List ℕ)
      → encode_capture encode_utf8 decode_utf8 c ≡ ok bytes
      → Written c bytes
  unfolding encode_capture pack_le
  encode_capture-Written c bytes h = go (encode_records c.records) refl
    where
      go : (r : Result (List ℕ)) → encode_records c.records ≡ r → Written c bytes
      go (err e) er = absurd (ground arith)
      go (ok b) er = record {
        body = b;
        records = er;
        baud_fits = ground arith;
        flags_fit = ground arith;
        whole = ground arith;
      }

  file-append :
      (baud : ℕ) (x : List ℕ) (flags : ℕ) (body tail : List ℕ)
      → file baud x flags body ++ tail ≡ file baud x flags (body ++ tail)
  unfolding le_bytes
  file-append baud x flags body tail =
      let y = le_bytes 2 flags ++ (0 ∷ 0 ∷ 0 ∷ 0 ∷ body) in rw (append_assoc x y tail) refl

  file-long :
      (baud : ℕ) (x : List ℕ) (flags : ℕ) (body : List ℕ)
      → length body < length (file baud x flags body)
  unfolding le_bytes
  file-long baud x flags body =
      omega (arith, length-append x (le_bytes 2 flags ++ (0 ∷ 0 ∷ 0 ∷ 0 ∷ body)))

  -- A capture file that was written is read back, with the chip's name as its 32 bytes hold it, and
  -- an incomplete record behind the end is dropped.
  pub decode_capture-encode_capture :
      (c : CaptureFile) (bytes tail : List ℕ)
      → encode_capture encode_utf8 decode_utf8 c ≡ ok bytes
      → next_record tail ≡ ok none
      → decode_capture encode_utf8 decode_utf8 (bytes ++ tail)
        ≡ ok (record {
          baudrate = c.baudrate;
          chip = decode_utf8 (rstrip_zeros (chip_field encode_utf8 decode_utf8 c.chip));
          flags = c.flags;
          records = c.records;
        })
  decode_capture-encode_capture c bytes tail h t =
      let w = encode_capture-Written c bytes h in
      let x = chip_field encode_utf8 decode_utf8 c.chip in
      let long = file-long c.baudrate x c.flags (w.body ++ tail) in
      rw (w.whole, file-append c.baudrate x c.flags w.body tail)
        (decode_file c.baudrate c.flags x (w.body ++ tail) c.records (length-chip_field c.chip)
          w.baud_fits w.flags_fit
          (decode_records-encode_records c.records w.body tail _ w.records t
            (omega (arith, length-append w.body tail, long))))
