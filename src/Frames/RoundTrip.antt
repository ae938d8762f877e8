-- ===== src/Frames/RoundTrip.antt =====
-- Each decoder reads back what its encoder wrote.
use openipc_defib.Prelude.{ℕ, suc, ◌-◌, ◌^◌, ◌<◌, ◌≤◌, ◌≡◌, refl, arith}
use openipc_defib.Prelude.{List, [], ◌∷◌, ◌++◌, append_assoc, length, length-append, take-append}
use openipc_defib.Prelude.{true, bytes_eq, ltb, ◌==◌, if◌then◌else◌}
use openipc_defib.Prelude.Bits.{u8}
use openipc_defib.Prelude.Result.{ok, err, frame_error, struct_error}
use openipc_defib.Struct.{be_bytes, pack_be, unpack_be, be_value-be_bytes}
use openipc_defib.Crc.{calc_crc, crc_be, append_crc, verify_crc}
use openipc_defib.Crc.Check.{verify_crc-append_crc}
use openipc_defib.Frames.{
  HeadFrame, DataFrame, TailFrame, head_magic, data_magic, tail_magic, inverted,
}
use openipc_defib.Frames.{
  encode_head, decode_head, encode_data, decode_data, encode_tail, decode_tail,
}

-- The twelve bytes before a HEAD frame's checksum.
abbrev head_body : HeadFrame → List ℕ
head_body f = head_magic ++ (be_bytes 4 f.length ++ be_bytes 4 f.address)

-- The fields of a HEAD frame are checked, and nothing else can fail.
pub encode_head_lem :
    (f : HeadFrame)
    → encode_head f ≡ (
        if ltb f.length (2 ^ 32)
        then (if ltb f.address (2 ^ 32) then ok (append_crc (head_body f)) else err struct_error)
        else err struct_error)
unfolding encode_head pack_be append_crc
encode_head_lem f = ground arith

decode_head_body :
    (f : HeadFrame) (rest : List ℕ)
    → f.length < 2 ^ 32
    → f.address < 2 ^ 32
    → 2 ≤ length rest
    → decode_head (head_body f ++ rest) ≡ ok f
unfolding decode_head unpack_be bytes_eq be_bytes
decode_head_body f rest hl ha hr =
    let len = be_value-be_bytes 4 f.length hl in
    let addr = be_value-be_bytes 4 f.address ha in ground (arith, len, addr)

-- A HEAD frame that could be encoded is read back from the front of any bytes that start with it.
pub decode_head-encode_head :
    (f : HeadFrame) (frame rest : List ℕ)
    → encode_head f ≡ ok frame
    → decode_head (frame ++ rest) ≡ ok f
unfolding append_crc
decode_head-encode_head f frame rest h = ground (
  arith,
  encode_head_lem f,
  append_assoc (head_body f) (crc_be (calc_crc (head_body f))) rest,
  decode_head_body f (crc_be (calc_crc (head_body f)) ++ rest),
)

length-head_body :
    (f : HeadFrame) → (length (head_body f) ≡ 12) × (length (append_crc (head_body f)) ≡ 14)
unfolding be_bytes append_crc
length-head_body f = (refl, refl)

-- An encoded HEAD frame has fourteen bytes and a valid checksum.
pub encode_head-checked :
    (f : HeadFrame) (frame : List ℕ)
    → encode_head f ≡ ok frame
    → (length frame ≡ 14) × (verify_crc frame ≡ true)
encode_head-checked f frame h = ground (
  arith,
  encode_head_lem f,
  length-head_body f,
  verify_crc-append_crc (head_body f) (omega (arith, length-head_body f)),
)

-- A DATA frame is read back with its number modulo 256, unless its payload is empty: that frame is
-- too short for the decoder.
pub decode_data-encode_data :
    (f : DataFrame)
    → decode_data (encode_data f) ≡ (
        if length f.payload == 0
        then err frame_error
        else ok (record { seq = u8 f.seq; payload = f.payload }))
unfolding decode_data encode_data
decode_data-encode_data f =
    let body = data_magic ∷ u8 f.seq ∷ inverted f.seq ∷ f.payload in
    let tail = crc_be (calc_crc body) in
    let size = length-append f.payload tail in
    let kept : length (body ++ tail) - 2 ≡ suc (suc (suc (length f.payload))) = omega arith in
    let payload = take-append (length f.payload) f.payload tail refl in
    rw (kept, payload) (ground arith)

pub encode_data-checked : (f : DataFrame) → verify_crc (encode_data f) ≡ true
unfolding encode_data append_crc
encode_data-checked f =
    verify_crc-append_crc (data_magic ∷ u8 f.seq ∷ inverted f.seq ∷ f.payload) (omega arith)

-- A TAIL frame is read back with its number modulo 256, and its checksum is valid.
pub decode_tail-encode_tail :
    (f : TailFrame)
    → (decode_tail (encode_tail f) ≡ ok (record { seq = u8 f.seq }))
      × (verify_crc (encode_tail f) ≡ true)
unfolding decode_tail encode_tail append_crc
decode_tail-encode_tail f =
    (refl, verify_crc-append_crc (tail_magic ∷ u8 f.seq ∷ inverted f.seq ∷ []) (omega arith))
