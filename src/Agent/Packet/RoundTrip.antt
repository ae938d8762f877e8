-- ===== src/Agent/Packet/RoundTrip.antt =====
-- A packet that was built is parsed back, is free of delimiters but for its end, and fits the
-- receive buffer up to a known amount of data.
use openipc_defib.Prelude.{ℕ, ◌-◌, ◌<◌, ◌≤◌, ◌≡◌, refl, ◌∙◌, arith}
use openipc_defib.Prelude.{
  List, [], ◌∷◌, ◌++◌, length, length-append, drop, take-append, drop-append, All, All-append,
  get_or,
}
use openipc_defib.Prelude.{true, Bool-cases, ◌⊎◌, inl, inr, ltb, if◌then◌else◌, not}
use openipc_defib.Prelude.Bits.{u32, IsByte}
use openipc_defib.Prelude.Result.{Result, Error, ok, err, value_error}
use openipc_defib.Struct.{le_bytes, le_value, length-le_bytes, le_value-le_bytes, le_bytes-IsByte}
use openipc_defib.Cobs.{encode, decode}
use openipc_defib.Cobs.RoundTrip.{decode-encode}
use openipc_defib.Cobs.Bounds.{IsStuffed, encode-IsStuffed, length-encode, Ends, decode-Ends}
use openipc_defib.Crc32.{crc32}
use openipc_defib.Agent.Packet.{build_packet, parse_packet, frame_delimiter, max_packet_size}

-- What stands on the wire before a packet's delimiter.
unfoldable pub packet_body : ℕ → List ℕ → List ℕ
packet_body cmd payload = let raw = cmd ∷ payload in encode (raw ++ le_bytes 4 (u32 (crc32 raw)))

-- A packet is built exactly of a command that is a byte.
pub build_packet_lem :
    (cmd : ℕ) (payload : List ℕ)
    → build_packet cmd payload ≡ (
        if ltb cmd 256
        then ok (packet_body cmd payload ++ frame_delimiter ∷ [])
        else err value_error)
unfolding build_packet packet_body
build_packet_lem cmd payload = ground arith

parse_checked :
    (payload check : List ℕ)
    → 0 < length payload
    → length check ≡ 4
    → le_value check ≡ u32 (crc32 payload)
    → parse_packet (encode (payload ++ check)) ≡ ok (get_or payload 0 0, drop 1 payload)
unfolding parse_packet
parse_checked payload check some_payload four valid =
    let size = length-append payload check in
    let front : length (payload ++ check) - 4 ≡ length payload = omega arith in
    let long : not (ltb (length (payload ++ check)) 5) ≡ true = ground arith in
    rw
      (
        decode-encode,
        long,
        front,
        take-append (length payload) payload check refl,
        drop-append (length payload) payload check refl,
      )
      (ground arith)

-- What was built is parsed back, whatever the command byte and the data.
pub parse_packet-packet_body :
    (cmd : ℕ) (payload : List ℕ) → parse_packet (packet_body cmd payload) ≡ ok (cmd, payload)
unfolding packet_body
parse_packet-packet_body cmd payload =
    let raw = cmd ∷ payload in
    parse_checked raw (le_bytes 4 (u32 (crc32 raw))) (omega arith)
      (length-le_bytes 4 (u32 (crc32 raw))) (le_value-le_bytes 4 (u32 (crc32 raw)) (omega arith))

-- The only zero byte of a packet is its delimiter.
pub packet_body-IsStuffed :
    (cmd : ℕ) (payload : List ℕ)
    → IsByte cmd
    → All IsByte payload
    → All IsStuffed (packet_body cmd payload)
unfolding packet_body
packet_body-IsStuffed cmd payload hc hp =
    let raw = cmd ∷ payload in
    encode-IsStuffed (raw ++ le_bytes 4 (u32 (crc32 raw)))
      (All-append IsByte raw (le_bytes 4 (u32 (crc32 raw))) (hc, hp) (le_bytes-IsByte 4 _))

-- Up to 1090 bytes of data the body fits the receive buffer.
pub length-packet_body :
    (cmd : ℕ) (payload : List ℕ)
    → length payload ≤ 1090
    → length (packet_body cmd payload) ≤ max_packet_size
unfolding packet_body
length-packet_body cmd payload short =
    let raw = cmd ∷ payload in
    omega (
      arith,
      length-encode (raw ++ le_bytes 4 (u32 (crc32 raw))),
      length-append raw (le_bytes 4 (u32 (crc32 raw))),
      length-le_bytes 4 (u32 (crc32 raw)),
    )

-- `parse_packet` raises nothing but a ValueError.
pub parse_packet-raises : (raw : List ℕ) (e : Error) → parse_packet raw ≡ err e → e ≡ value_error
unfolding parse_packet
parse_packet-raises raw e h = go (decode raw) refl (decode-Ends raw)
  where
    go : (r : Result (List ℕ)) → decode raw ≡ r → Ends (length raw) r → e ≡ value_error
    go (ok out) d ends = ground arith
    go (err e') d ends = ground arith

-- What the caller of `build_packet` relies on of a packet that it returned.
pub record Carries (cmd : ℕ) (payload packet : List ℕ) : Type 0 where
  pub body : List ℕ
  pub framed : packet ≡ body ++ frame_delimiter ∷ []
  pub no_delimiter : All IsStuffed body
  pub parses : parse_packet body ≡ ok (cmd, payload)

-- `build_packet` fails only on a command that is no byte. On bytes it returns a packet whose one
-- zero byte is its last, and which the receiver parses back to the command and the data.
pub build_packet-parses :
    (cmd : ℕ) (payload : List ℕ)
    → All IsByte payload
    → ((packet : List ℕ) × (build_packet cmd payload ≡ ok packet)
        × IsByte cmd
        × Carries cmd payload packet)
      ⊎ ((build_packet cmd payload ≡ err value_error) × (256 ≤ cmd))
build_packet-parses cmd payload bytes = elim (Bool-cases (ltb cmd 256)) [
  | inl small ↦
      let fits : IsByte cmd = ground arith in
      let carried : Carries cmd payload (packet_body cmd payload ++ frame_delimiter ∷ []) = record {
        body = packet_body cmd payload;
        framed = refl;
        no_delimiter = packet_body-IsStuffed cmd payload fits bytes;
        parses = parse_packet-packet_body cmd payload;
      } in
      inl (_, build_packet_lem cmd payload ∙ rw small refl, fits, carried)
  | inr large ↦ inr (build_packet_lem cmd payload ∙ rw large refl, ground arith)
]
