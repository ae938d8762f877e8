-- ===== src/Frames.antt =====
-- src/defib/protocol/frames.py: the HEAD, DATA and TAIL frames of the boot protocol.
pub mod RoundTrip
pub mod Chunks
pub mod Tests
use openipc_defib.Prelude.{
  ℕ, ◌+◌, ◌-◌, ◌%◌, List, [], ◌∷◌, ◌++◌, Bool, not, length, get_or, slice, drop, drop_last,
}
use openipc_defib.Prelude.{ltb, ◌==◌, bytes_eq, if◌then◌else◌}
use openipc_defib.Prelude.Bits.{u8}
use openipc_defib.Prelude.Result.{Result, ok, err, frame_error, value_error, guard, ◌>>=◌, ◌>>◌}
use openipc_defib.Struct.{pack_be, unpack_be}
use openipc_defib.Slices.{slices}
use openipc_defib.Crc.{calc_crc, crc_be}

abbrev pub head_magic : List ℕ
head_magic = 0xfe ∷ 0x00 ∷ 0xff ∷ 0x01 ∷ []

abbrev pub data_magic : ℕ
data_magic = 0xda

abbrev pub tail_magic : ℕ
tail_magic = 0xed

abbrev pub max_data_len : ℕ
max_data_len = 0x400

-- `(~seq) & 0xFF`.
abbrev pub inverted : ℕ → ℕ
inverted seq = 255 - u8 seq

pub record HeadFrame : Type 0 where
  pub length : ℕ
  pub address : ℕ

pub record DataFrame : Type 0 where
  pub seq : ℕ
  pub payload : List ℕ

pub record TailFrame : Type 0 where
  pub seq : ℕ

-- The fourteen bytes that the source writes into its buffer, in order.
unfoldable pub encode_head : HeadFrame → Result (List ℕ)
encode_head frame = do
  len ← pack_be 4 frame.length
  addr ← pack_be 4 frame.address
  let body = head_magic ++ (len ++ addr)
  ok (body ++ crc_be (calc_crc body))

-- The checksum is not looked at.
unfoldable pub decode_head : List ℕ → Result HeadFrame
decode_head bytes = do
  guard (not (ltb (length bytes) 14)) frame_error
  guard (bytes_eq (slice 0 4 bytes) head_magic) frame_error
  len ← unpack_be 4 4 bytes
  addr ← unpack_be 4 8 bytes
  ok (record { length = len; address = addr })

unfoldable pub encode_data : DataFrame → List ℕ
encode_data frame =
    let body = data_magic ∷ u8 frame.seq ∷ inverted frame.seq ∷ frame.payload in
    body ++ crc_be (calc_crc body)

unfoldable pub decode_data : List ℕ → Result DataFrame
decode_data bytes = do
  guard (not (ltb (length bytes) 6)) frame_error
  guard (get_or bytes 0 0 == data_magic) frame_error
  guard (get_or bytes 2 0 == inverted (get_or bytes 1 0)) frame_error
  ok (record { seq = get_or bytes 1 0; payload = drop 3 (drop_last 2 bytes) })

unfoldable pub encode_tail : TailFrame → List ℕ
encode_tail frame =
    let body = tail_magic ∷ u8 frame.seq ∷ inverted frame.seq ∷ [] in body ++ crc_be (calc_crc body)

unfoldable pub decode_tail : List ℕ → Result TailFrame
decode_tail bytes = do
  guard (not (ltb (length bytes) 5)) frame_error
  guard (get_or bytes 0 0 == tail_magic) frame_error
  ok (record { seq = get_or bytes 1 0 })

-- `range` refuses a step of zero.
unfoldable pub chunk_data : List ℕ → ℕ → Result (List (List ℕ))
chunk_data bytes chunk_size =
    if chunk_size == 0 then err value_error else ok (slices chunk_size bytes)
