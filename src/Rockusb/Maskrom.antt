-- ===== src/Rockusb/Maskrom.antt =====
-- src/defib/rockusb/maskrom.py: a blob as control transfers of the boot ROM.
use openipc_defib.Prelude.{
  ℕ, ◌-◌, ◌%◌, ◌≡◌, ◌≢◌, List, [], ◌∷◌, ◌++◌, length, ◌==◌, if◌then◌else◌, Bool, true, false,
}
use openipc_defib.Prelude.Result.{Result, ok, ◌>>=◌}
use openipc_defib.Struct.{pack_be, be_bytes}
use openipc_defib.Slices.{slices, join, IsCut}
use openipc_defib.Rockusb.Codec.{rk_rc4_key, rk_crc16, rc4}

abbrev pub chunk_size : ℕ
chunk_size = 4096

-- The zero byte before the checksum, where the checksum would cross a chunk's end.
unfoldable pub padded : List ℕ → List ℕ
padded blob = if length blob % chunk_size == chunk_size - 1 then blob ++ 0 ∷ [] else blob

abbrev pub encrypted : Bool → List ℕ → Result (List ℕ)
encrypted true bytes = rc4 bytes rk_rc4_key
encrypted false bytes = ok bytes

-- The chunk that ends the transfer, where the last one would be full.
unfoldable pub terminator : List ℕ → List (List ℕ)
terminator blob = if length blob % chunk_size == chunk_size - 2 then (0 ∷ []) ∷ [] else []

unfoldable pub build_maskrom_chunks : List ℕ → Bool → Result (List (List ℕ))
build_maskrom_chunks blob use_rc4 = do
  payload ← encrypted use_rc4 (padded blob)
  check ← pack_be 2 (rk_crc16 payload)
  ok (slices chunk_size (payload ++ check) ++ terminator blob)

-- What the boot ROM relies on: it gets the blob, encrypted if so asked, and its checksum; the chunks
-- are cut at the multiples of 4096, the two bytes of the checksum come in one of them, and the last
-- one is short.
pub record IsTransfer (blob : List ℕ) (use_rc4 : Bool) (chunks : List (List ℕ)) : Type 0 where
  pub payload : List ℕ
  pub made : encrypted use_rc4 (padded blob) ≡ ok payload
  pub carried : join chunks ≡ (payload ++ be_bytes 2 (rk_crc16 payload)) ++ join (terminator blob)
  pub cut : IsCut 4096 chunks
  pub together : length payload % 4096 ≢ 4095
  pub short_end : length (join chunks) % 4096 ≢ 0
