-- ===== src/Cv6xx/Boot.antt =====
-- src/defib/protocol/hisilicon_cv6xx.py: the sections of a composite boot file.
pub mod Sections
use openipc_defib.Prelude.{
  ℕ, zero, suc, ◌+◌, ◌-◌, ◌*◌, List, [], ◌∷◌, ◌++◌, length, get_or, slice, take, drop, Bool, true,
  false, ltb, leb, ◌==◌, not, if◌then◌else◌, Option, none, some,
}
use openipc_defib.Prelude.Result.{
  Result, ok, err, guard, protocol_error, value_error, index_error, ◌>>=◌, ◌>>◌,
}
use openipc_defib.Struct.{unpack_le, pack_le, le_bytes}
use openipc_defib.Search.{find_from}

abbrev pub cv6xx_gsl_magic : ℕ
cv6xx_gsl_magic = 0x4bb4d22d

abbrev pub cv6xx_ddr_params_magic : ℕ
cv6xx_ddr_params_magic = 0x4b87a52d

-- `struct.pack("<I", CV6XX_UBOOT_MAGIC)`.
abbrev pub uboot_magic_bytes : List ℕ
uboot_magic_bytes = 0x2d ∷ 0x1e ∷ 0xf0 ∷ 0x4b ∷ []

pub record Cv6xxBootParts : Type 0 where
  pub gsl_data : List ℕ
  pub gsl_size : ℕ
  pub params_start : ℕ
  pub offset_32 : ℕ
  pub table_count : ℕ
  pub table_size : ℕ
  pub board_mapping : List ℕ
  pub uboot_data : List ℕ
  pub file_data : List ℕ

-- `struct.unpack` of a slice that the file cuts short raises.
unfoldable pub uboot_section : List ℕ → Option ℕ → Result (List ℕ)
uboot_section file_data none = err protocol_error
uboot_section file_data (some at) = do
  uboot_len ← unpack_le 4 (at + 36) file_data
  ok (slice at (uboot_len + 1024) file_data)

unfoldable pub parse_cv6xx_boot : List ℕ → Result Cv6xxBootParts
parse_cv6xx_boot file_data = do
  magic_gsl ← unpack_le 4 2048 file_data
  guard (magic_gsl == cv6xx_gsl_magic) protocol_error
  gsl_len ← unpack_le 4 2084 file_data
  let gsl_size = gsl_len + 3072
  let params_start = gsl_size + 1024
  magic_params ← unpack_le 4 params_start file_data
  guard (magic_params == cv6xx_ddr_params_magic) protocol_error
  offset_32 ← unpack_le 4 (params_start + 32) file_data
  table_size ← unpack_le 4 (params_start + 36) file_data
  table_count ← unpack_le 4 (params_start + 40) file_data
  uboot_data ← uboot_section file_data (find_from uboot_magic_bytes params_start file_data)
  ok (record {
    gsl_data = take gsl_size file_data;
    gsl_size = gsl_size;
    params_start = params_start;
    offset_32 = offset_32;
    table_count = table_count;
    table_size = table_size;
    board_mapping = slice (params_start + 300) 8 file_data;
    uboot_data = uboot_data;
    file_data = file_data;
  })

-- `struct.pack_into` of four bytes at 36.
unfoldable pub wrap_cv6xx_payload : List ℕ → List ℕ → Result (List ℕ)
wrap_cv6xx_payload header_source payload = do
  guard (not (ltb (length header_source) 1024)) value_error
  field ← pack_le 4 (length payload)
  let header = take 1024 header_source
  ok ((take 36 header ++ (field ++ drop 40 header)) ++ payload)

-- Which table serves the board: `mapping[mapped_index]` raises on a mapping that is cut short.
unfoldable pub mapped_table : Cv6xxBootParts → ℕ → Result ℕ
mapped_table parts board_id =
    let mapping = parts.board_mapping in
    let at = if ltb board_id (length mapping) then board_id else 0 in
    let mapped_index = get_or mapping at 0 in
    if ltb at (length mapping)
    then ok (if leb parts.table_count mapped_index then 0 else mapped_index)
    else err index_error

unfoldable pub build_ddr_table : Cv6xxBootParts → ℕ → Result (List ℕ)
build_ddr_table parts board_id = do
  mapped_index ← mapped_table parts board_id
  let table_offset = parts.gsl_size + 2048 + parts.offset_32 + mapped_index * parts.table_size
  ok (
      slice parts.gsl_size 2048 parts.file_data
      ++ slice table_offset parts.table_size parts.file_data)
