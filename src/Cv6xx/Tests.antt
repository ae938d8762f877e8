-- ===== src/Cv6xx/Tests.antt =====
-- A small boot file, and a device that acknowledges everything.
use openipc_defib.Prelude.{ℕ, ◌≡◌, refl, arith, List, [], ◌∷◌, ◌++◌, replicate, take, none, some}
use openipc_defib.Prelude.Result.{ok, err}
use openipc_defib.Struct.{le_bytes, le_value, unpack_le, be_value_from, pack_le}
use openipc_defib.Search.{find_in, starts_with}
use openipc_defib.Prelude.Result.{struct_error}
use openipc_defib.Slices.{slices, slices_from}
use openipc_defib.Line.{received, expired, Line}
use openipc_defib.Bootrom.Answered.{Patient, heard, Returned}
use openipc_defib.Cv6xx.Boot.Sections.{IsParsed, parse_cv6xx_boot-IsParsed, uboot_section-wrapped}
use openipc_defib.Cv6xx.Query.{BoardAnswer, board_answer, new_cv6xx}
use openipc_defib.Cv6xx.Firmware.{cv6xx_send_firmware}
use openipc_defib.Cv6xx.Answered.{all_done, cv6xx_send_firmware-Returned}
use openipc_defib.Cv6xx.Cut.{cv6xx_send_firmware-cut}
use openipc_defib.Cv6xx.Boot.{
  Cv6xxBootParts, parse_cv6xx_boot, uboot_section, mapped_table, build_ddr_table,
  wrap_cv6xx_payload,
}

-- A GSL of 3072 bytes, parameters with two tables of 4 bytes, and U-Boot with 8 bytes behind its
-- header.
abbrev zeros : ℕ → List ℕ
zeros n = replicate n 0

abbrev gsl_part : List ℕ
gsl_part = zeros 2048 ++ (0x2d ∷ 0xd2 ∷ 0xb4 ∷ 0x4b ∷ []) ++ zeros 1020

abbrev params_part : List ℕ
params_part =
    zeros 1024
    ++ (0x2d ∷ 0xa5 ∷ 0x87 ∷ 0x4b ∷ [])
    ++ zeros 28
    ++ (0 ∷ 0 ∷ 0 ∷ 0 ∷ 4 ∷ 0 ∷ 0 ∷ 0 ∷ 2 ∷ 0 ∷ 0 ∷ 0 ∷ [])
    ++ zeros 256
    ++ (0 ∷ 1 ∷ 1 ∷ 0 ∷ 0 ∷ 0 ∷ 0 ∷ 7 ∷ [])
    ++ zeros 716
    ++ (10 ∷ 11 ∷ 12 ∷ 13 ∷ 20 ∷ 21 ∷ 22 ∷ 23 ∷ [])

abbrev uboot_part : List ℕ
uboot_part =
    (0x2d ∷ 0x1e ∷ 0xf0 ∷ 0x4b ∷ [])
    ++ zeros 32
    ++ (8 ∷ 0 ∷ 0 ∷ 0 ∷ [])
    ++ zeros 984
    ++ (1 ∷ 2 ∷ 3 ∷ 4 ∷ 5 ∷ 6 ∷ 7 ∷ 8 ∷ [])

abbrev boot_file : List ℕ
boot_file = gsl_part ++ (params_part ++ uboot_part)

abbrev parts : Cv6xxBootParts
parts = record {
  gsl_data = gsl_part;
  gsl_size = 3072;
  params_start = 4096;
  offset_32 = 0;
  table_count = 2;
  table_size = 4;
  board_mapping = 0 ∷ 1 ∷ 1 ∷ 0 ∷ 0 ∷ 0 ∷ 0 ∷ 7 ∷ [];
  uboot_data = uboot_part;
  file_data = boot_file;
}

parsed : parse_cv6xx_boot boot_file ≡ ok parts
unfolding parse_cv6xx_boot uboot_section unpack_le le_value find_in starts_with
parsed = refl

table_1 : build_ddr_table parts 1 ≡ ok (take 2048 params_part ++ 20 ∷ 21 ∷ 22 ∷ 23 ∷ [])
unfolding build_ddr_table mapped_table
table_1 = refl

-- The device's answer: CPU 2, board 1.
abbrev reply : List ℕ
reply = 0xce ∷ 2 ∷ 0 ∷ 0 ∷ 0 ∷ 0 ∷ 0 ∷ 1 ∷ 0 ∷ 0 ∷ 0xaa ∷ []

abbrev told : BoardAnswer
told = record { cpu = 2; board = 1; remaining = [] }

reply-told : board_answer reply ≡ some told
unfolding board_answer find_in starts_with be_value_from
reply-told = refl

abbrev table : List ℕ
table = take 2048 params_part ++ 20 ∷ 21 ∷ 22 ∷ 23 ∷ []

refuses_gsl : Patient gsl_part
unfolding slices slices_from
refuses_gsl = record {
  first = 0;
  blocks = 0 ∷ 9 ∷ 0 ∷ [];
  final = 0;
  first_small = omega arith;
  blocks_small = (omega arith, (omega arith, (omega arith, tt)));
  final_small = omega arith;
  each_block = refl;
}

refuses_table : Patient table
unfolding slices slices_from
refuses_table = record {
  first = 0;
  blocks = 0 ∷ 0 ∷ 0 ∷ [];
  final = 1;
  first_small = omega arith;
  blocks_small = (omega arith, (omega arith, (omega arith, tt)));
  final_small = omega arith;
  each_block = refl;
}

refuses_uboot : Patient uboot_part
unfolding slices slices_from
refuses_uboot = record {
  first = 3;
  blocks = 0 ∷ 0 ∷ [];
  final = 0;
  first_small = omega arith;
  blocks_small = (omega arith, (omega arith, tt));
  final_small = omega arith;
  each_block = refl;
}

abbrev heard_line : Line
heard_line = record {
  reads =
      heard refuses_gsl (received reply ∷ heard refuses_table (expired ∷ heard refuses_uboot []));
  log = [];
}

cv6xx_send_firmware-Returned_example :
    Returned
      (all_done, record { last_board = 1; cpu_id = some 2 })
      []
      (cv6xx_send_firmware boot_file none 1700000000 new_cv6xx heard_line)
cv6xx_send_firmware-Returned_example =
    cv6xx_send_firmware-Returned boot_file none 1700000000 new_cv6xx parts reply told table
      refuses_gsl refuses_table refuses_uboot [] heard_line parsed table_1 reply-told (omega arith)
      (omega arith) (omega arith) (omega arith) refl

cv6xx_send_firmware-cut_example :
    cv6xx_send_firmware (1 ∷ 2 ∷ []) none 0 new_cv6xx heard_line ≡ (err struct_error, heard_line)
cv6xx_send_firmware-cut_example =
    cv6xx_send_firmware-cut (1 ∷ 2 ∷ []) none 0 new_cv6xx heard_line (omega arith)

parse_cv6xx_boot-IsParsed_example : (boot_file ≡ boot_file) × IsParsed parts
parse_cv6xx_boot-IsParsed_example = parse_cv6xx_boot-IsParsed boot_file parts parsed

abbrev wrapped : List ℕ
wrapped = take 36 uboot_part ++ (2 ∷ 0 ∷ 0 ∷ 0 ∷ []) ++ zeros 984 ++ (5 ∷ 6 ∷ [])

wrapping : wrap_cv6xx_payload uboot_part (5 ∷ 6 ∷ []) ≡ ok wrapped
unfolding wrap_cv6xx_payload pack_le le_bytes
wrapping = refl

uboot_section-wrapped_example : uboot_section (gsl_part ++ (wrapped ++ [])) (some 3072) ≡ ok wrapped
uboot_section-wrapped_example =
    uboot_section-wrapped uboot_part (5 ∷ 6 ∷ []) wrapped gsl_part [] wrapping
