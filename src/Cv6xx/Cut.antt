-- ===== src/Cv6xx/Cut.antt =====
-- A file that ends before the first magic.
use openipc_defib.Prelude.{ℕ, ◌+◌, ◌<◌, ◌≡◌, refl, arith, List, length, false, leb, Option}
use openipc_defib.Prelude.Result.{err, struct_error}
use openipc_defib.Struct.{unpack_le}
use openipc_defib.Line.{Line}
use openipc_defib.Cv6xx.Boot.{parse_cv6xx_boot}
use openipc_defib.Cv6xx.Query.{HiSiliconCv6xx}
use openipc_defib.Cv6xx.Firmware.{cv6xx_send_firmware}

cut_short :
    (firmware : List ℕ) → length firmware < 2052 → parse_cv6xx_boot firmware ≡ err struct_error
unfolding parse_cv6xx_boot unpack_le
cut_short firmware short =
    let past : leb (2048 + 4) (length firmware) ≡ false = ground arith in rw past refl

-- A file of less than 2052 bytes makes `send_firmware` raise `struct.error`, with nothing sent, where
-- a file with a wrong magic makes it report a failure.
pub cv6xx_send_firmware-cut :
    (firmware : List ℕ) (uboot_override : Option (List ℕ)) (now : ℕ) (p : HiSiliconCv6xx) (s : Line)
    → length firmware < 2052
    → cv6xx_send_firmware firmware uboot_override now p s ≡ (err struct_error, s)
unfolding cv6xx_send_firmware
cv6xx_send_firmware-cut firmware uboot_override now p s short =
    rw (cut_short firmware short, cv6xx_send_firmware) refl
