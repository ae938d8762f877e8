-- ===== src/Bootrom/Tests.antt =====
-- A transfer of 1030 bytes, whose first DATA frame is refused once.
use openipc_defib.Prelude.{ℕ, refl, arith, List, [], ◌∷◌, replicate}
use openipc_defib.Line.{timed_out, Line, uboot}
use openipc_defib.Slices.{slices, slices_from}
use openipc_defib.Standard.Upload.Device.{Carried}
use openipc_defib.Bootrom.{send_data_to_bootrom}
use openipc_defib.Bootrom.Device.{send_data_to_bootrom-Carried}
use openipc_defib.Bootrom.Answered.{Patient, heard, Through, send_data_to_bootrom-Through}

abbrev image : List ℕ
image = replicate 1030 7

refuses_once : Patient image
unfolding slices slices_from
refuses_once = record {
  first = 0;
  blocks = 1 ∷ 0 ∷ [];
  final = 0;
  first_small = omega arith;
  blocks_small = (omega arith, (omega arith, tt));
  final_small = omega arith;
  each_block = refl;
}

abbrev heard_line : Line
heard_line = record { reads = heard refuses_once (timed_out ∷ []); log = [] }

passes_once : Through (timed_out ∷ []) (send_data_to_bootrom image 0x41000000 uboot heard_line)
passes_once =
    send_data_to_bootrom-Through image 0x41000000 uboot refuses_once (timed_out ∷ []) heard_line
      (omega arith) (omega arith) refl

send_data_to_bootrom-Through_example :
    Through (timed_out ∷ []) (send_data_to_bootrom image 0x41000000 uboot heard_line)
send_data_to_bootrom-Through_example =
    send_data_to_bootrom-Through image 0x41000000 uboot refuses_once (timed_out ∷ []) heard_line
      (omega arith) (omega arith) refl

send_data_to_bootrom-Carried_example :
    Carried image heard_line (send_data_to_bootrom image 0x41000000 uboot heard_line).1
send_data_to_bootrom-Carried_example =
    send_data_to_bootrom-Carried image 0x41000000 uboot heard_line passes_once.returned
