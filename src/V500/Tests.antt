-- ===== src/V500/Tests.antt =====
-- An image of 1028 bytes without an AUX area.
use openipc_defib.Prelude.{ℕ, ◌≡◌, refl, arith, List, [], ◌∷◌, replicate}
use openipc_defib.Prelude.Result.{ok}
use openipc_defib.Struct.{unpack_le, le_value}
use openipc_defib.Line.{timed_out, Line}
use openipc_defib.Slices.{slices, slices_from}
use openipc_defib.Bootrom.Answered.{Patient, heard, Returned}
use openipc_defib.V500.{v500_send_firmware}
use openipc_defib.V500.Flash.{all_stages, V500Flashed, v500_send_firmware-V500Flashed}
use openipc_defib.V500.Answered.{flashed_all, v500_send_firmware-Returned}

abbrev image : List ℕ
image = replicate 1028 0

announced : unpack_le 4 1024 image ≡ ok 0
unfolding unpack_le le_value
announced = refl

patient : Patient image
unfolding slices slices_from
patient = record {
  first = 0;
  blocks = 0 ∷ 2 ∷ [];
  final = 0;
  first_small = omega arith;
  blocks_small = (omega arith, (omega arith, tt));
  final_small = omega arith;
  each_block = refl;
}

refuses_empty : Patient []
unfolding slices slices_from
refuses_empty = record {
  first = 1;
  blocks = [];
  final = 0;
  first_small = omega arith;
  blocks_small = tt;
  final_small = omega arith;
  each_block = refl;
}

abbrev heard_line : Line
heard_line = record {
  reads = heard patient (heard refuses_empty (heard patient (timed_out ∷ [])));
  log = [];
}

image_ends : Returned flashed_all (timed_out ∷ []) (v500_send_firmware image heard_line)
image_ends =
    v500_send_firmware-Returned image 0 patient refuses_empty patient (timed_out ∷ []) heard_line
      announced (omega arith) refl

v500_send_firmware-V500Flashed_example :
    V500Flashed image heard_line (v500_send_firmware image heard_line).1
    × (flashed_all.stages_completed ≡ all_stages)
v500_send_firmware-V500Flashed_example =
    v500_send_firmware-V500Flashed image heard_line flashed_all image_ends.value refl
