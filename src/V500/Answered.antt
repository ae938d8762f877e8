-- ===== src/V500/Answered.antt =====
-- A run with a device that acknowledges every frame in the end succeeds.
use openipc_defib.Prelude.{
  ℕ, ◌^◌, ◌<◌, ◌≡◌, refl, arith, List, [], ◌∷◌, ◌++◌, length, length-take, length-drop, slice, take,
  drop, true, none,
}
use openipc_defib.Prelude.Result.{ok}
use openipc_defib.Struct.{unpack_le}
use openipc_defib.Line.{Read, Line, sleep, head_area, aux_area, boot_image}
use openipc_defib.Bootrom.{send_data_to_bootrom}
use openipc_defib.Bootrom.Answered.{
  Returned, after_true, Patient, heard, send_data_to_bootrom-Through,
}
use openipc_defib.V500.{
  boot_load_addr, V500Result, send_boot_image, send_aux_area, v500_send_firmware,
}
use openipc_defib.V500.Flash.{all_stages}

abbrev pub flashed_all : V500Result
flashed_all = record { success = true; stages_completed = all_stages; error = none }

-- An image of less than 4 GiB with the AUX length in it, and a device that refuses each frame at
-- most nine times before it acknowledges it: then `send_firmware` reports success and all stages.
pub v500_send_firmware-Returned :
    (firmware : List ℕ) (aux_len : ℕ) (dh : Patient (take 8192 firmware))
    (da : Patient (slice 8192 aux_len firmware)) (d : Patient firmware) (more : List Read)
    (s : Line)
    → unpack_le 4 1024 firmware ≡ ok aux_len
    → length firmware < 2 ^ 32
    → s.reads ≡ heard dh (heard da (heard d more))
    → Returned flashed_all more (v500_send_firmware firmware s)
unfolding v500_send_firmware send_aux_area send_boot_image
v500_send_firmware-Returned firmware aux_len dh da d more s announced small e =
    let head = take 8192 firmware in
    let aux = slice 8192 aux_len firmware in
    after_true (send_data_to_bootrom head 0 head_area) _ _ flashed_all (heard da (heard d more))
      more s
      (send_data_to_bootrom-Through head 0 head_area dh _ s
        (omega (arith, length-take 8192 firmware)) (omega arith) e)
      (λ t left. rw announced (
        after_true (send_data_to_bootrom aux 8192 aux_area) _ _ flashed_all (heard d more) more t
          (send_data_to_bootrom-Through aux 8192 aux_area da _ t
            (omega (arith, length-take aux_len (drop 8192 firmware), length-drop 8192 firmware))
            (omega arith) left)
          (λ u rest.
            after_true (send_data_to_bootrom firmware boot_load_addr boot_image) _ _ flashed_all
              more more (record u { log = u.log ++ sleep ∷ [] })
              (send_data_to_bootrom-Through firmware boot_load_addr boot_image d more _ small
                (omega arith) rest)
              (λ v none_left. record { value = refl; left = none_left }))))
