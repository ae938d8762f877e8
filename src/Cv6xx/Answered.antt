-- ===== src/Cv6xx/Answered.antt =====
-- A run with a device that acknowledges every frame in the end and tells its board succeeds.
use openipc_defib.Prelude.{
  ℕ, ◌^◌, ◌<◌, ◌≡◌, refl, arith, List, [], ◌∷◌, ◌++◌, length, true, Option, none, some,
}
use openipc_defib.Prelude.Result.{ok}
use openipc_defib.Line.{
  Read, received, expired, Line, emit, gsl, board_id, ddr_table, ddr_training, uboot, complete,
}
use openipc_defib.Bootrom.{send_data_to_bootrom}
use openipc_defib.Bootrom.Answered.{
  Returned, after_true, Patient, heard, packed, send_data_to_bootrom-Through,
}
use openipc_defib.Cv6xx.Boot.{Cv6xxBootParts, parse_cv6xx_boot, build_ddr_table}
use openipc_defib.Cv6xx.Query.{
  HiSiliconCv6xx, BoardAnswer, board_answer, board_loop, get_board_id, noted,
}
use openipc_defib.Cv6xx.Firmware.{
  gsl_load_addr, ddr_load_addr, uboot_load_addr, Cv6xxResult, training_loop, wait_for_training,
  send_uboot_stage, send_table_stage, query_board, uboot_payload, send_parts, cv6xx_send_firmware,
}

abbrev pub all_done : Cv6xxResult
all_done = record {
  success = true;
  stages_completed = gsl ∷ ddr_table ∷ ddr_training ∷ uboot ∷ complete ∷ [];
  error = none;
}

send_uboot_stage-Returned :
    (payload : List ℕ) (d : Patient payload) (more : List Read) (s : Line)
    → length payload < 2 ^ 32
    → s.reads ≡ heard d more
    → Returned all_done more (send_uboot_stage payload s)
unfolding send_uboot_stage
send_uboot_stage-Returned payload d more s small e =
    after_true (send_data_to_bootrom payload uboot_load_addr uboot) _ _ all_done more more s
      (send_data_to_bootrom-Through payload uboot_load_addr uboot d more s small (omega arith) e)
      (λ t left. record { value = refl; left = left })

send_table_stage-Returned :
    (table payload : List ℕ) (dt : Patient table) (d : Patient payload) (more : List Read)
    (s : Line)
    → length table < 2 ^ 32
    → length payload < 2 ^ 32
    → s.reads ≡ heard dt (expired ∷ heard d more)
    → Returned all_done more (send_table_stage table payload s)
unfolding send_table_stage wait_for_training training_loop
send_table_stage-Returned table payload dt d more s table_small small e =
    after_true (send_data_to_bootrom table ddr_load_addr ddr_table) _ _ all_done
      (expired ∷ heard d more) more s
      (send_data_to_bootrom-Through table ddr_load_addr ddr_table dt (expired ∷ heard d more) s
        table_small (omega arith) e)
      (λ t left. rw left (send_uboot_stage-Returned payload d more _ small refl))

get_board_id-Returned :
    (now : ℕ) (p : HiSiliconCv6xx) (reply : List ℕ) (a : BoardAnswer) (rest : List Read) (s : Line)
    → now < 2 ^ 32
    → board_answer reply ≡ some a
    → s.reads ≡ received reply ∷ rest
    → Returned (noted p (some a)) rest (get_board_id now p s)
unfolding get_board_id board_loop
get_board_id-Returned now p reply a rest s time told e =
    rw (packed now time, e, told, board_loop) (record { value = refl; left = refl })

query_board-Returned :
    (parts : Cv6xxBootParts) (now : ℕ) (p : HiSiliconCv6xx) (reply : List ℕ) (a : BoardAnswer)
    (table : List ℕ) (rest : List Read) (s : Line)
    → now < 2 ^ 32
    → board_answer reply ≡ some a
    → build_ddr_table parts a.board ≡ ok table
    → s.reads ≡ received reply ∷ rest
    → Returned (table, (noted p (some a)).1) rest (query_board parts now p s)
unfolding query_board
query_board-Returned parts now p reply a table rest s time told chosen e =
    let asked =
      get_board_id-Returned now p reply a rest (record s { log = s.log ++ emit board_id 0 1 ∷ [] })
        time told e in
    rw (asked.value, chosen) (record { value = refl; left = asked.left })

-- A boot file that parses, a clock before 2106, and a device that refuses each frame at most nine
-- times before it acknowledges it, answers the question for the board with one read, and is silent
-- until the wait for the DDR training is over: then `send_firmware` reports success and all stages.
pub cv6xx_send_firmware-Returned :
    (firmware : List ℕ) (uboot_override : Option (List ℕ)) (now : ℕ) (p : HiSiliconCv6xx)
    (parts : Cv6xxBootParts) (reply : List ℕ) (a : BoardAnswer) (table : List ℕ)
    (dg : Patient parts.gsl_data) (dt : Patient table)
    (d : Patient (uboot_payload parts uboot_override)) (more : List Read) (s : Line)
    → parse_cv6xx_boot firmware ≡ ok parts
    → build_ddr_table parts a.board ≡ ok table
    → board_answer reply ≡ some a
    → now < 2 ^ 32
    → length parts.gsl_data < 2 ^ 32
    → length table < 2 ^ 32
    → length (uboot_payload parts uboot_override) < 2 ^ 32
    → s.reads ≡ heard dg (received reply ∷ heard dt (expired ∷ heard d more))
    → Returned
        (all_done, (noted p (some a)).1)
        more
        (cv6xx_send_firmware firmware uboot_override now p s)
unfolding cv6xx_send_firmware send_parts
cv6xx_send_firmware-Returned firmware uboot_override now p parts reply a table dg dt d more s parsed
      chosen told time gsl_small table_small small e =
    rw (parsed, cv6xx_send_firmware)
      (after_true (send_data_to_bootrom parts.gsl_data gsl_load_addr gsl) _ _ _
        (received reply ∷ heard dt (expired ∷ heard d more)) more s
        (send_data_to_bootrom-Through parts.gsl_data gsl_load_addr gsl dg _ s gsl_small
          (omega arith) e)
        (λ t left.
          let q = query_board-Returned parts now p reply a table _ t time told chosen left in
          let u =
            send_table_stage-Returned table (uboot_payload parts uboot_override) dt d more
              (query_board parts now p t).1 table_small small q.left in
          rw (q.value, u.value) (record { value = refl; left = u.left })))
