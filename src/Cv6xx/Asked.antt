-- ===== src/Cv6xx/Asked.antt =====
-- The question for the board's number writes one frame, and its answer chooses the DDR table.
use openipc_defib.Prelude.{ℕ, ◌≡◌, refl, sym, ap, ◌∙◌, List, [], ◌∷◌, ◌++◌, inl, inr, append-nil}
use openipc_defib.Prelude.Result.{Result, ok, ok_injective, Option-cases}
use openipc_defib.Struct.{pack_be}
use openipc_defib.Line.{
  Read, received, timed_out, expired, failed, Action, write, flush_input, sleep, Line, emit,
  board_id, lift,
}
use openipc_defib.Line.Outcomes.{bind_ok}
use openipc_defib.Line.Writes.{writes, writes-append}
use openipc_defib.Crc.{append_crc}
use openipc_defib.Cv6xx.Boot.{Cv6xxBootParts, build_ddr_table}
use openipc_defib.Cv6xx.Query.{
  HiSiliconCv6xx, board_answer, give_back, board_loop, get_board_id, cv6xx_boardid_magic, noted,
}
use openipc_defib.Cv6xx.Told.{Told, board_loop-Told}
use openipc_defib.Cv6xx.Firmware.{query_board}

give_back-writes : (bytes : List ℕ) → writes (give_back bytes) ≡ []
give_back-writes [] = refl
give_back-writes (b ∷ bs) = refl

board_loop-writes :
    (buf : List ℕ) (reads : List Read) (log : List Action)
    → writes (board_loop buf reads log).1.log ≡ writes log
unfolding board_loop
board_loop-writes buf [] log = refl
board_loop-writes buf (expired ∷ reads) log = refl
board_loop-writes buf (failed ∷ reads) log = refl
board_loop-writes buf (timed_out ∷ reads) log =
    board_loop-writes buf reads (log ++ sleep ∷ []) ∙ writes-append log _ ∙ append-nil (writes log)
board_loop-writes buf (received bytes ∷ reads) log =
    elim (Option-cases (board_answer (buf ++ bytes))) [
      | inl missing ↦
          rw (missing, board_loop)
            (board_loop-writes (buf ++ bytes) reads (log ++ sleep ∷ [])
              ∙ writes-append log _
              ∙ append-nil (writes log))
      | inr (a, found) ↦
          rw (found, board_loop)
            (writes-append log (give_back a.remaining)
              ∙ rw (give_back-writes a.remaining) (append-nil (writes log)))
    ]

-- The question, at the time in it.
abbrev pub board_question : List ℕ → List ℕ
board_question t_bytes = append_crc (cv6xx_boardid_magic ++ (t_bytes ++ t_bytes))

pub record Queried (parts : Cv6xxBootParts) (now : ℕ) (table : List ℕ) (s s' : Line) : Type 0 where
  pub t_bytes : List ℕ
  pub time : pack_be 4 now ≡ ok t_bytes
  pub asked : writes s'.log ≡ writes s.log ++ board_question t_bytes ∷ []
  pub board : ℕ
  pub told : Told [] s.reads board
  pub chosen : build_ddr_table parts board ≡ ok table

get_board_id-asked :
    (now : ℕ) (p : HiSiliconCv6xx) (s : Line) (found : ℕ × HiSiliconCv6xx)
    → (get_board_id now p s).0 ≡ ok found
    → (t_bytes : List ℕ) × (pack_be 4 now ≡ ok t_bytes)
      × (writes (get_board_id now p s).1.log ≡ writes s.log ++ board_question t_bytes ∷ [])
      × Told [] s.reads found.0
unfolding get_board_id
get_board_id-asked now p s found h =
    let (t_bytes, time, rest) = bind_ok (lift (pack_be 4 now)) _ s found h in
    let log : List Action = (s.log ++ flush_input ∷ []) ++ write (board_question t_bytes) ∷ [] in
    let h₁ = sym (ap (λ (x : Result (ℕ × HiSiliconCv6xx) × Line). x.0) rest) ∙ h in
    let (answer, got, after) =
      bind_ok (λ t. board_loop [] t.reads t.log) _ (record s { log = log }) found h₁ in
    let h₂ = sym (ap (λ (x : Result (ℕ × HiSiliconCv6xx) × Line). x.0) after) ∙ h₁ in
    let named : noted p answer ≡ found = ok_injective h₂ in
    (
      t_bytes,
      time,
      ap (λ (x : Result (ℕ × HiSiliconCv6xx) × Line). writes x.1.log) (rest ∙ after)
          ∙ board_loop-writes [] s.reads log
          ∙ rw (writes-append, writes-append, append-nil) refl,
      rw (← named) (board_loop-Told p [] s.reads log answer got),
    )

pub query_board-Queried :
    (parts : Cv6xxBootParts) (now : ℕ) (p : HiSiliconCv6xx) (s : Line) (q : List ℕ × HiSiliconCv6xx)
    → (query_board parts now p s).0 ≡ ok q
    → Queried parts now q.0 s (query_board parts now p s).1
unfolding query_board
query_board-Queried parts now p s q h =
    let s₁ : Line = record s { log = s.log ++ emit board_id 0 1 ∷ [] } in
    let (found, got, rest) = bind_ok (get_board_id now p) _ s₁ q h in
    let (t_bytes, time, asked, named) = get_board_id-asked now p s₁ found got in
    let s₂ = (get_board_id now p s₁).1 in
    let s₃ : Line = record s₂ { log = s₂.log ++ emit board_id 1 1 ∷ [] } in
    let h₁ = sym (ap (λ (x : Result (List ℕ × HiSiliconCv6xx) × Line). x.0) rest) ∙ h in
    let (table, chosen, after) = bind_ok (lift (build_ddr_table parts found.0)) _ s₃ q h₁ in
    let h₂ = sym (ap (λ (x : Result (List ℕ × HiSiliconCv6xx) × Line). x.0) after) ∙ h₁ in
    let same : table ≡ q.0 = ap (λ (x : List ℕ × HiSiliconCv6xx). x.0) (ok_injective h₂) in
    rw (rest ∙ after) (record {
      t_bytes = t_bytes;
      time = time;
      asked =
          writes-append s₂.log (emit board_id 1 1 ∷ [])
          ∙ append-nil (writes s₂.log)
          ∙ asked
          ∙ ap (λ (x : List (List ℕ)). x ++ board_question t_bytes ∷ [])
              (writes-append s.log (emit board_id 0 1 ∷ []) ∙ append-nil (writes s.log));
      board = found.0;
      told = named;
      chosen = rw same at chosen;
    })
