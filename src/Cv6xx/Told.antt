-- ===== src/Cv6xx/Told.antt =====
-- Which board the device has named: the answer that the question's loop takes from the reads.
use openipc_defib.Prelude.{
  ℕ, ◌+◌, ◌≤◌, ◌≡◌, sym, ap, arith, List, [], ◌∷◌, ◌++◌, length, get_or, slice, true, leb, ◌==◌,
  ◌&&◌, none, some, Option, inl, inr, Bool-cases,
}
use openipc_defib.Prelude.Result.{ok, ok_injective, Option-cases}
use openipc_defib.Struct.{be_value}
use openipc_defib.Search.{Found, find_in, find_in-Found, find_in-none, Found-unique}
use openipc_defib.Line.{Read, received, timed_out, expired, failed, Action, sleep}
use openipc_defib.Cv6xx.Query.{HiSiliconCv6xx, BoardAnswer, board_answer, board_loop, noted}

-- An answer in the buffer: eleven bytes from the first 0xCE on, the last of them 0xAA, and the
-- board's number in the four bytes from the fifth on.
pub record IsAnswer (buf : List ℕ) (board : ℕ) : Type 0 where
  pub at : ℕ
  pub first : Found (0xce ∷ []) buf at
  pub whole : at + 11 ≤ length buf
  pub acknowledged : get_or buf (at + 10) 0 ≡ 0xaa
  pub number : board ≡ be_value (slice 4 4 (slice at 11 buf))

-- The board that the reads name, with `buf` read before: the one of the first answer, and 0 if the
-- time is over before there is one.
pub data Told : List ℕ → List Read → ℕ → Type 0 where
  over : {buf : List ℕ} → Told buf [] 0
  late : {buf : List ℕ} {reads : List Read} → Told buf (expired ∷ reads) 0
  silence :
      {buf : List ℕ} {reads : List Read} {board : ℕ}
      → Told buf reads board
      → Told buf (timed_out ∷ reads) board
  unfinished :
      {buf bytes : List ℕ} {reads : List Read} {board : ℕ}
      → ((n : ℕ) → ¬ IsAnswer (buf ++ bytes) n)
      → Told (buf ++ bytes) reads board
      → Told buf (received bytes ∷ reads) board
  answered :
      {buf bytes : List ℕ} {reads : List Read} {board : ℕ}
      → IsAnswer (buf ++ bytes) board
      → Told buf (received bytes ∷ reads) board

board_answer-IsAnswer :
    (buf : List ℕ) (a : BoardAnswer) → board_answer buf ≡ some a → IsAnswer buf a.board
unfolding board_answer
board_answer-IsAnswer buf a h = elim (Option-cases (find_in (0xce ∷ []) buf)) [
  | inl nowhere ↦ absurd (cc (rw (nowhere, board_answer) at h))
  | inr (at, there) ↦
      elim (Bool-cases (leb (at + 11) (length buf) && get_or buf (at + 10) 0 == 0xaa)) [
        | inr bad ↦ absurd (cc (rw (there, bad, board_answer) at h))
        | inl good ↦ record {
          at = at;
          first = find_in-Found (0xce ∷ []) buf at there;
          whole = ground arith;
          acknowledged = ground arith;
          number = let same = rw (there, good, board_answer) at h in sym (ap board_of same);
        }
      ]
]
  where
    board_of : Option BoardAnswer → ℕ
    board_of none = 0
    board_of (some x) = x.board

board_answer-missing : (buf : List ℕ) (n : ℕ) → board_answer buf ≡ none → ¬ IsAnswer buf n
unfolding board_answer
board_answer-missing buf n h a = elim (Option-cases (find_in (0xce ∷ []) buf)) [
  | inl nowhere ↦ cc (a.first.there, find_in-none (0xce ∷ []) buf a.at nowhere)
  | inr (at, there) ↦
      let same : at ≡ a.at =
        Found-unique (0xce ∷ []) buf at a.at (find_in-Found (0xce ∷ []) buf at there) a.first in
      let good : (leb (at + 11) (length buf) && get_or buf (at + 10) 0 == 0xaa) ≡ true =
        rw same (ground (arith, a.whole, a.acknowledged)) in
      cc (rw (there, good, board_answer) at h)
]

pub board_loop-Told :
    (p : HiSiliconCv6xx) (buf : List ℕ) (reads : List Read) (log : List Action)
    (answer : Option BoardAnswer)
    → (board_loop buf reads log).0 ≡ ok answer
    → Told buf reads (noted p answer).0
unfolding board_loop
board_loop-Told p buf [] log answer h = rw (← ok_injective h) over
board_loop-Told p buf (expired ∷ reads) log answer h = rw (← ok_injective h) late
board_loop-Told p buf (failed ∷ reads) log answer h = cc
board_loop-Told p buf (timed_out ∷ reads) log answer h =
    silence (board_loop-Told p buf reads (log ++ sleep ∷ []) answer h)
board_loop-Told p buf (received bytes ∷ reads) log answer h =
    elim (Option-cases (board_answer (buf ++ bytes))) [
      | inl missing ↦
          unfinished (λ n. board_answer-missing (buf ++ bytes) n missing)
            (board_loop-Told p (buf ++ bytes) reads (log ++ sleep ∷ []) answer
              (rw (missing, board_loop) at h))
      | inr (a, found) ↦
          let same = ok_injective (rw (found, board_loop) at h) in
          rw (← same) (answered (board_answer-IsAnswer (buf ++ bytes) a found))
    ]
