-- ===== src/Bootrom/Rounds.antt =====
-- The loop over position and rest sends the blocks of the data, under numbers from 1 on.
use openipc_defib.Prelude.{
  ℕ, zero, suc, ◌+◌, ◌-◌, ◌≤◌, ◌≡◌, refl, sym, ap, ap₂, ◌∙◌, arith, min, List, [], ◌∷◌, ◌++◌,
  length, slice, Bool, true, false, ltb, Bool-cases, inl, inr,
}
use openipc_defib.Prelude.Result.{Result, ok, err, Result-cases}
use openipc_defib.Crc.{append_crc}
use openipc_defib.Slices.{
  block_at, length-block_at, next_blocks, slices, slices_from, length-slices,
}
use openipc_defib.Frames.{encode_head, encode_data, encode_tail}
use openipc_defib.Struct.{pack_be}
use openipc_defib.Line.{Stage, Line, Exec, emit, continue}
use openipc_defib.Bootrom.{
  head_frame, data_frame, tail_frame, send_frame_wait_ack, send_rounds, tail_count,
}

-- The frames are those of src/defib/protocol/frames.py.
pub head_frame-encode_head :
    (total address : ℕ)
    → head_frame total address ≡ encode_head (record { length = total; address = address })
unfolding head_frame encode_head append_crc
head_frame-encode_head total address = elim (Result-cases (pack_be 4 total)) [
  | inr (e, h) ↦ rw (h, head_frame, encode_head) refl
  | inl (len, h) ↦ elim (Result-cases (pack_be 4 address)) [
    | inr (e, g) ↦ rw (h, g, head_frame, encode_head) refl
    | inl (addr, g) ↦ rw (h, g, head_frame, encode_head) refl
  ]
]

pub data_frame-encode_data :
    (idx : ℕ) (chunk : List ℕ)
    → data_frame idx chunk ≡ encode_data (record { seq = idx; payload = chunk })
unfolding data_frame encode_data append_crc
data_frame-encode_data idx chunk = refl

pub tail_frame-encode_tail : (count : ℕ) → tail_frame count ≡ encode_tail (record { seq = count })
unfolding tail_frame encode_tail append_crc
tail_frame-encode_tail count = refl

-- The rounds by the blocks that are left.
unfoldable pub send_blocks : Stage → ℕ → ℕ → ℕ → List (List ℕ) → Exec Bool
send_blocks stage total idx pos [] s = (ok true, s)
send_blocks stage total idx pos (chunk ∷ chunks) s =
    let (r, s') =
      send_frame_wait_ack (data_frame (idx + 1) chunk)
        (record s { log = s.log ++ emit stage (pos + length chunk) total ∷ [] }) in
    continue r
      (λ acked s''. elim acked [
        | false ↦ (ok false, s'')
        | true ↦ send_blocks stage total (idx + 1) (pos + length chunk) chunks s''
      ])
      s'

module _ (f g : Line → Result Bool × Line) (same : (s : Line) → f s ≡ g s) where
  continue-acked :
      (r : Result Bool) (s : Line)
      → continue r (λ acked t. elim acked [ false ↦ (ok false, t) | true ↦ f t ]) s
        ≡ continue {B = Bool} r (λ acked t. elim acked [ false ↦ (ok false, t) | true ↦ g t ]) s
  continue-acked (err e) s = refl
  continue-acked (ok false) s = refl
  continue-acked (ok true) s = same s

send_rounds-from :
    (fuel : ℕ) (stage : Stage) (bytes : List ℕ) (idx pos remaining : ℕ) (s : Line)
    → remaining ≡ length bytes - pos
    → length bytes ≤ pos + fuel
    → send_rounds fuel stage bytes idx pos remaining s
      ≡ send_blocks stage (length bytes) idx pos (slices_from fuel 1024 pos bytes) s
unfolding send_rounds send_blocks slices_from
send_rounds-from zero stage bytes idx pos remaining s rem enough =
    let none_left : ltb 0 remaining ≡ false = ground arith in rw none_left refl
send_rounds-from (suc fuel) stage bytes idx pos remaining s rem enough =
    elim (Bool-cases (ltb pos (length bytes))) [
      | inr past ↦
          let none_left : ltb 0 remaining ≡ false = ground arith in rw (none_left, past) refl
      | inl more ↦
          let some_left : ltb 0 remaining ≡ true = ground arith in
          let chunk = slice pos 1024 bytes in
          let n = min 1024 remaining in
          let size : length chunk ≡ n = length-block_at 1024 pos bytes ∙ ap (min 1024) (sym rem) in
          let block : slice pos n bytes ≡ chunk = rw rem (block_at 1024 pos bytes) in
          let after : slices_from fuel 1024 (pos + n) bytes
              ≡ slices_from fuel 1024 (pos + 1024) bytes =
            rw rem (next_blocks fuel 1024 pos bytes) in
          rw (some_left, more, block, ← size)
            (continue-acked (send_rounds fuel stage bytes (idx + 1) (pos + n) (remaining - n))
              (send_blocks stage (length bytes) (idx + 1) (pos + length chunk)
                (slices_from fuel 1024 (pos + 1024) bytes))
              (λ t.
                send_rounds-from fuel stage bytes (idx + 1) (pos + n) (remaining - n) t
                  (omega arith) (omega arith)
                ∙ ap₂
                    (λ (p : ℕ) (cs : List (List ℕ)).
                      send_blocks stage (length bytes) (idx + 1) p cs t)
                    (ap (λ (k : ℕ). pos + k) (sym size)) after)
              _ _)
    ]

-- The loop sends the blocks of 1024 bytes that the other protocol sends.
pub send_rounds-send_blocks :
    (stage : Stage) (bytes : List ℕ) (s : Line)
    → send_rounds (length bytes) stage bytes 0 0 (length bytes) s
      ≡ send_blocks stage (length bytes) 0 0 (slices 1024 bytes) s
unfolding slices
send_rounds-send_blocks stage bytes s =
    send_rounds-from (length bytes) stage bytes 0 0 (length bytes) s (omega arith) (omega arith)

-- The TAIL frame has the number after the last DATA frame.
pub tail_count-slices :
    (bytes : List ℕ) → tail_count (length bytes) ≡ length (slices 1024 bytes) + 1
tail_count-slices bytes = omega (arith, length-slices 1024 bytes (omega arith))
