-- ===== src/Bootrom/Answered.antt =====
-- A device that acknowledges every frame in the end, also after it refused it up to nine times.
use openipc_defib.Prelude.{
  ℕ, zero, suc, ◌+◌, ◌^◌, ◌<◌, ◌≡◌, refl, ◌∙◌, arith, List, [], ◌∷◌, ◌++◌, append_assoc, length,
  All, Bool, true, false, bytes_eq, ltb,
}
use openipc_defib.Prelude.Result.{Result, ok}
use openipc_defib.Line.{pure, Exec, ◌>>=◌, Read, received, Action, write, Stage, Line, continue}
use openipc_defib.Line.Outcomes.{checked}
use openipc_defib.Slices.{slices}
use openipc_defib.Struct.{pack_be, be_bytes}
use openipc_defib.Crc.{append_crc}
use openipc_defib.Standard.Send.{ack_byte}
use openipc_defib.Bootrom.{
  nak_byte, ack_loop, send_frame_wait_ack, head_frame, data_frame, tail_frame, send_rounds,
  send_body, send_data_to_bootrom, tail_count,
}
use openipc_defib.Bootrom.Rounds.{send_blocks, send_rounds-send_blocks}

-- What the device answers to a frame that it refuses `k` times first.
abbrev pub answer : ℕ → List Read
answer zero = received ack_byte ∷ []
answer (suc k) = received nak_byte ∷ answer k

abbrev pub answers : List ℕ → List Read
answers [] = []
answers (k ∷ ks) = answer k ++ answers ks

-- The step returned True and read just what was for it.
pub record Through (more : List Read) (r : Result Bool × Line) : Type 0 where
  pub returned : r.0 ≡ ok true
  pub left : r.1.reads ≡ more

ack_loop-Through :
    (frame : List ℕ) (left k : ℕ) (more : List Read) (log : List Action)
    → k < left
    → Through more (ack_loop frame left (answer k ++ more) log)
unfolding ack_loop bytes_eq
ack_loop-Through frame zero k more log h = absurd (omega arith)
ack_loop-Through frame (suc left) zero more log h = record { returned = refl; left = refl }
ack_loop-Through frame (suc left) (suc k) more log h =
    ack_loop-Through frame left k more (log ++ write frame ∷ []) (omega arith)

send_frame-Through :
    (frame : List ℕ) (k : ℕ) (more : List Read) (s : Line)
    → k < 10
    → s.reads ≡ answer k ++ more
    → Through more (send_frame_wait_ack frame s)
unfolding send_frame_wait_ack
send_frame-Through frame k more s small e =
    rw e (ack_loop-Through frame 10 k more (s.log ++ write frame ∷ []) small)

abbrev pub IsPatient : List ℕ → Type 0
IsPatient ks = All (λ k. k < 10) ks

-- A test of one frame's result, and the rest.
module _ (more : List Read) (k : Line → Result Bool × Line) where
  checked-Through :
      (rest : List Read) (m : Line → Result Bool × Line) (s : Line)
      → Through rest (m s)
      → ((t : Line) → t.reads ≡ rest → Through more (k t))
      → Through more (checked m k s)
  checked-Through rest m s h next = rw h.returned (next (m s).1 h.left)

  acked-Through :
      (rest : List Read) (r : Result Bool × Line)
      → Through rest r
      → ((t : Line) → t.reads ≡ rest → Through more (k t))
      → Through more (
          continue {B = Bool} r.0
            (λ acked t. elim acked [ false ↦ (ok false, t) | true ↦ k t ])
            r.1)
  acked-Through rest r h next = rw h.returned (next r.1 h.left)

send_blocks-Through :
    (stage : Stage) (total idx pos : ℕ) (chunks : List (List ℕ)) (ks : List ℕ) (more : List Read)
    (s : Line)
    → length ks ≡ length chunks
    → IsPatient ks
    → s.reads ≡ answers ks ++ more
    → Through more (send_blocks stage total idx pos chunks s)
unfolding send_blocks
send_blocks-Through stage total idx pos [] [] more s n p e = record { returned = refl; left = e }
send_blocks-Through stage total idx pos [] (k ∷ ks) more s n p e = absurd (omega arith)
send_blocks-Through stage total idx pos (chunk ∷ chunks) [] more s n p e = absurd (omega arith)
send_blocks-Through stage total idx pos (chunk ∷ chunks) (k ∷ ks) more s n p e =
    acked-Through more (send_blocks stage total (idx + 1) (pos + length chunk) chunks)
      (answers ks ++ more) _
      (send_frame-Through (data_frame (idx + 1) chunk) k (answers ks ++ more) _ p.0
        (e ∙ append_assoc (answer k) (answers ks) more))
      (λ t left.
        send_blocks-Through stage total (idx + 1) (pos + length chunk) chunks ks more t
          (omega arith) p.1 left)

pub packed : (v : ℕ) → v < 2 ^ 32 → pack_be 4 v ≡ ok (be_bytes 4 v)
unfolding pack_be
packed v h = let t : ltb v (256 ^ 4) ≡ true = ground arith in rw t refl

head_frame_made :
    (total address : ℕ)
    → total < 2 ^ 32
    → address < 2 ^ 32
    → (head : List ℕ) × (head_frame total address ≡ ok head)
unfolding head_frame
head_frame_made total address small low = (
  append_crc ((0xfe ∷ 0x00 ∷ 0xff ∷ 0x01 ∷ []) ++ (be_bytes 4 total ++ be_bytes 4 address)),
  rw (packed total small, packed address low, head_frame) refl,
)

-- A device that refuses the HEAD frame, each DATA frame and the TAIL frame of `bytes` at most nine
-- times before it acknowledges it.
pub record Patient (bytes : List ℕ) : Type 0 where
  pub first : ℕ
  pub blocks : List ℕ
  pub final : ℕ
  pub first_small : first < 10
  pub blocks_small : IsPatient blocks
  pub final_small : final < 10
  pub each_block : length blocks ≡ length (slices 1024 bytes)

-- Its answers, and what comes after.
abbrev pub heard : {bytes : List ℕ} → Patient bytes → List Read → List Read
heard d more = answer d.first ++ (answers d.blocks ++ (answer d.final ++ more))

-- A transfer of less than 4 GiB to a 32-bit address returns True if the device refuses the HEAD,
-- each DATA frame and the TAIL at most nine times and then acknowledges it, and it takes no answer
-- that was not for it.
pub send_data_to_bootrom-Through :
    (bytes : List ℕ) (address : ℕ) (stage : Stage) (d : Patient bytes) (more : List Read) (s : Line)
    → length bytes < 2 ^ 32
    → address < 2 ^ 32
    → s.reads ≡ heard d more
    → Through more (send_data_to_bootrom bytes address stage s)
unfolding send_data_to_bootrom send_body
send_data_to_bootrom-Through bytes address stage d more s small low e =
    let (head, made) = head_frame_made (length bytes) address small low in
    let total = length bytes in
    let after_blocks = answer d.final ++ more in
    rw made (
      checked-Through more _ (answers d.blocks ++ after_blocks) (send_frame_wait_ack head) s
        (send_frame-Through head d.first _ s d.first_small e)
        (λ t left.
          checked-Through more _ after_blocks (send_rounds total stage bytes 0 0 total) t
            (rw (send_rounds-send_blocks stage bytes t) (
              send_blocks-Through stage total 0 0 (slices 1024 bytes) d.blocks after_blocks t
                d.each_block d.blocks_small left))
            (λ u rest.
              checked-Through more _ more (send_frame_wait_ack (tail_frame (tail_count total))) u
                (send_frame-Through _ d.final more u d.final_small rest)
                (λ v none_left. record { returned = refl; left = none_left }))))

-- The step returned `a` and read just what was for it.
pub record Returned {ℓ} {A : Type ℓ} (a : A) (more : List Read) (r : Result A × Line) : Type ℓ where
  pub value : r.0 ≡ ok a
  pub left : r.1.reads ≡ more

pub after_true :
    {R : Type 0} (m : Exec Bool) (f : R) (k : Exec R) (a : R) (rest more : List Read) (s : Line)
    → Through rest (m s)
    → ((t : Line) → t.reads ≡ rest → Returned a more (k t))
    → Returned a more ((m >>= λ sent. elim sent [ false ↦ pure f | true ↦ k ]) s)
after_true m f k a rest more s h next = rw h.returned (next (m s).1 h.left)
