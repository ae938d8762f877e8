-- ===== src/Bootrom/Upload.antt =====
-- A transfer that succeeds carries its data: HEAD, the blocks in order, TAIL, each frame at least
-- once, and a device that takes each number once gets the data back.
use openipc_defib.Prelude.{
  ℕ, ◌+◌, ◌≡◌, refl, subst, ◌∙◌, List, [], ◌∷◌, ◌++◌, append-nil, length, Bool, true, false,
}
use openipc_defib.Prelude.Result.{Result, ok, err}
use openipc_defib.Line.{emit, Stage, Line, continue}
use openipc_defib.Line.Writes.{writes, writes-append}
use openipc_defib.Line.Outcomes.{checked_lem, lifted_lem}
use openipc_defib.Slices.{slices}
use openipc_defib.Frames.{encode_data}
use openipc_defib.Standard.Upload.Delivery.{Wrote, Wrote-trans, Wrote-none, data_frames}
use openipc_defib.Bootrom.{
  send_frame_wait_ack, head_frame, data_frame, tail_frame, send_rounds, send_body,
  send_data_to_bootrom, tail_count,
}
use openipc_defib.Bootrom.Rounds.{
  send_blocks, data_frame-encode_data, send_rounds-send_blocks, tail_count-slices,
}
use openipc_defib.Bootrom.Delivery.{send_frame_wait_ack-Wrote}

module _ (stage : Stage) (total idx pos : ℕ) (chunks : List (List ℕ)) where
  acked_step :
      (frame : List ℕ) (fs : List (List ℕ)) (s : Line) (r : Result Bool) (s' : Line)
      → ((t : Line)
          → (send_blocks stage total idx pos chunks t).0 ≡ ok true
          → Wrote fs t (send_blocks stage total idx pos chunks t).1)
      → Wrote (frame ∷ []) s s'
      → (continue {B = Bool} r
          (λ acked t. elim acked [
            | false ↦ (ok false, t)
            | true ↦ send_blocks stage total idx pos chunks t
          ])
          s').0
        ≡ ok true
      → Wrote
          (frame ∷ fs)
          s
          (continue {B = Bool} r
            (λ acked t. elim acked [
              | false ↦ (ok false, t)
              | true ↦ send_blocks stage total idx pos chunks t
            ])
            s').1
  acked_step frame fs s (err e) s' ih w h = cc
  acked_step frame fs s (ok false) s' ih w h = cc
  acked_step frame fs s (ok true) s' ih w h = Wrote-trans s s' _ w (ih s' h)

pub emitted :
    (stage : Stage) (sent total : ℕ) (s : Line)
    → Wrote [] s (record s { log = s.log ++ emit stage sent total ∷ [] })
emitted stage sent total s =
    Wrote-none s (record s { log = s.log ++ emit stage sent total ∷ [] })
      (writes-append s.log _ ∙ append-nil (writes s.log))

send_blocks-Wrote :
    (stage : Stage) (total idx pos : ℕ) (chunks : List (List ℕ)) (s : Line)
    → (send_blocks stage total idx pos chunks s).0 ≡ ok true
    → Wrote (data_frames (idx + 1) chunks) s (send_blocks stage total idx pos chunks s).1
unfolding send_blocks data_frames
send_blocks-Wrote stage total idx pos [] s h = Wrote-none s s refl
send_blocks-Wrote stage total idx pos (chunk ∷ chunks) s h =
    let s₁ : Line = record s { log = s.log ++ emit stage (pos + length chunk) total ∷ [] } in
    let sent = send_frame_wait_ack (data_frame (idx + 1) chunk) s₁ in
    Wrote-trans s s₁ _ (emitted stage (pos + length chunk) total s) (
      acked_step stage total (idx + 1) (pos + length chunk) chunks
        (encode_data (record { seq = idx + 1; payload = chunk })) (data_frames (idx + 1 + 1) chunks)
        s₁ sent.0 sent.1
        (λ t. send_blocks-Wrote stage total (idx + 1) (pos + length chunk) chunks t)
        (subst (λ (f : List ℕ). Wrote (f ∷ []) s₁ sent.1) (data_frame-encode_data (idx + 1) chunk)
          (send_frame_wait_ack-Wrote (data_frame (idx + 1) chunk) s₁))
        h)

send_rounds-Wrote :
    (stage : Stage) (bytes : List ℕ) (s : Line)
    → (send_rounds (length bytes) stage bytes 0 0 (length bytes) s).0 ≡ ok true
    → Wrote
        (data_frames 1 (slices 1024 bytes))
        s
        (send_rounds (length bytes) stage bytes 0 0 (length bytes) s).1
send_rounds-Wrote stage bytes s h =
    let e = send_rounds-send_blocks stage bytes s in
    rw e (send_blocks-Wrote stage (length bytes) 0 0 (slices 1024 bytes) s (rw e at h))

-- The blocks and then the TAIL frame.
pub record BodySent (bytes : List ℕ) (s s' : Line) : Type 0 where
  pub middle : Line
  pub blocks : Wrote (data_frames 1 (slices 1024 bytes)) s middle
  pub tail : Wrote (tail_frame (length (slices 1024 bytes) + 1) ∷ []) middle s'

send_body-BodySent :
    (bytes : List ℕ) (stage : Stage) (s : Line)
    → (send_body bytes stage s).0 ≡ ok true
    → BodySent bytes s (send_body bytes stage s).1
unfolding send_body
send_body-BodySent bytes stage s h =
    let P = λ (r : Result Bool × Line). BodySent bytes s r.1 in
    let total = length bytes in
    let tail = tail_frame (tail_count total) in
    let rounds = send_rounds total stage bytes 0 0 total in
    let s₁ = (rounds s).1 in
    let s₂ = (send_frame_wait_ack tail s₁).1 in
    checked_lem P rounds _ s
      (λ sent. checked_lem P (send_frame_wait_ack tail) _ s₁ (λ ended done.
        let numbered =
          subst (λ (n : ℕ). Wrote (tail_frame n ∷ []) s₁ s₂) (tail_count-slices bytes)
            (send_frame_wait_ack-Wrote tail s₁) in
        let whole = Wrote-trans s₁ s₂ _ numbered (emitted stage total total s₂) in
        record {
          middle = s₁;
          blocks = send_rounds-Wrote stage bytes s sent;
          tail = rw append-nil at whole;
        }))
      h

-- A transfer that succeeded.
pub record Uploaded (bytes : List ℕ) (address : ℕ) (s s' : Line) : Type 0 where
  pub head : List ℕ
  pub announced : head_frame (length bytes) address ≡ ok head
  pub after_head : Line
  pub head_sent : Wrote (head ∷ []) s after_head
  pub body : BodySent bytes after_head s'

pub send_data_to_bootrom-Uploaded :
    (bytes : List ℕ) (address : ℕ) (stage : Stage) (s : Line)
    → (send_data_to_bootrom bytes address stage s).0 ≡ ok true
    → Uploaded bytes address s (send_data_to_bootrom bytes address stage s).1
unfolding send_data_to_bootrom
send_data_to_bootrom-Uploaded bytes address stage s h =
    let P = λ (r : Result Bool × Line). Uploaded bytes address s r.1 in
    lifted_lem P (head_frame (length bytes) address) _ s
      (λ head announced. checked_lem P (send_frame_wait_ack head) _ s (λ acked done. record {
        head = head;
        announced = announced;
        after_head = _;
        head_sent = send_frame_wait_ack-Wrote head s;
        body = send_body-BodySent bytes stage (send_frame_wait_ack head s).1 done;
      }))
      h
