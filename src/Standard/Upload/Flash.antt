-- ===== src/Standard/Upload/Flash.antt =====
-- What a U-Boot upload that succeeds did.
use openipc_defib.Prelude.{ℕ, ◌+◌, ◌≡◌, ◌∙◌, List, [], ◌∷◌, ◌++◌, Bool, true, length, append-nil}
use openipc_defib.Prelude.Result.{Result, ok, err}
use openipc_defib.Line.{Line, uboot, emit, Exec, continue, perform, pure, ◌>>=◌, ◌>>◌}
use openipc_defib.Line.Outcomes.{checked_lem, lifted_lem}
use openipc_defib.Line.Writes.{writes, writes-append}
use openipc_defib.Frames.{encode_head, encode_tail, chunk_data, max_data_len}
use openipc_defib.Standard.Image.{zero_long_ff_runs}
use openipc_defib.Standard.Send.{send_frame_with_retry, send_tail}
use openipc_defib.Standard.Upload.{Profile, reenter, send_chunks, send_uboot}
use openipc_defib.Standard.Upload.Reentry.{Reentered, reenter-Reentered}
use openipc_defib.Standard.Upload.Delivery.{
  data_frames, Wrote, Wrote-trans, Wrote-none, send_frame-Wrote, send_chunks-Wrote,
}

-- The image that goes out, and the line when the device has been brought back to download mode.
abbrev pub sent_image : List ℕ → List ℕ
sent_image firmware = zero_long_ff_runs firmware 12

abbrev pub begun : List ℕ → Line → Line
begun firmware s = record s { log = s.log ++ emit uboot 0 (length (sent_image firmware)) ∷ [] }

-- From the moment the device was back: HEAD, the chunks, TAIL.
pub record Flashed (firmware : List ℕ) (profile : Profile) (s s' : Line) : Type 0 where
  pub start : Line
  pub entered : Reentered profile (begun firmware s) start
  pub head : List ℕ
  pub announced :
      encode_head
        (record { length = length (sent_image firmware); address = profile.uboot_address })
      ≡ ok head
  pub chunks : List (List ℕ)
  pub cut : chunk_data (sent_image firmware) max_data_len ≡ ok chunks
  pub wrote :
      Wrote
        (head ∷ (data_frames 1 chunks ++ (encode_tail (record { seq = length chunks + 1 }) ∷ [])))
        start
        s'

abbrev Flashed' : List ℕ → Profile → Line → Result Bool × Line → Type 0
Flashed' firmware profile s r = Flashed firmware profile s r.1

send_tail-Wrote :
    (seq : ℕ) (s : Line) → Wrote (encode_tail (record { seq = seq }) ∷ []) s (send_tail seq s).1
unfolding send_tail
send_tail-Wrote seq s = send_frame-Wrote (encode_tail (record { seq = seq })) 15 s

-- TAIL, whose answer is not looked at.
finished : ℕ → ℕ → Exec Bool
finished total seq = do _ ← send_tail seq; perform (emit uboot total total); pure true

finished_step :
    (total : ℕ) (s : Line) (frames : List (List ℕ)) (r : Result Bool) (s' : Line)
    → Wrote frames s s'
    → (continue r (λ b. perform (emit uboot total total) >> pure true) s').0 ≡ ok true
    → Wrote frames s (continue r (λ b. perform (emit uboot total total) >> pure true) s').1
finished_step total s frames (err e) s' w h = cc
finished_step total s frames (ok b) s' w h =
    let t : Line = record s' { log = s'.log ++ emit uboot total total ∷ [] } in
    let all : Wrote (frames ++ []) s t =
      Wrote-trans s s' t w
        (Wrote-none s' t (writes-append s'.log _ ∙ append-nil (writes s'.log))) in
    rw append-nil at all

finished-Wrote :
    (total seq : ℕ) (s : Line)
    → (finished total seq s).0 ≡ ok true
    → Wrote (encode_tail (record { seq = seq }) ∷ []) s (finished total seq s).1
unfolding finished
finished-Wrote total seq s h =
    finished_step total s _ (send_tail seq s).0 (send_tail seq s).1 (send_tail-Wrote seq s) h

-- If `_send_uboot` returns True, then the device was brought back (a chip with a PRESTEP0 has
-- acknowledged a blast, from any other one the markers were awaited, with or without success), the
-- HEAD frame and the chunks of the cleaned image could be made, and from there on exactly HEAD, the
-- DATA frames in order and TAIL were written, each once or more.
pub send_uboot-Flashed :
    (firmware : List ℕ) (profile : Profile) (s : Line)
    → (send_uboot firmware profile s).0 ≡ ok true
    → Flashed firmware profile s (send_uboot firmware profile s).1
unfolding send_uboot finished
send_uboot-Flashed firmware profile s =
    let image = sent_image firmware in
    let P = Flashed' firmware profile s in
    let s₁ = (reenter profile (begun firmware s)).1 in
    checked_lem P (reenter profile) _ (begun firmware s) (λ entered.
      lifted_lem P (encode_head _) _ s₁ (λ head announced.
        let sent = send_frame_with_retry head 64 in
        let s₂ = (sent s₁).1 in
        checked_lem P sent _ s₁ (λ acked.
          lifted_lem P (chunk_data image max_data_len) _ s₂ (λ chunks cut.
            let upload = send_chunks uboot (length image) 1 chunks in
            let s₃ = (upload s₂).1 in
            checked_lem P upload (finished (length image) (length chunks + 1)) s₂ (λ all h. record {
              start = s₁;
              entered = reenter-Reentered profile (begun firmware s) entered;
              head = head;
              announced = announced;
              chunks = chunks;
              cut = cut;
              wrote = Wrote-trans s₁ s₂ _ (send_frame-Wrote head 63 s₁) (
                  Wrote-trans s₂ s₃ _ (send_chunks-Wrote uboot (length image) 1 chunks s₂ all)
                    (finished-Wrote (length image) (length chunks + 1) s₃ h));
            })))))
