-- ===== src/Standard/Upload/Device.antt =====
-- What a device makes of the DATA frames of an upload, frames sent again included.
use openipc_defib.Prelude.{
  ℕ, ◌+◌, ◌<◌, ◌≡◌, refl, ap, ◌∙◌, arith, List, [], ◌∷◌, ◌++◌, true, ◌==◌, if◌then◌else◌, Option,
  none, some, length, All,
}
use openipc_defib.Prelude.Result.{ok, err}
use openipc_defib.Prelude.Bits.{u8}
use openipc_defib.Line.{Line, Stage}
use openipc_defib.Line.Writes.{writes}
use openipc_defib.Slices.{join, IsBlock}
use openipc_defib.Frames.{encode_data, decode_data, chunk_data}
use openipc_defib.Frames.RoundTrip.{decode_data-encode_data}
use openipc_defib.Frames.Chunks.{chunk_data-IsChunking}
use openipc_defib.Standard.Upload.{send_chunks}
use openipc_defib.Standard.Upload.Delivery.{
  Delivered, done, again, last, data_frames, send_chunks-Wrote,
}

-- The payload of a frame that decodes and has the number that the receiver expects.
unfoldable pub taken : ℕ → List ℕ → Option (List ℕ)
taken expected frame = elim (decode_data frame) [
  | ok f ↦ if f.seq == u8 expected then some f.payload else none
  | err e ↦ none
]

-- A receiver that drops every other frame, among them those that are sent again.
unfoldable pub reassemble : ℕ → List (List ℕ) → List ℕ
reassemble expected [] = []
reassemble expected (frame ∷ frames) = elim (taken expected frame) [
  | some payload ↦ payload ++ reassemble (expected + 1) frames
  | none ↦ reassemble expected frames
]

abbrev numbered : ℕ → List ℕ → List ℕ
numbered seq chunk = encode_data (record { seq = seq; payload = chunk })

taken-numbered :
    (seq : ℕ) (chunk : List ℕ) → 0 < length chunk → taken seq (numbered seq chunk) ≡ some chunk
unfolding taken
taken-numbered seq chunk pos =
    ground (arith, decode_data-encode_data (record { seq = seq; payload = chunk }))

-- A frame that comes again is not taken again.
taken-before : (seq : ℕ) (chunk : List ℕ) → taken (seq + 1) (numbered seq chunk) ≡ none
unfolding taken
taken-before seq chunk =
    ground (arith, decode_data-encode_data (record { seq = seq; payload = chunk }))

module _ (expected : ℕ) (frame : List ℕ) (frames : List (List ℕ)) where
  reassemble_taken :
      (payload : List ℕ)
      → taken expected frame ≡ some payload
      → reassemble expected (frame ∷ frames) ≡ payload ++ reassemble (expected + 1) frames
  unfolding reassemble
  reassemble_taken payload e = rw (e, reassemble)

  pub reassemble_dropped :
      taken expected frame ≡ none
      → reassemble expected (frame ∷ frames) ≡ reassemble expected frames
  unfolding reassemble
  reassemble_dropped e = rw (e, reassemble)

abbrev IsFilled : List ℕ → Type 0
IsFilled chunk = 0 < length chunk

-- The frames of `chunks`: what a receiver makes of them that has seen none, and one that has just
-- taken the first.
abbrev Reassembled : List (List ℕ) → List (List ℕ) → Type 0
Reassembled fs ws =
    ((seq : ℕ) (chunks : List (List ℕ))
      → All IsFilled chunks
      → fs ≡ data_frames seq chunks
      → reassemble seq ws ≡ join chunks)
    × ((seq : ℕ) (chunk : List ℕ) (chunks : List (List ℕ))
        → All IsFilled chunks
        → fs ≡ numbered seq chunk ∷ data_frames (seq + 1) chunks
        → reassemble (seq + 1) ws ≡ join chunks)

module _ (f : List ℕ) (fs ws : List (List ℕ)) where
  -- The first frame, with what the receiver makes of the rest.
  first :
      (seq : ℕ) (chunks : List (List ℕ))
      → All IsFilled chunks
      → f ∷ fs ≡ data_frames seq chunks
      → ((chunk : List ℕ) (rest : List (List ℕ))
          → All IsFilled rest
          → f ∷ fs ≡ numbered seq chunk ∷ data_frames (seq + 1) rest
          → reassemble (seq + 1) ws ≡ join rest)
      → reassemble seq (f ∷ ws) ≡ join chunks
  unfolding data_frames
  first seq [] filled e next = cc
  first seq (c ∷ cs) (pos, filled) e next =
      let here : f ≡ numbered seq c = cc in
      rw (here) (
        reassemble_taken seq (numbered seq c) ws c (taken-numbered seq c pos)
        ∙ ap (λ (t : List ℕ). c ++ t) (next c cs filled e))

  -- The first frame once more.
  repeated :
      (seq : ℕ) (chunk : List ℕ) (rest : List (List ℕ)) (bytes : List ℕ)
      → f ∷ fs ≡ numbered seq chunk ∷ rest
      → reassemble (seq + 1) ws ≡ bytes
      → reassemble (seq + 1) (f ∷ ws) ≡ bytes
  repeated seq chunk rest bytes e h =
      let here : f ≡ numbered seq chunk = cc in
      rw here (reassemble_dropped (seq + 1) (numbered seq chunk) ws (taken-before seq chunk) ∙ h)

tail_of : {f g : List ℕ} {fs gs : List (List ℕ)} → f ∷ fs ≡ g ∷ gs → fs ≡ gs
tail_of e = cc

no_frames : (seq : ℕ) (chunks : List (List ℕ)) → [] ≡ data_frames seq chunks → [] ≡ join chunks
unfolding data_frames
no_frames seq [] e = refl
no_frames seq (c ∷ cs) e = cc

pub reassemble-Delivered : (fs ws : List (List ℕ)) → Delivered fs ws → Reassembled fs ws
unfolding data_frames reassemble
reassemble-Delivered fs ws done =
    ((λ seq chunks filled e. no_frames seq chunks e), λ seq c cs filled e. cc)
reassemble-Delivered fs ws (again {f = f} {fs = gs} {ws = us} d) =
    let ih = reassemble-Delivered (f ∷ gs) us d in
    (
      (λ seq chunks filled e. first f gs us seq chunks filled e (λ c cs. ih.1 seq c cs)),
      λ seq c cs filled e. repeated f gs us seq c _ _ e (ih.1 seq c cs filled e),
    )
reassemble-Delivered fs ws (last {f = f} {fs = gs} {ws = us} d) =
    let ih = reassemble-Delivered gs us d in
    (
      (λ seq chunks filled e.
          first f gs us seq chunks filled e (λ c cs all h. ih.0 (seq + 1) cs all (tail_of h))),
      λ seq c cs filled e. repeated f gs us seq c _ _ e (ih.0 (seq + 1) cs filled (tail_of e)),
    )

pub All-IsFilled :
    (size : ℕ) (chunks : List (List ℕ)) → All (IsBlock size) chunks → All IsFilled chunks
All-IsFilled size [] all = tt
All-IsFilled size (c ∷ cs) ((pos, fits), all) = (pos, All-IsFilled size cs all)

-- What was written from `s` to `s'` are frames from which a receiver makes the image.
abbrev pub Carried : List ℕ → Line → Line → Type 0
Carried image s s' =
    (ws : List (List ℕ)) × (writes s'.log ≡ writes s.log ++ ws) × (reassemble 1 ws ≡ image)

-- If the DATA frames of an image that was cut into chunks were all acknowledged, then a receiver
-- that takes each frame once and in order gets the image back from the bytes on the wire, with the
-- attempts that were repeated among them.
pub send_chunks-Carried :
    (stage : Stage) (total : ℕ) (image : List ℕ) (size : ℕ) (chunks : List (List ℕ)) (s : Line)
    → chunk_data image size ≡ ok chunks
    → (send_chunks stage total 1 chunks s).0 ≡ ok true
    → Carried image s (send_chunks stage total 1 chunks s).1
send_chunks-Carried stage total image size chunks s cut h =
    let chunking = chunk_data-IsChunking image size chunks cut in
    let sent = send_chunks-Wrote stage total 1 chunks s h in
    let device = reassemble-Delivered (data_frames 1 chunks) sent.ws sent.delivered in
    (
      sent.ws,
      sent.written,
      device.0 1 chunks (All-IsFilled size chunks chunking.fits) refl ∙ chunking.whole,
    )
