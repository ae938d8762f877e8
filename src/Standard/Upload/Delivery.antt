-- ===== src/Standard/Upload/Delivery.antt =====
-- What an upload that succeeds put on the wire: every frame, in order, and with it the image.
use openipc_defib.Prelude.{
  ℕ, zero, suc, ◌+◌, ◌*◌, ◌≤◌, ◌≡◌, refl, sym, ◌∙◌, arith, List, [], ◌∷◌, ◌++◌, append_assoc,
  append-nil, Bool, true, false, inl, inr, replicate, min,
}
use openipc_defib.Prelude.Result.{Result, ok, err}
use openipc_defib.Line.{Line, Stage, emit, continue}
use openipc_defib.Line.Writes.{writes, writes-append}
use openipc_defib.Frames.{encode_data, max_data_len}
use openipc_defib.Standard.Send.{send_frame_with_retry, send_data}
use openipc_defib.Standard.Send.Retry.{send_frame_with_retry-Tried}
use openipc_defib.Standard.Upload.{send_chunks}

-- `ws` is `frames` in order, each one or more times.
pub data Delivered : List (List ℕ) → List (List ℕ) → Type 0 where
  done : Delivered [] []
  again : {f : List ℕ} {fs ws : List (List ℕ)} → Delivered (f ∷ fs) ws → Delivered (f ∷ fs) (f ∷ ws)
  last : {f : List ℕ} {fs ws : List (List ℕ)} → Delivered fs ws → Delivered (f ∷ fs) (f ∷ ws)

-- What a step wrote, from `s` to `s'`.
pub record Wrote (frames : List (List ℕ)) (s s' : Line) : Type 0 where
  pub ws : List (List ℕ)
  pub delivered : Delivered frames ws
  pub written : writes s'.log ≡ writes s.log ++ ws

pub Delivered-replicate :
    (f : List ℕ) (n : ℕ) (fs ws : List (List ℕ))
    → Delivered fs ws
    → Delivered (f ∷ fs) (replicate (suc n) f ++ ws)
Delivered-replicate f zero fs ws d = last d
Delivered-replicate f (suc n) fs ws d = again (Delivered-replicate f n fs ws d)

Delivered-append :
    {fs gs us vs : List (List ℕ)}
    → Delivered fs us
    → Delivered gs vs
    → Delivered (fs ++ gs) (us ++ vs)
Delivered-append done e = e
Delivered-append (again d) e = again (Delivered-append d e)
Delivered-append (last d) e = last (Delivered-append d e)

pub Wrote-trans :
    {fs gs : List (List ℕ)} (s s' s'' : Line)
    → Wrote fs s s'
    → Wrote gs s' s''
    → Wrote (fs ++ gs) s s''
Wrote-trans s s' s'' a b = record {
  ws = a.ws ++ b.ws;
  delivered = Delivered-append a.delivered b.delivered;
  written = b.written ∙ rw (a.written, append_assoc);
}

-- A step that wrote nothing.
pub Wrote-none : (s s' : Line) → writes s'.log ≡ writes s.log → Wrote [] s s'
Wrote-none s s' e = record {
  ws = [];
  delivered = done;
  written = e ∙ sym (append-nil (writes s.log));
}

Delivered-one : (f : List ℕ) (n : ℕ) → 1 ≤ n → Delivered (f ∷ []) (replicate n f)
Delivered-one f zero h = ground arith
Delivered-one f (suc n) h = rw append-nil at (Delivered-replicate f n [] [] done)

-- One frame or more went out, whatever the result, if one attempt was allowed.
pub send_frame-Wrote :
    (frame : List ℕ) (retries : ℕ) (s : Line)
    → Wrote (frame ∷ []) s (send_frame_with_retry frame (suc retries) s).1
send_frame-Wrote frame retries s =
    let t = send_frame_with_retry-Tried frame (suc retries) s in
    record {
      ws = replicate t.tries frame;
      delivered =
          Delivered-one frame t.tries (elim t.ending [
            | inl (before, reads, cut, e, h, a) ↦ h
            | inr (e, h) ↦ omega (arith, h)
          ]);
      written = t.written;
    }

-- The frames of the chunks from number `seq` on.
unfoldable pub data_frames : ℕ → List (List ℕ) → List (List ℕ)
data_frames seq [] = []
data_frames seq (chunk ∷ chunks) =
    encode_data (record { seq = seq; payload = chunk }) ∷ data_frames (seq + 1) chunks

module _ (stage : Stage) (total seq : ℕ) (chunks : List (List ℕ)) where
  -- What `send_chunks` does with the result of one frame.
  abbrev after_chunk : Result Bool → Line → Result Bool × Line
  after_chunk r s =
      continue r
        (λ acked s'. elim acked [
          | false ↦ (ok false, s')
          | true ↦
              send_chunks stage total (seq + 1) chunks (record s' {
                log = s'.log ++ emit stage (min (seq * max_data_len) total) total ∷ [];
              })
        ])
        s

  after_chunk-Wrote :
      (frame : List ℕ) (fs : List (List ℕ)) (s : Line) (r : Result Bool) (s' : Line)
      → ((t : Line)
          → (send_chunks stage total (seq + 1) chunks t).0 ≡ ok true
          → Wrote fs t (send_chunks stage total (seq + 1) chunks t).1)
      → Wrote (frame ∷ []) s s'
      → (after_chunk r s').0 ≡ ok true
      → Wrote (frame ∷ fs) s (after_chunk r s').1
  after_chunk-Wrote frame fs s (err e) s' ih w h = cc
  after_chunk-Wrote frame fs s (ok false) s' ih w h = cc
  after_chunk-Wrote frame fs s (ok true) s' ih w h =
      let t : Line = record s' {
        log = s'.log ++ emit stage (min (seq * max_data_len) total) total ∷ [];
      } in
      Wrote-trans s s' _ w (
        Wrote-trans s' t _ (Wrote-none s' t (writes-append s'.log _ ∙ append-nil (writes s'.log)))
          (ih t h))

-- If `send_chunks` succeeds, it wrote the frames of the chunks, each at least once and none out of
-- order, and nothing else.
pub send_chunks-Wrote :
    (stage : Stage) (total seq : ℕ) (chunks : List (List ℕ)) (s : Line)
    → (send_chunks stage total seq chunks s).0 ≡ ok true
    → Wrote (data_frames seq chunks) s (send_chunks stage total seq chunks s).1
unfolding send_chunks data_frames send_data
send_chunks-Wrote stage total seq [] s h = Wrote-none s s refl
send_chunks-Wrote stage total seq (chunk ∷ chunks) s h =
    let frame = encode_data (record { seq = seq; payload = chunk }) in
    let sent = send_frame_with_retry frame 32 s in
    after_chunk-Wrote stage total seq chunks frame (data_frames (seq + 1) chunks) s sent.0 sent.1
      (λ t. send_chunks-Wrote stage total (seq + 1) chunks t) (send_frame-Wrote frame 31 s) h
