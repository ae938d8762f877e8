-- ===== src/Bootrom/Delivery.antt =====
-- What an upload that succeeds put on the wire, and what a device makes of it.
use openipc_defib.Prelude.{
  ℕ, zero, suc, ◌≤◌, ◌≡◌, refl, sym, ◌∙◌, arith, List, [], ◌∷◌, ◌++◌, append_assoc, append-nil,
  replicate, Bool, true, false, bytes_eq, bytes_eq→eq, Bool-cases, inl, inr,
}
use openipc_defib.Prelude.Result.{Result, ok, err}
use openipc_defib.Line.{Read, received, timed_out, expired, failed, Action, write, Line}
use openipc_defib.Line.Writes.{writes, writes-append}
use openipc_defib.Standard.Send.{ack_byte}
use openipc_defib.Standard.Send.Retry.{Acked, here, stray}
use openipc_defib.Standard.Upload.Delivery.{Wrote, Delivered-replicate, done}
use openipc_defib.Bootrom.{nak_byte, ack_loop, send_frame_wait_ack}

module _ (frame : List ℕ) (left : ℕ) (bytes : List ℕ) (reads : List Read) (log : List Action) where
  ack_loop_yes :
      bytes_eq bytes ack_byte ≡ true
      → ack_loop frame (suc left) (received bytes ∷ reads) log
        ≡ (ok true, record { reads = reads; log = log })
  unfolding ack_loop
  ack_loop_yes e = rw (e, ack_loop) refl

  ack_loop_nak :
      bytes_eq bytes ack_byte ≡ false
      → bytes_eq bytes nak_byte ≡ true
      → ack_loop frame (suc left) (received bytes ∷ reads) log
        ≡ ack_loop frame left reads (log ++ write frame ∷ [])
  unfolding ack_loop
  ack_loop_nak e n = rw (e, n, ack_loop) refl

  ack_loop_stray :
      bytes_eq bytes ack_byte ≡ false
      → bytes_eq bytes nak_byte ≡ false
      → ack_loop frame (suc left) (received bytes ∷ reads) log ≡ ack_loop frame (suc left) reads log
  unfolding ack_loop
  ack_loop_stray e n = rw (e, n, ack_loop) refl

-- The frame went out `tries` times more, at most `left`; a result of True took the acknowledgement.
pub record Waited (frame : List ℕ) (left : ℕ) (reads : List Read) (log : List Action)
    (r : Result Bool × Line) : Type 0 where
  pub tries : ℕ
  pub written : writes r.1.log ≡ writes log ++ replicate tries frame
  pub bound : tries ≤ left
  pub acked : r.0 ≡ ok true → Acked reads r.1.reads

ended :
    (frame : List ℕ) (left : ℕ) (reads rest : List Read) (log : List Action) (r : Result Bool)
    → (r ≡ ok true → Acked reads rest)
    → Waited frame left reads log (r, record { reads = rest; log = log })
ended frame left reads rest log r h = record {
  tries = 0;
  written = sym (append-nil (writes log));
  bound = omega arith;
  acked = h;
}

ack_loop-Waited :
    (frame : List ℕ) (left : ℕ) (reads : List Read) (log : List Action)
    → Waited frame left reads log (ack_loop frame left reads log)
ack_loop-Waited frame zero reads log =
    unfold ack_loop in ended frame zero reads reads log (ok false) (λ e. cc)
ack_loop-Waited frame (suc left) [] log =
    unfold ack_loop in ended frame (suc left) [] [] log (ok false) (λ e. cc)
ack_loop-Waited frame (suc left) (expired ∷ reads) log =
    unfold ack_loop in ended frame (suc left) _ reads log (ok false) (λ e. cc)
ack_loop-Waited frame (suc left) (timed_out ∷ reads) log =
    unfold ack_loop in ended frame (suc left) _ reads log (ok false) (λ e. cc)
ack_loop-Waited frame (suc left) (failed ∷ reads) log =
    unfold ack_loop in ended frame (suc left) _ reads log (err _) (λ e. cc)
ack_loop-Waited frame (suc left) (received bytes ∷ reads) log =
    elim (Bool-cases (bytes_eq bytes ack_byte)) [
      | inl e ↦
          rw (ack_loop_yes frame left bytes reads log e, bytes_eq→eq bytes ack_byte e)
            (ended frame (suc left) _ reads log (ok true) (λ h. here))
      | inr ne ↦ elim (Bool-cases (bytes_eq bytes nak_byte)) [
        | inl nak ↦
            let w = ack_loop-Waited frame left reads (log ++ write frame ∷ []) in
            rw (ack_loop_nak frame left bytes reads log ne nak) (record {
              tries = suc w.tries;
              written = w.written ∙ rw (writes-append, append_assoc) refl;
              bound = omega (arith, w.bound);
              acked = λ h. stray bytes (w.acked h);
            })
        | inr other ↦
            let w = ack_loop-Waited frame (suc left) reads log in
            rw (ack_loop_stray frame left bytes reads log ne other) (record {
              tries = w.tries;
              written = w.written;
              bound = w.bound;
              acked = λ h. stray bytes (w.acked h);
            })
      ]
    ]

-- A frame is sent once, and again for each NAK, ten times more at most; the result is True only if
-- the acknowledgement came, and before it nothing but other bytes.
pub record SentOnce (frame : List ℕ) (s : Line) (r : Result Bool × Line) : Type 0 where
  pub tries : ℕ
  pub written : writes r.1.log ≡ writes s.log ++ replicate (suc tries) frame
  pub bound : tries ≤ 10
  pub acked : r.0 ≡ ok true → Acked s.reads r.1.reads

pub send_frame_wait_ack-SentOnce :
    (frame : List ℕ) (s : Line) → SentOnce frame s (send_frame_wait_ack frame s)
unfolding send_frame_wait_ack
send_frame_wait_ack-SentOnce frame s =
    let w = ack_loop-Waited frame 10 s.reads (s.log ++ write frame ∷ []) in
    record {
      tries = w.tries;
      written = w.written ∙ rw (writes-append, append_assoc) refl;
      bound = w.bound;
      acked = w.acked;
    }

pub send_frame_wait_ack-Wrote :
    (frame : List ℕ) (s : Line) → Wrote (frame ∷ []) s (send_frame_wait_ack frame s).1
send_frame_wait_ack-Wrote frame s =
    let w = send_frame_wait_ack-SentOnce frame s in
    record {
      ws = replicate (suc w.tries) frame;
      delivered = rw append-nil at (Delivered-replicate frame w.tries [] [] done);
      written = w.written;
    }
