-- ===== src/Standard/Send/Retry.antt =====
-- How often a frame goes out, and what its result says.
use openipc_defib.Prelude.{
  ℕ, zero, suc, ◌≤◌, ◌≡◌, refl, sym, ap, ◌∙◌, arith, List, [], ◌∷◌, ◌++◌, append_assoc, append-nil,
  Bool, true, false, bytes_eq, bytes_eq→eq, ◌⊎◌, inl, inr, replicate, Bool-cases,
}
use openipc_defib.Prelude.Result.{Result, ok}
use openipc_defib.Line.{Read, received, timed_out, expired, failed, Line, Action}
use openipc_defib.Line.Writes.{writes, writes-append}
use openipc_defib.Standard.Send.{ack_byte, await_ack, attempt, send_frame_with_retry}

-- The acknowledgement was among the reads that a wait took.
pub data Acked : List Read → List Read → Type 0 where
  here : {rest : List Read} → Acked (received ack_byte ∷ rest) rest
  stray :
      {reads rest : List Read} (bytes : List ℕ)
      → Acked reads rest
      → Acked (received bytes ∷ reads) rest

module _ (bytes : List ℕ) (reads : List Read) where
  await_yes : bytes_eq bytes ack_byte ≡ true → await_ack (received bytes ∷ reads) ≡ (true, reads)
  unfolding await_ack
  await_yes e = rw (e, await_ack)

  await_no : bytes_eq bytes ack_byte ≡ false → await_ack (received bytes ∷ reads) ≡ await_ack reads
  unfolding await_ack
  await_no e = rw (e, await_ack)

-- A wait that ended well took the acknowledgement, and before it nothing but other bytes.
pub await_ack-Acked :
    (reads : List Read) → (await_ack reads).0 ≡ true → Acked reads (await_ack reads).1
await_ack-Acked [] h = unfold await_ack in cc
await_ack-Acked (expired ∷ reads) h = unfold await_ack in cc
await_ack-Acked (timed_out ∷ reads) h = unfold await_ack in cc
await_ack-Acked (failed ∷ reads) h = unfold await_ack in cc
await_ack-Acked (received bytes ∷ reads) h = elim (Bool-cases (bytes_eq bytes ack_byte)) [
  | inl e ↦ rw (await_yes bytes reads e, bytes_eq→eq bytes ack_byte e) here
  | inr ne ↦
      let step = await_no bytes reads ne in
      rw step (stray bytes (await_ack-Acked reads (rw step at h)))
]

-- What a wait leaves of the reads is their end.
await_ack-rest :
    (reads : List Read) → (before : List Read) × (reads ≡ before ++ (await_ack reads).1)
await_ack-rest [] = unfold await_ack in ([], refl)
await_ack-rest (expired ∷ reads) = unfold await_ack in (expired ∷ [], refl)
await_ack-rest (timed_out ∷ reads) = unfold await_ack in (timed_out ∷ [], refl)
await_ack-rest (failed ∷ reads) = unfold await_ack in (failed ∷ [], refl)
await_ack-rest (received bytes ∷ reads) = elim (Bool-cases (bytes_eq bytes ack_byte)) [
  | inl e ↦ rw (await_yes bytes reads e) (received bytes ∷ [], refl)
  | inr ne ↦
      let (before, h) = await_ack-rest reads in
      rw (await_no bytes reads ne)
        (received bytes ∷ before, ap (λ (r : List Read). received bytes ∷ r) h)
]

-- The frame went out `tries` times. At the last the acknowledgement was among the reads, which
-- were `reads` by then, or it never came.
pub record Tried (frame : List ℕ) (retries : ℕ) (s : Line) (r : Result Bool × Line) : Type 0 where
  pub tries : ℕ
  pub written : writes r.1.log ≡ writes s.log ++ replicate tries frame
  pub bound : tries ≤ retries
  pub ending :
      ((before reads : List Read) × (s.reads ≡ before ++ reads)
        × (r.0 ≡ ok true)
        × (1 ≤ tries)
        × Acked reads r.1.reads)
      ⊎ ((r.0 ≡ ok false) × (tries ≡ retries))

one_more :
    (frame : List ℕ) (log log' : List Action) (n : ℕ)
    → writes log' ≡ writes (log ++ attempt frame) ++ replicate n frame
    → writes log' ≡ writes log ++ (frame ∷ replicate n frame)
one_more frame log log' n h = h ∙ rw (writes-append, append_assoc)

-- A frame goes out `tries` times, at most as often as allowed. Either the result is True, and the
-- acknowledgement was among the reads of the last try, or it is False, and every try allowed was made.
pub send_frame_with_retry-Tried :
    (frame : List ℕ) (retries : ℕ) (s : Line)
    → Tried frame retries s (send_frame_with_retry frame retries s)
unfolding send_frame_with_retry
send_frame_with_retry-Tried frame zero s = record {
  tries = 0;
  written = sym (append-nil (writes s.log));
  bound = omega arith;
  ending = inr (refl, refl);
}
send_frame_with_retry-Tried frame (suc retries) s =
    step (await_ack s.reads).0 (await_ack-Acked s.reads) (await_ack-rest s.reads) (
      send_frame_with_retry-Tried frame retries
        (record { reads = (await_ack s.reads).1; log = s.log ++ attempt frame }))
  where
    s₁ : Line
    s₁ = record { reads = (await_ack s.reads).1; log = s.log ++ attempt frame }

    step :
        (acked : Bool)
        → (acked ≡ true → Acked s.reads s₁.reads)
        → ((before : List Read) × (s.reads ≡ before ++ s₁.reads))
        → Tried frame retries s₁ (send_frame_with_retry frame retries s₁)
        → Tried frame
            (suc retries)
            s
            (elim acked [ true ↦ (ok true, s₁) | false ↦ send_frame_with_retry frame retries s₁ ])
    step true got rest ih = record {
      tries = 1;
      written = writes-append s.log (attempt frame);
      bound = omega arith;
      ending = inl ([], s.reads, refl, refl, omega arith, got refl);
    }
    step false got (b, rest) ih = record {
      tries = suc ih.tries;
      written =
          one_more frame s.log (send_frame_with_retry frame retries s₁).1.log ih.tries ih.written;
      bound = omega (arith, ih.bound);
      ending = elim ih.ending [
        | inl (before, reads, cut, e, h, a) ↦ inl (
          b ++ before,
          reads,
          rw append_assoc (rest ∙ ap (λ (r : List Read). b ++ r) cut),
          e,
          omega arith,
          a,
        )
        | inr (e, h) ↦ inr (e, ap suc h)
      ];
    }
