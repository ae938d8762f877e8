-- ===== src/Standard/Upload/Reentry.antt =====
-- How the device is brought back to download mode after the SPL.
use openipc_defib.Prelude.{
  ℕ, ◌≡◌, refl, ap, ◌∙◌, sym, List, [], ◌∷◌, ◌++◌, Bool, true, Bool-cases, inl, inr, none, some,
  append_assoc, bytes_eq, bytes_eq→eq,
}
use openipc_defib.Prelude.Result.{Result, ok, Option-cases}
use openipc_defib.Line.{
  Read, received, timed_out, expired, failed, Action, write, Line, lift, Exec, pure, ◌>>=◌,
}
use openipc_defib.Line.Outcomes.{bind_ok}
use openipc_defib.Line.Writes.{writes-append}
use openipc_defib.Frames.{encode_head}
use openipc_defib.Standard.Send.{ack_byte}
use openipc_defib.Standard.Handshake.{rehandshake, blast_loop, send_frame_for_start}
use openipc_defib.Standard.Upload.{Profile, reenter}
use openipc_defib.Standard.Upload.Delivery.{Wrote, again, last, done}

-- The blast was written once or more and nothing else, and the last read that was taken is the
-- acknowledgement.
pub record Blasted (blast : List ℕ) (s s' : Line) : Type 0 where
  pub before : List Read
  pub acknowledged : s.reads ≡ before ++ received (0xaa ∷ []) ∷ s'.reads
  pub wrote : Wrote (blast ∷ []) s s'

-- A chip with a PRESTEP0 has answered a blast of 0xAA and the HEAD frame for 64 bytes at the address
-- of the DDR step; from any other one the markers were awaited, for which no answer is needed.
pub data Reentered (profile : Profile) (s s' : Line) : Type 0 where
  blasted :
      (prestep head : List ℕ)
      → profile.prestep_data ≡ some prestep
      → encode_head (record { length = 64; address = profile.ddr_step_address }) ≡ ok head
      → Blasted (0xaa ∷ head) s s'
      → Reentered profile s s'
  awaited :
      (answered : Bool)
      → profile.prestep_data ≡ none
      → rehandshake s ≡ (ok answered, s')
      → Reentered profile s s'

blast_again :
    (blast : List ℕ) (r : Read) (reads : List Read) (log : List Action) (s' : Line)
    → Blasted blast (record { reads = reads; log = log ++ write blast ∷ [] }) s'
    → Blasted blast (record { reads = r ∷ reads; log = log }) s'
blast_again blast r reads log s' b = record {
  before = r ∷ b.before;
  acknowledged = ap (λ (rs : List Read). r ∷ rs) b.acknowledged;
  wrote = record {
    ws = blast ∷ b.wrote.ws;
    delivered = again b.wrote.delivered;
    written = b.wrote.written ∙ rw (writes-append, append_assoc) refl;
  };
}

blast_loop-Blasted :
    (blast : List ℕ) (reads : List Read) (log : List Action)
    → (blast_loop blast reads log).0 ≡ ok true
    → Blasted blast (record { reads = reads; log = log }) (blast_loop blast reads log).1
unfolding blast_loop
blast_loop-Blasted blast [] log h = cc
blast_loop-Blasted blast (expired ∷ reads) log h = cc
blast_loop-Blasted blast (failed ∷ reads) log h = cc
blast_loop-Blasted blast (timed_out ∷ reads) log h =
    blast_again blast timed_out reads log (blast_loop blast reads (log ++ write blast ∷ [])).1
      (blast_loop-Blasted blast reads (log ++ write blast ∷ []) h)
blast_loop-Blasted blast (received bytes ∷ reads) log h =
    elim (Bool-cases (bytes_eq bytes ack_byte)) [
      | inr other ↦
          rw (other, blast_loop)
            (blast_again blast (received bytes) reads log
              (blast_loop blast reads (log ++ write blast ∷ [])).1
              (blast_loop-Blasted blast reads (log ++ write blast ∷ [])
                (rw (other, blast_loop) at h)))
      | inl acked ↦
          let same : bytes ≡ 0xaa ∷ [] = bytes_eq→eq bytes ack_byte acked in
          rw (acked, blast_loop)
            (record {
              before = [];
              acknowledged = ap (λ (b : List ℕ). received b ∷ reads) same;
              wrote = record {
                ws = blast ∷ [];
                delivered = last done;
                written = writes-append log _;
              };
            })
    ]

pub reenter-Reentered :
    (profile : Profile) (s : Line)
    → (reenter profile s).0 ≡ ok true
    → Reentered profile s (reenter profile s).1
unfolding reenter send_frame_for_start
reenter-Reentered profile s h = elim (Option-cases profile.prestep_data) [
  | inr (prestep, there) ↦
      let blast = send_frame_for_start profile.ddr_step_address in
      let e : reenter profile s ≡ blast s = rw (there, reenter) refl in
      let (head, made, rest) =
        bind_ok (lift (encode_head (record { length = 64; address = profile.ddr_step_address }))) _
          s true (sym (ap (λ (x : Result Bool × Line). x.0) e) ∙ h) in
      let h₁ = sym (ap (λ (x : Result Bool × Line). x.0) (e ∙ rest)) ∙ h in
      rw (e ∙ rest)
        (blasted prestep head there made (blast_loop-Blasted (0xaa ∷ head) s.reads s.log h₁))
  | inl missing ↦
      let k : Exec Bool = rehandshake >>= λ answered. pure true in
      let e : reenter profile s ≡ k s = rw (missing, reenter) refl in
      let (answered, got, rest) =
        bind_ok rehandshake _ s true (sym (ap (λ (x : Result Bool × Line). x.0) e) ∙ h) in
      rw (e ∙ rest)
        (awaited answered missing (ap (λ (r : Result Bool). (r, (rehandshake s).1)) got))
]
