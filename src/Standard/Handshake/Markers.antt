-- ===== src/Standard/Handshake/Markers.antt =====
-- When the initial handshake ends: after five boot mode markers in a row.
use openipc_defib.Prelude.{
  ℕ, zero, suc, ◌+◌, ◌-◌, ◌≤◌, ◌≡◌, refl, ap, ◌∙◌, arith, List, [], ◌∷◌, ◌++◌, append_assoc,
  append-nil, Bool, true, false, if◌then◌else◌, leb, bytes_eq, bytes_eq→eq, Bool-cases, inl, inr,
  replicate, some,
}
use openipc_defib.Prelude.Result.{ok}
use openipc_defib.Line.{Read, received, timed_out, expired, failed, Action, Line}
use openipc_defib.Standard.Handshake.{
  bootmode_marker, bootmode_count, Waiting, flood, on_silence, on_byte, entered, handshake_loop,
  enter_boot_mode,
}

-- The bytes that reads brought, without the zero bytes of a line that idles low.
abbrev pub heard : List Read → List (List ℕ)
heard [] = []
heard (received bytes ∷ reads) =
    if bytes_eq bytes (0 ∷ []) then heard reads else bytes ∷ heard reads
heard (timed_out ∷ reads) = heard reads
heard (expired ∷ reads) = heard reads
heard (failed ∷ reads) = heard reads

-- A wait that had counted `counter` markers ended well: it read `taken`, and what it had heard by
-- then ended with five markers.
pub record Entered (counter : ℕ) (reads rest : List Read) : Type 0 where
  pub taken : List Read
  pub split : reads ≡ taken ++ rest
  pub front : List (List ℕ)
  pub marked :
      replicate counter bootmode_marker ++ heard taken
      ≡ front ++ replicate bootmode_count bootmode_marker

module _ (w : Waiting) (b : ℕ) (bs : List ℕ) (reads : List Read) (log : List Action) where
  loop_zero :
      bytes_eq (b ∷ bs) (0 ∷ []) ≡ true
      → handshake_loop w (received (b ∷ bs) ∷ reads) log ≡ handshake_loop w reads (log ++ flood w)
  unfolding handshake_loop
  loop_zero z = rw (z, handshake_loop)

  loop_last :
      bytes_eq (b ∷ bs) (0 ∷ []) ≡ false
      → leb bootmode_count (on_byte w (b ∷ bs)).counter ≡ true
      → handshake_loop w (received (b ∷ bs) ∷ reads) log ≡ (
        some (ok tt),
        record { reads = reads; log = (log ++ flood w) ++ entered (on_byte w (b ∷ bs)) },
      )
  unfolding handshake_loop
  loop_last z c = rw (z, c, handshake_loop)

  loop_next :
      bytes_eq (b ∷ bs) (0 ∷ []) ≡ false
      → leb bootmode_count (on_byte w (b ∷ bs)).counter ≡ false
      → handshake_loop w (received (b ∷ bs) ∷ reads) log
        ≡ handshake_loop (on_byte w (b ∷ bs)) reads (log ++ flood w)
  unfolding handshake_loop
  loop_next z c = rw (z, c, handshake_loop)

-- A read that the wait skips.
Entered-skip :
    (counter : ℕ) (read : Read) (reads rest : List Read)
    → ((taken : List Read) → heard (read ∷ taken) ≡ heard taken)
    → Entered counter reads rest
    → Entered counter (read ∷ reads) rest
Entered-skip counter read reads rest silent t = record {
  taken = read ∷ t.taken;
  split = ap (λ (r : List Read). read ∷ r) t.split;
  front = t.front;
  marked = rw (silent t.taken) t.marked;
}

heard-zero :
    (bytes : List ℕ) (taken : List Read)
    → bytes_eq bytes (0 ∷ []) ≡ true
    → heard (received bytes ∷ taken) ≡ heard taken
heard-zero bytes taken z = rw z refl

heard-byte :
    (bytes : List ℕ) (taken : List Read)
    → bytes_eq bytes (0 ∷ []) ≡ false
    → heard (received bytes ∷ taken) ≡ bytes ∷ heard taken
heard-byte bytes taken z = rw z refl

snoc :
    (n : ℕ) (m : List ℕ) (rest : List (List ℕ))
    → replicate n m ++ m ∷ rest ≡ replicate (suc n) m ++ rest
snoc zero m rest = refl
snoc (suc n) m rest = ap (λ (t : List (List ℕ)). m ∷ t) (snoc n m rest)

replicate-split : (m k : ℕ) (b : List ℕ) → replicate (m + k) b ≡ replicate m b ++ replicate k b
replicate-split zero k b = let same : 0 + k ≡ k = omega arith in ap (λ (n : ℕ). replicate n b) same
replicate-split (suc m) k b =
    let one : suc m + k ≡ suc (m + k) = omega arith in
    rw one (ap (λ (t : List (List ℕ)). b ∷ t) (replicate-split m k b))

counter_marker :
    (w : Waiting) (bytes : List ℕ)
    → bytes_eq bytes bootmode_marker ≡ true
    → (on_byte w bytes).counter ≡ suc w.counter
unfolding on_byte
counter_marker w bytes e = rw e (omega arith)

counter_other :
    (w : Waiting) (bytes : List ℕ)
    → bytes_eq bytes bootmode_marker ≡ false
    → (on_byte w bytes).counter ≡ 0
unfolding on_byte
counter_other w bytes e = rw e refl

five :
    (n : ℕ)
    → 5 ≤ n
    → replicate n bootmode_marker ≡ replicate (n - 5) bootmode_marker ++ replicate 5 bootmode_marker
five n h =
    let size : n ≡ (n - 5) + 5 = omega arith in
    ap (λ (k : ℕ). replicate k bootmode_marker) size ∙ replicate-split (n - 5) 5 bootmode_marker

-- The read that completes five markers.
Entered-last :
    (w : Waiting) (bytes : List ℕ) (reads : List Read)
    → bytes_eq bytes (0 ∷ []) ≡ false
    → leb bootmode_count (on_byte w bytes).counter ≡ true
    → Entered w.counter (received bytes ∷ reads) reads
Entered-last w bytes reads z c = elim (Bool-cases (bytes_eq bytes bootmode_marker)) [
  | inr other ↦ absurd (ground (arith, counter_other w bytes other))
  | inl marker ↦
      let is = bytes_eq→eq bytes bootmode_marker marker in
      let enough : 5 ≤ suc w.counter = ground (arith, counter_marker w bytes marker) in
      record {
        taken = received bytes ∷ [];
        split = refl;
        front = replicate (suc w.counter - 5) bootmode_marker;
        marked =
            rw (heard-byte bytes [] z, is, snoc w.counter bootmode_marker [])
              (append-nil (replicate (suc w.counter) bootmode_marker)
                ∙ five (suc w.counter) enough);
      }
]

Entered-next :
    (w : Waiting) (bytes : List ℕ) (reads rest : List Read)
    → bytes_eq bytes (0 ∷ []) ≡ false
    → Entered (on_byte w bytes).counter reads rest
    → Entered w.counter (received bytes ∷ reads) rest
Entered-next w bytes reads rest z t = elim (Bool-cases (bytes_eq bytes bootmode_marker)) [
  | inl marker ↦
      let is = bytes_eq→eq bytes bootmode_marker marker in
      let marked = rw (counter_marker w bytes marker) at t.marked in
      record {
        taken = received bytes ∷ t.taken;
        split = ap (λ (r : List Read). received bytes ∷ r) t.split;
        front = t.front;
        marked =
            rw (heard-byte bytes t.taken z, is)
              (snoc w.counter bootmode_marker (heard t.taken) ∙ marked);
      }
  | inr other ↦
      let marked = rw (counter_other w bytes other) at t.marked in
      record {
        taken = received bytes ∷ t.taken;
        split = ap (λ (r : List Read). received bytes ∷ r) t.split;
        front = replicate w.counter bootmode_marker ++ (bytes ∷ t.front);
        marked =
            rw (heard-byte bytes t.taken z, append_assoc)
              (ap (λ (r : List (List ℕ)). replicate w.counter bootmode_marker ++ (bytes ∷ r))
                marked);
      }
]

recount :
    (c c' : ℕ) (reads rest : List Read) → c ≡ c' → Entered c reads rest → Entered c' reads rest
recount c c' reads rest e t = rw e at t

loop_expired :
    (w : Waiting) (reads : List Read) (log : List Action)
    → handshake_loop w (expired ∷ reads) log ≡ handshake_loop w reads log
unfolding handshake_loop
loop_expired w reads log = refl

loop_silent :
    (w : Waiting) (reads : List Read) (log : List Action)
    → handshake_loop w (timed_out ∷ reads) log
      ≡ handshake_loop (on_silence w) reads (log ++ flood w)
unfolding handshake_loop
loop_silent w reads log = refl

silence_counter : (w : Waiting) → (on_silence w).counter ≡ w.counter
unfolding on_silence
silence_counter w = ground arith

handshake_loop-Entered :
    (reads : List Read) (w : Waiting) (log : List Action)
    → (handshake_loop w reads log).0 ≡ some (ok tt)
    → Entered w.counter reads (handshake_loop w reads log).1.reads
handshake_loop-Entered [] w log h = unfold handshake_loop in cc
handshake_loop-Entered (failed ∷ reads) w log h = unfold handshake_loop in cc
handshake_loop-Entered (received [] ∷ reads) w log h = unfold handshake_loop in cc
handshake_loop-Entered (expired ∷ reads) w log h =
    let step = loop_expired w reads log in
    rw step (
      Entered-skip w.counter expired reads _ (λ taken. refl)
        (handshake_loop-Entered reads w log (rw step at h)))
handshake_loop-Entered (timed_out ∷ reads) w log h =
    let step = loop_silent w reads log in
    let t = handshake_loop-Entered reads (on_silence w) (log ++ flood w) (rw step at h) in
    rw step (
      Entered-skip w.counter timed_out reads _ (λ taken. refl)
        (recount _ w.counter reads _ (silence_counter w) t))
handshake_loop-Entered (received (b ∷ bs) ∷ reads) w log h =
    elim (Bool-cases (bytes_eq (b ∷ bs) (0 ∷ []))) [
      | inl z ↦
          let step = loop_zero w b bs reads log z in
          rw step (
            Entered-skip w.counter (received (b ∷ bs)) reads _
              (λ taken. heard-zero (b ∷ bs) taken z)
              (handshake_loop-Entered reads w (log ++ flood w) (rw step at h)))
      | inr z ↦ elim (Bool-cases (leb bootmode_count (on_byte w (b ∷ bs)).counter)) [
        | inl c ↦ rw (loop_last w b bs reads log z c) (Entered-last w (b ∷ bs) reads z c)
        | inr c ↦
            let step = loop_next w b bs reads log z c in
            rw step (
              Entered-next w (b ∷ bs) reads _ z
                (handshake_loop-Entered reads (on_byte w (b ∷ bs)) (log ++ flood w) (rw step at h)))
      ]
    ]

-- If `handshake` returns, then the last five bytes that it heard, zero bytes not counted, were boot
-- mode markers.
pub enter_boot_mode-Entered :
    (continuous_ack : Bool) (s : Line)
    → (enter_boot_mode continuous_ack s).0 ≡ some (ok tt)
    → Entered 0 s.reads (enter_boot_mode continuous_ack s).1.reads
unfolding enter_boot_mode
enter_boot_mode-Entered continuous_ack s h = handshake_loop-Entered s.reads _ _ h
