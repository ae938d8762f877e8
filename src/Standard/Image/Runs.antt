-- ===== src/Standard/Image/Runs.antt =====
-- What `zero_long_ff_runs` does to an image, as a recursion on runs.
use openipc_defib.Prelude.{
  ℕ, zero, suc, ◌+◌, ◌-◌, ◌≤◌, ◌<◌, ◌≡◌, refl, sym, subst, ap, ◌∙◌, arith, List, [], ◌∷◌, ◌++◌,
  append_assoc, append-nil,
}
use openipc_defib.Prelude.{
  true, false, Bool-cases, ◌⊎◌, inl, inr, Option, none, some, length, length-append,
  length-replicate, replicate, set-append, leb, ◌==◌, if◌then◌else◌,
}
use openipc_defib.Standard.Image.{
  has_run, zero_range, end_run, start_of, zero_loop, zero_long_ff_runs,
}

-- A run of `n` bytes 0xFF, zeroed if it is long.
unfoldable pub run_out : ℕ → ℕ → List ℕ
run_out threshold n = if leb threshold n then replicate n 0 else replicate n 0xff

-- The image behind an open run of `run` bytes.
unfoldable pub cleaned : ℕ → ℕ → List ℕ → List ℕ
cleaned threshold run [] = run_out threshold run
cleaned threshold run (b ∷ bs) =
    let open_on = cleaned threshold (run + 1) bs in
    let closed = run_out threshold run ++ b ∷ cleaned threshold 0 bs in
    if b == 0xff then open_on else closed

replicate-snoc : (n : ℕ) (x : ℕ) (xs : List ℕ) → replicate n x ++ x ∷ xs ≡ x ∷ (replicate n x ++ xs)
replicate-snoc zero x xs = refl
replicate-snoc (suc n) x xs = ap (λ (t : List ℕ). x ∷ t) (replicate-snoc n x xs)

zero_range-replicate :
    (n : ℕ) (before after : List ℕ)
    → zero_range n (length before) (before ++ (replicate n 0xff ++ after))
      ≡ before ++ (replicate n 0 ++ after)
unfolding zero_range
zero_range-replicate zero before after = refl
zero_range-replicate (suc n) before after =
    let here = set-append before (replicate n 0xff ++ after) 0xff 0 in
    let size : length before + 1 ≡ length (before ++ 0 ∷ []) =
      omega (arith, length-append before (0 ∷ [])) in
    rw (here, size, ← append_assoc before (0 ∷ []) (replicate n 0xff ++ after))
      (zero_range-replicate n (before ++ 0 ∷ []) after ∙ rw append_assoc)

-- The bytes before an open run, as the loop's `run_start` sees them.
abbrev open_at : ℕ → ℕ → Option ℕ
open_at i zero = none
open_at i (suc run) = some (i - suc run)

end_run_lem :
    (threshold run : ℕ) (before after : List ℕ) (i : ℕ)
    → 0 < threshold
    → i ≡ length before + run
    → end_run threshold i (open_at i run) (before ++ (replicate run 0xff ++ after))
      ≡ before ++ (run_out threshold run ++ after)
unfolding run_out
end_run_lem threshold zero before after i pos here = ground arith
end_run_lem threshold (suc run) before after i pos here =
    let back : i - suc run ≡ length before = omega arith in
    let size : i - length before ≡ suc run = omega arith in
    rw (back, size) (ground (arith, zero_range-replicate (suc run) before after))

open_more : (i run : ℕ) → run ≤ i → some (start_of (open_at i run) i) ≡ open_at (i + 1) (suc run)
open_more i zero h = ap some {x = i} (omega arith)
open_more i (suc run) h = ap some {x = i - suc run} (omega arith)

length-run_out : (threshold n : ℕ) → length (run_out threshold n) ≡ n
unfolding run_out
length-run_out threshold n =
    ground (arith, length-replicate {A = ℕ} n 0, length-replicate {A = ℕ} n 0xff)

module _ (threshold i b : ℕ) (run_start : Option ℕ) (bs out : List ℕ) where
  zero_loop_ff :
      (b == 0xff) ≡ true
      → zero_loop threshold i run_start (b ∷ bs) out
        ≡ zero_loop threshold (i + 1) (some (start_of run_start i)) bs out
  unfolding zero_loop
  zero_loop_ff h = rw (h, zero_loop)

  zero_loop_other :
      (b == 0xff) ≡ false
      → zero_loop threshold i run_start (b ∷ bs) out
        ≡ zero_loop threshold (i + 1) none bs (end_run threshold i run_start out)
  unfolding zero_loop
  zero_loop_other h = rw (h, zero_loop)

zero_loop-cleaned :
    (threshold : ℕ) (bs before : List ℕ) (run i : ℕ)
    → 0 < threshold
    → i ≡ length before + run
    → zero_loop threshold i (open_at i run) bs (before ++ (replicate run 0xff ++ bs))
      ≡ before ++ cleaned threshold run bs
unfolding zero_loop cleaned
zero_loop-cleaned threshold [] before run i pos here =
    let size : length (before ++ (replicate run 0xff ++ [])) ≡ i = omega (
      arith,
      length-append before (replicate run 0xff ++ []),
      length-append {A = ℕ} (replicate run 0xff) [],
      length-replicate {A = ℕ} run 0xff,
    ) in
    rw size (end_run_lem threshold run before [] i pos here ∙ rw append-nil)
zero_loop-cleaned threshold (b ∷ bs) before run i pos here = elim (Bool-cases (b == 0xff)) [
  | inl ff ↦
      let e : b ≡ 0xff = ground arith in
      let one_more : run + 1 ≡ suc run = omega arith in
      let moved : replicate run 0xff ++ b ∷ bs ≡ replicate (suc run) 0xff ++ bs =
        rw e (replicate-snoc run 0xff bs) in
      rw
        (
          zero_loop_ff threshold i b (open_at i run) bs _ ff,
          ff,
          open_more i run (omega arith),
          moved,
          one_more,
        )
        (zero_loop-cleaned threshold bs before (suc run) (i + 1) pos (omega arith))
  | inr other ↦
      let before' = before ++ (run_out threshold run ++ b ∷ []) in
      let size : length before' ≡ length before + run + 1 = omega (
        arith,
        length-append before (run_out threshold run ++ b ∷ []),
        length-append (run_out threshold run) (b ∷ []),
        length-run_out threshold run,
      ) in
      let ih = zero_loop-cleaned threshold bs before' zero (i + 1) pos (omega arith) in
      rw
        (
          zero_loop_other threshold i b (open_at i run) bs _ other,
          other,
          end_run_lem threshold run before (b ∷ bs) i pos here,
        )
        (simp append_assoc at ih)
]

-- An image without a long run is its own cleaned form.
cleaned_id :
    (threshold run : ℕ) (bs : List ℕ)
    → has_run threshold run bs ≡ false
    → cleaned threshold run bs ≡ replicate run 0xff ++ bs
unfolding has_run cleaned run_out
cleaned_id threshold run [] h = ground (arith, append-nil {A = ℕ} (replicate run 0xff))
cleaned_id threshold run (b ∷ bs) h =
    let one_more : run + 1 ≡ suc run = omega arith in
    let snoc = replicate-snoc run b bs in
    ground (arith, one_more, snoc, cleaned_id threshold (run + 1) bs, cleaned_id threshold 0 bs)

-- The loop over indices does what the recursion on runs does, and the early return changes nothing.
pub zero_long_ff_runs-cleaned :
    (firmware : List ℕ) (threshold : ℕ)
    → 0 < threshold
    → zero_long_ff_runs firmware threshold ≡ cleaned threshold 0 firmware
unfolding zero_long_ff_runs
zero_long_ff_runs-cleaned firmware threshold pos =
    elim (Bool-cases (has_run threshold 0 firmware)) [
      | inl long ↦ rw long (zero_loop-cleaned threshold firmware [] 0 0 pos (omega arith))
      | inr short ↦ rw short (sym (cleaned_id threshold 0 firmware short))
    ]

has_run-zeros :
    (threshold n : ℕ) (rest : List ℕ)
    → 0 < threshold
    → has_run threshold 0 (replicate n 0 ++ rest) ≡ has_run threshold 0 rest
unfolding has_run
has_run-zeros threshold zero rest pos = refl
has_run-zeros threshold (suc n) rest pos = ground (arith, has_run-zeros threshold n rest)

has_run-ffs :
    (threshold n run : ℕ) (rest : List ℕ)
    → run + n < threshold
    → has_run threshold run (replicate n 0xff ++ rest) ≡ has_run threshold (run + n) rest
unfolding has_run
has_run-ffs threshold zero run rest short =
    ap (λ (k : ℕ). has_run threshold k rest) {x = run} (omega arith)
has_run-ffs threshold (suc n) run rest short =
    let e : run + 1 + n ≡ run + suc n = omega arith in
    ground (arith, e, has_run-ffs threshold n (run + 1) rest)

-- A closed run is not long any more, whatever follows it.
has_run-run_out :
    (threshold n : ℕ) (rest : List ℕ)
    → 0 < threshold
    → ((m : ℕ) → m < threshold → has_run threshold m rest ≡ false)
    → has_run threshold 0 (run_out threshold n ++ rest) ≡ false
unfolding run_out
has_run-run_out threshold n rest pos clean = elim (Bool-cases (leb threshold n)) [
  | inl long ↦ rw long (has_run-zeros threshold n rest pos ∙ clean 0 pos)
  | inr short ↦
      let small : n < threshold = ground arith in
      rw short (has_run-ffs threshold n 0 rest (omega arith) ∙ clean (0 + n) (omega arith))
]

has_run-break :
    (threshold m b : ℕ) (rest : List ℕ)
    → (b == 0xff) ≡ false
    → m < threshold
    → has_run threshold 0 rest ≡ false
    → has_run threshold m (b ∷ rest) ≡ false
unfolding has_run
has_run-break threshold m b rest other short h = rw (other, h) (ground arith)

-- No run of `threshold` bytes 0xFF is left.
not-has_run-cleaned :
    (threshold run : ℕ) (bs : List ℕ)
    → 0 < threshold
    → has_run threshold 0 (cleaned threshold run bs) ≡ false
unfolding cleaned
not-has_run-cleaned threshold run [] pos =
    rw append-nil at (has_run-run_out threshold run [] pos (λ m h. unfold has_run in ground arith))
not-has_run-cleaned threshold run (b ∷ bs) pos = elim (Bool-cases (b == 0xff)) [
  | inl ff ↦ rw ff (not-has_run-cleaned threshold (run + 1) bs pos)
  | inr other ↦
      let rest = not-has_run-cleaned threshold 0 bs pos in
      rw other (
        has_run-run_out threshold run (b ∷ cleaned threshold 0 bs) pos
          (λ m h. has_run-break threshold m b (cleaned threshold 0 bs) other h rest))
]

-- A byte is kept, but for a 0xFF that may become 0.
abbrev pub SameBut : List ℕ → List ℕ → Type 0
SameBut [] [] = Unit
SameBut [] (y ∷ ys) = ⊥
SameBut (x ∷ xs) [] = ⊥
SameBut (x ∷ xs) (y ∷ ys) = ((y ≡ x) ⊎ ((x ≡ 0xff) × (y ≡ 0))) × SameBut xs ys

SameBut-run :
    (n y : ℕ) (xs ys : List ℕ)
    → (y ≡ 0xff) ⊎ (y ≡ 0)
    → SameBut xs ys
    → SameBut (replicate n 0xff ++ xs) (replicate n y ++ ys)
SameBut-run zero y xs ys choice h = h
SameBut-run (suc n) y xs ys choice h =
    (elim choice [ inl e ↦ inl e | inr e ↦ inr (refl, e) ], SameBut-run n y xs ys choice h)

SameBut-run_out :
    (threshold n : ℕ) (xs ys : List ℕ)
    → SameBut xs ys
    → SameBut (replicate n 0xff ++ xs) (run_out threshold n ++ ys)
unfolding run_out
SameBut-run_out threshold n xs ys h = elim (Bool-cases (leb threshold n)) [
  | inl long ↦ rw long (SameBut-run n 0 xs ys (inr refl) h)
  | inr short ↦ rw short (SameBut-run n 0xff xs ys (inl refl) h)
]

SameBut-cleaned :
    (threshold run : ℕ) (bs : List ℕ)
    → SameBut (replicate run 0xff ++ bs) (cleaned threshold run bs)
unfolding cleaned
SameBut-cleaned threshold run [] =
    subst (SameBut (replicate run 0xff ++ [])) (append-nil (run_out threshold run))
      (SameBut-run_out threshold run [] [] tt)
SameBut-cleaned threshold run (b ∷ bs) = elim (Bool-cases (b == 0xff)) [
  | inl ff ↦
      let e : b ≡ 0xff = ground arith in
      let one_more : run + 1 ≡ suc run = omega arith in
      let moved : replicate run 0xff ++ b ∷ bs ≡ replicate (suc run) 0xff ++ bs =
        rw e (replicate-snoc run 0xff bs) in
      rw (ff, moved, one_more) (SameBut-cleaned threshold (suc run) bs)
  | inr other ↦ rw other (
      SameBut-run_out threshold run (b ∷ bs) (b ∷ cleaned threshold 0 bs)
        (inl refl, SameBut-cleaned threshold 0 bs))
]

-- The image that is sent has no run of `threshold` bytes 0xFF, and differs from the firmware only
-- in bytes 0xFF that became 0.
pub zero_long_ff_runs_lem :
    (firmware : List ℕ) (threshold : ℕ)
    → 0 < threshold
    → (has_run threshold 0 (zero_long_ff_runs firmware threshold) ≡ false)
      × SameBut firmware (zero_long_ff_runs firmware threshold)
zero_long_ff_runs_lem firmware threshold pos =
    rw zero_long_ff_runs-cleaned
      (not-has_run-cleaned threshold 0 firmware pos, SameBut-cleaned threshold 0 firmware)
