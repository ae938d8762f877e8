-- ===== src/Rockusb/Codec/Cipher.antt =====
-- RC4 on a list is RC4 as it is defined on a permutation that is a function.
use openipc_defib.Prelude.{
  ℕ, zero, suc, ◌+◌, ◌%◌, ◌<◌, ◌≡◌, refl, ap, ◌∙◌, arith, List, [], ◌∷◌, length, get_or, set,
  bit_xor, ◌==◌, if◌then◌else◌, Bool-cases, inl, inr,
}
use openipc_defib.Prelude.Bits.{u8}
use openipc_defib.Prelude.Result.{ok, err, zero_division_error}
use openipc_defib.Rockusb.Codec.{swap, range_from, schedule, rc4_loop, rc4}

-- The permutation with the values at `i` and `j` exchanged.
abbrev pub exchanged : ℕ → ℕ → (ℕ → ℕ) → ℕ → ℕ
exchanged i j f k = if k == i then f j else if k == j then f i else f k

-- The index and the permutation after `n` steps of the key schedule.
unfoldable pub scheduled : List ℕ → ℕ → ℕ × (ℕ → ℕ)
scheduled key zero = (0, λ k. k)
scheduled key (suc n) =
    let (j, f) = scheduled key n in
    let j' = (j + f n + get_or key (n % length key) 0) % 256 in (j', exchanged n j' f)

-- One step of the generator from the first index `i` on.
abbrev pub generated : ℕ → ℕ → (ℕ → ℕ) → ℕ × (ℕ → ℕ)
generated i j f = let j' = (j + f i) % 256 in (j', exchanged i j' f)

-- The key's bytes are combined with the stream, byte by byte.
unfoldable pub enciphered : ℕ → ℕ → (ℕ → ℕ) → List ℕ → List ℕ
enciphered n j f [] = []
enciphered n j f (byte ∷ bytes) =
    let i = (n + 1) % 256 in
    let (j', f') = generated i j f in
    bit_xor byte (f' ((f' i + f' j') % 256)) ∷ enciphered (n + 1) j' f' bytes

record Holds (s : List ℕ) (f : ℕ → ℕ) : Type 0 where
  size : length s ≡ 256
  values : (k : ℕ) → k < 256 → get_or s k 0 ≡ f k

length-set : (s : List ℕ) (i v : ℕ) → length (set s i v) ≡ length s
length-set [] i v = refl
length-set (x ∷ xs) zero v = refl
length-set (x ∷ xs) (suc i) v = ap suc (length-set xs i v)

get_or-set :
    (s : List ℕ) (i v k : ℕ)
    → i < length s
    → get_or (set s i v) k 0 ≡ (if k == i then v else get_or s k 0)
get_or-set [] i v k h = absurd (omega arith)
get_or-set (x ∷ xs) zero v zero h = refl
get_or-set (x ∷ xs) zero v (suc k) h = ground arith
get_or-set (x ∷ xs) (suc i) v zero h = ground arith
get_or-set (x ∷ xs) (suc i) v (suc k) h = ground (arith, get_or-set xs i v k (omega arith))

swap-Holds :
    (s : List ℕ) (f : ℕ → ℕ) (i j : ℕ)
    → Holds s f
    → i < 256
    → j < 256
    → Holds (swap i j s) (exchanged i j f)
swap-Holds s f i j h hi hj =
    let t = set s i (get_or s j 0) in
    let ht = length-set s i (get_or s j 0) in
    record {
      size = length-set t j (get_or s i 0) ∙ ht ∙ h.size;
      values = λ k hk.
          let outer = get_or-set t j (get_or s i 0) k (omega (arith, ht, h.size)) in
          let inner = get_or-set s i (get_or s j 0) k (omega (arith, h.size)) in
          let vi = h.values i hi in
          let vj = h.values j hj in
          let vk = h.values k hk in exchanged_lem s t i j k f outer inner vi vj vk;
    }
  where
    exchanged_lem :
        (s t : List ℕ) (i j k : ℕ) (f : ℕ → ℕ)
        → get_or (set t j (get_or s i 0)) k 0 ≡ (if k == j then get_or s i 0 else get_or t k 0)
        → get_or t k 0 ≡ (if k == i then get_or s j 0 else get_or s k 0)
        → get_or s i 0 ≡ f i
        → get_or s j 0 ≡ f j
        → get_or s k 0 ≡ f k
        → get_or (set t j (get_or s i 0)) k 0 ≡ exchanged i j f k
    exchanged_lem s t i j k f outer inner vi vj vk = elim (Bool-cases (k == j)) [
      | inl at_j ↦ elim (Bool-cases (k == i)) [
        | inl at_i ↦ let same : i ≡ j = ground arith in rw (outer, at_j, at_i) (vi ∙ ap f same)
        | inr not_i ↦ rw (outer, at_j, not_i) vi
      ]
      | inr not_j ↦ elim (Bool-cases (k == i)) [
        | inl at_i ↦ rw (outer, not_j, inner, at_i) vj
        | inr not_i ↦ rw (outer, not_j, inner, not_i) vk
      ]
    ]

schedule-Holds :
    (rounds i : ℕ) (key s : List ℕ)
    → Holds s (scheduled key i).1
    → i + rounds < 257
    → Holds (schedule rounds i (scheduled key i).0 key s) (scheduled key (i + rounds)).1
unfolding schedule scheduled
schedule-Holds zero i key s h small = let e : i + 0 ≡ i = omega arith in rw e h
schedule-Holds (suc rounds) i key s h small =
    let e : i + suc rounds ≡ suc i + rounds = omega arith in
    let n : i + 1 ≡ suc i = omega arith in
    let j = (scheduled key i).0 in
    let f = (scheduled key i).1 in
    let here : get_or s i 0 ≡ f i = h.values i (omega arith) in
    let j' = (j + f i + get_or key (i % length key) 0) % 256 in
    let step : u8 (j + get_or s i 0 + get_or key (i % length key) 0) ≡ j' = rw here refl in
    rw (e, n, step)
      (schedule-Holds rounds (suc i) key (swap i j' s)
        (swap-Holds s f i j' h (omega arith) (omega arith)) (omega arith))

rc4_loop-enciphered :
    (bytes : List ℕ) (n j : ℕ) (s : List ℕ) (f : ℕ → ℕ)
    → Holds s f
    → rc4_loop (n % 256) j s bytes ≡ enciphered n j f bytes
unfolding rc4_loop enciphered
rc4_loop-enciphered [] n j s f h = refl
rc4_loop-enciphered (byte ∷ bytes) n j s f h =
    let i = (n + 1) % 256 in
    let next : (n % 256 + 1) % 256 ≡ i = omega arith in
    let here : get_or s i 0 ≡ f i = h.values i (omega arith) in
    let j' = (j + f i) % 256 in
    let s' = swap i j' s in
    let f' = exchanged i j' f in
    let h' = swap-Holds s f i j' h (omega arith) (omega arith) in
    let vi : get_or s' i 0 ≡ f' i = h'.values i (omega arith) in
    let vj : get_or s' j' 0 ≡ f' j' = h'.values j' (omega arith) in
    let k = (f' i + f' j') % 256 in
    let vk : get_or s' k 0 ≡ f' k = h'.values k (omega arith) in
    let step : u8 (j + get_or s i 0) ≡ j' = rw here refl in
    rw (next, step, vi, vj, vk)
      (ap (λ (rest : List ℕ). bit_xor byte (f' k) ∷ rest)
        (rc4_loop-enciphered bytes (n + 1) j' s' f' h'))

length-range_from : (i n : ℕ) → length (range_from i n) ≡ n
length-range_from i zero = refl
length-range_from i (suc n) = ap suc (length-range_from (i + 1) n)

get_or-range_from : (i n k : ℕ) → k < n → get_or (range_from i n) k 0 ≡ i + k
get_or-range_from i zero k h = absurd (omega arith)
get_or-range_from i (suc n) zero h = omega arith
get_or-range_from i (suc n) (suc k) h = get_or-range_from (i + 1) n k (omega arith) ∙ omega arith

start-Holds : (key : List ℕ) → Holds (range_from 0 256) (scheduled key 0).1
unfolding scheduled
start-Holds key = record {
  size = length-range_from 0 256;
  values = λ k h. get_or-range_from 0 256 k h ∙ omega arith;
}

-- For a key that is not empty, RC4 combines the bytes with the stream of the permutation that its
-- key schedule makes of the identity; for an empty key the remainder by its length raises.
pub rc4-enciphered :
    (bytes key : List ℕ)
    → rc4 bytes key ≡ (
        if length key == 0
        then err zero_division_error
        else ok (enciphered 0 0 (scheduled key 256).1 bytes))
unfolding rc4 scheduled
rc4-enciphered bytes key = elim (Bool-cases (length key == 0)) [
  | inl empty ↦ rw empty refl
  | inr some_key ↦
      let made = schedule-Holds 256 0 key (range_from 0 256) (start-Holds key) (omega arith) in
      rw some_key (
        ap (λ (out : List ℕ). ok out)
          (rc4_loop-enciphered bytes 0 0 (schedule 256 0 0 key (range_from 0 256))
            (scheduled key 256).1 made))
]
