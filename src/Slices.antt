-- ===== src/Slices.antt =====
-- `[data[i:i + size] for i in range(0, len(data), size)]`, the comprehension by which the protocols
-- cut a message into blocks.
use openipc_defib.Prelude.{
  append_assoc, ap, ◌∙◌, min, take, take_all, ℕ, zero, suc, ◌+◌, ◌-◌, ◌*◌, ◌≤◌, ◌<◌, ◌≡◌, refl, sym,
  arith,
}
use openipc_defib.Prelude.{
  List, [], ◌∷◌, ◌++◌, length, length-take, length-drop, slice, drop, take-append-drop, drop-drop,
  drop_all, All, All-take, All-drop, ltb, leb, if◌then◌else◌, Bool-cases, inl, inr, ◌⊎◌,
}

-- The rounds from index `i` on, with fuel for the range.
unfoldable pub slices_from : ℕ → ℕ → ℕ → List ℕ → List (List ℕ)
slices_from zero size i bytes = []
slices_from (suc fuel) size i bytes =
    let rest = slice i size bytes ∷ slices_from fuel size (i + size) bytes in
    if ltb i (length bytes) then rest else []

-- A step of at least one passes the end within `length bytes` rounds.
unfoldable pub slices : ℕ → List ℕ → List (List ℕ)
slices size bytes = slices_from (length bytes) size 0 bytes

-- `b"".join(chunks)`.
abbrev pub join : List (List ℕ) → List ℕ
join [] = []
join (c ∷ cs) = c ++ join cs

pub join-append : (cs ds : List (List ℕ)) → join (cs ++ ds) ≡ join cs ++ join ds
join-append [] ds = refl
join-append (c ∷ cs) ds = rw (append_assoc) (ap (λ (t : List ℕ). c ++ t) (join-append cs ds))

join-slices_from :
    (fuel size i : ℕ) (bytes : List ℕ)
    → 0 < size
    → length bytes ≤ i + fuel
    → join (slices_from fuel size i bytes) ≡ drop i bytes
unfolding slices_from
join-slices_from zero size i bytes pos enough = sym (drop_all i bytes (omega arith))
join-slices_from (suc fuel) size i bytes pos enough = elim (Bool-cases (ltb i (length bytes))) [
  | inl more ↦ rw more (
      rw (join-slices_from fuel size (i + size) bytes pos (omega arith), ← drop-drop size i bytes)
        (take-append-drop size (drop i bytes)))
  | inr done ↦ rw done (sym (drop_all i bytes (ground arith)))
]

-- The blocks in order are the message.
pub join-slices : (size : ℕ) (bytes : List ℕ) → 0 < size → join (slices size bytes) ≡ bytes
unfolding slices
join-slices size bytes pos = join-slices_from (length bytes) size 0 bytes pos (omega arith)

-- A block is neither empty nor too long.
abbrev pub IsBlock : ℕ → List ℕ → Type 0
IsBlock size c = (0 < length c) × (length c ≤ size)

slices_from-IsBlock :
    (fuel size i : ℕ) (bytes : List ℕ)
    → 0 < size
    → All (IsBlock size) (slices_from fuel size i bytes)
unfolding slices_from
slices_from-IsBlock zero size i bytes pos = tt
slices_from-IsBlock (suc fuel) size i bytes pos = elim (Bool-cases (ltb i (length bytes))) [
  | inl more ↦ rw more (
      let long : i < length bytes = ground arith in
      let size_of = length-take size (drop i bytes) in
      let left = length-drop i bytes in
      ((omega arith, omega arith), slices_from-IsBlock fuel size (i + size) bytes pos))
  | inr done ↦ rw done tt
]

pub slices-IsBlock : (size : ℕ) (bytes : List ℕ) → 0 < size → All (IsBlock size) (slices size bytes)
unfolding slices
slices-IsBlock size bytes pos = slices_from-IsBlock (length bytes) size 0 bytes pos

-- No round runs past the end.
pub slices_from_past :
    (fuel size i : ℕ) (bytes : List ℕ) → length bytes ≤ i → slices_from fuel size i bytes ≡ []
unfolding slices_from
slices_from_past zero size i bytes past = refl
slices_from_past (suc fuel) size i bytes past = ground arith

length-slices_from :
    (fuel size i : ℕ) (bytes : List ℕ)
    → 0 < size
    → length bytes ≤ i + fuel
    → (length bytes - i ≤ length (slices_from fuel size i bytes) * size)
      × (length (slices_from fuel size i bytes) * size < length bytes - i + size)
unfolding slices_from
length-slices_from zero size i bytes pos enough = omega arith
length-slices_from (suc fuel) size i bytes pos enough = elim (Bool-cases (ltb i (length bytes))) [
  | inl more ↦ rw more (
      let long : i < length bytes = ground arith in
      let ih = length-slices_from fuel size (i + size) bytes pos (omega arith) in
      elim (Bool-cases (leb (length bytes) (i + size))) [
        | inl last ↦
            let none_left = slices_from_past fuel size (i + size) bytes (ground arith) in
            rw none_left (ground arith)
        | inr not_last ↦ ground arith
      ])
  | inr done ↦ rw done (ground arith)
]

-- There are as many blocks as it takes: one fewer would not hold the message.
pub length-slices :
    (size : ℕ) (bytes : List ℕ)
    → 0 < size
    → (length bytes ≤ length (slices size bytes) * size)
      × (length (slices size bytes) * size < length bytes + size)
unfolding slices
length-slices size bytes pos =
    omega (arith, length-slices_from (length bytes) size 0 bytes pos (omega arith))

slices_from-All :
    (P : ℕ → Type 0) (fuel size i : ℕ) (bytes : List ℕ)
    → All P bytes
    → All (All P) (slices_from fuel size i bytes)
unfolding slices_from
slices_from-All P zero size i bytes h = tt
slices_from-All P (suc fuel) size i bytes h = elim (Bool-cases (ltb i (length bytes))) [
  | inl more ↦ rw more (
    All-take P size (drop i bytes) (All-drop P i bytes h),
    slices_from-All P fuel size (i + size) bytes h,
  )
  | inr done ↦ rw done tt
]

pub slices-All :
    (P : ℕ → Type 0) (size : ℕ) (bytes : List ℕ) → All P bytes → All (All P) (slices size bytes)
unfolding slices
slices-All P size bytes h = slices_from-All P (length bytes) size 0 bytes h

-- A block is cut at the end of the message.
take-min : (n : ℕ) (xs : List ℕ) → take (min n (length xs)) xs ≡ take n xs
take-min n xs = elim (Bool-cases (leb (length xs) n)) [
  | inl short ↦
      let e : min n (length xs) ≡ length xs = ground arith in
      rw e (take_all (length xs) xs (omega arith) ∙ sym (take_all n xs (ground arith)))
  | inr long ↦ let e : min n (length xs) ≡ n = ground arith in rw e refl
]

pub block_at :
    (size pos : ℕ) (bytes : List ℕ)
    → slice pos (min size (length bytes - pos)) bytes ≡ slice pos size bytes
block_at size pos bytes = rw (← length-drop pos bytes) (take-min size (drop pos bytes))

pub length-block_at :
    (size pos : ℕ) (bytes : List ℕ) → length (slice pos size bytes) ≡ min size (length bytes - pos)
length-block_at size pos bytes = rw (length-take, length-drop) refl

-- Where the next block begins: past a short block there is none.
pub next_blocks :
    (fuel size pos : ℕ) (bytes : List ℕ)
    → slices_from fuel size (pos + min size (length bytes - pos)) bytes
      ≡ slices_from fuel size (pos + size) bytes
next_blocks fuel size pos bytes = elim (Bool-cases (leb (pos + size) (length bytes))) [
  | inl full ↦ let e : min size (length bytes - pos) ≡ size = ground arith in rw e refl
  | inr short ↦
      slices_from_past fuel size (pos + min size (length bytes - pos)) bytes (ground arith)
      ∙ sym (slices_from_past fuel size (pos + size) bytes (ground arith))
]

-- The blocks are cut at the multiples of the size: all are full but the last, which is not empty.
abbrev pub IsCut : ℕ → List (List ℕ) → Type 0
IsCut size [] = Unit
IsCut size (c ∷ []) = IsBlock size c
IsCut size (c ∷ d ∷ cs) = (length c ≡ size) × IsCut size (d ∷ cs)

cons-IsCut :
    (size : ℕ) (c : List ℕ) (cs : List (List ℕ))
    → IsBlock size c
    → (cs ≡ []) ⊎ (length c ≡ size)
    → IsCut size cs
    → IsCut size (c ∷ cs)
cons-IsCut size c [] b h k = b
cons-IsCut size c (d ∷ cs) b (inl none_left) k = absurd (cc)
cons-IsCut size c (d ∷ cs) b (inr full) k = (full, k)

slices_from-IsCut :
    (fuel size i : ℕ) (bytes : List ℕ) → 0 < size → IsCut size (slices_from fuel size i bytes)
unfolding slices_from
slices_from-IsCut zero size i bytes pos = tt
slices_from-IsCut (suc fuel) size i bytes pos = elim (Bool-cases (ltb i (length bytes))) [
  | inr done ↦ rw done tt
  | inl more ↦
      let size_of = length-block_at size i bytes in
      let ih = slices_from-IsCut fuel size (i + size) bytes pos in
      let block : IsBlock size (slice i size bytes) = (ground arith, ground arith) in
      rw more (elim (Bool-cases (leb (length bytes) (i + size))) [
        | inl last ↦
            cons-IsCut size (slice i size bytes) (slices_from fuel size (i + size) bytes) block
              (inl (slices_from_past fuel size (i + size) bytes (ground arith))) ih
        | inr before_last ↦
            cons-IsCut size (slice i size bytes) (slices_from fuel size (i + size) bytes) block
              (inr (ground arith)) ih
      ])
]

pub slices-IsCut : (size : ℕ) (bytes : List ℕ) → 0 < size → IsCut size (slices size bytes)
unfolding slices
slices-IsCut size bytes pos = slices_from-IsCut (length bytes) size 0 bytes pos
