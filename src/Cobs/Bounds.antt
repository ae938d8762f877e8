-- ===== src/Cobs/Bounds.antt =====
-- What `encode` and `decode` can return: no zero byte, little overhead, an end on every input.
use openipc_defib.Prelude.{ℕ, zero, suc, ◌+◌, ◌-◌, ◌/◌, ◌≤◌, ◌<◌, ◌≡◌, ◌≢◌, refl}
use openipc_defib.Prelude.{List, [], ◌∷◌, ◌++◌, length, length-append}
use openipc_defib.Prelude.{
  All, All-append, ◌==◌, ltb, if◌then◌else◌, arith, ℕ-cases, inl, inr, false, ◌&&◌,
}
use openipc_defib.Prelude.Result.{Result, ok, err, value_error, ◌>>=◌}
use openipc_defib.Cobs.{encode, decode, decode_loop, copy, has_more}
use openipc_defib.Cobs.Encode.{blocks, blocks-pos, encode-blocks}

-- A byte that can stand inside a frame.
abbrev pub IsStuffed : ℕ → Type 0
IsStuffed b = (1 ≤ b) × (b < 256)

pub encode-pos : (bytes : List ℕ) → 0 < length (encode bytes)
encode-pos bytes = rw encode-blocks (blocks-pos [] bytes)

blocks-IsStuffed :
    (bytes block : List ℕ)
    → length block < 254
    → All IsStuffed block
    → All (λ b. b < 256) bytes
    → All IsStuffed (blocks block bytes)
unfolding blocks
blocks-IsStuffed [] block short clean fits = (omega arith, clean)
blocks-IsStuffed (b ∷ bs) block short clean fits = ground (
  arith,
  blocks-IsStuffed bs (block ++ b ∷ []),
  blocks-IsStuffed bs [],
  length-append block (b ∷ []),
  All-append IsStuffed block (blocks [] bs),
  All-append IsStuffed block (b ∷ []),
  All-append IsStuffed (block ++ b ∷ []) (blocks [] bs),
)

-- Encoded bytes contain no delimiter and are bytes.
pub encode-IsStuffed : (bytes : List ℕ) → All (λ b. b < 256) bytes → All IsStuffed (encode bytes)
encode-IsStuffed bytes fits = rw encode-blocks (blocks-IsStuffed bytes [] (omega arith) tt fits)

length-blocks :
    (bytes block : List ℕ)
    → length block < 254
    → length (blocks block bytes)
      ≤ length block + length bytes + 1 + (length block + length bytes) / 254
unfolding blocks
length-blocks [] block short = omega arith
length-blocks (b ∷ bs) block short = ground (
  arith,
  length-blocks bs (block ++ b ∷ []),
  length-blocks bs [],
  length-append block (b ∷ []),
  length-append block (blocks [] bs),
  length-append (block ++ b ∷ []) (blocks [] bs),
)

length-blocks_clean :
    (bytes block : List ℕ)
    → length block < 254
    → All (λ b. 1 ≤ b) bytes
    → length (blocks block bytes)
      ≡ length block + length bytes + 1 + (length block + length bytes) / 254
unfolding blocks
length-blocks_clean [] block short clean = omega arith
length-blocks_clean (b ∷ bs) block short clean = ground (
  arith,
  length-blocks_clean bs (block ++ b ∷ []),
  length-blocks_clean bs [],
  length-append block (b ∷ []),
  length-append (block ++ b ∷ []) (blocks [] bs),
)

-- The overhead is at most one byte and one more for each 254 bytes of input.
pub length-encode : (bytes : List ℕ) → length (encode bytes) ≤ length bytes + 1 + length bytes / 254
length-encode bytes = rw encode-blocks (omega (arith, length-blocks bytes [] (omega arith)))

-- On input without a zero byte the overhead is exactly that.
pub length-encode_clean :
    (bytes : List ℕ)
    → All (λ b. 1 ≤ b) bytes
    → length (encode bytes) ≡ length bytes + 1 + length bytes / 254
length-encode_clean bytes clean =
    rw encode-blocks (omega (arith, length-blocks_clean bytes [] (omega arith) clean))

-- A copy takes its bytes off the input, or meets its end.
abbrev Copied : ℕ → List ℕ → List ℕ → Result (List ℕ × List ℕ) → Type 0
Copied n output rest (ok (output', rest')) =
    (length output' ≡ length output + n) × (length rest' + n ≡ length rest)
Copied n output rest (err e) = e ≡ value_error

copy-Copied : (n : ℕ) (output rest : List ℕ) → Copied n output rest (copy n output rest)
unfolding copy
copy-Copied zero output rest = omega arith
copy-Copied (suc n) output [] = refl
copy-Copied (suc n) output (b ∷ rest) =
    step (copy n (output ++ b ∷ []) rest) (copy-Copied n (output ++ b ∷ []) rest)
  where
    step :
        (r : Result (List ℕ × List ℕ))
        → Copied n (output ++ b ∷ []) rest r
        → Copied (suc n) output (b ∷ rest) r
    step (ok p) h = omega (arith, length-append output (b ∷ []))
    step (err e) h = h

-- An end with at most `n` bytes, or with the source's ValueError.
abbrev pub Ends : ℕ → Result (List ℕ) → Type 0
Ends n (ok out) = length out ≤ n
Ends n (err e) = e ≡ value_error

Ends-mono : (n m : ℕ) (r : Result (List ℕ)) → n ≤ m → Ends n r → Ends m r
Ends-mono n m (ok out) le h = omega arith
Ends-mono n m (err e) le h = h

decode_loop-Ends :
    (fuel : ℕ) (output rest : List ℕ)
    → length rest ≤ fuel
    → Ends (length output + length rest) (decode_loop fuel output rest)
unfolding decode_loop
decode_loop-Ends zero output [] enough = omega arith
decode_loop-Ends (suc fuel) output [] enough = omega arith
decode_loop-Ends zero output (code ∷ rest) enough = absurd (omega arith)
decode_loop-Ends (suc fuel) output (code ∷ rest) enough = elim (ℕ-cases code 0) [
  | inl z ↦ rw z refl
  | inr nz ↦
      let c : (code == 0) ≡ false = ground arith in
      rw c (
        go (copy (code - 1) output rest) nz (copy-Copied (code - 1) output rest)
          (λ output' rest' h. decode_loop-Ends fuel output' rest' h))
]
  where
    go :
        (r : Result (List ℕ × List ℕ))
        → code ≢ 0
        → Copied (code - 1) output rest r
        → ((output' rest' : List ℕ)
            → length rest' ≤ fuel
            → Ends (length output' + length rest') (decode_loop fuel output' rest'))
        → Ends (length output + suc (length rest)) (
            r >>= λ (output', rest').
            decode_loop fuel
              (if ltb code 0xff && has_more rest' then output' ++ 0 ∷ [] else output')
              rest')
    go (ok (output', rest')) nz h ih =
        let grown : List ℕ =
          if ltb code 0xff && has_more rest' then output' ++ 0 ∷ [] else output' in
        let size : length grown ≤ suc (length output') =
          ground (arith, length-append output' (0 ∷ [])) in
        Ends-mono _ _ (decode_loop fuel grown rest') (omega arith) (ih grown rest' (omega arith))
    go (err e) nz h ih = h

-- Decoding ends on every input, with no more bytes than it was given or with a ValueError.
pub decode-Ends : (bytes : List ℕ) → Ends (length bytes) (decode bytes)
unfolding decode
decode-Ends bytes =
    Ends-mono _ _ (decode bytes) (omega arith)
      (decode_loop-Ends (length bytes) [] bytes (omega arith))
