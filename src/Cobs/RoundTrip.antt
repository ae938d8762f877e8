-- ===== src/Cobs/RoundTrip.antt =====
-- `decode` undoes `encode`, what `encode` writes has no zero byte and is hardly longer.
use openipc_defib.Prelude.{ℕ, zero, suc, ◌+◌, ◌-◌, ◌≤◌, ◌<◌, ◌≡◌, refl, ap, ◌∙◌}
use openipc_defib.Prelude.{List, [], ◌∷◌, ◌++◌, append_assoc, append-nil, length, length-append}
use openipc_defib.Prelude.{ltb, if◌then◌else◌, arith, ℕ-cases, inl, inr, true, ◌&&◌}
use openipc_defib.Prelude.Result.{ok}
use openipc_defib.Cobs.{encode, decode, decode_loop, copy, has_more}
use openipc_defib.Cobs.Encode.{
  blocks, blocks_zero, blocks_full, blocks_open, blocks-pos, encode-blocks,
}

copy-append :
    (block output rest : List ℕ)
    → copy (length block) output (block ++ rest) ≡ ok (output ++ block, rest)
unfolding copy
copy-append [] output rest = rw append-nil
copy-append (b ∷ block) output rest = copy-append block (output ++ b ∷ []) rest ∙ rw append_assoc

has_more-pos : (xs : List ℕ) → 0 < length xs → has_more xs ≡ true
has_more-pos [] h = absurd (omega arith)
has_more-pos (x ∷ xs) h = refl

-- One round of the decoder on a whole block.
round_lem :
    (fuel : ℕ) (block output rest : List ℕ)
    → decode_loop (suc fuel) output ((length block + 1) ∷ (block ++ rest))
      ≡ decode_loop fuel
          (if ltb (length block + 1) 0xff && has_more rest
            then (output ++ block) ++ 0 ∷ []
            else output ++ block)
          rest
unfolding decode_loop
round_lem fuel block output rest =
    let e : length block + 1 - 1 ≡ length block = omega arith in
    let c : copy (length block + 1 - 1) output (block ++ rest) ≡ ok (output ++ block, rest) =
      rw e (copy-append block output rest) in
    ground (arith, c)

-- A round on a block that ends at a zero, at the end of the input, and after 254 bytes.
module _ (fuel : ℕ) (block output : List ℕ) where
  round_zero :
      (rest : List ℕ)
      → length block < 254
      → 0 < length rest
      → decode_loop (suc fuel) output ((length block + 1) ∷ (block ++ rest))
        ≡ decode_loop fuel ((output ++ block) ++ 0 ∷ []) rest
  round_zero rest short more = rw round_lem (ground (arith, has_more-pos rest more))

  round_last : decode_loop (suc fuel) output ((length block + 1) ∷ block) ≡ ok (output ++ block)
  unfolding decode_loop
  round_last =
      let c : copy (length block + 1 - 1) output block ≡ ok (output ++ block, []) =
        let e : length block + 1 - 1 ≡ length block = omega arith in
        rw e (rw append-nil at (copy-append block output [])) in
      ground (arith, c)

  round_full :
      (rest : List ℕ)
      → length block ≡ 254
      → decode_loop (suc fuel) output (0xff ∷ (block ++ rest))
        ≡ decode_loop fuel (output ++ block) rest
  round_full rest full =
      let e : length block + 1 ≡ 0xff = omega arith in rw (← e) (rw round_lem (ground arith))

-- Decoding the blocks gives back the open block and the bytes.
decode_loop-blocks :
    (bytes block output : List ℕ) (fuel : ℕ)
    → length block < 254
    → length (blocks block bytes) ≤ fuel
    → decode_loop fuel output (blocks block bytes) ≡ ok (output ++ (block ++ bytes))
decode_loop-blocks bytes block output zero short enough =
    absurd (omega (arith, blocks-pos block bytes))
decode_loop-blocks [] block output (suc fuel) short enough =
    rw append-nil (unfold blocks in round_last fuel block output)
decode_loop-blocks (b ∷ bs) block output (suc fuel) short enough = elim (ℕ-cases b 0) [
  | inl z ↦
      let shape = blocks_zero block bs b z in
      let fits : length (blocks [] bs) ≤ fuel =
        omega (arith, ap length shape, length-append block (blocks [] bs)) in
      let ih = decode_loop-blocks bs [] ((output ++ block) ++ 0 ∷ []) fuel (omega arith) fits in
      rw shape (
        round_zero fuel block output (blocks [] bs) short (blocks-pos [] bs)
        ∙ ih
        ∙ rw z (rw (append_assoc, append_assoc)))
  | inr nz ↦ elim (ℕ-cases (length block + 2) 0xff) [
    | inl full ↦
        let shape = blocks_full block bs b nz full in
        let size = length-append block (b ∷ []) in
        let fits : length (blocks [] bs) ≤ fuel =
          omega (arith, ap length shape, length-append (block ++ b ∷ []) (blocks [] bs)) in
        let ih = decode_loop-blocks bs [] (output ++ (block ++ b ∷ [])) fuel (omega arith) fits in
        rw shape (
          round_full fuel (block ++ b ∷ []) output (blocks [] bs) (omega (arith, size))
          ∙ ih
          ∙ rw (append_assoc, append_assoc))
    | inr more ↦
        let shape = blocks_open block bs b nz more in
        let size = length-append block (b ∷ []) in
        let fits : length (blocks (block ++ b ∷ []) bs) ≤ suc fuel =
          omega (arith, ap length shape) in
        rw shape (
          decode_loop-blocks bs (block ++ b ∷ []) output (suc fuel) (omega (arith, size)) fits
          ∙ rw append_assoc)
  ]
]

-- Decoding what `encode` wrote gives back every byte string.
pub decode-encode : (bytes : List ℕ) → decode (encode bytes) ≡ ok bytes
unfolding decode
decode-encode bytes =
    rw encode-blocks (decode_loop-blocks bytes [] [] _ (omega arith) (omega arith))
