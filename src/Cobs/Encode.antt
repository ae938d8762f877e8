-- ===== src/Cobs/Encode.antt =====
-- What `encode` writes, as a recursion on blocks: the imperative loop refines it.
use openipc_defib.Prelude.{ℕ, ◌+◌, ◌<◌, ◌≡◌, ◌≢◌, ap, List, [], ◌∷◌}
use openipc_defib.Prelude.{◌++◌, append_assoc, length, length-append, set-append}
use openipc_defib.Prelude.{◌==◌, if◌then◌else◌, arith}
use openipc_defib.Cobs.{Encoder, close_block, encode_byte, encode_loop, encode}

-- `block` holds the bytes since the last code byte; a code byte is one more than its block's length.
unfoldable pub blocks : List ℕ → List ℕ → List ℕ
blocks block [] = (length block + 1) ∷ block
blocks block (b ∷ bs) =
    let closed = blocks [] bs in
    let full = blocks [] bs in
    let open_on = blocks (block ++ b ∷ []) bs in
    if b == 0
    then (length block + 1) ∷ (block ++ closed)
    else if length block + 2 == 0xff
    then 0xff ∷ ((block ++ b ∷ []) ++ full)
    else open_on

-- The loop's state after `front` and an open block.
abbrev pub at_block : List ℕ → List ℕ → Encoder
at_block front block = record {
  output = front ++ 0 ∷ block;
  code_idx = length front;
  code = length block + 1;
}

close_block_lem :
    (front block : List ℕ)
    → close_block (at_block front block) ≡ at_block (front ++ (length block + 1) ∷ block) []
unfolding close_block
close_block_lem front block = rw (set-append front block 0 (length block + 1))

-- One byte more in the open block.
push_lem :
    (front block : List ℕ) (b : ℕ)
    → record {
      output = (front ++ 0 ∷ block) ++ b ∷ [];
      code_idx = length front;
      code = length block + 1 + 1;
    }
      ≡ at_block front (block ++ b ∷ [])
push_lem front block b = rw (append_assoc, length-append)

-- A block of 254 bytes is closed at once, with the code 0xff.
full_lem :
    (front block : List ℕ) (b : ℕ)
    → length block + 2 ≡ 0xff
    → at_block (front ++ (length (block ++ b ∷ []) + 1) ∷ (block ++ b ∷ [])) []
      ≡ at_block (front ++ 0xff ∷ (block ++ b ∷ [])) []
full_lem front block b h =
    let e : length (block ++ b ∷ []) + 1 ≡ 0xff = omega (arith, length-append block (b ∷ [])) in
    ap (λ (c : ℕ). at_block (front ++ c ∷ (block ++ b ∷ [])) []) e

encode_byte_lem :
    (front block : List ℕ) (b : ℕ)
    → encode_byte (at_block front block) b ≡ (
        if b == 0
        then at_block (front ++ (length block + 1) ∷ block) []
        else if length block + 2 == 0xff
        then at_block (front ++ 0xff ∷ (block ++ b ∷ [])) []
        else at_block front (block ++ b ∷ []))
unfolding encode_byte
encode_byte_lem front block b = ground (
  arith,
  close_block_lem front block,
  close_block_lem front (block ++ b ∷ []),
  push_lem front block b,
  full_lem front block b,
)

encode_loop-blocks :
    (data_left front block : List ℕ)
    → encode_loop (at_block front block) data_left ≡ front ++ blocks block data_left
unfolding encode_loop blocks
encode_loop-blocks [] front block = set-append front block 0 (length block + 1)
encode_loop-blocks (b ∷ bs) front block = rw encode_byte_lem (
    ground (
      arith,
      encode_loop-blocks bs (front ++ (length block + 1) ∷ block) [],
      encode_loop-blocks bs (front ++ 0xff ∷ (block ++ b ∷ [])) [],
      encode_loop-blocks bs front (block ++ b ∷ []),
      append_assoc front ((length block + 1) ∷ block) (blocks [] bs),
      append_assoc front (0xff ∷ (block ++ b ∷ [])) (blocks [] bs),
    ))

-- The imperative encoder writes the blocks of its input.
pub encode-blocks : (bytes : List ℕ) → encode bytes ≡ blocks [] bytes
unfolding encode
encode-blocks bytes = encode_loop-blocks bytes [] []

-- The three ways in which a byte is taken.
module _ (block bs : List ℕ) (b : ℕ) where
  pub blocks_zero : b ≡ 0 → blocks block (b ∷ bs) ≡ (length block + 1) ∷ (block ++ blocks [] bs)
  unfolding blocks
  blocks_zero h = ground arith

  pub blocks_full :
      b ≢ 0
      → length block + 2 ≡ 0xff
      → blocks block (b ∷ bs) ≡ 0xff ∷ ((block ++ b ∷ []) ++ blocks [] bs)
  unfolding blocks
  blocks_full h full = ground arith

  pub blocks_open :
      b ≢ 0 → length block + 2 ≢ 0xff → blocks block (b ∷ bs) ≡ blocks (block ++ b ∷ []) bs
  unfolding blocks
  blocks_open h more = ground arith

-- The first code byte is always there.
pub blocks-pos : (block bytes : List ℕ) → 0 < length (blocks block bytes)
unfolding blocks
blocks-pos block [] = omega arith
blocks-pos block (b ∷ bs) = ground (arith, blocks-pos (block ++ b ∷ []) bs)
