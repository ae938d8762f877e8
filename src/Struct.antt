-- ===== src/Struct.antt =====
-- Python's `struct` at its integer codes: `n` bytes of either order, with the range checks that
-- raise `struct.error`.
use openipc_defib.Prelude.{
  ℕ, zero, suc, ◌+◌, ◌*◌, ◌/◌, ◌%◌, ◌^◌, ◌<◌, ◌≡◌, refl, ap, ap₂, ◌∙◌, arith,
}
use openipc_defib.Prelude.{
  List, [], ◌∷◌, ◌++◌, length, length-append, slice, All, All-append, ltb, leb, if◌then◌else◌,
}
use openipc_defib.Prelude.{take-append, drop-append}
use openipc_defib.Prelude.Result.{Result, ok, err, struct_error}
use openipc_defib.Prelude.Bits.{IsByte}
use native.Mathlib.Nat.{pow-suc}

-- Lowest byte first.
unfoldable pub le_bytes : ℕ → ℕ → List ℕ
le_bytes zero v = []
le_bytes (suc n) v = v % 256 ∷ le_bytes n (v / 256)

unfoldable pub le_value : List ℕ → ℕ
le_value [] = 0
le_value (b ∷ bs) = b + 256 * le_value bs

-- Highest byte first.
unfoldable pub be_bytes : ℕ → ℕ → List ℕ
be_bytes zero v = []
be_bytes (suc n) v = be_bytes n (v / 256) ++ v % 256 ∷ []

unfoldable pub be_value_from : ℕ → List ℕ → ℕ
be_value_from acc [] = acc
be_value_from acc (b ∷ bs) = be_value_from (acc * 256 + b) bs

abbrev pub be_value : List ℕ → ℕ
be_value bs = be_value_from 0 bs

-- `struct.pack` of one unsigned field.
unfoldable pub pack_le : ℕ → ℕ → Result (List ℕ)
pack_le n v = if ltb v (256 ^ n) then ok (le_bytes n v) else err struct_error

unfoldable pub pack_be : ℕ → ℕ → Result (List ℕ)
pack_be n v = if ltb v (256 ^ n) then ok (be_bytes n v) else err struct_error

-- `struct.unpack_from` of one unsigned field.
unfoldable pub unpack_le : ℕ → ℕ → List ℕ → Result ℕ
unpack_le n at bytes =
    if leb (at + n) (length bytes) then ok (le_value (slice at n bytes)) else err struct_error

unfoldable pub unpack_be : ℕ → ℕ → List ℕ → Result ℕ
unpack_be n at bytes =
    if leb (at + n) (length bytes) then ok (be_value (slice at n bytes)) else err struct_error

pub length-le_bytes : (n v : ℕ) → length (le_bytes n v) ≡ n
unfolding le_bytes
length-le_bytes zero v = refl
length-le_bytes (suc n) v = ap suc (length-le_bytes n (v / 256))

pub length-be_bytes : (n v : ℕ) → length (be_bytes n v) ≡ n
unfolding be_bytes
length-be_bytes zero v = refl
length-be_bytes (suc n) v =
    omega (arith, length-append (be_bytes n (v / 256)) (v % 256 ∷ []), length-be_bytes n (v / 256))

pub le_bytes-IsByte : (n v : ℕ) → All IsByte (le_bytes n v)
unfolding le_bytes
le_bytes-IsByte zero v = tt
le_bytes-IsByte (suc n) v = (omega arith, le_bytes-IsByte n (v / 256))

pub be_bytes-IsByte : (n v : ℕ) → All IsByte (be_bytes n v)
unfolding be_bytes
be_bytes-IsByte zero v = tt
be_bytes-IsByte (suc n) v =
    All-append IsByte (be_bytes n (v / 256)) (v % 256 ∷ []) (be_bytes-IsByte n (v / 256))
      (omega arith)

-- A field that fits is read back.
pub le_value-le_bytes : (n v : ℕ) → v < 256 ^ n → le_value (le_bytes n v) ≡ v
unfolding le_value le_bytes
le_value-le_bytes zero v h = omega arith
le_value-le_bytes (suc n) v h =
    omega (arith, le_value-le_bytes n (v / 256) (omega (arith, pow-suc 256 n)))

be_value_from-append :
    (acc : ℕ) (xs : List ℕ) (b : ℕ)
    → be_value_from acc (xs ++ b ∷ []) ≡ be_value_from acc xs * 256 + b
unfolding be_value_from
be_value_from-append acc [] b = refl
be_value_from-append acc (x ∷ xs) b = be_value_from-append (acc * 256 + x) xs b

pub be_value-be_bytes : (n v : ℕ) → v < 256 ^ n → be_value (be_bytes n v) ≡ v
unfolding be_bytes
be_value-be_bytes zero v h = unfold be_value_from in omega arith
be_value-be_bytes (suc n) v h = omega (
  arith,
  be_value_from-append 0 (be_bytes n (v / 256)) (v % 256),
  be_value-be_bytes n (v / 256) (omega (arith, pow-suc 256 n)),
)

pub le_value-lt : (n : ℕ) (bs : List ℕ) → length bs ≡ n → All IsByte bs → le_value bs < 256 ^ n
unfolding le_value
le_value-lt zero [] h a = omega arith
le_value-lt zero (b ∷ bs) h a = absurd (omega arith)
le_value-lt (suc n) [] h a = absurd (omega arith)
le_value-lt (suc n) (b ∷ bs) h a =
    omega (arith, pow-suc 256 n, le_value-lt n bs (omega arith) a.1, a.0)

-- Bytes that were read are written back.
pub le_bytes-le_value :
    (n : ℕ) (bs : List ℕ) → length bs ≡ n → All IsByte bs → le_bytes n (le_value bs) ≡ bs
unfolding le_value le_bytes
le_bytes-le_value zero [] h a = refl
le_bytes-le_value zero (b ∷ bs) h a = absurd (omega arith)
le_bytes-le_value (suc n) [] h a = absurd (omega arith)
le_bytes-le_value (suc n) (b ∷ bs) h a = ap₂ ◌∷◌ (omega (arith, a.0)) (
    ap (le_bytes n) {x = (b + 256 * le_value bs) / 256} (omega (arith, a.0))
    ∙ le_bytes-le_value n bs (omega arith) a.1)

-- A field is found where it stands in a longer string.
pub slice-field :
    (at n : ℕ) (before field after : List ℕ)
    → length before ≡ at
    → length field ≡ n
    → slice at n (before ++ (field ++ after)) ≡ field
slice-field at n before field after here size =
    rw (drop-append at before (field ++ after) here) (take-append n field after size)

module _ (n v at : ℕ) (before after : List ℕ) where
  pub unpack_be-be_bytes :
      length before ≡ at → v < 256 ^ n → unpack_be n at (before ++ (be_bytes n v ++ after)) ≡ ok v
  unfolding unpack_be
  unpack_be-be_bytes here fits =
      let size = length-be_bytes n v in
      let found = slice-field at n before (be_bytes n v) after here size in
      let value = be_value-be_bytes n v fits in
      ground (
        arith,
        found,
        value,
        ap be_value found,
        length-append before (be_bytes n v ++ after),
        length-append (be_bytes n v) after,
      )

  pub unpack_le-le_bytes :
      length before ≡ at → v < 256 ^ n → unpack_le n at (before ++ (le_bytes n v ++ after)) ≡ ok v
  unfolding unpack_le
  unpack_le-le_bytes here fits =
      let size = length-le_bytes n v in
      let found = slice-field at n before (le_bytes n v) after here size in
      let value = le_value-le_bytes n v fits in
      ground (
        arith,
        value,
        ap le_value found,
        length-append before (le_bytes n v ++ after),
        length-append (le_bytes n v) after,
      )
