-- ===== src/Prelude/Bits/Digits.antt =====
-- One binary digit of the native bit operations, from the recursion that they stand for.
use Prim.Native.Nat.{ℕ, zero, suc, ◌+◌, ◌*◌, ◌/◌, ◌%◌, ◌≤◌, max, digits, differ}
use Prim.Native.Nat.{bit_or, bit_xor, bit_or-bitwise, bit_xor-bitwise}
use mathlib.Core.Path.{◌≡◌, refl, ap}
use native.Mathlib.Omega.{arith}

-- Any fuel from the first number on gives the same digits.
module _ (f : ℕ → ℕ → ℕ) where
  enough : (n m a b : ℕ) → a ≤ n → a ≤ m → digits (λ y. y) f n a b ≡ digits (λ y. y) f m a b
  enough n m zero b p q = cc (stop n b, stop m b)
    where
      stop : (k c : ℕ) → digits (λ y. y) f k zero c ≡ c
      stop zero c = refl
      stop (suc k) c = refl
  enough zero m (suc a) b p q = absurd (omega arith)
  enough (suc n) zero (suc a) b p q = absurd (omega arith)
  enough (suc n) (suc m) (suc a) b p q =
      ap (λ (t : ℕ). t * 2 + f (suc a % 2) (b % 2))
        (enough n m (suc a / 2) (b / 2) (omega arith) (omega arith))

differ_bits : (a b : ℕ) → differ (a % 2) (b % 2) ≡ (a % 2 + b % 2) % 2
differ_bits a b = go (a % 2) (b % 2) (omega arith) (omega arith)
  where
    go : (x y : ℕ) → x ≤ 1 → y ≤ 1 → differ x y ≡ (x + y) % 2
    go zero y hx hy = omega arith
    go (suc zero) zero hx hy = refl
    go (suc zero) (suc zero) hx hy = refl
    go (suc zero) (suc (suc y)) hx hy = absurd (omega arith)
    go (suc (suc x)) y hx hy = absurd (omega arith)

pub bit_xor_step : (a b : ℕ) → bit_xor a b ≡ bit_xor (a / 2) (b / 2) * 2 + (a % 2 + b % 2) % 2
bit_xor_step zero b = omega (arith, bit_xor-bitwise 0 b, bit_xor-bitwise 0 (b / 2))
bit_xor_step (suc a) b = omega (
  arith,
  bit_xor-bitwise (suc a) b,
  bit_xor-bitwise (suc a / 2) (b / 2),
  differ_bits (suc a) b,
  enough differ a (suc a / 2) (suc a / 2) (b / 2) (omega arith) (omega arith),
)

pub bit_or_step : (x y : ℕ) → bit_or x y ≡ max (x % 2) (y % 2) + bit_or (x / 2) (y / 2) * 2
bit_or_step zero y = let half = bit_or-bitwise 0 (y / 2) in omega (arith, half, bit_or-bitwise 0 y)
bit_or_step (suc x) y =
    let half = suc x / 2 in
    let same = enough max x half half (y / 2) (omega arith) (omega arith) in
    omega (arith, same, bit_or-bitwise half (y / 2), bit_or-bitwise (suc x) y)
