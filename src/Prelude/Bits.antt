-- ===== src/Prelude/Bits.antt =====
-- Python's `|`, `^` and shifts on whole numbers, as arithmetic and with the laws of `^`.
mod Digits
pub use Digits.{bit_or_step, bit_xor_step}
use Prim.Native.Nat.{
  ℕ, zero, suc, ◌+◌, ◌*◌, ◌/◌, ◌%◌, ◌^◌, ◌≤◌, ◌<◌, bit_or, bit_xor, bit_xor-bitwise, bit_or-bitwise,
}
use mathlib.Core.Path.{◌≡◌, refl, sym, ap, ◌∙◌}
use mathlib.Core.Logic.{◌⊎◌, inl, inr}
use native.Mathlib.Nat.{pow-suc}
use native.Mathlib.Omega.{arith}

-- `x << k`, `x >> k` and the mask of the low bits.
abbrev pub shl : ℕ → ℕ → ℕ
shl x k = x * 2 ^ k

abbrev pub shr : ℕ → ℕ → ℕ
shr x k = x / 2 ^ k

abbrev pub u8 : ℕ → ℕ
u8 n = n % 2 ^ 8

abbrev pub u16 : ℕ → ℕ
u16 n = n % 2 ^ 16

abbrev pub u32 : ℕ → ℕ
u32 n = n % 2 ^ 32

abbrev pub IsByte : ℕ → Type 0
IsByte b = b < 256

xor-div : (a b : ℕ) → bit_xor a b / 2 ≡ bit_xor (a / 2) (b / 2)
xor-div a b = omega (arith, bit_xor_step a b)

xor-mod : (a b : ℕ) → bit_xor a b % 2 ≡ (a % 2 + b % 2) % 2
xor-mod a b = omega (arith, bit_xor_step a b)

pub zero-xor : (b : ℕ) → bit_xor 0 b ≡ b
zero-xor b = bit_xor-bitwise 0 b

xor_comm_fuel : (n a b : ℕ) → a + b ≤ n → bit_xor a b ≡ bit_xor b a
xor_comm_fuel zero a b h = let ea : a ≡ 0 = omega arith in let eb : b ≡ 0 = omega arith in cc
xor_comm_fuel (suc n) zero zero h = refl
xor_comm_fuel (suc n) (suc a) b h = omega (
  arith,
  bit_xor_step (suc a) b,
  bit_xor_step b (suc a),
  xor_comm_fuel n (suc a / 2) (b / 2) (omega arith),
)
xor_comm_fuel (suc n) zero (suc b) h = omega (
  arith,
  bit_xor_step zero (suc b),
  bit_xor_step (suc b) zero,
  xor_comm_fuel n (zero / 2) (suc b / 2) (omega arith),
)

pub xor_comm : (a b : ℕ) → bit_xor a b ≡ bit_xor b a
xor_comm a b = xor_comm_fuel (a + b) a b (omega arith)

pub xor-zero : (a : ℕ) → bit_xor a 0 ≡ a
xor-zero a = xor_comm a 0 ∙ zero-xor a

xor_self_fuel : (n a : ℕ) → a ≤ n → bit_xor a a ≡ 0
xor_self_fuel zero a h = let e : a ≡ 0 = omega arith in rw e refl
xor_self_fuel (suc n) zero h = refl
xor_self_fuel (suc n) (suc a) h =
    omega (arith, bit_xor_step (suc a) (suc a), xor_self_fuel n (suc a / 2) (omega arith))

pub xor_self : (a : ℕ) → bit_xor a a ≡ 0
xor_self a = xor_self_fuel a a (omega arith)

xor_assoc_fuel : (n a b c : ℕ) → a + b + c ≤ n → bit_xor (bit_xor a b) c ≡ bit_xor a (bit_xor b c)
xor_assoc_fuel zero a b c h =
    let ea : a ≡ 0 = omega arith in
    let eb : b ≡ 0 = omega arith in let ec : c ≡ 0 = omega arith in rw (ea, eb, ec) refl
xor_assoc_fuel (suc n) a b c h = elim (bit_cases a b c) [
  | inl e ↦ rw (e.0, e.1, e.2) refl
  | inr smaller ↦ omega (
    arith,
    bit_xor_step (bit_xor a b) c,
    bit_xor_step a (bit_xor b c),
    ap (λ (t : ℕ). bit_xor t (c / 2)) (xor-div a b),
    ap (λ (t : ℕ). bit_xor (a / 2) t) (xor-div b c),
    xor-mod a b,
    xor-mod b c,
    xor_assoc_fuel n (a / 2) (b / 2) (c / 2) (omega arith),
  )
]
  where
    bit_cases : (x y z : ℕ) → ((x ≡ 0) × (y ≡ 0) × (z ≡ 0)) ⊎ (x / 2 + y / 2 + z / 2 < x + y + z)
    bit_cases zero zero zero = inl (refl, refl, refl)
    bit_cases (suc x) y z = inr (omega arith)
    bit_cases zero (suc y) z = inr (omega arith)
    bit_cases zero zero (suc z) = inr (omega arith)

pub xor_assoc : (a b c : ℕ) → bit_xor (bit_xor a b) c ≡ bit_xor a (bit_xor b c)
xor_assoc a b c = xor_assoc_fuel (a + b + c) a b c (omega arith)

-- Applying the same mask twice changes nothing.
pub xor_cancel : (a b : ℕ) → bit_xor (bit_xor a b) b ≡ a
xor_cancel a b = rw (xor_assoc, xor_self, xor-zero)

pub xor_injective : (a b c : ℕ) → bit_xor a c ≡ bit_xor b c → a ≡ b
xor_injective a b c h = cc (xor_cancel a c, xor_cancel b c, ap (λ (t : ℕ). bit_xor t c) h)

pub xor_injective_left : (a b c : ℕ) → bit_xor c a ≡ bit_xor c b → a ≡ b
xor_injective_left a b c h = xor_injective a b c (xor_comm a c ∙ h ∙ xor_comm c b)

or-zero_fuel : (n a : ℕ) → a ≤ n → bit_or a 0 ≡ a
or-zero_fuel n zero h = bit_or-bitwise 0 0
or-zero_fuel zero (suc a) h = absurd (omega arith)
or-zero_fuel (suc n) (suc a) h =
    omega (arith, bit_or_step (suc a) 0, or-zero_fuel n (suc a / 2) (omega arith))

or-zero : (a : ℕ) → bit_or a 0 ≡ a
or-zero a = or-zero_fuel a a (omega arith)

mul-two-pow : (p k : ℕ) → p * 2 ^ suc k ≡ 2 * (p * 2 ^ k)
mul-two-pow p k = omega (arith, ap (λ (t : ℕ). p * t) (pow-suc 2 k))

-- `^` works on the fields above and below bit `k` apart.
pub xor_fields :
    (k p q r s : ℕ)
    → r < 2 ^ k
    → s < 2 ^ k
    → (bit_xor (p * 2 ^ k + r) (q * 2 ^ k + s) ≡ bit_xor p q * 2 ^ k + bit_xor r s)
      × (bit_xor r s < 2 ^ k)
xor_fields zero p q r s hr hs =
    let er : r ≡ 0 = omega arith in
    let es : s ≡ 0 = omega arith in
    ground
      (arith, ap (λ (t : ℕ). bit_xor t (q * 1)) {x = p * 1 + r} {y = p} (omega arith), xor_self 0)
xor_fields (suc k) p q r s hr hs = ground (
  arith,
  bit_xor_step (p * 2 ^ suc k + r) (q * 2 ^ suc k + s),
  bit_xor_step r s,
  mul-two-pow p k,
  mul-two-pow q k,
  mul-two-pow (bit_xor p q) k,
  pow-suc 2 k,
  xor_fields k p q (r / 2) (s / 2) (omega (arith, pow-suc 2 k)) (omega (arith, pow-suc 2 k)),
)

pub xor-lt : (k r s : ℕ) → r < 2 ^ k → s < 2 ^ k → bit_xor r s < 2 ^ k
xor-lt k r s hr hs = (xor_fields k 0 0 r s hr hs).1

-- `^` with a number below bit `k` leaves the field above alone.
pub xor_low :
    (k p r s : ℕ) → r < 2 ^ k → s < 2 ^ k → bit_xor (p * 2 ^ k + r) s ≡ p * 2 ^ k + bit_xor r s
xor_low k p r s hr hs =
    let wide : 0 * 2 ^ k + s ≡ s = omega arith in
    rw wide at (rw xor-zero at (xor_fields k p 0 r s hr hs).0)

-- `(p << k) | r` is a sum when `r` fits `k` bits.
pub or_fields : (k p r : ℕ) → r < 2 ^ k → bit_or (p * 2 ^ k) r ≡ p * 2 ^ k + r
or_fields zero p r h = let e : r ≡ 0 = omega arith in rw e (or-zero (p * 2 ^ 0) ∙ omega arith)
or_fields (suc k) p r h = ground (
  arith,
  bit_or_step (p * 2 ^ suc k) r,
  mul-two-pow p k,
  pow-suc 2 k,
  or_fields k p (r / 2) (omega (arith, pow-suc 2 k)),
)
