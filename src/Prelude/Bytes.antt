-- ===== src/Prelude/Bytes.antt =====
-- Bytes, little-endian words, and the bit operations that join them.
use Prim.Native.Nat.{
  ℕ, zero, suc, ◌+◌, ◌*◌, ◌/◌, ◌%◌, ◌^◌, ◌≤◌, ◌<◌, max, bit_or, digits, bit_or-bitwise,
}
use mathlib.Core.Path.{◌≡◌, refl, ap}
use mathlib.Core.List.{List, [], ◌∷◌}
use native.Mathlib.Omega.{arith}
use native.Mathlib.Nat.{pow-suc}

abbrev pub IsByte : ℕ → Type 0
IsByte b = b < 256

abbrev or_digits : ℕ → ℕ → ℕ → ℕ
or_digits n a b = digits (λ b. b) max n a b

or_digits_fuel : (n m a b : ℕ) → a ≤ n → a ≤ m → or_digits n a b ≡ or_digits m a b
or_digits_fuel zero zero a b p q = refl
or_digits_fuel zero (suc m) zero b p q = refl
or_digits_fuel zero (suc m) (suc a) b p q = absurd (omega arith)
or_digits_fuel (suc n) zero zero b p q = refl
or_digits_fuel (suc n) zero (suc a) b p q = absurd (omega arith)
or_digits_fuel (suc n) (suc m) zero b p q = refl
or_digits_fuel (suc n) (suc m) (suc a) b p q =
    omega (arith, or_digits_fuel n m (suc a / 2) (b / 2) (omega arith) (omega arith))

zero-bit_or : (b : ℕ) → bit_or 0 b ≡ b
zero-bit_or b = bit_or-bitwise 0 b

bit_or_step : (a b : ℕ) → bit_or a b ≡ bit_or (a / 2) (b / 2) * 2 + max (a % 2) (b % 2)
bit_or_step zero b = omega (arith, zero-bit_or b, zero-bit_or (b / 2))
bit_or_step (suc a) b = omega (
  arith,
  bit_or-bitwise (suc a) b,
  bit_or-bitwise (suc a / 2) (b / 2),
  or_digits_fuel a (suc a / 2) (suc a / 2) (b / 2) (omega arith) (omega arith),
)

-- Bits above the ones of `x` are added to it.
pub bit_or_add : (k x y : ℕ) → x < 2 ^ k → bit_or x (y * 2 ^ k) ≡ x + y * 2 ^ k
bit_or_add zero zero y h = omega (arith, zero-bit_or (y * 2 ^ 0))
bit_or_add zero (suc x) y h = absurd (omega arith)
bit_or_add (suc k) x y h = rw (doubled y) (
    omega (
      arith,
      bit_or_step x (y * 2 ^ k * 2),
      halves (y * 2 ^ k),
      bit_or_add k (x / 2) y (omega (arith, pow-suc 2 k)),
    ))
  where
    doubled : (y : ℕ) → y * 2 ^ suc k ≡ y * 2 ^ k * 2
    doubled y = omega (arith, ap (λ (t : ℕ). y * t) (pow-suc 2 k))

    halves : (z : ℕ) → bit_or (x / 2) (z * 2 / 2) ≡ bit_or (x / 2) z
    halves z = ap (bit_or (x / 2)) (omega arith)

-- The bytes of a number, lowest first: `DataView.setUint16` and `setUint32` with `littleEndian`.
abbrev pub u16_le : ℕ → List ℕ
u16_le n = (n % 256) ∷ (n / 256 % 256) ∷ []

abbrev pub u32_le : ℕ → List ℕ
u32_le n = (n % 256) ∷ (n / 256 % 256) ∷ (n / 65536 % 256) ∷ (n / 16777216 % 256) ∷ []

-- The byte at an index, 0 for the `undefined` past the end, which bit operations take for 0.
abbrev pub byte_at : List ℕ → ℕ → ℕ
byte_at [] i = 0
byte_at (b ∷ bs) zero = b
byte_at (b ∷ bs) (suc i) = byte_at bs i

-- `DataView.getUint16` and `getUint32` with `littleEndian`, within bounds.
abbrev pub get_uint16 : List ℕ → ℕ → ℕ
get_uint16 bs i = byte_at bs i + byte_at bs (suc i) * 256

abbrev pub get_uint32 : List ℕ → ℕ → ℕ
get_uint32 bs i =
    byte_at bs i
    + byte_at bs (suc i) * 256
    + byte_at bs (suc (suc i)) * 65536
    + byte_at bs (suc (suc (suc i))) * 16777216

-- `lo | (hi << 8)` of two bytes.
pub join_bytes : (lo hi : ℕ) → lo < 256 → bit_or lo (hi * 2 ^ 8) ≡ lo + hi * 256
join_bytes lo hi h = bit_or_add 8 lo hi h
