-- ===== src/Aion/Bits.antt =====
-- `a<<16 | b` for a `b` of 16 bits: the two do not overlap, so the `|` adds.
use Prim.Native.Nat.{max, bit_or, digits, bit_or-bitwise}
use custom_consensus.Base.{ℕ, zero, suc, ◌+◌, ◌*◌, ◌/◌, ◌%◌, ◌^◌, ◌≤◌, ◌<◌, ◌≡◌, refl, arith}

abbrev or_digits : ℕ → ℕ → ℕ → ℕ
or_digits n a b = digits (λ b. b) max n a b

or_digits_fuel : (n m a b : ℕ) → a ≤ n → a ≤ m → or_digits n a b ≡ or_digits m a b
or_digits_fuel zero zero a b p q = refl
or_digits_fuel zero (suc m) zero b p q = refl
or_digits_fuel zero (suc m) (suc a) b p q = absurd (omega arith)
or_digits_fuel (suc n) zero zero b p q = refl
or_digits_fuel (suc n) zero (suc a) b p q = absurd (omega arith)
or_digits_fuel (suc n) (suc m) zero b p q = refl
or_digits_fuel (suc n) (suc m) (suc a) b p q =
    omega (arith, or_digits_fuel n m (suc a / 2) (b / 2) (omega arith) (omega arith))

zero-bit_or : (b : ℕ) → bit_or 0 b ≡ b
zero-bit_or b = bit_or-bitwise 0 b

-- The law for the lowest digit.
bit_or_step : (a b : ℕ) → bit_or a b ≡ bit_or (a / 2) (b / 2) * 2 + max (a % 2) (b % 2)
bit_or_step zero b = omega (arith, zero-bit_or b, zero-bit_or (b / 2))
bit_or_step (suc a) b = omega (
  arith,
  bit_or-bitwise (suc a) b,
  bit_or-bitwise (suc a / 2) (b / 2),
  or_digits_fuel a (suc a / 2) (suc a / 2) (b / 2) (omega arith) (omega arith),
)

bit_or-zero_fuel : (n a : ℕ) → a ≤ n → bit_or a 0 ≡ a
bit_or-zero_fuel n zero h = refl
bit_or-zero_fuel zero (suc a) h = absurd (omega arith)
bit_or-zero_fuel (suc n) (suc a) h =
    omega (arith, bit_or_step (suc a) 0, bit_or-zero_fuel n (suc a / 2) (omega arith))

-- `x` doubled `k` times.
abbrev shl : ℕ → ℕ → ℕ
shl x zero = x
shl x (suc k) = shl x k * 2

bit_or-shl : (k x b : ℕ) → b < shl 1 k → bit_or (shl x k) b ≡ shl x k + b
bit_or-shl zero x zero h = omega (arith, bit_or-zero_fuel x x (omega arith))
bit_or-shl zero x (suc b) h = absurd (omega arith)
bit_or-shl (suc k) x b h =
    let half : shl x k * 2 / 2 ≡ shl x k = omega arith in
    omega
      (arith, bit_or_step (shl x k * 2) b, ap_or half (b / 2), bit_or-shl k x (b / 2) (omega arith))
  where
    ap_or : {u v : ℕ} → u ≡ v → (w : ℕ) → bit_or u w ≡ bit_or v w
    ap_or e w = cc

pub bit_or-shift16 : (x b : ℕ) → b < 2 ^ 16 → bit_or (x * 2 ^ 16) b ≡ x * 2 ^ 16 + b
bit_or-shift16 x b h = let e : shl x 16 ≡ x * 2 ^ 16 = omega arith in rw e at (bit_or-shl 16 x b h)
