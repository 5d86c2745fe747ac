-- ===== src/Aion/Rank.antt =====
-- internal/aion/weight.go, `RankValue`: arrays of bytes are lists, the most significant byte first.
use Prim.Native.Nat.{bit_or}
use native.Mathlib.Nat.{div-add-mod', div-lt_iff_lt-mul, mul-add-div_right, mod-lt}
use custom_consensus.Base.{
  ℕ, suc, ◌+◌, ◌*◌, ◌/◌, ◌%◌, ◌^◌, ◌<◌, ◌≡◌, refl, sym, ap, ◌∙◌, Option, none, some, [], ◌∷◌, arith,
  length, Bytes, IsBytes, ◌==◌, if◌then◌else◌,
}
use custom_consensus.Aion.Bits.{bit_or-shift16}

-- The first loop of `RankValue`, from the last byte on: the bytes written so far, and the carry.
pub shift_loop : Bytes → Bytes × ℕ
shift_loop [] = ([], 0)
shift_loop (b ∷ rest) =
    let (num, carry) = shift_loop rest in
    let v = bit_or (b * 2 ^ 16) carry in (v % 256 ∷ num, v / 256)

-- The 33 bytes that are divided.
pub shifted : Bytes → Bytes
unfolding shift_loop
shifted y = let (num, carry) = shift_loop y in carry % 256 ∷ num

-- The second loop: long division by `d`, one byte at a time.
pub divide_loop : ℕ → ℕ → Bytes → Bytes
divide_loop d rem [] = []
divide_loop d rem (b ∷ rest) =
    let cur = rem * 256 % 2 ^ 64 + b in cur / d % 256 ∷ divide_loop d (cur % d) rest

-- Division by zero panics.
unfoldable pub rank_value : Bytes → ℕ → Option Bytes
unfolding shifted divide_loop
rank_value y wt_q16 = if wt_q16 == 0 then none else some (divide_loop wt_q16 0 (shifted y))

-- 256 to the number of bytes.
unfoldable pub unit : Bytes → ℕ
unit [] = 1
unit (b ∷ rest) = 256 * unit rest

-- The number that a byte string stands for.
unfoldable pub big_endian : Bytes → ℕ
unfolding unit
big_endian [] = 0
big_endian (b ∷ rest) = b * unit rest + big_endian rest

-- The bytes that follow the number `acc`.
value_from : ℕ → Bytes → ℕ
value_from acc [] = acc
value_from acc (b ∷ rest) = value_from (acc * 256 + b) rest

value_from_lem : (acc : ℕ) (bs : Bytes) → value_from acc bs ≡ acc * unit bs + big_endian bs
unfolding value_from unit big_endian
value_from_lem acc [] = omega arith
value_from_lem acc (b ∷ rest) = omega (arith, value_from_lem (acc * 256 + b) rest)

value_from-zero : (bs : Bytes) → value_from 0 bs ≡ big_endian bs
value_from-zero bs = omega (arith, value_from_lem 0 bs)

-- What the first loop computes.
record Shifted (y : Bytes) : Type 0 where
  units : unit (shift_loop y).0 ≡ unit y
  carried : (shift_loop y).1 < 2 ^ 16
  bytes : IsBytes (shift_loop y).0
  total : (shift_loop y).1 * unit y + big_endian (shift_loop y).0 ≡ big_endian y * 2 ^ 16

shift_loop-Shifted : (y : Bytes) → IsBytes y → Shifted y
unfolding shift_loop unit big_endian
shift_loop-Shifted [] h = record { units = refl; carried = omega arith; bytes = tt; total = refl }
shift_loop-Shifted (b ∷ rest) (hb, h) =
    let s = shift_loop-Shifted rest h in
    let c = (shift_loop rest).1 in
    let e = bit_or-shift16 b c s.carried in
    let v = bit_or (b * 2 ^ 16) c in
    let split : v / 256 * 256 + v % 256 ≡ b * 2 ^ 16 + c = omega (arith, e) in
    record {
      units = omega (arith, s.units);
      carried = omega (arith, e, s.carried);
      bytes = (omega arith, s.bytes);
      total = omega (arith, s.total, ap (λ t. v % 256 * t) s.units, ap (λ t. t * unit rest) split);
    }

-- The byte that the last line of the loop keeps is the second one: the first is gone.
big_endian-shifted :
    (b : ℕ) (rest : Bytes)
    → IsBytes (b ∷ rest)
    → big_endian (shifted (b ∷ rest)) ≡ big_endian rest * 2 ^ 16
unfolding shifted shift_loop big_endian unit
big_endian-shifted b rest (hb, h) =
    let s = shift_loop-Shifted rest h in
    let c = (shift_loop rest).1 in
    let e = bit_or-shift16 b c s.carried in
    let v = bit_or (b * 2 ^ 16) c in
    let split : v / 256 % 256 * 256 + v % 256 ≡ c = omega (arith, e, s.carried) in
    omega (
      arith,
      s.total,
      ap (λ t. v % 256 * t) s.units,
      ap (λ t. v / 256 % 256 * t) s.units,
      ap (λ t. t * unit rest) split,
    )

positive : {d r : ℕ} → r < d → 0 < d
positive h = omega arith

-- A remainder below the divisor gives a quotient of one byte.
quotient_byte :
    (d r b : ℕ)
    → d < 2 ^ 32
    → r < d
    → b < 256
    → (r * 256 % 2 ^ 64 + b) / d % 256 ≡ (r * 256 % 2 ^ 64 + b) / d
quotient_byte d r b hd hr hb =
    let small : (r * 256 % 2 ^ 64 + b) / d < 256 =
      (div-lt_iff_lt-mul (positive hr)).1 (omega arith) in
    omega (arith, small)

divide_step :
    (d q r b : ℕ)
    → d < 2 ^ 32
    → r < d
    → (q * 256 + (r * 256 % 2 ^ 64 + b) / d) * d + (r * 256 % 2 ^ 64 + b) % d
      ≡ (q * d + r) * 256 + b
divide_step d q r b hd hr = omega (arith, div-add-mod' (r * 256 % 2 ^ 64 + b) d)

divide_loop_value :
    (d q r : ℕ) (bs : Bytes)
    → d < 2 ^ 32
    → r < d
    → IsBytes bs
    → value_from q (divide_loop d r bs) ≡ value_from (q * d + r) bs / d
unfolding divide_loop value_from
divide_loop_value d q r [] hd hr h =
    omega (arith, mul-add-div_right {m = d} (omega arith) q r, div_zero_of_lt r d hr)
  where
    div_zero_of_lt : (a b : ℕ) → a < b → a / b ≡ 0
    div_zero_of_lt a b l = grind arith
divide_loop_value d q r (b ∷ rest) hd hr (hb, h) =
    let cur = r * 256 % 2 ^ 64 + b in
    let q' = q * 256 + cur / d in
    rw (quotient_byte d r b hd hr hb) (
      divide_loop_value d q' (cur % d) rest hd (mod-lt cur (positive hr)) h
      ∙ ap (λ t. value_from t rest / d) (divide_step d q r b hd hr))

divide_loop-IsBytes : (d r : ℕ) (bs : Bytes) → IsBytes (divide_loop d r bs)
unfolding divide_loop
divide_loop-IsBytes d r [] = tt
divide_loop-IsBytes d r (b ∷ rest) =
    (omega arith, divide_loop-IsBytes d ((r * 256 % 2 ^ 64 + b) % d) rest)

length-divide_loop : (d r : ℕ) (bs : Bytes) → length (divide_loop d r bs) ≡ length bs
unfolding divide_loop
length-divide_loop d r [] = refl
length-divide_loop d r (b ∷ rest) = ap suc (length-divide_loop d ((r * 256 % 2 ^ 64 + b) % d) rest)

length-shift_loop : (y : Bytes) → length (shift_loop y).0 ≡ length y
unfolding shift_loop
length-shift_loop [] = refl
length-shift_loop (b ∷ rest) = ap suc (length-shift_loop rest)

length-shifted : (y : Bytes) → length (shifted y) ≡ length y + 1
unfolding shifted
length-shifted y = omega (arith, length-shift_loop y)

shifted-IsBytes : (y : Bytes) → IsBytes y → IsBytes (shifted y)
unfolding shifted
shifted-IsBytes y h = (omega arith, (shift_loop-Shifted y h).bytes)

-- RankValue divides exactly: for a positive 32-bit weight it returns a byte string one longer than
-- `y`, and the number of that string is the number of `y` without its first byte, times 2^16,
-- divided by the weight and rounded down.
pub rank_value_lem :
    (b : ℕ) (rest : Bytes) (wt : ℕ)
    → IsBytes (b ∷ rest)
    → 0 < wt
    → wt < 2 ^ 32
    → (r : Bytes) × (rank_value (b ∷ rest) wt ≡ some r)
      × (big_endian r ≡ big_endian rest * 2 ^ 16 / wt)
      × (length r ≡ length rest + 2)
      × IsBytes r
unfolding rank_value
rank_value_lem b rest wt h pos small =
    let num = shifted (b ∷ rest) in
    (
      divide_loop wt 0 num,
      ground arith,
      exact,
      omega (arith, length-divide_loop wt 0 num, length-shifted (b ∷ rest)),
      divide_loop-IsBytes wt 0 num,
    )
  where
    exact : big_endian (divide_loop wt 0 (shifted (b ∷ rest))) ≡ big_endian rest * 2 ^ 16 / wt
    exact =
        let num = shifted (b ∷ rest) in
        let zero_acc : 0 * wt + 0 ≡ 0 = omega arith in
        sym (value_from-zero (divide_loop wt 0 num))
        ∙ divide_loop_value wt 0 0 num small pos (shifted-IsBytes (b ∷ rest) h)
        ∙ ap (λ t. value_from t num / wt) zero_acc
        ∙ ap (λ t. t / wt) (value_from-zero num ∙ big_endian-shifted b rest h)

shifted_first :
    (a b : ℕ) (rest : Bytes) → IsBytes (a ∷ rest) → shifted (a ∷ rest) ≡ shifted (b ∷ rest)
unfolding shifted shift_loop
shifted_first a b rest (ha, h) =
    let s = shift_loop-Shifted rest h in
    let c = (shift_loop rest).1 in
    ground (arith, s.carried, bit_or-shift16 a c s.carried, bit_or-shift16 b c s.carried)

-- The first byte of the VRF output has no influence on its rank.
pub rank_value_first :
    (a b : ℕ) (rest : Bytes) (wt : ℕ)
    → IsBytes (a ∷ rest)
    → rank_value (a ∷ rest) wt ≡ rank_value (b ∷ rest) wt
unfolding rank_value
rank_value_first a b rest wt h =
    ap (λ num. if wt == 0 then none else some (divide_loop wt 0 num)) (shifted_first a b rest h)
