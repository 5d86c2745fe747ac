-- ===== src/Aion/Entropy.antt =====
-- internal/aion/entropy.go and `IntLog2Q16` of weight.go: lower bounds of an entropy in bits.
pub mod Lowest
use native.Mathlib.Nat.{le-div_iff_mul-le, div-lt_iff_lt-mul, div-le_self}
use native.Mathlib.Numerals.{add-one}
use custom_consensus.Base.{
  ℕ, zero, suc, ◌+◌, ◌-◌, ◌*◌, ◌/◌, ◌%◌, ◌^◌, ◌≤◌, ◌<◌, ◌≡◌, refl, ◌⊎◌, inl, inr, List, [], ◌∷◌,
  arith, ltb, ◌==◌, if◌then◌else◌, Bool-cases, All, true, false,
}

-- 2 to the `k`.
unfoldable pub pow2 : ℕ → ℕ
pow2 zero = 1
pow2 (suc k) = 2 * pow2 k

-- `bits.Len64`: the number of binary digits, by at most `fuel` halvings.
pub len64_fuel : ℕ → ℕ → ℕ
len64_fuel zero x = 0
len64_fuel (suc fuel) x = let rest = len64_fuel fuel (x / 2) in if x == 0 then 0 else rest + 1

abbrev pub len64 : ℕ → ℕ
len64 = len64_fuel 64

pub int_log2_q16 : ℕ → ℕ × ℕ
int_log2_q16 x =
    if x == 0
    then (0, 0)
    else (let ilog = len64 x - 1 in
        let shift = 63 - ilog in let y = x * pow2 shift % 2 ^ 64 in (ilog, y / 2 ^ 47 % 2 ^ 16))

-- The lines that the two estimators share: the logarithm as a `uint16`, and the two caps.
capped : ℕ → ℕ → ℕ
capped ilog seed_bit_cap =
    let v = ilog % 2 ^ 16 in
    let v' = if ltb seed_bit_cap v then seed_bit_cap else v in if ltb 128 v' then 128 else v'

pub h_min_bits : ℕ → ℕ → ℕ → ℕ
unfolding capped
h_min_bits n max_cnt seed_bit_cap =
    if n == 0
    then 0
    else if max_cnt == 0
    then 0
    else (let ratio = n / max_cnt in
        if ratio == 0 then 0 else capped (int_log2_q16 ratio).0 seed_bit_cap)

pub h_renyi2_bits : ℕ → ℕ → ℕ → ℕ
unfolding capped
h_renyi2_bits n sum_sq seed_bit_cap =
    if n == 0
    then 0
    else if sum_sq == 0
    then 0
    else (let num = n * n % 2 ^ 64 in
        if num == 0
        then 0
        else (let ratio = num / sum_sq in
            if ratio == 0 then 0 else capped (int_log2_q16 ratio).0 seed_bit_cap))

min_loop : ℕ → List ℕ → ℕ
min_loop m [] = m
min_loop m (v ∷ vals) = min_loop (if ltb v m then v else m) vals

pub h_lower_bound_bits : List ℕ → ℕ
unfolding min_loop
h_lower_bound_bits [] = 0
h_lower_bound_bits (v ∷ vals) = let m = min_loop v vals in if ltb 128 m then 128 else m

pow2-pos : (k : ℕ) → 0 < pow2 k
unfolding pow2
pow2-pos zero = omega arith
pow2-pos (suc k) = omega (arith, pow2-pos k)

pow2_mono : (j k : ℕ) → j ≤ k → pow2 j ≤ pow2 k
unfolding pow2
pow2_mono zero k h = pow2-pos k
pow2_mono (suc j) zero h = absurd (omega arith)
pow2_mono (suc j) (suc k) h = omega (arith, pow2_mono j k (omega arith))

len64_fuel-zero : (f : ℕ) → len64_fuel f 0 ≡ 0
unfolding len64_fuel
len64_fuel-zero zero = refl
len64_fuel-zero (suc f) = refl

len64_fuel-le : (f x : ℕ) → len64_fuel f x ≤ f
unfolding len64_fuel
len64_fuel-le zero x = omega arith
len64_fuel-le (suc f) x = ground (arith, len64_fuel-le f (x / 2))

len64_fuel_lem :
    (f x : ℕ) → x < pow2 f → (x < pow2 (len64_fuel f x)) × (0 < x → pow2 (len64_fuel f x) ≤ 2 * x)
unfolding len64_fuel pow2
len64_fuel_lem zero x h = (omega arith, λ p. absurd (omega arith))
len64_fuel_lem (suc f) x h = elim (Bool-cases (x == 0)) [
  | inl z ↦ let e : x ≡ 0 = ground arith in (ground arith, λ p. absurd (omega arith))
  | inr nz ↦
      let ih = len64_fuel_lem f (x / 2) (omega arith) in
      rw (nz, add-one) (omega (arith, ih.0), λ p. above p (Bool-cases (x / 2 == 0)) ih.1)
]
  where
    above :
        0 < x
        → ((x / 2 == 0) ≡ true) ⊎ ((x / 2 == 0) ≡ false)
        → (0 < x / 2 → pow2 (len64_fuel f (x / 2)) ≤ 2 * (x / 2))
        → 2 * pow2 (len64_fuel f (x / 2)) ≤ 2 * x
    above p (inl z) ih = let e : x / 2 ≡ 0 = ground arith in rw (e, len64_fuel-zero f) (omega arith)
    above p (inr nz) ih = let q : 0 < x / 2 = ground arith in omega (arith, ih q)

ilog_lem :
    (n x : ℕ)
    → x < pow2 n
    → pow2 n ≤ 2 * x
    → 0 < x
    → (pow2 (n - 1) ≤ x) × (x < pow2 (n - 1 + 1)) × (0 < n)
unfolding pow2
ilog_lem zero x lt le p = absurd (omega arith)
ilog_lem (suc k) x lt le p =
    let e : suc k - 1 ≡ k = omega arith in rw (e, add-one) (omega arith, lt, omega arith)

int_log2_q16-len64 : (x : ℕ) → 0 < x → (int_log2_q16 x).0 ≡ len64 x - 1
unfolding int_log2_q16
int_log2_q16-len64 x h = elim (Bool-cases (x == 0)) [
  | inl z ↦ absurd (ground arith)
  | inr nz ↦ rw nz refl
]

-- The integer part of the logarithm of a positive 64-bit number is the floor of it.
pub int_log2_q16_lem :
    (x : ℕ)
    → 0 < x
    → x < 2 ^ 64
    → (pow2 (int_log2_q16 x).0 ≤ x)
      × (x < pow2 ((int_log2_q16 x).0 + 1))
      × ((int_log2_q16 x).0 < 64)
unfolding pow2
int_log2_q16_lem x h k =
    let l = len64_fuel_lem 64 x k in
    let i = ilog_lem (len64 x) x l.0 (l.1 h) h in
    rw (int_log2_q16-len64 x h) (i.0, i.1, omega (arith, i.2, len64_fuel-le 64 x))

capped-le : (i cap : ℕ) → (capped i cap ≤ i) × (capped i cap ≤ cap) × (capped i cap ≤ 128)
unfolding capped
capped-le i cap = (ground arith, ground arith, ground arith)

capped_id : (i cap : ℕ) → i < 64 → i ≤ cap → capped i cap ≡ i
unfolding capped
capped_id i cap h k = ground arith

-- What the estimators compute from a positive ratio.
ratio_bounds :
    (num den cap : ℕ)
    → 0 < den
    → num < 2 ^ 64
    → 0 < num / den
    → let v = capped (int_log2_q16 (num / den)).0 cap in
      (den * pow2 v ≤ num) × (64 ≤ cap → num < den * pow2 (v + 1))
ratio_bounds num den cap h k r =
    let small : num / den < 2 ^ 64 = omega (arith, div-le_self num den) in
    let (low, high, lt) = int_log2_q16_lem (num / den) r small in
    let ilog = (int_log2_q16 (num / den)).0 in
    let below : pow2 (capped ilog cap) ≤ num / den =
      omega (arith, low, pow2_mono (capped ilog cap) ilog (capped-le ilog cap).0) in
    (
      omega (arith, (le-div_iff_mul-le h).0 below),
      λ c.
          rw (capped_id ilog cap lt (omega (arith, lt)))
            (omega (arith, (div-lt_iff_lt-mul h).0 high)),
    )

h_min_bits-capped :
    (n max_cnt cap : ℕ)
    → 0 < max_cnt
    → max_cnt ≤ n
    → 0 < n / max_cnt
    → h_min_bits n max_cnt cap ≡ capped (int_log2_q16 (n / max_cnt)).0 cap
unfolding h_min_bits
h_min_bits-capped n max_cnt cap p le r = ground arith

pos_of_square : (n : ℕ) → 0 < n * n → 0 < n
pos_of_square zero h = absurd (omega arith)
pos_of_square (suc n) h = omega arith

h_renyi2_bits-capped :
    (n sum_sq cap : ℕ)
    → n * n < 2 ^ 64
    → 0 < sum_sq
    → sum_sq ≤ n * n
    → 0 < n * n / sum_sq
    → h_renyi2_bits n sum_sq cap ≡ capped (int_log2_q16 (n * n / sum_sq)).0 cap
unfolding h_renyi2_bits
h_renyi2_bits-capped n sum_sq cap h p le r =
    let w : n * n % 2 ^ 64 ≡ n * n = omega arith in
    let np : 0 < n = pos_of_square n (omega arith) in rw w (ground arith)

when_wide : {A : Type 0} (cap : ℕ) → (64 ≤ cap → A) → (cap < 64) ⊎ A
when_wide cap f = elim (Bool-cases (ltb cap 64)) [
  | inl narrow ↦ inl (ground arith)
  | inr wide ↦ inr (f (ground arith))
]

-- HMinBits never overestimates the min-entropy log2(n / max_cnt), which is the point of a lower
-- bound: 2^v * max_cnt <= n. It respects both caps, and with a cap of 64 bits or more it is the
-- floor of the logarithm.
pub h_min_bits_lem :
    (n max_cnt cap : ℕ)
    → n < 2 ^ 64
    → 0 < max_cnt
    → max_cnt ≤ n
    → (max_cnt * pow2 (h_min_bits n max_cnt cap) ≤ n)
      × ((cap < 64) ⊎ (n < max_cnt * pow2 (h_min_bits n max_cnt cap + 1)))
      × (h_min_bits n max_cnt cap ≤ cap)
      × (h_min_bits n max_cnt cap ≤ 128)
h_min_bits_lem n max_cnt cap h p le =
    let r : 0 < n / max_cnt = (le-div_iff_mul-le {k = max_cnt} {x = 1} {y = n} p).1 (omega arith) in
    let b = ratio_bounds n max_cnt cap p h r in
    let c = capped-le (int_log2_q16 (n / max_cnt)).0 cap in
    rw (h_min_bits-capped n max_cnt cap p le r) (b.0, when_wide cap b.1, c.1, c.2)

-- The same of HRenyi2Bits, for at most 2^32 - 1 samples, so that their square does not wrap:
-- 2^v * sum_sq <= n^2.
pub h_renyi2_bits_lem :
    (n sum_sq cap : ℕ)
    → n < 2 ^ 32
    → 0 < sum_sq
    → sum_sq ≤ n * n
    → (sum_sq * pow2 (h_renyi2_bits n sum_sq cap) ≤ n * n)
      × ((cap < 64) ⊎ (n * n < sum_sq * pow2 (h_renyi2_bits n sum_sq cap + 1)))
      × (h_renyi2_bits n sum_sq cap ≤ cap)
      × (h_renyi2_bits n sum_sq cap ≤ 128)
h_renyi2_bits_lem n sum_sq cap h p le =
    let sq : n * n < 2 ^ 64 = grind arith in
    let r : 0 < n * n / sum_sq =
      (le-div_iff_mul-le {k = sum_sq} {x = 1} {y = n * n} p).1 (omega arith) in
    let b = ratio_bounds (n * n) sum_sq cap p sq r in
    let c = capped-le (int_log2_q16 (n * n / sum_sq)).0 cap in
    rw (h_renyi2_bits-capped n sum_sq cap sq p le r) (b.0, when_wide cap b.1, c.1, c.2)
