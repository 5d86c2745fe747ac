-- ===== src/Aion/Weight.antt =====
-- internal/aion/weight.go, params.go: the weight of a producer in Q16.16. A `uint32` or `uint64` is a
-- number with its wrap-around written out; the theorems take the range of the arguments.
use Prim.Native.Nat.{min}
use custom_consensus.Base.{ℕ, ◌+◌, ◌*◌, ◌/◌, ◌%◌, ◌^◌, ◌≤◌, ◌<◌, ◌≡◌, arith, ltb, if◌then◌else◌}

-- `qOne`, 1.0 in Q16.16.
abbrev pub q_one : ℕ
q_one = 65536

-- `^uint32(0)`
abbrev pub max_uint32 : ℕ
max_uint32 = 4294967295

pub min128 : ℕ → ℕ
min128 v = if ltb 128 v then 128 else v

pub normalize_entropy_q16 : ℕ → ℕ
unfolding min128
normalize_entropy_q16 hlb_bits = min128 hlb_bits * 2 ^ 16 % 2 ^ 32 / 128

pub moving_avg4_q16 : ℕ → ℕ → ℕ → ℕ → ℕ
moving_avg4_q16 v0 v1 v2 v3 =
    let s0 = (((v0 + v1) % 2 ^ 64 + v2) % 2 ^ 64 + v3) % 2 ^ 64 in s0 / 2 ^ 2 % 2 ^ 32

pub weight_q16 : ℕ → ℕ → ℕ → ℕ → ℕ → ℕ
weight_q16 alpha_q16 hnorm0 hnorm1 hnorm2 hnorm3 =
    let ma = moving_avg4_q16 hnorm0 hnorm1 hnorm2 hnorm3 in
    let prod = alpha_q16 * ma % 2 ^ 64 / 2 ^ 16 in
    let wt = (q_one + prod) % 2 ^ 64 in if ltb max_uint32 wt then max_uint32 else wt

abbrev pub IsUint32 : ℕ → Type 0
IsUint32 n = n < 2 ^ 32

-- H_norm = min(H_lb, 128) / 128 as a fixed-point number: never above 1.0, and exact.
pub normalize_entropy_q16_lem :
    (h : ℕ) → (normalize_entropy_q16 h ≡ min h 128 * 512) × (normalize_entropy_q16 h ≤ q_one)
unfolding normalize_entropy_q16
normalize_entropy_q16_lem h = (ground arith, ground arith)

pub moving_avg4_q16_lem :
    (v0 v1 v2 v3 : ℕ)
    → IsUint32 v0
    → IsUint32 v1
    → IsUint32 v2
    → IsUint32 v3
    → moving_avg4_q16 v0 v1 v2 v3 ≡ (v0 + v1 + v2 + v3) / 4
unfolding moving_avg4_q16
moving_avg4_q16_lem v0 v1 v2 v3 h0 h1 h2 h3 = omega arith

product_bound : (a m : ℕ) → IsUint32 a → IsUint32 m → a * m < 2 ^ 64
product_bound a m h k = grind arith

module _ (alpha v0 v1 v2 v3 : ℕ) (ha : IsUint32 alpha) (h0 : IsUint32 v0) (h1 : IsUint32 v1)
    (h2 : IsUint32 v2) (h3 : IsUint32 v3) where
  -- No step of the computation wraps: for 32-bit arguments the weight is 1 + alpha times the mean of
  -- the four values, rounded down, and at most the largest `uint32`.
  pub weight_q16_exact :
      weight_q16 alpha v0 v1 v2 v3
      ≡ min (q_one + alpha * ((v0 + v1 + v2 + v3) / 4) / q_one) max_uint32
  unfolding weight_q16
  weight_q16_exact =
      let avg = (v0 + v1 + v2 + v3) / 4 in
      ground (
        arith,
        moving_avg4_q16_lem v0 v1 v2 v3 h0 h1 h2 h3,
        product_bound alpha avg ha (omega arith),
      )

-- A weight is never below 1.0, so the division by it in a rank is defined, and it grows with each of
-- the four entropy values.
pub weight_q16_mono :
    (alpha v0 v1 v2 v3 w0 w1 w2 w3 : ℕ)
    → IsUint32 alpha
    → v0 ≤ w0
    → v1 ≤ w1
    → v2 ≤ w2
    → v3 ≤ w3
    → IsUint32 w0
    → IsUint32 w1
    → IsUint32 w2
    → IsUint32 w3
    → (q_one ≤ weight_q16 alpha v0 v1 v2 v3)
      × (weight_q16 alpha v0 v1 v2 v3 ≤ weight_q16 alpha w0 w1 w2 w3)
weight_q16_mono alpha v0 v1 v2 v3 w0 w1 w2 w3 ha l0 l1 l2 l3 h0 h1 h2 h3 =
    let v = (v0 + v1 + v2 + v3) / 4 in
    let w = (w0 + w1 + w2 + w3) / 4 in
    let ev =
      weight_q16_exact alpha v0 v1 v2 v3 ha (omega arith) (omega arith) (omega arith)
        (omega arith) in
    let ew = weight_q16_exact alpha w0 w1 w2 w3 ha h0 h1 h2 h3 in
    let le = mul_mono alpha v w (omega arith) in (omega (arith, ev), omega (arith, ev, ew, le))
  where
    mul_mono : (a x y : ℕ) → x ≤ y → a * x ≤ a * y
    mul_mono a x y h = grind arith
