-- ===== src/Aion/Order.antt =====
-- internal/aion/weight.go, `CmpRank`: the order of the ranks.
use custom_consensus.Base.{
  ℕ, ◌+◌, ◌*◌, ◌<◌, ◌≡◌, refl, [], ◌∷◌, arith, length, Bytes, IsBytes, ltb, if◌then◌else◌,
}
use custom_consensus.Base.Int.{ℤ, pos, negsuc}
use custom_consensus.Aion.Rank.{unit, big_endian}

-- The two arrays have the same length.
pub cmp_rank : Bytes → Bytes → ℤ
cmp_rank [] bs = pos 0
cmp_rank (x ∷ xs) [] = pos 0
cmp_rank (x ∷ xs) (y ∷ ys) =
    let rest = cmp_rank xs ys in if ltb x y then negsuc 0 else if ltb y x then pos 1 else rest

pub unit-length : (xs ys : Bytes) → length xs ≡ length ys → unit xs ≡ unit ys
unfolding unit
unit-length [] [] h = refl
unit-length [] (y ∷ ys) h = absurd (omega arith)
unit-length (x ∷ xs) [] h = absurd (omega arith)
unit-length (x ∷ xs) (y ∷ ys) h = omega (arith, unit-length xs ys (omega arith))

pub big_endian-lt-unit : (xs : Bytes) → IsBytes xs → big_endian xs < unit xs
unfolding unit big_endian
big_endian-lt-unit [] h = omega arith
big_endian-lt-unit (x ∷ xs) (hx, h) = grind (arith, big_endian-lt-unit xs h)

head_lt : (x y u p q : ℕ) → x < y → p < u → x * u + p < y * u + q
head_lt x y u p q h k = grind arith

-- On byte strings of the same length CmpRank is the order of the numbers: -1, +1 and 0 exactly when
-- the first is below, above and equal to the second.
pub cmp_rank-big_endian :
    (xs ys : Bytes)
    → length xs ≡ length ys
    → IsBytes xs
    → IsBytes ys
    → cmp_rank xs ys ≡ (
        if ltb (big_endian xs) (big_endian ys)
        then negsuc 0
        else if ltb (big_endian ys) (big_endian xs)
        then pos 1
        else pos 0)
unfolding cmp_rank big_endian
cmp_rank-big_endian [] [] h p q = refl
cmp_rank-big_endian [] (y ∷ ys) h p q = absurd (omega arith)
cmp_rank-big_endian (x ∷ xs) [] h p q = absurd (omega arith)
cmp_rank-big_endian (x ∷ xs) (y ∷ ys) h (px, p) (qy, q) =
    let n : length xs ≡ length ys = omega arith in
    let e = unit-length xs ys n in
    let bx : big_endian xs < unit ys = omega (arith, e, big_endian-lt-unit xs p) in
    rw e (
      ground (
        arith,
        bx,
        big_endian-lt-unit ys q,
        head_lt x y (unit ys) (big_endian xs) (big_endian ys),
        head_lt y x (unit ys) (big_endian ys) (big_endian xs),
        cmp_rank-big_endian xs ys n p q,
      ))
