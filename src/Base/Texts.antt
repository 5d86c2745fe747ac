-- ===== src/Base/Texts.antt =====
-- Byte strings and texts, both as lists of numbers, and the hexadecimal form of a byte string
-- (`hex.EncodeToString`, `hex.DecodeString`) that the program uses for its map keys.
use Prim.Native.Nat.{ℕ, ◌+◌, ◌-◌, ◌*◌, ◌/◌, ◌%◌, ◌<◌}
use mathlib.Core.Path.{◌≡◌, refl, ap}
use mathlib.Core.Logic.{◌↔◌}
use mathlib.Core.Bool.{Bool, true, false, ◌&&◌}
use mathlib.Core.Option.{Option, none, some}
use mathlib.Core.List.{List, [], ◌∷◌}
use native.Mathlib.Omega.{arith}
use custom_consensus.Base.Tests.{ltb, leb, ◌==◌, if◌then◌else◌}
use custom_consensus.Base.Lists.{All}

abbrev pub Bytes : Type 0
Bytes = List ℕ

abbrev pub Text : Type 0
Text = List ℕ

-- Equality of strings and `bytes.Equal`.
unfoldable pub text_eq : List ℕ → List ℕ → Bool
text_eq [] [] = true
text_eq [] (y ∷ ys) = false
text_eq (x ∷ xs) [] = false
text_eq (x ∷ xs) (y ∷ ys) = (x == y) && text_eq xs ys

pub eq_of_text_eq : (xs ys : List ℕ) → text_eq xs ys ≡ true → xs ≡ ys
unfolding text_eq
eq_of_text_eq [] [] h = refl
eq_of_text_eq [] (y ∷ ys) h = ground arith
eq_of_text_eq (x ∷ xs) [] h = ground arith
eq_of_text_eq (x ∷ xs) (y ∷ ys) h = ground (arith, eq_of_text_eq xs ys)

pub text_eq_refl : (xs : List ℕ) → text_eq xs xs ≡ true
unfolding text_eq
text_eq_refl [] = refl
text_eq_refl (x ∷ xs) = ground (arith, text_eq_refl xs)

pub text_eq_iff : (xs ys : List ℕ) → (text_eq xs ys ≡ true) ↔ (xs ≡ ys)
text_eq_iff xs ys = (eq_of_text_eq xs ys, λ e. cc (text_eq_refl xs))

-- The order of Go strings.
unfoldable pub text_lt : List ℕ → List ℕ → Bool
text_lt [] [] = false
text_lt [] (y ∷ ys) = true
text_lt (x ∷ xs) [] = false
text_lt (x ∷ xs) (y ∷ ys) =
    let rest = text_lt xs ys in if ltb x y then true else if x == y then rest else false

unfoldable pub is_empty : List ℕ → Bool
is_empty [] = true
is_empty (x ∷ xs) = false

-- `0`-`9` and `a`-`f`.
hex_digit : ℕ → ℕ
hex_digit d = if ltb d 10 then 48 + d else 87 + d

-- `A`-`F` are read too.
from_hex_digit : ℕ → Option ℕ
from_hex_digit c =
    if leb 48 c && leb c 57
    then some (c - 48)
    else if leb 97 c && leb c 102
    then some (c - 87)
    else if leb 65 c && leb c 70
    then some (c - 55)
    else none

unfoldable pub hex_encode : Bytes → Text
unfolding hex_digit
hex_encode [] = []
hex_encode (b ∷ bs) = hex_digit (b / 16) ∷ hex_digit (b % 16) ∷ hex_encode bs

join_digits : Option ℕ → Option ℕ → Option Bytes → Option Bytes
join_digits (some h) (some l) (some bs) = some ((h * 16 + l) ∷ bs)
join_digits _ _ _ = none

unfoldable pub hex_decode : Text → Option Bytes
unfolding from_hex_digit join_digits
hex_decode [] = some []
hex_decode (c ∷ []) = none
hex_decode (c ∷ d ∷ r) = join_digits (from_hex_digit c) (from_hex_digit d) (hex_decode r)

abbrev pub IsBytes : Bytes → Type 0
IsBytes = All (λ b. b < 256)

from_hex_digit-hex_digit : (d : ℕ) → d < 16 → from_hex_digit (hex_digit d) ≡ some d
unfolding from_hex_digit hex_digit
from_hex_digit-hex_digit d h = ground arith

join_digits_lem :
    (h l b : ℕ) (bs : Bytes)
    → h * 16 + l ≡ b
    → join_digits (some h) (some l) (some bs) ≡ some (b ∷ bs)
unfolding join_digits
join_digits_lem h l b bs e = ap (λ x. some (x ∷ bs)) e

-- Decoding undoes encoding.
pub hex_decode-hex_encode : (bs : Bytes) → IsBytes bs → hex_decode (hex_encode bs) ≡ some bs
unfolding hex_decode hex_encode
hex_decode-hex_encode [] h = refl
hex_decode-hex_encode (b ∷ bs) (hb, h) =
    rw
      (
        from_hex_digit-hex_digit (b / 16) (omega arith),
        from_hex_digit-hex_digit (b % 16) (omega arith),
        hex_decode-hex_encode bs h,
      )
      (join_digits_lem (b / 16) (b % 16) b bs (omega arith))
