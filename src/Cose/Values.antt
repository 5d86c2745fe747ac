-- ===== src/Cose/Values.antt =====
-- internal/coseutil/cose.go: decoded CBOR values, and what `ValidateCOSETx` reads of them.
use custom_consensus.Base.{
  ℕ, Bool, true, false, Option, none, some, List, [], ◌∷◌, Bytes, Text, if◌then◌else◌,
}
use custom_consensus.Base.Int.{ℤ, pos, to_int64, eqb_ℤ}

-- The key of an entry of a `map[interface{}]interface{}`, or a value that is no number.
pub data Key : Type 0 where
  int_key : ℤ → Key
  uint_key : ℕ → Key
  other_key : Key

-- A value in an `interface{}`: a map with keys of an integer type is `int_map`. The decoder makes signed
-- numbers `int64` and others `uint64`.
mutual
  pub data Value : Type 0 where
    bytes_value : Bytes → Value
    raw_value : Bytes → Value
    text_value : Text → Value
    int_value : ℤ → Value
    uint_value : ℕ → Value
    array_value : Values → Value
    int_map : Entries → Value
    any_map : Entries → Value
    other_value : Value

  pub data Values : Type 0 where
    last : Values
    item : Value → Values → Values

  pub data Entries : Type 0 where
    no_entry : Entries
    entry : Key → Value → Entries → Entries

-- A map from integers; the first entry of a key counts.
abbrev pub Fields : Type 0
Fields = List (ℤ × Value)

unfoldable pub field : ℤ → Fields → Option Value
field k [] = none
field k ((j, v) ∷ fs) = let rest = field k fs in if eqb_ℤ j k then some v else rest

-- `int64` of a key.
unfoldable pub key_number : Key → Option ℤ
key_number (int_key n) = some n
key_number (uint_key n) = some (to_int64 n)
key_number other_key = none

-- The loop of `asIntKeyedMap`: a later entry replaces an earlier one, and a key that is no number makes
-- it fail.
unfoldable pub add_entries : Entries → Fields → Option Fields
add_entries no_entry out = some out
add_entries (entry k v es) out = elim (key_number k) [
  | none ↦ none
  | some n ↦ add_entries es ((n, v) ∷ out)
]

-- `asIntKeyedMap`
unfoldable pub as_int_keyed_map : Value → Option Fields
as_int_keyed_map (int_map es) = add_entries es []
as_int_keyed_map (any_map es) = add_entries es []
as_int_keyed_map _ = none

-- `toInt64`, zero for what is no number, an absent value included.
unfoldable pub number_of : Option Value → ℤ
number_of (some (int_value n)) = n
number_of (some (uint_value n)) = to_int64 n
number_of _ = pos 0

-- `isUint`, or an `int64`.
unfoldable pub is_number : Option Value → Bool
is_number (some (int_value n)) = true
is_number (some (uint_value n)) = true
is_number _ = false

-- `v.(string)`, empty for what is no string.
unfoldable pub text_of : Option Value → Option Text
text_of (some (text_value t)) = some t
text_of _ = none

unfoldable pub map_of : Option Value → Option Fields
map_of none = none
map_of (some v) = as_int_keyed_map v

-- A byte string.
unfoldable pub bytes_of : Value → Option Bytes
bytes_of (bytes_value bs) = some bs
bytes_of (raw_value bs) = some bs
bytes_of _ = none

unfoldable pub content_of : Value → Option Values
content_of (array_value vs) = some vs
content_of _ = none

-- The four parts of a COSE_Sign1 message.
unfoldable pub four_of : Values → Option (Value × Value × Value × Value)
four_of (item a (item b (item c (item d last)))) = some (a, b, c, d)
four_of _ = none
