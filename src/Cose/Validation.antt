-- ===== src/Cose/Validation.antt =====
-- internal/coseutil/cose.go: the registry of keys, and the validation of a transaction.
pub mod Accepted
use custom_consensus.Base.{
  ℕ, ◌+◌, Bool, true, false, not, ◌&&◌, ◌||◌, Option, none, some, List, [], ◌∷◌, ◌++◌, length, take,
  Bytes, Text, text_eq, is_empty, hex_encode, Map, get, put, ◌==◌, if◌then◌else◌,
}
use custom_consensus.Base.Int.{ℤ, pos, negsuc, eqb_ℤ, leb_ℤ, ltb_ℤ}
use custom_consensus.Cose.{Tx}
use custom_consensus.Cose.Values.{
  Value, Values, bytes_value, int_map, any_map, Fields, field, number_of, is_number, text_of,
  map_of, bytes_of, content_of, four_of,
}

-- The CBOR library, SHA-256 and `ed25519.Verify` for a key of 32 bytes. `decode_tag` yields the number
-- and the content of a tag, `sig_structure` the encoding of `Signature1` with a protected header and a
-- payload.
pub record CoseOutside : Type 0 where
  pub decode_tag : Bytes → Option (ℕ × Value)
  pub decode_array : Bytes → Option Values
  pub decode_map : Bytes → Option Fields
  pub encode_map : Value → Option Bytes
  pub sig_structure : Bytes → Bytes → Option Bytes
  pub ed25519_verify : Bytes → Bytes → Bytes → Bool
  pub sha256 : Bytes → Bytes

pub data CoseError : Type 0 where
  bad_content : CoseError
  decode_failed : CoseError
  array_length : CoseError
  not_bstr : CoseError
  protected_map : CoseError
  wrong_alg : CoseError
  missing_kid : CoseError
  kid_type : CoseError
  sig_struct : CoseError
  unknown_kid : CoseError
  signature_mismatch : CoseError
  payload_decode : CoseError
  payload_field : ℕ → CoseError
  fee_invalid : CoseError
  device_missing : CoseError

-- `ed25519.Verify` panics on a key of another length.
pub data Outcome {ℓ} (A : Type ℓ) : Type ℓ where
  panicked : Outcome A
  refused : CoseError → Outcome A
  accepted : A → Outcome A

infixl 5 ◌>>=◌
abbrev ◌>>=◌ {ℓ κ} : {A : Type ℓ} {B : Type κ} → Outcome A → (A → Outcome B) → Outcome B
panicked >>= f = panicked
refused e >>= f = refused e
accepted a >>= f = f a

unfoldable pub expect {ℓ} : {A : Type ℓ} → CoseError → Option A → Outcome A
expect e none = refused e
expect e (some a) = accepted a

unfoldable pub ensure : CoseError → Bool → Outcome (Unit {0})
ensure e ok = if ok then accepted tt else refused e

-- `RegistryRegister` and `RegistryGet`
unfoldable pub registry_register : Map Bytes → Bytes → Bytes → Map Bytes
registry_register keys kid key = put (hex_encode kid) key keys

unfoldable pub registry_get : Map Bytes → Bytes → Option Bytes
registry_get keys kid = get (hex_encode kid) keys

-- `kidv.([]byte)`
unfoldable pub kid_bytes : Value → Option Bytes
kid_bytes (bytes_value bs) = some bs
kid_bytes _ = none

unfoldable pub kid_of : Fields → Outcome Bytes
kid_of ph = do v ← expect missing_kid (field (pos 4) ph); expect kid_type (kid_bytes v)

-- `uCR`
abbrev pub fee_denom : Text
fee_denom = 117 ∷ 67 ∷ 82 ∷ []

unfoldable pub fee_valid : Fields → Bool
fee_valid fee =
    leb_ℤ (pos 1) (number_of (field (pos 0) fee))
    && (elim (text_of (field (pos 1) fee)) [ none ↦ false | some t ↦ text_eq t fee_denom ])

unfoldable pub device_of : Fields → Text
device_of dev = elim (text_of (field (pos 0) dev)) [ none ↦ [] | some t ↦ t ]

-- The checks of the payload: the device and the sequence number.
unfoldable pub read_payload : Fields → Outcome (Text × ℤ)
read_payload pl = do
  version ← ensure (payload_field 0) (is_number (field (pos 0) pl))
  network ← expect (payload_field 1) (text_of (field (pos 1) pl))
  tx_type ← expect (payload_field 2) (text_of (field (pos 2) pl))
  dev ← expect (payload_field 3) (map_of (field (pos 3) pl))
  later ← ensure (payload_field 4) (ltb_ℤ (pos 0) (number_of (field (pos 4) pl)))
  fee ← expect (payload_field 6) (map_of (field (pos 6) pl))
  paid ← ensure fee_invalid (fee_valid fee)
  content ← expect (payload_field 8) (map_of (field (pos 8) pl))
  named ← ensure device_missing (not (is_empty (device_of dev)))
  accepted (device_of dev, number_of (field (pos 4) pl))

module _ (o : CoseOutside) where
  unfoldable pub array_in : Bytes → Option (ℕ × Value) → Outcome Values
  array_in b none = expect decode_failed (o.decode_array b)
  array_in b (some tag) =
      if tag.0 == 18
      then expect bad_content (content_of tag.1)
      else expect decode_failed (o.decode_array b)

  -- The parts of the message, tagged or not.
  unfoldable pub parts_of : Bytes → Outcome (Value × Value × Value × Value)
  unfolding array_in
  parts_of b = do arr ← array_in b (o.decode_tag b); expect array_length (four_of arr)

  -- The protected header, as bytes or as a map.
  unfoldable pub protected_of : Value → Option Bytes
  protected_of (int_map es) = o.encode_map (int_map es)
  protected_of (any_map es) = o.encode_map (any_map es)
  protected_of v = bytes_of v

  -- `triadFromArray`
  unfoldable pub triad_from_array : Value × Value × Value × Value → Outcome (Bytes × Bytes × Bytes)
  triad_from_array (h, u, p, s) = do
    prot ← expect not_bstr (protected_of h)
    payload ← expect not_bstr (bytes_of p)
    sig ← expect not_bstr (bytes_of s)
    accepted (prot, payload, sig)

  -- From the protected map on: the key id, if the signature verifies under its key.
  unfoldable pub check_signature : Map Bytes → Bytes × Bytes × Bytes → Outcome Bytes
  check_signature keys (prot, payload, sig) = do
    ph ← expect protected_map (o.decode_map prot)
    alg ← ensure wrong_alg (eqb_ℤ (number_of (field (pos 1) ph)) (negsuc 7))
    kid ← kid_of ph
    to_sign ← expect sig_struct (o.sig_structure prot payload)
    key ← expect unknown_kid (registry_get keys kid)
    signed ←
        if length key == 32
        then ensure signature_mismatch (o.ed25519_verify key to_sign sig)
        else panicked
    accepted kid

  unfoldable pub finish : Bytes → Bytes → Text × ℤ → Tx
  finish payload kid (dev_id, seq) = record {
    tx_id = hex_encode (o.sha256 payload);
    dev_id = dev_id;
    kid = kid;
    seq = seq;
  }

  -- `ValidateCOSETx`
  unfoldable pub validate_cose_tx : Map Bytes → Bytes → Outcome Tx
  validate_cose_tx keys b = do
    parts ← parts_of b
    triad ← triad_from_array parts
    kid ← check_signature keys triad
    pl ← expect payload_decode (o.decode_map triad.1)
    read ← read_payload pl
    accepted (finish triad.1 kid read)

  -- `ExtractKid`
  unfoldable pub extract_kid : Bytes → Outcome Bytes
  extract_kid b = do
    parts ← parts_of b
    prot ← expect not_bstr (protected_of parts.0)
    ph ← expect protected_map (o.decode_map prot)
    kid_of ph

  -- `KidFromPub`
  unfoldable pub kid_from_pub : Bytes → Bytes
  kid_from_pub key = take 8 (o.sha256 key)
