-- ===== src/Cose/Tests.antt =====
-- Witnesses for the validation of transactions.
use custom_consensus.Base.{
  ◌≡◌, refl, some, none, [], ◌∷◌, Bytes, put, text_eq, hex_encode, Map, get, if◌then◌else◌,
  is_empty,
}
use custom_consensus.Base.Int.{pos, negsuc, to_int64}
use custom_consensus.Cose.{Tx}
use custom_consensus.Cose.Values.{
  bytes_value, text_value, int_value, uint_value, array_value, any_map, other_value, last, item,
  no_entry, entry, uint_key, Fields, field, number_of, is_number, text_of, map_of, as_int_keyed_map,
  add_entries, key_number, bytes_of, content_of, four_of,
}
use custom_consensus.Cose.Validation.{
  CoseOutside, accepted, expect, ensure, registry_register, registry_get, kid_bytes, kid_of,
  fee_denom, fee_valid, device_of, read_payload, array_in, parts_of, protected_of, triad_from_array,
  check_signature, finish, validate_cose_tx,
}
use custom_consensus.Cose.Validation.Accepted.{Valid, validate_cose_tx-Valid}

abbrev pub key_of_32 : Bytes
key_of_32 =
    1 ∷ 2 ∷ 3 ∷ 4 ∷ 5 ∷ 6 ∷ 7 ∷ 8 ∷ 9 ∷ 10 ∷ 11 ∷ 12 ∷ 13 ∷ 14 ∷ 15 ∷ 16 ∷ 17 ∷ 18 ∷ 19 ∷ 20 ∷ 21
    ∷ 22 ∷ 23 ∷ 24 ∷ 25 ∷ 26 ∷ 27 ∷ 28 ∷ 29 ∷ 30 ∷ 31 ∷ 32 ∷ []

abbrev pub header : Fields
header = (pos 1, int_value (negsuc 7)) ∷ (pos 4, bytes_value (7 ∷ [])) ∷ []

abbrev pub payload : Fields
payload =
    (pos 0, uint_value 1)
    ∷ (pos 1, text_value (110 ∷ []))
    ∷ (pos 2, text_value (100 ∷ []))
    ∷ (pos 3, any_map (entry (uint_key 0) (text_value (108 ∷ [])) no_entry))
    ∷ (pos 4, uint_value 5)
    ∷ (
      pos 6,
      any_map
          (entry (uint_key 0) (uint_value 25) (entry (uint_key 1) (text_value fee_denom) no_entry)),
    )
    ∷ (pos 8, any_map no_entry)
    ∷ []

-- A library that reads one message: its header is the byte 1, its payload any other.
abbrev pub library : CoseOutside
library = record {
  decode_tag = λ b. some (
    18,
    array_value (
        item (bytes_value (1 ∷ []))
          (item other_value (item (bytes_value (2 ∷ [])) (item (bytes_value (3 ∷ [])) last)))),
  );
  decode_array = λ b. none;
  decode_map = λ b. if text_eq b (1 ∷ []) then some header else some payload;
  encode_map = λ v. none;
  sig_structure = λ prot bs. some (prot);
  ed25519_verify = λ key bs sig. text_eq sig (3 ∷ []);
  sha256 = λ bs. bs;
}

abbrev pub keys : Map Bytes
keys = registry_register [] (7 ∷ []) key_of_32

abbrev pub tx : Tx
tx = record { tx_id = hex_encode (2 ∷ []); dev_id = 108 ∷ []; kid = 7 ∷ []; seq = pos 5 }

tx_accepted : validate_cose_tx library keys (9 ∷ []) ≡ accepted tx
unfolding validate_cose_tx parts_of array_in expect ensure content_of four_of triad_from_array
    protected_of bytes_of check_signature field number_of is_number kid_of kid_bytes registry_get
    registry_register get read_payload text_of map_of as_int_keyed_map add_entries key_number
    fee_valid device_of is_empty finish text_eq put hex_encode to_int64
tx_accepted = refl

validate_cose_tx-Valid_example : Valid library keys (9 ∷ []) tx
validate_cose_tx-Valid_example = validate_cose_tx-Valid library keys (9 ∷ []) tx tx_accepted
