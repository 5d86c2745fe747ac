-- ===== src/Chain/Tests/Answered.antt =====
-- internal/blockchain/block.go: the files and the stream protocol at concrete inputs.
use custom_consensus.Base.{
  List, Bytes, ◌++◌, Option, false, inl, ◌≡◌, ◌⊎◌, refl, ℕ, true, none, some, [], ◌∷◌, text_eq, get,
  hex_decode, arith, inr,
}
use custom_consensus.Base.Int.{pos, negsuc}
use custom_consensus.Cose.Values.{
  bytes_value, int_value, array_value, other_value, last, item, Fields, field, number_of, bytes_of,
  content_of, four_of,
}
use custom_consensus.Cose.Validation.{
  CoseOutside, panicked, expect, registry_register, registry_get, kid_bytes, kid_of, array_in,
  parts_of, protected_of, triad_from_array, validate_cose_tx,
}
use custom_consensus.Chain.{Chain, queue_child, receive_block}
use custom_consensus.Chain.Files.{get_chain}
use custom_consensus.Chain.Files.Restart.{Written, Restarted, receive_block-Restarted}
use custom_consensus.Chain.Sync.{KeyAnswer, check_tx}
use custom_consensus.Chain.Sync.Fetched.{Names, check_tx_fetched}
use custom_consensus.Chain.Tests.{new_chain, first_block, early, early_count}
use custom_consensus.Chain.Tests.Verified.{signed_block}

early-Written : Written early
unfolding queue_child
early-Written =
    (refl, inr (record { no_known = refl; no_txs = refl; no_index = refl; no_tx_index = refl }))

receive_block-Restarted_example :
    (c' : Chain) × (receive_block 2 early first_block ≡ some c')
    × Written c'
    × Restarted c' (get_chain c'.has_data_dir c'.disk)
receive_block-Restarted_example =
    receive_block-Restarted 2 early first_block (omega (arith, early_count)) early-Written

-- The block is saved under its hash, "05".
abbrev stored_chain : Chain
stored_chain = record new_chain {
  disk = record new_chain.disk { blocks = (48 ∷ 53 ∷ [], signed_block) ∷ [] };
}

-- A library that reads one message, under the key id 7.
abbrev header : Fields
header = (pos 1, int_value (negsuc 7)) ∷ (pos 4, bytes_value (7 ∷ [])) ∷ []

abbrev reader : CoseOutside
reader = record {
  decode_tag = λ b. some (
    18,
    array_value (
        item (bytes_value (1 ∷ []))
          (item other_value (item (bytes_value (2 ∷ [])) (item (bytes_value (3 ∷ [])) last)))),
  );
  decode_array = λ b. none;
  decode_map = λ b. some header;
  encode_map = λ v. none;
  sig_structure = λ prot bs. some prot;
  ed25519_verify = λ key bs sig. text_eq sig (3 ∷ []);
  sha256 = λ bs. bs;
}

message-Names : Names reader (9 ∷ []) (7 ∷ [])
unfolding parts_of array_in expect content_of four_of triad_from_array protected_of bytes_of field
    number_of kid_of kid_bytes
message-Names = record {
  parts = (bytes_value (1 ∷ []), other_value, bytes_value (2 ∷ []), bytes_value (3 ∷ []));
  parts_in = refl;
  triad = (1 ∷ [], 2 ∷ [], 3 ∷ []);
  triad_in = refl;
  protected = refl;
  header = header;
  decoded = refl;
  alg = refl;
  named = refl;
  to_sign = 1 ∷ [];
  encoded = refl;
}

-- A key of one byte.
abbrev short_answer : KeyAnswer
short_answer = record { found = true; key_hex = 48 ∷ 48 ∷ [] }

no_key : registry_get [] (7 ∷ []) ≡ none
unfolding registry_get get
no_key = refl

short_key : hex_decode short_answer.key_hex ≡ some (0 ∷ [])
unfolding hex_decode
short_key = refl

-- The first peer fails, the second one has no key.
abbrev silent_peers : List (Option KeyAnswer)
silent_peers = none ∷ some (record { found = false; key_hex = [] }) ∷ []

abbrev answering : Bytes → List (Option KeyAnswer)
answering kid = silent_peers ++ some short_answer ∷ []

check_tx_fetched_example :
    let keys = registry_register [] (7 ∷ []) (0 ∷ []) in
    (check_tx reader answering [] (9 ∷ []) ≡ (keys, validate_cose_tx reader keys (9 ∷ [])))
    × ((let n : ℕ = 1 in n ≡ 32) ⊎ (validate_cose_tx reader keys (9 ∷ []) ≡ panicked))
check_tx_fetched_example =
    check_tx_fetched reader answering [] (9 ∷ []) (7 ∷ []) silent_peers short_answer [] (0 ∷ [])
      message-Names no_key refl (tt, (inl refl, tt)) refl short_key
