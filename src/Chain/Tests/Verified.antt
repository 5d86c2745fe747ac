-- ===== src/Chain/Tests/Verified.antt =====
-- internal/blockchain/block.go, `Verify` and the subscriber at a block with one transaction.
use custom_consensus.Base.{◌≡◌, refl, true, none, some, [], ◌∷◌, text_eq, hex_decode, is_empty}
use custom_consensus.Base.Int.{pos}
use custom_consensus.Merkle.{compute_root, root_loop, at_index}
use custom_consensus.Chain.{Block}
use custom_consensus.Chain.Checks.{
  Libs, verify_block, verify_hashed, hash_for_sign, leaves_of, root_or_empty,
}
use custom_consensus.Chain.Subscriber.{Settings}
use custom_consensus.Chain.Tests.{block_at}

abbrev pub libs : Libs
libs = record {
  sha256 = λ b. b;
  encode = λ b. some (5 ∷ []);
  key_parses = λ k. true;
  signature_ok = λ k h s. true;
  peer_of_key = some;
  valid_tx = λ tx. some true;
}

-- The id is "00".
abbrev pub signed_block : Block
signed_block = record (block_at (pos 1) [] (5 ∷ [])) {
  tx_ids = (48 ∷ 48 ∷ []) ∷ [];
  txs = (1 ∷ []) ∷ [];
  tx_root = 0 ∷ [];
  signature = 9 ∷ [];
}

id_decodes : hex_decode (48 ∷ 48 ∷ []) ≡ some (0 ∷ [])
unfolding hex_decode
id_decodes = refl

pub signed_verifies : verify_block libs signed_block ≡ none
unfolding verify_block verify_hashed hash_for_sign leaves_of root_or_empty compute_root root_loop
    at_index hex_decode text_eq is_empty
signed_verifies = refl

abbrev pub settings : Settings
settings = record {
  libs = libs;
  expected_chain = [];
  leader_ok = none;
  max_txs = 3;
  max_bytes = 9;
  parent_time = λ h. none;
}
