-- ===== src/Chain/Sync/Served.antt =====
-- internal/blockchain/block.go, `RegisterBlockSync`: the proof that a node sends for a transaction.
use custom_consensus.Base.{
  All, take, false, suc, Result, ok, err, suc, ◌≡◌, true, none, some, List, map, get_elem?, Bytes,
  Text, hex_encode, hex_decode,
}
use custom_consensus.Base.Int.{pos}
use custom_consensus.Merkle.{verify_proof}
use custom_consensus.Chain.{Block, Chain}
use custom_consensus.Chain.Checks.{Libs}
use custom_consensus.Chain.Sync.{
  ProofError, tx_not_in_block, bad_txid, TxProof, equal_fold, index_of, decode_ids,
}

-- The answer to a request for a transaction's proof.
pub record Proved (l : Libs) (b : Block) (id : Text) (p : TxProof) : Type 0 where
  pub named : Text
  pub at_index : get_elem? b.tx_ids p.index ≡ some named
  pub same_id : equal_fold named id ≡ true
  pub first : All (λ k. equal_fold k id ≡ false) (take p.index b.tx_ids)
  pub leaf : Bytes
  pub leaf_of : hex_decode named ≡ some leaf
  pub proof : List Bytes
  pub sent : p.proof ≡ map hex_encode proof
  pub root_sent : p.tx_root ≡ hex_encode b.tx_root
  pub verifies : verify_proof l.sha256 leaf proof (pos p.index) b.tx_root ≡ true

-- What the answer may be.
abbrev pub Answer : Libs → Block → Text → Result ProofError TxProof → Type 0
Answer l b id (ok p) = Proved l b id p
Answer l b id (err tx_not_in_block) = index_of id b.tx_ids ≡ none
Answer l b id (err bad_txid) = decode_ids b.tx_ids ≡ none
Answer l b id (err _) = ⊥
