-- ===== src/Chain/Checks.antt =====
-- internal/blockchain/block.go, `Verify` and the subscriber's checks of a block. CBOR, the keys and the
-- validation of transactions are parameters.
use custom_consensus.Base.{
  ◌≡◌, Bool, false, not, ◌&&◌, ◌||◌, Option, none, some, List, [], ◌∷◌, length, Bytes, Text,
  is_empty, text_eq, eq_of_text_eq, hex_decode, ltb, inl, inr, arith, Option-cases, if◌then◌else◌,
  Result, ok, err,
}
use custom_consensus.Merkle.{compute_root, Error}
use custom_consensus.Chain.{Block}

pub data VerifyError : Type 0 where
  not_encoded missing_hash hash_mismatch tx_root_mismatch bad_key bad_signature other_peer :
      VerifyError

-- The libraries: `encode` is CBOR of the block without hash and signature, `signature_ok` the key's
-- `Verify` without an error, `peer_of_key` the key's peer id. `valid_tx` is the subscriber's check of a
-- transaction: `ValidateCOSETx`, and again once an unknown key was fetched; `none` is a panic, which a
-- key of a wrong length leads to.
pub record Libs : Type 0 where
  pub sha256 : Bytes → Bytes
  pub encode : Block → Option Bytes
  pub key_parses : Bytes → Bool
  pub signature_ok : Bytes → Bytes → Bytes → Bool
  pub peer_of_key : Bytes → Option Text
  pub valid_tx : Bytes → Option Bool

-- The ids that are not hexadecimal are left out.
unfoldable pub leaves_of : List Text → List Bytes
leaves_of [] = []
leaves_of (id ∷ ids) = elim (hex_decode id) [ none ↦ leaves_of ids | some b ↦ b ∷ leaves_of ids ]

-- The root, which `ComputeRoot` always returns (Merkle.Proofs).
unfoldable pub root_or_empty : Result Error Bytes → Bytes
root_or_empty (ok root) = root
root_or_empty (err e) = []

-- `Block` without `Hash` and `Signature`
abbrev pub unsigned : Block → Block
unsigned b = record b { hash = []; signature = [] }

module _ (l : Libs) where
  -- `hashForSign`
  unfoldable pub hash_for_sign : Block → Option Bytes
  hash_for_sign b = elim (l.encode (unsigned b)) [ none ↦ none | some by ↦ some (l.sha256 by) ]

  unfoldable pub other_producer : Option Text → Text → Bool
  other_producer none producer_id = false
  other_producer (some pid) producer_id =
      not (is_empty producer_id) && not (text_eq producer_id pid)

  -- `Verify` after the hash is computed; `none` is no error.
  unfoldable pub verify_hashed : Block → Bytes → Option VerifyError
  unfolding other_producer leaves_of root_or_empty
  verify_hashed b hash =
      let want = root_or_empty (compute_root l.sha256 (leaves_of b.tx_ids)) in
      if is_empty b.hash || is_empty b.signature
      then some missing_hash
      else if not (text_eq hash b.hash)
      then some hash_mismatch
      else if (is_empty want && ltb 0 (length b.tx_ids)) || not (text_eq want b.tx_root)
      then some tx_root_mismatch
      else if not (l.key_parses b.producer_pub)
      then some bad_key
      else if not (l.signature_ok b.producer_pub b.hash b.signature)
      then some bad_signature
      else if other_producer (l.peer_of_key b.producer_pub) b.producer_id
      then some other_peer
      else none

  -- `Verify`
  unfoldable pub verify_block : Block → Option VerifyError
  unfolding verify_hashed
  verify_block b = elim (hash_for_sign b) [
    | none ↦ some not_encoded
    | some hash ↦ verify_hashed b hash
  ]

  verify_hashed_root :
      (b : Block) (hash : Bytes)
      → verify_hashed b hash ≡ none
      → root_or_empty (compute_root l.sha256 (leaves_of b.tx_ids)) ≡ b.tx_root
  unfolding verify_hashed
  verify_hashed_root b hash e =
      eq_of_text_eq (root_or_empty (compute_root l.sha256 (leaves_of b.tx_ids))) b.tx_root
        (ground arith)

  pub verify_block_root :
      (b : Block)
      → verify_block b ≡ none
      → root_or_empty (compute_root l.sha256 (leaves_of b.tx_ids)) ≡ b.tx_root
  unfolding verify_block
  verify_block_root b e = elim (Option-cases (hash_for_sign b)) [
    | inl failed ↦ absurd (ground arith)
    | inr (hash, hashed) ↦ verify_hashed_root b hash (rw (hashed, verify_block) at e)
  ]
