-- ===== src/Chain/Sync.antt =====
-- internal/blockchain/block.go: what nodes ask of each other over streams (`RegisterBlockSync`,
-- `fetchAndInjectParent` and `FetchAndRegisterKey`). The answers of the connected peers are an argument,
-- in the order in which they are asked; `none` is one that fails or does not decode.
pub mod Fetched
pub mod Served
use custom_consensus.Base.{
  Result, ok, err, ℕ, zero, suc, ◌+◌, Bool, true, false, not, ◌&&◌, Option, none, some, List, [],
  ◌∷◌, map, Bytes, Text, text_eq, is_empty, hex_encode, hex_decode, Map, if◌then◌else◌,
}
use custom_consensus.Base.Int.{ℤ, pos}
use custom_consensus.Iot.{to_lower}
use custom_consensus.Merkle.{Error, compute_proof}
use custom_consensus.Cose.{Tx}
use custom_consensus.Cose.Validation.{
  CoseOutside, CoseError, unknown_kid, Outcome, panicked, refused, accepted, registry_register,
  registry_get, validate_cose_tx, extract_kid,
}
use custom_consensus.Chain.{Block, Chain, receive_block}
use custom_consensus.Chain.Cascade.{waiting_count}
use custom_consensus.Chain.Checks.{Libs, verify_block}
use custom_consensus.Chain.Files.{get_tip, load_block_by_hash}

-- The answer to `getkey`, with the key in hexadecimal.
pub record KeyAnswer : Type 0 where
  pub found : Bool
  pub key_hex : Text

-- `FetchAndRegisterKey`: the keys, and whether one was registered.
unfoldable pub fetch_and_register_key :
    Map Bytes → Bytes → List (Option KeyAnswer) → Map Bytes × Bool
fetch_and_register_key keys kid [] = (keys, false)
fetch_and_register_key keys kid (none ∷ peers) = fetch_and_register_key keys kid peers
fetch_and_register_key keys kid (some a ∷ peers) =
    let rest = fetch_and_register_key keys kid peers in
    if not a.found then rest else elim (hex_decode a.key_hex) [
      | none ↦ rest
      | some key ↦ (registry_register keys kid key, true)
    ]

unfoldable pub is_unknown_kid : CoseError → Bool
is_unknown_kid unknown_kid = true
is_unknown_kid _ = false

module _ (o : CoseOutside) (peers : Bytes → List (Option KeyAnswer)) where
  -- A transaction with an unknown key id, which `ExtractKid` finds or not.
  unfoldable pub retry_tx : Map Bytes → Bytes → Outcome Bytes → Map Bytes × Outcome Tx
  retry_tx keys tx (accepted kid) =
      let (keys', fetched) = fetch_and_register_key keys kid (peers kid) in
      (keys', if fetched then validate_cose_tx o keys' tx else refused unknown_kid)
  retry_tx keys tx _ = (keys, refused unknown_kid)

  unfoldable pub check_outcome : Map Bytes → Bytes → Outcome Tx → Map Bytes × Outcome Tx
  check_outcome keys tx (refused e) =
      if is_unknown_kid e then retry_tx keys tx (extract_kid o tx) else (keys, refused e)
  check_outcome keys tx r = (keys, r)

  -- The check of a transaction by the block subscriber: the keys, which may have grown, and the
  -- outcome.
  unfoldable pub check_tx : Map Bytes → Bytes → Map Bytes × Outcome Tx
  check_tx keys tx = check_outcome keys tx (validate_cose_tx o keys tx)

  -- The loop over the transactions of a block; `none` is the panic of a check.
  unfoldable pub check_txs : Map Bytes → List Bytes → Option (Map Bytes × Bool)
  check_txs keys [] = some (keys, true)
  check_txs keys (tx ∷ txs) =
      let (keys', r) = check_tx keys tx in
      elim r [
        | panicked ↦ none
        | refused e ↦ some (keys', false)
        | accepted t ↦ check_txs keys' txs
      ]

-- `fetchAndInjectParent`, with the blocks that the peers send: the first that verifies is received.
unfoldable pub inject_parent : Libs → ℕ → Chain → List (Option Block) → Option Chain
inject_parent l fuel c [] = some c
inject_parent l fuel c (none ∷ peers) = inject_parent l fuel c peers
inject_parent l fuel c (some b ∷ peers) = elim (verify_block l b) [
  | none ↦ receive_block fuel c b
  | some e ↦ inject_parent l fuel c peers
]

-- A tick of the retry loop, for the keys that wait: the missing parents are fetched one after another.
-- The fuel is one more than the number of blocks that wait at the time.
unfoldable pub retry_waiting :
    Libs → (Bytes → List (Option Block)) → List Text → Chain → Option Chain
retry_waiting l peers [] c = some c
retry_waiting l peers (key ∷ keys) c = elim (hex_decode key) [
  | none ↦ retry_waiting l peers keys c
  | some parent ↦ elim (inject_parent l (suc (waiting_count c)) c (peers parent)) [
    | none ↦ none
    | some c' ↦ retry_waiting l peers keys c'
  ]
]

-- A saved file decodes, so that `bad block` is not among them.
pub data ProofError : Type 0 where
  block_not_found : ProofError
  tx_not_in_block : ProofError
  bad_txid : ProofError
  no_proof : Error → ProofError

-- `strings.EqualFold`, for ASCII.
unfoldable pub equal_fold : Text → Text → Bool
equal_fold a b = text_eq (to_lower a) (to_lower b)

-- The index of a transaction in a block.
unfoldable pub index_of : Text → List Text → Option ℕ
index_of id [] = none
index_of id (j ∷ ids) =
    let rest = index_of id ids in
    if equal_fold j id then some 0 else elim rest [ none ↦ none | some i ↦ some (suc i) ]

-- All ids decoded, unless one is not hexadecimal.
unfoldable pub decode_ids : List Text → Option (List Bytes)
decode_ids [] = some []
decode_ids (id ∷ ids) = elim (hex_decode id) [
  | none ↦ none
  | some leaf ↦ elim (decode_ids ids) [ none ↦ none | some leaves ↦ some (leaf ∷ leaves) ]
]

-- The index, the hashes of the proof and the root.
pub record TxProof : Type 0 where
  pub index : ℕ
  pub proof : List Text
  pub tx_root : Text

unfoldable pub proof_answer : ℕ → Result Error (List Bytes × Bytes) → Result ProofError TxProof
proof_answer i (ok (proof, root)) =
    ok (record { index = i; proof = map hex_encode proof; tx_root = hex_encode root })
proof_answer i (err e) = err (no_proof e)

unfoldable pub proof_at : (Bytes → Bytes) → List Text → Option ℕ → Result ProofError TxProof
proof_at sha256 ids none = err tx_not_in_block
proof_at sha256 ids (some i) = elim (decode_ids ids) [
  | none ↦ err bad_txid
  | some leaves ↦ proof_answer i (compute_proof sha256 leaves (pos i))
]

unfoldable pub proof_in : (Bytes → Bytes) → Text → Option Block → Result ProofError TxProof
proof_in sha256 id none = err block_not_found
proof_in sha256 id (some b) = proof_at sha256 b.tx_ids (index_of id b.tx_ids)

-- The answer to `txproof`. The files decode, since the node wrote them.
unfoldable pub tx_proof : (Bytes → Bytes) → Chain → Text → Text → Result ProofError TxProof
tx_proof sha256 c block_hash id = proof_in sha256 id (load_block_by_hash c block_hash)

-- The answer to `getkey`, if the key id is hexadecimal.
unfoldable pub key_answer : Option Bytes → KeyAnswer
key_answer none = record { found = false; key_hex = [] }
key_answer (some key) = record { found = true; key_hex = hex_encode key }

unfoldable pub get_key : Map Bytes → Text → Option KeyAnswer
get_key keys kid_hex = elim (hex_decode kid_hex) [
  | none ↦ none
  | some kid ↦ some (key_answer (registry_get keys kid))
]

pub data SyncRequest : Type 0 where
  ask_tip : SyncRequest
  ask_block : Text → SyncRequest
  ask_proof : Text → Text → SyncRequest
  ask_key : Text → SyncRequest
  ask_other : SyncRequest

pub data SyncAnswer : Type 0 where
  tip_answer : ℤ × Text → SyncAnswer
  block_answer : Option Block → SyncAnswer
  tx_proof_answer : Result ProofError TxProof → SyncAnswer
  key_sent : KeyAnswer → SyncAnswer
  silent : SyncAnswer

unfoldable pub sent_key : Option KeyAnswer → SyncAnswer
sent_key none = silent
sent_key (some a) = key_sent a

-- `RegisterBlockSync`, for the chain that the request names.
unfoldable pub answer_sync : (Bytes → Bytes) → Chain → Map Bytes → SyncRequest → SyncAnswer
answer_sync sha256 c keys ask_tip = tip_answer (get_tip c)
answer_sync sha256 c keys (ask_block hash) = block_answer (load_block_by_hash c hash)
answer_sync sha256 c keys (ask_proof hash id) = tx_proof_answer (tx_proof sha256 c hash id)
answer_sync sha256 c keys (ask_key kid_hex) = sent_key (get_key keys kid_hex)
answer_sync sha256 c keys ask_other = silent
