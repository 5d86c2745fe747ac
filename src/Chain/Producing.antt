-- ===== src/Chain/Producing.antt =====
-- internal/blockchain/block.go, `Sign` and the loop of `StartBlockBuilderFromPool`: how a node signs and
-- publishes a block.
pub mod Signed
pub mod Roots
pub mod Entries
pub mod Filled
pub mod Passes
pub mod Pooled
pub mod Older
use custom_consensus.Base.{
  ℕ, Bool, true, false, not, ◌||◌, Option, none, some, List, [], ◌∷◌, map, Bytes, Text, is_empty,
  text_eq, ◌==◌, if◌then◌else◌,
}
use custom_consensus.Base.Int.{ℤ, pos, eqb_ℤ, leb_ℤ, inc64}
use custom_consensus.Merkle.{compute_root}
use custom_consensus.Mempool.{Pool}
use custom_consensus.Chain.{Block, Chain}
use custom_consensus.Chain.Checks.{Libs, leaves_of, root_or_empty, hash_for_sign}
use custom_consensus.Chain.Builder.{next_txs}

-- The host's key: its public half in the form of libp2p, its peer ID, and its signatures.
pub record Host : Type 0 where
  pub own_key : Option Bytes
  pub own_id : Text
  pub own_sign : Bytes → Option Bytes

-- What the builder was started with: `id_of` is the id that `ValidateCOSETx` returns, empty if it fails,
-- and `none` is a panic; `fetcher` is what `WithAttestationFetcher` was given; `encodes` says that CBOR
-- takes the signed block.
pub record Production : Type 0 where
  pub chain_id : Text
  pub max_txs : ℕ
  pub max_bytes : ℕ
  pub id_of : Bytes → Option Text
  pub fetcher : Option (Bytes → List Bytes)
  pub encodes : Block → Bool

-- The cursor of the builder.
pub record Cursor : Type 0 where
  pub height : ℤ
  pub prev : Bytes

unfoldable pub at_least_one : ℤ → ℤ
at_least_one h = if leb_ℤ h (pos 0) then pos 1 else h

-- The cursor at the tip, before the loop and when it is reset.
unfoldable pub cursor_at_tip : Chain → Cursor
cursor_at_tip c = record { height = at_least_one (inc64 c.tip_height); prev = c.tip_hash }

unfoldable pub sync_cursor : Chain → Cursor → Cursor
sync_cursor c k =
    if not (eqb_ℤ k.height (inc64 c.tip_height)) || not (text_eq k.prev c.tip_hash)
    then cursor_at_tip c
    else k

-- `Sign` once the host's key is there. A time of 0 is the zero time.
unfoldable pub with_producer : Host → Bytes → ℕ → Block → Block
with_producer h key now b = record b {
  producer_pub = key;
  producer_id = h.own_id;
  timestamp = if b.timestamp == 0 then now else b.timestamp;
}

unfoldable pub add_signature : Block → Bytes → Option Bytes → Option Block
add_signature b hash none = none
add_signature b hash (some sig) = some (record b { hash = hash; signature = sig })

unfoldable pub add_hash : Host → Block → Option Bytes → Option Block
add_hash h b none = none
add_hash h b (some hash) = add_signature b hash (h.own_sign hash)

unfoldable pub sign_with : Libs → Host → ℕ → Block → Option Bytes → Option Block
sign_with l h now b none = none
sign_with l h now b (some key) =
    let b' = with_producer h key now b in add_hash h b' (hash_for_sign l b')

-- `Sign`; `none` is an error.
unfoldable pub sign_block : Libs → Host → ℕ → Block → Option Block
sign_block l h now b = sign_with l h now b h.own_key

-- The value that a context has under `ctxKeyGetAttest`, by its dynamic type: an `AttestFetcher`, or a
-- `func([]byte) [][]byte`.
pub data ContextValue : Type 0 where
  attest_fetcher : (Bytes → List Bytes) → ContextValue
  plain_function : (Bytes → List Bytes) → ContextValue

-- `WithAttestationFetcher`
unfoldable pub with_attestation_fetcher : Option (Bytes → List Bytes) → Option ContextValue
with_attestation_fetcher none = none
with_attestation_fetcher (some fetch) = some (attest_fetcher fetch)

-- `v.(func([]byte) [][]byte)`, which holds for this very type only.
unfoldable pub as_function : Option ContextValue → Option (Bytes → List Bytes)
as_function none = none
as_function (some (attest_fetcher fetch)) = none
as_function (some (plain_function fetch)) = some fetch

unfoldable pub attested_by : Option (Bytes → List Bytes) → Bytes → List Bytes
attested_by none prev = []
attested_by (some fetch) prev = if is_empty prev then [] else fetch prev

-- The ids of the transactions; `none` is a panic.
unfoldable pub read_ids : (Bytes → Option Text) → List Bytes → Option (List Text)
read_ids id_of [] = some []
read_ids id_of (tx ∷ txs) = elim (id_of tx) [
  | none ↦ none
  | some id ↦ elim (read_ids id_of txs) [ none ↦ none | some ids ↦ some (id ∷ ids) ]
]

-- The block before it is signed.
unfoldable pub new_block : Libs → Production → Cursor → ℕ → List Text → List Bytes → Block
new_block l p k now ids txs = record {
  version = pos 1;
  chain_id = p.chain_id;
  height = k.height;
  prev_hash = k.prev;
  timestamp = now;
  producer_id = [];
  producer_pub = [];
  tx_ids = ids;
  txs = txs;
  hash = [];
  signature = [];
  tx_root = root_or_empty (compute_root l.sha256 (leaves_of ids));
  attestations = attested_by (as_function (with_attestation_fetcher p.fetcher)) k.prev;
}

-- What a tick leads to: the cursor, the pool, and the block that is given to the topic.
pub record Ticked : Type 0 where
  pub cursor : Cursor
  pub pool : Pool
  pub published : Option Block

unfoldable pub publish_block : Production → Cursor → Pool → Option Block → Ticked
publish_block p k pool none = record { cursor = k; pool = pool; published = none }
publish_block p k pool (some b) =
    if p.encodes b
    then record {
      cursor = record { height = inc64 k.height; prev = b.hash };
      pool = pool;
      published = some b;
    }
    else record { cursor = k; pool = pool; published = none }

unfoldable pub produce : Libs → Host → Production → Cursor → ℕ → List Bytes → Pool → Option Ticked
produce l h p k now txs pool = elim (read_ids p.id_of txs) [
  | none ↦ none
  | some ids ↦ some (publish_block p k pool (sign_block l h now (new_block l p k now ids txs)))
]

-- A tick of the builder; `allowed` is what `allowProduce` says, and `none` is a panic.
unfoldable pub tick : Libs → Host → Production → Bool → Chain → Cursor → Pool → ℕ → Option Ticked
tick l h p allowed c k pool now =
    let k' = sync_cursor c k in
    let next = next_txs now p.max_txs p.max_bytes pool in
    if not allowed
    then some (record { cursor = k'; pool = pool; published = none })
    else produce l h p k' now next.0 next.1
