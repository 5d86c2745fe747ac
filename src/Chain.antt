-- ===== src/Chain.antt =====
-- internal/blockchain/block.go: the in-memory chain, and what `acceptBlockLocked` and the block
-- subscriber do to it. Files are written without failing; `dataDir` is set or not for the whole run.
pub mod Cascade
pub mod Rooted
pub mod Tip
pub mod Checks
pub mod Subscriber
pub mod Builder
pub mod Files
pub mod Sync
pub mod Producing
pub mod Pruning
mod Tests
use custom_consensus.Base.{
  ℕ, zero, suc, ◌+◌, Bool, true, false, not, ◌&&◌, ◌||◌, Option, none, some, List, [], ◌∷◌, ◌++◌,
  length, Bytes, Text, is_empty, text_eq, hex_encode, Map, get, put, del, has, if◌then◌else◌,
}
use custom_consensus.Base.Int.{ℤ, pos, ltb_ℤ, eqb_ℤ, inc64}

pub record Block : Type 0 where
  pub version : ℤ
  pub chain_id : Text
  pub height : ℤ
  pub prev_hash : Bytes
  pub timestamp : ℕ
  pub producer_id : Text
  pub producer_pub : Bytes
  pub tx_ids : List Text
  pub txs : List Bytes
  pub hash : Bytes
  pub signature : Bytes
  pub tx_root : Bytes
  pub attestations : List Bytes

pub record TxRef : Type 0 where
  pub block_hash : Text
  pub height : ℤ

pub record SavedIndex : Type 0 where
  pub tip_height : ℤ
  pub tip_hash : Bytes
  pub known : Map ℤ

-- The files under `dataDir`.
pub record Disk : Type 0 where
  pub blocks : Map Block
  pub index : Option SavedIndex
  pub tx_index : Option (Map TxRef)

pub record Chain : Type 0 where
  pub tip_height : ℤ
  pub tip_hash : Bytes
  pub known : Map ℤ
  pub waiting : Map (List Block)
  pub tx_index : Map TxRef
  pub has_data_dir : Bool
  pub disk : Disk

-- `recordKnown`
unfoldable pub record_known : Chain → Bytes → ℤ → Chain
record_known c hash height = record c { known = put (hex_encode hash) height c.known }

-- `isKnown`
unfoldable pub known_height : Chain → Bytes → Option ℤ
known_height c hash = get (hex_encode hash) c.known

unfoldable pub waiting_for : Chain → Text → List Block
waiting_for c key = elim (get key c.waiting) [ none ↦ [] | some blocks ↦ blocks ]

-- `queueChild`
unfoldable pub queue_child : Chain → Bytes → Block → Chain
unfolding waiting_for
queue_child c prev b =
    let key = hex_encode prev in
    record c { waiting = put key (waiting_for c key ++ (b ∷ [])) c.waiting }

-- `popChildren`
unfoldable pub pop_children : Chain → Bytes → List Block × Chain
unfolding waiting_for
pop_children c parent =
    let key = hex_encode parent in
    elim (waiting_for c key) [
      | [] ↦ ([], c)
      | b ∷ blocks ↦ (b ∷ blocks, record c { waiting = del key c.waiting })
    ]

-- The test of `acceptBlockLocked` that moves the tip.
unfoldable pub advances : Chain → Block → Bool
advances c b =
    (eqb_ℤ c.tip_height (pos 0) && (eqb_ℤ b.height (pos 1) && is_empty b.prev_hash))
    || ((eqb_ℤ b.height (inc64 c.tip_height) && text_eq b.prev_hash c.tip_hash)
        || ltb_ℤ c.tip_height b.height)

unfoldable pub move_tip : Chain → Block → Chain
unfolding advances
move_tip c b = if advances c b then record c { tip_height = b.height; tip_hash = b.hash } else c

-- `saveBlock`, `saveIndex` and `saveTxIndex`
unfoldable pub save_block : Chain → Block → Chain
save_block c b =
    if c.has_data_dir
    then record c { disk = record c.disk { blocks = put (hex_encode b.hash) b c.disk.blocks } }
    else c

unfoldable pub save_index : Chain → Chain
save_index c =
    if c.has_data_dir
    then record c {
      disk = record c.disk {
        index = some (record { tip_height = c.tip_height; tip_hash = c.tip_hash; known = c.known });
      };
    }
    else c

unfoldable pub save_tx_index : Chain → Chain
save_tx_index c =
    if c.has_data_dir then record c { disk = record c.disk { tx_index = some c.tx_index } } else c

-- The loop over `b.TxIDs`.
unfoldable pub index_txs : List Text → TxRef → Map TxRef → Map TxRef
index_txs [] ref m = m
index_txs (id ∷ ids) ref m = index_txs ids ref (if has id m then m else put id ref m)

-- `acceptBlockLocked` down to the children.
unfoldable pub record_block : Chain → Block → Chain
unfolding record_known move_tip save_block save_index index_txs save_tx_index
record_block c b =
    let c₁ = save_index (save_block (move_tip (record_known c b.hash b.height) b) b) in
    save_tx_index (record c₁ {
      tx_index =
          index_txs b.tx_ids (record { block_hash = hex_encode b.hash; height = b.height })
            c₁.tx_index;
    })

-- A block goes on the height of its parent.
unfoldable pub extends_known : Chain → Block → Bool
unfolding known_height
extends_known c b = elim (known_height c b.prev_hash) [
  | none ↦ false
  | some h ↦ eqb_ℤ b.height (inc64 h)
]

-- The loop over the children; `accept` is the recursive call.
unfoldable pub accept_children : (Chain → Block → Option Chain) → List Block → Chain → Option Chain
unfolding extends_known queue_child
accept_children accept [] c = some c
accept_children accept (b ∷ blocks) c = elim (extends_known c b) [
  | false ↦ accept_children accept blocks (queue_child c b.prev_hash b)
  | true ↦ elim (accept c b) [ none ↦ none | some c' ↦ accept_children accept blocks c' ]
]

-- `acceptBlockLocked`, on fuel for its recursion; `none` stands for too little of it.
unfoldable pub accept_block : ℕ → Chain → Block → Option Chain
unfolding record_block pop_children accept_children
accept_block zero c b = none
accept_block (suc fuel) c b =
    let (children, c') = pop_children (record_block c b) b.hash in
    accept_children (accept_block fuel) children c'

abbrev pub is_first : Block → Bool
is_first b = eqb_ℤ b.height (pos 1) && is_empty b.prev_hash

-- The end of the subscriber's loop, and of `fetchAndInjectParent`: accept now, or queue.
unfoldable pub receive_block : ℕ → Chain → Block → Option Chain
unfolding accept_block extends_known queue_child
receive_block fuel c b =
    if is_first b
    then accept_block fuel c b
    else if extends_known c b
    then accept_block fuel c b
    else some (queue_child c b.prev_hash b)

-- `GetBlockByTxID`
pub block_of_tx : Chain → Text → Option TxRef
block_of_tx c id = get id c.tx_index
