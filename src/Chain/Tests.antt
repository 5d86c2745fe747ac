-- ===== src/Chain/Tests.antt =====
-- internal/blockchain/block.go at concrete inputs: a child that arrives before its parent.
mod Answered
mod Fed
mod Produced
mod Verified
use custom_consensus.Base.{
  ℕ, ◌+◌, ◌≤◌, ◌<◌, ◌≡◌, refl, true, false, none, Bool, List, [], ◌∷◌, map, length, take, drop,
  Bytes, Text, text_eq, has, get, put, del, hex_encode, is_empty, if◌then◌else◌,
}
use custom_consensus.Base.Int.{ℤ, pos, ltb_ℤ}
use custom_consensus.Chain.{
  Block, Chain, Disk, record_known, move_tip, advances, save_block, save_index, save_tx_index,
  index_txs, record_block, queue_child, pop_children, waiting_for, extends_known, known_height,
  accept_children, accept_block,
}
use custom_consensus.Chain.Cascade.{waiting_count, lists_total, Settles, accept_block-Settles}
use custom_consensus.Chain.Rooted.{AllSound}
use custom_consensus.Chain.Tip.{move_tip_height}
use custom_consensus.Chain.Builder.{next_txs, next_txs_lem}
use custom_consensus.Chain.Subscriber.{tx_bytes}
use custom_consensus.Mempool.{Entry, Pool, entry_of, store_entry}
use custom_consensus.Mempool.Queue.{Represents, find, total, store_entry-Represents}
use custom_consensus.Mempool.Refine.{Goes, swept}
use custom_consensus.Mempool.Bounds.{Limit}
use custom_consensus.Mempool.Refine.Batch.{batch_size}

abbrev pub block_at : ℤ → Bytes → Bytes → Block
block_at height prev hash = record {
  version = pos 1;
  chain_id = [];
  height = height;
  prev_hash = prev;
  timestamp = 0;
  producer_id = [];
  producer_pub = [];
  tx_ids = hash ∷ [];
  txs = [];
  hash = hash;
  signature = [];
  tx_root = [];
  attestations = [];
}

abbrev pub no_files : Disk
no_files = record { blocks = []; index = none; tx_index = none }

abbrev pub new_chain : Chain
new_chain = record {
  tip_height = pos 0;
  tip_hash = [];
  known = [];
  waiting = [];
  tx_index = [];
  has_data_dir = true;
  disk = no_files;
}

abbrev pub first_block : Block
first_block = block_at (pos 1) [] (5 ∷ [])

abbrev second_block : Block
second_block = block_at (pos 2) (5 ∷ []) (6 ∷ [])

-- The second block came first.
abbrev pub early : Chain
early = queue_child new_chain (5 ∷ []) second_block

pub early_count : waiting_count early ≡ 1
unfolding queue_child waiting_for get put lists_total
early_count = refl

pub early_sound : AllSound early
unfolding queue_child
early_sound = tt

abbrev entry : ℕ → Entry
entry n = record { tx_id = n ∷ []; dev_id = 7 ∷ []; seq = pos n; bytes = n ∷ n ∷ n ∷ []; added = 0 }

abbrev pub empty_pool : Pool
empty_pool = record {
  entries = [];
  order = [];
  capacity = 9;
  ttl = 10;
  cap_bytes = 0;
  cur_bytes = 0;
}

abbrev pool_two : Pool
pool_two = store_entry (store_entry empty_pool (entry 1)) (entry 2)

abbrev two : List Entry
two = entry 1 ∷ entry 2 ∷ []

two-Represents : Represents pool_two two
unfolding find total get text_eq
two-Represents =
    store_entry-Represents (store_entry empty_pool (entry 1)) (entry 1 ∷ []) (entry 2)
      (store_entry-Represents empty_pool [] (entry 1)
        (record {
          in_order = refl;
          exact = λ id. refl;
          unique = tt;
          keys = tt;
          count = refl;
          counted = refl;
        })
        refl)
      refl

next_txs_lem_example :
    let (txs, p') = next_txs 1 5 4 pool_two in
    let n = batch_size 5 (length (swept pool_two 1 two)) in
    ((k : ℕ) × (txs ≡ take k (map (λ e. e.bytes) (take n (swept pool_two 1 two)))))
    × Limit 4 (tx_bytes txs)
    × Limit 5 (length txs)
    × Goes pool_two p' (drop n (swept pool_two 1 two))
next_txs_lem_example = next_txs_lem 1 5 4 pool_two two two-Represents
