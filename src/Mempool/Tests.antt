-- ===== src/Mempool/Tests.antt =====
-- internal/mempool/mempool.go at concrete inputs: a pool for two transactions and eight bytes.
use custom_consensus.Base.{ℕ, ◌+◌, ◌≡◌, refl, some, List, [], ◌∷◌, length, Bytes, text_eq, get}
use custom_consensus.Base.Int.{pos}
use custom_consensus.Cose.{Tx}
use custom_consensus.Mempool.{Entry, Pool, entry_of, store_entry, add_tx, remove_tx_ids}
use custom_consensus.Mempool.Queue.{Represents, find, total, store_entry-Represents}
use custom_consensus.Mempool.Refine.{Goes}
use custom_consensus.Mempool.Refine.Adds.{add_spec, add_tx-Goes}
use custom_consensus.Mempool.Refine.Removal.{named, without, remove_tx_ids-Goes}

abbrev tx : ℕ → Tx
tx n = record { tx_id = n ∷ []; dev_id = 7 ∷ []; kid = 1 ∷ []; seq = pos n }

abbrev bytes_of : ℕ → Bytes
bytes_of n = n ∷ n ∷ n ∷ []

abbrev entry : ℕ → Entry
entry n = entry_of (tx n) (bytes_of n) 0

abbrev empty_pool : Pool
empty_pool = record {
  entries = [];
  order = [];
  capacity = 2;
  ttl = 10;
  cap_bytes = 8;
  cur_bytes = 0;
}

abbrev two : List Entry
two = entry 1 ∷ entry 2 ∷ []

abbrev pool_two : Pool
pool_two = store_entry (store_entry empty_pool (entry 1)) (entry 2)

empty-Represents : Represents empty_pool []
unfolding find total get
empty-Represents = record {
  in_order = refl;
  exact = λ id. refl;
  unique = tt;
  keys = tt;
  count = refl;
  counted = refl;
}

two-Represents : Represents pool_two two
unfolding find text_eq
two-Represents =
    store_entry-Represents (store_entry empty_pool (entry 1)) (entry 1 ∷ []) (entry 2)
      (store_entry-Represents empty_pool [] (entry 1) empty-Represents refl) refl

add_tx-Goes_example :
    let (seqs', q', r) = add_spec [] pool_two two (tx 3) (bytes_of 3) 5 in
    (p' : Pool) × (add_tx [] pool_two (tx 3) (bytes_of 3) 5 ≡ some (seqs', p', r))
    × Goes pool_two p' q'
add_tx-Goes_example = add_tx-Goes [] pool_two two (tx 3) (bytes_of 3) 5 two-Represents

remove_tx_ids-Goes_example :
    let q' = without (named ((1 ∷ []) ∷ (9 ∷ []) ∷ [])) two in
    Goes pool_two (remove_tx_ids ((1 ∷ []) ∷ (9 ∷ []) ∷ []) pool_two).0 q'
    × ((remove_tx_ids ((1 ∷ []) ∷ (9 ∷ []) ∷ []) pool_two).1 + length q' ≡ length two)
remove_tx_ids-Goes_example =
    remove_tx_ids-Goes ((1 ∷ []) ∷ (9 ∷ []) ∷ []) pool_two two two-Represents
