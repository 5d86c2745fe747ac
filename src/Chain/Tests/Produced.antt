-- ===== src/Chain/Tests/Produced.antt =====
-- internal/blockchain/block.go: a tick of the builder on a pool with one transaction.
use custom_consensus.Base.{
  ◌≡◌, refl, true, none, some, [], ◌∷◌, text_eq, text_eq_refl, inr, is_empty, get, hex_decode,
}
use custom_consensus.Base.Int.{pos}
use custom_consensus.Merkle.{compute_root, root_loop, at_index}
use custom_consensus.Mempool.{Entry, Pool, store_entry}
use custom_consensus.Mempool.Queue.{Represents, find, total, store_entry-Represents}
use custom_consensus.Chain.{Block, Chain}
use custom_consensus.Chain.Checks.{Libs, leaves_of, root_or_empty, verify_block}
use custom_consensus.Chain.Subscriber.{Settings, led, not_before}
use custom_consensus.Chain.Builder.{next_txs}
use custom_consensus.Chain.Producing.{
  Host, Production, Cursor, Ticked, sync_cursor, tick, with_producer, sign_block,
}
use custom_consensus.Chain.Producing.Signed.{Signs, HasRoot, signed, sign_block-verify_block}
use custom_consensus.Chain.Producing.Entries.{Genuine}
use custom_consensus.Chain.Producing.Passes.{Admits, Publishes, tick-Publishes}
use custom_consensus.Chain.Tests.{new_chain, empty_pool, block_at}

-- The peer ID of a key is the key, and a signature is what was signed.
abbrev pub outside : Libs
outside = record {
  sha256 = λ b. 7 ∷ b;
  encode = λ b. some b.tx_root;
  key_parses = λ k. true;
  signature_ok = λ k h s. text_eq (7 ∷ h) s;
  peer_of_key = some;
  valid_tx = λ tx. some (text_eq tx (1 ∷ []));
}

abbrev host : Host
host = record { own_key = some (4 ∷ []); own_id = 4 ∷ []; own_sign = λ bs. some (7 ∷ bs) }

host-Signs : Signs outside host
unfolding is_empty
host-Signs = record {
  key = 4 ∷ [];
  has_key = refl;
  parses = refl;
  own_peer = refl;
  sign = λ bs. 7 ∷ bs;
  signs = λ bs. refl;
  verifies = λ bs. text_eq_refl (7 ∷ bs);
  sign_some = λ bs. refl;
  encoding = λ b. b.tx_root;
  encodes = λ b. refl;
  hash_some = λ bs. refl;
}

-- The id of the transaction is "00".
abbrev pub tx_entry : Entry
tx_entry = record { tx_id = 48 ∷ 48 ∷ []; dev_id = 7 ∷ []; seq = pos 1; bytes = 1 ∷ []; added = 0 }

abbrev pub pool_one : Pool
pool_one = store_entry empty_pool tx_entry

pub one-Represents : Represents pool_one (tx_entry ∷ [])
unfolding find total get text_eq
one-Represents =
    store_entry-Represents empty_pool [] tx_entry
      (record {
        in_order = refl;
        exact = λ id. refl;
        unique = tt;
        keys = tt;
        count = refl;
        counted = refl;
      })
      refl

abbrev pub production : Production
production = record {
  chain_id = 9 ∷ [];
  max_txs = 3;
  max_bytes = 8;
  id_of = λ tx. some (48 ∷ 48 ∷ []);
  fetcher = some (λ prev. prev ∷ []);
  encodes = λ b. true;
}

abbrev strict : Settings
strict = record {
  libs = outside;
  expected_chain = 9 ∷ [];
  leader_ok = some (λ epoch producer. text_eq producer (4 ∷ []));
  max_txs = 3;
  max_bytes = 8;
  parent_time = λ hash. some 3;
}

-- The tip has moved since the cursor was set.
abbrev moved : Chain
moved = record new_chain { tip_height = pos 1; tip_hash = 5 ∷ [] }

abbrev stale : Cursor
stale = record { height = pos 1; prev = [] }

one-Genuine : Genuine outside production.id_of tx_entry
unfolding text_eq hex_decode is_empty
one-Genuine = record { named = refl; valid = refl; leaf = 0 ∷ []; decodes = refl; leaf_some = refl }

host-Admits : Admits strict production host-Signs.key (sync_cursor moved stale) 10
unfolding led not_before text_eq host-Signs
host-Admits = record {
  same_chain = refl;
  same_txs = refl;
  same_bytes = refl;
  encodes = λ b. refl;
  leads = refl;
  timely = inr refl;
}

tick-Publishes_example :
    (t : Ticked) × (b : Block) × (tick outside host production true moved stale pool_one 10
      ≡ some t)
    × Publishes strict moved (next_txs 10 3 8 pool_one).1 t b
tick-Publishes_example =
    tick-Publishes strict host host-Signs production moved stale 10 pool_one (tx_entry ∷ [])
      host-Admits one-Represents (one-Genuine, tt)

abbrev unsigned_block : Block
unsigned_block = record (block_at (pos 1) [] []) { tx_ids = (48 ∷ 48 ∷ []) ∷ []; tx_root = 0 ∷ [] }

unsigned_root : HasRoot outside unsigned_block
unfolding root_or_empty compute_root root_loop at_index leaves_of is_empty hex_decode
unsigned_root = record { root = refl; root_some = refl }

sign_block-verify_block_example :
    let b = with_producer host host-Signs.key 10 unsigned_block in
    (sign_block outside host 10 unsigned_block ≡ some (signed outside host host-Signs b))
    × (verify_block outside (signed outside host host-Signs b) ≡ none)
sign_block-verify_block_example =
    sign_block-verify_block outside host host-Signs 10 unsigned_block unsigned_root
