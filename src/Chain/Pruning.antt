-- ===== src/Chain/Pruning.antt =====
-- internal/blockchain/block.go, `StartBlockSubscriberWithMempool`: an accepted block leaves the pool.
use custom_consensus.Base.{
  ℕ, ◌<◌, ◌≡◌, ◌⊎◌, Bool, true, false, ◌&&◌, ◌||◌, Option, none, some, List, if◌then◌else◌,
}
use custom_consensus.Mempool.{Entry, Pool, remove_tx_ids}
use custom_consensus.Mempool.Queue.{Represents}
use custom_consensus.Mempool.Refine.{Goes, stays}
use custom_consensus.Mempool.Refine.Removal.{without, named, remove_tx_ids-Goes}
use custom_consensus.Chain.{Block, Chain, is_first, extends_known}
use custom_consensus.Chain.Cascade.{waiting_count}
use custom_consensus.Chain.Rooted.{AllSound, Grown, Taken}
use custom_consensus.Chain.Subscriber.{
  Settings, Fulfils, passes, Turn, panics, handled, handle_block, SomePanics, Came,
  handle_block_lem,
}

-- The block passed, and was not stopped by a panic.
abbrev pub accepts : Option Bool → Bool
accepts none = false
accepts (some ok) = ok

-- The block is accepted at once, so that `onAccept` is called for it; one that is queued is not.
unfoldable pub accepted_at_once : Settings → Chain → Block → Bool
accepted_at_once g c b = accepts (passes g b) && (is_first b || extends_known c b)

-- `hook`, without what the caller adds to it.
unfoldable pub prune_pool : Bool → Block → Pool → Pool
prune_pool accepted b pool = if accepted then (remove_tx_ids b.tx_ids pool).0 else pool

unfoldable pub prune_after : Bool → Block → Pool → Turn Chain → Turn (Chain × Pool)
prune_after accepted b pool panics = panics
prune_after accepted b pool (handled none) = handled none
prune_after accepted b pool (handled (some c')) = handled (some (c', prune_pool accepted b pool))

-- One turn of the subscriber's loop, with the pool.
unfoldable pub handle_and_prune : Settings → ℕ → Chain → Pool → Block → Turn (Chain × Pool)
handle_and_prune g fuel c pool b =
    prune_after (accepted_at_once g c b) b pool (handle_block g fuel c b)

-- The queue after a block message.
abbrev pub left_in_pool : Bool → Block → List Entry → List Entry
left_in_pool accepted b q = if accepted then without (named b.tx_ids) q else q

prune_pool-Goes :
    (accepted : Bool) (b : Block) (pool : Pool) (q : List Entry)
    → Represents pool q
    → Goes pool (prune_pool accepted b pool) (left_in_pool accepted b q)
unfolding prune_pool
prune_pool-Goes true b pool q r = (remove_tx_ids-Goes b.tx_ids pool q r).0
prune_pool-Goes false b pool q r = stays pool q r

-- What the handler comes to: a panic in the validation of a transaction of the block, or it returned.
-- Then the chain knows what it knew, and either is as it was or the block fulfils the checks and was
-- taken; and the pool lost the transactions that the block names, if it passed and was accepted at once.
abbrev pub Pruned : Settings → Chain → Pool → List Entry → Block → Turn (Chain × Pool) → Type 0
Pruned g c pool q b panics = SomePanics g.libs.valid_tx b.txs × (passes g b ≡ none)
Pruned g c pool q b (handled none) = ⊥
Pruned g c pool q b (handled (some (c', pool'))) =
    AllSound c'
    × Grown c c'
    × (((passes g b ≡ some false) × (c' ≡ c))
        ⊎ ((passes g b ≡ some true) × Fulfils g b × Taken c b c'))
    × Goes pool pool' (left_in_pool (accepts (passes g b) && (is_first b || extends_known c b)) b q)

-- The turn, from what the handling of the block came to.
prune_after-Pruned :
    (g : Settings) (c : Chain) (pool : Pool) (q : List Entry) (b : Block) (r : Turn Chain)
    → Represents pool q
    → Came g c b r
    → Pruned g c pool q b (prune_after (accepted_at_once g c b) b pool r)
unfolding prune_after accepted_at_once
prune_after-Pruned g c pool q b panics r came = came
prune_after-Pruned g c pool q b (handled none) r came = came
prune_after-Pruned g c pool q b (handled (some c')) r (sound, grown, changed) =
    (sound, grown, changed, prune_pool-Goes (accepted_at_once g c b) b pool q r)

-- A block message, with fuel for one call more than blocks wait: the handler returns, unless the checks
-- panic, which they do in the validation of a transaction of the block only. It leaves the chain as it is unless the block is for
-- the expected chain, verifies, has at most as many transactions and bytes as the limits allow, names no
-- transaction twice, and has valid transactions only; then the block is known, or waits for its parent.
-- The chain keeps what it knows. The pool loses the transactions that the block names, if it passes the
-- checks and is accepted at once, and nothing else, whatever blocks are accepted with it.
pub handle_and_prune-Goes :
    (g : Settings) (fuel : ℕ) (c : Chain) (pool : Pool) (q : List Entry) (b : Block)
    → waiting_count c < fuel
    → AllSound c
    → Represents pool q
    → Pruned g c pool q b (handle_and_prune g fuel c pool b)
unfolding handle_and_prune
handle_and_prune-Goes g fuel c pool q b small sound r =
    prune_after-Pruned g c pool q b (handle_block g fuel c b) r
      (handle_block_lem g fuel c b small sound)
