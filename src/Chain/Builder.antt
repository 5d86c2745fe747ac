-- ===== src/Chain/Builder.antt =====
-- internal/blockchain/block.go, `StartBlockBuilderFromPool`: how a block is filled from the pool.
use custom_consensus.Base.{
  ℕ, suc, ◌+◌, ◌≤◌, ◌<◌, ◌≡◌, refl, ap, ◌∙◌, ◌&&◌, inl, inr, List, [], ◌∷◌, map, length, take, drop,
  Bytes, ltb, leb, arith, Bool-cases, if◌then◌else◌,
}
use custom_consensus.Chain.Subscriber.{tx_bytes}
use custom_consensus.Mempool.{Entry, Pool, pop_batch}
use custom_consensus.Mempool.Queue.{Represents}
use custom_consensus.Mempool.Refine.{Goes, swept}
use custom_consensus.Mempool.Bounds.{Limit, limited}
use custom_consensus.Mempool.Refine.Batch.{batch_size, pop_batch-Goes}

-- The loop over `batch`: the transactions of the block, with the bytes and the transactions that it
-- has so far. A limit that is not positive is 0.
unfoldable pub fill_block : ℕ → ℕ → ℕ → ℕ → List Bytes → List Bytes
fill_block max_txs max_bytes bytes txs [] = []
fill_block max_txs max_bytes bytes txs (tx ∷ batch) =
    let rest = fill_block max_txs max_bytes (bytes + length tx) (suc txs) batch in
    if ltb 0 max_bytes && ltb max_bytes (bytes + length tx)
    then []
    else if ltb 0 max_txs && leb max_txs (suc txs)
    then tx ∷ []
    else tx ∷ rest

-- The transactions of the next block, and the pool without the batch.
unfoldable pub next_txs : ℕ → ℕ → ℕ → Pool → List Bytes × Pool
unfolding fill_block
next_txs now max_txs max_bytes p =
    let (batch, p') = pop_batch now max_txs p in (fill_block max_txs max_bytes 0 0 batch, p')

fill_block_lem :
    (max_txs max_bytes bytes txs : ℕ) (batch : List Bytes)
    → (0 < max_bytes → bytes ≤ max_bytes)
    → (0 < max_txs → txs < max_txs)
    → let filled = fill_block max_txs max_bytes bytes txs batch in
      ((k : ℕ) × (filled ≡ take k batch))
      × (0 < max_bytes → bytes + tx_bytes filled ≤ max_bytes)
      × (0 < max_txs → txs + length filled ≤ max_txs)
unfolding fill_block tx_bytes
fill_block_lem max_txs max_bytes bytes txs [] h k =
    ((0, refl), λ p. omega (arith, h p), λ p. omega (arith, k p))
fill_block_lem max_txs max_bytes bytes txs (tx ∷ batch) h k =
    elim (Bool-cases (ltb 0 max_bytes && ltb max_bytes (bytes + length tx))) [
      | inl full ↦
          rw (full, fill_block) ((0, refl), λ p. omega (arith, h p), λ p. omega (arith, k p))
      | inr fits ↦ elim (Bool-cases (ltb 0 max_txs && leb max_txs (suc txs))) [
        | inl last ↦
            rw (fits, last, fill_block) ((1, refl), λ p. ground arith, λ p. omega (arith, k p))
        | inr more ↦
            let ((n, same), light, few) =
              fill_block_lem max_txs max_bytes (bytes + length tx) (suc txs) batch
                (λ p. ground arith) (λ p. ground arith) in
            rw (fits, more, fill_block)
              ((suc n, ap (◌∷◌ tx) same), λ p. omega (arith, light p), λ p. omega (arith, few p))
      ]
    ]

-- The transactions of a block are the oldest ones of the batch, and keep to both limits. The pool that
-- stays lacks the whole batch: what is in it and not in the block is in neither.
pub next_txs_lem :
    (now max_txs max_bytes : ℕ) (p : Pool) (q : List Entry)
    → Represents p q
    → let (txs, p') = next_txs now max_txs max_bytes p in
      let n = batch_size max_txs (length (swept p now q)) in
      ((k : ℕ) × (txs ≡ take k (map (λ e. e.bytes) (take n (swept p now q)))))
      × Limit max_bytes (tx_bytes txs)
      × Limit max_txs (length txs)
      × Goes p p' (drop n (swept p now q))
unfolding next_txs
next_txs_lem now max_txs max_bytes p q r =
    let (batch, left) = pop_batch-Goes now max_txs p q r in
    let filled = fill_block max_txs max_bytes 0 0 (pop_batch now max_txs p).0 in
    let ((k, same), light, few) =
      fill_block_lem max_txs max_bytes 0 0 (pop_batch now max_txs p).0 (λ h. omega arith)
        (λ h. omega (arith, h)) in
    (
      (k, same ∙ ap (take k) batch),
      limited max_bytes (tx_bytes filled) (λ h. omega (arith, light h)),
      limited max_txs (length filled) (λ h. omega (arith, few h)),
      left,
    )
