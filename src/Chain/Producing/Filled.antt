-- ===== src/Chain/Producing/Filled.antt =====
-- internal/blockchain/block.go: the transactions that the builder fills a block with, before the checks
-- of `StartBlockSubscriber`.
use custom_consensus.Base.{
  ℕ, ◌≡◌, ap, ◌∙◌, some, Option, true, false, ◌&&◌, List, [], take, length, Bytes, Text, is_empty,
  ltb, All,
}
use custom_consensus.Merkle.{compute_root}
use custom_consensus.Mempool.{Entry, Pool}
use custom_consensus.Mempool.Bounds.{Limit}
use custom_consensus.Mempool.Queue.{ids, Represents}
use custom_consensus.Mempool.Refine.{swept, sweep-Goes}
use custom_consensus.Mempool.Refine.Batch.{batch_size}
use custom_consensus.Chain.Checks.{Libs, leaves_of, root_or_empty}
use custom_consensus.Chain.Subscriber.{tx_bytes, repeats, repeats-Different, all_valid}
use custom_consensus.Chain.Builder.{next_txs, next_txs_lem}
use custom_consensus.Chain.Producing.{read_ids}
use custom_consensus.Chain.Producing.Entries.{
  Genuine, All-take, map-take, Unique-take, All-swept, Unique-Different, bytes_of_all, Genuine-ids,
  Genuine-valid, Genuine-root,
}

-- What the checks ask of a list of transactions.
pub record Good (l : Libs) (id_of : Bytes → Option Text) (max_txs max_bytes : ℕ) (txs : List Bytes)
    : Type 0 where
  pub few : Limit max_txs (length txs)
  pub light : Limit max_bytes (tx_bytes txs)
  pub tx_ids : List Text
  pub reads : read_ids id_of txs ≡ some tx_ids
  pub fresh : repeats [] tx_ids ≡ false
  pub valid : all_valid l.valid_tx txs ≡ some true
  pub rooted :
      (is_empty (root_or_empty (compute_root l.sha256 (leaves_of tx_ids))) && ltb 0 (length tx_ids))
      ≡ false

pub next_txs-Good :
    (l : Libs) (id_of : Bytes → Option Text)
    (some_hash : (bs : Bytes) → is_empty (l.sha256 bs) ≡ false) (now max_txs max_bytes : ℕ)
    (p : Pool) (q : List Entry)
    → Represents p q
    → All (Genuine l id_of) q
    → Good l id_of max_txs max_bytes (next_txs now max_txs max_bytes p).0
next_txs-Good l id_of some_hash now max_txs max_bytes p q r a =
    let s = swept p now q in
    let n = batch_size max_txs (length s) in
    let ((k, same), light, few, left) = next_txs_lem now max_txs max_bytes p q r in
    let es = take k (take n s) in
    let txs : (next_txs now max_txs max_bytes p).0 ≡ bytes_of_all es =
      same ∙ map-take (λ e. e.bytes) k (take n s) in
    let genuine : All (Genuine l id_of) es =
      All-take _ k (take n s) (All-take _ n s (All-swept _ p now q a)) in
    let unique = Unique-take k (take n s) (Unique-take n s (sweep-Goes p q now r).holds.unique) in
    record {
      few = few;
      light = light;
      tx_ids = ids es;
      reads = ap (read_ids id_of) txs ∙ Genuine-ids l id_of es genuine;
      fresh = repeats-Different (ids es) (Unique-Different es unique);
      valid = ap (all_valid l.valid_tx) txs ∙ Genuine-valid l id_of es genuine;
      rooted = Genuine-root l id_of some_hash es genuine;
    }
