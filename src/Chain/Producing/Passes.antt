-- ===== src/Chain/Producing/Passes.antt =====
-- internal/blockchain/block.go: the block that `StartBlockBuilderFromPool` gives to the topic, before
-- the checks of `StartBlockSubscriber`.
use custom_consensus.Base.{
  ℕ, Option, ◌≡◌, ◌⊎◌, refl, sym, ap, ◌∙◌, true, false, not, ◌&&◌, ◌||◌, none, some, List, [], Text,
  length, Bytes, is_empty, text_eq, text_eq_refl, eq_of_text_eq, ltb, ◌==◌, All, arith, Bool-cases,
  inl, inr, if◌then◌else◌,
}
use custom_consensus.Base.Int.{inc64, eqb_ℤ}
use custom_consensus.Mempool.{Entry, Pool}
use custom_consensus.Mempool.Bounds.{Limit}
use custom_consensus.Mempool.Queue.{Represents}
use custom_consensus.Chain.{Block, Chain}
use custom_consensus.Chain.Checks.{verify_block}
use custom_consensus.Chain.Subscriber.{
  Settings, tx_bytes, repeats, all_valid, led, not_before, is_none, passes,
}
use custom_consensus.Chain.Builder.{next_txs}
use custom_consensus.Chain.Producing.{
  Host, Production, Cursor, Ticked, sync_cursor, cursor_at_tip, new_block, with_producer,
  publish_block, produce, attested_by, as_function, with_attestation_fetcher, tick, sign_block,
}
use custom_consensus.Chain.Producing.Signed.{Signs, HasRoot, signed, sign_block-verify_block}
use custom_consensus.Chain.Producing.Filled.{Good, next_txs-Good}
use custom_consensus.Chain.Producing.Entries.{Genuine}

-- The builder and the subscriber were started with the same chain and limits, CBOR takes every block,
-- and the cursor is at a height that the host leads, after a parent that is not later than now.
pub record Admits (g : Settings) (p : Production) (key : Bytes) (k : Cursor) (now : ℕ)
    : Type 0 where
  pub same_chain : p.chain_id ≡ g.expected_chain
  pub same_txs : p.max_txs ≡ g.max_txs
  pub same_bytes : p.max_bytes ≡ g.max_bytes
  pub encodes : (b : Block) → p.encodes b ≡ true
  pub leads : led g.leader_ok k.height key ≡ true
  pub timely : (is_empty k.prev ≡ true) ⊎ (not_before (g.parent_time k.prev) now ≡ true)

not_over : (limit n : ℕ) → Limit limit n → (ltb 0 limit && ltb limit n) ≡ false
not_over limit n (inl no_limit) = ground arith
not_over limit n (inr low) = ground arith

sync_cursor_prev : (c : Chain) (k : Cursor) → (sync_cursor c k).prev ≡ c.tip_hash
unfolding sync_cursor cursor_at_tip
sync_cursor_prev c k =
    elim (Bool-cases
      (not (eqb_ℤ k.height (inc64 c.tip_height)) || not (text_eq k.prev c.tip_hash))) [
        | inl moved ↦ rw (moved, sync_cursor) refl
        | inr same ↦ rw (same, sync_cursor) (eq_of_text_eq k.prev c.tip_hash (ground arith))
      ]

passes_all :
    (g : Settings) (b : Block)
    → b.chain_id ≡ g.expected_chain
    → verify_block g.libs b ≡ none
    → led g.leader_ok b.height b.producer_pub ≡ true
    → (ltb 0 g.max_txs && ltb g.max_txs (length b.txs)) ≡ false
    → (ltb 0 g.max_bytes && ltb g.max_bytes (tx_bytes b.txs)) ≡ false
    → repeats [] b.tx_ids ≡ false
    → (not (is_empty b.prev_hash) && not (not_before (g.parent_time b.prev_hash) b.timestamp))
      ≡ false
    → all_valid g.libs.valid_tx b.txs ≡ some true
    → passes g b ≡ some true
unfolding passes is_none
passes_all g b chain verified leader few light fresh timely valid =
    let named : text_eq b.chain_id g.expected_chain ≡ true =
      ap (λ t. text_eq t g.expected_chain) chain ∙ text_eq_refl g.expected_chain in
    rw (named, verified, leader, few, light, fresh, timely, passes) valid

module _ (g : Settings) (h : Host) (s : Signs g.libs h) (p : Production) (k : Cursor)
    (now : ℕ) where
  -- The block that the builder makes of a list of transactions, before and after it is signed.
  abbrev block_of : List Text → List Bytes → Block
  block_of ids txs = with_producer h s.key now (new_block g.libs p k now ids txs)

  abbrev sent : List Text → List Bytes → Block
  sent ids txs = signed g.libs h s (block_of ids txs)

  has_root :
      (txs : List Bytes) (good : Good g.libs p.id_of p.max_txs p.max_bytes txs)
      → HasRoot g.libs (new_block g.libs p k now good.tx_ids txs)
  unfolding new_block
  has_root txs good = record { root = refl; root_some = good.rooted }

  in_time :
      Admits g p s.key k now
      → (not (is_empty k.prev)
          && not (not_before (g.parent_time k.prev) (if now == 0 then now else now)))
        ≡ false
  in_time a = elim a.timely [
    | inl first ↦ ground arith
    | inr after ↦ elim (Bool-cases (now == 0)) [
      | inl z ↦ rw z (ground arith)
      | inr z ↦ rw z (ground arith)
    ]
  ]

  sent-passes :
      (txs : List Bytes)
      → Admits g p s.key k now
      → (good : Good g.libs p.id_of p.max_txs p.max_bytes txs)
      → passes g (sent good.tx_ids txs) ≡ some true
  unfolding new_block with_producer
  sent-passes txs a good =
      passes_all g (sent good.tx_ids txs) a.same_chain
        (sign_block-verify_block g.libs h s now (new_block g.libs p k now good.tx_ids txs)
          (has_root txs good)).1
        a.leads
        (ap (λ n. ltb 0 n && ltb n (length txs)) (sym a.same_txs)
          ∙ not_over p.max_txs (length txs) good.few)
        (ap (λ n. ltb 0 n && ltb n (tx_bytes txs)) (sym a.same_bytes)
          ∙ not_over p.max_bytes (tx_bytes txs) good.light)
        good.fresh (in_time a) good.valid

attested_by-none :
    (fetcher : Option (Bytes → List Bytes)) (prev : Bytes)
    → attested_by (as_function (with_attestation_fetcher fetcher)) prev ≡ []
unfolding attested_by as_function with_attestation_fetcher
attested_by-none none prev = refl
attested_by-none (some fetch) prev = refl

-- The block that a tick leads to: it is given to the topic, passes the subscriber's checks, has the
-- tip as its parent and no attestations, and the cursor goes to it.
pub record Publishes (g : Settings) (c : Chain) (left : Pool) (t : Ticked) (b : Block)
    : Type 0 where
  pub published : t.published ≡ some b
  pub accepted : passes g b ≡ some true
  pub on_tip : b.prev_hash ≡ c.tip_hash
  pub unattested : b.attestations ≡ []
  pub next_prev : t.cursor.prev ≡ b.hash
  pub next_height : t.cursor.height ≡ inc64 b.height
  pub taken : t.pool ≡ left

-- The outcome of a tick that publishes a block.
abbrev published_at : Cursor → Block → Pool → Ticked
published_at k b pool = record {
  cursor = record { height = inc64 k.height; prev = b.hash };
  pool = pool;
  published = some b;
}

-- A tick does not panic and publishes a block, which the subscriber's checks all pass, whose parent is the tip, and which
-- the cursor follows. It has no attestations, whatever fetcher the builder was given, since an
-- AttestFetcher is no func([]byte) [][]byte to a type assertion. The conditions: the builder and the
-- subscriber have the same chain id and limits; CBOR encodes every block; the host leads the epoch of
-- the height that the cursor goes to, and its production is allowed; there is no tip yet, or the tip's
-- timestamp is not known or not later than now; the host's key parses, is the one of its peer ID, and
-- makes signatures that are not empty and that it verifies; SHA-256 is never empty; and the pool holds a
-- queue of entries with ids of their own, whose transactions the subscriber finds valid and the builder
-- reads under these ids, which are hexadecimal and not empty.
pub tick-Publishes :
    (g : Settings) (h : Host) (s : Signs g.libs h) (p : Production) (c : Chain) (k : Cursor)
    (now : ℕ) (pool : Pool) (q : List Entry)
    → Admits g p s.key (sync_cursor c k) now
    → Represents pool q
    → All (Genuine g.libs p.id_of) q
    → (t : Ticked) × (b : Block) × (tick g.libs h p true c k pool now ≡ some t)
      × Publishes g c (next_txs now p.max_txs p.max_bytes pool).1 t b
unfolding tick produce publish_block new_block with_producer
tick-Publishes g h s p c k now pool q a r genuine =
    let k' = sync_cursor c k in
    let txs = (next_txs now p.max_txs p.max_bytes pool).0 in
    let good =
      next_txs-Good g.libs p.id_of s.hash_some now p.max_txs p.max_bytes pool q r genuine in
    let b = sent g h s p k' now good.tx_ids txs in
    let signed_as : sign_block g.libs h now (new_block g.libs p k' now good.tx_ids txs) ≡ some b =
      (sign_block-verify_block g.libs h s now (new_block g.libs p k' now good.tx_ids txs)
        (has_root g h s p k' now txs good)).0 in
    (
      published_at k' b (next_txs now p.max_txs p.max_bytes pool).1,
      b,
      rw (good.reads, signed_as, a.encodes b, tick, produce, publish_block) refl,
      record {
        published = refl;
        accepted = sent-passes g h s p k' now txs a good;
        on_tip = sync_cursor_prev c k;
        unattested = attested_by-none p.fetcher k'.prev;
        next_prev = refl;
        next_height = refl;
        taken = refl;
      },
    )
