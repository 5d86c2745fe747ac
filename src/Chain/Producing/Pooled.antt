-- ===== src/Chain/Producing/Pooled.antt =====
-- internal/mempool/mempool.go and internal/coseutil/cose.go: what the block builder finds in the pool.
use custom_consensus.Base.{◌≡◌, true, none, some, List, Bytes, All}
use custom_consensus.Cose.{Tx}
use custom_consensus.Cose.Validation.{Outcome, accepted}
use custom_consensus.Mempool.{Entry, Pool, AddOutcome}
use custom_consensus.Mempool.Queue.{Represents}
use custom_consensus.Chain.Checks.{Libs}
use custom_consensus.Chain.Producing.{Production}
use custom_consensus.Chain.Producing.Entries.{Genuine}

-- What `validate` accepts, the builder reads with the same id, and the subscriber accepts.
pub record SameValidation (l : Libs) (p : Production) (validate : Bytes → Outcome Tx) : Type 0 where
  pub same_id : (b : Bytes) (tx : Tx) → validate b ≡ accepted tx → p.id_of b ≡ some tx.tx_id
  pub same_valid : (b : Bytes) (tx : Tx) → validate b ≡ accepted tx → l.valid_tx b ≡ some true

-- The pool holds entries that the builder can use.
abbrev pub Pooled : Libs → Production → Pool → Type 0
Pooled l p pool = (q : List Entry) × Represents pool q × All (Genuine l p.id_of) q

-- The addition returned, and left a pool of entries that the builder can use.
abbrev pub Added : Libs → Production → AddOutcome → Type 0
Added l p none = ⊥
Added l p (some (seqs, pool, r)) = Pooled l p pool
