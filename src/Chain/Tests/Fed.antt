-- ===== src/Chain/Tests/Fed.antt =====
-- internal/mempool/mempool.go: a transaction that validates goes into a pool,
-- and one of an accepted block leaves it.
use custom_consensus.Base.{true, some, [], ◌∷◌, arith}
use custom_consensus.Cose.{Tx}
use custom_consensus.Cose.Tests.{library, tx}
use custom_consensus.Cose.Validation.{CoseOutside, Outcome, panicked, refused, accepted}
use custom_consensus.Chain.Checks.{Libs}
use custom_consensus.Chain.Producing.{Production}
use custom_consensus.Chain.Producing.Pooled.{Pooled}
use custom_consensus.Chain.Tests.{early, early_count, early_sound}
use custom_consensus.Chain.Tests.Produced.{outside, production, tx_entry, pool_one, one-Represents}
use custom_consensus.Chain.Tests.Verified.{settings, signed_block}
use custom_consensus.Chain.Pruning.{handle_and_prune, Pruned, handle_and_prune-Goes}

abbrev hashing : CoseOutside
hashing = record library { sha256 = λ bs. 2 ∷ [] }

abbrev libs_alike : Libs
libs_alike = record outside { valid_tx = λ b. some true }

abbrev production_alike : Production
production_alike = record production { id_of = λ b. some tx.tx_id }

abbrev accepted_or : Tx → Outcome Tx → Tx
accepted_or t panicked = t
accepted_or t (refused e) = t
accepted_or t (accepted u) = u

handle_and_prune-Goes_example :
    Pruned settings early pool_one
      (tx_entry ∷ [])
      signed_block
      (handle_and_prune settings 2 early pool_one signed_block)
handle_and_prune-Goes_example =
    handle_and_prune-Goes settings 2 early pool_one (tx_entry ∷ []) signed_block
      (omega (arith, early_count)) early_sound one-Represents
