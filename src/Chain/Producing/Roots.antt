-- ===== src/Chain/Producing/Roots.antt =====
-- internal/blockchain/block.go: the root of a block that the builder makes.
use custom_consensus.Base.{◌≡◌, refl, false, List, [], ◌∷◌, ◌++◌, Bytes, is_empty, All}
use custom_consensus.Merkle.{compute_root}
use custom_consensus.Merkle.Levels.{halve}
use custom_consensus.Merkle.Proofs.{IsRoot, top, up, verify_proof-compute_proof}
use custom_consensus.Chain.Checks.{root_or_empty}

abbrev pub NonEmpty : Bytes → Type 0
NonEmpty bs = is_empty bs ≡ false

module _ (sha256 : Bytes → Bytes) (some_hash : (bs : Bytes) → NonEmpty (sha256 bs)) where
  halve-NonEmpty : (level : List Bytes) → All NonEmpty (halve sha256 level)
  unfolding halve
  halve-NonEmpty [] = tt
  halve-NonEmpty (a ∷ []) = (some_hash (a ++ a), tt)
  halve-NonEmpty (a ∷ b ∷ rest) = (some_hash (a ++ b), halve-NonEmpty rest)

  root-NonEmpty :
      {level : List Bytes} {r : Bytes} → IsRoot sha256 level r → All NonEmpty level → NonEmpty r
  root-NonEmpty top (h, t) = h
  root-NonEmpty {level} (up more above) h = root-NonEmpty above (halve-NonEmpty level)

  -- Leaves that are not empty have a root that is not empty.
  pub compute_root-NonEmpty :
      (leaf : Bytes) (leaves : List Bytes)
      → NonEmpty leaf
      → All NonEmpty leaves
      → NonEmpty (root_or_empty (compute_root sha256 (leaf ∷ leaves)))
  unfolding root_or_empty
  compute_root-NonEmpty leaf leaves h t =
      let (proof, root, proved, rooted, accepted, is_root) =
        verify_proof-compute_proof sha256 (leaf ∷ leaves) 0 leaf refl in
      rw rooted (root-NonEmpty is_root (h, t))
