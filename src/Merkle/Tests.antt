-- ===== src/Merkle/Tests.antt =====
-- tree.go at concrete leaves, with a short digest for SHA-256.
use custom_consensus.Base.{
  ℕ, ◌+◌, ◌*◌, ◌%◌, ◌≡◌, refl, ◌⊎◌, true, List, [], ◌∷◌, Bytes, length, ok, err,
}
use custom_consensus.Base.Int.{pos, negsuc}
use custom_consensus.Merkle.{
  index_out_of_range, compute_root, compute_proof, verify_proof, next_level, root_loop, proof_loop,
  pad_level, at_index, sibling_index, climb, parent, half_index, same_bytes,
}
use custom_consensus.Merkle.Proofs.{IsRoot, verify_proof-compute_proof}
use custom_consensus.Merkle.Binding.{Collision, verify_proof_binding}

digit_sum : ℕ → Bytes → ℕ
digit_sum acc [] = acc
digit_sum acc (b ∷ bs) = digit_sum ((acc * 3 + b) % 256) bs

digest : Bytes → Bytes
unfolding digit_sum
digest bs = digit_sum 1 bs ∷ []

length-digest : (bs : Bytes) → length (digest bs) ≡ 1
unfolding digest
length-digest bs = refl

abbrev leaves : List Bytes
leaves = (1 ∷ []) ∷ (2 ∷ []) ∷ (3 ∷ []) ∷ []

program : Unit {0}
unfolding digest compute_root compute_proof verify_proof next_level root_loop proof_loop pad_level
    at_index sibling_index climb parent half_index same_bytes
program = tt

root_of_three : compute_root digest leaves ≡ ok (72 ∷ [])
unfolding program
root_of_three = refl

proof_out_of_range :
    (compute_proof digest leaves (pos 3) ≡ err index_out_of_range)
    × (compute_proof digest leaves (negsuc 0) ≡ err index_out_of_range)
unfolding program
proof_out_of_range = (refl, refl)

verify_proof-compute_proof_example :
    (proof : List Bytes) × (root : Bytes) × (compute_proof digest leaves (pos 2) ≡ ok (proof, root))
    × (compute_root digest leaves ≡ ok root)
    × (verify_proof digest (3 ∷ []) proof (pos 2) root ≡ true)
    × IsRoot digest leaves root
verify_proof-compute_proof_example = verify_proof-compute_proof digest leaves 2 (3 ∷ []) refl

abbrev three : Bytes
three = 3 ∷ []

abbrev four : Bytes
four = 4 ∷ []

abbrev proof_of_three : List Bytes
proof_of_three = (3 ∷ []) ∷ (14 ∷ []) ∷ []

abbrev proof_of_four : List Bytes
proof_of_four = (0 ∷ []) ∷ (14 ∷ []) ∷ []

-- The short digest collides, so a leaf that is not in the list has a proof as well.
verify_proof_binding_example : (three ≡ four) ⊎ Collision digest
unfolding program
verify_proof_binding_example =
    verify_proof_binding digest 1 length-digest (pos 2) (72 ∷ []) three four proof_of_three
      proof_of_four refl refl (refl, (refl, tt)) (refl, (refl, tt)) refl refl refl
