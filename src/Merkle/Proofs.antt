-- ===== src/Merkle/Proofs.antt =====
-- tree.go: `ComputeRoot` and `ComputeProof` always return for an index in range, and `VerifyProof`
-- accepts what they return.
use mathlib.Core.List.{append_assoc, append-nil}
use custom_consensus.Base.{
  ℕ, zero, suc, ◌/◌, ◌≤◌, ◌<◌, ◌≡◌, refl, sym, ap, ◌∙◌, true, some, List, [], ◌∷◌, ◌++◌, arith,
  length, get_elem?, get_elem?-lt, Bytes, ltb, ok,
}
use custom_consensus.Base.Int.{pos}
use custom_consensus.Merkle.{
  at_index, root_loop, proof_loop, compute_root, compute_proof, climb, parent, half_index,
  same_bytes, verify_proof, sibling_index,
}
use custom_consensus.Merkle.Levels.{
  even_up, halve, pad_level_lem, next_level_lem, at_index-some, length-halve, sibling_lem,
}

module _ (sha256 : Bytes → Bytes) where
  -- The root of a level by definition: a lone node, or the root of the level above.
  pub data IsRoot : List Bytes → Bytes → Type 0 where
    top : {a : Bytes} → IsRoot (a ∷ []) a
    up :
        {level : List Bytes} {r : Bytes}
        → 1 < length level
        → IsRoot (halve sha256 level) r
        → IsRoot level r

  root_loop_top : (f : ℕ) (a : Bytes) → root_loop sha256 (suc f) (a ∷ []) ≡ ok a
  unfolding root_loop at_index
  root_loop_top f a = refl

  root_loop_up :
      (f : ℕ) (level : List Bytes)
      → ltb 1 (length level) ≡ true
      → root_loop sha256 (suc f) level ≡ root_loop sha256 f (halve sha256 level)
  unfolding root_loop
  root_loop_up f level more = rw (more, root_loop, pad_level_lem level, next_level_lem sha256 level)

  proof_loop_top :
      (f : ℕ) (a : Bytes) (i : ℕ) (acc : List Bytes)
      → proof_loop sha256 (suc f) (a ∷ []) i acc ≡ ok (acc, a)
  unfolding proof_loop at_index
  proof_loop_top f a i acc = refl

  proof_loop_up :
      (f : ℕ) (level : List Bytes) (i : ℕ) (acc : List Bytes) (sib : Bytes)
      → ltb 1 (length level) ≡ true
      → get_elem? (even_up level) (sibling_index i) ≡ some sib
      → proof_loop sha256 (suc f) level i acc
        ≡ proof_loop sha256 f (halve sha256 level) (i / 2) (acc ++ sib ∷ [])
  unfolding proof_loop
  proof_loop_up f level i acc sib more found = rw (
    more,
    proof_loop,
    pad_level_lem level,
    at_index-some (even_up level) (sibling_index i) found,
    next_level_lem sha256 level,
  )

  -- What both loops return from a level and an index in it.
  abbrev Agree : ℕ → List Bytes → ℕ → List Bytes → Bytes → Type 0
  Agree f level i acc node =
      (proof : List Bytes) × (root : Bytes) × (proof_loop sha256 f level i acc
        ≡ ok (acc ++ proof, root))
      × (root_loop sha256 f level ≡ ok root)
      × (climb sha256 node proof (pos i) ≡ root)
      × IsRoot level root

  loops-Agree :
      (f : ℕ) (level : List Bytes) (i : ℕ) (acc : List Bytes) (node : Bytes)
      → length level ≤ f
      → get_elem? level i ≡ some node
      → Agree f level i acc node
  unfolding climb half_index
  loops-Agree zero [] i acc node h e = absurd (ground arith)
  loops-Agree zero (a ∷ level) i acc node h e = absurd (omega arith)
  loops-Agree (suc f) [] i acc node h e = absurd (ground arith)
  loops-Agree (suc f) (a ∷ []) zero acc node h e = (
    [],
    a,
    proof_loop_top f a 0 acc ∙ ap (λ l. ok (l, a)) (sym (append-nil acc)),
    root_loop_top f a,
    ground arith,
    top,
  )
  loops-Agree (suc f) (a ∷ []) (suc i) acc node h e = absurd (ground arith)
  loops-Agree (suc f) (a ∷ b ∷ rest) i acc node h e =
      let level : List Bytes = a ∷ b ∷ rest in
      let (sib, found, next) = sibling_lem sha256 level i node e in
      let (proof, root, proved, rooted, climbed, is_root) =
        loops-Agree f (halve sha256 level) (i / 2) (acc ++ sib ∷ [])
          (parent sha256 (pos i) node sib) (omega (arith, length-halve sha256 level)) next in
      (
        sib ∷ proof,
        root,
        proof_loop_up f level i acc sib (ground arith) found
            ∙ proved
            ∙ ap (λ l. ok (l, root)) (append_assoc acc (sib ∷ []) proof),
        root_loop_up f level (ground arith) ∙ rooted,
        climbed,
        up (omega arith) is_root,
      )

  same_bytes_refl : (xs : Bytes) → same_bytes xs xs ≡ true
  unfolding same_bytes
  same_bytes_refl [] = refl
  same_bytes_refl (x ∷ xs) = ground (arith, same_bytes_refl xs)

  verify_proof-climb :
      (leaf : Bytes) (proof : List Bytes) (i : ℕ) (root : Bytes)
      → climb sha256 leaf proof (pos i) ≡ root
      → verify_proof sha256 leaf proof (pos i) root ≡ true
  unfolding verify_proof
  verify_proof-climb leaf proof i root e = rw e (ground (arith, same_bytes_refl root))

  -- For every leaf, ComputeProof returns a proof and the root that ComputeRoot returns, neither
  -- panics or runs out of fuel, VerifyProof accepts the three, and the root is the root by
  -- definition of the list of leaves.
  pub verify_proof-compute_proof :
      (leaves : List Bytes) (i : ℕ) (leaf : Bytes)
      → get_elem? leaves i ≡ some leaf
      → (proof : List Bytes) × (root : Bytes) × (compute_proof sha256 leaves (pos i)
          ≡ ok (proof, root))
        × (compute_root sha256 leaves ≡ ok root)
        × (verify_proof sha256 leaf proof (pos i) root ≡ true)
        × IsRoot leaves root
  unfolding compute_proof compute_root
  verify_proof-compute_proof leaves i leaf e =
      let (proof, root, proved, rooted, climbed, is_root) =
        loops-Agree (length leaves) leaves i [] leaf (omega arith) e in
      (
        proof,
        root,
        ground (arith, get_elem?-lt leaves i e, proved),
        ground (arith, get_elem?-lt leaves i e, rooted),
        verify_proof-climb leaf proof i root climbed,
        is_root,
      )
