-- ===== src/Merkle.antt =====
-- internal/merkle/tree.go. SHA-256 is the parameter `sha256`; a slice index that Go would refuse
-- with a panic is the error `panicked`.
pub mod Levels
pub mod Proofs
pub mod Binding
mod Tests
use custom_consensus.Base.{
  ℕ, zero, suc, ◌+◌, ◌-◌, ◌/◌, ◌%◌, ◌≡◌, Bool, true, false, ◌&&◌, Option, none, some, List, [], ◌∷◌,
  ◌++◌, length, get_elem?, Bytes, ltb, leb, ◌==◌, if◌then◌else◌, Result, ok, err, ◌>>=◌,
}
use custom_consensus.Base.Int.{ℤ, pos, negsuc, sub_ℕ}

pub data Error : Type 0 where
  index_out_of_range panicked : Error

-- `level[i]`
unfoldable pub at_index : List Bytes → ℕ → Result Error Bytes
at_index level i = elim (get_elem? level i) [ none ↦ err panicked | some b ↦ ok b ]

-- A level of odd length gets its last node once more.
pub pad_level : List Bytes → Result Error (List Bytes)
unfolding at_index
pad_level level =
    if length level % 2 == 1
    then (do last ← at_index level (length level - 1); ok (level ++ last ∷ []))
    else ok level

-- `idx ^ 1`
pub sibling_index : ℕ → ℕ
sibling_index i = if i % 2 == 0 then i + 1 else i - 1

module _ (sha256 : Bytes → Bytes) where
  -- The parents of one level, two nodes at a time.
  pub next_level : List Bytes → Result Error (List Bytes)
  next_level [] = ok []
  next_level (a ∷ []) = err panicked
  next_level (a ∷ b ∷ rest) = do next ← next_level rest; ok (sha256 (a ++ b) ∷ next)

  -- `for len(level) > 1`, with the length of the first level as fuel.
  unfoldable pub root_loop : ℕ → List Bytes → Result Error Bytes
  root_loop zero level = err panicked
  root_loop (suc fuel) level = elim (ltb 1 (length level)) [
    | true ↦ do padded ← pad_level level; next ← next_level padded; root_loop fuel next
    | false ↦ at_index level 0
  ]

  -- No leaves give the nil slice.
  unfoldable pub compute_root : List Bytes → Result Error Bytes
  compute_root leaves = if length leaves == 0 then ok [] else root_loop (length leaves) leaves

  pub proof_loop : ℕ → List Bytes → ℕ → List Bytes → Result Error (List Bytes × Bytes)
  proof_loop zero level idx proof = err panicked
  proof_loop (suc fuel) level idx proof = elim (ltb 1 (length level)) [
    | true ↦ do
      padded ← pad_level level
      sib ← at_index padded (sibling_index idx)
      next ← next_level padded
      proof_loop fuel next (idx / 2) (proof ++ sib ∷ [])
    | false ↦ do root ← at_index level 0; ok (proof, root)
  ]

  pub compute_proof : List Bytes → ℤ → Result Error (List Bytes × Bytes)
  compute_proof leaves (negsuc n) = err index_out_of_range
  compute_proof leaves (pos i) =
      if leb (length leaves) i
      then err index_out_of_range
      else proof_loop (length leaves) leaves i []

-- `idx%2 == 0` and `idx / 2` on an `int`: the division goes towards zero.
pub is_even : ℤ → Bool
is_even (pos n) = n % 2 == 0
is_even (negsuc n) = suc n % 2 == 0

pub half_index : ℤ → ℤ
half_index (pos n) = pos (n / 2)
half_index (negsuc n) = sub_ℕ 0 (suc n / 2)

module _ (sha256 : Bytes → Bytes) where
  -- One step up from a node: its parent, given its sibling.
  pub parent : ℤ → Bytes → Bytes → Bytes
  unfolding is_even
  parent idx hash sib = if is_even idx then sha256 (hash ++ sib) else sha256 (sib ++ hash)

  pub climb : Bytes → List Bytes → ℤ → Bytes
  unfolding parent half_index
  climb hash [] idx = hash
  climb hash (sib ∷ proof) idx = climb (parent idx hash sib) proof (half_index idx)

-- `hash[i] != expectedRoot[i]` for each `i` of `hash`.
pub same_bytes : Bytes → Bytes → Bool
same_bytes [] ys = true
same_bytes (x ∷ xs) [] = false
same_bytes (x ∷ xs) (y ∷ ys) = (x == y) && same_bytes xs ys

module _ (sha256 : Bytes → Bytes) where
  pub verify_proof : Bytes → List Bytes → ℤ → Bytes → Bool
  unfolding climb parent same_bytes
  verify_proof leaf proof index expected_root =
      let hash = climb sha256 leaf proof index in
      if length hash == length expected_root then same_bytes hash expected_root else false
