-- ===== src/Merkle/Levels.antt =====
-- tree.go, one level of the tree: padding and pairing never panic, and what they compute.
use custom_consensus.Base.{
  ℕ, suc, ◌+◌, ◌-◌, ◌/◌, ◌%◌, ◌≡◌, refl, ap, inl, inr, some, List, [], ◌∷◌, ◌++◌, arith, length,
  get_elem?, Bytes, ◌==◌, Bool-cases, ok, ==_iff,
}
use custom_consensus.Base.Int.{pos}
use custom_consensus.Merkle.{at_index, pad_level, next_level, sibling_index, parent}

-- The level with its last node repeated, if its length is odd.
unfoldable pub even_up : List Bytes → List Bytes
even_up [] = []
even_up (a ∷ []) = a ∷ a ∷ []
even_up (a ∷ b ∷ rest) = a ∷ b ∷ even_up rest

even_up_odd :
    (level : List Bytes)
    → length level % 2 ≡ 1
    → (x : Bytes) × (get_elem? level (length level - 1) ≡ some x)
      × (level ++ x ∷ [] ≡ even_up level)
unfolding even_up
even_up_odd [] h = absurd (omega arith)
even_up_odd (a ∷ []) h = (a, refl, refl)
even_up_odd (a ∷ b ∷ rest) h =
    let (x, found, e) = even_up_odd rest (omega arith) in
    let n : suc (suc (length rest)) - 1 ≡ suc (suc (length rest - 1)) = omega arith in
    (x, rw n found, ap (λ r. a ∷ b ∷ r) e)

even_up_even : (level : List Bytes) → length level % 2 ≡ 0 → even_up level ≡ level
unfolding even_up
even_up_even [] h = refl
even_up_even (a ∷ []) h = absurd (omega arith)
even_up_even (a ∷ b ∷ rest) h = ap (λ r. a ∷ b ∷ r) (even_up_even rest (omega arith))

pub at_index-some :
    (level : List Bytes) (i : ℕ) {x : Bytes} → get_elem? level i ≡ some x → at_index level i ≡ ok x
unfolding at_index
at_index-some level i e = rw (e, at_index)

-- The padding is never refused.
pub pad_level_lem : (level : List Bytes) → pad_level level ≡ ok (even_up level)
unfolding pad_level
pad_level_lem level = elim (Bool-cases (length level % 2 == 1)) [
  | inl odd ↦
      let (x, found, e) = even_up_odd level ((==_iff _ _).0 odd) in
      rw (odd, at_index-some level (length level - 1) found) (ap ok e)
  | inr even ↦ rw even (ap ok (ground (arith, even_up_even level)))
]

module _ (sha256 : Bytes → Bytes) where
  -- The parents of a level: each pair hashed, and a node without a partner paired with itself.
  unfoldable pub halve : List Bytes → List Bytes
  halve [] = []
  halve (a ∷ []) = sha256 (a ++ a) ∷ []
  halve (a ∷ b ∷ rest) = sha256 (a ++ b) ∷ halve rest

  pub next_level_lem : (level : List Bytes) → next_level sha256 (even_up level) ≡ ok (halve level)
  unfolding next_level even_up halve
  next_level_lem [] = refl
  next_level_lem (a ∷ []) = refl
  next_level_lem (a ∷ b ∷ rest) = rw (next_level_lem rest)

  pub length-halve : (level : List Bytes) → length (halve level) ≡ (length level + 1) / 2
  unfolding halve
  length-halve [] = refl
  length-halve (a ∷ []) = refl
  length-halve (a ∷ b ∷ rest) = omega (arith, length-halve rest)

  sibling_index_step : (i : ℕ) → sibling_index (suc (suc i)) ≡ suc (suc (sibling_index i))
  unfolding sibling_index
  sibling_index_step i = ground arith

  parent_step :
      (i : ℕ) (a b : Bytes) → parent sha256 (pos (suc (suc i))) a b ≡ parent sha256 (pos i) a b
  unfolding parent
  parent_step i a b = ground arith

  -- A node has a sibling in the padded level, and their parent stands at half the index.
  pub sibling_lem :
      (level : List Bytes) (i : ℕ) (node : Bytes)
      → get_elem? level i ≡ some node
      → (sib : Bytes) × (get_elem? (even_up level) (sibling_index i) ≡ some sib)
        × (get_elem? (halve level) (i / 2) ≡ some (parent sha256 (pos i) node sib))
  unfolding even_up halve sibling_index parent
  sibling_lem [] i node h = absurd (ground arith)
  sibling_lem (a ∷ []) ℕ.zero node h = (a, refl, ground arith)
  sibling_lem (a ∷ []) (suc i) node h = absurd (ground arith)
  sibling_lem (a ∷ b ∷ rest) ℕ.zero node h = (b, refl, ground arith)
  sibling_lem (a ∷ b ∷ rest) (suc ℕ.zero) node h = (a, refl, ground arith)
  sibling_lem (a ∷ b ∷ rest) (suc (suc i)) node h =
      let (sib, found, up) = sibling_lem rest i node h in
      let n : suc (suc i) / 2 ≡ suc (i / 2) = omega arith in
      (sib, rw (sibling_index_step i) found, rw (n, parent_step i node sib) up)
