-- ===== src/Merkle/Binding.antt =====
-- tree.go: what a root binds. A proof of the same length for another leaf at the same index exhibits
-- a collision of the hash; the number of leaves is not bound.
use custom_consensus.Base.{
  ℕ, ◌≤◌, ◌<◌, ◌≡◌, ◌≢◌, refl, sym, ap, ◌∙◌, ◌⊎◌, inl, inr, true, List, [], ◌∷◌, ◌++◌, All, arith,
  length, Bytes, Bool-cases, text_eq, text_eq_iff, text_eq_refl, ok,
}
use custom_consensus.Base.Int.{ℤ}
use custom_consensus.Merkle.{
  compute_root, climb, parent, is_even, half_index, same_bytes, verify_proof,
}
use custom_consensus.Merkle.Levels.{even_up, halve}
use custom_consensus.Merkle.Proofs.{IsRoot, top, up, verify_proof-compute_proof}

append-injective : (a b c d : Bytes) → length a ≡ length c → a ++ b ≡ c ++ d → (a ≡ c) × (b ≡ d)
append-injective [] b [] d h e = (refl, e)
append-injective [] b (y ∷ c) d h e = absurd (omega arith)
append-injective (x ∷ a) b [] d h e = absurd (omega arith)
append-injective (x ∷ a) b (y ∷ c) d h e = ground (arith, append-injective a b c d)

same_bytes-eq : (xs ys : Bytes) → length xs ≡ length ys → same_bytes xs ys ≡ true → xs ≡ ys
unfolding same_bytes
same_bytes-eq [] [] h e = refl
same_bytes-eq [] (y ∷ ys) h e = absurd (omega arith)
same_bytes-eq (x ∷ xs) [] h e = absurd (omega arith)
same_bytes-eq (x ∷ xs) (y ∷ ys) h e = ground (arith, same_bytes-eq xs ys)

module _ (sha256 : Bytes → Bytes) where
  -- Two different inputs with one digest.
  abbrev pub Collision : Type 0
  Collision = (x : Bytes) × (y : Bytes) × (x ≢ y) × (sha256 x ≡ sha256 y)

  same_or_collision : (x y : Bytes) → sha256 x ≡ sha256 y → (x ≡ y) ⊎ Collision
  same_or_collision x y e = elim (Bool-cases (text_eq x y)) [
    | inl same ↦ inl ((text_eq_iff x y).0 same)
    | inr other ↦ inr (x, y, λ p. cc (text_eq_refl y, ap (λ t. text_eq t y) p), e)
  ]

  halves_binding :
      (a b c d : Bytes)
      → length a ≡ length c
      → sha256 (a ++ b) ≡ sha256 (c ++ d)
      → ((a ≡ c) × (b ≡ d)) ⊎ Collision
  halves_binding a b c d h e = elim (same_or_collision (a ++ b) (c ++ d) e) [
    | inl same ↦ inl (append-injective a b c d h same)
    | inr found ↦ inr found
  ]

  parent_binding :
      (idx : ℤ) (a b c d : Bytes)
      → length a ≡ length c
      → length b ≡ length d
      → parent sha256 idx a b ≡ parent sha256 idx c d
      → (a ≡ c) ⊎ Collision
  unfolding parent
  parent_binding idx a b c d h k e = elim (Bool-cases (is_even idx)) [
    | inl even ↦ elim (halves_binding a b c d h (rw (even, parent) at e)) [
      | inl (p, q) ↦ inl p
      | inr found ↦ inr found
    ]
    | inr odd ↦ elim (halves_binding b a d c k (rw (odd, parent) at e)) [
      | inl (p, q) ↦ inl q
      | inr found ↦ inr found
    ]
  ]

  module _ (w : ℕ) (width : (x : Bytes) → length (sha256 x) ≡ w) where
    length-parent : (idx : ℤ) (a b : Bytes) → length (parent sha256 idx a b) ≡ w
    unfolding parent
    length-parent idx a b = ground (arith, width (a ++ b), width (b ++ a))

    climb_binding :
        (idx : ℤ) (leaf leaf' : Bytes) (proof proof' : List Bytes)
        → length leaf ≡ w
        → length leaf' ≡ w
        → All (λ s. length s ≡ w) proof
        → All (λ s. length s ≡ w) proof'
        → length proof ≡ length proof'
        → climb sha256 leaf proof idx ≡ climb sha256 leaf' proof' idx
        → (leaf ≡ leaf') ⊎ Collision
    unfolding climb
    climb_binding idx leaf leaf' [] [] h h' s s' n e = inl e
    climb_binding idx leaf leaf' [] (q ∷ qs) h h' s s' n e = absurd (omega arith)
    climb_binding idx leaf leaf' (p ∷ ps) [] h h' s s' n e = absurd (omega arith)
    climb_binding idx leaf leaf' (p ∷ ps) (q ∷ qs) h h' s s' n e =
        elim (climb_binding (half_index idx) (parent sha256 idx leaf p) (parent sha256 idx leaf' q)
          ps qs (length-parent idx leaf p) (length-parent idx leaf' q) s.1 s'.1 (omega arith) e) [
            | inl same ↦ parent_binding idx leaf p leaf' q (omega arith) (omega arith) same
            | inr found ↦ inr found
          ]

    verify_proof-climb :
        (leaf : Bytes) (proof : List Bytes) (idx : ℤ) (root : Bytes)
        → verify_proof sha256 leaf proof idx root ≡ true
        → climb sha256 leaf proof idx ≡ root
    unfolding verify_proof
    verify_proof-climb leaf proof idx root e =
        ground (arith, same_bytes-eq (climb sha256 leaf proof idx) root)

    -- If two proofs of the same length verify at the same index against the same root, for leaves
    -- and siblings as wide as the digest, then the leaves are equal, or two different inputs of
    -- the hash with the same digest are at hand.
    pub verify_proof_binding :
        (idx : ℤ) (root leaf leaf' : Bytes) (proof proof' : List Bytes)
        → length leaf ≡ w
        → length leaf' ≡ w
        → All (λ s. length s ≡ w) proof
        → All (λ s. length s ≡ w) proof'
        → length proof ≡ length proof'
        → verify_proof sha256 leaf proof idx root ≡ true
        → verify_proof sha256 leaf' proof' idx root ≡ true
        → (leaf ≡ leaf') ⊎ Collision
    verify_proof_binding idx root leaf leaf' proof proof' h h' s s' n e e' =
        climb_binding idx leaf leaf' proof proof' h h' s s' n (
          verify_proof-climb leaf proof idx root e
          ∙ sym (verify_proof-climb leaf' proof' idx root e'))

  -- The root by definition is unique.
  IsRoot-unique :
      {level : List Bytes} {r r' : Bytes} → IsRoot sha256 level r → IsRoot sha256 level r' → r ≡ r'
  IsRoot-unique top top = refl
  IsRoot-unique top (up h _) = absurd (omega arith)
  IsRoot-unique (up h _) top = absurd (omega arith)
  IsRoot-unique (up _ p) (up _ q) = IsRoot-unique p q

  length-even_up : (level : List Bytes) → length level ≤ length (even_up level)
  unfolding even_up
  length-even_up [] = omega arith
  length-even_up (a ∷ []) = omega arith
  length-even_up (a ∷ b ∷ rest) = omega (arith, length-even_up rest)

  halve-even_up : (level : List Bytes) → halve sha256 (even_up level) ≡ halve sha256 level
  unfolding halve even_up
  halve-even_up [] = refl
  halve-even_up (a ∷ []) = refl
  halve-even_up (a ∷ b ∷ rest) = ap (◌∷◌ (sha256 (a ++ b))) (halve-even_up rest)

  even_up-IsRoot :
      (a b : Bytes) (rest : List Bytes) (r : Bytes)
      → IsRoot sha256 (a ∷ b ∷ rest) r
      → IsRoot sha256 (even_up (a ∷ b ∷ rest)) r
  even_up-IsRoot a b rest r is_root = go (a ∷ b ∷ rest) (omega arith) is_root
    where
      go :
          (level : List Bytes)
          → 1 < length level
          → IsRoot sha256 level r
          → IsRoot sha256 (even_up level) r
      go level h top = absurd (omega arith)
      go level h (up _ above) =
          up (omega (arith, length-even_up level)) (rw (halve-even_up level) above)

  -- A list of two or more leaves has the same root as the list in which the last leaf is repeated
  -- to make the number even: the root does not determine the number of leaves.
  pub compute_root-even_up :
      (a b : Bytes) (rest : List Bytes)
      → compute_root sha256 (even_up (a ∷ b ∷ rest)) ≡ compute_root sha256 (a ∷ b ∷ rest)
  unfolding even_up
  compute_root-even_up a b rest =
      let level : List Bytes = a ∷ b ∷ rest in
      let (_, r, _, rooted, _, is_root) = verify_proof-compute_proof sha256 level 0 a refl in
      let (_, r', _, rooted', _, is_root') =
        verify_proof-compute_proof sha256 (even_up level) 0 a refl in
      rooted' ∙ ap ok (IsRoot-unique is_root' (even_up-IsRoot a b rest r is_root)) ∙ sym rooted
