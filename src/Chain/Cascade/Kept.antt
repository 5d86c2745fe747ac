-- ===== src/Chain/Cascade/Kept.antt =====
-- internal/blockchain/block.go, `acceptBlockLocked`: what holds of a chain after every single change
-- holds after the whole cascade.
use custom_consensus.Base.{
  ℕ, zero, suc, ◌<◌, ◌≡◌, ◌⊎◌, refl, subst, none, some, inl, inr, Option, List, [], ◌∷◌, Bytes, Map,
  hex_encode, del, arith, Bool-cases, Option-cases, unwrap,
}
use custom_consensus.Chain.{
  Block, Chain, record_block, waiting_for, queue_child, pop_children, extends_known,
  accept_children, accept_block, is_first, receive_block,
}
use custom_consensus.Chain.Cascade.{waiting_count, accept_block-Settles}

List-cases {ℓ} : {A : Type ℓ} (xs : List A) → (xs ≡ []) ⊎ ((a : A) × (l : List A) × (xs ≡ a ∷ l))
List-cases [] = inl refl
List-cases (a ∷ l) = inr (a, l, refl)

nothing_some : (c : Chain) → none ≡ some c → ⊥
nothing_some c h = cc

module _ {ℓ} (P : Chain → Type ℓ) (recorded : (c : Chain) (b : Block) → P c → P (record_block c b))
    (waits : (c : Chain) (w : Map (List Block)) → P c → P (record c { waiting = w })) where
  pop_children-kept : (c : Chain) (parent : Bytes) → P c → P (pop_children c parent).1
  unfolding pop_children
  pop_children-kept c parent p = elim (List-cases (waiting_for c (hex_encode parent))) [
    | inl e ↦ rw (e, pop_children) p
    | inr (b, l, e) ↦ rw (e, pop_children) (waits c (del (hex_encode parent) c.waiting) p)
  ]

  queue_child-kept : (c : Chain) (prev : Bytes) (b : Block) → P c → P (queue_child c prev b)
  unfolding queue_child
  queue_child-kept c prev b p = waits c _ p

  accept_children-kept :
      (accept : Chain → Block → Option Chain) (blocks : List Block) (c c' : Chain)
      → ((d d' : Chain) (b : Block) → accept d b ≡ some d' → P d → P d')
      → accept_children accept blocks c ≡ some c'
      → P c
      → P c'
  unfolding accept_children
  accept_children-kept accept [] c c' kept e p = subst P (unwrap e) p
  accept_children-kept accept (b ∷ blocks) c c' kept e p = elim (Bool-cases (extends_known c b)) [
    | inr out ↦
        accept_children-kept accept blocks (queue_child c b.prev_hash b) c' kept
          (rw (out, accept_children) at e) (queue_child-kept c b.prev_hash b p)
    | inl joins ↦ elim (Option-cases (accept c b)) [
      | inl failed ↦ absurd (nothing_some c' (rw (joins, failed, accept_children) at e))
      | inr (d, accepted) ↦
          accept_children-kept accept blocks d c' kept (rw (joins, accepted, accept_children) at e)
            (kept c d b accepted p)
    ]
  ]

  accept_block-kept :
      (fuel : ℕ) (c c' : Chain) (b : Block) → accept_block fuel c b ≡ some c' → P c → P c'
  unfolding accept_block
  accept_block-kept zero c c' b e p = absurd (ground arith)
  accept_block-kept (suc fuel) c c' b e p =
      let c₁ = record_block c b in
      accept_children-kept (accept_block fuel) (pop_children c₁ b.hash).0 (pop_children c₁ b.hash).1
        c' (accept_block-kept fuel) e (pop_children-kept c₁ b.hash (recorded c b p))

  -- A received block, with fuel for one call more than blocks wait.
  pub receive_block-kept :
      (fuel : ℕ) (c : Chain) (b : Block)
      → waiting_count c < fuel
      → P c
      → (c' : Chain) × (receive_block fuel c b ≡ some c') × P c'
  unfolding receive_block
  receive_block-kept fuel c b small p =
      let (c', returned, _) = accept_block-Settles fuel c b small in
      let p' = accept_block-kept fuel c c' b returned p in
      elim (Bool-cases (is_first b)) [
        | inl first ↦ (c', rw (first, returned, receive_block) refl, p')
        | inr later ↦ elim (Bool-cases (extends_known c b)) [
          | inl joins ↦ (c', rw (later, joins, returned, receive_block) refl, p')
          | inr out ↦ (
            queue_child c b.prev_hash b,
            rw (later, out, receive_block) refl,
            queue_child-kept c b.prev_hash b p,
          )
        ]
      ]
