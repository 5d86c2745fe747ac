-- ===== src/L2/Voting/Ancestry.antt =====
-- l2_checkpoint.go, `extendsLockedLocked`: the walk along the parents finds exactly the ancestors that
-- are fewer steps away than its bound.
use custom_consensus.Base.{
  ℕ, zero, suc, ◌<◌, ◌≡◌, ◌↔◌, true, false, some, inl, inr, Text, Map, get, is_empty, text_eq,
  text_eq_iff, eq_of_text_eq, Bool-cases, Option-cases, arith,
}
use custom_consensus.L2.State.{L2, BlockMeta}
use custom_consensus.L2.Voting.{walk, max_steps, extends_locked}

-- `target` is `cur` or one of its ancestors, `n` parents away, along blocks that are known.
pub data Ancestor (blocks : Map BlockMeta) (target : Text) : ℕ → Text → Type 0 where
  here : {cur : Text} → is_empty cur ≡ false → cur ≡ target → Ancestor blocks target zero cur
  up :
      {n : ℕ} {cur : Text} {meta : BlockMeta}
      → is_empty cur ≡ false
      → get cur blocks ≡ some meta
      → Ancestor blocks target n meta.parent_hex
      → Ancestor blocks target (suc n) cur

module _ (blocks : Map BlockMeta) (target : Text) where
  pub walk_sound :
      (steps : ℕ) (cur : Text)
      → walk blocks target steps cur ≡ true
      → (n : ℕ) × (n < steps) × Ancestor blocks target n cur
  unfolding walk
  walk_sound zero cur e = absurd (ground arith)
  walk_sound (suc steps) cur e = elim (Bool-cases (is_empty cur)) [
    | inl empty ↦ absurd (ground arith)
    | inr full ↦ elim (Bool-cases (text_eq cur target)) [
      | inl same ↦ (0, omega arith, here full (eq_of_text_eq cur target same))
      | inr other ↦ elim (Option-cases (get cur blocks)) [
        | inl missing ↦ absurd (ground arith)
        | inr (meta, found) ↦
            let rest : walk blocks target steps meta.parent_hex ≡ true =
              rw (full, other, found, walk) at e in
            let (n, lt, path) = walk_sound steps meta.parent_hex rest in
            (suc n, omega arith, up full found path)
      ]
    ]
  ]

  pub walk_complete :
      (steps n : ℕ) (cur : Text)
      → n < steps
      → Ancestor blocks target n cur
      → walk blocks target steps cur ≡ true
  unfolding walk
  walk_complete zero n cur h path = absurd (omega arith)
  walk_complete (suc steps) _ cur h (here full same) = ground (arith, text_eq_iff cur target)
  walk_complete (suc steps) _ cur h (up {n} {meta = meta} full found path) =
      ground (arith, walk_complete steps n meta.parent_hex (omega arith) path)

-- With a lock set, `extendsLockedLocked` holds of a nonempty block exactly when the locked block is
-- that block or one of its ancestors along known blocks, fewer than 1024 parents away.
pub extends_locked_iff :
    (s : L2) (block_hex : Text)
    → is_empty block_hex ≡ false
    → is_empty s.locked_blk ≡ false
    → (extends_locked s block_hex ≡ true)
      ↔ ((n : ℕ) × (n < max_steps) × Ancestor s.blocks s.locked_blk n block_hex)
unfolding extends_locked
extends_locked_iff s b full locked = (to, λ (n, lt, path). from n lt path)
  where
    to : extends_locked s b ≡ true → (n : ℕ) × (n < max_steps) × Ancestor s.blocks s.locked_blk n b
    to e = elim (Bool-cases (text_eq b s.locked_blk)) [
      | inl same ↦ (0, omega arith, here full (eq_of_text_eq b s.locked_blk same))
      | inr other ↦ walk_sound s.blocks s.locked_blk max_steps b (rw (full, locked, other) at e)
    ]

    from : (n : ℕ) → n < max_steps → Ancestor s.blocks s.locked_blk n b → extends_locked s b ≡ true
    from n lt path = ground (arith, walk_complete s.blocks s.locked_blk max_steps n b lt path)
