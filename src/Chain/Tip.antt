-- ===== src/Chain/Tip.antt =====
-- internal/blockchain/block.go, `acceptBlockLocked`: when the tip moves.
use custom_consensus.Base.{
  ◌≡◌, refl, ap, Bool, true, false, ◌&&◌, ◌||◌, inl, inr, ◌==◌, text_eq, arith, Bool-cases,
  if◌then◌else◌, is_empty,
}
use custom_consensus.Base.Int.{ℤ, pos, negsuc, ltb_ℤ, eqb_ℤ, eqb_ℤ_iff, inc64, max_int64, ◌<ℤ◌}
use custom_consensus.Chain.{Block, Chain, move_tip, advances}

next_above : (tip height : ℤ) → tip <ℤ pos max_int64 → height ≡ inc64 tip → tip <ℤ height
next_above (pos n) height h e = elim (Bool-cases (n == max_int64)) [
  | inl top ↦ absurd (ground arith)
  | inr below ↦ rw (rw below at e) (omega arith)
]
next_above (negsuc n) height h e = rw e (grind arith)

tests :
    (tip height : ℤ) (e s : Bool)
    → tip <ℤ pos max_int64
    → ((eqb_ℤ tip (pos 0) && (eqb_ℤ height (pos 1) && e))
        || ((eqb_ℤ height (inc64 tip) && s) || ltb_ℤ tip height))
      ≡ ltb_ℤ tip height
tests tip height e s h = elim (Bool-cases (ltb_ℤ tip height)) [
  | inl higher ↦ ground (arith, higher)
  | inr low ↦
      let not_next : eqb_ℤ height (inc64 tip) ≡ false =
        elim (Bool-cases (eqb_ℤ height (inc64 tip))) [
          | inr other ↦ other
          | inl same ↦
              let higher = next_above tip height h ((eqb_ℤ_iff height (inc64 tip)).0 same) in
              absurd (ground arith)
        ] in
      let not_first : (eqb_ℤ tip (pos 0) && (eqb_ℤ height (pos 1) && e)) ≡ false = ground arith in
      neither _ _ s _ not_first not_next
]
  where
    neither : (a b s c : Bool) → a ≡ false → b ≡ false → (a || ((b && s) || c)) ≡ c
    neither false false s c h k = refl
    neither true b s c h k = absurd (ground arith)
    neither false true s c h k = absurd (ground arith)

-- Below the largest height, the three conditions for moving the tip are one: the block is higher. So
-- the tip's height becomes the larger of the two, and a block of the same height leaves the tip.
pub move_tip_height :
    (c : Chain) (b : Block)
    → c.tip_height <ℤ pos max_int64
    → move_tip c b ≡ (
        if ltb_ℤ c.tip_height b.height
        then record c { tip_height = b.height; tip_hash = b.hash }
        else c)
unfolding move_tip advances
move_tip_height c b h =
    ap (λ t. if t then record c { tip_height = b.height; tip_hash = b.hash } else c)
      (tests c.tip_height b.height (is_empty b.prev_hash) (text_eq b.prev_hash c.tip_hash) h)
