-- ===== src/L2/Voting/Safety.antt =====
-- l2_checkpoint.go, `markVoteIfSafe`: which votes the node casts.
use custom_consensus.Base.{
  ◌≡◌, ◌≢◌, inl, inr, refl, ap, ◌∙◌, true, false, some, Text, get, put, del, get-put, get-put_self,
  is_empty, text_eq, text_eq_iff, eq_of_text_eq, Bool-cases, arith,
}
use custom_consensus.Base.Int.{◌≤ℤ◌}
use custom_consensus.L2.State.{L2, BlockMeta, has_voted}
use custom_consensus.L2.Voting.{mark_vote_if_safe, safe_to_vote, extends_locked}

mark_voted : (s : L2) (b p : Text) → has_voted s b ≡ true → mark_vote_if_safe s b p ≡ (s, false)
unfolding mark_vote_if_safe
mark_voted s b p voted = rw voted

module _ (s : L2) where
  -- The state after a vote.
  abbrev marked : Text → L2
  marked b = record s { pending = del b s.pending; sent_vote = put b true s.sent_vote }

  mark_fresh :
      (b p : Text)
      → has_voted s b ≡ false
      → safe_to_vote s p ≡ true
      → mark_vote_if_safe s b p ≡ (marked b, true)
  unfolding mark_vote_if_safe
  mark_fresh b p fresh safe = rw (fresh, safe)

  pub mark_true :
      (b p : Text) → (mark_vote_if_safe s b p).1 ≡ true → mark_vote_if_safe s b p ≡ (marked b, true)
  unfolding mark_vote_if_safe
  mark_true b p e = elim (Bool-cases (has_voted s b)) [
    | inl voted ↦ absurd (ground arith)
    | inr fresh ↦ elim (Bool-cases (safe_to_vote s p)) [
      | inl safe ↦ rw (fresh, safe)
      | inr unsafe ↦ absurd (ground arith)
    ]
  ]

  marked_self : (b : Text) → has_voted (marked b) b ≡ true
  unfolding has_voted
  marked_self b = ground (arith, get-put_self b true s.sent_vote)

  marked_ne : (b b' : Text) → b ≢ b' → has_voted (marked b) b' ≡ has_voted s b'
  unfolding has_voted
  marked_ne b b' other = ground (arith, get-put b b' true s.sent_vote, text_eq_iff b b')

  marked_safe : (b p : Text) → safe_to_vote (marked b) p ≡ safe_to_vote s p
  unfolding safe_to_vote extends_locked
  marked_safe b p = refl

module _ (s : L2) where
  -- After a block is marked it is never marked again while the mark stays, whatever parent is named.
  pub mark_vote_if_safe_once :
      (b p p' : Text)
      → (mark_vote_if_safe s b p).1 ≡ true
      → mark_vote_if_safe (mark_vote_if_safe s b p).0 b p' ≡ ((mark_vote_if_safe s b p).0, false)
  mark_vote_if_safe_once b p p' e =
      rw (mark_true s b p e) (mark_voted (marked s b) b p' (marked_self s b))

  -- A node with a lock that votes for a block whose parent has metadata and is not the locked block
  -- itself: the parent is at least as high as the lock.
  pub mark_vote_height :
      (b p : Text) (meta : BlockMeta)
      → is_empty p ≡ false
      → is_empty s.locked_blk ≡ false
      → p ≢ s.locked_blk
      → get p s.blocks ≡ some meta
      → (mark_vote_if_safe s b p).1 ≡ true
      → s.locked_h ≤ℤ meta.height
  unfolding mark_vote_if_safe safe_to_vote
  mark_vote_height b p meta full locked other found e = elim (Bool-cases (text_eq p s.locked_blk)) [
    | inl same ↦ absurd (other (eq_of_text_eq p s.locked_blk same))
    | inr differs ↦ ground arith
  ]

  -- The rule is per block: two different blocks with the same safe parent are both voted for, one
  -- after the other, so the node signs for two blocks of one height.
  pub mark_vote_conflicting :
      (b b' p : Text)
      → b ≢ b'
      → has_voted s b ≡ false
      → has_voted s b' ≡ false
      → safe_to_vote s p ≡ true
      → ((mark_vote_if_safe s b p).1 ≡ true)
        × ((mark_vote_if_safe (mark_vote_if_safe s b p).0 b' p).1 ≡ true)
  mark_vote_conflicting b b' p other fresh fresh' safe = rw (mark_fresh s b p fresh safe) (
    refl,
    ap (λ r. r.1)
        (mark_fresh (marked s b) b' p (marked_ne s b b' other ∙ fresh') (marked_safe s b p ∙ safe)),
  )
