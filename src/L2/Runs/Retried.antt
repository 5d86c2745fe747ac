-- ===== src/L2/Runs/Retried.antt =====
-- l2_checkpoint.go: `retryPendingVotes` terminates.
use custom_consensus.Base.{
  ℕ, zero, suc, ◌+◌, ◌≤◌, ◌<◌, ◌≡◌, refl, some, inl, inr, Option, [], ◌∷◌, Text, Map, get, length,
  is_empty, arith, Bool-cases, All-get,
}
use custom_consensus.L2.State.{L2, Net, BlockMeta}
use custom_consensus.L2.Voting.{
  Choice, dropped, left, chosen, choose, choose_meta, Pick, nothing, picked, keep_entry, pick_loop,
}
use custom_consensus.L2.Handlers.{◌>>=◌, take_pick, publish_vote, retry_pending_votes}
use custom_consensus.L2.Steps.{IsHex, Step, sweep, take, one}
use custom_consensus.L2.Steps.Ledger.{Inv}
use custom_consensus.L2.Steps.Invariant.{Reach-Inv, Step-Inv}
use custom_consensus.L2.Runs.Pending.{pick_loop-length, stays, taken}
use custom_consensus.L2.Runs.Handled.{Run, then-Run, Returns, Works, publish_vote_run}

-- The metadata of a chosen block is what `s.blocks` holds.
abbrev FromBlocks : L2 → Pick → Type 0
FromBlocks s (nothing rest) = Unit {0}
FromBlocks s (picked b meta rest) = get b s.blocks ≡ some meta

chosen_meta :
    (s : L2) (b : Text) (meta : BlockMeta) → choose s b ≡ chosen meta → get b s.blocks ≡ some meta
unfolding choose choose_meta
chosen_meta s b meta e = ground arith

pick_loop-FromBlocks : (s : L2) (m : Map (Unit {0})) → FromBlocks s (pick_loop s m)
unfolding pick_loop keep_entry
pick_loop-FromBlocks s [] = tt
pick_loop-FromBlocks s ((b, u) ∷ rest) = by_choice (choose s b) refl (pick_loop-FromBlocks s rest)
  where
    kept : (r : Pick) → FromBlocks s r → FromBlocks s (keep_entry b r)
    kept (nothing rest) h = tt
    kept (picked c meta rest) h = h

    by_choice :
        (c : Choice)
        → choose s b ≡ c
        → FromBlocks s (pick_loop s rest)
        → FromBlocks s (pick_loop s ((b, u) ∷ rest))
    by_choice dropped e ih = rw (e, pick_loop) ih
    by_choice (chosen meta) e ih = rw (e, pick_loop) (chosen_meta s b meta e)
    by_choice left e ih = rw (e, pick_loop) (kept (pick_loop s rest) ih)

module _ (net : Net) (q now : ℕ) where
  -- With this much fuel, `retry_pending_votes` returns.
  abbrev Enough : ℕ → Type 0
  Enough zero = Unit {0}
  Enough (suc f) = Works net q (retry_pending_votes net now (suc f)) f

  abbrev vote_and_retry : ℕ → L2 → Text → BlockMeta → Option L2
  vote_and_retry fuel s b meta = do
    s' ← publish_vote net (retry_pending_votes net now fuel) s b meta.height meta.parent_hex now
    retry_pending_votes net now fuel s'

  vote_and_retry_run :
      (fuel : ℕ) (s : L2) (b : Text) (meta : BlockMeta)
      → Enough fuel
      → length s.pending < fuel
      → Inv net q s
      → IsHex meta.parent_hex
      → Returns net q s (vote_and_retry fuel s b meta)
  vote_and_retry_run zero s b meta works small v hex = absurd (omega (arith, small))
  vote_and_retry_run (suc f) s b meta works small v hex =
      let (t, returned, r) =
        publish_vote_run net q (retry_pending_votes net now (suc f)) f works s b meta.height
          meta.parent_hex now (omega (arith, small)) v hex in
      let (u, again, r') = works t (omega (arith, r.settled, small)) (Reach-Inv net q r.steps v) in
      (u, rw (returned, again), then-Run net q r r')

  round_run : (fuel : ℕ) → Enough fuel → Works net q (retry_pending_votes net now (suc fuel)) fuel
  unfolding retry_pending_votes take_pick
  round_run fuel works s small v =
      by_pick (pick_loop s s.pending) refl (pick_loop-length s s.pending)
        (pick_loop-FromBlocks s s.pending)
    where
      by_pick :
          (r : Pick)
          → pick_loop s s.pending ≡ r
          → length (stays r) + taken r ≤ length s.pending
          → FromBlocks s r
          → Returns net q s (retry_pending_votes net now (suc fuel) s)
      by_pick (nothing rest) e fewer from = (
        record s { pending = rest },
        rw (e, retry_pending_votes),
        record { steps = one (sweep s rest e); settled = omega (arith, fewer) },
      )
      by_pick (picked b meta rest) e fewer from =
          let st : Step net q s (take_pick s b rest) = take s b meta rest e in
          let r₀ : Run net q s (take_pick s b rest) = record {
            steps = one st;
            settled = omega (arith, fewer);
          } in
          elim (Bool-cases (is_empty b)) [
            | inl empty ↦ (take_pick s b rest, rw (e, empty, retry_pending_votes), r₀)
            | inr full ↦
                let (t, returned, r) =
                  vote_and_retry_run fuel (take_pick s b rest) b meta works
                    (omega (arith, fewer, small)) (Step-Inv net q st v)
                    (All-get _ b meta s.blocks from v.metas) in
                (t, rw (e, full, returned, retry_pending_votes), then-Run net q r₀ r)
          ]

  pub Enough-fuel : (fuel : ℕ) → Enough fuel
  Enough-fuel zero = tt
  Enough-fuel (suc f) = round_run f (Enough-fuel f)

  -- From a state in which the invariant holds, with fuel for one call more than there are pending
  -- blocks: `retryPendingVotes` returns, what it does is a sequence of the service's locked sections,
  -- and it leaves no more blocks pending.
  pub retry_pending_votes_run :
      (s : L2) (fuel : ℕ)
      → length s.pending < fuel
      → Inv net q s
      → Returns net q s (retry_pending_votes net now fuel s)
  retry_pending_votes_run s zero small v = absurd (omega (arith, small))
  retry_pending_votes_run s (suc f) small v = Enough-fuel (suc f) s (omega (arith, small)) v
