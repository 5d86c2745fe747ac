-- ===== src/L3/Sampling.antt =====
-- l3_finality.go: the chunks that a cell is to sample.
pub mod Plans
use custom_consensus.Base.{
  ℕ, zero, suc, ◌+◌, ◌-◌, ◌*◌, ◌%◌, ◌^◌, ◌≤◌, ◌<◌, ◌≡◌, refl, Bool, true, false, ◌||◌, Option, none,
  some, List, [], ◌∷◌, ◌++◌, map, length, take, All, Bytes, Text, ◌==◌, if◌then◌else◌, arith,
  length-take, length-append, min, sym, ap, Bool-cases, inl, inr,
}
use custom_consensus.L3.State.{Outside, be32}

-- The big-endian words of four bytes; what is left over is not read.
unfoldable pub words : Bytes → List ℕ
words (a ∷ b ∷ c ∷ d ∷ bs) = (a * 2 ^ 24 + b * 2 ^ 16 + c * 2 ^ 8 + d) ∷ words bs
words _ = []

module _ {R : Type 0} (o : Outside R) where
  -- The indices that one pass of the outer loop finds.
  unfoldable pub chunk_indices : Bytes → ℕ → ℕ → List ℕ
  chunk_indices seed ctr total = map (λ x. x % total) (words (o.sha256 (seed ++ be32 ctr)))

  -- The loop, with the number of indices still to find; `none` means that the fuel ran out.
  unfoldable pub sample_loop : ℕ → Bytes → ℕ → ℕ → ℕ → Option (List ℕ)
  sample_loop fuel seed ctr total zero = some []
  sample_loop zero seed ctr total (suc n) = none
  sample_loop (suc fuel) seed ctr total (suc n) =
      let found = take (suc n) (chunk_indices seed ctr total) in
      elim (sample_loop fuel seed ((ctr + 1) % 2 ^ 32) total (suc n - length found)) [
        | none ↦ none
        | some rest ↦ some (found ++ rest)
      ]

  unfoldable pub plan_seed : Bytes → Text → ℕ → Bytes
  plan_seed block_id cell_id epoch = o.sha256 (o.randomness epoch ++ block_id ++ cell_id)

  -- `SamplePlan`; as many passes as indices are fuel enough.
  unfoldable pub sample_plan : Bytes → Text → ℕ → ℕ → ℕ → Option (List ℕ)
  sample_plan block_id cell_id epoch count total =
      if (count == 0) || (total == 0)
      then some []
      else sample_loop count (plan_seed block_id cell_id epoch) 0 total count
