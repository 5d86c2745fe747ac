-- ===== src/Aion/Entropy/Lowest.antt =====
-- internal/aion/entropy.go, `HLowerBoundBits`: the least of the estimates.
use custom_consensus.Base.{ℕ, ◌≤◌, List, [], ◌∷◌, arith, ltb, if◌then◌else◌, All}
use custom_consensus.Aion.Entropy.{min_loop, h_lower_bound_bits}

min_loop-le : (m k : ℕ) (vals : List ℕ) → m ≤ k → min_loop m vals ≤ k
unfolding min_loop
min_loop-le m k [] h = h
min_loop-le m k (v ∷ vals) h = min_loop-le (if ltb v m then v else m) k vals (ground arith)

min_loop-le_vals : (m : ℕ) (vals : List ℕ) → All (λ v. min_loop m vals ≤ v) vals
unfolding min_loop
min_loop-le_vals m [] = tt
min_loop-le_vals m (v ∷ vals) = (
  min_loop-le (if ltb v m then v else m) v vals (ground arith),
  min_loop-le_vals (if ltb v m then v else m) vals,
)

le-min_loop : (k m : ℕ) (vals : List ℕ) → k ≤ m → All (λ v. k ≤ v) vals → k ≤ min_loop m vals
unfolding min_loop
le-min_loop k m [] h a = h
le-min_loop k m (v ∷ vals) h (hv, a) =
    le-min_loop k (if ltb v m then v else m) vals (ground arith) a

All-le : {k m : ℕ} (vals : List ℕ) → k ≤ m → All (λ v. m ≤ v) vals → All (λ v. k ≤ v) vals
All-le [] h a = tt
All-le (v ∷ vals) h (hv, a) = (omega arith, All-le vals h a)

-- HLowerBoundBits is at most 128 and at most every estimate, and at least any number `k` that is so:
-- it is the greatest one.
pub h_lower_bound_bits_lem :
    (v : ℕ) (vals : List ℕ) (k : ℕ)
    → k ≤ 128
    → All (λ u. k ≤ u) (v ∷ vals)
    → let r = h_lower_bound_bits (v ∷ vals) in (r ≤ 128) × All (λ u. r ≤ u) (v ∷ vals) × (k ≤ r)
unfolding h_lower_bound_bits
h_lower_bound_bits_lem v vals k h a =
    let m = min_loop v vals in
    (
      ground arith,
      All-le (v ∷ vals) (ground arith)
          (min_loop-le v v vals (omega arith), min_loop-le_vals v vals),
      ground (arith, le-min_loop k v vals a.0 a.1),
    )
