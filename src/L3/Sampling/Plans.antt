-- ===== src/L3/Sampling/Plans.antt =====
-- l3_finality.go: a plan has the indices asked for, within the chunks.
use custom_consensus.Base.{
  ℕ, zero, suc, ◌+◌, ◌-◌, ◌%◌, ◌^◌, ◌≤◌, ◌<◌, ◌≡◌, refl, ◌∙◌, Option, none, some, List, [], ◌∷◌,
  ◌++◌, map, length, take, All, Bytes, Text, arith, length-take, length-append, min, ap,
}
use custom_consensus.L3.State.{Outside, be32}
use custom_consensus.L3.Sampling.{words, chunk_indices, sample_loop, plan_seed, sample_plan}

All-take {ℓ κ} : {A : Type ℓ} (P : A → Type κ) (n : ℕ) (xs : List A) → All P xs → All P (take n xs)
All-take P zero xs a = tt
All-take P (suc n) [] a = tt
All-take P (suc n) (x ∷ xs) (h, a) = (h, All-take P n xs a)

All-append {ℓ κ} :
    {A : Type ℓ} (P : A → Type κ) (xs ys : List A) → All P xs → All P ys → All P (xs ++ ys)
All-append P [] ys a b = b
All-append P (x ∷ xs) ys (h, a) b = (h, All-append P xs ys a b)

length-words : (bs : Bytes) → 4 ≤ length bs → 1 ≤ length (words bs)
unfolding words
length-words [] h = absurd (omega arith)
length-words (a ∷ []) h = absurd (omega arith)
length-words (a ∷ b ∷ []) h = absurd (omega arith)
length-words (a ∷ b ∷ c ∷ []) h = absurd (omega arith)
length-words (a ∷ b ∷ c ∷ d ∷ bs) h = omega arith

length-map {ℓ κ} :
    {A : Type ℓ} {B : Type κ} (f : A → B) (xs : List A) → length (map f xs) ≡ length xs
length-map f [] = refl
length-map f (x ∷ xs) = ap suc (length-map f xs)

Remainders : (total : ℕ) (xs : List ℕ) → 0 < total → All (λ x. x < total) (map (λ x. x % total) xs)
Remainders total [] h = tt
Remainders total (x ∷ xs) h = (omega arith, Remainders total xs h)

-- As many indices as asked for, each of a chunk.
abbrev pub IsPlan : ℕ → ℕ → List ℕ → Type 0
IsPlan total n xs = (length xs ≡ n) × All (λ x. x < total) xs

module _ {R : Type 0} (o : Outside R) where
  loop_next :
      (found : List ℕ) (total n : ℕ) (rest : Option (List ℕ))
      → length found ≤ n
      → All (λ x. x < total) found
      → (xs : List ℕ) × (rest ≡ some xs) × IsPlan total (n - length found) xs
      → (xs : List ℕ) × ((elim rest [ none ↦ none | some r ↦ some (found ++ r) ]) ≡ some xs)
        × IsPlan total n xs
  loop_next found total n rest le a (xs, e, (len, b)) = (
    found ++ xs,
    rw e refl,
    (ground (arith, length-append found xs), All-append (λ x. x < total) found xs a b),
  )

  sample_loop-IsPlan :
      (fuel : ℕ) (seed : Bytes) (ctr total n : ℕ)
      → ((bs : Bytes) → 4 ≤ length (o.sha256 bs))
      → 0 < total
      → n ≤ fuel
      → (xs : List ℕ) × (sample_loop o fuel seed ctr total n ≡ some xs) × IsPlan total n xs
  unfolding sample_loop chunk_indices
  sample_loop-IsPlan fuel seed ctr total zero hash h le = ([], refl, (refl, tt))
  sample_loop-IsPlan zero seed ctr total (suc n) hash h le = absurd (omega arith)
  sample_loop-IsPlan (suc fuel) seed ctr total (suc n) hash h le =
      let found = take (suc n) (chunk_indices o seed ctr total) in
      let len : length found ≡ min (suc n) (length (words (o.sha256 (seed ++ be32 ctr)))) =
        length-take (suc n) (chunk_indices o seed ctr total)
        ∙ ap (min (suc n)) (length-map (λ x. x % total) _) in
      let some_found = length-words (o.sha256 (seed ++ be32 ctr)) (hash _) in
      loop_next found total (suc n)
        (sample_loop o fuel seed ((ctr + 1) % 2 ^ 32) total (suc n - length found))
        (omega (arith, len))
        (All-take _ (suc n) _ (Remainders total (words (o.sha256 (seed ++ be32 ctr))) h))
        (sample_loop-IsPlan fuel seed ((ctr + 1) % 2 ^ 32) total (suc n - length found) hash h
          (omega (arith, len, some_found)))

  -- The number of indices that a plan has: none when there are no chunks.
  abbrev pub plan_length : ℕ → ℕ → ℕ
  plan_length count zero = 0
  plan_length count (suc total) = count

  sample_plan_none :
      (block_id : Bytes) (cell_id : Text) (epoch count : ℕ)
      → sample_plan o block_id cell_id epoch count 0 ≡ some []
  unfolding sample_plan
  sample_plan_none block_id cell_id epoch count = ground arith

  sample_plan_loop :
      (block_id : Bytes) (cell_id : Text) (epoch count total : ℕ)
      → sample_plan o block_id cell_id epoch (suc count) (suc total)
        ≡ sample_loop o (suc count) (plan_seed o block_id cell_id epoch) 0 (suc total) (suc count)
  unfolding sample_plan
  sample_plan_loop block_id cell_id epoch count total = ground arith

  -- With a hash of at least four bytes, SamplePlan returns, and its plan has exactly the indices
  -- asked for (none when there are no chunks), each below the number of chunks.
  pub sample_plan-IsPlan :
      (block_id : Bytes) (cell_id : Text) (epoch count total : ℕ)
      → ((bs : Bytes) → 4 ≤ length (o.sha256 bs))
      → (xs : List ℕ) × (sample_plan o block_id cell_id epoch count total ≡ some xs)
        × IsPlan total (plan_length count total) xs
  unfolding sample_plan
  sample_plan-IsPlan block_id cell_id epoch zero zero hash = ([], refl, (refl, tt))
  sample_plan-IsPlan block_id cell_id epoch zero (suc total) hash = ([], refl, (refl, tt))
  sample_plan-IsPlan block_id cell_id epoch (suc count) zero hash =
      ([], sample_plan_none block_id cell_id epoch (suc count), (refl, tt))
  sample_plan-IsPlan block_id cell_id epoch (suc count) (suc total) hash =
      rw (sample_plan_loop block_id cell_id epoch count total) (
        sample_loop-IsPlan (suc count) (plan_seed o block_id cell_id epoch) 0 (suc total)
          (suc count) hash (omega arith) (omega arith))
