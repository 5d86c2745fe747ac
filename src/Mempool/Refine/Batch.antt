-- ===== src/Mempool/Refine/Batch.antt =====
-- internal/mempool/mempool.go, `PopBatch`: the oldest entries leave in their order.
use custom_consensus.Base.{
  ℕ, zero, suc, ◌≡◌, refl, ap, ◌∙◌, inl, inr, List, [], ◌∷◌, map, length, take, drop, Bytes, Text,
  ◌==◌, arith, Bool-cases, if◌then◌else◌, subst, min,
}
use custom_consensus.Mempool.{
  Entry, Pool, drop_oldest, sweep, pop_loop, pop_count, pop_some, pop_batch,
}
use custom_consensus.Mempool.Queue.{ids, Represents, head_found}
use custom_consensus.Mempool.Refine.{swept, Goes, stays, then_goes, dropped, reordered, sweep-Goes}

-- The bytes that went out, and the entries that stay.
abbrev Takes : Pool → ℕ → List Entry → List Bytes × Pool → Type 0
Takes p n q (out, p') = (out ≡ map (λ e. e.bytes) (take n q)) × Goes p p' (drop n q)

pop_loop-Takes :
    (q : List Entry) (n : ℕ) (p : Pool) → Represents p q → Takes p n q (pop_loop (ids q) n p)
unfolding pop_loop
pop_loop-Takes q zero p r = (refl, reordered p q (ids q) refl r)
pop_loop-Takes [] (suc n) p r = (refl, reordered p [] [] refl r)
pop_loop-Takes (e ∷ q) (suc n) p r =
    let d = dropped p e q r in
    let p' = drop_oldest p e.tx_id (ids q) in
    let (out, g) = pop_loop-Takes q n p' d.holds in
    rw (head_found p e q r, pop_loop)
      (ap (◌∷◌ e.bytes) out, then_goes p p' (pop_loop (ids q) n p').1 q (drop n q) d g)

pop_some-Takes : (q : List Entry) (n : ℕ) (p : Pool) → Represents p q → Takes p n q (pop_some n p)
unfolding pop_some
pop_some-Takes q n p r = elim (Bool-cases (n == 0)) [
  | inr some_left ↦ rw (some_left, pop_some) (in_order p.order r.in_order)
  | inl nothing_left ↦
      let zero_left : 0 ≡ n = ground arith in
      rw (nothing_left, pop_some) (subst (λ k. Takes p k q ([], p)) zero_left (refl, stays p q r))
]
  where
    in_order : (o : List Text) → o ≡ ids q → Takes p n q (pop_loop o n p)
    in_order o e = rw e (pop_loop-Takes q n p r)

length-ids : (q : List Entry) → length (ids q) ≡ length q
length-ids [] = refl
length-ids (e ∷ q) = omega (arith, length-ids q)

-- The number of entries that `PopBatch` takes of `len`.
abbrev pub batch_size : ℕ → ℕ → ℕ
batch_size max len = if max == 0 then len else min max len

pop_count_lem : (max len : ℕ) → pop_count max len ≡ batch_size max len
unfolding pop_count
pop_count_lem max len = ground arith

-- `PopBatch` returns the bytes of the oldest entries that did not expire, `max` of them or as many as
-- there are (all of them for a `max` of 0), oldest first, and leaves the others in their order.
pub pop_batch-Goes :
    (now max : ℕ) (p : Pool) (q : List Entry)
    → Represents p q
    → let n = batch_size max (length (swept p now q)) in
      ((pop_batch now max p).0 ≡ map (λ e. e.bytes) (take n (swept p now q)))
      × Goes p (pop_batch now max p).1 (drop n (swept p now q))
unfolding pop_batch
pop_batch-Goes now max p q r =
    let p' = sweep now p in
    let q' = swept p now q in
    let g = sweep-Goes p q now r in
    let counted : pop_count max (length p'.order) ≡ batch_size max (length q') =
      ap (pop_count max) (ap length g.holds.in_order ∙ length-ids q')
      ∙ pop_count_lem max (length q') in
    let (out, g') =
      subst (λ n. Takes p' n q' (pop_some (pop_count max (length p'.order)) p')) counted
        (pop_some-Takes q' (pop_count max (length p'.order)) p' g.holds) in
    (out, then_goes p p' (pop_batch now max p).1 q' _ g g')
