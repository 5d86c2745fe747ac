-- ===== src/L1/Stale.antt =====
-- l1_notarization.go: `recordNotarized` indexes the records before it cuts them.
use custom_consensus.Base.{
  ℕ, suc, ◌+◌, ◌≤◌, ◌≡◌, ◌∙◌, refl, ap, none, some, List, [], ◌∷◌, ◌++◌, length, length-append,
  length-take, get_elem?, get_elem?-lt, Text, Map, get, put, get-put_self, Option-cases, inl, inr,
  arith,
}
use custom_consensus.Base.Int.{ℤ}
use custom_consensus.L1.State.{L1, L1Record}
use custom_consensus.L1.Records.{
  index_from, reindexed, prune_attests, push_notarized, record_notarized, record_notarized_at,
  update_at, pruned, update_attesters, update_attesters_at,
}

index_from_last :
    (i : ℕ) (rs : List L1Record) (r : L1Record) (m : Map ℕ)
    → index_from i (rs ++ (r ∷ [])) m ≡ put r.hash (i + length rs) (index_from i rs m)
unfolding index_from
index_from_last i [] r m = ap (λ n. put r.hash n m) (omega arith)
index_from_last i (q ∷ rs) r m =
    index_from_last (suc i) rs r (put q.hash i m)
    ∙ ap (λ n. put r.hash n (index_from (suc i) rs (put q.hash i m))) (omega arith)

get_elem?-ge {ℓ} : {A : Type ℓ} (xs : List A) (i : ℕ) → length xs ≤ i → get_elem? xs i ≡ none
get_elem?-ge xs i h = elim (Option-cases (get_elem? xs i)) [
  | inl e ↦ e
  | inr (x, e) ↦ absurd (omega (arith, get_elem?-lt xs i e))
]

update_at-none :
    (s : L1) (i : ℕ) (f : L1Record → L1Record)
    → get_elem? s.recent i ≡ none
    → update_at s i f ≡ none
unfolding update_at
update_at-none s i f e = rw (e, update_at) refl

update_attesters_panics :
    (s : L1) (k : Text) (epoch : ℕ) (height : ℤ) (n now i : ℕ)
    → get k s.rec_by_hash ≡ some i
    → length s.recent ≤ i
    → update_attesters s k epoch height n now ≡ none
unfolding update_attesters update_attesters_at pruned
update_attesters_panics s k epoch height n now i found out =
    ap (update_attesters_at s k epoch height n now) found
    ∙ ap (λ v. pruned v now) (update_at-none s i _ (get_elem?-ge s.recent i out))

-- When the recent records are as many as are kept and a block without a record is notarized, the
-- index still holds the hash of the record that falls out, and the next attestation of that block
-- panics. (onAttest itself records the block first, so another goroutine must come in between.)
pub record_notarized_stale :
    (s : L1) (rs : List L1Record) (last : L1Record) (k : Text) (epoch e' : ℕ) (height h' : ℤ)
    (n n' dt now later : ℕ)
    → s.recent ≡ rs ++ (last ∷ [])
    → length s.recent ≡ s.max_recent
    → get k s.rec_by_hash ≡ none
    → (t : L1) × (record_notarized s k epoch height n dt now ≡ some t)
      × (update_attesters t last.hash e' h' n' later ≡ none)
unfolding record_notarized record_notarized_at push_notarized prune_attests reindexed index_from
record_notarized_stale s rs last k epoch e' height h' n n' dt now later is full new = (
  _,
  ap (record_notarized_at s k epoch height n dt now) new,
  update_attesters_panics _ last.hash e' h' n' later (length s.recent)
      (ap (λ xs. get last.hash (index_from 1 xs (put k 0 []))) is
        ∙ ap (get last.hash) (index_from_last 1 rs last (put k 0 []))
        ∙ get-put_self last.hash (1 + length rs) (index_from 1 rs (put k 0 []))
        ∙ ap some (omega (arith, length-append rs (last ∷ []), ap length is)))
      (omega (arith, length-take s.max_recent (_ ∷ s.recent))),
)
