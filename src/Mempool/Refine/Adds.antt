-- ===== src/Mempool/Refine/Adds.antt =====
-- internal/mempool/mempool.go, `AddValidatedCOSE`: it never panics, and does what its specification on
-- queues says.
use custom_consensus.Base.{
  ℕ, zero, suc, ◌+◌, ◌-◌, ◌≤◌, ◌≡◌, refl, ap, ◌∙◌, Bool, true, false, ◌&&◌, Option, none, some, inl,
  inr, List, [], ◌∷◌, ◌++◌, length, drop, Bytes, Text, Map, get, has, ltb, Result, ok, err, arith,
  Bool-cases, if◌then◌else◌, subst,
}
use custom_consensus.Base.Int.{ℤ}
use custom_consensus.Cose.{Tx, update_last_seq}
use custom_consensus.Mempool.{
  Entry, Pool, AddError, duplicate, replay, too_large, entry_of, store_entry, finish_add, make_room,
  admit, sweep, with_seqs, add_tx, evict_count,
}
use custom_consensus.Mempool.Queue.{ids, total, find, Represents, store_entry-Represents}
use custom_consensus.Mempool.Refine.{
  room, fit, fitted, swept, admit_spec, Goes, stays, then_goes, sweep-Goes, evict_count-Goes,
  make_room-Goes,
}

find-drop : (n : ℕ) (id : Text) (q : List Entry) → find id q ≡ none → find id (drop n q) ≡ none
unfolding find
find-drop zero id q h = h
find-drop (suc n) id [] h = refl
find-drop (suc n) id (e ∷ q) h = find-drop n id q (ground arith)

-- Room for bytes is made from the oldest entry on.
pub fit_suffix : (cap n : ℕ) (q : List Entry) → (k : ℕ) × (fit cap n q ≡ drop k q)
unfolding fit
fit_suffix cap n [] = (0, refl)
fit_suffix cap n (e ∷ q) = elim (Bool-cases (ltb cap (total (e ∷ q) + n))) [
  | inl full ↦ let (k, same) = fit_suffix cap n q in (suc k, rw (full, fit) same)
  | inr free ↦ (0, rw (free, fit) refl)
]

-- The entries that an addition keeps are the newest ones, in their order.
pub kept_suffix :
    (capacity cap n : ℕ) (q : List Entry) → (k : ℕ) × (fitted cap n (room capacity q) ≡ drop k q)
kept_suffix capacity cap n q = by_limits (ltb 0 capacity) (ltb 0 cap)
  where
    drop-drop : (j k : ℕ) (q : List Entry) → (n : ℕ) × (drop j (drop k q) ≡ drop n q)
    drop-drop j zero q = (j, refl)
    drop-drop zero (suc k) [] = (0, refl)
    drop-drop (suc j) (suc k) [] = (0, refl)
    drop-drop j (suc k) (e ∷ q) = let (n, same) = drop-drop j k q in (suc n, same)

    by_limits :
        (a b : Bool)
        → let q' = if a then drop (suc (length q) - capacity) q else q in
          (k : ℕ) × ((if b then fit cap n q' else q') ≡ drop k q)
    by_limits false false = (0, refl)
    by_limits true false = (suc (length q) - capacity, refl)
    by_limits false true = fit_suffix cap n q
    by_limits true true =
        let (j, same) = fit_suffix cap n (drop (suc (length q) - capacity) q) in
        let (k, same') = drop-drop j (suc (length q) - capacity) q in (k, same ∙ same')

-- Enough bytes are free after that, for a transaction of at most `cap`.
pub fit_free : (cap n : ℕ) (q : List Entry) → n ≤ cap → total (fit cap n q) + n ≤ cap
unfolding fit total
fit_free cap n [] h = omega (arith, h)
fit_free cap n (e ∷ q) h = elim (Bool-cases (ltb cap (total (e ∷ q) + n))) [
  | inl full ↦ rw (full, fit) (fit_free cap n q h)
  | inr free ↦ rw (free, fit) (ground arith)
]

fitted_free :
    (cap n : ℕ) (q : List Entry)
    → (ltb 0 cap && ltb cap n) ≡ false
    → (ltb 0 cap && ltb cap (total (fitted cap n q) + n)) ≡ false
fitted_free cap n q h = elim (Bool-cases (ltb 0 cap)) [
  | inr free ↦ rw free refl
  | inl capped ↦ rw capped (ground (arith, fit_free cap n q))
]

stored :
    (p : Pool) (q : List Entry) (e : Entry)
    → Represents p q
    → find e.tx_id q ≡ none
    → (ltb 0 p.cap_bytes && ltb p.cap_bytes (total q + length e.bytes)) ≡ false
    → (finish_add p e ≡ (store_entry p e, ok e)) × Goes p (store_entry p e) (q ++ (e ∷ []))
unfolding finish_add store_entry
stored p q e r fresh small =
    let small' : (ltb 0 p.cap_bytes && ltb p.cap_bytes (p.cur_bytes + length e.bytes)) ≡ false =
      ap (λ n. ltb 0 p.cap_bytes && ltb p.cap_bytes (n + length e.bytes)) r.counted ∙ small in
    (
      rw (small', finish_add),
      record {
        holds = store_entry-Represents p q e r fresh;
        same_capacity = refl;
        same_ttl = refl;
        same_cap_bytes = refl;
      },
    )

pub admit-Goes :
    (p : Pool) (q : List Entry) (e : Entry)
    → Represents p q
    → find e.tx_id q ≡ none
    → (p' : Pool) × (admit p e ≡ some (p', (admit_spec p q e).1)) × Goes p p' (admit_spec p q e).0
unfolding admit admit_spec
admit-Goes p q e r fresh =
    elim (Bool-cases (ltb 0 p.cap_bytes && ltb p.cap_bytes (length e.bytes))) [
      | inl large ↦ (p, rw (large, admit, admit_spec), rw (large, admit_spec) (stays p q r))
      | inr small ↦
          let n = length e.bytes in
          let (p₁, returned, g₁) = evict_count-Goes q p r in
          let p₂ = make_room p₁ n in
          let q₂ = fitted p.cap_bytes n (room p.capacity q) in
          let g₂ : Goes p₁ p₂ q₂ =
            subst (λ c. Goes p₁ p₂ (fitted c n (room p.capacity q))) g₁.same_cap_bytes
              (make_room-Goes p₁ (room p.capacity q) n g₁.holds) in
          let g = then_goes p p₁ p₂ (room p.capacity q) q₂ g₁ g₂ in
          let (k, suffix) = kept_suffix p.capacity p.cap_bytes n q in
          let absent : find e.tx_id q₂ ≡ none =
            ap (find e.tx_id) suffix ∙ find-drop k e.tx_id q fresh in
          let free : (ltb 0 p₂.cap_bytes && ltb p₂.cap_bytes (total q₂ + n)) ≡ false =
            ap (λ c. ltb 0 c && ltb c (total q₂ + n)) g.same_cap_bytes
            ∙ fitted_free p.cap_bytes n (room p.capacity q) small in
          let (finished, g₃) = stored p₂ q₂ e g.holds absent free in
          (
            store_entry p₂ e,
            rw (small, admit, admit_spec) (kept p.order r.in_order p₁ returned finished),
            rw (small, admit_spec) (then_goes p p₂ (store_entry p₂ e) q₂ (q₂ ++ (e ∷ [])) g g₃),
          )
    ]
  where
    kept :
        (o : List Text)
        → o ≡ ids q
        → (p₁ : Pool) → evict_count (ids q) p ≡ some p₁
        → finish_add (make_room p₁ (length e.bytes)) e
          ≡ (store_entry (make_room p₁ (length e.bytes)) e, ok e)
        → elim (evict_count o p) [
          | none ↦ none
          | some p' ↦ some (finish_add (make_room p' (length e.bytes)) e)
        ]
          ≡ some (store_entry (make_room p₁ (length e.bytes)) e, ok e)
    kept o same p₁ returned finished = rw (same, returned, finished)

admit_spec_limits :
    (p p' : Pool) (q : List Entry) (e : Entry)
    → p'.capacity ≡ p.capacity
    → p'.cap_bytes ≡ p.cap_bytes
    → admit_spec p' q e ≡ admit_spec p q e
unfolding admit_spec
admit_spec_limits p p' q e h k = by_limits p'.capacity p'.cap_bytes h k
  where
    by_limits :
        (capacity cap : ℕ)
        → capacity ≡ p.capacity
        → cap ≡ p.cap_bytes
        → (if ltb 0 cap && ltb cap (length e.bytes)
            then (q, err too_large)
            else (fitted cap (length e.bytes) (room capacity q) ++ (e ∷ []), ok e))
          ≡ admit_spec p q e
    by_limits capacity cap h k = rw (h, k) refl

-- What an addition does to the queue. Entries go from the old end only, the new one comes last, and
-- `mempool_full` does not occur: sequence numbers, the queue, and the result.
unfoldable pub add_spec :
    Map ℤ → Pool → List Entry → Tx → Bytes → ℕ → Map ℤ × List Entry × Result AddError Entry
unfolding admit_spec
add_spec seqs p q tx b now =
    let q' = swept p now q in
    elim (find tx.tx_id q') [
      | some e ↦ (seqs, q', err duplicate)
      | none ↦
          let (seqs', fresh) = update_last_seq seqs tx.dev_id tx.kid tx.seq in
          if fresh
          then (let (q'', r) = admit_spec p q' (entry_of tx b now) in (seqs', q'', r))
          else (seqs', q', err replay)
    ]

-- The addition of a transaction that validates never panics, whatever the limits: it returns the
-- sequence numbers and the result of `add_spec`, and the pool then holds the queue of `add_spec`, under
-- the same limits.
pub add_tx-Goes :
    (seqs : Map ℤ) (p : Pool) (q : List Entry) (tx : Tx) (b : Bytes) (now : ℕ)
    → Represents p q
    → let (seqs', q', r) = add_spec seqs p q tx b now in
      (p' : Pool) × (add_tx seqs p tx b now ≡ some (seqs', p', r)) × Goes p p' q'
unfolding add_tx add_spec has with_seqs
add_tx-Goes seqs p q tx b now r = by_found (find tx.tx_id q') refl
  where
    q' : List Entry
    q' = swept p now q

    p' : Pool
    p' = sweep now p

    g : Goes p p' q'
    g = sweep-Goes p q now r

    by_found :
        (o : Option Entry)
        → find tx.tx_id q' ≡ o
        → let (seqs', q'', r) = add_spec seqs p q tx b now in
          (t : Pool) × (add_tx seqs p tx b now ≡ some (seqs', t, r)) × Goes p t q''
    by_found (some e) found =
        let held : get tx.tx_id p'.entries ≡ some e = g.holds.exact tx.tx_id ∙ found in
        (p', rw (held, found, add_tx, add_spec), rw (found, add_spec) g)
    by_found none absent =
        let held : get tx.tx_id p'.entries ≡ none = g.holds.exact tx.tx_id ∙ absent in
        elim (Bool-cases (update_last_seq seqs tx.dev_id tx.kid tx.seq).1) [
          | inr old ↦ (p', rw (held, absent, old, add_tx, add_spec), rw (absent, old, add_spec) g)
          | inl new ↦
              let e = entry_of tx b now in
              let (t, returned, g') = admit-Goes p' q' e g.holds absent in
              let same = admit_spec_limits p p' q' e g.same_capacity g.same_cap_bytes in
              let returned' : admit p' e ≡ some (t, (admit_spec p q' e).1) =
                returned ∙ ap (λ r. some (t, r.1)) same in
              let g'' : Goes p' t (admit_spec p q' e).0 = subst (λ r. Goes p' t r.0) same g' in
              (
                t,
                rw (held, absent, new, returned', add_tx, add_spec),
                rw (absent, new, add_spec) (then_goes p p' t q' _ g g''),
              )
        ]
