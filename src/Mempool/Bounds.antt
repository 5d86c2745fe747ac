-- ===== src/Mempool/Bounds.antt =====
-- internal/mempool/mempool.go: the pool stays within its capacity and its byte limit.
use custom_consensus.Base.{
  ℕ, zero, suc, ◌+◌, ◌-◌, ◌≤◌, ◌<◌, ◌≡◌, ◌⊎◌, refl, ◌&&◌, Option, none, some, inl, inr, List, [],
  ◌∷◌, length, drop, Bytes, Map, ltb, leb, ◌==◌, Result, arith, Bool-cases, length-append,
  length-drop,
}
use custom_consensus.Base.Int.{ℤ}
use custom_consensus.Cose.{Tx, update_last_seq}
use custom_consensus.Mempool.{Entry, Pool, AddError, entry_of, add_tx}
use custom_consensus.Mempool.Queue.{total, find, Represents, total-append}
use custom_consensus.Mempool.Refine.{expire, swept, room, fitted, admit_spec}
use custom_consensus.Mempool.Refine.Adds.{add_spec, add_tx-Goes, fit_free, fit_suffix}

-- A limit of 0 is none.
abbrev pub Limit : ℕ → ℕ → Type 0
Limit limit n = (limit ≡ 0) ⊎ (n ≤ limit)

pub limited : (limit n : ℕ) → (0 < limit → n ≤ limit) → Limit limit n
limited zero n h = inl refl
limited (suc limit) n h = inr (h (omega arith))

within-Limit : (limit n : ℕ) → Limit limit n → 0 < limit → n ≤ limit
within-Limit limit n (inl none_set) h = absurd (omega arith)
within-Limit limit n (inr low) h = low

abbrev pub Within : Pool → ℕ → ℕ → Type 0
Within p entries bytes = Limit p.capacity entries × Limit p.cap_bytes bytes

abbrev Capped : Pool → ℕ → ℕ → Type 0
Capped p entries bytes =
    (0 < p.capacity → entries ≤ p.capacity) × (0 < p.cap_bytes → bytes ≤ p.cap_bytes)

capped : (p : Pool) (entries bytes : ℕ) → Within p entries bytes → Capped p entries bytes
capped p entries bytes (few, light) =
    (within-Limit p.capacity entries few, within-Limit p.cap_bytes bytes light)

total-drop : (n : ℕ) (q : List Entry) → total (drop n q) ≤ total q
unfolding total
total-drop zero q = omega arith
total-drop (suc n) [] = omega arith
total-drop (suc n) (e ∷ q) = omega (arith, total-drop n q)

expire_small :
    (ttl now : ℕ) (q : List Entry)
    → (length (expire ttl now q) ≤ length q) × (total (expire ttl now q) ≤ total q)
unfolding expire total
expire_small ttl now [] = (omega arith, omega arith)
expire_small ttl now (e ∷ q) = elim (Bool-cases (leb (now - e.added) ttl)) [
  | inl young ↦ rw (young, expire) (omega arith, omega arith)
  | inr old ↦
      rw (old, expire)
        (omega (arith, expire_small ttl now q), omega (arith, expire_small ttl now q))
]

swept_small :
    (p : Pool) (now : ℕ) (q : List Entry)
    → (length (swept p now q) ≤ length q) × (total (swept p now q) ≤ total q)
swept_small p now q = elim (Bool-cases (p.ttl == 0)) [
  | inl forever ↦ rw forever (omega arith, omega arith)
  | inr limited ↦ rw limited (expire_small p.ttl now q)
]

length-fitted : (cap n : ℕ) (q : List Entry) → length (fitted cap n q) ≤ length q
length-fitted cap n q = elim (Bool-cases (ltb 0 cap)) [
  | inr free ↦ rw free (omega arith)
  | inl capped ↦
      let (k, same) = fit_suffix cap n q in rw capped (rw same (omega (arith, length-drop k q)))
]

length-room : (c : ℕ) (q : List Entry) → 0 < c → length (room c q) < c
length-room c q h = elim (Bool-cases (ltb 0 c)) [
  | inr free ↦ absurd (ground arith)
  | inl limited ↦ rw limited (omega (arith, length-drop (suc (length q) - c) q, h))
]

fitted_total : (cap n : ℕ) (q : List Entry) → 0 < cap → n ≤ cap → total (fitted cap n q) + n ≤ cap
fitted_total cap n q h k = elim (Bool-cases (ltb 0 cap)) [
  | inr free ↦ absurd (ground arith)
  | inl capped ↦ rw capped (fit_free cap n q k)
]

admit_spec_within :
    (p : Pool) (q : List Entry) (e : Entry)
    → Capped p (length q) (total q)
    → Capped p (length (admit_spec p q e).0) (total (admit_spec p q e).0)
unfolding admit_spec
admit_spec_within p q e w =
    elim (Bool-cases (ltb 0 p.cap_bytes && ltb p.cap_bytes (length e.bytes))) [
      | inl large ↦ rw (large, admit_spec) w
      | inr small ↦
          let n = length e.bytes in
          let q' = room p.capacity q in
          let q'' = fitted p.cap_bytes n q' in
          rw (small, admit_spec)
            (
              λ h. omega (
                arith,
                length-append q'' (e ∷ []),
                length-fitted p.cap_bytes n q',
                length-room p.capacity q h,
              ),
              λ h.
                  omega (arith, total-append q'' e, fitted_total p.cap_bytes n q' h (ground arith)),
            )
    ]

add_spec_within :
    (seqs : Map ℤ) (p : Pool) (q : List Entry) (tx : Tx) (b : Bytes) (now : ℕ)
    → Capped p (length q) (total q)
    → let q' = (add_spec seqs p q tx b now).1 in Capped p (length q') (total q')
unfolding add_spec
add_spec_within seqs p q tx b now w = by_found (find tx.tx_id q') refl
  where
    q' : List Entry
    q' = swept p now q

    swept_within : Capped p (length q') (total q')
    swept_within = (
      λ h. omega (arith, w.0 h, swept_small p now q),
      λ h. omega (arith, w.1 h, swept_small p now q),
    )

    by_found :
        (o : Option Entry)
        → find tx.tx_id q' ≡ o
        → let q'' = (add_spec seqs p q tx b now).1 in Capped p (length q'') (total q'')
    by_found (some e) found = rw (found, add_spec) swept_within
    by_found none absent = elim (Bool-cases (update_last_seq seqs tx.dev_id tx.kid tx.seq).1) [
      | inr old ↦ rw (absent, old, add_spec) swept_within
      | inl new ↦
          rw (absent, new, add_spec) (admit_spec_within p q' (entry_of tx b now) swept_within)
    ]

-- A pool that holds at most its capacity of entries and at most its limit of bytes, where these
-- limits are set, still does after any addition of a transaction that validates.
pub add_tx-Within :
    (seqs : Map ℤ) (p : Pool) (q : List Entry) (tx : Tx) (b : Bytes) (now : ℕ)
    → Represents p q
    → Within p (length p.entries) p.cur_bytes
    → (seqs' : Map ℤ) × (p' : Pool) × (r : Result AddError Entry) × (add_tx seqs p tx b now
        ≡ some (seqs', p', r))
      × Within p' (length p'.entries) p'.cur_bytes
add_tx-Within seqs p q tx b now r w =
    let spec = add_spec seqs p q tx b now in
    let (p', returned, g) = add_tx-Goes seqs p q tx b now r in
    let (few_now, light_now) = capped p (length p.entries) p.cur_bytes w in
    let (few, light) =
      add_spec_within seqs p q tx b now
        (λ h. omega (arith, few_now h, r.count), λ h. omega (arith, light_now h, r.counted)) in
    (
      spec.0,
      p',
      spec.2,
      returned,
      (
        limited p'.capacity (length p'.entries) (λ h.
            omega (arith, few (omega (arith, h, g.same_capacity)), g.same_capacity, g.holds.count)),
        limited p'.cap_bytes p'.cur_bytes (λ h.
            omega (
              arith,
              light (omega (arith, h, g.same_cap_bytes)),
              g.same_cap_bytes,
              g.holds.counted,
            )),
      ),
    )
