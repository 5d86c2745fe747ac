-- ===== src/Mempool/Refine.antt =====
-- internal/mempool/mempool.go: each operation does to the queue what its specification says.
pub mod Adds
pub mod Batch
pub mod OneId
pub mod Removal
use custom_consensus.Base.{
  ℕ, zero, suc, ◌+◌, ◌-◌, ◌≤◌, ◌<◌, ◌≡◌, refl, sym, ap, ◌∙◌, Bool, true, false, not, ◌&&◌, Option,
  none, some, inl, inr, List, [], ◌∷◌, ◌++◌, map, length, drop, Bytes, Text, Map, get, has, ltb,
  leb, ◌==◌, Result, ok, err, arith, Bool-cases, if◌then◌else◌, length-drop,
}
use custom_consensus.Base.Int.{ℤ}
use custom_consensus.Cose.{Tx, update_last_seq}
use custom_consensus.Mempool.{
  Entry, Pool, AddError, invalid, duplicate, replay, too_large, mempool_full, drop_oldest,
  bytes_without, sweep_loop, sweep, evict_count, evict_bytes, entry_of, store_entry, finish_add,
  make_room, admit, AddOutcome, with_seqs, add_tx,
}
use custom_consensus.Mempool.Queue.{
  ids, total, find, Represents, head_found, drop_oldest-Represents, store_entry-Represents,
}

-- The entries that expired at the head of the queue go.
unfoldable pub expire : ℕ → ℕ → List Entry → List Entry
expire ttl now [] = []
expire ttl now (e ∷ q) = if leb (now - e.added) ttl then e ∷ q else expire ttl now q

abbrev pub swept : Pool → ℕ → List Entry → List Entry
swept p now q = if p.ttl == 0 then q else expire p.ttl now q

-- The oldest entries go until fewer than `capacity` are left.
abbrev pub room : ℕ → List Entry → List Entry
room capacity q = if ltb 0 capacity then drop (suc (length q) - capacity) q else q

-- The oldest entries go until `n` more bytes are within `cap`.
unfoldable pub fit : ℕ → ℕ → List Entry → List Entry
fit cap n [] = []
fit cap n (e ∷ q) = if ltb cap (total (e ∷ q) + n) then fit cap n q else e ∷ q

abbrev pub fitted : ℕ → ℕ → List Entry → List Entry
fitted cap n q = if ltb 0 cap then fit cap n q else q

abbrev pub AddSpec : Type 0
AddSpec = List Entry × Result AddError Entry

unfoldable pub admit_spec : Pool → List Entry → Entry → AddSpec
admit_spec p q e =
    if ltb 0 p.cap_bytes && ltb p.cap_bytes (length e.bytes)
    then (q, err too_large)
    else (fitted p.cap_bytes (length e.bytes) (room p.capacity q) ++ (e ∷ []), ok e)

-- `p'` holds the queue `q'`, under the limits of `p`.
pub record Goes (p p' : Pool) (q' : List Entry) : Type 0 where
  pub holds : Represents p' q'
  pub same_capacity : p'.capacity ≡ p.capacity
  pub same_ttl : p'.ttl ≡ p.ttl
  pub same_cap_bytes : p'.cap_bytes ≡ p.cap_bytes

pub stays : (p : Pool) (q : List Entry) → Represents p q → Goes p p q
stays p q r = record { holds = r; same_capacity = refl; same_ttl = refl; same_cap_bytes = refl }

pub then_goes :
    (p p' p'' : Pool) (q' q'' : List Entry) → Goes p p' q' → Goes p' p'' q'' → Goes p p'' q''
then_goes p p' p'' q' q'' a b = record {
  holds = b.holds;
  same_capacity = b.same_capacity ∙ a.same_capacity;
  same_ttl = b.same_ttl ∙ a.same_ttl;
  same_cap_bytes = b.same_cap_bytes ∙ a.same_cap_bytes;
}

pub dropped :
    (p : Pool) (e : Entry) (q : List Entry)
    → Represents p (e ∷ q)
    → Goes p (drop_oldest p e.tx_id (ids q)) q
unfolding drop_oldest
dropped p e q r = record {
  holds = drop_oldest-Represents p e q r;
  same_capacity = refl;
  same_ttl = refl;
  same_cap_bytes = refl;
}

pub reordered :
    (p : Pool) (q : List Entry) (o : List Text)
    → o ≡ ids q
    → Represents p q
    → Goes p (record p { order = o }) q
reordered p q o e r = record {
  holds = record {
    in_order = e;
    exact = r.exact;
    unique = r.unique;
    keys = r.keys;
    count = r.count;
    counted = r.counted;
  };
  same_capacity = refl;
  same_ttl = refl;
  same_cap_bytes = refl;
}

-- A queue that goes on from the one without its head.
after_drop :
    (p p' : Pool) (e : Entry) (q q' : List Entry)
    → Represents p (e ∷ q)
    → (Represents (drop_oldest p e.tx_id (ids q)) q → Goes (drop_oldest p e.tx_id (ids q)) p' q')
    → Goes p p' q'
after_drop p p' e q q' r f =
    let d = dropped p e q r in then_goes p (drop_oldest p e.tx_id (ids q)) p' q q' d (f d.holds)

sweep_loop-Goes :
    (q : List Entry) (now : ℕ) (p : Pool)
    → Represents p q
    → Goes p (sweep_loop (ids q) now p) (expire p.ttl now q)
unfolding sweep_loop expire
sweep_loop-Goes [] now p r = reordered p [] [] refl r
sweep_loop-Goes (e ∷ q) now p r = elim (Bool-cases (leb (now - e.added) p.ttl)) [
  | inl young ↦
      rw (head_found p e q r, young, sweep_loop, expire) (reordered p (e ∷ q) (ids (e ∷ q)) refl r)
  | inr old ↦
      rw (head_found p e q r, old, sweep_loop, expire)
        (after_drop p _ e q _ r (sweep_loop-Goes q now (drop_oldest p e.tx_id (ids q))))
]

pub sweep-Goes :
    (p : Pool) (q : List Entry) (now : ℕ) → Represents p q → Goes p (sweep now p) (swept p now q)
unfolding sweep
sweep-Goes p q now r = elim (Bool-cases (p.ttl == 0)) [
  | inl forever ↦ rw (forever, sweep) (stays p q r)
  | inr some_time ↦ rw (some_time, sweep) (in_order p.order r.in_order)
]
  where
    in_order : (o : List Text) → o ≡ ids q → Goes p (sweep_loop o now p) (expire p.ttl now q)
    in_order o e = rw e (sweep_loop-Goes q now p r)

evict_bytes-Goes :
    (q : List Entry) (n : ℕ) (p : Pool)
    → Represents p q
    → Goes p (evict_bytes (ids q) n p) (fit p.cap_bytes n q)
unfolding evict_bytes fit
evict_bytes-Goes [] n p r = stays p [] r
evict_bytes-Goes (e ∷ q) n p r = elim (Bool-cases (ltb p.cap_bytes (p.cur_bytes + n))) [
  | inl full ↦
      let full' : ltb p.cap_bytes (total (e ∷ q) + n) ≡ true = rw r.counted at full in
      rw (full, full', evict_bytes, fit)
        (after_drop p _ e q _ r (evict_bytes-Goes q n (drop_oldest p e.tx_id (ids q))))
  | inr free ↦
      let free' : ltb p.cap_bytes (total (e ∷ q) + n) ≡ false = rw r.counted at free in
      rw (free, free', evict_bytes, fit) (stays p (e ∷ q) r)
]

pub make_room-Goes :
    (p : Pool) (q : List Entry) (n : ℕ)
    → Represents p q
    → Goes p (make_room p n) (fitted p.cap_bytes n q)
unfolding make_room
make_room-Goes p q n r = elim (Bool-cases (ltb 0 p.cap_bytes)) [
  | inl capped ↦ rw (capped, make_room) (in_order p.order r.in_order)
  | inr free ↦ rw (free, make_room) (stays p q r)
]
  where
    in_order : (o : List Text) → o ≡ ids q → Goes p (evict_bytes o n p) (fit p.cap_bytes n q)
    in_order o e = rw e (evict_bytes-Goes q n p r)

room_full :
    (c : ℕ) (e : Entry) (q : List Entry) → 0 < c → c ≤ suc (length q) → room c (e ∷ q) ≡ room c q
room_full c e q h k =
    let more : suc (suc (length q)) - c ≡ suc (suc (length q) - c) = omega (arith, k) in
    ap (λ n. if ltb 0 c then drop n (e ∷ q) else e ∷ q) more ∙ limited (ltb 0 c) (ground arith)
  where
    limited :
        (b : Bool)
        → b ≡ true
        → (if b then drop (suc (length q) - c) q else e ∷ q)
          ≡ (if b then drop (suc (length q) - c) q else q)
    limited true h = refl
    limited false h = absurd (ground arith)

room_free : (c : ℕ) (q : List Entry) → (ltb 0 c && leb c (length q)) ≡ false → room c q ≡ q
room_free c q h = elim (Bool-cases (ltb 0 c)) [
  | inr unlimited ↦ rw unlimited
  | inl limited ↦
      let enough : suc (length q) - c ≡ 0 = ground arith in rw limited (ap (λ n. drop n q) enough)
]

pub evict_count-Goes :
    (q : List Entry) (p : Pool)
    → Represents p q
    → (p' : Pool) × (evict_count (ids q) p ≡ some p') × Goes p p' (room p.capacity q)
unfolding evict_count
evict_count-Goes [] p r =
    let few : (ltb 0 p.capacity && leb p.capacity (length p.entries)) ≡ false =
      ground (arith, r.count) in
    (p, rw (few, evict_count), rw (room_free p.capacity [] (rw r.count at few)) (stays p [] r))
evict_count-Goes (e ∷ q) p r =
    elim (Bool-cases (ltb 0 p.capacity && leb p.capacity (length p.entries))) [
      | inl full ↦
          let d = dropped p e q r in
          let (p', returned, g) = evict_count-Goes q (drop_oldest p e.tx_id (ids q)) d.holds in
          let shorter : room p.capacity (e ∷ q) ≡ room p.capacity q =
            room_full p.capacity e q (ground arith) (ground (arith, r.count)) in
          (
            p',
            rw (full, evict_count) returned,
            rw shorter (then_goes p (drop_oldest p e.tx_id (ids q)) p' q _ d g),
          )
      | inr free ↦ (
        p,
        rw (free, evict_count),
        rw (room_free p.capacity (e ∷ q) (rw r.count at free)) (stays p (e ∷ q) r),
      )
    ]
