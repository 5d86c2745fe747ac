-- ===== src/L1/Records.antt =====
-- l1_notarization.go: the recent records and their index. A `none` is the panic of an index out of
-- range.
use custom_consensus.Base.{
  ℕ, zero, suc, ◌-◌, ◌/◌, Bool, true, false, Option, none, some, List, [], ◌∷◌, take, get_elem?,
  Bytes, Text, Map, get, put, has, ltb, if◌then◌else◌,
}
use custom_consensus.Base.Int.{ℤ}
use custom_consensus.L1.State.{L1, L1Record}

-- `s.recent[idx] = r`, within range.
unfoldable pub set_elem {ℓ} : {A : Type ℓ} → ℕ → A → List A → List A
set_elem i x [] = []
set_elem zero x (y ∷ ys) = x ∷ ys
set_elem (suc i) x (y ∷ ys) = y ∷ set_elem i x ys

-- `recByHash` for the records from this index on.
unfoldable pub index_from : ℕ → List L1Record → Map ℕ → Map ℕ
index_from i [] m = m
index_from i (r ∷ rs) m = index_from (suc i) rs (put r.hash i m)

unfoldable pub reindexed : List L1Record → Map ℕ
reindexed rs = index_from 0 rs []

-- The test of `pruneAttestsLocked` for an entry.
unfoldable pub retained : L1 → ℕ → Text → Bool
retained s now hash_hex =
    if has hash_hex s.rec_by_hash
    then true
    else elim (get hash_hex s.first) [ none ↦ false | some t ↦ ltb (now - t) s.retain_for ]

unfoldable pub keep_attests : L1 → ℕ → Map (List Bytes) → Map (List Bytes)
keep_attests s now [] = []
keep_attests s now ((k, raws) ∷ m) =
    let rest = keep_attests s now m in if retained s now k then (k, raws) ∷ rest else rest

-- `pruneAttestsLocked`
unfoldable pub prune_attests : L1 → ℕ → L1
prune_attests s now = record s { attests = keep_attests s now s.attests }

-- A record on top of the others, which are cut to `maxRecent` and indexed.
unfoldable pub push_record : L1 → L1Record → L1
push_record s r =
    let recent = take s.max_recent (r ∷ s.recent) in
    record s { recent = recent; rec_by_hash = reindexed recent }

-- The same in `recordNotarized`, which indexes the records before it cuts them.
unfoldable pub push_notarized : L1 → L1Record → L1
push_notarized s r = record s {
  recent = take s.max_recent (r ∷ s.recent);
  rec_by_hash = reindexed (r ∷ s.recent);
}

-- An update of the record at an index.
unfoldable pub update_at : L1 → ℕ → (L1Record → L1Record) → Option L1
update_at s i f = elim (get_elem? s.recent i) [
  | none ↦ none
  | some r ↦ some (record s { recent = set_elem i (f r) s.recent })
]

unfoldable pub pruned : Option L1 → ℕ → Option L1
pruned none now = none
pruned (some s) now = some (prune_attests s now)

unfoldable pub notarized_again : ℕ → ℕ → ℕ → L1Record → L1Record
notarized_again attesters dt now r = record r {
  notarized = true;
  attesters = attesters;
  latency_ms = dt / 1_000_000;
  at_ms = now / 1_000_000;
}

unfoldable pub record_notarized_at : L1 → Text → ℕ → ℤ → ℕ → ℕ → ℕ → Option ℕ → Option L1
unfolding notarized_again
record_notarized_at s hash_hex epoch height attesters dt now (some i) =
    pruned (update_at s i (notarized_again attesters dt now)) now
record_notarized_at s hash_hex epoch height attesters dt now none = some (
    prune_attests
      (push_notarized s (record {
        epoch = epoch;
        height = height;
        hash = hash_hex;
        notarized = true;
        attesters = attesters;
        latency_ms = dt / 1_000_000;
        at_ms = now / 1_000_000;
      }))
      now)

-- `recordNotarized`
unfoldable pub record_notarized : L1 → Text → ℕ → ℤ → ℕ → ℕ → ℕ → Option L1
record_notarized s hash_hex epoch height attesters dt now =
    record_notarized_at s hash_hex epoch height attesters dt now (get hash_hex s.rec_by_hash)

unfoldable pub fresh_record : Text → ℕ → ℤ → ℕ → ℕ → L1Record
fresh_record hash_hex epoch height attesters now = record {
  epoch = epoch;
  height = height;
  hash = hash_hex;
  notarized = false;
  attesters = attesters;
  latency_ms = 0;
  at_ms = now / 1_000_000;
}

-- `recordObserved`
unfoldable pub record_observed : L1 → Text → ℕ → ℤ → ℕ → L1
unfolding fresh_record
record_observed s hash_hex epoch height now =
    if has hash_hex s.rec_by_hash
    then s
    else prune_attests (push_record s (fresh_record hash_hex epoch height 0 now)) now

unfoldable pub counted_again : ℕ → ℕ → L1Record → L1Record
counted_again attesters now r = record r { attesters = attesters; at_ms = now / 1_000_000 }

unfoldable pub update_attesters_at : L1 → Text → ℕ → ℤ → ℕ → ℕ → Option ℕ → Option L1
unfolding fresh_record counted_again
update_attesters_at s hash_hex epoch height attesters now (some i) =
    pruned (update_at s i (counted_again attesters now)) now
update_attesters_at s hash_hex epoch height attesters now none =
    some (prune_attests (push_record s (fresh_record hash_hex epoch height attesters now)) now)

-- `updateAttesters`
unfoldable pub update_attesters : L1 → Text → ℕ → ℤ → ℕ → ℕ → Option L1
update_attesters s hash_hex epoch height attesters now =
    update_attesters_at s hash_hex epoch height attesters now (get hash_hex s.rec_by_hash)

-- `RecentStatus`
pub recent_status : L1 → List L1Record
recent_status s = s.recent
