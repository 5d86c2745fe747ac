-- ===== src/Mempool.antt =====
-- internal/mempool/mempool.go: the pool of validated transactions. A `capacity`, `ttl` or `capBytes`
-- that is not positive is 0 here, since the code only asks whether it is. `curBytes` is a natural
-- number: Mempool.Queue shows that no subtraction goes below 0.
pub mod Queue
pub mod Refine
pub mod Bounds
mod Tests
use custom_consensus.Base.{
  ℕ, zero, suc, ◌+◌, ◌-◌, Bool, true, false, not, ◌&&◌, Option, none, some, List, [], ◌∷◌, ◌++◌,
  map, length, Bytes, Text, Map, get, put, del, has, ltb, leb, ◌==◌, Result, ok, err, if◌then◌else◌,
}
use custom_consensus.Base.Int.{ℤ}
use custom_consensus.Cose.Validation.{Outcome, panicked, refused, accepted}
use custom_consensus.Cose.{Tx, update_last_seq}

pub record Entry : Type 0 where
  pub tx_id : Text
  pub dev_id : Text
  pub seq : ℤ
  pub bytes : Bytes
  pub added : ℕ

pub record Pool : Type 0 where
  pub entries : Map Entry
  pub order : List Text
  pub capacity : ℕ
  pub ttl : ℕ
  pub cap_bytes : ℕ
  pub cur_bytes : ℕ

-- `New`
pub new_pool : ℕ → ℕ → ℕ → Pool
new_pool capacity ttl cap_bytes = record {
  entries = [];
  order = [];
  capacity = capacity;
  ttl = ttl;
  cap_bytes = cap_bytes;
  cur_bytes = 0;
}

pub data AddError : Type 0 where
  invalid duplicate replay too_large mempool_full : AddError

-- `p.curBytes` without the entry under a key.
unfoldable pub bytes_without : Option Entry → ℕ → ℕ
bytes_without none n = n
bytes_without (some e) n = n - length e.bytes

-- The entry under a key is deleted, if there is one, and `rest` is what stays of the order.
unfoldable pub drop_oldest : Pool → Text → List Text → Pool
unfolding bytes_without
drop_oldest p id rest = record p {
  entries = del id p.entries;
  order = rest;
  cur_bytes = bytes_without (get id p.entries) p.cur_bytes;
}

-- The loop of `sweepLocked` over `p.order`.
unfoldable pub sweep_loop : List Text → ℕ → Pool → Pool
unfolding drop_oldest
sweep_loop [] now p = record p { order = [] }
sweep_loop (id ∷ rest) now p = elim (get id p.entries) [
  | none ↦ sweep_loop rest now p
  | some e ↦ elim (leb (now - e.added) p.ttl) [
    | true ↦ record p { order = id ∷ rest }
    | false ↦ sweep_loop rest now (drop_oldest p id rest)
  ]
]

-- `sweepLocked`
unfoldable pub sweep : ℕ → Pool → Pool
unfolding sweep_loop
sweep now p = if p.ttl == 0 then p else sweep_loop p.order now p

-- The loop of `AddValidatedCOSE` that makes room for one more entry; `none` stands for the panic on
-- `p.order[0]` of an empty order.
unfoldable pub evict_count : List Text → Pool → Option Pool
unfolding drop_oldest
evict_count [] p = if ltb 0 p.capacity && leb p.capacity (length p.entries) then none else some p
evict_count (id ∷ rest) p =
    let next = evict_count rest (drop_oldest p id rest) in
    if ltb 0 p.capacity && leb p.capacity (length p.entries) then next else some p

-- The loop that makes room for `n` more bytes.
unfoldable pub evict_bytes : List Text → ℕ → Pool → Pool
unfolding drop_oldest
evict_bytes [] n p = p
evict_bytes (id ∷ rest) n p =
    let next = evict_bytes rest n (drop_oldest p id rest) in
    if ltb p.cap_bytes (p.cur_bytes + n) then next else p

abbrev pub entry_of : Tx → Bytes → ℕ → Entry
entry_of tx b now = record {
  tx_id = tx.tx_id;
  dev_id = tx.dev_id;
  seq = tx.seq;
  bytes = b;
  added = now;
}

-- The last lines of `AddValidatedCOSE`.
unfoldable pub store_entry : Pool → Entry → Pool
store_entry p e = record p {
  entries = put e.tx_id e p.entries;
  order = p.order ++ (e.tx_id ∷ []);
  cur_bytes = p.cur_bytes + length e.bytes;
}

unfoldable pub finish_add : Pool → Entry → Pool × Result AddError Entry
unfolding store_entry
finish_add p e =
    if ltb 0 p.cap_bytes && ltb p.cap_bytes (p.cur_bytes + length e.bytes)
    then (p, err mempool_full)
    else (store_entry p e, ok e)

unfoldable pub make_room : Pool → ℕ → Pool
unfolding evict_bytes
make_room p n = if ltb 0 p.cap_bytes then evict_bytes p.order n p else p

-- From the size test on.
unfoldable pub admit : Pool → Entry → Option (Pool × Result AddError Entry)
unfolding finish_add make_room evict_count
admit p e =
    if ltb 0 p.cap_bytes && ltb p.cap_bytes (length e.bytes)
    then some (p, err too_large)
    else elim (evict_count p.order p) [
      | none ↦ none
      | some p' ↦ some (finish_add (make_room p' (length e.bytes)) e)
    ]

abbrev pub AddOutcome : Type 0
AddOutcome = Option (Map ℤ × Pool × Result AddError Entry)

unfoldable pub with_seqs : Map ℤ → Option (Pool × Result AddError Entry) → AddOutcome
with_seqs seqs none = none
with_seqs seqs (some (p, r)) = some (seqs, p, r)

-- `AddValidatedCOSE` for a transaction that validates.
unfoldable pub add_tx : Map ℤ → Pool → Tx → Bytes → ℕ → AddOutcome
unfolding with_seqs
add_tx seqs p tx b now =
    let p' = sweep now p in
    if has tx.tx_id p'.entries
    then some (seqs, p', err duplicate)
    else (let (seqs', fresh) = update_last_seq seqs tx.dev_id tx.kid tx.seq in
        if not fresh
        then some (seqs', p', err replay)
        else with_seqs seqs' (admit p' (entry_of tx b now)))

-- `AddValidatedCOSE`, with `ValidateCOSETx` as an argument, which panics on a key of a wrong length.
unfoldable pub add_validated_cose : (Bytes → Outcome Tx) → Map ℤ → Pool → Bytes → ℕ → AddOutcome
unfolding add_tx
add_validated_cose validate seqs p b now = elim (validate b) [
  | panicked ↦ none
  | refused e ↦ some (seqs, p, err invalid)
  | accepted tx ↦ add_tx seqs p tx b now
]

-- The loop of `PopBatch`, with the entries left to take.
unfoldable pub pop_loop : List Text → ℕ → Pool → List Bytes × Pool
unfolding drop_oldest
pop_loop order zero p = ([], record p { order = order })
pop_loop [] (suc n) p = ([], record p { order = [] })
pop_loop (id ∷ rest) (suc n) p =
    let (out, p') = pop_loop rest n (drop_oldest p id rest) in
    elim (get id p.entries) [ none ↦ (out, p') | some e ↦ (e.bytes ∷ out, p') ]

-- `n` of `PopBatch`; a `max` that is not positive is 0.
unfoldable pub pop_count : ℕ → ℕ → ℕ
pop_count max len = if max == 0 then len else if ltb len max then len else max

unfoldable pub pop_some : ℕ → Pool → List Bytes × Pool
unfolding pop_loop
pop_some n p = if n == 0 then ([], p) else pop_loop p.order n p

-- `PopBatch`
unfoldable pub pop_batch : ℕ → ℕ → Pool → List Bytes × Pool
unfolding pop_count pop_some
pop_batch now max p = let p' = sweep now p in pop_some (pop_count max (length p'.order)) p'

-- `rm` of `RemoveTxIDs`
unfoldable pub id_set : List Text → Map (Unit {0}) → Map (Unit {0})
id_set [] rm = rm
id_set (id ∷ ids) rm = id_set ids (put id tt rm)

unfoldable pub remove_loop : Map (Unit {0}) → Pool → Pool × ℕ
unfolding bytes_without
remove_loop [] p = (p, 0)
remove_loop ((id, _) ∷ rm) p = elim (get id p.entries) [
  | none ↦ remove_loop rm p
  | some e ↦ let (p', n) = remove_loop rm (drop_oldest p id p.order) in (p', suc n)
]

unfoldable pub keep_ids : Map (Unit {0}) → List Text → List Text
keep_ids rm [] = []
keep_ids rm (id ∷ ids) = let rest = keep_ids rm ids in if has id rm then rest else id ∷ rest

-- `RemoveTxIDs`
unfoldable pub remove_tx_ids : List Text → Pool → Pool × ℕ
unfolding id_set remove_loop keep_ids
remove_tx_ids ids p =
    let rm = id_set ids [] in
    let (p', removed) = remove_loop rm p in
    if removed == 0 then (p', 0) else (record p' { order = keep_ids rm p'.order }, removed)

-- `Len`, with the swept pool.
pub pool_len : ℕ → Pool → ℕ × Pool
unfolding sweep
pool_len now p = let p' = sweep now p in (length p'.entries, p')

-- `Snapshot`, with the swept pool.
pub snapshot : ℕ → Pool → List Entry × Pool
unfolding sweep
snapshot now p = let p' = sweep now p in (map (λ e. e.1) p'.entries, p')
