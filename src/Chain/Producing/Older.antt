-- ===== src/Chain/Producing/Older.antt =====
-- internal/blockchain/block.go, `StartBlockBuilder`: the builder that keeps its own queue of messages.
use custom_consensus.Base.{
  ℕ, ◌-◌, ◌≤◌, ◌≡◌, ◌∙◌, ap, refl, Option, none, some, List, [], ◌∷◌, ◌++◌, take, drop, length,
  Bytes, Text, length-append, length-drop, ltb, ◌==◌, inl, inr, arith, Bool-cases, Option-cases,
  ◌&&◌, Bool, if◌then◌else◌,
}
use custom_consensus.Base.Int.{pos, inc64}
use custom_consensus.Chain.{Block}
use custom_consensus.Chain.Checks.{Libs}
use custom_consensus.Chain.Producing.{Host, Production, Cursor, read_ids, new_block, sign_block}

-- The capacity of the channel.
abbrev pub queue_size : ℕ
queue_size = 4096

-- Its variables: `mem` is the channel, oldest message first.
pub record OlderBuilder : Type 0 where
  pub cursor : Cursor
  pub mem : List Bytes

pub start_older : OlderBuilder
start_older = record { cursor = record { height = pos 1; prev = [] }; mem = [] }

-- A message on the topic of transactions; a full channel drops it. `validate` is `ValidateCOSETx`,
-- without an error, and `none` is a panic.
unfoldable pub offer_tx : (Bytes → Option Bool) → OlderBuilder → Bytes → Option OlderBuilder
offer_tx validate s tx = elim (validate tx) [
  | none ↦ none
  | some valid ↦
      some
        (if valid && ltb (length s.mem) queue_size then record s { mem = s.mem ++ tx ∷ [] } else s)
]

unfoldable pub older_block : Libs → Production → Cursor → ℕ → List Text → List Bytes → Block
older_block l p k now ids txs = record (new_block l p k now ids txs) { attestations = [] }

unfoldable pub publish_older :
    Production → OlderBuilder → Option Block → OlderBuilder × Option Block
publish_older p s none = (s, none)
publish_older p s (some b) =
    if p.encodes b
    then (record s { cursor = record { height = inc64 s.cursor.height; prev = b.hash } }, some b)
    else (s, none)

-- A tick, and the block that is given to the topic; `none` is a panic. A `maxTxs` that is not positive
-- is 0.
unfoldable pub older_tick :
    Libs → Host → Production → OlderBuilder → ℕ → Option (OlderBuilder × Option Block)
older_tick l h p s now =
    let batch = take p.max_txs s.mem in
    let s' = record s { mem = drop p.max_txs s.mem } in
    if length batch == 0 then some (s', none) else elim (read_ids p.id_of batch) [
      | none ↦ none
      | some ids ↦
          some (publish_older p s' (sign_block l h now (older_block l p s.cursor now ids batch)))
    ]

-- A channel with no more messages than fit.
abbrev pub Fits : Option OlderBuilder → Type 0
Fits none = Unit {0}
Fits (some s) = length s.mem ≤ queue_size

offer_tx-Fits :
    (validate : Bytes → Option Bool) (s : OlderBuilder) (tx : Bytes)
    → length s.mem ≤ queue_size
    → Fits (offer_tx validate s tx)
unfolding offer_tx
offer_tx-Fits validate s tx small = elim (Option-cases (validate tx)) [
  | inl bad ↦ rw (bad, offer_tx) tt
  | inr (valid, v) ↦ elim (Bool-cases (valid && ltb (length s.mem) queue_size)) [
    | inr kept ↦ rw (v, kept, offer_tx) small
    | inl free ↦ rw (v, free, offer_tx) (ground (arith, length-append s.mem (tx ∷ [])))
  ]
]

publish_older_mem :
    (p : Production) (s : OlderBuilder) (b : Option Block) → (publish_older p s b).0.mem ≡ s.mem
unfolding publish_older
publish_older_mem p s none = refl
publish_older_mem p s (some b) = elim (Bool-cases (p.encodes b)) [
  | inl e ↦ rw (e, publish_older) refl
  | inr e ↦ rw (e, publish_older) refl
]

-- A tick that returned has taken `maxTxs` messages, or all there are.
abbrev pub Took : Production → OlderBuilder → Option (OlderBuilder × Option Block) → Type 0
Took p s none = Unit {0}
Took p s (some (t, b)) = length t.mem ≡ length s.mem - p.max_txs

-- A message leaves no more in the channel than fit, and a tick takes `maxTxs` messages, or all there are.
pub older_tick_size :
    (validate : Bytes → Option Bool) (l : Libs) (h : Host) (p : Production) (s : OlderBuilder)
    (now : ℕ) (tx : Bytes)
    → length s.mem ≤ queue_size
    → Fits (offer_tx validate s tx) × Took p s (older_tick l h p s now)
unfolding older_tick
older_tick_size validate l h p s now tx small = (
  offer_tx-Fits validate s tx small,
  elim (Bool-cases (length (take p.max_txs s.mem) == 0)) [
    | inl none_there ↦ rw (none_there, older_tick) (length-drop p.max_txs s.mem)
    | inr some_there ↦ elim (Option-cases (read_ids p.id_of (take p.max_txs s.mem))) [
      | inl bad ↦ rw (some_there, bad, older_tick) tt
      | inr (ids, read) ↦
          rw (some_there, read, older_tick)
            (ap length (publish_older_mem p _ _) ∙ length-drop p.max_txs s.mem)
    ]
  ],
)
