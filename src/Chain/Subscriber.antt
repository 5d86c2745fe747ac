-- ===== src/Chain/Subscriber.antt =====
-- internal/blockchain/block.go, `StartBlockSubscriber`: what happens to a block message that decodes.
use custom_consensus.Base.{
  ℕ, ◌+◌, ◌-◌, ◌/◌, ◌<◌, ◌≡◌, ◌≢◌, ◌⊎◌, refl, sym, Bool, true, false, not, ◌&&◌, Option, none, some,
  List, [], ◌∷◌, length, Bytes, Text, is_empty, text_eq, text_eq_iff, eq_of_text_eq, Map, put, get,
  has, get-put, ltb, leb, inl, inr, All, arith, Bool-cases, Option-cases, ap, ◌∙◌, if◌then◌else◌,
}
use custom_consensus.Base.Int.{ℤ, pos, negsuc}
use custom_consensus.Chain.{Block, Chain, receive_block}
use custom_consensus.Chain.Cascade.{waiting_count}
use custom_consensus.Chain.Rooted.{AllSound, Grown, Taken, receive_block-Keeps, unchanged}
use custom_consensus.Mempool.Bounds.{Limit, limited}
use custom_consensus.Chain.Checks.{Libs, verify_block}

-- `epochLen`
abbrev pub epoch_len : ℕ
epoch_len = 64

pub epoch_of : ℤ → ℕ
epoch_of (negsuc n) = 0
epoch_of (pos n) = if ltb 0 n then (n - 1) / epoch_len else 0

unfoldable pub tx_bytes : List Bytes → ℕ
tx_bytes [] = 0
tx_bytes (tx ∷ txs) = length tx + tx_bytes txs

-- The loop that looks for an id that was seen.
unfoldable pub repeats : Map (Unit {0}) → List Text → Bool
repeats seen [] = false
repeats seen (id ∷ ids) =
    let rest = repeats (put id tt seen) ids in if has id seen then true else rest

-- The loop over the transactions, which stops at the first that is not valid; `none` is a panic.
unfoldable pub all_valid : (Bytes → Option Bool) → List Bytes → Option Bool
all_valid valid [] = some true
all_valid valid (tx ∷ txs) = elim (valid tx) [
  | none ↦ none
  | some ok ↦ elim ok [ true ↦ all_valid valid txs | false ↦ some false ]
]

-- What the node was started with, and what it reads while it checks: `parent_time` is
-- `loadBlockTimestamp`.
pub record Settings : Type 0 where
  pub libs : Libs
  pub expected_chain : Text
  pub leader_ok : Option (ℕ → Bytes → Bool)
  pub max_txs : ℕ
  pub max_bytes : ℕ
  pub parent_time : Bytes → Option ℕ

unfoldable pub is_none : {A : Type 0} → Option A → Bool
is_none none = true
is_none (some a) = false

-- The leader check of the context.
unfoldable pub led : Option (ℕ → Bytes → Bool) → ℤ → Bytes → Bool
led none height producer = true
led (some leader_ok) height producer = leader_ok (epoch_of height) producer

unfoldable pub not_before : Option ℕ → ℕ → Bool
not_before none t = true
not_before (some parent) t = leb parent t

-- The block passes every check, in the order of the subscriber; `none` is a panic.
unfoldable pub passes : Settings → Block → Option Bool
unfolding is_none led not_before
passes g b =
    if not (text_eq b.chain_id g.expected_chain)
    then some false
    else if not (is_none (verify_block g.libs b))
    then some false
    else if not (led g.leader_ok b.height b.producer_pub)
    then some false
    else if ltb 0 g.max_txs && ltb g.max_txs (length b.txs)
    then some false
    else if ltb 0 g.max_bytes && ltb g.max_bytes (tx_bytes b.txs)
    then some false
    else if repeats [] b.tx_ids
    then some false
    else if not (is_empty b.prev_hash) && not (not_before (g.parent_time b.prev_hash) b.timestamp)
    then some false
    else all_valid g.libs.valid_tx b.txs

-- What a turn of the subscriber's loop comes to: `handled none` is one that runs out of fuel.
pub data Turn (A : Type 0) : Type 0 where
  panics : Turn A
  handled : Option A → Turn A

-- One turn of the subscriber's loop.
unfoldable pub handle_block : Settings → ℕ → Chain → Block → Turn Chain
unfolding passes
handle_block g fuel c b = elim (passes g b) [
  | none ↦ panics
  | some ok ↦ handled (if ok then receive_block fuel c b else some c)
]

-- No two ids of the list are equal.
abbrev pub Different : List Text → Type 0
Different [] = Unit {0}
Different (id ∷ ids) = All (λ j. j ≢ id) ids × Different ids

has-put-false :
    (id j : Text) (seen : Map (Unit {0})) → has j (put id tt seen) ≡ false → has j seen ≡ false
unfolding has
has-put-false id j seen h = ground (arith, get-put id j tt seen)

has-put_other : (id j : Text) (seen : Map (Unit {0})) → j ≡ id → has j (put id tt seen) ≡ false → ⊥
unfolding has
has-put_other id j seen same h = ground (arith, get-put id j tt seen, text_eq_iff id j)

has-put_new :
    (id j : Text) (seen : Map (Unit {0}))
    → j ≢ id
    → has j seen ≡ false
    → has j (put id tt seen) ≡ false
unfolding has
has-put_new id j seen other h = elim (Bool-cases (text_eq id j)) [
  | inl same ↦ absurd (other (sym (eq_of_text_eq id j same)))
  | inr new ↦ ground (arith, get-put id j tt seen)
]

unseen :
    (seen : Map (Unit {0})) (ids : List Text)
    → repeats seen ids ≡ false
    → All (λ j. has j seen ≡ false) ids × Different ids
unfolding repeats
unseen seen [] e = (tt, tt)
unseen seen (id ∷ ids) e = elim (Bool-cases (has id seen)) [
  | inl old ↦ absurd (ground arith)
  | inr new ↦
      let (fresh, different) = unseen (put id tt seen) ids (rw (new, repeats) at e) in
      ((new, old_fresh id seen ids fresh), (new_fresh id seen ids fresh, different))
]
  where
    old_fresh :
        (id : Text) (seen : Map (Unit {0})) (ids : List Text)
        → All (λ j. has j (put id tt seen) ≡ false) ids
        → All (λ j. has j seen ≡ false) ids
    old_fresh id seen [] a = tt
    old_fresh id seen (j ∷ ids) (h, a) = (has-put-false id j seen h, old_fresh id seen ids a)

    new_fresh :
        (id : Text) (seen : Map (Unit {0})) (ids : List Text)
        → All (λ j. has j (put id tt seen) ≡ false) ids
        → All (λ j. j ≢ id) ids
    new_fresh id seen [] a = tt
    new_fresh id seen (j ∷ ids) (h, a) =
        (λ same. has-put_other id j seen same h, new_fresh id seen ids a)

repeats-Different_any :
    (seen : Map (Unit {0})) (ids : List Text)
    → All (λ j. has j seen ≡ false) ids
    → Different ids
    → repeats seen ids ≡ false
unfolding repeats
repeats-Different_any seen [] fresh d = refl
repeats-Different_any seen (id ∷ ids) (new, fresh) (other, d) =
    rw (new, repeats)
      (repeats-Different_any (put id tt seen) ids (still_fresh id seen ids fresh other) d)
  where
    still_fresh :
        (id : Text) (seen : Map (Unit {0})) (ids : List Text)
        → All (λ j. has j seen ≡ false) ids
        → All (λ j. j ≢ id) ids
        → All (λ j. has j (put id tt seen) ≡ false) ids
    still_fresh id seen [] a b = tt
    still_fresh id seen (j ∷ ids) (h, a) (n, b) =
        (has-put_new id j seen n h, still_fresh id seen ids a b)

-- The loop finds no id of a list of different ones.
pub repeats-Different : (ids : List Text) → Different ids → repeats [] ids ≡ false
unfolding has get
repeats-Different ids d = repeats-Different_any [] ids (all_new ids) d
  where
    all_new : (ids : List Text) → All (λ j. has {V = Unit {0}} j [] ≡ false) ids
    all_new [] = tt
    all_new (id ∷ ids) = (refl, all_new ids)

-- What a block that passes fulfils.
pub record Fulfils (g : Settings) (b : Block) : Type 0 where
  pub on_chain : b.chain_id ≡ g.expected_chain
  pub verifies : verify_block g.libs b ≡ none
  pub few_txs : Limit g.max_txs (length b.txs)
  pub few_bytes : Limit g.max_bytes (tx_bytes b.txs)
  pub different : Different b.tx_ids
  pub valid : all_valid g.libs.valid_tx b.txs ≡ some true

none_of : {A : Type 0} (o : Option A) → is_none o ≡ true → o ≡ none
unfolding is_none
none_of none e = refl
none_of (some a) e = absurd (ground arith)

-- The validation of a transaction of the list panics.
abbrev pub SomePanics : (Bytes → Option Bool) → List Bytes → Type 0
SomePanics valid [] = ⊥
SomePanics valid (tx ∷ txs) = (valid tx ≡ none) ⊎ SomePanics valid txs

all_valid-SomePanics :
    (valid : Bytes → Option Bool) (txs : List Bytes)
    → all_valid valid txs ≡ none
    → SomePanics valid txs
unfolding all_valid
all_valid-SomePanics valid [] e = absurd (ground arith)
all_valid-SomePanics valid (tx ∷ txs) e = elim (Option-cases (valid tx)) [
  | inl bad ↦ inl bad
  | inr (ok, v) ↦ elim (Bool-cases ok) [
    | inl good ↦ inr (all_valid-SomePanics valid txs (rw (v, good, all_valid) at e))
    | inr wrong ↦
        let stopped : some false ≡ none = rw (v, wrong, all_valid) at e in absurd (ground arith)
  ]
]

passes-SomePanics :
    (g : Settings) (b : Block) → passes g b ≡ none → SomePanics g.libs.valid_tx b.txs
unfolding passes
passes-SomePanics g b e = all_valid-SomePanics g.libs.valid_tx b.txs (ground arith)

passes-Fulfils : (g : Settings) (b : Block) → passes g b ≡ some true → Fulfils g b
unfolding passes
passes-Fulfils g b e = record {
  on_chain = eq_of_text_eq b.chain_id g.expected_chain (ground arith);
  verifies = none_of (verify_block g.libs b) (ground arith);
  few_txs = limited g.max_txs (length b.txs) (λ h. ground arith);
  few_bytes = limited g.max_bytes (tx_bytes b.txs) (λ h. ground arith);
  different = (unseen [] b.tx_ids (ground arith)).1;
  valid = ground arith;
}

-- The handler panicked in the validation of a transaction of the block, or it returned: the chain keeps
-- what it knows, and either is as it was or the block passed the checks and was taken.
abbrev pub Came : Settings → Chain → Block → Turn Chain → Type 0
Came g c b panics = SomePanics g.libs.valid_tx b.txs × (passes g b ≡ none)
Came g c b (handled none) = ⊥
Came g c b (handled (some c')) =
    AllSound c'
    × Grown c c'
    × (((passes g b ≡ some false) × (c' ≡ c))
        ⊎ ((passes g b ≡ some true) × Fulfils g b × Taken c b c'))

-- A block message, with fuel for one call more than blocks wait.
pub handle_block_lem :
    (g : Settings) (fuel : ℕ) (c : Chain) (b : Block)
    → waiting_count c < fuel
    → AllSound c
    → Came g c b (handle_block g fuel c b)
unfolding handle_block
handle_block_lem g fuel c b small a = elim (Option-cases (passes g b)) [
  | inl bad ↦ rw (bad, handle_block) (passes-SomePanics g b bad, bad)
  | inr (ok, checked) ↦ elim (Bool-cases ok) [
    | inr wrong ↦
        rw (checked, wrong, handle_block) (a, unchanged c, inl (checked ∙ ap some wrong, refl))
    | inl good ↦
        let passed : passes g b ≡ some true = checked ∙ ap some good in
        let (c', returned, sound, grown, taken) = receive_block-Keeps fuel c b small a in
        rw (checked, good, returned, handle_block)
          (sound, grown, inr (passed, passes-Fulfils g b passed, taken))
  ]
]
