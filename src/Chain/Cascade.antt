-- ===== src/Chain/Cascade.antt =====
-- internal/blockchain/block.go, `acceptBlockLocked`: the cascade over the waiting children ends.
pub mod Kept
use custom_consensus.Base.{
  ℕ, zero, suc, ◌+◌, ◌≤◌, ◌<◌, ◌≡◌, refl, sym, ap, ◌∙◌, none, some, inl, inr, Option, List, [], ◌∷◌,
  ◌++◌, length, Bytes, Text, text_eq, hex_encode, Map, get, put, del, arith, Bool-cases,
  length-append,
}
use custom_consensus.Chain.{
  Block, Chain, record_known, move_tip, save_block, save_index, save_tx_index, record_block,
  waiting_for, queue_child, pop_children, extends_known, accept_children, accept_block,
}

unfoldable pub lists_total : Map (List Block) → ℕ
lists_total [] = 0
lists_total ((k, blocks) ∷ m) = length blocks + lists_total m

-- The number of blocks that wait.
abbrev pub waiting_count : Chain → ℕ
waiting_count c = lists_total c.waiting

blocks_at : Option (List Block) → List Block
blocks_at none = []
blocks_at (some blocks) = blocks

put_total :
    (k : Text) (blocks : List Block) (m : Map (List Block))
    → lists_total (put k blocks m) + length (blocks_at (get k m)) ≡ length blocks + lists_total m
unfolding lists_total blocks_at put get
put_total k blocks [] = omega arith
put_total k blocks ((j, old) ∷ m) = elim (Bool-cases (text_eq j k)) [
  | inl same ↦ rw (same, put, get) (omega arith)
  | inr other ↦ rw (other, put, get) (omega (arith, put_total k blocks m))
]

del_total :
    (k : Text) (m : Map (List Block))
    → lists_total (del k m) + length (blocks_at (get k m)) ≤ lists_total m
unfolding lists_total blocks_at del get
del_total k [] = omega arith
del_total k ((j, old) ∷ m) = elim (Bool-cases (text_eq j k)) [
  | inl same ↦ rw (same, del, get) (omega (arith, del_total k m))
  | inr other ↦ rw (other, del, get) (omega (arith, del_total k m))
]

waiting_for_lem : (c : Chain) (k : Text) → waiting_for c k ≡ blocks_at (get k c.waiting)
unfolding waiting_for blocks_at
waiting_for_lem c k = ground arith

queue_child-count :
    (c : Chain) (prev : Bytes) (b : Block)
    → waiting_count (queue_child c prev b) ≡ waiting_count c + 1
unfolding queue_child
queue_child-count c prev b =
    let k = hex_encode prev in
    omega (
      arith,
      put_total k (waiting_for c k ++ (b ∷ [])) c.waiting,
      length-append (waiting_for c k) (b ∷ []),
      ap length (waiting_for_lem c k),
    )

pop_children-count :
    (c : Chain) (parent : Bytes)
    → length (pop_children c parent).0 + waiting_count (pop_children c parent).1 ≤ waiting_count c
unfolding pop_children
pop_children-count c parent = by_list (waiting_for c k) refl
  where
    k : Text
    k = hex_encode parent

    by_list :
        (l : List Block)
        → waiting_for c k ≡ l
        → length (pop_children c parent).0 + waiting_count (pop_children c parent).1
          ≤ waiting_count c
    by_list [] e = rw (e, pop_children) (omega arith)
    by_list (b ∷ l) e =
        rw (e, pop_children)
          (omega (arith, del_total k c.waiting, ap length (sym e ∙ waiting_for_lem c k)))

record_block-waiting : (c : Chain) (b : Block) → (record_block c b).waiting ≡ c.waiting
unfolding record_block save_tx_index save_index save_block move_tip record_known
record_block-waiting c b = ground arith

-- A call that returns and leaves no more blocks waiting.
abbrev pub Settles : Chain → Option Chain → Type 0
Settles c r = (c' : Chain) × (r ≡ some c') × (waiting_count c' ≤ waiting_count c)

accept_children-Settles :
    (accept : Chain → Block → Option Chain) (n : ℕ) (blocks : List Block) (c : Chain)
    → ((d : Chain) (b : Block) → waiting_count d < n → Settles d (accept d b))
    → length blocks + waiting_count c ≤ n
    → (c' : Chain) × (accept_children accept blocks c ≡ some c')
      × (waiting_count c' ≤ length blocks + waiting_count c)
unfolding accept_children
accept_children-Settles accept n [] c works small = (c, refl, omega arith)
accept_children-Settles accept n (b ∷ blocks) c works small =
    elim (Bool-cases (extends_known c b)) [
      | inr waits ↦
          let (c', returned, fewer) =
            accept_children-Settles accept n blocks (queue_child c b.prev_hash b) works
              (omega (arith, small, queue_child-count c b.prev_hash b)) in
          (
            c',
            rw (waits, accept_children) returned,
            omega (arith, fewer, queue_child-count c b.prev_hash b),
          )
      | inl joins ↦
          let (d, accepted, less) = works c b (omega (arith, small)) in
          let (c', returned, fewer) =
            accept_children-Settles accept n blocks d works (omega (arith, small, less)) in
          (c', rw (joins, accepted, accept_children) returned, omega (arith, fewer, less))
    ]

-- Fuel for one call more than blocks wait is enough for the whole cascade: the call returns, and
-- leaves no more blocks waiting.
pub accept_block-Settles :
    (fuel : ℕ) (c : Chain) (b : Block) → waiting_count c < fuel → Settles c (accept_block fuel c b)
unfolding accept_block
accept_block-Settles zero c b small = absurd (omega (arith, small))
accept_block-Settles (suc fuel) c b small =
    let c₁ = record_block c b in
    let same : waiting_count c₁ ≡ waiting_count c = ap lists_total (record_block-waiting c b) in
    let popped = pop_children-count c₁ b.hash in
    let (c', returned, fewer) =
      accept_children-Settles (accept_block fuel) fuel (pop_children c₁ b.hash).0
        (pop_children c₁ b.hash).1 (accept_block-Settles fuel)
        (omega (arith, small, same, popped)) in
    (c', returned, omega (arith, fewer, same, popped))
