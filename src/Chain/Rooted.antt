-- ===== src/Chain/Rooted.antt =====
-- internal/blockchain/block.go: every block that is accepted goes on a known one, and what is known or
-- indexed stays so.
use custom_consensus.Base.{
  ap, ◌||◌, ℕ, ◌∙◌, sym, zero, suc, ◌<◌, ◌≡◌, ◌⊎◌, refl, Bool, true, false, none, some, inl, inr,
  Option, List, [], ◌∷◌, Bytes, Text, text_eq_iff, hex_encode, Map, get, put, has, get-put,
  get-put_self, All, All-put, arith, Bool-cases, Option-cases, if◌then◌else◌, subst, unwrap,
}
use custom_consensus.Base.Int.{ℤ}
use custom_consensus.Chain.{
  Block, Chain, TxRef, record_known, known_height, move_tip, save_block, save_index, save_tx_index,
  index_txs, record_block, queue_child, pop_children, waiting_for, extends_known, accept_children,
  accept_block, is_first, receive_block,
}
use custom_consensus.Chain.Cascade.{waiting_count, accept_block-Settles}

-- A first block, or one on a known parent.
abbrev pub Rooted : Map ℤ → Block → Type 0
Rooted known b = (is_first b ≡ true) ⊎ (has (hex_encode b.prev_hash) known ≡ true)

-- A saved block is known, and rooted.
abbrev pub Sound : Map ℤ → Text × Block → Type 0
Sound known e = (has (hex_encode e.1.hash) known ≡ true) × Rooted known e.1

abbrev pub AllSound : Chain → Type 0
AllSound c = All (Sound c.known) c.disk.blocks

-- Known blocks stay known, and a transaction stays in the block it was indexed for first.
pub record Grown (c c' : Chain) : Type 0 where
  pub known_stays : (k : Text) → (has k c.known ≡ false) ⊎ (has k c'.known ≡ true)
  pub index_stays :
      (id : Text) → (get id c.tx_index ≡ none) ⊎ (get id c'.tx_index ≡ get id c.tx_index)

record Grows (c c' : Chain) : Type 0 where
  known_stays : (k : Text) → has k c.known ≡ true → has k c'.known ≡ true
  index_stays : (id : Text) (r : TxRef) → get id c.tx_index ≡ some r → get id c'.tx_index ≡ some r

grown : (c c' : Chain) → Grows c c' → Grown c c'
grown c c' g = record { known_stays = known_stays; index_stays = index_stays }
  where
    known_stays : (k : Text) → (has k c.known ≡ false) ⊎ (has k c'.known ≡ true)
    known_stays k = elim (Bool-cases (has k c.known)) [
      | inl there ↦ inr (g.known_stays k there)
      | inr absent ↦ inl absent
    ]

    index_stays :
        (id : Text) → (get id c.tx_index ≡ none) ⊎ (get id c'.tx_index ≡ get id c.tx_index)
    index_stays id = elim (Option-cases (get id c.tx_index)) [
      | inl absent ↦ inl absent
      | inr (r, found) ↦ inr (g.index_stays id r found ∙ sym found)
    ]

same_grown : (c c' : Chain) → c'.known ≡ c.known → c'.tx_index ≡ c.tx_index → Grows c c'
same_grown c c' e f = record { known_stays = λ k h. rw e h; index_stays = λ id r h. rw f h }

pub unchanged : (c : Chain) → Grown c c
unchanged c = grown c c (same_grown c c refl refl)

then_grown : (c d e : Chain) → Grows c d → Grows d e → Grows c e
then_grown c d e g h = record {
  known_stays = λ k p. h.known_stays k (g.known_stays k p);
  index_stays = λ id r p. h.index_stays id r (g.index_stays id r p);
}

has-put : {V : Type 0} (k j : Text) (v : V) (m : Map V) → has j m ≡ true → has j (put k v m) ≡ true
unfolding has
has-put k j v m h = ground (arith, get-put k j v m)

has-put_self : {V : Type 0} (k : Text) (v : V) (m : Map V) → has k (put k v m) ≡ true
unfolding has
has-put_self k v m = ground (arith, get-put_self k v m)

Sound-put :
    (k : Text) (h : ℤ) (known : Map ℤ) (blocks : Map Block)
    → All (Sound known) blocks
    → All (Sound (put k h known)) blocks
Sound-put k h known [] a = tt
Sound-put k h known ((j, b) ∷ blocks) ((self, inl first), a) =
    ((has-put k (hex_encode b.hash) h known self, inl first), Sound-put k h known blocks a)
Sound-put k h known ((j, b) ∷ blocks) ((self, inr parent), a) = (
  (
    has-put k (hex_encode b.hash) h known self,
    inr (has-put k (hex_encode b.prev_hash) h known parent),
  ),
  Sound-put k h known blocks a,
)

index_txs-get :
    (ids : List Text) (ref : TxRef) (m : Map TxRef) (id : Text) (r : TxRef)
    → get id m ≡ some r
    → get id (index_txs ids ref m) ≡ some r
unfolding index_txs has
index_txs-get [] ref m id r h = h
index_txs-get (j ∷ ids) ref m id r h = elim (Option-cases (get j m)) [
  | inr (s, found) ↦ rw (found, index_txs) (index_txs-get ids ref m id r h)
  | inl absent ↦
      rw (absent, index_txs)
        (index_txs-get ids ref (put j ref m) id r
          (ground (arith, get-put j id ref m, text_eq_iff j id)))
]

record_block_known :
    (c : Chain) (b : Block) → (record_block c b).known ≡ put (hex_encode b.hash) b.height c.known
unfolding record_block save_tx_index save_index save_block move_tip record_known
record_block_known c b = ground arith

record_block_index :
    (c : Chain) (b : Block)
    → (record_block c b).tx_index
      ≡ index_txs b.tx_ids (record { block_hash = hex_encode b.hash; height = b.height }) c.tx_index
unfolding record_block save_tx_index save_index save_block move_tip record_known
record_block_index c b = ground arith

record_block_saved :
    (c : Chain) (b : Block)
    → (record_block c b).disk.blocks
      ≡ (if c.has_data_dir then put (hex_encode b.hash) b c.disk.blocks else c.disk.blocks)
unfolding record_block save_tx_index save_index save_block move_tip record_known
record_block_saved c b = ground arith

record_block-Grows : (c : Chain) (b : Block) → Grows c (record_block c b)
record_block-Grows c b = record {
  known_stays =
      λ k h. rw (record_block_known c b) (has-put (hex_encode b.hash) k b.height c.known h);
  index_stays = λ id r h. rw (record_block_index c b) (
      index_txs-get b.tx_ids (record { block_hash = hex_encode b.hash; height = b.height })
        c.tx_index id r h);
}

record_block-AllSound :
    (c : Chain) (b : Block) → Rooted c.known b → AllSound c → AllSound (record_block c b)
record_block-AllSound c b root a =
    rw (record_block_known c b, record_block_saved c b) (saved c.has_data_dir)
  where
    k : Text
    k = hex_encode b.hash

    known : Map ℤ
    known = put k b.height c.known

    kept : All (Sound known) c.disk.blocks
    kept = Sound-put k b.height c.known c.disk.blocks a

    rooted : Rooted c.known b → Rooted known b
    rooted (inl first) = inl first
    rooted (inr parent) = inr (has-put k (hex_encode b.prev_hash) b.height c.known parent)

    saved : (d : Bool) → All (Sound known) (if d then put k b c.disk.blocks else c.disk.blocks)
    saved true =
        All-put (Sound known) k b c.disk.blocks (has-put_self k b.height c.known, rooted root) kept
    saved false = kept

extends_known-has :
    (c : Chain) (b : Block) → extends_known c b ≡ true → has (hex_encode b.prev_hash) c.known ≡ true
unfolding extends_known known_height has
extends_known-has c b e = ground arith

-- What stays right from `c` to `d`.
abbrev Keeps : Chain → Chain → Type 0
Keeps c d = (AllSound c → AllSound d) × Grows c d

then-Keeps : (c d e : Chain) → Keeps c d → Keeps d e → Keeps c e
then-Keeps c d e (f, g) (f', g') = (λ a. f' (f a), then_grown c d e g g')

queue_child-Keeps : (c : Chain) (prev : Bytes) (b : Block) → Keeps c (queue_child c prev b)
unfolding queue_child
queue_child-Keeps c prev b = (λ a. a, same_grown c (queue_child c prev b) refl refl)

pop_children-Keeps : (c : Chain) (parent : Bytes) → Keeps c (pop_children c parent).1
unfolding pop_children
pop_children-Keeps c parent = by_list (waiting_for c (hex_encode parent)) refl
  where
    by_list :
        (l : List Block) → waiting_for c (hex_encode parent) ≡ l → Keeps c (pop_children c parent).1
    by_list [] e = rw (e, pop_children) (λ a. a, same_grown c c refl refl)
    by_list (b ∷ l) e = rw (e, pop_children) (λ a. a, same_grown c _ refl refl)

accept_children-Keeps :
    (accept : Chain → Block → Option Chain) (blocks : List Block) (c c' : Chain)
    → ((d d' : Chain) (b : Block) → Rooted d.known b → accept d b ≡ some d' → Keeps d d')
    → accept_children accept blocks c ≡ some c'
    → Keeps c c'
unfolding accept_children
accept_children-Keeps accept [] c c' keeps e =
    subst (Keeps c) (unwrap e) (λ a. a, same_grown c c refl refl)
accept_children-Keeps accept (b ∷ blocks) c c' keeps e = elim (Bool-cases (extends_known c b)) [
  | inr waits ↦ then-Keeps c (queue_child c b.prev_hash b) c' (queue_child-Keeps c b.prev_hash b) (
      accept_children-Keeps accept blocks (queue_child c b.prev_hash b) c' keeps
        (rw (waits, accept_children) at e))
  | inl joins ↦ elim (Option-cases (accept c b)) [
    | inl failed ↦ absurd (none_some (rw (joins, failed, accept_children) at e))
    | inr (d, accepted) ↦
        then-Keeps c d c' (keeps c d b (inr (extends_known-has c b joins)) accepted) (
          accept_children-Keeps accept blocks d c' keeps
            (rw (joins, accepted, accept_children) at e))
  ]
]
  where
    none_some : none ≡ some c' → ⊥
    none_some h = cc

accept_block-Keeps :
    (fuel : ℕ) (c c' : Chain) (b : Block)
    → Rooted c.known b
    → accept_block fuel c b ≡ some c'
    → Keeps c c'
unfolding accept_block
accept_block-Keeps zero c c' b root e = absurd (ground arith)
accept_block-Keeps (suc fuel) c c' b root e =
    let c₁ = record_block c b in
    let c₂ = (pop_children c₁ b.hash).1 in
    then-Keeps c c₁ c' (record_block-AllSound c b root, record_block-Grows c b)
      (then-Keeps c₁ c₂ c' (pop_children-Keeps c₁ b.hash) (
        accept_children-Keeps (accept_block fuel) (pop_children c₁ b.hash).0 c₂ c'
          (accept_block-Keeps fuel) e))

accept_block_known :
    (fuel : ℕ) (c c' : Chain) (b : Block)
    → accept_block fuel c b ≡ some c'
    → has (hex_encode b.hash) c'.known ≡ true
unfolding accept_block
accept_block_known zero c c' b e = absurd (ground arith)
accept_block_known (suc fuel) c c' b e =
    let c₁ = record_block c b in
    let k = hex_encode b.hash in
    let here : has k c₁.known ≡ true =
      ap (has k) (record_block_known c b) ∙ has-put_self k b.height c.known in
    let popped = (pop_children-Keeps c₁ b.hash).1 in
    let rest =
      accept_children-Keeps (accept_block fuel) (pop_children c₁ b.hash).0
        (pop_children c₁ b.hash).1 c' (accept_block-Keeps fuel) e in
    rest.1.known_stays k (popped.known_stays k here)

-- What happened to the block: it is known, if it is a first one or goes on its parent, which is known;
-- otherwise it waits for its parent, and nothing else changed.
abbrev pub Taken : Chain → Block → Chain → Type 0
Taken c b c' =
    (((is_first b || extends_known c b) ≡ true) × (has (hex_encode b.hash) c'.known ≡ true))
    ⊎ (((is_first b || extends_known c b) ≡ false) × (c' ≡ queue_child c b.prev_hash b))

pub receive_block-Keeps :
    (fuel : ℕ) (c : Chain) (b : Block)
    → waiting_count c < fuel
    → AllSound c
    → (c' : Chain) × (receive_block fuel c b ≡ some c') × AllSound c' × Grown c c' × Taken c b c'
unfolding receive_block
receive_block-Keeps fuel c b small a = elim (Bool-cases (is_first b)) [
  | inl first ↦
      let (c', returned, _) = accept_block-Settles fuel c b small in
      let (sound, grows) = accept_block-Keeps fuel c c' b (inl first) returned in
      (
        c',
        rw (first, returned, receive_block),
        sound a,
        grown c c' grows,
        inl (ground (arith, first), accept_block_known fuel c c' b returned),
      )
  | inr later ↦ elim (Bool-cases (extends_known c b)) [
    | inl joins ↦
        let (c', returned, _) = accept_block-Settles fuel c b small in
        let (sound, grows) =
          accept_block-Keeps fuel c c' b (inr (extends_known-has c b joins)) returned in
        (
          c',
          rw (later, joins, returned, receive_block),
          sound a,
          grown c c' grows,
          inl (ground (arith, joins), accept_block_known fuel c c' b returned),
        )
    | inr waits ↦
        let (sound, grows) = queue_child-Keeps c b.prev_hash b in
        (
          queue_child c b.prev_hash b,
          rw (later, waits, receive_block),
          sound a,
          grown c (queue_child c b.prev_hash b) grows,
          inr (ground (arith, later, waits), refl),
        )
  ]
]
