-- ===== src/Chain/Producing/Entries.antt =====
-- internal/blockchain/block.go: the transactions that the builder takes from the pool, as the
-- subscriber reads them.
use custom_consensus.Base.{
  ℕ, zero, suc, ◌-◌, ◌≡◌, ◌≢◌, refl, ap, ◌∙◌, true, false, ◌&&◌, some, Option, List, [], ◌∷◌, map,
  length, take, Bytes, Text, is_empty, hex_decode, ltb, leb, ◌==◌, All, arith, Bool-cases, inl, inr,
}
use custom_consensus.Merkle.{compute_root}
use custom_consensus.Mempool.{Entry, Pool}
use custom_consensus.Mempool.Queue.{ids, Unique}
use custom_consensus.Mempool.Refine.{expire, swept}
use custom_consensus.Chain.Checks.{Libs, leaves_of, root_or_empty}
use custom_consensus.Chain.Subscriber.{Different, all_valid}
use custom_consensus.Chain.Producing.{read_ids}
use custom_consensus.Chain.Producing.Roots.{NonEmpty, compute_root-NonEmpty}

-- The entry as `AddValidatedCOSE` makes it: its transaction validates, and its id is the one that
-- `ValidateCOSETx` returns, the digest in hexadecimal.
pub record Genuine (l : Libs) (id_of : Bytes → Option Text) (e : Entry) : Type 0 where
  pub named : id_of e.bytes ≡ some e.tx_id
  pub valid : l.valid_tx e.bytes ≡ some true
  pub leaf : Bytes
  pub decodes : hex_decode e.tx_id ≡ some leaf
  pub leaf_some : NonEmpty leaf

module _ {A : Type 0} where
  pub All-take : (P : A → Type 0) (n : ℕ) (xs : List A) → All P xs → All P (take n xs)
  All-take P zero xs a = tt
  All-take P (suc n) [] a = tt
  All-take P (suc n) (x ∷ xs) (h, a) = (h, All-take P n xs a)

  pub map-take :
      {B : Type 0} (f : A → B) (n : ℕ) (xs : List A) → take n (map f xs) ≡ map f (take n xs)
  map-take f zero xs = refl
  map-take f (suc n) [] = refl
  map-take f (suc n) (x ∷ xs) = ap (◌∷◌ (f x)) (map-take f n xs)

pub Unique-take : (n : ℕ) (q : List Entry) → Unique q → Unique (take n q)
Unique-take zero q u = tt
Unique-take (suc n) [] u = tt
Unique-take (suc n) (e ∷ q) (h, u) = (All-take _ n q h, Unique-take n q u)

All-expire :
    (P : Entry → Type 0) (ttl now : ℕ) (q : List Entry) → All P q → All P (expire ttl now q)
unfolding expire
All-expire P ttl now [] a = tt
All-expire P ttl now (e ∷ q) (h, a) = elim (Bool-cases (leb (now - e.added) ttl)) [
  | inl kept ↦ rw (kept, expire) (h, a)
  | inr old ↦ rw (old, expire) (All-expire P ttl now q a)
]

pub All-swept :
    (P : Entry → Type 0) (p : Pool) (now : ℕ) (q : List Entry) → All P q → All P (swept p now q)
All-swept P p now q a = elim (Bool-cases (p.ttl == 0)) [
  | inl kept ↦ rw kept a
  | inr old ↦ rw old (All-expire P p.ttl now q a)
]

pub Unique-Different : (q : List Entry) → Unique q → Different (ids q)
Unique-Different [] u = tt
Unique-Different (e ∷ q) (h, u) = (others e q h, Unique-Different q u)
  where
    others :
        (e : Entry) (q : List Entry)
        → All (λ f. f.tx_id ≢ e.tx_id) q
        → All (λ j. j ≢ e.tx_id) (ids q)
    others e [] a = tt
    others e (f ∷ q) (h, a) = (h, others e q a)

abbrev pub bytes_of_all : List Entry → List Bytes
bytes_of_all = map (λ e. e.bytes)

module _ (l : Libs) (id_of : Bytes → Option Text) where
  pub Genuine-ids :
      (q : List Entry) → All (Genuine l id_of) q → read_ids id_of (bytes_of_all q) ≡ some (ids q)
  unfolding read_ids
  Genuine-ids [] a = refl
  Genuine-ids (e ∷ q) (h, a) = rw (h.named, read_ids, Genuine-ids q a) refl

  pub Genuine-valid :
      (q : List Entry) → All (Genuine l id_of) q → all_valid l.valid_tx (bytes_of_all q) ≡ some true
  unfolding all_valid
  Genuine-valid [] a = refl
  Genuine-valid (e ∷ q) (h, a) = rw (h.valid, all_valid) (Genuine-valid q a)

  leaves-NonEmpty : (q : List Entry) → All (Genuine l id_of) q → All NonEmpty (leaves_of (ids q))
  unfolding leaves_of
  leaves-NonEmpty [] a = tt
  leaves-NonEmpty (e ∷ q) (h, a) = rw (h.decodes, leaves_of) (h.leaf_some, leaves-NonEmpty q a)

  -- A block with transactions has a root.
  pub Genuine-root :
      (some_hash : (bs : Bytes) → NonEmpty (l.sha256 bs)) (q : List Entry)
      → All (Genuine l id_of) q
      → (is_empty (root_or_empty (compute_root l.sha256 (leaves_of (ids q))))
          && ltb 0 (length (ids q)))
        ≡ false
  unfolding leaves_of
  Genuine-root some_hash [] a = ground arith
  Genuine-root some_hash (e ∷ q) (h, a) =
      let leaves : leaves_of (ids (e ∷ q)) ≡ h.leaf ∷ leaves_of (ids q) =
        rw (h.decodes, leaves_of) refl in
      let root : NonEmpty (root_or_empty (compute_root l.sha256 (leaves_of (ids (e ∷ q))))) =
        ap (λ ls. is_empty (root_or_empty (compute_root l.sha256 ls))) leaves
        ∙ compute_root-NonEmpty l.sha256 some_hash h.leaf (leaves_of (ids q)) h.leaf_some
            (leaves-NonEmpty q a) in
      ap (λ t. t && ltb 0 (length (ids (e ∷ q)))) root
