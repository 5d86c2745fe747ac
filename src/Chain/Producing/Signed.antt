-- ===== src/Chain/Producing/Signed.antt =====
-- internal/blockchain/block.go: `Verify` accepts what `Sign` signs.
use custom_consensus.Base.{
  ℕ, ◌≡◌, ◌∙◌, refl, ap, true, false, ◌&&◌, none, some, length, Bytes, is_empty, text_eq_refl, ltb,
  arith,
}
use custom_consensus.Merkle.{compute_root}
use custom_consensus.Chain.{Block}
use custom_consensus.Chain.Checks.{
  Libs, leaves_of, root_or_empty, hash_for_sign, unsigned, verify_hashed, verify_block,
  other_producer,
}
use custom_consensus.Chain.Producing.{
  Host, with_producer, add_signature, add_hash, sign_with, sign_block,
}

-- The host has a key that fits its peer ID and signs, CBOR takes the block, and SHA-256 is never empty.
pub record Signs (l : Libs) (h : Host) : Type 0 where
  pub key : Bytes
  pub has_key : h.own_key ≡ some key
  pub parses : l.key_parses key ≡ true
  pub own_peer : l.peer_of_key key ≡ some h.own_id
  pub sign : Bytes → Bytes
  pub signs : (bs : Bytes) → h.own_sign bs ≡ some (sign bs)
  pub verifies : (bs : Bytes) → l.signature_ok key bs (sign bs) ≡ true
  pub sign_some : (bs : Bytes) → is_empty (sign bs) ≡ false
  pub encoding : Block → Bytes
  pub encodes : (b : Block) → l.encode b ≡ some (encoding b)
  pub hash_some : (bs : Bytes) → is_empty (l.sha256 bs) ≡ false

-- The root is that of the ids, and there is one if there are ids.
pub record HasRoot (l : Libs) (b : Block) : Type 0 where
  pub root : root_or_empty (compute_root l.sha256 (leaves_of b.tx_ids)) ≡ b.tx_root
  pub root_some : (is_empty b.tx_root && ltb 0 (length b.tx_ids)) ≡ false

module _ (l : Libs) (h : Host) (s : Signs l h) where
  pub hash_of : Block → Bytes
  hash_of b = l.sha256 (s.encoding (unsigned b))

  hash_for_sign-Signs : (b : Block) → hash_for_sign l b ≡ some (hash_of b)
  unfolding hash_for_sign hash_of
  hash_for_sign-Signs b = rw (s.encodes (unsigned b), hash_for_sign) refl

  abbrev pub signed : Block → Block
  signed b = record b { hash = hash_of b; signature = s.sign (hash_of b) }

  sign_block-Signs :
      (now : ℕ) (b : Block) → sign_block l h now b ≡ some (signed (with_producer h s.key now b))
  unfolding sign_block sign_with add_hash add_signature with_producer
  sign_block-Signs now b =
      let b' = with_producer h s.key now b in
      rw
        (
          s.has_key,
          hash_for_sign-Signs b',
          s.signs (hash_of b'),
          sign_block,
          sign_with,
          add_hash,
          add_signature,
        )
        refl

  own_producer : other_producer l (l.peer_of_key s.key) h.own_id ≡ false
  unfolding other_producer
  own_producer = rw (s.own_peer, text_eq_refl h.own_id, other_producer) (ground arith)

  signed-verify_hashed :
      (b : Block)
      → HasRoot l b
      → b.producer_pub ≡ s.key
      → b.producer_id ≡ h.own_id
      → verify_hashed l (signed b) (hash_of b) ≡ none
  unfolding verify_hashed hash_of
  signed-verify_hashed b r same_key same_id =
      let parses : l.key_parses b.producer_pub ≡ true = ap l.key_parses same_key ∙ s.parses in
      let verifies : l.signature_ok b.producer_pub (hash_of b) (s.sign (hash_of b)) ≡ true =
        ap (λ k. l.signature_ok k (hash_of b) (s.sign (hash_of b))) same_key
        ∙ s.verifies (hash_of b) in
      let own : other_producer l (l.peer_of_key b.producer_pub) b.producer_id ≡ false =
        ap (λ k. other_producer l (l.peer_of_key k) b.producer_id) same_key
        ∙ ap (other_producer l (l.peer_of_key s.key)) same_id
        ∙ own_producer in
      rw
        (
          s.hash_some (s.encoding (unsigned b)),
          s.sign_some (hash_of b),
          text_eq_refl (hash_of b),
          r.root,
          r.root_some,
          text_eq_refl b.tx_root,
          parses,
          verifies,
          own,
          verify_hashed,
        )
        refl

  -- For a key that fits the peer ID of the host, and a block whose root is that of its ids: Sign returns
  -- the block with the host as its producer, a time, a hash and a signature, and Verify accepts it.
  pub sign_block-verify_block :
      (now : ℕ) (b : Block)
      → HasRoot l b
      → let b' = with_producer h s.key now b in
        (sign_block l h now b ≡ some (signed b')) × (verify_block l (signed b') ≡ none)
  unfolding verify_block with_producer hash_of
  sign_block-verify_block now b r =
      let b' = with_producer h s.key now b in
      let root : HasRoot l b' = record { root = r.root; root_some = r.root_some } in
      (
        sign_block-Signs now b,
        rw (hash_for_sign-Signs (signed b'), verify_block) (signed-verify_hashed b' root refl refl),
      )
