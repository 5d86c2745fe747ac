-- ===== src/L1/Notarize.antt =====
-- l1_notarization.go: an attestation is counted without a panic, and enough of them notarize.
use custom_consensus.Base.{
  length, ◌<◌, ℕ, ◌≡◌, refl, ◌⊎◌, inl, inr, ◌||◌, Option, none, some, List, ◌∷◌, Bytes, Text, has,
  is_empty, hex_encode, Bool-cases, arith, true, false,
}
use custom_consensus.Base.Int.{ℤ}
use custom_consensus.L1.State.{L1, L1Attest, L1Outside, L1Block, start_l1}
use custom_consensus.L1.Records.{push_record, fresh_record, record_observed}
use custom_consensus.L1.Handlers.{
  seen_of, count_attest, on_attest_decoded, on_attest, own_attest, on_block_proposed, epoch_at,
  on_l1_block_decoded, on_l1_block,
}
use custom_consensus.L1.Index.{Valid, prune_attests-Valid, push_record-Valid}
use custom_consensus.L1.Counting.{voters, Notarization, Counted, count_attest-Counted}

pub start_l1-Valid : (min : ℤ) → Valid (start_l1 min)
unfolding start_l1
start_l1-Valid min = record { room = omega arith; few = omega arith; indexed = tt; distinct = tt }

record_observed-Valid :
    (s : L1) (k : Text) (epoch : ℕ) (height : ℤ) (now : ℕ)
    → Valid s
    → Valid (record_observed s k epoch height now)
unfolding record_observed
record_observed-Valid s k epoch height now v = elim (Bool-cases (has k s.rec_by_hash)) [
  | inl old ↦ rw (old, record_observed) v
  | inr new ↦
      rw (new, record_observed)
        (prune_attests-Valid (push_record s (fresh_record k epoch height 0 now)) now
          (push_record-Valid s (fresh_record k epoch height 0 now) v))
]

module _ (o : L1Outside) where
  -- A message that does not decode, or that names no block or no attester.
  abbrev pub Incomplete : Bytes → Type 0
  Incomplete raw =
      (o.decode_attest raw ≡ none)
      ⊎ ((a : L1Attest) × (o.decode_attest raw ≡ some a)
          × ((is_empty a.hash || is_empty a.attester) ≡ true))

  -- What happens to a message: it is ignored, being incomplete; or it is counted, and the attesters of the block are those
  -- before and this one, too few; or it leads to a notarization.
  abbrev pub Answered : L1 → Bytes → Option L1 → Type 0
  Answered s raw v =
      (t : L1) × (v ≡ some t)
      × Valid t
      × ((Incomplete raw × (t ≡ s))
          ⊎ ((a : L1Attest) × (o.decode_attest raw ≡ some a)
              × ((is_empty a.hash || is_empty a.attester) ≡ false)
              × (((length (voters s a) < s.min_attesters)
                    × (seen_of t (hex_encode a.hash) ≡ voters s a)
                    × (t.notarizations ≡ s.notarizations))
                  ⊎ Notarization s t a)))

  Counted-Answered :
      (s : L1) (raw : Bytes) (a : L1Attest) (v : Option L1)
      → o.decode_attest raw ≡ some a
      → (is_empty a.hash || is_empty a.attester) ≡ false
      → (t : L1) × (v ≡ some t) × Counted s t a
      → Answered s raw v
  Counted-Answered s raw a v is given (t, e, (valid, done)) =
      (t, e, valid, inr (a, is, given, done))

  on_attest_decoded-Answered :
      (s : L1) (raw : Bytes) (now : ℕ) (v : Option L1Attest)
      → o.decode_attest raw ≡ v
      → Valid s
      → Answered s raw (on_attest_decoded s v raw now)
  unfolding on_attest_decoded
  on_attest_decoded-Answered s raw now none is v = (s, refl, v, inl (inl is, refl))
  on_attest_decoded-Answered s raw now (some a) is v =
      elim (Bool-cases (is_empty a.hash || is_empty a.attester)) [
        | inl missing ↦
            (s, rw (missing, on_attest_decoded) refl, v, inl (inr (a, is, missing), refl))
        | inr given ↦
            rw (given, on_attest_decoded)
              (Counted-Answered s raw a (count_attest s a raw now) is given
                (count_attest-Counted s a raw now v))
      ]

  -- From a state whose index is right, onAttest does not panic and leaves such a state. It ignores a
  -- message that does not decode or names no block or no attester. Any other adds the attester to those
  -- of the block. If they are fewer than `MinAttesters`, it
  -- publishes nothing and keeps them; otherwise it publishes a notarization of the attested block whose
  -- count is their number, which stands in the record of the block, and forgets them, so that the next
  -- count begins anew.
  pub on_attest-Answered :
      (s : L1) (raw : Bytes) (now : ℕ) → Valid s → Answered s raw (on_attest o s raw now)
  unfolding on_attest
  on_attest-Answered s raw now v = on_attest_decoded-Answered s raw now (o.decode_attest raw) refl v

  published-Valid : (s : L1) (m : List Bytes) → Valid s → Valid (record s { published = m })
  published-Valid s m v = record {
    room = v.room;
    few = v.few;
    indexed = v.indexed;
    distinct = v.distinct;
  }

  abbrev pub Runs : Option L1 → Type 0
  Runs v = (t : L1) × (v ≡ some t) × Valid t

  on_block_proposed-Runs :
      (s : L1) (epoch : ℕ) (height : ℤ) (hash key : Bytes) (txs : List Bytes) (now : ℕ)
      → Valid s
      → Runs (on_block_proposed o s epoch height hash key txs now)
  unfolding on_block_proposed
  on_block_proposed-Runs s epoch height hash key txs now v =
      let bytes = o.encode_attest (own_attest o epoch height hash key txs) in
      let (t, e, valid, sent) =
        on_attest-Answered (record s { published = bytes ∷ s.published }) bytes now
          (published-Valid s (bytes ∷ s.published) v) in
      elim (Bool-cases (o.publishes bytes)) [
        | inl sent_out ↦ (t, rw (sent_out, on_block_proposed) e, valid)
        | inr failed ↦ (s, rw (failed, on_block_proposed) refl, v)
      ]

  on_l1_block_decoded-Runs :
      (s : L1) (slots : ℕ) (b : Option L1Block) (now : ℕ)
      → Valid s
      → Runs (on_l1_block_decoded o s slots b now)
  unfolding on_l1_block_decoded
  on_l1_block_decoded-Runs s slots none now v = (s, refl, v)
  on_l1_block_decoded-Runs s slots (some blk) now v =
      let epoch = epoch_at slots blk.height in
      elim (Bool-cases (is_empty blk.hash)) [
        | inl no_hash ↦
            rw (no_hash, on_l1_block_decoded)
              (on_block_proposed-Runs s epoch blk.height blk.hash blk.producer_pub blk.txs now v)
        | inr given ↦
            rw (given, on_l1_block_decoded)
              (on_block_proposed-Runs (record_observed s (hex_encode blk.hash) epoch blk.height now)
                epoch blk.height blk.hash blk.producer_pub blk.txs now
                (record_observed-Valid s (hex_encode blk.hash) epoch blk.height now v))
      ]

  -- From a state whose index is right, the handler of a block message does not panic and leaves such a
  -- state, the node's own attestation included.
  pub on_l1_block-Runs :
      (s : L1) (slots : ℕ) (raw : Bytes) (now : ℕ) → Valid s → Runs (on_l1_block o s slots raw now)
  unfolding on_l1_block
  on_l1_block-Runs s slots raw now v = on_l1_block_decoded-Runs s slots (o.decode_block raw) now v
