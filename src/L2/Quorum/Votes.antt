-- ===== src/L2/Quorum/Votes.antt =====
-- l2_checkpoint.go, `verifyQC`: what an accepted certificate holds.
use custom_consensus.Base.{
  ℕ, ◌≤◌, ◌<◌, ◌≡◌, ◌≢◌, refl, true, false, inl, inr, List, [], ◌∷◌, Text, Map, put, has, get-put,
  text_eq, text_eq_iff, eq_of_text_eq, hex_encode, is_empty, length, All, arith, Bool-cases, ltb,
  ◌==◌, ap, sym, ◌∙◌, Bytes,
}
use custom_consensus.L2.State.{L2, Net, VoteMsg, QcMsg, step_prepare}
use custom_consensus.L2.Certificates.{verify_vote, verify_votes, verify_qc}
use custom_consensus.L2.Steps.{Ballot, DistinctPeers, Certified}
use custom_consensus.L2.Steps.Maps.{All-imp}

has-put_other :
    (k j : Text) (m : Map (Unit {0})) → has j (put k tt m) ≡ false → (j ≢ k) × (has j m ≡ false)
unfolding has
has-put_other k j m e = (
  λ same. ground (arith, get-put k j tt m, text_eq_iff k j),
  ground (arith, get-put k j tt m, text_eq_iff k j),
)

-- The vote's own tests, when the loop accepts it and the rest.
pub record Passed (net : Net) (b p : Text) (seen : Map (Unit {0})) (v : VoteMsg) (vs : List VoteMsg)
    : Type 0 where
  pub block_matches : text_eq (hex_encode v.payload.block) b ≡ true
  pub parent_matches : text_eq (hex_encode v.payload.parent) p ≡ true
  pub valid : verify_vote net v ≡ true
  pub unseen : has v.payload.peer seen ≡ false
  pub others : verify_votes net b p (put v.payload.peer tt seen) vs ≡ true

pub verify_votes-Passed :
    (net : Net) (b p : Text) (seen : Map (Unit {0})) (v : VoteMsg) (vs : List VoteMsg)
    → verify_votes net b p seen (v ∷ vs) ≡ true
    → Passed net b p seen v vs
unfolding verify_votes
verify_votes-Passed net b p seen v vs e = ground arith

pub verify_votes_sound :
    (net : Net) (b p : Text) (seen : Map (Unit {0})) (votes : List VoteMsg)
    → verify_votes net b p seen votes ≡ true
    → All (Ballot net b) votes
      × DistinctPeers votes
      × All (λ v. has v.payload.peer seen ≡ false) votes
verify_votes_sound net b p seen [] e = (tt, tt, tt)
verify_votes_sound net b p seen (v ∷ vs) e =
    let h = verify_votes-Passed net b p seen v vs e in
    let (ballots, distinct, fresh) =
      verify_votes_sound net b p (put v.payload.peer tt seen) vs h.others in
    (
      ((h.valid, eq_of_text_eq _ b h.block_matches), ballots),
      (
        All-imp _ _ vs (λ w f. (has-put_other v.payload.peer w.payload.peer seen f).0) fresh,
        distinct,
      ),
      (
        h.unseen,
        All-imp _ _ vs (λ w f. (has-put_other v.payload.peer w.payload.peer seen f).1) fresh,
      ),
    )

-- An accepted certificate has the quorum of the node, of valid votes for its block by different peers.
pub verify_qc-Certified :
    (net : Net) (q : ℕ) (s : L2) (qc : QcMsg)
    → q ≤ s.quorum_size
    → verify_qc net s qc ≡ true
    → Certified net q (hex_encode qc.block, qc)
unfolding verify_qc
verify_qc-Certified net q s qc low e = elim (Bool-cases (qc.step == step_prepare)) [
  | inr other ↦ absurd (ground arith)
  | inl prepare ↦ elim (Bool-cases (ltb (length qc.votes) s.quorum_size)) [
    | inl few ↦ absurd (ground arith)
    | inr enough ↦
        let (ballots, distinct, _) =
          verify_votes_sound net (hex_encode qc.block) (hex_encode qc.parent) [] qc.votes
            (rw (prepare, enough) at e) in
        record { enough = ground arith; ballots = ballots; distinct = distinct }
  ]
]

hex_encode-empty : (b : Bytes) → is_empty b ≡ false → is_empty (hex_encode b) ≡ false
unfolding is_empty hex_encode
hex_encode-empty [] h = h
hex_encode-empty (x ∷ xs) h = refl

verify_vote-block :
    (net : Net) (v : VoteMsg) → verify_vote net v ≡ true → is_empty v.payload.block ≡ false
unfolding verify_vote
verify_vote-block net v e = ground arith

-- A vote that verifies is for a block, so its key is not empty.
pub verify_vote-full :
    (net : Net) (v : VoteMsg)
    → verify_vote net v ≡ true
    → is_empty (hex_encode v.payload.block) ≡ false
verify_vote-full net v e = hex_encode-empty v.payload.block (verify_vote-block net v e)

-- Nor is the key of a certificate that has a vote.
pub Certified-full :
    (net : Net) (q : ℕ) (b : Text) (qc : QcMsg)
    → 0 < q
    → Certified net q (b, qc)
    → is_empty b ≡ false
Certified-full net q b qc h c = first qc.votes c.ballots c.enough
  where
    first : (vs : List VoteMsg) → All (Ballot net b) vs → q ≤ length vs → is_empty b ≡ false
    first [] a k = absurd (omega arith)
    first (v ∷ vs) (ballot, _) k = ap is_empty (sym ballot.1) ∙ verify_vote-full net v ballot.0
