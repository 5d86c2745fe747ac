-- ===== src/L2/Quorum/Accepted.antt =====
-- l2_checkpoint.go: a node's own certificate, under the check that every receiver makes.
use custom_consensus.Base.{
  ℕ, ◌≤◌, ◌≡◌, ◌≢◌, ◌↔◌, refl, sym, ap, ◌∙◌, true, false, List, [], ◌∷◌, Text, Bytes, Map, get, put,
  has, get-put, text_eq_iff, eq_of_text_eq, hex_encode, length, All, arith,
}
use custom_consensus.L2.State.{L2, Net, VoteMsg, QcMsg, peers_of, meta_of}
use custom_consensus.L2.Certificates.{verify_votes, verify_qc}
use custom_consensus.L2.Handlers.{built_qc}
use custom_consensus.L2.Steps.{Ballot, DistinctPeers}
use custom_consensus.L2.Steps.Ledger.{Inv, meta_of-IsHex, decoded_lem}
use custom_consensus.L2.Steps.Maps.{All-imp}
use custom_consensus.L2.Quorum.Votes.{verify_votes-Passed}
use custom_consensus.L2.Quorum.Built.{built_qc-Certified}

-- The vote names this parent.
abbrev pub Names : Text → VoteMsg → Type 0
Names p v = hex_encode v.payload.parent ≡ p

has-put-false :
    (k j : Text) (m : Map (Unit {0})) → j ≢ k → has j m ≡ false → has j (put k tt m) ≡ false
unfolding has
has-put-false k j m other e = ground (arith, get-put k j tt m, text_eq_iff k j)

All-both {ℓ κ} :
    {A : Type 0} (P : A → Type ℓ) (Q : A → Type κ) (xs : List A)
    → All P xs
    → All Q xs
    → All (λ x. P x × Q x) xs
All-both P Q [] a b = tt
All-both P Q (x ∷ xs) (h, a) (k, b) = ((h, k), All-both P Q xs a b)

verify_votes_complete :
    (net : Net) (b p : Text) (seen : Map (Unit {0})) (votes : List VoteMsg)
    → All (Ballot net b) votes
    → DistinctPeers votes
    → All (λ v. has v.payload.peer seen ≡ false) votes
    → All (Names p) votes
    → verify_votes net b p seen votes ≡ true
unfolding verify_votes
verify_votes_complete net b p seen [] a d f n = refl
verify_votes_complete net b p seen (v ∷ vs) (ballot, a) (other, d) (unseen, f) (names, n) =
    let block = (text_eq_iff (hex_encode v.payload.block) b).1 ballot.1 in
    let parent = (text_eq_iff (hex_encode v.payload.parent) p).1 names in
    let fresh =
      All-imp _ _ vs (λ w h. has-put-false v.payload.peer w.payload.peer seen h.0 h.1)
        (All-both _ _ vs other f) in
    rw (block, parent, ballot.0, unseen)
      (verify_votes_complete net b p (put v.payload.peer tt seen) vs a d fresh n)

verify_votes-Names :
    (net : Net) (b p : Text) (seen : Map (Unit {0})) (votes : List VoteMsg)
    → verify_votes net b p seen votes ≡ true
    → All (Names p) votes
verify_votes-Names net b p seen [] e = tt
verify_votes-Names net b p seen (v ∷ vs) e =
    let h = verify_votes-Passed net b p seen v vs e in
    (
      eq_of_text_eq _ p h.parent_matches,
      verify_votes-Names net b p (put v.payload.peer tt seen) vs h.others,
    )

none_seen : (vs : List VoteMsg) → All (λ v. has {V = Unit {0}} v.payload.peer [] ≡ false) vs
unfolding has get
none_seen [] = tt
none_seen (v ∷ vs) = (refl, none_seen vs)

verify_qc-verify_votes :
    (net : Net) (s : L2) (qc : QcMsg)
    → qc.step ≡ 1
    → s.quorum_size ≤ length qc.votes
    → verify_qc net s qc ≡ verify_votes net (hex_encode qc.block) (hex_encode qc.parent) [] qc.votes
unfolding verify_qc
verify_qc-verify_votes net s qc step enough = ground arith

-- For a node in a state that satisfies the invariant of the service with a quorum of votes for a block,
-- and any node with the same quorum size, whatever else it knows: the second node accepts the
-- certificate that the first one builds exactly when every vote in it names the parent that the
-- builder's metadata has for the block.
pub verify_qc-built_qc :
    (net : Net) (q : ℕ) (s s' : L2) (block : Bytes) (now : ℕ)
    → let b = hex_encode block in
      Inv net q s
      → q ≡ s'.quorum_size
      → q ≤ length (peers_of s b)
      → let qc = built_qc net s b block now in
        (verify_qc net s' qc ≡ true) ↔ All (Names (meta_of s b).parent_hex) qc.votes
unfolding built_qc
verify_qc-built_qc net q s s' block now v size enough =
    let b = hex_encode block in
    let qc = built_qc net s b block now in
    let p = (meta_of s b).parent_hex in
    let c = built_qc-Certified net q s b block now v enough in
    let parent : hex_encode qc.parent ≡ p = (decoded_lem p (meta_of-IsHex s b v.metas)).1 in
    let check : verify_qc net s' qc ≡ verify_votes net b p [] qc.votes =
      verify_qc-verify_votes net s' qc refl (omega (arith, c.enough))
      ∙ ap (λ t. verify_votes net b t [] qc.votes) parent in
    (
      λ e. verify_votes-Names net b p [] qc.votes (sym check ∙ e),
      λ n.
          check
          ∙ verify_votes_complete net b p [] qc.votes c.ballots c.distinct (none_seen qc.votes) n,
    )
