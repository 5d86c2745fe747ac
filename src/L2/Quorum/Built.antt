-- ===== src/L2/Quorum/Built.antt =====
-- l2_checkpoint.go, `buildAndBroadcastQC`: the certificate that a node builds from its votes, and
-- whether a node that receives it accepts it.
use custom_consensus.Base.{
  ℕ, suc, ◌≤◌, ◌≡◌, ◌≢◌, refl, sym, ap, ◌∙◌, inl, inr, none, List, [], ◌∷◌, map, Text, Bytes, Map,
  get, text_eq, text_eq_iff, text_lt, length, All, Distinct, arith, Bool-cases,
}
use custom_consensus.L2.State.{L2, Net, VoteMsg, VoteRecord, peers_of}
use custom_consensus.L2.Handlers.{insert_by_peer, sort_by_peer, built_qc}
use custom_consensus.L2.Steps.{Ballot, DistinctPeers, Certified}
use custom_consensus.L2.Steps.Ledger.{Inv, peers_of-Tally}
use custom_consensus.L2.Steps.Maps.{All-imp}

abbrev OtherPeer : VoteMsg → VoteMsg → Type 0
OtherPeer v w = w.payload.peer ≢ v.payload.peer

module _ {κ} (P : VoteMsg → Type κ) where
  insert_by_peer-All :
      (v : VoteMsg) (vs : List VoteMsg) → P v → All P vs → All P (insert_by_peer v vs)
  unfolding insert_by_peer
  insert_by_peer-All v [] h a = (h, tt)
  insert_by_peer-All v (w ∷ ws) h (b, a) =
      elim (Bool-cases (text_lt w.payload.peer v.payload.peer)) [
        | inl after ↦ rw (after, insert_by_peer) (b, insert_by_peer-All v ws h a)
        | inr before ↦ rw (before, insert_by_peer) (h, (b, a))
      ]

  sort_by_peer-All : (vs : List VoteMsg) → All P vs → All P (sort_by_peer vs)
  unfolding sort_by_peer
  sort_by_peer-All [] a = tt
  sort_by_peer-All (v ∷ vs) (h, a) =
      insert_by_peer-All v (sort_by_peer vs) h (sort_by_peer-All vs a)

insert_by_peer-Distinct :
    (v : VoteMsg) (vs : List VoteMsg)
    → All (OtherPeer v) vs
    → DistinctPeers vs
    → DistinctPeers (insert_by_peer v vs)
unfolding insert_by_peer
insert_by_peer-Distinct v [] a d = (tt, tt)
insert_by_peer-Distinct v (w ∷ ws) (h, a) (b, d) =
    elim (Bool-cases (text_lt w.payload.peer v.payload.peer)) [
      | inl after ↦
          rw (after, insert_by_peer)
            (
              insert_by_peer-All (OtherPeer w) v ws (λ e. h (sym e)) b,
              insert_by_peer-Distinct v ws a d,
            )
      | inr before ↦ rw (before, insert_by_peer) ((h, a), (b, d))
    ]

sort_by_peer-Distinct : (vs : List VoteMsg) → DistinctPeers vs → DistinctPeers (sort_by_peer vs)
unfolding sort_by_peer
sort_by_peer-Distinct [] d = tt
sort_by_peer-Distinct (v ∷ vs) (h, d) =
    insert_by_peer-Distinct v (sort_by_peer vs) (sort_by_peer-All (OtherPeer v) vs h)
      (sort_by_peer-Distinct vs d)

length-insert_by_peer :
    (v : VoteMsg) (vs : List VoteMsg) → length (insert_by_peer v vs) ≡ suc (length vs)
unfolding insert_by_peer
length-insert_by_peer v [] = refl
length-insert_by_peer v (w ∷ ws) = ground (arith, length-insert_by_peer v ws)

length-sort_by_peer : (vs : List VoteMsg) → length (sort_by_peer vs) ≡ length vs
unfolding sort_by_peer
length-sort_by_peer [] = refl
length-sort_by_peer (v ∷ vs) =
    length-insert_by_peer v (sort_by_peer vs) ∙ ap suc (length-sort_by_peer vs)

-- The votes that the map of one block holds, in its order.
abbrev msgs : Map VoteRecord → List VoteMsg
msgs = map (λ e. e.1.msg)

length-msgs : (m : Map VoteRecord) → length (msgs m) ≡ length m
length-msgs [] = refl
length-msgs (e ∷ m) = ap suc (length-msgs m)

msgs-other :
    (k : Text) (v : VoteMsg) (m : Map VoteRecord)
    → v.payload.peer ≡ k
    → get k m ≡ none
    → All (λ r. r.1.msg.payload.peer ≡ r.0) m
    → All (OtherPeer v) (msgs m)
unfolding get
msgs-other k v [] e fresh a = tt
msgs-other k v ((j, r) ∷ m) e fresh (h, a) = elim (Bool-cases (text_eq j k)) [
  | inl same ↦ absurd (ground arith)
  | inr other ↦
      (λ p. ground (arith, text_eq_iff j k), msgs-other k v m e (rw (other, get) at fresh) a)
]

msgs-Distinct :
    (m : Map VoteRecord)
    → Distinct m
    → All (λ r. r.1.msg.payload.peer ≡ r.0) m
    → DistinctPeers (msgs m)
msgs-Distinct [] d a = tt
msgs-Distinct ((k, r) ∷ m) (fresh, d) (h, a) = (msgs-other k r.msg m h fresh a, msgs-Distinct m d a)

msgs-Ballot :
    (net : Net) (b : Text) (m : Map VoteRecord)
    → All (λ r. Ballot net b r.1.msg × (r.1.msg.payload.peer ≡ r.0)) m
    → All (Ballot net b) (msgs m)
msgs-Ballot net b [] a = tt
msgs-Ballot net b (e ∷ m) (h, a) = (h.0, msgs-Ballot net b m a)

-- A certificate built from the recorded votes holds as many of them as there are, all valid, for the
-- block, and by different peers.
pub built_qc-Certified :
    (net : Net) (q : ℕ) (s : L2) (b : Text) (block : Bytes) (now : ℕ)
    → Inv net q s
    → q ≤ length (peers_of s b)
    → Certified net q (b, built_qc net s b block now)
unfolding built_qc
built_qc-Certified net q s b block now v enough =
    let peers = peers_of s b in
    let (d, a) = peers_of-Tally net s b v.tallies in
    record {
      enough = omega (arith, length-sort_by_peer (msgs peers), length-msgs peers);
      ballots = sort_by_peer-All (Ballot net b) (msgs peers) (msgs-Ballot net b peers a);
      distinct =
          sort_by_peer-Distinct (msgs peers)
            (msgs-Distinct peers d (All-imp _ _ peers (λ r h. h.1) a));
    }
