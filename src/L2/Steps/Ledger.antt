-- ===== src/L2/Steps/Ledger.antt =====
-- l2_checkpoint.go: the invariant of `L2Service`, and what keeps each part of it.
use custom_consensus.Base.{
  ℕ, ◌≤◌, ◌≡◌, refl, true, false, some, none, IsBytes, Text, Map, [], get, put, has, hex_encode,
  hex_decode, All, Distinct, All-get, hex_decode-hex_encode, ap, sym, ◌∙◌, Option-cases, inl, inr,
  ◌&&◌, Bool,
}
use custom_consensus.L2.State.{
  L2, Net, VoteRecord, QcMsg, Event, commit_sent, kids_of, peers_of, meta_of,
}
use custom_consensus.L2.Certificates.{decoded, grand_chain}
use custom_consensus.L2.Steps.{IsHex, Ballot, Certified}
use custom_consensus.L2.Steps.Maps.{some_of_has, get-put_fresh, All-imp, any_key-All}

-- The votes of one block: under the peer that cast each, and all of them ballots for the block.
abbrev pub Tally : Net → Text × Map VoteRecord → Type 0
Tally net e = Distinct e.1 × All (λ r. Ballot net e.0 r.1.msg × (r.1.msg.payload.peer ≡ r.0)) e.1

-- `child` has a certificate, which names `parent`.
abbrev pub Linked : Map QcMsg → Text → Text → Type 0
Linked qcs parent child = (qc : QcMsg) × (get child qcs ≡ some qc) × (hex_encode qc.parent ≡ parent)

abbrev pub KidsLinked : Map QcMsg → Text × Map (Unit {0}) → Type 0
KidsLinked qcs e = All (λ k. Linked qcs e.0 k.0) e.1

-- The block has a certificate, and so have a child of it and a child of that.
abbrev pub ThreeChain : Map QcMsg → Text → Type 0
ThreeChain qcs b =
    (c : Text) × (g : Text) × (qc : QcMsg) × (get b qcs ≡ some qc) × Linked qcs b c × Linked qcs c g

-- A commit that was announced is of a block with three certificates in a row.
abbrev pub CommitOk : Map QcMsg → Event → Type 0
CommitOk qcs (commit_sent m) = (b : Text) × (hex_decode b ≡ some m.block) × ThreeChain qcs b
CommitOk qcs _ = Unit {0}

pub record Inv (net : Net) (q : ℕ) (s : L2) : Type 0 where
  pub quorum_min : q ≤ s.quorum_size
  pub metas : All (λ e. IsHex e.1.parent_hex) s.blocks
  pub tallies : All (Tally net) s.votes
  pub certs : All (Certified net q) s.qcs
  pub links : All (KidsLinked s.qcs) s.child_qcs
  pub commits : All (CommitOk s.qcs) s.sent

-- What a new certificate leaves as it was.
module _ (qcs : Map QcMsg) (b : Text) (qc : QcMsg) (fresh : get b qcs ≡ none) where
  Linked-put : (p c : Text) → Linked qcs p c → Linked (put b qc qcs) p c
  Linked-put p c (old, found, e) = (old, get-put_fresh b c qc old qcs fresh found, e)

  pub KidsLinked-put : (e : Text × Map (Unit {0})) → KidsLinked qcs e → KidsLinked (put b qc qcs) e
  KidsLinked-put (p, kids) = All-imp _ _ kids (λ k. Linked-put p k.0)

  pub CommitOk-put : (e : Event) → CommitOk qcs e → CommitOk (put b qc qcs) e
  CommitOk-put (commit_sent m) (t, d, chain) =
      let (c, g, old, found, l, l') = chain in
      (
        t,
        d,
        (c, g, old, get-put_fresh b t qc old qcs fresh found, Linked-put t c l, Linked-put c g l'),
      )
  CommitOk-put (Event.vote_sent m) h = tt
  CommitOk-put (Event.qc_sent m) h = tt
  CommitOk-put (Event.descendant_qc p r) h = tt
  CommitOk-put (Event.block_meta b p h r) k = tt

pub kids_of-Linked :
    (s : L2) (qcs : Map QcMsg) (p : Text)
    → All (KidsLinked qcs) s.child_qcs
    → KidsLinked qcs (p, kids_of s p)
unfolding kids_of
kids_of-Linked s qcs p a = elim (Option-cases (get p s.child_qcs)) [
  | inl absent ↦ rw (absent, kids_of) tt
  | inr (kids, found) ↦ rw (found, kids_of) (All-get _ p kids s.child_qcs found a)
]

and_right : (x y : Bool) → (x && y) ≡ true → y ≡ true
and_right true y h = h
and_right false y h = cc

-- The test of `checkCommitFor` finds a chain of certificates.
pub grand_chain-ThreeChain :
    (s : L2) (b : Text)
    → All (KidsLinked s.qcs) s.child_qcs
    → has b s.qcs ≡ true
    → grand_chain s b ≡ true
    → ThreeChain s.qcs b
unfolding grand_chain
grand_chain-ThreeChain s b a certified e =
    let (qc, found) = some_of_has b s.qcs certified in
    let (c, deep, l) = any_key-All _ _ (kids_of s b) e (kids_of-Linked s s.qcs b a) in
    let (g, _, l') =
      any_key-All _ _ (kids_of s c) (and_right (has c s.qcs) _ deep) (kids_of-Linked s s.qcs c a) in
    (c, g, qc, found, l, l')

pub peers_of-Tally :
    (net : Net) (s : L2) (b : Text) → All (Tally net) s.votes → Tally net (b, peers_of s b)
unfolding peers_of
peers_of-Tally net s b a = elim (Option-cases (get b s.votes)) [
  | inl absent ↦ rw (absent, peers_of) (tt, tt)
  | inr (peers, found) ↦ rw (found, peers_of) (All-get (Tally net) b peers s.votes found a)
]

empty_hex : [] ≡ hex_encode []
unfolding hex_encode
empty_hex = refl

-- The parent of a block's metadata, also of the zero metadata, encodes bytes.
pub meta_of-IsHex :
    (s : L2) (b : Text) → All (λ e. IsHex e.1.parent_hex) s.blocks → IsHex (meta_of s b).parent_hex
unfolding meta_of
meta_of-IsHex s b a = elim (Option-cases (get b s.blocks)) [
  | inl absent ↦ rw (absent, meta_of) ([], tt, empty_hex)
  | inr (meta, found) ↦ rw (found, meta_of) (All-get _ b meta s.blocks found a)
]

pub decoded_lem : (t : Text) → IsHex t → (IsBytes (decoded t)) × (hex_encode (decoded t) ≡ t)
unfolding decoded
decoded_lem t (b, bytes, e) =
    let d : hex_decode t ≡ some b = ap hex_decode e ∙ hex_decode-hex_encode b bytes in
    rw (d, decoded) (bytes, sym e)
