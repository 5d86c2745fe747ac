-- ===== src/L2/Steps/Commits.antt =====
-- l2_checkpoint.go: every interleaving of the service keeps its invariant, and announces a commit only
-- for a block with three certificates in a row.
use custom_consensus.Base.{
  ℕ, ◌≡◌, refl, sym, get-put_self, true, false, some, none, Option, Bytes, IsBytes, Text, Map, List,
  get, put, has, is_empty, hex_encode, hex_decode, All, put-Distinct, All-put, Bool-cases, inl, inr,
  ◌&&◌, Bool,
}
use custom_consensus.Base.Int.{ℤ, ltb_ℤ}
use custom_consensus.L2.State.{
  L2, Net, VoteMsg, QcMsg, CommitMsg, BlockMeta, Event, commit_sent, block_meta, kids_of, peers_of,
}
use custom_consensus.L2.Voting.{note_block, extends_locked}
use custom_consensus.L2.Certificates.{
  verify_vote, store_section, add_child, update_lock_for_qc, lock_height, grand_chain,
  check_commit_for, commit_known, record_commit, add_event, decoded,
}
use custom_consensus.L2.Handlers.{add_vote}
use custom_consensus.L2.Steps.{IsHex, Ballot, Certified}
use custom_consensus.L2.Steps.Maps.{get_of_has-false, All-imp}
use custom_consensus.L2.Steps.Ledger.{
  Tally, KidsLinked, Linked, ThreeChain, CommitOk, Inv, KidsLinked-put, CommitOk-put,
  kids_of-Linked, grand_chain-ThreeChain, peers_of-Tally,
}

module _ (net : Net) (q : ℕ) where
  pub note_block-Inv :
      (s : L2) (b : Text) (h : ℤ) (p : Text) (now : ℕ)
      → IsHex p
      → Inv net q s
      → Inv net q (note_block s b h p now)
  unfolding note_block
  note_block-Inv s b h p now hex v = elim (Bool-cases (has b s.blocks)) [
    | inl old ↦ rw (old, note_block) v
    | inr new ↦
        rw (new, note_block)
          (record {
            quorum_min = v.quorum_min;
            metas = All-put _ b _ s.blocks hex v.metas;
            tallies = v.tallies;
            certs = v.certs;
            links = v.links;
            commits = v.commits;
          })
  ]

  tallied-Inv :
      (s : L2) (msg : VoteMsg) (now : ℕ)
      → Ballot net (hex_encode msg.payload.block) msg
      → Inv net q s
      → Inv net q (record s {
        votes =
            put
              (hex_encode msg.payload.block)
              (put msg.payload.peer
                (record { msg = msg; received = now })
                (peers_of s (hex_encode msg.payload.block)))
              s.votes;
      })
  tallied-Inv s msg now ballot v =
      let b = hex_encode msg.payload.block in
      let (d, a) = peers_of-Tally net s b v.tallies in
      record {
        quorum_min = v.quorum_min;
        metas = v.metas;
        tallies =
            All-put (Tally net) b _ s.votes
              (put-Distinct _ _ _ d, All-put _ msg.payload.peer _ (peers_of s b) (ballot, refl) a)
              v.tallies;
        certs = v.certs;
        links = v.links;
        commits = v.commits;
      }

  pub add_vote-Inv :
      (s : L2) (msg : VoteMsg) (now : ℕ)
      → verify_vote net msg ≡ true
      → IsBytes msg.payload.parent
      → Inv net q s
      → Inv net q (add_vote s msg now).0
  unfolding add_vote
  add_vote-Inv s msg now valid bytes v =
      elim (Bool-cases (has msg.payload.peer (peers_of s (hex_encode msg.payload.block)))) [
        | inl old ↦ rw (old, add_vote) v
        | inr new ↦
            rw (new, add_vote)
              (note_block-Inv _ _ msg.payload.height _ now (msg.payload.parent, bytes, refl)
                (tallied-Inv s msg now (valid, refl) v))
      ]

  add_child-links :
      (s : L2) (b : Text) (qc : QcMsg) (p : Text)
      → has b s.qcs ≡ false
      → p ≡ hex_encode qc.parent
      → All (KidsLinked s.qcs) s.child_qcs
      → All (KidsLinked (put b qc s.qcs)) (add_child s p b)
  unfolding add_child
  add_child-links s b qc p fresh e a =
      let new = get_of_has-false b s.qcs fresh in
      let weaker = All-imp _ _ s.child_qcs (KidsLinked-put s.qcs b qc new) a in
      let kids = KidsLinked-put s.qcs b qc new (p, kids_of s p) (kids_of-Linked s s.qcs p a) in
      elim (Bool-cases (is_empty p)) [
        | inl root ↦ rw (root, add_child) weaker
        | inr child ↦
            rw (child, add_child)
              (All-put (KidsLinked (put b qc s.qcs)) p _ s.child_qcs
                (All-put (λ k. Linked (put b qc s.qcs) p k.0) b tt (kids_of s p)
                  (qc, get-put_self b qc s.qcs, sym e) kids)
                weaker)
      ]

  locked-Inv :
      (u : L2) (b : Text) (h : ℤ)
      → Inv net q u
      → Inv net q (record u { locked_blk = b; locked_h = h })
  locked-Inv u b h v = record {
    quorum_min = v.quorum_min;
    metas = v.metas;
    tallies = v.tallies;
    certs = v.certs;
    links = v.links;
    commits = v.commits;
  }

  update_lock-Inv : (u : L2) (b : Text) (h : ℤ) → Inv net q u → Inv net q (update_lock_for_qc u b h)
  unfolding update_lock_for_qc
  update_lock-Inv u b h v = elim (Bool-cases (is_empty u.locked_blk)) [
    | inl free ↦ rw (free, update_lock_for_qc) (locked-Inv u b _ v)
    | inr locked ↦
        elim (Bool-cases
          (ltb_ℤ u.locked_h (lock_height (get b u.blocks) h) && extends_locked u b)) [
            | inl raised ↦ rw (locked, raised, update_lock_for_qc) (locked-Inv u b _ v)
            | inr kept ↦ rw (locked, kept, update_lock_for_qc) v
          ]
  ]

  pub store_section-Inv :
      (s : L2) (b : Text) (qc : QcMsg) (p : Text)
      → has b s.qcs ≡ false
      → p ≡ hex_encode qc.parent
      → Certified net q (b, qc)
      → Inv net q s
      → Inv net q (store_section s b qc p)
  unfolding store_section
  store_section-Inv s b qc p fresh e c v = update_lock-Inv _ b qc.height (record {
    quorum_min = v.quorum_min;
    metas = v.metas;
    tallies = v.tallies;
    certs = All-put (Certified net q) b qc s.qcs c v.certs;
    links = add_child-links s b qc p fresh e v.links;
    commits =
        All-imp _ _ s.sent (CommitOk-put s.qcs b qc (get_of_has-false b s.qcs fresh)) v.commits;
  })

  pub add_event-All :
      (qcs : Map QcMsg) (told : Bool) (e : Event) (es : List Event)
      → CommitOk qcs e
      → All (CommitOk qcs) es
      → All (CommitOk qcs) (add_event told e es)
  unfolding add_event
  add_event-All qcs true e es h a = (h, a)
  add_event-All qcs false e es h a = a

  commit_known-Inv :
      (s : L2) (b : Text) (meta : Option BlockMeta) (block : Option Bytes) (now : ℕ)
      → hex_decode b ≡ block
      → ThreeChain s.qcs b
      → Inv net q s
      → Inv net q (commit_known net s b meta block now)
  unfolding commit_known record_commit
  commit_known-Inv s b (some meta) (some block) now e chain v =
      let cm : CommitMsg = record { block = block; height = meta.height; committed_at = now } in
      record {
        quorum_min = v.quorum_min;
        metas = v.metas;
        tallies = v.tallies;
        certs = v.certs;
        links = v.links;
        commits =
            add_event-All s.qcs _
              (block_meta block (decoded meta.parent_hex) meta.height meta.tx_root) _ tt
              (add_event-All s.qcs (net.encodes_commit cm) (commit_sent cm) s.sent (b, e, chain)
                v.commits);
      }
  commit_known-Inv s b none (some block) now e chain v = v
  commit_known-Inv s b none none now e chain v = v
  commit_known-Inv s b (some meta) none now e chain v = v

  pub check_commit_for-Inv :
      (s : L2) (b : Text) (now : ℕ) → Inv net q s → Inv net q (check_commit_for net s b now)
  unfolding check_commit_for
  check_commit_for-Inv s b now v = elim (Bool-cases (is_empty b)) [
    | inl root ↦ rw (root, check_commit_for) v
    | inr full ↦ elim (Bool-cases (has b s.committed)) [
      | inl done ↦ rw (full, done, check_commit_for) v
      | inr fresh ↦ elim (Bool-cases (has b s.qcs)) [
        | inr bare ↦ rw (full, fresh, bare, check_commit_for) v
        | inl certified ↦ elim (Bool-cases (grand_chain s b)) [
          | inr short ↦ rw (full, fresh, certified, short, check_commit_for) v
          | inl long ↦
              rw (full, fresh, certified, long, check_commit_for)
                (commit_known-Inv s b (get b s.blocks) (hex_decode b) now refl
                  (grand_chain-ThreeChain s b v.links certified long) v)
        ]
      ]
    ]
  ]
