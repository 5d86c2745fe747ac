-- ===== src/L2/Steps/Announced.antt =====
-- l2_checkpoint.go: what stands behind an announced commit.
use custom_consensus.Base.{ℕ, ◌≤◌, ◌≡◌, some, Text, Map, get, hex_decode, All, All-get}
use custom_consensus.Base.Int.{ℤ}
use custom_consensus.L2.State.{L2, Net, QcMsg, Event, commit_sent, start_l2}
use custom_consensus.L2.Steps.{Certified, Reach}
use custom_consensus.L2.Steps.Maps.{All-imp}
use custom_consensus.L2.Steps.Ledger.{Linked, CommitOk}
use custom_consensus.L2.Steps.Invariant.{Reach-Inv, start_l2-Inv}

module _ (net : Net) (q : ℕ) where
  -- A block with a certificate of at least `q` votes, each of which verifies and is for the block, by
  -- different peers.
  abbrev pub HasQuorum : Map QcMsg → Text → Type 0
  HasQuorum qcs b = (qc : QcMsg) × (get b qcs ≡ some qc) × Certified net q (b, qc)

  -- The block of an announced commit has such a certificate, so has a child of it, and so has a child
  -- of that; each child's certificate names its parent.
  abbrev pub SoundCommit : Map QcMsg → Event → Type 0
  SoundCommit qcs (commit_sent m) =
      (b : Text) × (c : Text) × (g : Text) × (hex_decode b ≡ some m.block)
      × HasQuorum qcs b
      × HasQuorum qcs c
      × HasQuorum qcs g
      × Linked qcs b c
      × Linked qcs c g
  SoundCommit qcs _ = Unit {0}

  Certified-block :
      (qcs : Map QcMsg) (b : Text) (qc : QcMsg)
      → All (Certified net q) qcs
      → get b qcs ≡ some qc
      → HasQuorum qcs b
  Certified-block qcs b qc a found = (qc, found, All-get (Certified net q) b qc qcs found a)

  sound_commit :
      (qcs : Map QcMsg) (e : Event) → All (Certified net q) qcs → CommitOk qcs e → SoundCommit qcs e
  sound_commit qcs (commit_sent m) a (b, decoded, chain) =
      let (c, g, qc, found, l, l') = chain in
      (
        b,
        c,
        g,
        decoded,
        Certified-block qcs b qc a found,
        Certified-block qcs c l.0 a l.1,
        Certified-block qcs g l'.0 a l'.1,
        l,
        l',
      )
  sound_commit qcs (Event.vote_sent m) a h = tt
  sound_commit qcs (Event.qc_sent m) a h = tt
  sound_commit qcs (Event.descendant_qc p r) a h = tt
  sound_commit qcs (Event.block_meta b p h t) a k = tt

  -- However the goroutines interleave from the start of the service, with every quorum size in use
  -- at least `q`: each commit that the node announces is of a block with three certificates in a row,
  -- the block's own, a child's and a grandchild's, each of at least `q` votes that verify, cast for
  -- that block by different peers.
  pub announced_commits_sound :
      (size expiry : ℤ) {t : L2}
      → q ≤ (start_l2 size expiry).quorum_size
      → Reach net q (start_l2 size expiry) t
      → All (SoundCommit t.qcs) t.sent
  announced_commits_sound size expiry {t} h r =
      let v = Reach-Inv net q r (start_l2-Inv net q size expiry h) in
      All-imp _ _ t.sent (λ e. sound_commit t.qcs e v.certs) v.commits
