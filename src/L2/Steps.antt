-- ===== src/L2/Steps.antt =====
-- l2_checkpoint.go as a transition system. A step is one section that the service runs under its lock
-- (with what it sends right after it), so a sequence of steps is any interleaving of the goroutines.
-- `q` is a lower bound of the quorum sizes in use.
pub mod Lock
pub mod Maps
pub mod Ledger
pub mod Commits
pub mod Invariant
pub mod Announced
use custom_consensus.Base.{
  ℕ, ◌≤◌, ◌<◌, ◌≡◌, ◌≢◌, true, false, some, List, [], ◌∷◌, Bytes, IsBytes, Text, Map, get, put, has,
  length, is_empty, hex_encode, All, Distinct,
}
use custom_consensus.Base.Int.{ℤ}
use custom_consensus.L2.State.{
  L2, Net, VoteMsg, VoteRecord, QcMsg, CommitMsg, BlockMeta, CommitInfo, Event, vote_sent, qc_sent,
  commit_sent, descendant_qc, block_meta, update_quorum_size,
}
use custom_consensus.L2.Voting.{
  note_block, update_block_info, mark_vote_if_safe, pick_loop, nothing, picked,
}
use custom_consensus.L2.Certificates.{
  verify_vote, store_section, check_commit_for, on_commit, prune_expired,
}
use custom_consensus.L2.Handlers.{add_vote, take_pick}

-- A text that encodes bytes.
abbrev pub IsHex : Text → Type 0
IsHex t = (b : Bytes) × IsBytes b × (t ≡ hex_encode b)

-- A vote that verifies, for the block with this key.
abbrev pub Ballot : Net → Text → VoteMsg → Type 0
Ballot net block_hex v = (verify_vote net v ≡ true) × (hex_encode v.payload.block ≡ block_hex)

-- No two votes of one peer.
abbrev pub DistinctPeers : List VoteMsg → Type 0
DistinctPeers [] = Unit
DistinctPeers (v ∷ vs) = All (λ w. w.payload.peer ≢ v.payload.peer) vs × DistinctPeers vs

-- A certificate of at least `q` votes that verify, by different peers, for its block.
pub record Certified (net : Net) (q : ℕ) (e : Text × QcMsg) : Type 0 where
  pub enough : q ≤ length e.1.votes
  pub ballots : All (Ballot net e.0) e.1.votes
  pub distinct : DistinctPeers e.1.votes

-- What the service sends besides commits.
abbrev pub IsReport : Event → Type 0
IsReport (commit_sent m) = ⊥
IsReport _ = Unit

pub data Step (net : Net) (q : ℕ) : L2 → L2 → Type 0 where
  note :
      (s : L2) (b : Text) (h : ℤ) (p : Text) (now : ℕ)
      → IsHex p
      → Step net q s (note_block s b h p now)
  info :
      (s : L2) (id parent : Bytes) (h : ℤ) (root : Bytes) (now : ℕ)
      → IsBytes parent
      → Step net q s (update_block_info s id parent h root now)
  mark : (s : L2) (b p : Text) → Step net q s (mark_vote_if_safe s b p).0
  sweep :
      (s : L2) (rest : Map (Unit {0}))
      → pick_loop s s.pending ≡ nothing rest
      → Step net q s (record s { pending = rest })
  take :
      (s : L2) (b : Text) (meta : BlockMeta) (rest : Map (Unit {0}))
      → pick_loop s s.pending ≡ picked b meta rest
      → Step net q s (take_pick s b rest)
  vote :
      (s : L2) (msg : VoteMsg) (now : ℕ)
      → verify_vote net msg ≡ true
      → IsBytes msg.payload.parent
      → Step net q s (add_vote s msg now).0
  store :
      (s : L2) (b : Text) (qc : QcMsg) (p : Text)
      → has b s.qcs ≡ false
      → is_empty b ≡ false
      → p ≡ hex_encode qc.parent
      → Certified net q (b, qc)
      → Step net q s (store_section s b qc p)
  commit : (s : L2) (b : Text) (now : ℕ) → Step net q s (check_commit_for net s b now)
  hear : (s : L2) (m : CommitMsg) → Step net q s (on_commit s (some m))
  quorum :
      (s : L2) (n : ℤ)
      → q ≤ (update_quorum_size s n).quorum_size
      → Step net q s (update_quorum_size s n)
  prune : (s : L2) (now : ℕ) → Step net q s (prune_expired s now)
  tell : (s : L2) (e : Event) → IsReport e → Step net q s (record s { sent = e ∷ s.sent })

pub data Reach (net : Net) (q : ℕ) (s : L2) : L2 → Type 0 where
  start : Reach net q s s
  next : {t u : L2} → Reach net q s t → Step net q t u → Reach net q s u

pub Reach-trans :
    {net : Net} {q : ℕ} {s t u : L2} → Reach net q s t → Reach net q t u → Reach net q s u
Reach-trans r start = r
Reach-trans r (next r' st) = next (Reach-trans r r') st

pub one : {net : Net} {q : ℕ} {s t : L2} → Step net q s t → Reach net q s t
one st = next start st
