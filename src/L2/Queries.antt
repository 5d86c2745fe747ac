-- ===== src/L2/Queries.antt =====
-- l2_checkpoint.go: what the HTTP layer reads.
use custom_consensus.Base.{
  ℕ, Bool, Option, [], ◌∷◌, length, Bytes, Map, get, has, hex_encode, if◌then◌else◌,
}
use custom_consensus.Base.Int.{ℤ, pos, ltb_ℤ}
use custom_consensus.L2.State.{L2, QcMsg, CommitMsg, CommitInfo}

commit_loop : ℤ → Map CommitInfo → ℤ
commit_loop best [] = best
commit_loop best ((_, info) ∷ m) =
    commit_loop (if ltb_ℤ best info.height then info.height else best) m

-- `highestCommitLocked` and `LatestCommitHeight`
pub latest_commit_height : L2 → ℤ
unfolding commit_loop
latest_commit_height s = commit_loop (pos 0) s.committed

pub has_qc : L2 → Bytes → Bool
has_qc s block = has (hex_encode block) s.qcs

pub get_qc : L2 → Bytes → Option QcMsg
get_qc s block = get (hex_encode block) s.qcs

pub get_commit : L2 → Bytes → Option CommitMsg
get_commit s block = get (hex_encode block) s.commit_msg

pub record L2Status : Type 0 where
  pub tracked_blocks : ℕ
  pub quorum_certs : ℕ
  pub committed_blocks : ℕ
  pub latest_commit : ℤ

pub status : L2 → L2Status
status s = record {
  tracked_blocks = length s.blocks;
  quorum_certs = length s.qcs;
  committed_blocks = length s.committed;
  latest_commit = latest_commit_height s;
}
