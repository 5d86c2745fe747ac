-- ===== src/L2/Quorum.antt =====
-- l2_checkpoint.go: quorums, and which certificates a node accepts.
pub mod Votes
pub mod Built
pub mod Accepted
use custom_consensus.Base.{
  ℕ, Bool, true, false, [], ◌∙◌, is_empty, has, hex_encode, get-put_self, if◌then◌else◌, ◌+◌, ◌-◌,
  ◌*◌, ◌/◌, ◌≤◌, ◌<◌, ◌≡◌, ◌⊎◌, inl, inr, Bool-cases, ◌==◌, refl, arith,
}
use custom_consensus.Base.Int.{ℤ, pos, negsuc, ltb_ℤ}
use custom_consensus.L2.State.{L2, Net, QcMsg, hotstuff_quorum_size}
use custom_consensus.L2.Certificates.{verify_qc, store_section, update_lock_for_qc, lock_height}
use custom_consensus.L2.Voting.{note_block}

-- For three or more validators the quorum is at least two thirds of them and at most all of them, and
-- any two quorums share more validators than the (n - 1) / 3 that may be faulty; unless there are
-- three validators it is the least number of at least two thirds.
pub hotstuff_quorum_size_lem :
    (n : ℕ)
    → 3 ≤ n
    → let quorum = hotstuff_quorum_size (pos n) in
      (2 * n ≤ 3 * quorum)
      × (quorum ≤ n)
      × (n + (n - 1) / 3 + 1 ≤ 2 * quorum)
      × ((n ≡ 3) ⊎ (3 * quorum < 2 * n + 3))
unfolding hotstuff_quorum_size
hotstuff_quorum_size_lem n h = (ground arith, ground arith, ground arith, tight)
  where
    tight : (n ≡ 3) ⊎ (3 * hotstuff_quorum_size (pos n) < 2 * n + 3)
    tight = elim (Bool-cases (n == 3)) [
      | inl three ↦ inl (ground arith)
      | inr more ↦ inr (ground arith)
    ]

verify_qc_height :
    (net : Net) (s : L2) (qc : QcMsg) (h : ℤ)
    → verify_qc net s (record qc { height = h }) ≡ verify_qc net s qc
unfolding verify_qc
verify_qc_height net s qc h = refl

-- The height of the lock is up to who relays a certificate: to a node without a lock that does not
-- know the block, an accepted certificate with its height replaced by any other is accepted as well,
-- and then locks the node at that height.
pub verify_qc-lock_height :
    (net : Net) (s : L2) (qc : QcMsg) (h : ℤ) (now : ℕ)
    → verify_qc net s qc ≡ true
    → is_empty s.locked_blk ≡ true
    → has (hex_encode qc.block) s.blocks ≡ false
    → let b = hex_encode qc.block in
      let p = hex_encode qc.parent in
      let forged = record qc { height = h } in
      (verify_qc net s forged ≡ true)
      × ((store_section (note_block s b h p now) b forged p).locked_h ≡ h)
unfolding store_section update_lock_for_qc lock_height note_block
verify_qc-lock_height net s qc h now accepted unlocked unknown =
    let b = hex_encode qc.block in
    (
      verify_qc_height net s qc h ∙ accepted,
      rw (unknown, unlocked)
          (rw
            (get-put_self b
              (record {
                height = h;
                parent_hex = hex_encode qc.parent;
                first_seen = now;
                tx_root = [];
              })
              s.blocks)
            (either (ltb_ℤ h h))),
    )
  where
    either : (t : Bool) → (if t then h else h) ≡ h
    either true = refl
    either false = refl
