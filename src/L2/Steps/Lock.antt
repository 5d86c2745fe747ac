-- ===== src/L2/Steps/Lock.antt =====
-- l2_checkpoint.go: the lock only rises, and only to descendants of the locked block.
use custom_consensus.Base.{
  ℕ, ◌<◌, ◌≡◌, ◌⊎◌, ◌∷◌, inl, inr, refl, false, Text, some, get, put, is_empty, arith, Bool-cases,
  ltb→lt,
}
use custom_consensus.Base.Int.{ℤ, pos, negsuc, ◌≤ℤ◌, ◌<ℤ◌, ltb_ℤ}
use custom_consensus.L2.State.{L2, Net, VoteMsg, QcMsg, update_quorum_size}
use custom_consensus.L2.Voting.{
  max_steps, note_block, update_block_info, mark_vote_if_safe, extends_locked,
}
use custom_consensus.L2.Voting.Ancestry.{Ancestor, extends_locked_iff}
use custom_consensus.L2.Certificates.{
  store_section, add_child, update_lock_for_qc, lock_height, check_commit_for, on_commit,
  prune_expired,
}
use custom_consensus.L2.Handlers.{add_vote, take_pick}
use custom_consensus.L2.Steps.{
  Step, note, info, mark, sweep, take, vote, store, commit, hear, quorum, prune, tell, Reach, start,
  next,
}

abbrev SameLock : L2 → L2 → Type 0
SameLock s t = (t.locked_blk ≡ s.locked_blk) × (t.locked_h ≡ s.locked_h)

-- The lock moved up to a descendant of the locked block.
abbrev Raised : L2 → L2 → Type 0
Raised s t =
    (s.locked_h <ℤ t.locked_h)
    × ((n : ℕ) × (n < max_steps) × Ancestor s.blocks s.locked_blk n t.locked_blk)

-- `t` has the lock of `s`, or a raised one.
abbrev pub Follows : L2 → L2 → Type 0
Follows s t = (is_empty t.locked_blk ≡ false) × (SameLock s t ⊎ Raised s t)

same : (s t : L2) → SameLock s t → is_empty s.locked_blk ≡ false → Follows s t
same s t e locked = (ground arith, inl e)

note_block_lock :
    (s : L2) (b : Text) (h : ℤ) (p : Text) (now : ℕ) → SameLock s (note_block s b h p now)
unfolding note_block
note_block_lock s b h p now = ground arith

add_vote_lock : (s : L2) (msg : VoteMsg) (now : ℕ) → SameLock s (add_vote s msg now).0
unfolding add_vote note_block
add_vote_lock s msg now = ground arith

check_commit_lock :
    (net : Net) (s : L2) (b : Text) (now : ℕ) → SameLock s (check_commit_for net s b now)
unfolding check_commit_for
check_commit_lock net s b now = ground arith

update_lock-Follows :
    (u : L2) (b : Text) (h : ℤ)
    → is_empty b ≡ false
    → is_empty u.locked_blk ≡ false
    → Follows u (update_lock_for_qc u b h)
unfolding update_lock_for_qc
update_lock-Follows u b h full locked = elim (Bool-cases (ltb_ℤ u.locked_h height)) [
  | inr low ↦ rw (locked, low) (locked, inl (refl, refl))
  | inl high ↦ elim (Bool-cases (extends_locked u b)) [
    | inr fork ↦ rw (locked, high, fork) (locked, inl (refl, refl))
    | inl extends ↦
        rw (locked, high, extends)
          (full, inr (ltb→lt _ _ high, (extends_locked_iff u b full locked).0 extends))
  ]
]
  where
    height : ℤ
    height = lock_height (get b u.blocks) h

store_section-Follows :
    (s : L2) (b : Text) (qc : QcMsg) (p : Text)
    → is_empty b ≡ false
    → is_empty s.locked_blk ≡ false
    → Follows s (store_section s b qc p)
unfolding store_section
store_section-Follows s b qc p full =
    update_lock-Follows (record s { qcs = put b qc s.qcs; child_qcs = add_child s p b }) b qc.height
      full

-- In every step from a state with a lock, the lock stays, or it rises strictly and moves to a descendant of the locked block,
-- fewer than 1024 known parents away; and it is never given up.
pub Step-Follows :
    {net : Net} {q : ℕ} {s t : L2} → Step net q s t → is_empty s.locked_blk ≡ false → Follows s t
unfolding update_block_info mark_vote_if_safe on_commit update_quorum_size prune_expired take_pick
Step-Follows (note s b h p now _) = same s (note_block s b h p now) (note_block_lock s b h p now)
Step-Follows (info s id parent h root now _) =
    same s (update_block_info s id parent h root now) (ground arith)
Step-Follows (mark s b p) = same s (mark_vote_if_safe s b p).0 (ground arith)
Step-Follows (sweep s rest _) = same s (record s { pending = rest }) (refl, refl)
Step-Follows (take s b meta rest _) = same s (take_pick s b rest) (refl, refl)
Step-Follows (vote s msg now _ _) = same s (add_vote s msg now).0 (add_vote_lock s msg now)
Step-Follows (store s b qc p _ full _ _) = store_section-Follows s b qc p full
Step-Follows {net} (commit s b now) =
    same s (check_commit_for net s b now) (check_commit_lock net s b now)
Step-Follows (hear s m) = same s (on_commit s (some m)) (ground arith)
Step-Follows (quorum s n _) = same s (update_quorum_size s n) (quorum_lock n)
  where
    quorum_lock : (n : ℤ) → SameLock s (update_quorum_size s n)
    quorum_lock (pos n) = ground arith
    quorum_lock (negsuc n) = (refl, refl)
Step-Follows (prune s now) = same s (prune_expired s now) (refl, refl)
Step-Follows (tell s e _) = same s (record s { sent = e ∷ s.sent }) (refl, refl)

-- Over any interleaving a lock, once set, is never given up and its height never falls.
pub Reach-locked_h :
    {net : Net} {q : ℕ} {s t : L2}
    → Reach net q s t
    → is_empty s.locked_blk ≡ false
    → (is_empty t.locked_blk ≡ false) × (s.locked_h ≤ℤ t.locked_h)
Reach-locked_h start locked = (locked, omega arith)
Reach-locked_h {s} (next {t} {u} r st) locked =
    let (there, low) = Reach-locked_h r locked in
    let (kept, moved) = Step-Follows st there in (kept, rises moved low)
  where
    rises : SameLock t u ⊎ Raised t u → s.locked_h ≤ℤ t.locked_h → s.locked_h ≤ℤ u.locked_h
    rises (inl (_, e)) low = rw e low
    rises (inr (up, _)) low = omega arith
