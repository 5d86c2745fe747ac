-- ===== src/L2/Runs/Received.antt =====
-- l2_checkpoint.go: the handlers of votes, certificates and blocks return.
use custom_consensus.Base.{
  ℕ, ◌≤◌, ◌<◌, ◌≡◌, refl, some, inl, inr, Option, Text, Bytes, IsBytes, length, is_empty,
  hex_encode, arith, Bool-cases, del_small,
}
use custom_consensus.Base.Int.{ℤ}
use custom_consensus.L2.State.{L2, Net, VoteMsg, QcMsg}
use custom_consensus.L2.Voting.{note_block, mark_vote_if_safe}
use custom_consensus.L2.Voting.Safety.{mark_true}
use custom_consensus.L2.Certificates.{verify_qc}
use custom_consensus.L2.Handlers.{vote_for_block, on_block, on_vote, on_qc, retry_pending_votes}
use custom_consensus.L2.Steps.{IsHex, Step, note, mark, Reach, start, one, Reach-trans}
use custom_consensus.L2.Steps.Ledger.{Inv}
use custom_consensus.L2.Steps.Invariant.{Step-Inv}
use custom_consensus.L2.Quorum.Votes.{verify_qc-Certified, Certified-full}
use custom_consensus.L2.Runs.Pending.{note_block-pending}
use custom_consensus.L2.Runs.Handled.{
  stay, then-Run, step-Run, Returns, Works, store_qc-Run, consume_vote_run, publish_vote_run,
}
use custom_consensus.L2.Runs.Retried.{retry_pending_votes_run}

module _ (net : Net) (q now fuel : ℕ) where
  abbrev retry : L2 → Option L2
  retry = retry_pending_votes net now fuel

  retry-Works : (n : ℕ) → n < fuel → Works net q retry n
  retry-Works n small s h v = retry_pending_votes_run net q now s fuel (omega (arith, h, small)) v

  -- A vote message with byte fields, from a state in which the invariant holds, with fuel for one
  -- call more than there are pending blocks: the handler returns, and what it does is a sequence of
  -- the service's locked sections, which leaves no more blocks pending.
  pub on_vote_run :
      (s : L2) (msg : VoteMsg)
      → IsBytes msg.payload.parent
      → length s.pending < fuel
      → Inv net q s
      → Returns net q s (on_vote net retry s (some msg) now)
  unfolding on_vote
  on_vote_run s msg bytes small v =
      consume_vote_run net q retry (length s.pending) (retry-Works (length s.pending) small) s msg
        now (omega arith) v bytes

  -- A certificate message with byte fields, with quorum sizes of at least one, from a state in which the invariant holds, with fuel for one
  -- call more than there are pending blocks: the handler returns, and what it does is a sequence of
  -- the service's locked sections, which leaves no more blocks pending.
  pub on_qc_run :
      (s : L2) (msg : QcMsg)
      → IsBytes msg.parent
      → length s.pending < fuel
      → 0 < q
      → Inv net q s
      → Returns net q s (on_qc net retry s (some msg) now)
  unfolding on_qc
  on_qc_run s msg bytes small positive v = elim (Bool-cases (verify_qc net s msg)) [
    | inr bad ↦ (s, rw bad, stay net q s)
    | inl good ↦
        let b = hex_encode msg.block in
        let p = hex_encode msg.parent in
        let hex : IsHex p = (msg.parent, bytes, refl) in
        let st : Step net q s (note_block s b msg.height p now) = note s b msg.height p now hex in
        let r₀ = step-Run net q st (note_block-pending s b msg.height p now) in
        let certified = verify_qc-Certified net q s msg v.quorum_min good in
        let (t, flag, returned, r) =
          store_qc-Run net q retry (length s.pending) (retry-Works (length s.pending) small)
            (note_block s b msg.height p now) b msg p now r₀.settled (Step-Inv net q st v)
            (Certified-full net q b msg positive certified) refl certified in
        (t, rw (good, returned), then-Run net q r₀ r)
  ]

  vote_for_block_run :
      (s : L2) (b : Text) (h : ℤ) (p : Text)
      → IsHex p
      → length s.pending < fuel
      → Inv net q s
      → (t : L2) × (vote_for_block net retry s b h p now ≡ some t) × Reach net q s t
  unfolding vote_for_block
  vote_for_block_run s b h p hex small v =
      let s' = (mark_vote_if_safe s b p).0 in
      let st : Step net q s s' = mark s b p in
      elim (Bool-cases (mark_vote_if_safe s b p).1) [
        | inr refused ↦ (s', rw (refused, vote_for_block), one st)
        | inl safe ↦
            let fewer : length s'.pending ≤ length s.pending =
              rw (mark_true s b p safe) (del_small b s.pending) in
            let (t, returned, r) =
              publish_vote_run net q retry (length s.pending) (retry-Works (length s.pending) small)
                s' b h p now fewer (Step-Inv net q st v) hex in
            (t, rw (safe, returned, vote_for_block), Reach-trans (one st) r.steps)
      ]

  -- A block message with byte fields, from a state in which the invariant holds, with fuel for one
  -- call more than there are pending blocks: the handler returns, and what it does is a sequence of
  -- the service's locked sections.
  pub on_block_run :
      (s : L2) (hash prev_hash : Bytes) (h : ℤ)
      → IsBytes prev_hash
      → length s.pending < fuel
      → Inv net q s
      → (t : L2) × (on_block net retry s hash prev_hash h now ≡ some t) × Reach net q s t
  unfolding on_block
  on_block_run s hash prev_hash h bytes small v = elim (Bool-cases (is_empty hash)) [
    | inl empty ↦ (s, rw (empty, on_block), start)
    | inr full ↦
        let b = hex_encode hash in
        let p = hex_encode prev_hash in
        let hex : IsHex p = (prev_hash, bytes, refl) in
        let st : Step net q s (note_block s b h p now) = note s b h p now hex in
        let r₀ = step-Run net q st (note_block-pending s b h p now) in
        let (t, returned, r) =
          vote_for_block_run (note_block s b h p now) b h p hex (omega (arith, r₀.settled, small))
            (Step-Inv net q st v) in
        (t, rw (full, returned, on_block), Reach-trans (one st) r)
  ]
