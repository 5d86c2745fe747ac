-- ===== src/L2/Steps/Invariant.antt =====
-- l2_checkpoint.go: the invariant holds after every interleaving of the service's locked sections.
use custom_consensus.Base.{
  ℕ, ◌≤◌, refl, some, none, Option, Bytes, IsBytes, Text, Map, ◌∷◌, get, has, hex_encode, All-put,
  Bool-cases, inl, inr, Bool, ltb, is_empty,
}
use custom_consensus.Base.Int.{ℤ, pos, negsuc}
use custom_consensus.L2.State.{
  L2, Net, QcMsg, CommitMsg, BlockMeta, Event, commit_sent, start_l2, update_quorum_size, has_voted,
}
use custom_consensus.L2.Voting.{update_block_info, mark_vote_if_safe, safe_to_vote}
use custom_consensus.L2.Certificates.{prune_expired, on_commit, commit_meta}
use custom_consensus.L2.Handlers.{take_pick}
use custom_consensus.L2.Steps.{
  IsReport, Step, note, info, mark, sweep, take, vote, store, commit, hear, quorum, prune, tell,
  Reach, start, next,
}
use custom_consensus.L2.Steps.Maps.{drop_keys-Distinct, drop_keys-All, thin_out-All}
use custom_consensus.L2.Steps.Ledger.{Tally, KidsLinked, CommitOk, Inv}
use custom_consensus.L2.Steps.Commits.{
  note_block-Inv, add_vote-Inv, store_section-Inv, check_commit_for-Inv, add_event-All,
}

commit_meta-Ok :
    (qcs : Map QcMsg) (m : CommitMsg) (o : Option BlockMeta) → CommitOk qcs (commit_meta m o)
unfolding commit_meta
commit_meta-Ok qcs m none = tt
commit_meta-Ok qcs m (some meta) = tt

module _ (net : Net) (q : ℕ) where
  update_block_info-Inv :
      (s : L2) (id parent : Bytes) (h : ℤ) (root : Bytes) (now : ℕ)
      → IsBytes parent
      → Inv net q s
      → Inv net q (update_block_info s id parent h root now)
  unfolding update_block_info
  update_block_info-Inv s id parent h root now bytes v = elim (Bool-cases (is_empty id)) [
    | inl empty ↦ rw (empty, update_block_info) v
    | inr full ↦
        rw (full, update_block_info)
          (record {
            quorum_min = v.quorum_min;
            metas = All-put _ (hex_encode id) _ s.blocks (parent, bytes, refl) v.metas;
            tallies = v.tallies;
            certs = v.certs;
            links = v.links;
            commits = v.commits;
          })
  ]

  prune_expired-Inv : (s : L2) (now : ℕ) → Inv net q s → Inv net q (prune_expired s now)
  unfolding prune_expired
  prune_expired-Inv s now v = record {
    quorum_min = v.quorum_min;
    metas = drop_keys-All _ _ s.blocks v.metas;
    tallies =
        thin_out-All (Tally net) _ (λ k m t. (drop_keys-Distinct _ m t.0, drop_keys-All _ _ m t.1))
          s.votes v.tallies;
    certs = v.certs;
    links =
        thin_out-All (KidsLinked s.qcs) _ (λ k m t. drop_keys-All _ _ m t) _
          (drop_keys-All _ _ s.child_qcs v.links);
    commits = v.commits;
  }

  on_commit-Inv : (s : L2) (m : CommitMsg) → Inv net q s → Inv net q (on_commit s (some m))
  unfolding on_commit
  on_commit-Inv s m v = elim (Bool-cases (has (hex_encode m.block) s.committed)) [
    | inl old ↦ rw (old, on_commit) v
    | inr new ↦
        rw (new, on_commit)
          (record {
            quorum_min = v.quorum_min;
            metas = v.metas;
            tallies = v.tallies;
            certs = v.certs;
            links = v.links;
            commits =
                add_event-All net q s.qcs _ (commit_meta m (get (hex_encode m.block) s.blocks))
                  s.sent (commit_meta-Ok s.qcs m (get (hex_encode m.block) s.blocks)) v.commits;
          })
  ]

  -- The votes of the node itself play no part in the invariant.
  own_votes-Inv :
      (s : L2) (rest : Map (Unit {0})) (voted : Map Bool)
      → Inv net q s
      → Inv net q (record s { pending = rest; sent_vote = voted })
  own_votes-Inv s rest voted v = record {
    quorum_min = v.quorum_min;
    metas = v.metas;
    tallies = v.tallies;
    certs = v.certs;
    links = v.links;
    commits = v.commits;
  }

  mark-Inv : (s : L2) (b p : Text) → Inv net q s → Inv net q (mark_vote_if_safe s b p).0
  unfolding mark_vote_if_safe
  mark-Inv s b p v = elim (Bool-cases (has_voted s b)) [
    | inl old ↦ rw (old, mark_vote_if_safe) v
    | inr new ↦ elim (Bool-cases (safe_to_vote s p)) [
      | inl safe ↦ rw (new, safe, mark_vote_if_safe) (own_votes-Inv s _ _ v)
      | inr unsafe ↦ rw (new, unsafe, mark_vote_if_safe) (own_votes-Inv s _ _ v)
    ]
  ]

  quorum-Inv :
      (s : L2) (n : ℤ)
      → q ≤ (update_quorum_size s n).quorum_size
      → Inv net q s
      → Inv net q (update_quorum_size s n)
  unfolding update_quorum_size
  quorum-Inv s (negsuc n) h v = v
  quorum-Inv s (pos n) h v = elim (Bool-cases (ltb 0 n)) [
    | inr bad ↦ rw (bad, update_quorum_size) v
    | inl good ↦
        rw (good, update_quorum_size)
          (record {
            quorum_min = rw (good, update_quorum_size) at h;
            metas = v.metas;
            tallies = v.tallies;
            certs = v.certs;
            links = v.links;
            commits = v.commits;
          })
  ]

  tell-Inv :
      (s : L2) (e : Event) → IsReport e → Inv net q s → Inv net q (record s { sent = e ∷ s.sent })
  tell-Inv s e r v = record {
    quorum_min = v.quorum_min;
    metas = v.metas;
    tallies = v.tallies;
    certs = v.certs;
    links = v.links;
    commits = (report-Ok e r, v.commits);
  }
    where
      report-Ok : (e : Event) → IsReport e → CommitOk s.qcs e
      report-Ok (commit_sent m) r = absurd r
      report-Ok (Event.vote_sent m) r = tt
      report-Ok (Event.qc_sent m) r = tt
      report-Ok (Event.descendant_qc p c) r = tt
      report-Ok (Event.block_meta b p h t) r = tt

  -- Each locked section keeps the invariant.
  pub Step-Inv : {s t : L2} → Step net q s t → Inv net q s → Inv net q t
  unfolding take_pick
  Step-Inv (note s b h p now hex) v = note_block-Inv net q s b h p now hex v
  Step-Inv (info s id parent h root now bytes) v =
      update_block_info-Inv s id parent h root now bytes v
  Step-Inv (mark s b p) v = mark-Inv s b p v
  Step-Inv (sweep s rest _) v = own_votes-Inv s rest s.sent_vote v
  Step-Inv (take s b meta rest _) v = own_votes-Inv s rest _ v
  Step-Inv (vote s msg now valid bytes) v = add_vote-Inv net q s msg now valid bytes v
  Step-Inv (store s b qc p fresh _ e c) v = store_section-Inv net q s b qc p fresh e c v
  Step-Inv (commit s b now) v = check_commit_for-Inv net q s b now v
  Step-Inv (hear s m) v = on_commit-Inv s m v
  Step-Inv (quorum s n h) v = quorum-Inv s n h v
  Step-Inv (prune s now) v = prune_expired-Inv s now v
  Step-Inv (tell s e r) v = tell-Inv s e r v

  pub Reach-Inv : {s t : L2} → Reach net q s t → Inv net q s → Inv net q t
  Reach-Inv start v = v
  Reach-Inv (next r st) v = Step-Inv st (Reach-Inv r v)

  pub start_l2-Inv :
      (size expiry : ℤ) → q ≤ (start_l2 size expiry).quorum_size → Inv net q (start_l2 size expiry)
  unfolding start_l2
  start_l2-Inv size expiry h = record {
    quorum_min = h;
    metas = tt;
    tallies = tt;
    certs = tt;
    links = tt;
    commits = tt;
  }
