-- ===== src/L2/Tests/Handlers.antt =====
-- l2_checkpoint.go: the handlers at concrete inputs.
use custom_consensus.Base.{
  ℕ, ◌≡◌, ◌↔◌, refl, true, [], ◌∷◌, text_eq, is_empty, hex_encode, has, get, put, length, All,
  arith, text_eq_refl,
}
use custom_consensus.Base.Int.{pos}
use custom_consensus.L2.State.{L2, VoteMsg, peers_of, meta_of, start_l2, has_voted}
use custom_consensus.L2.Voting.{note_block, mark_vote_if_safe, safe_to_vote, extends_locked, walk}
use custom_consensus.L2.Certificates.{
  verify_vote, verify_qc, store_section, update_lock_for_qc, add_child,
}
use custom_consensus.L2.Handlers.{add_vote, built_qc, retry_pending_votes}
use custom_consensus.L2.Steps.{vote, mark, Reach, next, one}
use custom_consensus.L2.Steps.Ledger.{Inv}
use custom_consensus.L2.Steps.Invariant.{Reach-Inv, Step-Inv}
use custom_consensus.L2.Quorum.Accepted.{Names, verify_qc-built_qc}
use custom_consensus.L2.Runs.Handled.{Returns}
use custom_consensus.L2.Runs.Retried.{retry_pending_votes_run}
use custom_consensus.L2.Tests.{
  open_net, vote_by, first_state, block_a, block_b, key_of, first_Inv, noted-Inv, store_a, stored_a,
}

abbrev ballot : ℕ → VoteMsg
ballot peer = vote_by peer block_a [] (pos 1)

abbrev voted : L2
voted = (add_vote (add_vote (add_vote first_state (ballot 1) 0).0 (ballot 2) 0).0 (ballot 3) 0).0

ballot_valid : (n : ℕ) → verify_vote open_net (ballot n) ≡ true
unfolding verify_vote is_empty
ballot_valid n = ground (arith, text_eq_refl (n ∷ []))

voted_run : Reach open_net 3 first_state voted
voted_run =
    next
      (next (one (vote first_state (ballot 1) 0 (ballot_valid 1) tt))
        (vote _ (ballot 2) 0 (ballot_valid 2) tt))
      (vote _ (ballot 3) 0 (ballot_valid 3) tt)

voted-Inv : Inv open_net 3 voted
voted-Inv = Reach-Inv open_net 3 voted_run first_Inv

voted_peers : (length (peers_of voted (key_of block_a)) ≡ 3) × (voted.quorum_size ≡ 3)
unfolding add_vote note_block start_l2 peers_of hex_encode text_eq has get put
voted_peers = (refl, refl)

verify_qc-built_qc_example :
    (verify_qc open_net first_state (built_qc open_net voted (key_of block_a) block_a 9) ≡ true)
    ↔ All
        (Names (meta_of voted (key_of block_a)).parent_hex)
        (built_qc open_net voted (key_of block_a) block_a 9).votes
unfolding start_l2
verify_qc-built_qc_example =
    verify_qc-built_qc open_net 3 voted first_state block_a 9 voted-Inv refl
      (omega (arith, voted_peers.0))

-- A block on an unknown parent waits.
abbrev waiting : L2
waiting = (mark_vote_if_safe stored_a (key_of block_b) (key_of (99 ∷ []))).0

waiting-Inv : Inv open_net 3 waiting
waiting-Inv =
    Step-Inv open_net 3 (mark stored_a (key_of block_b) (key_of (99 ∷ [])))
      (Step-Inv open_net 3 store_a noted-Inv)

one_pending : length waiting.pending ≡ 1
unfolding mark_vote_if_safe store_section update_lock_for_qc add_child start_l2 hex_encode has get
    put is_empty text_eq extends_locked walk note_block safe_to_vote has_voted
one_pending = refl

retry_pending_votes_run_example :
    Returns open_net 3 waiting (retry_pending_votes open_net 5 2 waiting)
retry_pending_votes_run_example =
    retry_pending_votes_run open_net 3 5 waiting 2 (omega (arith, one_pending)) waiting-Inv
