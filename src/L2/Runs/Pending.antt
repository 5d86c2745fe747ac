-- ===== src/L2/Runs/Pending.antt =====
-- l2_checkpoint.go: which sections leave `s.pending` alone, and what the choice in
-- `retryPendingVotes` takes from it.
use custom_consensus.Base.{ℕ, suc, ◌+◌, ◌≤◌, ◌≡◌, refl, [], ◌∷◌, Text, Map, length, arith}
use custom_consensus.Base.Int.{ℤ}
use custom_consensus.L2.State.{L2, Net, VoteMsg, QcMsg}
use custom_consensus.L2.Voting.{
  note_block, Choice, dropped, left, chosen, choose, Pick, nothing, picked, keep_entry, pick_loop,
}
use custom_consensus.L2.Certificates.{store_section, update_lock_for_qc, check_commit_for}
use custom_consensus.L2.Handlers.{add_vote}

pub note_block-pending :
    (s : L2) (b : Text) (h : ℤ) (p : Text) (now : ℕ) → (note_block s b h p now).pending ≡ s.pending
unfolding note_block
note_block-pending s b h p now = ground arith

pub add_vote-pending :
    (s : L2) (msg : VoteMsg) (now : ℕ) → (add_vote s msg now).0.pending ≡ s.pending
unfolding add_vote note_block
add_vote-pending s msg now = ground arith

pub store_section-pending :
    (s : L2) (b : Text) (qc : QcMsg) (p : Text) → (store_section s b qc p).pending ≡ s.pending
unfolding store_section update_lock_for_qc
store_section-pending s b qc p = ground arith

pub check_commit_for-pending :
    (net : Net) (s : L2) (b : Text) (now : ℕ) → (check_commit_for net s b now).pending ≡ s.pending
unfolding check_commit_for
check_commit_for-pending net s b now = ground arith

-- What stays pending after the loop.
abbrev pub stays : Pick → Map (Unit {0})
stays (nothing rest) = rest
stays (picked b meta rest) = rest

-- A chosen block leaves the pending ones.
abbrev pub taken : Pick → ℕ
taken (nothing rest) = 0
taken (picked b meta rest) = 1

keep_entry_lem :
    (b : Text) (r : Pick)
    → (length (stays (keep_entry b r)) ≤ length (stays r) + 1) × (taken (keep_entry b r) ≡ taken r)
unfolding keep_entry
keep_entry_lem b (nothing rest) = (omega arith, refl)
keep_entry_lem b (picked c meta rest) = (omega arith, refl)

pub pick_loop-length :
    (s : L2) (m : Map (Unit {0}))
    → length (stays (pick_loop s m)) + taken (pick_loop s m) ≤ length m
unfolding pick_loop
pick_loop-length s [] = omega arith
pick_loop-length s ((b, u) ∷ rest) = by_choice (choose s b) refl (pick_loop-length s rest)
  where
    by_choice :
        (c : Choice)
        → choose s b ≡ c
        → length (stays (pick_loop s rest)) + taken (pick_loop s rest) ≤ length rest
        → length (stays (pick_loop s ((b, u) ∷ rest))) + taken (pick_loop s ((b, u) ∷ rest))
          ≤ suc (length rest)
    by_choice dropped e ih = rw (e, pick_loop) (omega arith)
    by_choice (chosen meta) e ih = rw (e, pick_loop) (omega arith)
    by_choice left e ih = rw (e, pick_loop) (omega (arith, keep_entry_lem b (pick_loop s rest)))
