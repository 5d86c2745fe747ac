-- ===== src/L2/Tests.antt =====
-- l2_checkpoint.go at concrete inputs: three peers, and a chain of three blocks.
mod Handlers
mod Votes
use custom_consensus.Base.{
  ℕ, suc, ◌+◌, ◌*◌, ◌/◌, ◌-◌, ◌≤◌, ◌<◌, ◌≡◌, ◌≢◌, ◌↔◌, ◌⊎◌, text_eq_iff, refl, true, false, some,
  none, Bool, Option, List, [], ◌∷◌, Bytes, Text, IsBytes, is_empty, hex_encode, hex_decode, has,
  get, put, length, All, arith, text_eq,
}
use custom_consensus.Base.Int.{ℤ, pos, negsuc, ◌≤ℤ◌, ◌<ℤ◌}
use custom_consensus.L2.State.{
  kids_of, commit_sent, L2, Net, VotePayload, VoteMsg, VoteRecord, QcMsg, BlockMeta, start_l2,
  hotstuff_quorum_size, peers_of, meta_of, has_voted, step_prepare,
}
use custom_consensus.L2.Voting.{
  max_steps, note_block, mark_vote_if_safe, walk, extends_locked, safe_to_vote,
}
use custom_consensus.L2.Certificates.{
  verify_vote, verify_votes, verify_qc, store_section, check_commit_for, grand_chain, any_key,
  add_event, record_commit, commit_known, update_lock_for_qc, add_child,
}
use custom_consensus.L2.Handlers.{add_vote, built_qc, retry_pending_votes, on_vote, on_qc, on_block}
use custom_consensus.L2.Steps.{
  Certified, Step, note, store, commit, vote, Reach, start, next, Reach-trans,
}
use custom_consensus.L2.Steps.Ledger.{Inv}
use custom_consensus.L2.Steps.Invariant.{Step-Inv, Reach-Inv}
use custom_consensus.L2.Steps.Announced.{SoundCommit, announced_commits_sound}
use custom_consensus.L2.Steps.Lock.{Reach-locked_h, Step-Follows}
use custom_consensus.L2.Voting.Ancestry.{Ancestor, extends_locked_iff}
use custom_consensus.L2.Voting.Safety.{
  mark_vote_if_safe_once, mark_vote_height, mark_vote_conflicting,
}
use custom_consensus.L2.Quorum.{hotstuff_quorum_size_lem, verify_qc-lock_height}
use custom_consensus.L2.Quorum.Votes.{verify_qc-Certified}

-- A key is the name of its peer, and every signature verifies.
abbrev pub open_net : Net
open_net = record {
  peer_of_key = some;
  key_verifies = λ _ _ _. true;
  encode_payload = λ p. some p.block;
  encodes_vote = λ _. true;
  encodes_qc = λ _. true;
  encodes_commit = λ _. true;
  own_key = some (1 ∷ []);
  own_sign = λ b. some b;
  own_id = 1 ∷ [];
}

abbrev pub vote_by : ℕ → Bytes → Bytes → ℤ → VoteMsg
vote_by peer block parent height = record {
  payload = record {
    block = block;
    parent = parent;
    height = height;
    step = 1;
    pub_key = peer ∷ [];
    peer = peer ∷ [];
  };
  sig = [];
}

abbrev pub qc_of : Bytes → Bytes → ℤ → QcMsg
qc_of block parent height = record {
  block = block;
  parent = parent;
  height = height;
  step = 1;
  votes =
      vote_by 1 block parent height
      ∷ vote_by 2 block parent height
      ∷ vote_by 3 block parent height
      ∷ [];
  created_by = 1 ∷ [];
  created_at = 0;
}

abbrev pub first_state : L2
first_state = start_l2 (pos 3) (pos 1)

abbrev pub block_a : Bytes
block_a = 10 ∷ []

abbrev pub block_b : Bytes
block_b = 11 ∷ []

abbrev pub block_c : Bytes
block_c = 12 ∷ []

abbrev pub qc_a : QcMsg
qc_a = qc_of block_a [] (pos 1)

abbrev pub qc_b : QcMsg
qc_b = qc_of block_b block_a (pos 2)

abbrev qc_c : QcMsg
qc_c = qc_of block_c block_b (pos 3)

pub qc_accepted :
    (verify_qc open_net first_state qc_a ≡ true)
    × (verify_qc open_net first_state qc_b ≡ true)
    × (verify_qc open_net first_state qc_c ≡ true)
unfolding verify_qc verify_votes verify_vote start_l2 text_eq hex_encode has get put is_empty
qc_accepted = (refl, refl, refl)

-- A vote twice, or by another peer than the key's, or too few votes.
qc_refused :
    (verify_qc open_net first_state
        (record qc_a { votes = vote_by 1 block_a [] (pos 1) ∷ qc_a.votes })
      ≡ false)
    × (verify_qc open_net first_state (record qc_a { votes = vote_by 1 block_a [] (pos 1) ∷ [] })
        ≡ false)
    × (verify_qc open_net first_state (record qc_a { votes = qc_b.votes }) ≡ false)
unfolding verify_qc verify_votes verify_vote start_l2 text_eq hex_encode has get put is_empty
qc_refused = (refl, refl, refl)

pub first_quorum : 3 ≤ first_state.quorum_size
unfolding start_l2
first_quorum = omega arith

pub first_Inv : Inv open_net 3 first_state
unfolding start_l2
first_Inv = record {
  quorum_min = omega arith;
  metas = tt;
  tallies = tt;
  certs = tt;
  links = tt;
  commits = tt;
}

abbrev pub key_of : Bytes → Text
key_of block = hex_encode block

-- The blocks are seen, their certificates are stored, and the first block is committed.
abbrev pub noted : L2
noted =
    note_block
      (note_block (note_block first_state (key_of block_a) (pos 1) (key_of []) 0) (key_of block_b)
        (pos 2) (key_of block_a) 0)
      (key_of block_c) (pos 3) (key_of block_b) 0

abbrev pub stored_a : L2
stored_a = store_section noted (key_of block_a) qc_a (key_of [])

abbrev stored_b : L2
stored_b = store_section stored_a (key_of block_b) qc_b (key_of block_a)

abbrev stored_c : L2
stored_c = store_section stored_b (key_of block_c) qc_c (key_of block_b)

abbrev committed_a : L2
committed_a = check_commit_for open_net stored_c (key_of block_a) 7

noted_run : Reach open_net 3 first_state noted
noted_run =
    next
      (next (next start (note first_state (key_of block_a) (pos 1) (key_of []) 0 ([], tt, refl)))
        (note _ (key_of block_b) (pos 2) (key_of block_a) 0 (block_a, (omega arith, tt), refl)))
      (note _ (key_of block_c) (pos 3) (key_of block_b) 0 (block_b, (omega arith, tt), refl))

pub store_a : Step open_net 3 noted stored_a
unfolding store_section update_lock_for_qc add_child start_l2 hex_encode has get put is_empty
    text_eq extends_locked walk note_block
store_a =
    store noted (key_of block_a) qc_a (key_of []) refl refl refl
      (verify_qc-Certified open_net 3 first_state qc_a first_quorum qc_accepted.0)

store_b : Step open_net 3 stored_a stored_b
unfolding store_section update_lock_for_qc add_child start_l2 hex_encode has get put is_empty
    text_eq extends_locked walk note_block
store_b =
    store stored_a (key_of block_b) qc_b (key_of block_a) refl refl refl
      (verify_qc-Certified open_net 3 first_state qc_b first_quorum qc_accepted.1)

store_c : Step open_net 3 stored_b stored_c
unfolding store_section update_lock_for_qc add_child start_l2 hex_encode has get put is_empty
    text_eq extends_locked walk note_block
store_c =
    store stored_b (key_of block_c) qc_c (key_of block_b) refl refl refl
      (verify_qc-Certified open_net 3 first_state qc_c first_quorum qc_accepted.2)

chain_rest : Reach open_net 3 stored_a committed_a
chain_rest = next (next (next start store_b) store_c) (commit stored_c (key_of block_a) 7)

chain_run : Reach open_net 3 first_state committed_a
chain_run = Reach-trans (next noted_run store_a) chain_rest

chain_commits :
    committed_a.sent
    ≡ commit_sent (record { block = block_a; height = pos 1; committed_at = 7 }) ∷ []
unfolding store_section update_lock_for_qc add_child start_l2 hex_encode has get put is_empty
    text_eq extends_locked walk note_block check_commit_for grand_chain any_key kids_of hex_decode
    add_event record_commit commit_known
chain_commits = refl

-- The lock ends at the third block.
chain_lock : (committed_a.locked_blk ≡ key_of block_c) × (committed_a.locked_h ≡ pos 3)
unfolding store_section update_lock_for_qc add_child start_l2 hex_encode has get put is_empty
    text_eq extends_locked walk note_block check_commit_for grand_chain any_key kids_of hex_decode
    add_event record_commit commit_known
chain_lock = (refl, refl)

pub noted-Inv : Inv open_net 3 noted
noted-Inv = Reach-Inv open_net 3 noted_run first_Inv

announced_commits_sound_example : All (SoundCommit open_net 3 committed_a.qcs) committed_a.sent
announced_commits_sound_example =
    announced_commits_sound open_net 3 (pos 3) (pos 1) first_quorum chain_run

Step-Inv_example : Inv open_net 3 stored_a
Step-Inv_example = Step-Inv open_net 3 store_a noted-Inv

verify_qc-Certified_example : Certified open_net 3 (key_of block_a, qc_a)
verify_qc-Certified_example =
    verify_qc-Certified open_net 3 first_state qc_a first_quorum qc_accepted.0

pub stored_a-locked : is_empty stored_a.locked_blk ≡ false
unfolding store_section update_lock_for_qc add_child start_l2 hex_encode has get put is_empty
    text_eq extends_locked walk note_block
stored_a-locked = refl

Reach-locked_h_example :
    (is_empty committed_a.locked_blk ≡ false) × (stored_a.locked_h ≤ℤ committed_a.locked_h)
Reach-locked_h_example = Reach-locked_h chain_rest stored_a-locked

first_unlocked :
    (is_empty first_state.locked_blk ≡ true) × (has (key_of block_a) first_state.blocks ≡ false)
unfolding start_l2 is_empty has get
first_unlocked = (refl, refl)
