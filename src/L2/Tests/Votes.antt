-- ===== src/L2/Tests/Votes.antt =====
-- l2_checkpoint.go, `markVoteIfSafe` with a lock on the first of three blocks.
use custom_consensus.Base.{
  ℕ, ◌<◌, ◌≡◌, ◌≢◌, ◌↔◌, text_eq_iff, refl, true, false, some, [], is_empty, hex_encode, has, get,
  put, arith, text_eq,
}
use custom_consensus.Base.Int.{pos}
use custom_consensus.L2.State.{BlockMeta, start_l2, has_voted}
use custom_consensus.L2.Voting.{note_block, walk, extends_locked, safe_to_vote}
use custom_consensus.L2.Certificates.{store_section, update_lock_for_qc, add_child}
use custom_consensus.L2.Voting.Ancestry.{Ancestor, extends_locked_iff}
use custom_consensus.L2.Tests.{block_a, block_b, block_c, key_of, stored_a, stored_a-locked}

extends_locked_iff_example :
    (extends_locked stored_a (key_of block_c) ≡ true)
    ↔ ((n : ℕ) × (n < 1024) × Ancestor stored_a.blocks stored_a.locked_blk n (key_of block_c))
unfolding is_empty hex_encode
extends_locked_iff_example = extends_locked_iff stored_a (key_of block_c) refl stored_a-locked

b_full : is_empty (key_of block_b) ≡ false
unfolding hex_encode is_empty
b_full = refl

abbrev meta_b : BlockMeta
meta_b = record { height = pos 2; parent_hex = key_of block_a; first_seen = 0; tx_root = [] }

b_known : get (key_of block_b) stored_a.blocks ≡ some meta_b
unfolding store_section update_lock_for_qc add_child start_l2 hex_encode has get put is_empty
    text_eq extends_locked walk note_block
b_known = refl

b_unlocked : key_of block_b ≢ stored_a.locked_blk
unfolding store_section update_lock_for_qc add_child start_l2 hex_encode has get put is_empty
    text_eq extends_locked walk note_block
b_unlocked e = ground (arith, text_eq_iff (key_of block_b) (key_of block_a))

not_voted :
    (has_voted stored_a (key_of block_a) ≡ false)
    × (has_voted stored_a (key_of block_c) ≡ false)
    × (safe_to_vote stored_a (key_of block_b) ≡ true)
unfolding store_section update_lock_for_qc add_child start_l2 hex_encode has get put is_empty
    text_eq extends_locked walk note_block safe_to_vote has_voted
not_voted = (refl, refl, refl)

keys_differ : key_of block_a ≢ key_of block_c
unfolding hex_encode text_eq
keys_differ e = ground (arith, text_eq_iff (key_of block_a) (key_of block_c))
