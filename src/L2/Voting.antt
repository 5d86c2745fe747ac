-- ===== src/L2/Voting.antt =====
-- l2_checkpoint.go: what the node has seen of the blocks, and when it may vote.
pub mod Ancestry
pub mod Safety
use custom_consensus.Base.{
  ℕ, zero, suc, Bool, true, false, ◌&&◌, Option, none, some, List, [], ◌∷◌, Bytes, Text, is_empty,
  text_eq, hex_encode, Map, get, put, del, has, ==_iff, ◌==◌, if◌then◌else◌,
}
use custom_consensus.Base.Int.{ℤ, leb_ℤ}
use custom_consensus.L2.State.{L2, BlockMeta, QcMsg, meta_of, has_voted}

-- The first sighting of a block keeps what `s.blocks` already holds.
unfoldable pub note_block : L2 → Text → ℤ → Text → ℕ → L2
note_block s block_hex height parent_hex now = if has block_hex s.blocks then s else record s {
  blocks =
      put block_hex
        (record { height = height; parent_hex = parent_hex; first_seen = now; tx_root = [] })
        s.blocks;
}

-- `UpdateBlockInfo`
unfoldable pub update_block_info : L2 → Bytes → Bytes → ℤ → Bytes → ℕ → L2
unfolding meta_of
update_block_info s block_id parent height tx_root now =
    let block_hex = hex_encode block_id in
    let old = meta_of s block_hex in
    let meta : BlockMeta = record {
      height = height;
      parent_hex = hex_encode parent;
      first_seen = if old.first_seen == 0 then now else old.first_seen;
      tx_root = if is_empty tx_root then old.tx_root else tx_root;
    } in
    if is_empty block_id then s else record s { blocks = put block_hex meta s.blocks }

-- The loop of `extendsLockedLocked`, with the steps left.
unfoldable pub walk : Map BlockMeta → Text → ℕ → Text → Bool
walk blocks target zero cur = false
walk blocks target (suc steps) cur =
    if is_empty cur then false else if text_eq cur target then true else elim (get cur blocks) [
      | none ↦ false
      | some meta ↦ walk blocks target steps meta.parent_hex
    ]

abbrev pub max_steps : ℕ
max_steps = 1024

-- `extendsLockedLocked`
unfoldable pub extends_locked : L2 → Text → Bool
extends_locked s block_hex =
    if is_empty block_hex
    then true
    else if is_empty s.locked_blk
    then true
    else if text_eq block_hex s.locked_blk
    then true
    else walk s.blocks s.locked_blk max_steps block_hex

-- The height of the parent, from its metadata or its certificate, reaches the lock.
high_enough : Option BlockMeta → Option QcMsg → ℤ → Bool
high_enough (some meta) qc locked_h = leb_ℤ locked_h meta.height
high_enough none (some qc) locked_h = leb_ℤ locked_h qc.height
high_enough none none locked_h = false

-- `safeToVoteLocked`
unfoldable pub safe_to_vote : L2 → Text → Bool
unfolding high_enough
safe_to_vote s parent_hex =
    if is_empty parent_hex
    then true
    else if is_empty s.locked_blk
    then true
    else if text_eq parent_hex s.locked_blk
    then true
    else if extends_locked s parent_hex
    then high_enough (get parent_hex s.blocks) (get parent_hex s.qcs) s.locked_h
    else false

-- `markVoteIfSafe`
unfoldable pub mark_vote_if_safe : L2 → Text → Text → L2 × Bool
mark_vote_if_safe s block_hex parent_hex =
    if has_voted s block_hex
    then (s, false)
    else if safe_to_vote s parent_hex
    then (
      record s { pending = del block_hex s.pending; sent_vote = put block_hex true s.sent_vote },
      true,
    )
    else (record s { pending = put block_hex tt s.pending }, false)

-- One entry of `s.pending` under `retryPendingVotes`: dropped, chosen, or left.
pub data Choice : Type 0 where
  dropped left : Choice
  chosen : BlockMeta → Choice

unfoldable pub choose_meta : L2 → Option BlockMeta → Choice
choose_meta s none = dropped
choose_meta s (some meta) = if safe_to_vote s meta.parent_hex then chosen meta else left

unfoldable pub choose : L2 → Text → Choice
unfolding choose_meta
choose s b = if has_voted s b then dropped else choose_meta s (get b s.blocks)

pub data Pick : Type 0 where
  nothing : Map (Unit {0}) → Pick
  picked : Text → BlockMeta → Map (Unit {0}) → Pick

unfoldable pub keep_entry : Text → Pick → Pick
keep_entry b (nothing rest) = nothing ((b, tt) ∷ rest)
keep_entry b (picked c meta rest) = picked c meta ((b, tt) ∷ rest)

-- The `for blk := range s.pending` of `retryPendingVotes`: the first entry that is safe, and the
-- entries that stay.
unfoldable pub pick_loop : L2 → Map (Unit {0}) → Pick
pick_loop s [] = nothing []
pick_loop s ((b, _) ∷ rest) = elim (choose s b) [
  | dropped ↦ pick_loop s rest
  | chosen meta ↦ picked b meta rest
  | left ↦ keep_entry b (pick_loop s rest)
]
