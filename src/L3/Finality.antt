-- ===== src/L3/Finality.antt =====
-- l3_finality.go: when a block is ready, and how it becomes final.
pub mod Ready
use custom_consensus.Base.{
  ℕ, zero, suc, ◌+◌, ◌-◌, ◌*◌, ◌/◌, ◌≤◌, ◌<◌, Bool, true, false, not, ◌&&◌, ◌||◌, Option, none,
  some, List, [], ◌∷◌, length, Bytes, Text, text_lt, hex_decode, Map, get, put, ltb, leb, ◌==◌,
  if◌then◌else◌,
}
use custom_consensus.L3.State.{
  Weights, L3Params, L3Status, l3_none, l3_pending, l3_final, FinalityEnvelope, BlockCounters, L3,
  Outside,
}
use custom_consensus.L3.Cells.{active_count}

-- `requiredDevices`
unfoldable pub required_devices : ℕ → ℕ
required_devices total = if total == 0 then 0 else (2 * total + 2) / 3

unfoldable pub is_final : L3Status → Bool
is_final l3_final = true
is_final _ = false

-- `sort.Strings` on the keys of a set.
unfoldable pub insert_text : Text → List Text → List Text
insert_text t [] = t ∷ []
insert_text t (u ∷ us) = let rest = insert_text t us in if text_lt u t then u ∷ rest else t ∷ u ∷ us

unfoldable pub sorted_keys {ℓ} : {V : Type ℓ} → Map V → List Text
sorted_keys [] = []
sorted_keys ((k, v) ∷ m) = insert_text k (sorted_keys m)

-- `decodeHex`
unfoldable pub decode_hex : Text → Bytes
decode_hex t = elim (hex_decode t) [ none ↦ [] | some bs ↦ bs ]

-- The cells that suffice for a block that `cells` of at least `required` cells attest to: fewer after
-- the grace period.
unfoldable pub effective_cells : ℕ → ℕ → Bool → ℕ
effective_cells required cells waited_enough =
    let majority = (required + 1) / 2 in
    if not waited_enough
    then required
    else if cells == 0
    then 0
    else if leb majority cells
    then majority
    else required

module _ {R : Type 0} where
  -- `attesterTotalLocked`
  unfoldable pub attester_total : L3 R → ℕ
  attester_total s =
      let total = s.devices_total in
      if ltb total (length s.attesters) then length s.attesters else total

  unfoldable pub required_cells : L3 R → ℕ
  required_cells s =
      let active = active_count s.cells in
      if ltb active s.params.min_cells then active else s.params.min_cells

  unfoldable pub grace_of : L3 R → ℕ
  grace_of s = if s.params.challenge_window == 0 then 5_000_000_000 else s.params.challenge_window

  unfoldable pub enough_cells : L3 R → BlockCounters R → ℕ → Bool
  enough_cells s blk now =
      let required = required_cells s in
      let cells = length blk.cells in
      if ltb 0 required && ltb cells required
      then leb (effective_cells required cells (leb (grace_of s) (now - blk.first_seen))) cells
      else true

  unfoldable pub enough_devices : L3 R → BlockCounters R → Bool
  enough_devices s blk =
      let required = required_devices (attester_total s) in
      not (ltb 0 required && ltb (length blk.device_votes) required)

  unfoldable pub build_envelope : L3 R → Text → BlockCounters R → ℕ → FinalityEnvelope R
  build_envelope s block_hex blk now = record {
    block_id = decode_hex block_hex;
    height = blk.height;
    horizon = s.params.horizon_epochs;
    descendant_qcs = blk.qcs;
    cell_bitmap = sorted_keys blk.cells;
    cell_agg_sig = [];
    validator_agg_sig = [];
    finalized_at = now;
  }

  -- The block with its envelope.
  unfoldable pub finalized : BlockCounters R → FinalityEnvelope R → BlockCounters R
  finalized blk env = record blk { envelope = some env; status = l3_final }

  module _ (o : Outside R) where
    -- `broadcastEnvelope`
    unfoldable pub broadcast :
        FinalityEnvelope R → List (FinalityEnvelope R) → List (FinalityEnvelope R)
    broadcast env sent = if o.joined && o.encodes_envelope env then env ∷ sent else sent

  module _ (w : Weights R) where
    unfoldable pub enough_stake : L3 R → BlockCounters R → Bool
    enough_stake s blk =
        if w.at_most s.params.total_stake w.zero_weight
        then false
        else not (w.below (w.over blk.qc_weight s.params.total_stake) s.params.stake_threshold)

    -- `isReadyLocked`
    unfoldable pub is_ready : L3 R → BlockCounters R → ℕ → Bool
    is_ready s blk now =
        if not blk.l2_committed
        then false
        else if not (enough_cells s blk now)
        then false
        else if not (enough_devices s blk)
        then false
        else enough_stake s blk

    unfoldable pub finalizes : L3 R → BlockCounters R → ℕ → Bool
    finalizes s blk now = blk.l2_committed && (not (is_final blk.status) && is_ready s blk now)

    -- `maybeFinalizeLocked` for the entry of a block that it may change.
    module _ (o : Outside R) where
      unfoldable pub maybe_finalize : L3 R → Text → BlockCounters R → ℕ → L3 R
      maybe_finalize s block_hex blk now =
          let env = build_envelope s block_hex blk now in
          if finalizes s blk now
          then record s {
            blocks = put block_hex (finalized blk env) s.blocks;
            sent = broadcast o env s.sent;
          }
          else record s { blocks = put block_hex blk s.blocks }

      -- The loop of `recheckPending` over the entries of the map. An entry is a pointer, so it is the
      -- current counters that are looked at.
      unfoldable pub recheck_one : L3 R → ℕ → Text → Option (BlockCounters R) → L3 R
      recheck_one s now b none = s
      recheck_one s now b (some blk) = if is_final blk.status then s else maybe_finalize s b blk now

      unfoldable pub recheck_loop : L3 R → ℕ → Map (BlockCounters R) → L3 R
      unfolding recheck_one
      recheck_loop s now [] = s
      recheck_loop s now ((b, _) ∷ m) = recheck_loop (recheck_one s now b (get b s.blocks)) now m

      -- `recheckPending`
      unfoldable pub recheck_pending : L3 R → ℕ → L3 R
      recheck_pending s now = recheck_loop s now s.blocks
