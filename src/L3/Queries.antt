-- ===== src/L3/Queries.antt =====
-- l3_finality.go: what the other packages read of the service.
pub mod Pending
use custom_consensus.Base.{
  ℕ, suc, ◌+◌, Bool, true, false, not, ◌&&◌, ◌||◌, Option, none, some, List, [], ◌∷◌, length, take,
  Bytes, Text, is_empty, hex_encode, Map, get, ltb, leb, if◌then◌else◌,
}
use custom_consensus.Base.Int.{ℤ, pos, negsuc, ltb_ℤ, eqb_ℤ}
use custom_consensus.L3.State.{
  Weights, L3Params, L3Status, l3_none, l3_pending, l3_final, FinalityEnvelope, BlockCounters, L3,
}
use custom_consensus.L3.Finality.{required_devices, is_final, attester_total, is_ready, sorted_keys}

pub record BlockMetrics : Type 0 where
  pub cells : ℕ
  pub device_votes : ℕ
  pub device_needed : ℕ
  pub device_total : ℕ
  pub audits_passed : ℕ
  pub audits_failed : ℕ

pub record L3BlockProgress (R : Type 0) : Type 0 where
  pub block : Text
  pub height : ℤ
  pub epoch : ℕ
  pub status : L3Status
  pub cells : ℕ
  pub audits_passed : ℕ
  pub audits_failed : ℕ
  pub l2_committed : Bool
  pub ready : Bool
  pub qc_weight : R
  pub stake_target : R
  pub first_seen : ℕ
  pub finalized_at : Option ℕ
  pub device_votes : ℕ
  pub device_needed : ℕ
  pub device_total : ℕ
  pub device_ids : List Text

-- The best block that the loop of `NextPending` has met: at first none, at height -1.
pub record Best : Type 0 where
  pub best_id : Text
  pub best_height : ℤ
  pub best_seen : Option ℕ

-- What `NextPending` returns.
pub record PendingBlock : Type 0 where
  pub block : Text
  pub height : ℤ
  pub votes : ℕ
  pub required : ℕ
  pub total : ℕ
  pub ok : Bool

unfoldable pub no_block : Best
no_block = record { best_id = []; best_height = negsuc 0; best_seen = none }

seen_before : ℕ → Option ℕ → Bool
seen_before t none = true
seen_before t (some u) = ltb t u

module _ {R : Type 0} where
  -- `QueryL3Status`
  unfoldable pub status_of : Option (BlockCounters R) → L3Status
  status_of none = l3_none
  status_of (some blk) = blk.status

  unfoldable pub query_l3_status : L3 R → Bytes → L3Status
  unfolding status_of
  query_l3_status s block_id = status_of (get (hex_encode block_id) s.blocks)

  unfoldable pub envelope_of : Option (BlockCounters R) → Option (FinalityEnvelope R)
  envelope_of none = none
  envelope_of (some blk) = blk.envelope

  -- `GetFinalityEnvelope`; `none` is its error.
  unfoldable pub get_finality_envelope : L3 R → Bytes → Option (FinalityEnvelope R)
  unfolding envelope_of
  get_finality_envelope s block_id = envelope_of (get (hex_encode block_id) s.blocks)

  metrics_of : L3 R → Option (BlockCounters R) → BlockMetrics
  metrics_of s none = record {
    cells = 0;
    device_votes = 0;
    device_needed = 0;
    device_total = 0;
    audits_passed = 0;
    audits_failed = 0;
  }
  metrics_of s (some blk) =
      let all = attester_total s in
      let votes = length blk.device_votes in
      let total = if ltb all votes then votes else all in
      record {
        cells = length blk.cells;
        device_votes = votes;
        device_needed = required_devices total;
        device_total = total;
        audits_passed = blk.audits_passed;
        audits_failed = blk.audits_failed;
      }

  -- `MetricsForBlock`
  unfoldable pub metrics_for_block : L3 R → Bytes → BlockMetrics
  unfolding metrics_of
  metrics_for_block s block_id = metrics_of s (get (hex_encode block_id) s.blocks)

  -- A block that still waits for devices.
  unfoldable pub awaits : ℕ → BlockCounters R → Bool
  awaits required blk =
      not (is_final blk.status)
      && blk.l2_committed
      && not (ltb 0 required && leb required (length blk.device_votes))

  unfoldable pub better : Best → BlockCounters R → Bool
  unfolding seen_before
  better best blk =
      ltb_ℤ best.best_height blk.height
      || (eqb_ℤ blk.height best.best_height && seen_before blk.first_seen best.best_seen)

  unfoldable pub pending_loop : ℕ → Best → Map (BlockCounters R) → Best
  pending_loop required best [] = best
  pending_loop required best ((id, blk) ∷ m) =
      pending_loop required
        (if awaits required blk && better best blk
          then record { best_id = id; best_height = blk.height; best_seen = some blk.first_seen }
          else best)
        m

  unfoldable pub pending_block : ℕ → ℕ → Text → Option (BlockCounters R) → PendingBlock
  pending_block required total id none = record {
    block = [];
    height = pos 0;
    votes = 0;
    required = required;
    total = total;
    ok = false;
  }
  pending_block required total id (some blk) = record {
    block = id;
    height = blk.height;
    votes = length blk.device_votes;
    required = required;
    total = total;
    ok = true;
  }

  -- `NextPending`
  unfoldable pub next_pending : L3 R → PendingBlock
  unfolding pending_block
  next_pending s =
      let total = attester_total s in
      let required = required_devices total in
      let best = pending_loop required no_block s.blocks in
      pending_block required total best.best_id
        (if is_empty best.best_id then none else get best.best_id s.blocks)

  finalized_at_of : Option (FinalityEnvelope R) → Option ℕ
  finalized_at_of none = none
  finalized_at_of (some env) = some env.finalized_at

  -- By height, the highest first, and then by time, the latest first.
  unfoldable pub goes_before : L3BlockProgress R → L3BlockProgress R → Bool
  goes_before p q =
      if eqb_ℤ p.height q.height then ltb q.first_seen p.first_seen else ltb_ℤ q.height p.height

  -- `sort.Slice`, as a stable insertion sort.
  unfoldable pub insert_progress :
      L3BlockProgress R → List (L3BlockProgress R) → List (L3BlockProgress R)
  insert_progress p [] = p ∷ []
  insert_progress p (q ∷ qs) =
      let rest = insert_progress p qs in if goes_before q p then q ∷ rest else p ∷ q ∷ qs

  module _ (w : Weights R) where
    -- `HasTwoThirdsWeightOnDescendants`
    stake_reached : L3 R → Option (BlockCounters R) → Bool
    stake_reached s none = false
    stake_reached s (some blk) =
        if w.at_most s.params.total_stake w.zero_weight
        then false
        else w.at_most s.params.stake_threshold (w.over blk.qc_weight s.params.total_stake)

    unfoldable pub has_two_thirds_weight_on_descendants : L3 R → Bytes → Bool
    unfolding stake_reached
    has_two_thirds_weight_on_descendants s block_id =
        stake_reached s (get (hex_encode block_id) s.blocks)

    ready_entry : L3 R → ℕ → Option (BlockCounters R) → Bool
    ready_entry s now none = false
    ready_entry s now (some blk) = is_ready w s blk now

    -- `IsL3Ready`
    unfoldable pub is_l3_ready : L3 R → Bytes → ℕ → Bool
    unfolding ready_entry
    is_l3_ready s block_id now = ready_entry s now (get (hex_encode block_id) s.blocks)

    unfoldable pub progress : L3 R → ℕ → Text → BlockCounters R → L3BlockProgress R
    unfolding finalized_at_of
    progress s now block blk =
        let all = attester_total s in
        let ids = sorted_keys blk.device_votes in
        let total = if ltb all (length ids) then length ids else all in
        record {
          block = block;
          height = blk.height;
          epoch = blk.epoch;
          status = blk.status;
          cells = length blk.cells;
          audits_passed = blk.audits_passed;
          audits_failed = blk.audits_failed;
          l2_committed = blk.l2_committed;
          ready = is_ready w s blk now;
          qc_weight = blk.qc_weight;
          stake_target = w.times s.params.stake_threshold s.params.total_stake;
          first_seen = blk.first_seen;
          finalized_at = finalized_at_of blk.envelope;
          device_votes = length blk.device_votes;
          device_needed = required_devices total;
          device_total = total;
          device_ids = ids;
        }

    unfoldable pub sorted_progress : L3 R → ℕ → Map (BlockCounters R) → List (L3BlockProgress R)
    sorted_progress s now [] = []
    sorted_progress s now ((b, blk) ∷ m) =
        insert_progress (progress s now b blk) (sorted_progress s now m)

    limited : ℤ → List (L3BlockProgress R) → List (L3BlockProgress R)
    limited (negsuc n) items = items
    limited (pos n) items = if ltb 0 n && ltb n (length items) then take n items else items

    -- `Snapshot`
    unfoldable pub l3_snapshot : L3 R → ℤ → ℕ → List (L3BlockProgress R)
    unfolding limited
    l3_snapshot s limit now = limited limit (sorted_progress s now s.blocks)
