-- ===== src/L3/Finality/Ready.antt =====
-- l3_finality.go: the conditions for finality, as arithmetic.
use custom_consensus.Base.{
  ℕ, ◌+◌, ◌-◌, ◌*◌, ◌/◌, ◌≤◌, ◌<◌, min, ◌≡◌, ◌↔◌, ◌⊎◌, true, false, length, arith,
}
use custom_consensus.L3.State.{Weights, BlockCounters, L3}
use custom_consensus.L3.Cells.{active_count}
use custom_consensus.L3.Finality.{
  required_devices, attester_total, required_cells, effective_cells, grace_of, enough_cells,
  enough_devices, enough_stake, is_ready,
}

-- The required number of devices is the least number that is two thirds of the total or more; it is
-- at most the total, and two sets of so many devices share at least a third of all devices.
pub required_devices_lem :
    (total n : ℕ)
    → (2 * total ≤ 3 * required_devices total)
      × (required_devices total ≤ total)
      × ((3 * n < 2 * total) ⊎ (required_devices total ≤ n))
      × (total ≤ 3 * (2 * required_devices total - total))
unfolding required_devices
required_devices_lem total n = (ground arith, ground arith, ground arith, ground arith)

module _ {R : Type 0} where
  attester_total_lem :
      (s : L3 R) → (s.devices_total ≤ attester_total s) × (length s.attesters ≤ attester_total s)
  unfolding attester_total
  attester_total_lem s = (ground arith, ground arith)

  -- All active cells or the configured number of them attest; after the grace period, half of these,
  -- or none at all.
  abbrev pub CellsSuffice : L3 R → BlockCounters R → ℕ → Type 0
  CellsSuffice s blk now =
      (min s.params.min_cells (active_count s.cells) ≤ length blk.cells)
      ⊎ ((grace_of s ≤ now - blk.first_seen)
          × ((length blk.cells ≡ 0)
              ⊎ ((min s.params.min_cells (active_count s.cells) + 1) / 2 ≤ length blk.cells)))

  enough_cells_iff :
      (s : L3 R) (blk : BlockCounters R) (now : ℕ)
      → (enough_cells s blk now ≡ true) ↔ CellsSuffice s blk now
  unfolding enough_cells effective_cells required_cells
  enough_cells_iff s blk now = ground arith

  enough_devices_iff :
      (s : L3 R) (blk : BlockCounters R)
      → (enough_devices s blk ≡ true)
        ↔ (required_devices (attester_total s) ≤ length blk.device_votes)
  unfolding enough_devices
  enough_devices_iff s blk = ground arith

  module _ (w : Weights R) where
    abbrev pub StakeSuffices : L3 R → BlockCounters R → Type 0
    StakeSuffices s blk =
        (w.at_most s.params.total_stake w.zero_weight ≡ false)
        × (w.below (w.over blk.qc_weight s.params.total_stake) s.params.stake_threshold ≡ false)

    enough_stake_iff :
        (s : L3 R) (blk : BlockCounters R) → (enough_stake w s blk ≡ true) ↔ StakeSuffices s blk
    unfolding enough_stake
    enough_stake_iff s blk = ground arith

    abbrev pub Ready : L3 R → BlockCounters R → ℕ → Type 0
    Ready s blk now =
        (blk.l2_committed ≡ true)
        × CellsSuffice s blk now
        × (required_devices (attester_total s) ≤ length blk.device_votes)
        × StakeSuffices s blk

    is_ready_tests :
        (s : L3 R) (blk : BlockCounters R) (now : ℕ)
        → (is_ready w s blk now ≡ true) ↔ (
            (blk.l2_committed ≡ true)
            × (enough_cells s blk now ≡ true)
            × (enough_devices s blk ≡ true)
            × (enough_stake w s blk ≡ true))
    unfolding is_ready
    is_ready_tests s blk now = ground arith

    -- A block passes isReadyLocked exactly when L2 has committed it, the cells that attest to it
    -- suffice (the configured number, or all active cells if they are fewer; once the grace period is
    -- over, half of these, or no cell at all), at least two thirds of the devices have voted for it,
    -- the total stake is positive and the stake of its descendants reaches the threshold.
    pub is_ready_iff :
        (s : L3 R) (blk : BlockCounters R) (now : ℕ)
        → (is_ready w s blk now ≡ true) ↔ Ready s blk now
    is_ready_iff s blk now =
        let (to, from) = is_ready_tests s blk now in
        let (c, c') = enough_cells_iff s blk now in
        let (d, d') = enough_devices_iff s blk in
        let (e, e') = enough_stake_iff s blk in
        (
          λ h. let (a, x, y, z) = to h in (a, c x, d y, e z),
          λ h. let (a, x, y, z) = h in from (a, c' x, d' y, e' z),
        )
