-- ===== src/L3/Tests.antt =====
-- Witnesses for the finality service, with stakes in units of 10^-7.
use custom_consensus.Base.{
  ℕ, ◌+◌, ◌*◌, ◌/◌, ◌≤◌, ◌≡◌, ◌↔◌, ◌⊎◌, refl, true, none, some, List, [], ◌∷◌, length, Bytes, Text,
  get, ltb, leb, arith, text_eq,
}
use custom_consensus.Base.Int.{pos}
use custom_consensus.Iot.{l3_attester_prefix}
use custom_consensus.L3.State.{
  Weights, L3Params, CellRecord, cell_active, L3Attestation, BlockCounters, L3, Outside, l3_pending,
  noop_verify, static_randomness, start_l3,
}
use custom_consensus.L3.Cells.{active_count}
use custom_consensus.L3.Sampling.{sample_plan}
use custom_consensus.L3.Sampling.Plans.{IsPlan, plan_length, sample_plan-IsPlan}
use custom_consensus.L3.Finality.{
  required_devices, is_ready, recheck_pending, enough_cells, required_cells, enough_devices,
  attester_total, enough_stake,
}
use custom_consensus.L3.Finality.Ready.{Ready, is_ready_iff}
use custom_consensus.L3.Handlers.{
  failures_of, on_attestation, record_device_attestation, record_block_meta, accept_attestation,
}
use custom_consensus.L3.Handlers.Attested.{Ran, on_attestation-Ran}
use custom_consensus.L3.Handlers.Failures.{fail_times, Quarantined, fail_times_lem}
use custom_consensus.L3.Queries.{next_pending}
use custom_consensus.L3.Queries.Pending.{Reported, next_pending-Reported}
use custom_consensus.L3.Steps.{Reach, meta, attest, recheck, device, start, next}
use custom_consensus.L3.Steps.Final.{Final}
use custom_consensus.L3.Steps.Recheck.{recheck_pending_ready}
use custom_consensus.L3.Steps.Causes.{Hears, Finds, Step-Final}
use custom_consensus.L3.Steps.Lasting.{Reach-Final}
use custom_consensus.L3.Steps.Ledger.{Ledger}
use custom_consensus.L3.Steps.Ledger.Kept.{Reach-Ledger}

abbrev weights : Weights ℕ
weights = record {
  zero_weight = 0;
  one_weight = 10_000_000;
  two_thirds = 6_666_667;
  plus = λ a b. a + b;
  times = λ a b. a * b / 10_000_000;
  over = λ a b. a * 10_000_000 / b;
  below = ltb;
  at_most = leb;
}

abbrev outside : Outside ℕ
outside = record {
  sha256 = λ bs. 1 ∷ 2 ∷ 3 ∷ 4 ∷ 5 ∷ 6 ∷ 7 ∷ 8 ∷ [];
  randomness = static_randomness;
  verify_data = noop_verify;
  encode_attestation = λ att. some [];
  ed25519_verify = λ key msg sig. true;
  joined = true;
  encodes_envelope = λ env. true;
}

abbrev params : L3Params ℕ
params = record {
  min_cells = 7;
  samples_per_cell = 3;
  horizon_epochs = 4;
  stake_threshold = 6_666_667;
  total_stake = 30_000_000;
  challenge_window = 5_000_000_000;
  max_misbehavior = 3;
}

-- The block with the ID 7.
abbrev block : Text
block = 48 ∷ 55 ∷ []

-- A committed block on which a stake of two rests.
abbrev counters : BlockCounters ℕ
counters = record {
  cells = [];
  attestations = [];
  device_votes = [];
  audits_passed = 0;
  audits_failed = 0;
  qc_weight = 20_000_001;
  qcs = [];
  l2_committed = true;
  da_commitment = [];
  parent_hex = [];
  height = pos 4;
  epoch = 0;
  first_seen = 1;
  envelope = none;
  status = l3_pending;
}

abbrev gateway : CellRecord
gateway = record { id = 99 ∷ []; pub_key = []; bond = 0; status = cell_active; updated = 1 }

-- No cell is registered, and no device is known.
abbrev waiting : L3 ℕ
waiting = record {
  params = params;
  blocks = (block, counters) ∷ [];
  misbehave = [];
  attesters = [];
  cells = [];
  devices_total = 0;
  sent = [];
}

abbrev with_cell : L3 ℕ
with_cell = record waiting { cells = (99 ∷ [], gateway) ∷ [] }

abbrev attestation : L3Attestation
attestation = record {
  block_id = 7 ∷ [];
  height = pos 4;
  epoch = 0;
  cell_id = 99 ∷ [];
  sample_indices = [];
  proofs = [];
  head_id = [];
  signature = [];
  total_chunks = 10;
}

waiting_ready : is_ready weights waiting counters 9 ≡ true
unfolding is_ready enough_cells required_cells active_count enough_devices required_devices
    attester_total enough_stake
waiting_ready = refl

waiting_block : get block waiting.blocks ≡ some counters
unfolding get text_eq
waiting_block = refl

recheck_pending_ready_example : Final (recheck_pending weights outside waiting 9) block
recheck_pending_ready_example =
    recheck_pending_ready weights outside waiting 9 block counters waiting_block waiting_ready

Step-Final_example :
    Final waiting block
    ⊎ (Hears weights outside (recheck waiting 9) block
        ⊎ Finds weights outside (recheck waiting 9) block)
Step-Final_example =
    Step-Final weights outside (recheck waiting 9) block
      (recheck_pending_ready weights outside waiting 9 block counters waiting_block waiting_ready)

Reach-Final_example :
    Final
      (record_device_attestation weights outside
        (recheck_pending weights outside waiting 9)
        (7 ∷ [])
        []
        9).0
      block
Reach-Final_example =
    Reach-Final weights outside
      (next start (device (recheck_pending weights outside waiting 9) (7 ∷ []) [] 9)) block
      (recheck_pending_ready weights outside waiting 9 block counters waiting_block waiting_ready)

-- A device votes for a committed block, and a cell attests it.
abbrev committed : L3 ℕ
committed = record_block_meta weights (start_l3 weights params) (7 ∷ []) [] (pos 4) 0 [] true 1

abbrev voted : L3 ℕ
voted = (record_device_attestation weights outside committed (7 ∷ []) l3_attester_prefix 2).0

abbrev vouched : L3 ℕ
vouched = accept_attestation weights outside voted attestation 3

vouched_run : Reach weights outside (start_l3 weights params) vouched
unfolding noop_verify
vouched_run =
    next
      (next (next start (meta (start_l3 weights params) (7 ∷ []) [] (pos 4) 0 [] true 1))
        (device committed (7 ∷ []) l3_attester_prefix 2))
      (attest voted attestation 3 ([], refl))

Reach-Ledger_example : Ledger vouched
Reach-Ledger_example = Reach-Ledger weights outside params vouched_run

is_ready_iff_example :
    (is_ready weights waiting counters 9 ≡ true) ↔ Ready weights waiting counters 9
is_ready_iff_example = is_ready_iff weights waiting counters 9

hash_long : (bs : Bytes) → 4 ≤ length (outside.sha256 bs)
hash_long bs = omega arith

on_attestation-Ran_example :
    Ran weights outside with_cell attestation 9
      (on_attestation weights outside with_cell (some attestation) 9)
on_attestation-Ran_example = on_attestation-Ran weights outside with_cell attestation 9 hash_long

sample_plan-IsPlan_example :
    (xs : List ℕ) × (sample_plan outside (7 ∷ []) (99 ∷ []) 0 3 10 ≡ some xs)
    × IsPlan 10 (plan_length outside 3 10) xs
sample_plan-IsPlan_example = sample_plan-IsPlan outside (7 ∷ []) (99 ∷ []) 0 3 10 hash_long

fail_times_lem_example :
    ((fail_times 2 with_cell (99 ∷ []) 9).cells ≡ with_cell.cells)
    × Quarantined (fail_times 3 with_cell (99 ∷ []) 9) (99 ∷ [])
    × (on_attestation weights outside (fail_times 3 with_cell (99 ∷ []) 9) (some attestation) 12
        ≡ some (fail_times 3 with_cell (99 ∷ []) 9))
unfolding get text_eq failures_of
fail_times_lem_example =
    fail_times_lem weights outside with_cell (99 ∷ []) 9 gateway 2 2 attestation 12 refl refl refl
      (omega arith)

-- One attester is known, so that one vote is required.
abbrev one_attester : L3 ℕ
one_attester = record waiting { attesters = (l3_attester_prefix, 1) ∷ [] }

next_pending-Reported_example :
    Reported one_attester
      (required_devices (attester_total one_attester))
      (next_pending one_attester)
unfolding get text_eq
next_pending-Reported_example =
    next_pending-Reported one_attester (refl, tt) (λ blk e. absurd (ground arith))
