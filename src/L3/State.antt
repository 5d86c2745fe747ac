-- ===== src/L3/State.antt =====
-- l3_finality.go: messages, parameters, the state of `L3Service`, and what it uses of other packages.
-- `R` is the type of the stake weights, Go's float64, and `Weights R` what the service does with them.
use custom_consensus.Base.{
  ℕ, Bool, true, false, Option, none, List, [], ◌∷◌, ◌++◌, Bytes, Text, Map, ltb, ◌/◌, ◌%◌, ◌^◌,
  if◌then◌else◌,
}
use custom_consensus.Base.Int.{ℤ, pos, negsuc}

-- `below` and `at_most` are two tests, since neither is the other's negation on a NaN.
pub record Weights (R : Type 0) : Type 0 where
  pub zero_weight : R
  pub one_weight : R
  pub two_thirds : R
  pub plus : R → R → R
  pub times : R → R → R
  pub over : R → R → R
  pub below : R → R → Bool
  pub at_most : R → R → Bool

-- In nanoseconds.
pub record L3Params (R : Type 0) : Type 0 where
  pub min_cells : ℕ
  pub samples_per_cell : ℕ
  pub horizon_epochs : ℕ
  pub stake_threshold : R
  pub total_stake : R
  pub challenge_window : ℕ
  pub max_misbehavior : ℕ

pub data CellStatus : Type 0 where
  cell_unknown : CellStatus
  cell_active : CellStatus
  cell_offline : CellStatus
  cell_slashed : CellStatus
  cell_quarantined : CellStatus

pub record CellRecord : Type 0 where
  pub id : Text
  pub pub_key : Bytes
  pub bond : ℕ
  pub status : CellStatus
  pub updated : ℕ

pub record L3Attestation : Type 0 where
  pub block_id : Bytes
  pub height : ℤ
  pub epoch : ℕ
  pub cell_id : Text
  pub sample_indices : List ℕ
  pub proofs : List Bytes
  pub head_id : Bytes
  pub signature : Bytes
  pub total_chunks : ℕ

pub record ValidatorQcRef (R : Type 0) : Type 0 where
  pub block_id : Bytes
  pub height : ℤ
  pub epoch : ℕ
  pub weight : R
  pub signers : List Bytes
  pub created_at : ℕ

pub record FinalityEnvelope (R : Type 0) : Type 0 where
  pub block_id : Bytes
  pub height : ℤ
  pub horizon : ℕ
  pub descendant_qcs : List (ValidatorQcRef R)
  pub cell_bitmap : List Text
  pub cell_agg_sig : Bytes
  pub validator_agg_sig : Bytes
  pub finalized_at : ℕ

pub data L3Status : Type 0 where
  l3_none : L3Status
  l3_pending : L3Status
  l3_final : L3Status

pub record BlockCounters (R : Type 0) : Type 0 where
  pub cells : Map (Unit {0})
  pub attestations : Map L3Attestation
  pub device_votes : Map (Unit {0})
  pub audits_passed : ℕ
  pub audits_failed : ℕ
  pub qc_weight : R
  pub qcs : List (ValidatorQcRef R)
  pub l2_committed : Bool
  pub da_commitment : Bytes
  pub parent_hex : Text
  pub height : ℤ
  pub epoch : ℕ
  pub first_seen : ℕ
  pub envelope : Option (FinalityEnvelope R)
  pub status : L3Status

-- `sent` is what the service published on its envelope topic, the latest first.
pub record L3 (R : Type 0) : Type 0 where
  pub params : L3Params R
  pub blocks : Map (BlockCounters R)
  pub misbehave : Map ℕ
  pub attesters : Map ℕ
  pub cells : Map CellRecord
  pub devices_total : ℕ
  pub sent : List (FinalityEnvelope R)

-- SHA-256, CBOR and Ed25519 of the libraries, the beacon and the verifier that the service is given,
-- and whether the topic for envelopes was joined.
pub record Outside (R : Type 0) : Type 0 where
  pub sha256 : Bytes → Bytes
  pub randomness : ℕ → Bytes
  pub verify_data : Bytes → List ℕ → List Bytes → Bytes → Bool
  pub encode_attestation : L3Attestation → Option Bytes
  pub ed25519_verify : Bytes → Bytes → Bytes → Bool
  pub joined : Bool
  pub encodes_envelope : FinalityEnvelope R → Bool

positive_param : ℕ → ℤ → ℕ
positive_param d (negsuc n) = d
positive_param d (pos n) = if ltb 0 n then n else d

-- The bytes of a number below 2^32, the highest first.
unfoldable pub be32 : ℕ → Bytes
be32 n = n / 2 ^ 24 % 256 ∷ n / 2 ^ 16 % 256 ∷ n / 2 ^ 8 % 256 ∷ n % 256 ∷ []

-- `StaticBeacon`
unfoldable pub static_randomness : ℕ → Bytes
unfolding be32
static_randomness epoch =
    be32 (epoch / 2 ^ 32) ++ be32 (epoch % 2 ^ 32) ++ (0 ∷ 0 ∷ 0 ∷ 0 ∷ 0 ∷ 0 ∷ 0 ∷ 0 ∷ [])

-- `NoopVerifier`
unfoldable pub noop_verify : Bytes → List ℕ → List Bytes → Bytes → Bool
noop_verify block_id indices proofs commitment = true

module _ {R : Type 0} (w : Weights R) where
  positive_weight_or : R → R → R
  positive_weight_or d x = if w.at_most x w.zero_weight then d else x

  -- The parameters that `StartL3Finality` sets; those that are not positive get their defaults.
  unfoldable pub l3_params : ℤ → ℤ → ℕ → R → R → ℤ → ℤ → L3Params R
  unfolding positive_param positive_weight_or
  l3_params cells samples horizon threshold stake window misbehavior = record {
    min_cells = positive_param 7 cells;
    samples_per_cell = positive_param 16 samples;
    horizon_epochs = positive_param 4 (pos horizon);
    stake_threshold = positive_weight_or w.two_thirds threshold;
    total_stake = positive_weight_or w.one_weight stake;
    challenge_window = positive_param 5_000_000_000 window;
    max_misbehavior = positive_param 3 misbehavior;
  }

  -- `StartL3Finality`
  unfoldable pub start_l3 : L3Params R → L3 R
  start_l3 params = record {
    params = params;
    blocks = [];
    misbehave = [];
    attesters = [];
    cells = [];
    devices_total = 0;
    sent = [];
  }

  -- `UpdateTotalStake`
  unfoldable pub update_total_stake : L3 R → R → L3 R
  update_total_stake s stake =
      if w.at_most stake w.zero_weight
      then s
      else record s { params = record (s.params) { total_stake = stake } }

  -- The counters that `ensureBlock` makes.
  unfoldable pub fresh_counters : ℕ → BlockCounters R
  fresh_counters now = record {
    cells = [];
    attestations = [];
    device_votes = [];
    audits_passed = 0;
    audits_failed = 0;
    qc_weight = w.zero_weight;
    qcs = [];
    l2_committed = false;
    da_commitment = [];
    parent_hex = [];
    height = pos 0;
    epoch = 0;
    first_seen = now;
    envelope = none;
    status = l3_pending;
  }
