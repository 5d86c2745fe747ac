-- ===== src/L3/Handlers.antt =====
-- l3_finality.go: the handlers. Each takes the time at which it runs. The two locked sections of
-- `onAttestation` are functions of their own.
pub mod Attested
pub mod Failures
use custom_consensus.Base.{
  ℕ, suc, ◌+◌, Bool, true, false, not, ◌&&◌, ◌||◌, Option, none, some, List, [], ◌∷◌, ◌++◌, length,
  Bytes, Text, is_empty, hex_encode, Map, get, put, has, ltb, leb, ◌==◌, if◌then◌else◌,
}
use custom_consensus.Base.Int.{ℤ, pos, negsuc}
use custom_consensus.Iot.{is_l3_attester, to_lower}
use custom_consensus.L3.State.{
  Weights, L3Status, l3_pending, L3Attestation, ValidatorQcRef, FinalityEnvelope, BlockCounters, L3,
  Outside, CellRecord, fresh_counters,
}
use custom_consensus.L3.Cells.{is_active, quarantine_cell}
use custom_consensus.L3.Sampling.{sample_plan}
use custom_consensus.L3.Finality.{
  required_devices, is_final, attester_total, finalized, maybe_finalize,
}

pub record L3Challenge : Type 0 where
  pub block_id : Bytes
  pub epoch : ℕ
  pub cell_id : Text
  pub indices : List ℕ
  pub issuer : Bytes
  pub issued_at : ℕ

pub record L3Response : Type 0 where
  pub challenge : L3Challenge
  pub proofs : List Bytes
  pub signature : Bytes

-- What `RecordDeviceAttestation` returns.
pub record DeviceProgress : Type 0 where
  pub votes : ℕ
  pub required : ℕ
  pub total : ℕ
  pub recorded : Bool

unfoldable pub failures_of : Map ℕ → Text → ℕ
failures_of m cell_id = elim (get cell_id m) [ none ↦ 0 | some n ↦ n ]

module _ {R : Type 0} where
  -- `UpdateDeviceTotal`
  unfoldable pub update_device_total : L3 R → ℤ → L3 R
  update_device_total s (negsuc n) = s
  update_device_total s (pos n) =
      if ltb s.devices_total n then record s { devices_total = n } else s

  -- `recordFailure`
  unfoldable pub record_failure : L3 R → Text → ℕ → L3 R
  record_failure s cell_id now =
      let failures = failures_of s.misbehave cell_id + 1 in
      let s' = record s { misbehave = put cell_id failures s.misbehave } in
      if leb s.params.max_misbehavior failures then quarantine_cell s' cell_id now else s'

  -- A challenge and a response are decoded and logged.
  pub on_challenge : L3 R → Option L3Challenge → L3 R
  on_challenge s ch = s

  pub on_response : L3 R → Option L3Response → L3 R
  on_response s rsp = s

  unfoldable pub progress_of : L3 R → BlockCounters R → DeviceProgress
  progress_of s blk = record {
    votes = length blk.device_votes;
    required = required_devices (attester_total s);
    total = attester_total s;
    recorded = false;
  }

  -- The attesters and their number, after a vote of this device.
  unfoldable pub note_attester : L3 R → Text → ℕ → L3 R
  note_attester s device_id now =
      let s' = record s { attesters = put (to_lower device_id) now s.attesters } in
      let total = attester_total s' in
      if ltb s.devices_total total then record s' { devices_total = total } else s'

  unfoldable pub attested : BlockCounters R → L3Attestation → BlockCounters R
  attested blk att = record blk {
    attestations = put att.cell_id att blk.attestations;
    cells = put att.cell_id tt blk.cells;
    audits_passed = blk.audits_passed + 1;
    status = l3_pending;
  }

  unfoldable pub with_vote : BlockCounters R → Text → BlockCounters R
  with_vote blk device_id = record blk { device_votes = put device_id tt blk.device_votes }

  unfoldable pub with_meta : BlockCounters R → Text → ℤ → ℕ → Bytes → Bool → BlockCounters R
  with_meta blk parent_hex height epoch commitment committed = record blk {
    parent_hex = parent_hex;
    height = height;
    epoch = epoch;
    da_commitment = commitment;
    l2_committed = committed || blk.l2_committed;
  }

  module _ (w : Weights R) where
    unfoldable pub or_fresh : Option (BlockCounters R) → ℕ → BlockCounters R
    or_fresh none now = fresh_counters w now
    or_fresh (some blk) now = blk

    -- The counters that `ensureBlock` returns.
    unfoldable pub counters_of : L3 R → Text → ℕ → BlockCounters R
    unfolding or_fresh
    counters_of s block_hex now = or_fresh (get block_hex s.blocks) now

    -- What `ensureBlock` does to the state.
    unfoldable pub ensure_block : L3 R → Text → ℕ → L3 R
    ensure_block s block_hex now = record s {
      blocks = put block_hex (counters_of s block_hex now) s.blocks;
    }

    -- `RecordBlockMeta`
    unfoldable pub record_block_meta : L3 R → Bytes → Bytes → ℤ → ℕ → Bytes → Bool → ℕ → L3 R
    record_block_meta s block_id parent height epoch commitment committed now =
        let b = hex_encode block_id in
        let blk =
          with_meta (counters_of s b now) (hex_encode parent) height epoch commitment committed in
        if is_empty block_id then s else record s { blocks = put b blk s.blocks }

    -- `onEnvelope`
    unfoldable pub on_envelope : L3 R → Option (FinalityEnvelope R) → ℕ → L3 R
    on_envelope s none now = s
    on_envelope s (some env) now =
        let b = hex_encode env.block_id in
        record s { blocks = put b (finalized (counters_of s b now) env) s.blocks }

    unfoldable pub with_qc : BlockCounters R → ValidatorQcRef R → BlockCounters R
    with_qc blk ref = record blk {
      qcs = blk.qcs ++ (ref ∷ []);
      qc_weight = w.plus blk.qc_weight ref.weight;
    }

    module _ (o : Outside R) where
      -- `RecordDescendantQC`
      unfoldable pub record_descendant_qc : L3 R → Bytes → ValidatorQcRef R → ℕ → L3 R
      record_descendant_qc s block_id ref now =
          let b = hex_encode block_id in
          let blk = with_qc (counters_of s b now) ref in
          if is_empty block_id then s else maybe_finalize w o s b blk now

      -- A vote of an attester that has not voted for the block.
      unfoldable pub vote_of_device :
          L3 R → Text → BlockCounters R → Text → ℕ → L3 R × DeviceProgress
      vote_of_device s b blk device_id now =
          let blk' = with_vote blk device_id in
          let s' = note_attester s device_id now in
          let total = attester_total (record s { attesters = s'.attesters }) in
          (
            maybe_finalize w o s' b blk' now,
            record {
              votes = length blk'.device_votes;
              required = required_devices total;
              total = total;
              recorded = true;
            },
          )

      -- `RecordDeviceAttestation`
      unfoldable pub record_device_attestation : L3 R → Bytes → Text → ℕ → L3 R × DeviceProgress
      record_device_attestation s block_id device_id now =
          let b = hex_encode block_id in
          let blk = counters_of s b now in
          let s' = ensure_block s b now in
          if is_empty block_id || is_empty device_id
          then (s, record { votes = 0; required = 0; total = 0; recorded = false })
          else if not (is_l3_attester device_id)
          then (s', progress_of s blk)
          else if is_final blk.status
          then (s', progress_of s blk)
          else if has device_id blk.device_votes
          then (s', progress_of s blk)
          else vote_of_device s b blk device_id now

      unfoldable pub verify_attestation_signature : L3Attestation → Bytes → Bool
      verify_attestation_signature att key =
          if not (length key == 32) || is_empty att.signature
          then false
          else elim (o.encode_attestation (record att { signature = [] })) [
            | none ↦ false
            | some bytes ↦ o.ed25519_verify key bytes att.signature
          ]

      -- The second locked section of `onAttestation`, for an attestation whose proofs verify.
      unfoldable pub accept_attestation : L3 R → L3Attestation → ℕ → L3 R
      accept_attestation s att now =
          let b = hex_encode att.block_id in
          let blk = counters_of s b now in
          if is_final blk.status
          then ensure_block s b now
          else if has att.cell_id blk.attestations
          then ensure_block s b now
          else maybe_finalize w o s b (attested blk att) now

      -- From the first locked section on, which reads the commitment of the block.
      unfoldable pub check_attestation : L3 R → L3Attestation → ℕ → L3 R
      check_attestation s att now =
          let b = hex_encode att.block_id in
          let blk = counters_of s b now in
          let s' = ensure_block s b now in
          if is_final blk.status
          then s'
          else if has att.cell_id blk.attestations
          then s'
          else if not (o.verify_data att.block_id att.sample_indices att.proofs blk.da_commitment)
          then record_failure s' att.cell_id now
          else accept_attestation s' att now

      -- The attestation with its plan, if it names no indices.
      unfoldable pub with_indices : L3 R → L3Attestation → Option L3Attestation
      with_indices s att =
          if is_empty att.sample_indices
          then elim (sample_plan o att.block_id att.cell_id att.epoch s.params.samples_per_cell
              att.total_chunks) [
                | none ↦ none
                | some plan ↦ some (record att { sample_indices = plan })
              ]
          else some att

      unfoldable pub attest_signed : L3 R → CellRecord → ℕ → Option L3Attestation → Option (L3 R)
      attest_signed s rec now none = none
      attest_signed s rec now (some att) =
          if (length rec.pub_key == 32) && not (verify_attestation_signature att rec.pub_key)
          then some (record_failure s att.cell_id now)
          else some (check_attestation s att now)

      unfoldable pub attest_known : L3 R → L3Attestation → ℕ → Option CellRecord → Option (L3 R)
      attest_known s att now none = some s
      attest_known s att now (some rec) =
          if not (is_active rec.status)
          then some s
          else attest_signed s rec now (with_indices s att)

      -- `onAttestation`; `none` means that the fuel of the sample plan ran out.
      unfoldable pub on_attestation : L3 R → Option L3Attestation → ℕ → Option (L3 R)
      on_attestation s none now = some s
      on_attestation s (some att) now = attest_known s att now (get att.cell_id s.cells)
