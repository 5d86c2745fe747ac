-- ===== src/L3/Steps.antt =====
-- l3_finality.go as a transition system. A step is one section that the service runs under a lock, so
-- a sequence of steps is any interleaving of the goroutines and of the callers.
pub mod Cases
pub mod Final
pub mod Lasting
pub mod Causes
pub mod Recheck
pub mod Ledger
use custom_consensus.Base.{
  ℕ, ◌+◌, ◌≡◌, Bool, true, false, some, Bytes, Text, Map, put, get, is_empty, List,
}
use custom_consensus.Base.Int.{ℤ}
use custom_consensus.L3.State.{
  Weights, CellStatus, CellRecord, L3Attestation, ValidatorQcRef, FinalityEnvelope, L3, Outside,
  update_total_stake,
}
use custom_consensus.L3.Cells.{update_status, register_cell}
use custom_consensus.L3.Finality.{recheck_pending}
use custom_consensus.L3.Handlers.{
  failures_of, update_device_total, ensure_block, record_block_meta, on_envelope,
  record_descendant_qc, record_device_attestation, accept_attestation,
}

-- The locked section of `recordFailure`.
unfoldable pub count_failure : {R : Type 0} → L3 R → Text → L3 R
count_failure s cell_id = record s {
  misbehave = put cell_id (failures_of s.misbehave cell_id + 1) s.misbehave;
}

module _ {R : Type 0} (w : Weights R) (o : Outside R) where
  -- Proofs that verify against some commitment.
  abbrev pub Proven : L3Attestation → Type 0
  Proven att =
      (commitment : Bytes) × (o.verify_data att.block_id att.sample_indices att.proofs commitment
        ≡ true)

  pub data Step : L3 R → L3 R → Type 0 where
    ensure : (s : L3 R) (b : Text) (now : ℕ) → Step s (ensure_block w s b now)
    meta :
        (s : L3 R) (block_id parent : Bytes) (h : ℤ) (e : ℕ) (c : Bytes) (l : Bool) (now : ℕ)
        → Step s (record_block_meta w s block_id parent h e c l now)
    stake : (s : L3 R) (x : R) → Step s (update_total_stake w s x)
    devices : (s : L3 R) (n : ℤ) → Step s (update_device_total s n)
    cell : (s : L3 R) (rec : CellRecord) (now : ℕ) → Step s (register_cell s rec now)
    status :
        (s : L3 R) (id : Text) (st : CellStatus) (now : ℕ)
        → Step s (record s { cells = update_status s.cells id st now })
    failure : (s : L3 R) (id : Text) → Step s (count_failure s id)
    attest :
        (s : L3 R) (att : L3Attestation) (now : ℕ)
        → Proven att
        → Step s (accept_attestation w o s att now)
    device :
        (s : L3 R) (block_id : Bytes) (id : Text) (now : ℕ)
        → Step s (record_device_attestation w o s block_id id now).0
    descendant :
        (s : L3 R) (block_id : Bytes) (ref : ValidatorQcRef R) (now : ℕ)
        → Step s (record_descendant_qc w o s block_id ref now)
    recheck : (s : L3 R) (now : ℕ) → Step s (recheck_pending w o s now)
    hear : (s : L3 R) (env : FinalityEnvelope R) (now : ℕ) → Step s (on_envelope w s (some env) now)

  pub data Reach (s : L3 R) : L3 R → Type 0 where
    start : Reach s s
    next : {t u : L3 R} → Reach s t → Step t u → Reach s u

module _ {R : Type 0} {w : Weights R} {o : Outside R} where
  pub one : {s t : L3 R} → Step w o s t → Reach w o s t
  one st = next start st

  pub Reach-trans : {s t u : L3 R} → Reach w o s t → Reach w o t u → Reach w o s u
  Reach-trans r start = r
  Reach-trans r (next q st) = next (Reach-trans r q) st
