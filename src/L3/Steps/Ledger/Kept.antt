-- ===== src/L3/Steps/Ledger/Kept.antt =====
-- l3_finality.go: every step keeps the invariant of the counters.
use custom_consensus.Base.{
  ℕ, ◌≤◌, ◌≡◌, sym, subst, inl, inr, true, Text, Map, length, All, Bool-cases, arith, ltb,
  hex_encode, is_empty,
}
use custom_consensus.Base.Int.{ℤ, pos, negsuc}
use custom_consensus.Iot.{is_l3_attester}
use custom_consensus.L3.State.{
  Weights, L3Params, L3, Outside, CellRecord, update_total_stake, start_l3,
}
use custom_consensus.L3.Cells.{register_cell}
use custom_consensus.L3.Finality.{attester_total, recheck_pending}
use custom_consensus.L3.Handlers.{
  counters_of, on_envelope, vote_of_device, note_attester, update_device_total,
}
use custom_consensus.L3.Steps.{
  Step, ensure, meta, stake, devices, cell, status, failure, attest, device, descendant, recheck,
  hear, Reach, start, next, count_failure,
}
use custom_consensus.L3.Steps.Cases.{
  accept_attestation-cases, record_device_attestation-cases, record_descendant_qc-cases,
  record_block_meta-cases,
}
use custom_consensus.L3.Steps.Causes.{note_attester-blocks}
use custom_consensus.L3.Steps.Ledger.{
  Sound, Ledger, with_vote-Sound, attested-Sound, finalized-Sound, with_qc-Sound, with_meta-Sound,
  counters_of-Sound, put-Ledger, ensure_block-Ledger, maybe_finalize-Ledger, recheck_loop-Ledger,
}

raised : {a b c : ℕ} → a ≤ b → ltb b c ≡ true → a ≤ c
raised le lt = ground arith

module _ {R : Type 0} where
  note_attester_few :
      (s : L3 R) (d : Text) (now : ℕ)
      → length (note_attester s d now).attesters ≤ (note_attester s d now).devices_total
  unfolding note_attester attester_total
  note_attester_few s d now = ground arith

  note_attester-Ledger : (s : L3 R) (d : Text) (now : ℕ) → Ledger s → Ledger (note_attester s d now)
  note_attester-Ledger s d now v = record {
    entries = subst (All (λ e. Sound e.1)) (sym (note_attester-blocks s d now)) v.entries;
    few_attesters = note_attester_few s d now;
  }

  module _ (w : Weights R) where
    update_total_stake-Ledger : (s : L3 R) (x : R) → Ledger s → Ledger (update_total_stake w s x)
    unfolding update_total_stake
    update_total_stake-Ledger s x v = elim (Bool-cases (w.at_most x w.zero_weight)) [
      | inl ignored ↦ rw (ignored, update_total_stake) v
      | inr positive ↦
          rw (positive, update_total_stake)
            (record { entries = v.entries; few_attesters = v.few_attesters })
    ]

    cells-Ledger : (s : L3 R) (m : Map CellRecord) → Ledger s → Ledger (record s { cells = m })
    cells-Ledger s m v = record { entries = v.entries; few_attesters = v.few_attesters }

    register_cell-Ledger :
        (s : L3 R) (rec : CellRecord) (now : ℕ) → Ledger s → Ledger (register_cell s rec now)
    unfolding register_cell
    register_cell-Ledger s rec now v = elim (Bool-cases (is_empty rec.id)) [
      | inl no_id ↦ rw (no_id, register_cell) v
      | inr given ↦ rw (given, register_cell) (cells-Ledger s _ v)
    ]

    update_device_total-Ledger : (s : L3 R) (n : ℤ) → Ledger s → Ledger (update_device_total s n)
    unfolding update_device_total
    update_device_total-Ledger s (negsuc n) v = v
    update_device_total-Ledger s (pos n) v = elim (Bool-cases (ltb s.devices_total n)) [
      | inl more ↦
          rw (more, update_device_total)
            (record { entries = v.entries; few_attesters = raised v.few_attesters more })
      | inr fewer ↦ rw (fewer, update_device_total) v
    ]

    module _ (o : Outside R) where
      vote_of_device-Ledger :
          (s : L3 R) (b id : Text) (now : ℕ)
          → is_l3_attester id ≡ true
          → Ledger s
          → Ledger (vote_of_device w o s b (counters_of w s b now) id now).0
      unfolding vote_of_device
      vote_of_device-Ledger s b id now h v =
          maybe_finalize-Ledger w o (note_attester s id now) b _ now
            (note_attester-Ledger s id now v)
            (with_vote-Sound (counters_of w s b now) id h (counters_of-Sound w s b now v))

      pub Step-Ledger : {s t : L3 R} → Step w o s t → Ledger s → Ledger t
      unfolding on_envelope recheck_pending count_failure
      Step-Ledger (ensure s b now) v = ensure_block-Ledger w s b now v
      Step-Ledger (meta s id p h e c l now) v =
          record_block_meta-cases w o Ledger s id p h e c l now v (
            put-Ledger w s (hex_encode id) _ v (
              with_meta-Sound w (counters_of w s (hex_encode id) now) (hex_encode p) h e c l
                (counters_of-Sound w s (hex_encode id) now v)))
      Step-Ledger (stake s x) v = update_total_stake-Ledger s x v
      Step-Ledger (devices s n) v = update_device_total-Ledger s n v
      Step-Ledger (cell s rec now) v = register_cell-Ledger s rec now v
      Step-Ledger (status s id k now) v = cells-Ledger s _ v
      Step-Ledger (failure s id) v = record { entries = v.entries; few_attesters = v.few_attesters }
      Step-Ledger (attest s att now p) v =
          accept_attestation-cases w o Ledger s att now
            (ensure_block-Ledger w s (hex_encode att.block_id) now v)
            (λ pending new. maybe_finalize-Ledger w o s (hex_encode att.block_id) _ now v (
              attested-Sound (counters_of w s (hex_encode att.block_id) now) att pending new
                (counters_of-Sound w s (hex_encode att.block_id) now v)))
      Step-Ledger (device s block_id id now) v =
          record_device_attestation-cases w o Ledger s block_id id now v
            (ensure_block-Ledger w s (hex_encode block_id) now v)
            (λ attester pending new.
              vote_of_device-Ledger s (hex_encode block_id) id now attester v)
      Step-Ledger (descendant s id ref now) v =
          record_descendant_qc-cases w o Ledger s id ref now v (
            maybe_finalize-Ledger w o s (hex_encode id) _ now v
              (with_qc-Sound w _ ref (counters_of-Sound w s (hex_encode id) now v)))
      Step-Ledger (recheck s now) v = recheck_loop-Ledger w o s.blocks s now v
      Step-Ledger (hear s env now) v =
          put-Ledger w s (hex_encode env.block_id) _ v
            (finalized-Sound _ env (counters_of-Sound w s (hex_encode env.block_id) now v))

      -- In every state that the service reaches from its start, and for every block: only L3
      -- attesters vote, the recorded cells are exactly those with an attestation and `auditsPassed` is
      -- their number, and the block has an envelope exactly when it is final. The attesters seen are
      -- never more than the device total.
      pub Reach-Ledger :
          (params : L3Params R) {t : L3 R} → Reach w o (start_l3 w params) t → Ledger t
      unfolding start_l3
      Reach-Ledger params start = record { entries = tt; few_attesters = omega arith }
      Reach-Ledger params (next r st) = Step-Ledger st (Reach-Ledger params r)
