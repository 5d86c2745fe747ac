-- ===== src/L3/Steps/Cases.antt =====
-- l3_finality.go: the branches of the handlers, as principles of proof.
use custom_consensus.Base.{
  ℕ, ◌≡◌, Bool, true, false, ◌||◌, inl, inr, Text, Bytes, has, put, Bool-cases, hex_encode,
  is_empty,
}
use custom_consensus.Base.Int.{ℤ}
use custom_consensus.Iot.{is_l3_attester}
use custom_consensus.L3.State.{Weights, L3, Outside, L3Attestation, ValidatorQcRef}
use custom_consensus.L3.Finality.{is_final, maybe_finalize}
use custom_consensus.L3.Handlers.{
  counters_of, ensure_block, with_meta, record_block_meta, record_descendant_qc,
  record_device_attestation, vote_of_device, attested, with_qc, accept_attestation,
}

module _ {κ} {R : Type 0} (w : Weights R) (o : Outside R) (P : L3 R → Type κ) where
  pub accept_attestation-cases :
      (s : L3 R) (att : L3Attestation) (now : ℕ)
      → P (ensure_block w s (hex_encode att.block_id) now)
      → (is_final (counters_of w s (hex_encode att.block_id) now).status ≡ false
          → has att.cell_id (counters_of w s (hex_encode att.block_id) now).attestations ≡ false
          → P (
              maybe_finalize w o s
                (hex_encode att.block_id)
                (attested (counters_of w s (hex_encode att.block_id) now) att)
                now))
      → P (accept_attestation w o s att now)
  unfolding accept_attestation
  accept_attestation-cases s att now p q =
      let blk = counters_of w s (hex_encode att.block_id) now in
      elim (Bool-cases (is_final blk.status)) [
        | inl fin ↦ rw (fin, accept_attestation) p
        | inr pending ↦ elim (Bool-cases (has att.cell_id blk.attestations)) [
          | inl seen ↦ rw (pending, seen, accept_attestation) p
          | inr new ↦ rw (pending, new, accept_attestation) (q pending new)
        ]
      ]

  pub record_device_attestation-cases :
      (s : L3 R) (block_id : Bytes) (id : Text) (now : ℕ)
      → P s
      → P (ensure_block w s (hex_encode block_id) now)
      → (is_l3_attester id ≡ true
          → is_final (counters_of w s (hex_encode block_id) now).status ≡ false
          → has id (counters_of w s (hex_encode block_id) now).device_votes ≡ false
          → P
              (vote_of_device w o s
                (hex_encode block_id)
                (counters_of w s (hex_encode block_id) now)
                id
                now).0)
      → P (record_device_attestation w o s block_id id now).0
  unfolding record_device_attestation
  record_device_attestation-cases s block_id id now p q r =
      let blk = counters_of w s (hex_encode block_id) now in
      elim (Bool-cases (is_empty block_id || is_empty id)) [
        | inl missing ↦ rw (missing, record_device_attestation) p
        | inr given ↦ elim (Bool-cases (is_l3_attester id)) [
          | inr other ↦ rw (given, other, record_device_attestation) q
          | inl attester ↦ elim (Bool-cases (is_final blk.status)) [
            | inl fin ↦ rw (given, attester, fin, record_device_attestation) q
            | inr pending ↦ elim (Bool-cases (has id blk.device_votes)) [
              | inl voted ↦ rw (given, attester, pending, voted, record_device_attestation) q
              | inr new ↦
                  rw (given, attester, pending, new, record_device_attestation)
                    (r attester pending new)
            ]
          ]
        ]
      ]

  pub record_descendant_qc-cases :
      (s : L3 R) (id : Bytes) (ref : ValidatorQcRef R) (now : ℕ)
      → P s
      → P (
          maybe_finalize w o s
            (hex_encode id)
            (with_qc w (counters_of w s (hex_encode id) now) ref)
            now)
      → P (record_descendant_qc w o s id ref now)
  unfolding record_descendant_qc
  record_descendant_qc-cases s id ref now p q = elim (Bool-cases (is_empty id)) [
    | inl no_id ↦ rw (no_id, record_descendant_qc) p
    | inr given ↦ rw (given, record_descendant_qc) q
  ]

  pub record_block_meta-cases :
      (s : L3 R) (id parent : Bytes) (h : ℤ) (e : ℕ) (c : Bytes) (l : Bool) (now : ℕ)
      → P s
      → P (record s {
        blocks =
            put
              (hex_encode id)
              (with_meta (counters_of w s (hex_encode id) now) (hex_encode parent) h e c l)
              s.blocks;
      })
      → P (record_block_meta w s id parent h e c l now)
  unfolding record_block_meta
  record_block_meta-cases s id parent h e c l now p q = elim (Bool-cases (is_empty id)) [
    | inl no_id ↦ rw (no_id, record_block_meta) p
    | inr given ↦ rw (given, record_block_meta) q
  ]
