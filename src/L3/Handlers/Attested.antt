-- ===== src/L3/Handlers/Attested.antt =====
-- l3_finality.go: `onAttestation` as a sequence of locked sections, and which attestations count.
use custom_consensus.Base.{
  ℕ, ◌+◌, ◌≤◌, ◌≡◌, ◌∙◌, refl, ap, ◌⊎◌, inl, inr, true, false, not, ◌&&◌, Option, none, some, Text,
  Bytes, get, has, length, is_empty, Bool-cases, arith, leb, ◌==◌, hex_encode,
}
use custom_consensus.L3.State.{Weights, L3, Outside, cell_quarantined, CellRecord, L3Attestation}
use custom_consensus.L3.Cells.{is_active, quarantine_cell}
use custom_consensus.L3.Sampling.Plans.{sample_plan-IsPlan}
use custom_consensus.L3.Finality.{is_final}
use custom_consensus.L3.Handlers.{
  failures_of, record_failure, on_attestation, attest_known, attest_signed, with_indices,
  check_attestation, accept_attestation, verify_attestation_signature, counters_of, ensure_block,
}
use custom_consensus.L3.Steps.{
  ensure, failure, status, attest, Reach, start, next, one, Reach-trans, count_failure,
}

module _ {R : Type 0} where
  record_failure-blocks :
      (s : L3 R) (id : Text) (now : ℕ) → (record_failure s id now).blocks ≡ s.blocks
  unfolding record_failure quarantine_cell
  record_failure-blocks s id now = ground arith

module _ {R : Type 0} (w : Weights R) (o : Outside R) where
  -- An attestation whose cell is active, which the cell's key has signed if it is an Ed25519 key, and
  -- whose proofs the verifier accepts; `att` names the indices of the plan where the message had none.
  pub record Vouched (s : L3 R) (msg att : L3Attestation) (now : ℕ) : Type 0 where
    pub cell : CellRecord
    pub registered : get msg.cell_id s.cells ≡ some cell
    pub active : is_active cell.status ≡ true
    pub indices : with_indices w o s msg ≡ some att
    pub signed :
        ((length cell.pub_key == 32) ≡ false)
        ⊎ (verify_attestation_signature w o att cell.pub_key ≡ true)
    pub proven :
        o.verify_data att.block_id att.sample_indices att.proofs
          (counters_of w s (hex_encode att.block_id) now).da_commitment
        ≡ true

  -- What the handler did: it left the blocks as they were, or only made the block's entry, or went on
  -- to the second locked section with an attestation that is vouched for.
  abbrev pub Handled : L3 R → L3Attestation → ℕ → L3 R → Type 0
  Handled s msg now t =
      (t.blocks ≡ s.blocks)
      ⊎ ((t.blocks ≡ (ensure_block w s (hex_encode msg.block_id) now).blocks)
          ⊎ ((att : L3Attestation) × Vouched s msg att now
              × (t
                  ≡ accept_attestation w o (ensure_block w s (hex_encode att.block_id) now) att
                      now)))

  record_failure-Reach : (s : L3 R) (id : Text) (now : ℕ) → Reach w o s (record_failure s id now)
  unfolding record_failure quarantine_cell count_failure
  record_failure-Reach s id now =
      elim (Bool-cases (leb s.params.max_misbehavior (failures_of s.misbehave id + 1))) [
        | inl many ↦
            rw (many, record_failure)
              (next (one (failure s id)) (status (count_failure s id) id cell_quarantined now))
        | inr few ↦ rw (few, record_failure) (one (failure s id))
      ]

  -- The branches from the first locked section on.
  check_attestation-cases {κ} :
      (P : L3 R → Type κ) (s : L3 R) (att : L3Attestation) (now : ℕ)
      → P (ensure_block w s (hex_encode att.block_id) now)
      → P (record_failure (ensure_block w s (hex_encode att.block_id) now) att.cell_id now)
      → (o.verify_data att.block_id att.sample_indices att.proofs
              (counters_of w s (hex_encode att.block_id) now).da_commitment
            ≡ true
          → P (accept_attestation w o (ensure_block w s (hex_encode att.block_id) now) att now))
      → P (check_attestation w o s att now)
  unfolding check_attestation
  check_attestation-cases P s att now p q r =
      let blk = counters_of w s (hex_encode att.block_id) now in
      elim (Bool-cases (is_final blk.status)) [
        | inl fin ↦ rw (fin, check_attestation) p
        | inr pending ↦ elim (Bool-cases (has att.cell_id blk.attestations)) [
          | inl seen ↦ rw (pending, seen, check_attestation) p
          | inr new ↦
              elim (Bool-cases
                (o.verify_data att.block_id att.sample_indices att.proofs blk.da_commitment)) [
                  | inr refused ↦ rw (pending, new, refused, check_attestation) q
                  | inl proven ↦ rw (pending, new, proven, check_attestation) (r proven)
                ]
        ]
      ]

  check_attestation-Reach :
      (s : L3 R) (att : L3Attestation) (now : ℕ) → Reach w o s (check_attestation w o s att now)
  check_attestation-Reach s att now =
      let first = one (ensure s (hex_encode att.block_id) now) in
      check_attestation-cases (Reach w o s) s att now first
        (Reach-trans first (record_failure-Reach _ att.cell_id now))
        (λ proven. next first (attest _ att now (_, proven)))

  -- The result of the handler: a state reached by locked sections, with the blocks of `Handled`.
  abbrev pub Ran : L3 R → L3Attestation → ℕ → Option (L3 R) → Type 0
  Ran s msg now v = (t : L3 R) × (v ≡ some t) × Reach w o s t × Handled s msg now t

  with_indices-block_id :
      (s : L3 R) (msg att : L3Attestation)
      → with_indices w o s msg ≡ some att
      → att.block_id ≡ msg.block_id
  unfolding with_indices
  with_indices-block_id s msg att e = ground arith

  checked :
      (s : L3 R) (msg att : L3Attestation) (now : ℕ) (rec : CellRecord)
      → get msg.cell_id s.cells ≡ some rec
      → is_active rec.status ≡ true
      → with_indices w o s msg ≡ some att
      → ((length rec.pub_key == 32) ≡ false)
        ⊎ (verify_attestation_signature w o att rec.pub_key ≡ true)
      → Handled s msg now (check_attestation w o s att now)
  checked s msg att now rec found live named signed =
      let b = ap hex_encode (with_indices-block_id s msg att named) in
      let same = ap (λ k. (ensure_block w s k now).blocks) b in
      check_attestation-cases (Handled s msg now) s att now (inr (inl same))
        (inr (inl (record_failure-blocks _ att.cell_id now ∙ same)))
        (λ proven. inr (
          inr (
            att,
            record {
              cell = rec;
              registered = found;
              active = live;
              indices = named;
              signed = signed;
              proven = proven;
            },
            refl,
          )))

  attest_signed-Ran :
      (s : L3 R) (msg att : L3Attestation) (now : ℕ) (rec : CellRecord)
      → get msg.cell_id s.cells ≡ some rec
      → is_active rec.status ≡ true
      → with_indices w o s msg ≡ some att
      → Ran s msg now (attest_signed w o s rec now (some att))
  unfolding attest_signed
  attest_signed-Ran s msg att now rec found live named =
      elim (Bool-cases
        ((length rec.pub_key == 32) && not (verify_attestation_signature w o att rec.pub_key))) [
          | inl forged ↦ (
            record_failure s att.cell_id now,
            rw (forged, attest_signed) refl,
            record_failure-Reach s att.cell_id now,
            inl (record_failure-blocks s att.cell_id now),
          )
          | inr fine ↦ (
            check_attestation w o s att now,
            rw (fine, attest_signed) refl,
            check_attestation-Reach s att now,
            checked s msg att now rec found live named (ground arith),
          )
        ]

  with_indices-some :
      (s : L3 R) (msg : L3Attestation)
      → ((bs : Bytes) → 4 ≤ length (o.sha256 bs))
      → (att : L3Attestation) × (with_indices w o s msg ≡ some att)
  unfolding with_indices
  with_indices-some s msg hash =
      let (plan, e, ok) =
        sample_plan-IsPlan o msg.block_id msg.cell_id msg.epoch s.params.samples_per_cell
          msg.total_chunks hash in
      elim (Bool-cases (is_empty msg.sample_indices)) [
        | inl without ↦ (record msg { sample_indices = plan }, rw (without, with_indices, e) refl)
        | inr named ↦ (msg, rw (named, with_indices) refl)
      ]

  attest_known-Ran :
      (s : L3 R) (msg : L3Attestation) (now : ℕ) (v : Option CellRecord)
      → ((bs : Bytes) → 4 ≤ length (o.sha256 bs))
      → get msg.cell_id s.cells ≡ v
      → Ran s msg now (attest_known w o s msg now v)
  unfolding attest_known
  attest_known-Ran s msg now none hash found = (s, refl, start, inl refl)
  attest_known-Ran s msg now (some rec) hash found = elim (Bool-cases (is_active rec.status)) [
    | inr idle ↦ (s, rw (idle, attest_known) refl, start, inl refl)
    | inl live ↦
        let (att, named) = with_indices-some s msg hash in
        rw (live, attest_known, named) (attest_signed-Ran s msg att now rec found live named)
  ]

  -- With a hash of at least four bytes, onAttestation returns; what it does is a sequence of the
  -- service's locked sections; and it leaves the counters of every block as they were (but for making
  -- the entry of the block that is named) unless the attestation's cell is active, its signature
  -- verifies if the cell's key has 32 bytes, and the verifier accepts its proofs. For a cell with a key
  -- of any other length the code asks for no signature.
  pub on_attestation-Ran :
      (s : L3 R) (msg : L3Attestation) (now : ℕ)
      → ((bs : Bytes) → 4 ≤ length (o.sha256 bs))
      → Ran s msg now (on_attestation w o s (some msg) now)
  unfolding on_attestation
  on_attestation-Ran s msg now hash = attest_known-Ran s msg now (get msg.cell_id s.cells) hash refl
