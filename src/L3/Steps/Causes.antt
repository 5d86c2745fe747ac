-- ===== src/L3/Steps/Causes.antt =====
-- l3_finality.go: why a block is final, and that it stays so.
use custom_consensus.Base.{
  ℕ, ◌≡◌, ◌∙◌, refl, sym, ap, subst, ◌⊎◌, inl, inr, Bool, true, Option, none, some, Text, Bytes,
  get, put, arith, hex_encode,
}
use custom_consensus.Base.Int.{ℤ}
use custom_consensus.L3.State.{
  Weights, BlockCounters, L3, Outside, L3Attestation, ValidatorQcRef, CellRecord, fresh_counters,
  update_total_stake,
}
use custom_consensus.L3.Cells.{register_cell}
use custom_consensus.L3.Finality.{is_final, recheck_pending}
use custom_consensus.L3.Handlers.{
  or_fresh, counters_of, ensure_block, with_meta, record_block_meta, on_envelope,
  record_descendant_qc, record_device_attestation, vote_of_device, with_vote, with_qc,
  note_attester, attested, accept_attestation, update_device_total,
}
use custom_consensus.L3.Steps.{
  Step, ensure, meta, stake, devices, cell, status, failure, attest, device, descendant, recheck,
  hear, count_failure,
}
use custom_consensus.L3.Steps.Cases.{
  accept_attestation-cases, record_device_attestation-cases, record_descendant_qc-cases,
  record_block_meta-cases,
}
use custom_consensus.L3.Steps.Final.{Final, Final-put}
use custom_consensus.L3.Steps.Recheck.{ReadyNow, Caused, maybe_finalize-Caused, recheck_loop-Caused}

module _ {R : Type 0} where
  pub update_device_total-blocks : (s : L3 R) (n : ℤ) → (update_device_total s n).blocks ≡ s.blocks
  unfolding update_device_total
  update_device_total-blocks s n = ground arith

  pub register_cell-blocks :
      (s : L3 R) (rec : CellRecord) (now : ℕ) → (register_cell s rec now).blocks ≡ s.blocks
  unfolding register_cell
  register_cell-blocks s rec now = ground arith

  pub note_attester-blocks :
      (s : L3 R) (d : Text) (now : ℕ) → (note_attester s d now).blocks ≡ s.blocks
  unfolding note_attester
  note_attester-blocks s d now = ground arith

module _ {R : Type 0} (w : Weights R) where
  or_fresh-final :
      (v : Option (BlockCounters R)) (now : ℕ)
      → is_final (or_fresh w v now).status ≡ true
      → v ≡ some (or_fresh w v now)
  unfolding or_fresh fresh_counters is_final
  or_fresh-final none now h = absurd (ground arith)
  or_fresh-final (some blk) now h = refl

  counters_of-Final :
      (s : L3 R) (b : Text) (now : ℕ) → is_final (counters_of w s b now).status ≡ true → Final s b
  unfolding counters_of
  counters_of-Final s b now h = (counters_of w s b now, or_fresh-final (get b s.blocks) now h, h)

  pub counters_of_known :
      (s : L3 R) (b : Text) (now : ℕ) (x : BlockCounters R)
      → get b s.blocks ≡ some x
      → counters_of w s b now ≡ x
  unfolding counters_of or_fresh
  counters_of_known s b now x known = ap (λ v. or_fresh w v now) known

  -- No block becomes final.
  abbrev Kept : L3 R → L3 R → Type 0
  Kept s t = (c : Text) → Final t c → Final s c

  -- A write of counters that are final only if the block was.
  put-Kept :
      (s t : L3 R) (b : Text) (blk : BlockCounters R)
      → t.blocks ≡ put b blk s.blocks
      → (is_final blk.status ≡ true → Final s b)
      → Kept s t
  put-Kept s t b blk e h c (x, found, fin) = elim (Final-put s b c blk t.blocks x e found) [
    | inr old ↦ (x, old, fin)
    | inl (key, is) ↦ subst (Final s) (sym key) (h (sym (ap (λ y. is_final y.status) is) ∙ fin))
  ]

  blocks-Kept : (s t : L3 R) → t.blocks ≡ s.blocks → Kept s t
  blocks-Kept s t e c (x, found, fin) = (x, sym (ap (get c) e) ∙ found, fin)

  Kept-Caused : (now : ℕ) (s t : L3 R) → Kept s t → Caused w now s t
  Kept-Caused now s t k c fin = inl (k c fin)

  Caused-from : (now : ℕ) (s u t : L3 R) → u.blocks ≡ s.blocks → Caused w now u t → Caused w now s t
  Caused-from now s u t e f c fin = elim (f c fin) [
    | inr ready ↦ inr ready
    | inl (x, found, done) ↦ inl (x, sym (ap (get c) e) ∙ found, done)
  ]

  ensure_block-Kept : (s : L3 R) (b : Text) (now : ℕ) → Kept s (ensure_block w s b now)
  unfolding ensure_block
  ensure_block-Kept s b now =
      put-Kept s (ensure_block w s b now) b (counters_of w s b now) refl (counters_of-Final s b now)

  pub update_total_stake-blocks : (s : L3 R) (x : R) → (update_total_stake w s x).blocks ≡ s.blocks
  unfolding update_total_stake
  update_total_stake-blocks s x = ground arith

  module _ (o : Outside R) where
    record_block_meta-Kept :
        (s : L3 R) (id parent : Bytes) (h : ℤ) (e : ℕ) (c : Bytes) (l : Bool) (now : ℕ)
        → Kept s (record_block_meta w s id parent h e c l now)
    unfolding with_meta
    record_block_meta-Kept s id parent h e c l now =
        record_block_meta-cases w o (Kept s) s id parent h e c l now (blocks-Kept s s refl) (
          put-Kept s
            (record s {
              blocks =
                  put (hex_encode id)
                    (with_meta (counters_of w s (hex_encode id) now) (hex_encode parent) h e c l)
                    s.blocks;
            })
            (hex_encode id) _ refl (counters_of-Final s (hex_encode id) now))

    accept_attestation-Caused :
        (s : L3 R) (att : L3Attestation) (now : ℕ)
        → Caused w now s (accept_attestation w o s att now)
    unfolding attested is_final
    accept_attestation-Caused s att now =
        accept_attestation-cases w o (Caused w now s) s att now
          (Kept-Caused now s (ensure_block w s (hex_encode att.block_id) now)
            (ensure_block-Kept s (hex_encode att.block_id) now))
          (λ pending new.
            maybe_finalize-Caused w o s (hex_encode att.block_id) _ now
              (λ h. absurd (ground arith)))

    vote_of_device-Caused :
        (s : L3 R) (b : Text) (id : Text) (now : ℕ)
        → Caused w now s (vote_of_device w o s b (counters_of w s b now) id now).0
    unfolding vote_of_device with_vote
    vote_of_device-Caused s b id now =
        let e = note_attester-blocks s id now in
        Caused-from now s (note_attester s id now) _ e (
          maybe_finalize-Caused w o (note_attester s id now) b _ now (λ h.
            let (x, found, fin) = counters_of-Final s b now h in (x, ap (get b) e ∙ found, fin)))

    record_device_attestation-Caused :
        (s : L3 R) (block_id : Bytes) (id : Text) (now : ℕ)
        → Caused w now s (record_device_attestation w o s block_id id now).0
    record_device_attestation-Caused s block_id id now =
        record_device_attestation-cases w o (Caused w now s) s block_id id now
          (Kept-Caused now s s (blocks-Kept s s refl))
          (Kept-Caused now s (ensure_block w s (hex_encode block_id) now)
            (ensure_block-Kept s (hex_encode block_id) now))
          (λ attester pending new. vote_of_device-Caused s (hex_encode block_id) id now)

    record_descendant_qc-Caused :
        (s : L3 R) (id : Bytes) (ref : ValidatorQcRef R) (now : ℕ)
        → Caused w now s (record_descendant_qc w o s id ref now)
    unfolding with_qc
    record_descendant_qc-Caused s id ref now =
        record_descendant_qc-cases w o (Caused w now s) s id ref now
          (Kept-Caused now s s (blocks-Kept s s refl))
          (maybe_finalize-Caused w o s (hex_encode id) _ now
            (counters_of-Final s (hex_encode id) now))

    -- A step that receives an envelope for the block.
    abbrev pub Hears : {s t : L3 R} → Step w o s t → Text → Type 0
    Hears (hear s env now) b = b ≡ hex_encode env.block_id
    Hears _ b = ⊥

    -- A step that calls `maybeFinalizeLocked` and leaves the block ready at the time of the step.
    abbrev pub Finds : {s t : L3 R} → Step w o s t → Text → Type 0
    Finds (attest s att now p) b = ReadyNow w now (accept_attestation w o s att now) b
    Finds (device s id d now) b = ReadyNow w now (record_device_attestation w o s id d now).0 b
    Finds (descendant s id ref now) b = ReadyNow w now (record_descendant_qc w o s id ref now) b
    Finds (recheck s now) b = ReadyNow w now (recheck_pending w o s now) b
    Finds _ b = ⊥

    own {ℓ κ μ} : {A : Type ℓ} (B : Type κ) (C : Type μ) → A ⊎ C → A ⊎ (B ⊎ C)
    own B C (inl a) = inl a
    own B C (inr c) = inr (inr c)

    -- A block becomes final only in two ways: an envelope for it is received from the network, or a
    -- step that counts an attestation, a device's vote or a descendant's certificate, or rechecks, finds
    -- it ready: it passes isReadyLocked at the time of the step, in the state that the step leaves.
    pub Step-Final :
        {s t : L3 R} (st : Step w o s t) (b : Text)
        → Final t b
        → Final s b ⊎ (Hears st b ⊎ Finds st b)
    unfolding on_envelope recheck_pending count_failure
    Step-Final (ensure s x now) b f = inl (ensure_block-Kept s x now b f)
    Step-Final (meta s id p h e c l now) b f = inl (record_block_meta-Kept s id p h e c l now b f)
    Step-Final (stake s x) b f =
        inl (blocks-Kept s (update_total_stake w s x) (update_total_stake-blocks s x) b f)
    Step-Final (devices s n) b f =
        inl (blocks-Kept s (update_device_total s n) (update_device_total-blocks s n) b f)
    Step-Final (cell s rec now) b f =
        inl (blocks-Kept s (register_cell s rec now) (register_cell-blocks s rec now) b f)
    Step-Final (status s id k now) b f = inl f
    Step-Final (failure s id) b f = inl f
    Step-Final (attest s att now p) b f = own _ _ (accept_attestation-Caused s att now b f)
    Step-Final (device s id d now) b f = own _ _ (record_device_attestation-Caused s id d now b f)
    Step-Final (descendant s id ref now) b f =
        own _ _ (record_descendant_qc-Caused s id ref now b f)
    Step-Final (recheck s now) b f = own _ _ (recheck_loop-Caused w o s.blocks s now b f)
    Step-Final (hear s env now) b (x, found, fin) =
        elim (Final-put s (hex_encode env.block_id) b _ _ x refl found) [
          | inl (key, e) ↦ inr (inl key)
          | inr old ↦ inl (x, old, fin)
        ]
