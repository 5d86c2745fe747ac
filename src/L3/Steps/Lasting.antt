-- ===== src/L3/Steps/Lasting.antt =====
-- l3_finality.go: finality is never taken back.
use custom_consensus.Base.{
  ℕ, ◌≡◌, ◌∙◌, refl, sym, ap, Bool, true, some, Text, Bytes, get, put, arith, hex_encode,
}
use custom_consensus.Base.Int.{ℤ}
use custom_consensus.L3.State.{Weights, BlockCounters, L3, Outside, update_total_stake}
use custom_consensus.L3.Cells.{register_cell}
use custom_consensus.L3.Finality.{is_final, maybe_finalize, recheck_pending, finalized, finalizes}
use custom_consensus.L3.Handlers.{
  or_fresh, counters_of, ensure_block, with_meta, with_qc, with_vote, attested, on_envelope,
  vote_of_device, note_attester, update_device_total,
}
use custom_consensus.L3.Steps.{
  Step, ensure, meta, stake, devices, cell, status, failure, attest, device, descendant, recheck,
  hear, Reach, start, next, count_failure,
}
use custom_consensus.L3.Steps.Cases.{
  accept_attestation-cases, record_device_attestation-cases, record_descendant_qc-cases,
  record_block_meta-cases,
}
use custom_consensus.L3.Steps.Final.{Final, put-Final, maybe_finalize-blocks, left_counters}
use custom_consensus.L3.Steps.Recheck.{recheck_loop-Frozen}
use custom_consensus.L3.Steps.Causes.{
  counters_of_known, update_total_stake-blocks, update_device_total-blocks, register_cell-blocks,
  note_attester-blocks,
}

module _ {R : Type 0} where
  abbrev pub Lasts : L3 R → L3 R → Type 0
  Lasts s t = (c : Text) → Final s c → Final t c

  blocks-Lasts : (s t : L3 R) → t.blocks ≡ s.blocks → Lasts s t
  blocks-Lasts s t e c (x, found, fin) = (x, ap (get c) e ∙ found, fin)

  Lasts-trans : (s t u : L3 R) → Lasts s t → Lasts t u → Lasts s u
  Lasts-trans s t u p q c f = q c (p c f)

  module _ (w : Weights R) where
    -- A write of counters that are final if the block was.
    put-Lasts :
        (s t : L3 R) (b : Text) (blk : BlockCounters R) (now : ℕ)
        → t.blocks ≡ put b blk s.blocks
        → (is_final (counters_of w s b now).status ≡ true → is_final blk.status ≡ true)
        → Lasts s t
    put-Lasts s t b blk now e h c f =
        put-Final s b c blk t.blocks e
          (λ x known fin.
            h (ap (λ y. is_final y.status) (counters_of_known w s b now x known) ∙ fin))
          f

    ensure_block-Lasts : (s : L3 R) (b : Text) (now : ℕ) → Lasts s (ensure_block w s b now)
    unfolding ensure_block
    ensure_block-Lasts s b now =
        put-Lasts s (ensure_block w s b now) b (counters_of w s b now) now refl (λ h. h)

    meta-Lasts :
        (s : L3 R) (b p : Text) (h : ℤ) (e : ℕ) (c : Bytes) (l : Bool) (now : ℕ)
        → Lasts s
            (record s { blocks = put b (with_meta (counters_of w s b now) p h e c l) s.blocks })
    unfolding with_meta
    meta-Lasts s b p h e c l now =
        let blk = with_meta (counters_of w s b now) p h e c l in
        put-Lasts s (record s { blocks = put b blk s.blocks }) b blk now refl (λ h. h)

    module _ (o : Outside R) where
      left_counters-final :
          (s : L3 R) (b : Text) (blk : BlockCounters R) (now : ℕ)
          → is_final blk.status ≡ true
          → is_final (left_counters w o s b blk now).status ≡ true
      unfolding left_counters finalizes
      left_counters-final s b blk now h = rw (h, left_counters, finalizes) (ground arith)

      maybe_finalize-Lasts :
          (s : L3 R) (b : Text) (blk : BlockCounters R) (now : ℕ)
          → (is_final (counters_of w s b now).status ≡ true → is_final blk.status ≡ true)
          → Lasts s (maybe_finalize w o s b blk now)
      maybe_finalize-Lasts s b blk now h =
          put-Lasts s (maybe_finalize w o s b blk now) b (left_counters w o s b blk now) now
            (maybe_finalize-blocks w o s b blk now) (λ f. left_counters-final s b blk now (h f))

      pub Step-Lasts : {s t : L3 R} → Step w o s t → Lasts s t
      unfolding on_envelope recheck_pending count_failure finalized is_final attested with_meta
          with_qc vote_of_device with_vote counters_of
      Step-Lasts (ensure s b now) = ensure_block-Lasts s b now
      Step-Lasts (meta s id p h e c l now) =
          record_block_meta-cases w o (Lasts s) s id p h e c l now (blocks-Lasts s s refl)
            (meta-Lasts s (hex_encode id) (hex_encode p) h e c l now)
      Step-Lasts (stake s x) =
          blocks-Lasts s (update_total_stake w s x) (update_total_stake-blocks w s x)
      Step-Lasts (devices s n) =
          blocks-Lasts s (update_device_total s n) (update_device_total-blocks s n)
      Step-Lasts (cell s rec now) =
          blocks-Lasts s (register_cell s rec now) (register_cell-blocks s rec now)
      Step-Lasts (status s id k now) = λ c f. f
      Step-Lasts (failure s id) = λ c f. f
      Step-Lasts (attest s att now p) =
          accept_attestation-cases w o (Lasts s) s att now
            (ensure_block-Lasts s (hex_encode att.block_id) now)
            (λ pending new.
              maybe_finalize-Lasts s (hex_encode att.block_id) _ now (λ h. absurd (ground arith)))
      Step-Lasts (device s block_id id now) =
          record_device_attestation-cases w o (Lasts s) s block_id id now (blocks-Lasts s s refl)
            (ensure_block-Lasts s (hex_encode block_id) now)
            (λ attester pending new.
              Lasts-trans s (note_attester s id now)
                (maybe_finalize w o (note_attester s id now) (hex_encode block_id)
                  (with_vote (counters_of w s (hex_encode block_id) now) id) now)
                (blocks-Lasts s (note_attester s id now) (note_attester-blocks s id now))
                (maybe_finalize-Lasts (note_attester s id now) (hex_encode block_id) _ now (λ h.
                  ap (λ m. is_final (or_fresh w (get (hex_encode block_id) m) now).status)
                    (sym (note_attester-blocks s id now))
                  ∙ h)))
      Step-Lasts (descendant s id ref now) =
          record_descendant_qc-cases w o (Lasts s) s id ref now (blocks-Lasts s s refl)
            (maybe_finalize-Lasts s (hex_encode id) _ now (λ h. h))
      Step-Lasts (recheck s now) = λ c f.
          let (x, found, fin) = f in (x, recheck_loop-Frozen w o s.blocks s now c x found fin, fin)
      Step-Lasts (hear s env now) =
          put-Lasts s (on_envelope w s (some env) now) (hex_encode env.block_id)
            (finalized (counters_of w s (hex_encode env.block_id) now) env) now refl (λ h. refl)

      -- Finality is never taken back: however the goroutines and the callers interleave, a block that
      -- is final stays final.
      pub Reach-Final : {s t : L3 R} → Reach w o s t → (b : Text) → Final s b → Final t b
      Reach-Final start b f = f
      Reach-Final (next r st) b f = Step-Lasts st b (Reach-Final r b f)
