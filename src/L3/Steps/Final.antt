-- ===== src/L3/Steps/Final.antt =====
-- l3_finality.go: how a write to the block map changes which blocks are final.
use custom_consensus.Base.{
  ℕ, ◌≡◌, ◌∙◌, refl, sym, ap, ◌⊎◌, inl, inr, true, some, Text, text_eq, eq_of_text_eq, Map, get,
  put, get-put, get-put_self, Bool-cases, arith, if◌then◌else◌, unwrap,
}
use custom_consensus.L3.State.{Weights, FinalityEnvelope, BlockCounters, L3, Outside}
use custom_consensus.L3.Finality.{
  is_final, attester_total, required_cells, grace_of, enough_cells, enough_devices, enough_stake,
  is_ready, finalizes, finalized, build_envelope, maybe_finalize,
}

module _ {R : Type 0} where
  -- A block that the service holds to be final.
  abbrev pub Final : L3 R → Text → Type 0
  Final s b = (blk : BlockCounters R) × (get b s.blocks ≡ some blk) × (is_final blk.status ≡ true)

  -- What decides readiness, besides a block's own counters.
  pub record Same (s t : L3 R) : Type 0 where
    pub same_params : t.params ≡ s.params
    pub same_cells : t.cells ≡ s.cells
    pub same_attesters : t.attesters ≡ s.attesters
    pub same_devices : t.devices_total ≡ s.devices_total

  pub Same-refl : (s : L3 R) → Same s s
  Same-refl s = record {
    same_params = refl;
    same_cells = refl;
    same_attesters = refl;
    same_devices = refl;
  }

  pub Same-trans : {s t u : L3 R} → Same s t → Same t u → Same s u
  Same-trans p q = record {
    same_params = q.same_params ∙ p.same_params;
    same_cells = q.same_cells ∙ p.same_cells;
    same_attesters = q.same_attesters ∙ p.same_attesters;
    same_devices = q.same_devices ∙ p.same_devices;
  }

  module _ (w : Weights R) where
    pub is_ready-Same :
        {s t : L3 R} (blk : BlockCounters R) (now : ℕ)
        → Same s t
        → is_ready w t blk now ≡ is_ready w s blk now
    unfolding is_ready enough_cells enough_devices enough_stake required_cells grace_of
        attester_total
    is_ready-Same blk now p =
        rw (p.same_params, p.same_cells, p.same_attesters, p.same_devices) refl

    pub is_ready-finalized :
        (s : L3 R) (blk : BlockCounters R) (env : FinalityEnvelope R) (now : ℕ)
        → is_ready w s (finalized blk env) now ≡ is_ready w s blk now
    unfolding is_ready enough_cells enough_devices enough_stake finalized
    is_ready-finalized s blk env now = refl

    module _ (o : Outside R) where
      pub maybe_finalize-Same :
          (s : L3 R) (b : Text) (blk : BlockCounters R) (now : ℕ)
          → Same s (maybe_finalize w o s b blk now)
      unfolding maybe_finalize
      maybe_finalize-Same s b blk now = elim (Bool-cases (finalizes w s blk now)) [
        | inl done ↦
            rw (done, maybe_finalize)
              (record {
                same_params = refl;
                same_cells = refl;
                same_attesters = refl;
                same_devices = refl;
              })
        | inr open_still ↦
            rw (open_still, maybe_finalize)
              (record {
                same_params = refl;
                same_cells = refl;
                same_attesters = refl;
                same_devices = refl;
              })
      ]

      -- The counters that `maybeFinalizeLocked` leaves.
      unfoldable pub left_counters : L3 R → Text → BlockCounters R → ℕ → BlockCounters R
      left_counters s b blk now =
          if finalizes w s blk now then finalized blk (build_envelope s b blk now) else blk

      pub maybe_finalize-blocks :
          (s : L3 R) (b : Text) (blk : BlockCounters R) (now : ℕ)
          → (maybe_finalize w o s b blk now).blocks ≡ put b (left_counters s b blk now) s.blocks
      unfolding maybe_finalize left_counters
      maybe_finalize-blocks s b blk now = elim (Bool-cases (finalizes w s blk now)) [
        | inl done ↦ rw (done, maybe_finalize) refl
        | inr open_still ↦ rw (open_still, maybe_finalize) refl
      ]

      pub left_counters-ready :
          (s : L3 R) (b : Text) (blk : BlockCounters R) (now : ℕ)
          → is_final (left_counters s b blk now).status ≡ true
          → (is_final blk.status ≡ true) ⊎ (is_ready w s (left_counters s b blk now) now ≡ true)
      unfolding left_counters finalizes
      left_counters-ready s b blk now h = elim (Bool-cases (finalizes w s blk now)) [
        | inl done ↦ inr (
            rw (done, left_counters, is_ready-finalized s blk (build_envelope s b blk now) now)
              (ground arith))
        | inr open_still ↦ inl (rw (open_still, left_counters) at h)
      ]

  -- A block that is final after a write was the written one or was final before.
  pub Final-put :
      (s : L3 R) (b c : Text) (blk : BlockCounters R) (blocks : Map (BlockCounters R))
      (x : BlockCounters R)
      → blocks ≡ put b blk s.blocks
      → get c blocks ≡ some x
      → ((c ≡ b) × (x ≡ blk)) ⊎ (get c s.blocks ≡ some x)
  Final-put s b c blk blocks x e found = elim (Bool-cases (text_eq b c)) [
    | inl same ↦
        let key = eq_of_text_eq b c same in
        inl (
          sym key,
          unwrap (
              sym found
              ∙ ap (get c) e
              ∙ ap (λ k. get c (put k blk s.blocks)) key
              ∙ get-put_self c blk s.blocks),
        )
    | inr other ↦ inr (sym (rw other at (get-put b c blk s.blocks)) ∙ sym (ap (get c) e) ∙ found)
  ]

  pub put-Final :
      (s : L3 R) (b c : Text) (blk : BlockCounters R) (blocks : Map (BlockCounters R))
      → blocks ≡ put b blk s.blocks
      → ((x : BlockCounters R)
          → get b s.blocks ≡ some x
          → is_final x.status ≡ true
          → is_final blk.status ≡ true)
      → Final s c
      → (x : BlockCounters R) × (get c blocks ≡ some x) × (is_final x.status ≡ true)
  put-Final s b c blk blocks e keeps (x, found, fin) = elim (Bool-cases (text_eq b c)) [
    | inl same ↦
        let key = eq_of_text_eq b c same in
        (
          blk,
          ap (get c) e ∙ ap (λ k. get c (put k blk s.blocks)) key ∙ get-put_self c blk s.blocks,
          keeps x (ap (λ k. get k s.blocks) key ∙ found) fin,
        )
    | inr other ↦ (x, ap (get c) e ∙ (rw other at (get-put b c blk s.blocks)) ∙ found, fin)
  ]
