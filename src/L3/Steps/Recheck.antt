-- ===== src/L3/Steps/Recheck.antt =====
-- l3_finality.go: what `maybeFinalizeLocked` and the loop of `recheckPending` make final.
use custom_consensus.Base.{
  ℕ, ◌≡◌, ◌∙◌, refl, sym, ap, subst, ◌⊎◌, inl, inr, true, false, Option, none, some, [], ◌∷◌, Text,
  text_eq, eq_of_text_eq, Map, get, get-put, get-put_self, Bool-cases, arith,
}
use custom_consensus.L3.State.{Weights, BlockCounters, L3, Outside}
use custom_consensus.L3.Finality.{
  is_final, is_ready, maybe_finalize, recheck_one, recheck_loop, recheck_pending, finalizes,
  finalized,
}
use custom_consensus.L3.Steps.Final.{
  Final, Same, Same-refl, Same-trans, is_ready-Same, maybe_finalize-Same, maybe_finalize-blocks,
  left_counters, left_counters-ready, Final-put,
}

module _ {R : Type 0} (w : Weights R) where
  -- A final block that passes `isReadyLocked` at this time, with the parameters, cells and devices of
  -- the state.
  abbrev pub ReadyNow : ℕ → L3 R → Text → Type 0
  ReadyNow now s b =
      (blk : BlockCounters R) × (get b s.blocks ≡ some blk)
      × (is_final blk.status ≡ true)
      × (is_ready w s blk now ≡ true)

  -- The final blocks of `t` were final in `s` or are ready.
  abbrev pub Caused : ℕ → L3 R → L3 R → Type 0
  Caused now s t = (c : Text) → Final t c → Final s c ⊎ ReadyNow now t c

  -- The final blocks of `s` are final in `t`, with the same counters.
  abbrev pub Frozen : L3 R → L3 R → Type 0
  Frozen s t =
      (c : Text) (x : BlockCounters R)
      → get c s.blocks ≡ some x
      → is_final x.status ≡ true
      → get c t.blocks ≡ some x

  module _ (o : Outside R) where
    pub maybe_finalize-Caused :
        (s : L3 R) (b : Text) (blk : BlockCounters R) (now : ℕ)
        → (is_final blk.status ≡ true → Final s b)
        → Caused now s (maybe_finalize w o s b blk now)
    maybe_finalize-Caused s b blk now h c (x, found, fin) =
        elim (Final-put s b c (left_counters w o s b blk now) _ x
          (maybe_finalize-blocks w o s b blk now) found) [
            | inr old ↦ inl (x, old, fin)
            | inl (key, e) ↦
                elim (left_counters-ready w o s b blk now
                  (sym (ap (λ y. is_final y.status) e) ∙ fin)) [
                    | inl before ↦ inl (subst (Final s) (sym key) (h before))
                    | inr ready ↦ inr (
                      x,
                      found,
                      fin,
                      is_ready-Same w x now (maybe_finalize-Same w o s b blk now)
                          ∙ ap (λ y. is_ready w s y now) e
                          ∙ ready,
                    )
                  ]
          ]

    recheck_one-Caused :
        (s : L3 R) (now : ℕ) (b : Text) (v : Option (BlockCounters R))
        → get b s.blocks ≡ v
        → Caused now s (recheck_one w o s now b v)
    unfolding recheck_one
    recheck_one-Caused s now b none e = λ c f. inl f
    recheck_one-Caused s now b (some blk) e = elim (Bool-cases (is_final blk.status)) [
      | inl fin ↦ rw (fin, recheck_one) (λ c f. inl f)
      | inr pending ↦
          rw (pending, recheck_one) (maybe_finalize-Caused s b blk now (λ fin. (blk, e, fin)))
    ]

    recheck_one-Same :
        (s : L3 R) (now : ℕ) (b : Text) (v : Option (BlockCounters R))
        → Same s (recheck_one w o s now b v)
    unfolding recheck_one
    recheck_one-Same s now b none = Same-refl s
    recheck_one-Same s now b (some blk) = elim (Bool-cases (is_final blk.status)) [
      | inl fin ↦ rw (fin, recheck_one) (Same-refl s)
      | inr pending ↦ rw (pending, recheck_one) (maybe_finalize-Same w o s b blk now)
    ]

    -- The other blocks keep their counters.
    maybe_finalize_other :
        (s : L3 R) (b c : Text) (blk : BlockCounters R) (now : ℕ)
        → text_eq b c ≡ false
        → get c (maybe_finalize w o s b blk now).blocks ≡ get c s.blocks
    maybe_finalize_other s b c blk now other =
        ap (get c) (maybe_finalize-blocks w o s b blk now)
        ∙ (rw other at (get-put b c (left_counters w o s b blk now) s.blocks))

    recheck_one_other :
        (s : L3 R) (now : ℕ) (b c : Text) (v : Option (BlockCounters R))
        → text_eq b c ≡ false
        → get c (recheck_one w o s now b v).blocks ≡ get c s.blocks
    unfolding recheck_one
    recheck_one_other s now b c none other = refl
    recheck_one_other s now b c (some blk) other = elim (Bool-cases (is_final blk.status)) [
      | inl fin ↦ rw (fin, recheck_one) refl
      | inr pending ↦ rw (pending, recheck_one) (maybe_finalize_other s b c blk now other)
    ]

    recheck_one-Frozen :
        (s : L3 R) (now : ℕ) (b : Text) (v : Option (BlockCounters R))
        → get b s.blocks ≡ v
        → Frozen s (recheck_one w o s now b v)
    unfolding recheck_one
    recheck_one-Frozen s now b v e c x found fin = elim (Bool-cases (text_eq b c)) [
      | inr other ↦ recheck_one_other s now b c v other ∙ found
      | inl same ↦
          let v-x = sym e ∙ ap (λ k. get k s.blocks) (eq_of_text_eq b c same) ∙ found in
          rw (v-x, recheck_one, fin) found
    ]

    pub recheck_loop-Same :
        (m : Map (BlockCounters R)) (s : L3 R) (now : ℕ) → Same s (recheck_loop w o s now m)
    unfolding recheck_loop
    recheck_loop-Same [] s now = Same-refl s
    recheck_loop-Same ((b, y) ∷ m) s now =
        Same-trans (recheck_one-Same s now b (get b s.blocks)) (recheck_loop-Same m _ now)

    pub recheck_loop-Frozen :
        (m : Map (BlockCounters R)) (s : L3 R) (now : ℕ) → Frozen s (recheck_loop w o s now m)
    unfolding recheck_loop
    recheck_loop-Frozen [] s now c x found fin = found
    recheck_loop-Frozen ((b, y) ∷ m) s now c x found fin =
        recheck_loop-Frozen m _ now c x
          (recheck_one-Frozen s now b (get b s.blocks) refl c x found fin) fin

    pub recheck_loop-Caused :
        (m : Map (BlockCounters R)) (s : L3 R) (now : ℕ) → Caused now s (recheck_loop w o s now m)
    unfolding recheck_loop
    recheck_loop-Caused [] s now c f = inl f
    recheck_loop-Caused ((b, y) ∷ m) s now c f =
        let u = recheck_one w o s now b (get b s.blocks) in
        elim (recheck_loop-Caused m u now c f) [
          | inr ready ↦ inr ready
          | inl (z, in_u, fin) ↦
              elim (recheck_one-Caused s now b (get b s.blocks) refl c (z, in_u, fin)) [
                | inl old ↦ inl old
                | inr (x, found, done, ready) ↦ inr (
                  x,
                  recheck_loop-Frozen m u now c x found done,
                  done,
                  is_ready-Same w x now (recheck_loop-Same m u now) ∙ ready,
                )
              ]
        ]

    finalizes_ready :
        (s : L3 R) (blk : BlockCounters R) (now : ℕ)
        → is_ready w s blk now ≡ true
        → is_final blk.status ≡ false
        → finalizes w s blk now ≡ true
    unfolding finalizes is_ready
    finalizes_ready s blk now ready pending = ground arith

    maybe_finalize_ready :
        (s : L3 R) (b : Text) (blk : BlockCounters R) (now : ℕ)
        → is_ready w s blk now ≡ true
        → is_final blk.status ≡ false
        → Final (maybe_finalize w o s b blk now) b
    unfolding left_counters is_final finalized
    maybe_finalize_ready s b blk now ready pending = (
      left_counters w o s b blk now,
      ap (get b) (maybe_finalize-blocks w o s b blk now) ∙ get-put_self b _ s.blocks,
      rw (finalizes_ready s blk now ready pending, left_counters) refl,
    )

    recheck_one_ready :
        (s : L3 R) (now : ℕ) (b : Text) (blk : BlockCounters R) (v : Option (BlockCounters R))
        → v ≡ some blk
        → get b s.blocks ≡ v
        → is_ready w s blk now ≡ true
        → Final (recheck_one w o s now b v) b
    unfolding recheck_one
    recheck_one_ready s now b blk v is e ready = elim (Bool-cases (is_final blk.status)) [
      | inl fin ↦ rw (is, recheck_one, fin) (blk, e ∙ is, fin)
      | inr pending ↦ rw (is, recheck_one, pending) (maybe_finalize_ready s b blk now ready pending)
    ]

    recheck_loop_ready :
        (m : Map (BlockCounters R)) (s : L3 R) (now : ℕ) (b : Text) (y blk : BlockCounters R)
        → get b m ≡ some y
        → get b s.blocks ≡ some blk
        → is_ready w s blk now ≡ true
        → Final (recheck_loop w o s now m) b
    unfolding recheck_loop get
    recheck_loop_ready [] s now b y blk key found ready = absurd (ground arith)
    recheck_loop_ready ((c, z) ∷ m) s now b y blk key found ready =
        elim (Bool-cases (text_eq c b)) [
          | inl same ↦
              let name = eq_of_text_eq c b same in
              let at_c = ap (λ k. get k s.blocks) name ∙ found in
              let (x, there, fin) =
                subst (Final (recheck_one w o s now c (get c s.blocks))) name
                  (recheck_one_ready s now c blk (get c s.blocks) at_c refl ready) in
              (x, recheck_loop-Frozen m _ now b x there fin, fin)
          | inr other ↦
              recheck_loop_ready m (recheck_one w o s now c (get c s.blocks)) now b y blk
                (rw (other, get) at key)
                (recheck_one_other s now c b (get c s.blocks) other ∙ found)
                (is_ready-Same w blk now (recheck_one-Same s now c (get c s.blocks)) ∙ ready)
        ]

    -- The recheck that runs every second leaves no ready block behind: each block that passes
    -- isReadyLocked when it starts is final when it ends.
    pub recheck_pending_ready :
        (s : L3 R) (now : ℕ) (b : Text) (blk : BlockCounters R)
        → get b s.blocks ≡ some blk
        → is_ready w s blk now ≡ true
        → Final (recheck_pending w o s now) b
    unfolding recheck_pending
    recheck_pending_ready s now b blk found ready =
        recheck_loop_ready s.blocks s now b blk blk found found ready
