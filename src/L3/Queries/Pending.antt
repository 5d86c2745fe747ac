-- ===== src/L3/Queries/Pending.antt =====
-- l3_finality.go: the block that `NextPending` names.
use custom_consensus.Base.{
  ℕ, zero, suc, not, ltb, leb, ◌<◌, ◌≤◌, ◌≡◌, ◌∙◌, refl, sym, ap, subst, ◌⊎◌, inl, inr, true, false,
  ◌&&◌, none, some, [], ◌∷◌, length, Text, text_eq, eq_of_text_eq, text_eq_refl, is_empty, Map, get,
  All, Distinct, Bool-cases, arith, if◌then◌else◌,
}
use custom_consensus.Base.Int.{ℤ, negsuc, ◌≤ℤ◌}
use custom_consensus.L3.State.{BlockCounters, L3}
use custom_consensus.L3.Finality.{is_final, required_devices, attester_total}
use custom_consensus.L3.Queries.{
  Best, PendingBlock, no_block, awaits, better, pending_loop, pending_block, next_pending,
}

zero_or_more : (n votes : ℕ) → not (ltb 0 n && leb n votes) ≡ true → (n ≡ 0) ⊎ (votes < n)
zero_or_more zero votes h = inl refl
zero_or_more (suc n) votes h = inr (ground arith)

clash {ℓ} : {A : Type ℓ} {a : A} → none ≡ some a → ⊥
clash e = ground arith

is_empty_lem : (t : Text) → is_empty t ≡ true → t ≡ []
unfolding is_empty
is_empty_lem [] h = refl
is_empty_lem (c ∷ t) h = ground arith

better-le :
    {R : Type 0} (best : Best) (blk : BlockCounters R)
    → better best blk ≡ true
    → best.best_height ≤ℤ blk.height
unfolding better
better-le best blk h = ground arith

better-ge :
    {R : Type 0} (best : Best) (blk : BlockCounters R)
    → better best blk ≡ false
    → blk.height ≤ℤ best.best_height
unfolding better
better-ge best blk h = ground arith

≤ℤ-trans : (a b c : ℤ) → a ≤ℤ b → b ≤ℤ c → a ≤ℤ c
≤ℤ-trans a b c p q = omega arith

module _ {R : Type 0} (required : ℕ) where
  chosen_best : Text → BlockCounters R → Best
  chosen_best id blk = record {
    best_id = id;
    best_height = blk.height;
    best_seen = some blk.first_seen;
  }

  -- One pass of the loop.
  next_best : Best → Text → BlockCounters R → Best
  unfolding chosen_best
  next_best best id blk =
      if awaits required blk && better best blk then chosen_best id blk else best

  -- The two outcomes of a pass.
  next_best-cases :
      (best : Best) (id : Text) (blk : BlockCounters R)
      → ((next_best best id blk ≡ chosen_best id blk)
          × (awaits required blk ≡ true)
          × (best.best_height ≤ℤ blk.height))
        ⊎ ((next_best best id blk ≡ best)
            × ((awaits required blk ≡ false) ⊎ (blk.height ≤ℤ best.best_height)))
  unfolding next_best
  next_best-cases best id blk = elim (Bool-cases (awaits required blk)) [
    | inr idle ↦ inr (rw (idle, next_best) refl, inl idle)
    | inl waits ↦ elim (Bool-cases (better best blk)) [
      | inl yes_better ↦
          inl (rw (waits, yes_better, next_best) refl, waits, better-le best blk yes_better)
      | inr worse ↦ inr (rw (waits, worse, next_best) refl, inr (better-ge best blk worse))
    ]
  ]

  next_best-le :
      (best : Best) (id : Text) (blk : BlockCounters R)
      → best.best_height ≤ℤ (next_best best id blk).best_height
  unfolding chosen_best
  next_best-le best id blk = elim (next_best-cases best id blk) [
    | inl (e, _, le) ↦ rw e le
    | inr (e, _) ↦ rw e (omega arith)
  ]

  pending_loop-le :
      (m : Map (BlockCounters R)) (best : Best)
      → best.best_height ≤ℤ (pending_loop required best m).best_height
  unfolding pending_loop next_best
  pending_loop-le [] best = omega arith
  pending_loop-le ((id, blk) ∷ m) best =
      ≤ℤ-trans _ (next_best best id blk).best_height _ (next_best-le best id blk)
        (pending_loop-le m (next_best best id blk))

  -- A block that does not wait, or is no higher than this.
  abbrev pub NoHigher : ℤ → Text × BlockCounters R → Type 0
  NoHigher h e = (awaits required e.1 ≡ false) ⊎ (e.1.height ≤ℤ h)

  next_best-NoHigher :
      (best : Best) (id : Text) (blk : BlockCounters R)
      → NoHigher (next_best best id blk).best_height (id, blk)
  unfolding chosen_best
  next_best-NoHigher best id blk = elim (next_best-cases best id blk) [
    | inl (e, _, le) ↦ inr (rw e (omega arith))
    | inr (e, inl idle) ↦ inl idle
    | inr (e, inr le) ↦ inr (rw e le)
  ]

  NoHigher-le : (h k : ℤ) (e : Text × BlockCounters R) → NoHigher h e → h ≤ℤ k → NoHigher k e
  NoHigher-le h k e (inl idle) le = inl idle
  NoHigher-le h k e (inr low) le = inr (≤ℤ-trans e.1.height h k low le)

  pending_loop-NoHigher :
      (m : Map (BlockCounters R)) (best : Best)
      → All (NoHigher (pending_loop required best m).best_height) m
  unfolding pending_loop next_best
  pending_loop-NoHigher [] best = tt
  pending_loop-NoHigher ((id, blk) ∷ m) best = (
    NoHigher-le _ _ (id, blk) (next_best-NoHigher best id blk)
        (pending_loop-le m (next_best best id blk)),
    pending_loop-NoHigher m (next_best best id blk),
  )

  -- An entry of the map that waits, at the height that the loop noted.
  abbrev pub Waits : Map (BlockCounters R) → Best → Type 0
  Waits m best =
      (blk : BlockCounters R) × (get best.best_id m ≡ some blk)
      × (awaits required blk ≡ true)
      × (blk.height ≡ best.best_height)

  Waits-cons :
      (id : Text) (x : BlockCounters R) (m : Map (BlockCounters R)) (best : Best)
      → get id m ≡ none
      → Waits m best
      → Waits ((id, x) ∷ m) best
  unfolding get
  Waits-cons id x m best fresh (blk, found, waits, e) =
      elim (Bool-cases (text_eq id best.best_id)) [
        | inl same ↦ absurd (clash (sym (rw (eq_of_text_eq id best.best_id same) at fresh) ∙ found))
        | inr other ↦ (blk, rw (other, get) found, waits, e)
      ]

  chosen_Waits :
      (id : Text) (blk : BlockCounters R) (m : Map (BlockCounters R)) (best : Best)
      → awaits required blk ≡ true
      → best ≡ chosen_best id blk
      → Waits ((id, blk) ∷ m) best
  unfolding get chosen_best
  chosen_Waits id blk m best waits e = (
    blk,
    rw (ap (λ x. x.best_id) e, get, text_eq_refl id) refl,
    waits,
    sym (ap (λ x. x.best_height) e),
  )

  pending_loop-Waits :
      (m : Map (BlockCounters R)) (best : Best)
      → Distinct m
      → (pending_loop required best m ≡ best) ⊎ Waits m (pending_loop required best m)
  unfolding pending_loop next_best
  pending_loop-Waits [] best d = inl refl
  pending_loop-Waits ((id, blk) ∷ m) best (fresh, d) =
      elim (pending_loop-Waits m (next_best best id blk) d) [
        | inr found ↦
            inr (Waits-cons id blk m (pending_loop required (next_best best id blk) m) fresh found)
        | inl kept ↦ elim (next_best-cases best id blk) [
          | inr (e, _) ↦ inl (kept ∙ e)
          | inl (e, waits, _) ↦ inr (
              chosen_Waits id blk m (pending_loop required (next_best best id blk) m) waits
                (kept ∙ e))
        ]
      ]

module _ {R : Type 0} where
  -- What `NextPending` returns for a block.
  abbrev pub report : ℕ → ℕ → Text → BlockCounters R → PendingBlock
  report required total id blk = record {
    block = id;
    height = blk.height;
    votes = length blk.device_votes;
    required = required;
    total = total;
    ok = true;
  }

  -- A committed block that is not final and has fewer device votes than are required, or any number
  -- if none are.
  abbrev pub Lacks : ℕ → BlockCounters R → Type 0
  Lacks required blk =
      (is_final blk.status ≡ false)
      × (blk.l2_committed ≡ true)
      × ((required ≡ 0) ⊎ (length blk.device_votes < required))

  -- The block is final, not committed, or has the votes that are required.
  abbrev pub Served : ℕ → BlockCounters R → Type 0
  Served required blk =
      (is_final blk.status ≡ true)
      ⊎ ((blk.l2_committed ≡ false) ⊎ ((0 < required) × (required ≤ length blk.device_votes)))

  abbrev pub LowOrServed : ℕ → ℤ → Text × BlockCounters R → Type 0
  LowOrServed required h e = Served required e.1 ⊎ (e.1.height ≤ℤ h)

  -- A block that lacks votes is reported, and no block that does is higher; or nothing is reported,
  -- and no block at height 0 or above lacks votes.
  abbrev pub Reported : L3 R → ℕ → PendingBlock → Type 0
  Reported s required p =
      ((id : Text) × (blk : BlockCounters R) × (get id s.blocks ≡ some blk)
        × Lacks required blk
        × (p ≡ report required (attester_total s) id blk)
        × All (LowOrServed required blk.height) s.blocks)
      ⊎ ((p.ok ≡ false) × All (LowOrServed required (negsuc 0)) s.blocks)

  awaits-Lacks :
      (required : ℕ) (blk : BlockCounters R) → awaits required blk ≡ true → Lacks required blk
  unfolding awaits
  awaits-Lacks required blk h =
      (ground arith, ground arith, zero_or_more required (length blk.device_votes) (ground arith))

  awaits-Served :
      (required : ℕ) (blk : BlockCounters R) → awaits required blk ≡ false → Served required blk
  unfolding awaits
  awaits-Served required blk h = elim (Bool-cases (is_final blk.status)) [
    | inl fin ↦ inl fin
    | inr pending ↦ elim (Bool-cases blk.l2_committed) [
      | inr uncommitted ↦ inr (inl uncommitted)
      | inl committed ↦ inr (inr (ground arith))
    ]
  ]

  NoHigher-LowOrServed :
      (required : ℕ) (h : ℤ) (m : Map (BlockCounters R))
      → All (NoHigher required h) m
      → All (LowOrServed required h) m
  NoHigher-LowOrServed required h [] a = tt
  NoHigher-LowOrServed required h ((id, blk) ∷ m) (inl idle, a) =
      (inl (awaits-Served required blk idle), NoHigher-LowOrServed required h m a)
  NoHigher-LowOrServed required h ((id, blk) ∷ m) (inr low, a) =
      (inr low, NoHigher-LowOrServed required h m a)

  awaits-committed :
      (required : ℕ) (blk : BlockCounters R) → awaits required blk ≡ true → blk.l2_committed ≡ true
  unfolding awaits
  awaits-committed required blk h = ground arith

  reported :
      (s : L3 R) (r : Best)
      → ((blk : BlockCounters R) → get [] s.blocks ≡ some blk → blk.l2_committed ≡ false)
      → Waits (required_devices (attester_total s)) s.blocks r
      → All (NoHigher (required_devices (attester_total s)) r.best_height) s.blocks
      → Reported s (required_devices (attester_total s)) (
          pending_block
            (required_devices (attester_total s))
            (attester_total s)
            r.best_id
            (if is_empty r.best_id then none else get r.best_id s.blocks))
  unfolding pending_block
  reported s r unnamed (blk, found, waits, e) low =
      let required = required_devices (attester_total s) in
      elim (Bool-cases (is_empty r.best_id)) [
        | inl no_id ↦
            let committed = awaits-committed required blk waits in
            let not_committed =
              unnamed blk (sym (ap (λ k. get k s.blocks) (is_empty_lem r.best_id no_id)) ∙ found) in
            absurd (ground arith)
        | inr named ↦ inl (
          r.best_id,
          blk,
          found,
          awaits-Lacks required blk waits,
          rw (named, found, pending_block) refl,
          NoHigher-LowOrServed required blk.height s.blocks
              (subst (λ h. All (NoHigher required h) s.blocks) (sym e) low),
        )
      ]

  -- For a map with each key once, in which the block with the empty ID is not committed (as
  -- RecordBlockMeta refuses it): NextPending reports a committed, not yet final block that has fewer
  -- device votes than are required, or any number if none are, with its height and votes, and no such
  -- block is higher; or it reports that there is none, and then no such block has a height of zero or
  -- more.
  pub next_pending-Reported :
      (s : L3 R)
      → Distinct s.blocks
      → ((blk : BlockCounters R) → get [] s.blocks ≡ some blk → blk.l2_committed ≡ false)
      → Reported s (required_devices (attester_total s)) (next_pending s)
  unfolding next_pending pending_block no_block is_empty
  next_pending-Reported s d unnamed =
      let required = required_devices (attester_total s) in
      let low = pending_loop-NoHigher required s.blocks no_block in
      elim (pending_loop-Waits required s.blocks no_block d) [
        | inr waits ↦ reported s (pending_loop required no_block s.blocks) unnamed waits low
        | inl nothing ↦ inr (
          ap
              (λ r.
                (pending_block required (attester_total s) r.best_id
                  (if is_empty r.best_id then none else get r.best_id s.blocks)).ok)
              nothing,
          NoHigher-LowOrServed required (negsuc 0) s.blocks
              (subst (λ r. All (NoHigher required r.best_height) s.blocks) nothing low),
        )
      ]
