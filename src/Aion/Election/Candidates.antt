-- ===== src/Aion/Election/Candidates.antt =====
-- internal/aion/gossip.go: the candidates of an epoch have proven their outputs, and the handlers
-- keep the schedule.
use mathlib.Core.List.{Perm}
use custom_consensus.Base.{
  ℕ, ◌≡◌, refl, sym, subst, ◌⊎◌, inl, inr, true, false, Option, none, some, List, [], ◌∷◌, map,
  length, Bytes, Text, hex_encode, Map, All, Bool-cases, arith, ◌==◌,
}
use custom_consensus.L2.Steps.Maps.{All-imp}
use custom_consensus.Aion.Scheduler.{Params}
use custom_consensus.Aion.ChainEntropy.{ChainView}
use custom_consensus.Aion.Commitment.{Crypto, vrf_verify}
use custom_consensus.Aion.Election.State.{VrfOutput, PendingVrf, Election, at_epoch}
use custom_consensus.Aion.Election.{
  Cand, sort_cands, cands_of, weight_for_epoch, head_of, set_schedule, update_leader,
}
use custom_consensus.Aion.Election.Ranking.{
  IsOutput, Ranked, AllRanks, names, sort_cands-Ranked, sort_cands-Perm, cands_of-AllRanks,
  weight_for_epoch-fits,
}

eq_of_test : (x e : ℕ) → (x == e) ≡ true → x ≡ e
eq_of_test x e h = ground arith

module _ {ℓ} {A : Type ℓ} where
  -- A write at one epoch, for a predicate of the values.
  pub at_epoch-All {κ} :
      (P : A → Type κ) (e : ℕ) (v : A) (f : ℕ → A)
      → P v
      → ((x : ℕ) → P (f x))
      → (x : ℕ) → P (at_epoch e v f x)
  unfolding at_epoch
  at_epoch-All P e v f h a x = elim (Bool-cases (x == e)) [
    | inl here ↦ rw (here, at_epoch) h
    | inr there ↦ rw (there, at_epoch) (a x)
  ]

  at_epoch_self : (e : ℕ) (v : A) (f : ℕ → A) → at_epoch e v f e ≡ v
  unfolding at_epoch
  at_epoch_self e v f = ground arith

module _ (c : Crypto) where
  -- An output of 32 bytes that its key has proven for some input.
  abbrev pub Proven : Text × VrfOutput → Type 0
  Proven e =
      IsOutput e.1.y
      × ((key : Bytes) × (input : Bytes) × (hex_encode key ≡ e.0)
          × (vrf_verify c key input e.1.y e.1.proof ≡ true))

  -- A pending output is kept under its key.
  abbrev pub Stashed : Text × PendingVrf → Type 0
  Stashed e = IsOutput e.1.y × (hex_encode e.1.pub_key ≡ e.0)

  -- A schedule and a leader for the candidates of an epoch, with the weight that some chain gives it: all
  -- of them by rank, the first one leads.
  abbrev pub ScheduledOf : Params → ℕ → Map VrfOutput → List Text → Option Text → Type 0
  ScheduledOf params e m sched lead =
      (view : ChainView) × (cs : List Cand) × (cands_of c view (weight_for_epoch view params e) m
        ≡ some cs)
      × (sched ≡ names (sort_cands cs))
      × Ranked (sort_cands cs)
      × Perm sched (map (λ x. x.0) m)
      × (lead ≡ head_of sched lead)

  -- An epoch without candidates, schedule and leader, or with candidates and their schedule.
  abbrev pub Current : Election → ℕ → Type 0
  Current s e =
      ((s.vrf e ≡ []) × (s.schedule e ≡ []) × (s.leader e ≡ none))
      ⊎ (((length (s.vrf e) == 0) ≡ false)
          × ScheduledOf s.params e (s.vrf e) (s.schedule e) (s.leader e))

  -- In every epoch the candidates are proven and the schedule is up to date.
  pub record Sound (s : Election) : Type 0 where
    pub outputs : (e : ℕ) → All Proven (s.vrf e)
    pub pendings : (e : ℕ) → All Stashed (s.pending_vrf e)
    pub current : (e : ℕ) → Current s e

  module _ (view : ChainView) where
    head_of_twice : (ts : List Text) (o : Option Text) → head_of ts o ≡ head_of ts (head_of ts o)
    unfolding head_of
    head_of_twice [] o = refl
    head_of_twice (t ∷ ts) o = refl

    cands-ScheduledOf :
        (params : Params) (e : ℕ) (m : Map VrfOutput) (cs : List Cand) (old : Option Text)
        → cands_of c view (weight_for_epoch view params e) m ≡ some cs
        → names cs ≡ map (λ x. x.0) m
        → AllRanks cs
        → ScheduledOf params e m (names (sort_cands cs)) (head_of (names (sort_cands cs)) old)
    cands-ScheduledOf params e m cs old is same ranks = (
      view,
      cs,
      is,
      refl,
      sort_cands-Ranked cs ranks,
      subst (Perm (names (sort_cands cs))) same (sort_cands-Perm cs),
      head_of_twice (names (sort_cands cs)) old,
    )

    set_schedule-Current :
        (s : Election) (e : ℕ) (cs : List Cand)
        → (length (s.vrf e) == 0) ≡ false
        → ScheduledOf s.params e
            (s.vrf e)
            (names (sort_cands cs))
            (head_of (names (sort_cands cs)) (s.leader e))
        → ((x : ℕ) → (x == e) ≡ false → Current s x)
        → (x : ℕ) → Current (set_schedule c view s e cs) x
    unfolding set_schedule at_epoch
    set_schedule-Current s e cs some_cand here others x = elim (Bool-cases (x == e)) [
      | inl same ↦
          rw (same, at_epoch)
            (subst
              (λ y.
                ((s.vrf y ≡ [])
                  × (names (sort_cands cs) ≡ [])
                  × (head_of (names (sort_cands cs)) (s.leader e) ≡ none))
                ⊎ (((length (s.vrf y) == 0) ≡ false)
                    × ScheduledOf s.params y (s.vrf y) (names (sort_cands cs))
                        (head_of (names (sort_cands cs)) (s.leader e))))
              (sym (eq_of_test x e same)) (inr (some_cand, here)))
      | inr other ↦ rw (other, at_epoch) (others x other)
    ]

    idle-Current :
        (s : Election) (e : ℕ)
        → ((x : ℕ) → (x == e) ≡ false → Current s x)
        → Current s e
        → (x : ℕ) → Current s x
    idle-Current s e others here x = elim (Bool-cases (x == e)) [
      | inl same ↦ subst (Current s) (sym (eq_of_test x e same)) here
      | inr other ↦ others x other
    ]

    -- `updateLeader` returns, and brings the epoch's schedule up to date; without candidates it changes
    -- nothing.
    pub update_leader_run :
        (s : Election) (e : ℕ)
        → ((x : ℕ) → All Proven (s.vrf x))
        → ((x : ℕ) → All Stashed (s.pending_vrf x))
        → ((x : ℕ) → (x == e) ≡ false → Current s x)
        → ((length (s.vrf e) == 0) ≡ true → Current s e)
        → (t : Election) × (update_leader c view s e ≡ some t) × (t.vrf ≡ s.vrf) × Sound t
    unfolding update_leader set_schedule
    update_leader_run s e outputs pendings others kept =
        let (pos_w, small) = weight_for_epoch-fits view s.params e in
        let (cs, is, same, ranks) =
          cands_of-AllRanks c view (weight_for_epoch view s.params e) (s.vrf e) pos_w small
            (All-imp Proven (λ x. IsOutput x.1.y) (s.vrf e) (λ x h. h.0) (outputs e)) in
        elim (Bool-cases (length (s.vrf e) == 0)) [
          | inl idle ↦ (
            s,
            rw (idle, update_leader) refl,
            refl,
            record {
              outputs = outputs;
              pendings = pendings;
              current = idle-Current s e others (kept idle);
            },
          )
          | inr some_cand ↦ (
            set_schedule c view s e cs,
            rw (some_cand, update_leader, is) refl,
            refl,
            record {
              outputs = outputs;
              pendings = pendings;
              current =
                  set_schedule-Current s e cs some_cand
                    (cands-ScheduledOf s.params e (s.vrf e) cs (s.leader e) is same ranks) others;
            },
          )
        ]
