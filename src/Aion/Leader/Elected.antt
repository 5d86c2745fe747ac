-- ===== src/Aion/Leader/Elected.antt =====
-- internal/aion/service.go: who leads after an evaluation.
use native.Mathlib.Nat.{div-lt_iff_lt-mul, le-div_iff_mul-le}
use custom_consensus.Base.{
  ℕ, zero, suc, ◌+◌, ◌*◌, ◌/◌, ◌%◌, ◌^◌, ◌≤◌, ◌<◌, ◌≡◌, ◌∙◌, refl, ap, inl, inr, Bool, true, false,
  Option, some, List, [], ◌∷◌, ◌++◌, length, Bytes, IsBytes, Bool-cases, arith, ltb, ◌==◌, ◌&&◌,
}
use custom_consensus.Base.Int.{to_int64}
use custom_consensus.Aion.Weight.{
  weight_q16, weight_q16_exact, normalize_entropy_q16, normalize_entropy_q16_lem,
}
use custom_consensus.Aion.Rank.{rank_value, rank_value_lem, unit, big_endian}
use custom_consensus.Aion.Order.{unit-length, big_endian-lt-unit}
use custom_consensus.Aion.Scheduler.{Params}
use custom_consensus.Aion.Commitment.{Crypto, challenge}
use custom_consensus.Aion.Leader.{
  History, LeaderService, Surroundings, start_leader_service, push_history, first16, in_window,
  resign, decide, lower_bound_of, pool_tally, observe, tip_epoch, output_of, re_elect,
  evaluate_active, eval_once, eval_all,
}

above : (a u : ℕ) → a * u < u → a ≡ 0
above zero u h = refl
above (suc a) u h = absurd (grind arith)

-- A number of two bytes fewer leaves the first two bytes zero.
first16-zero :
    (r rest : Bytes)
    → IsBytes rest
    → length r ≡ length rest + 2
    → big_endian r ≤ big_endian rest
    → first16 r ≡ 0
unfolding first16 big_endian unit
first16-zero [] rest h n le = refl
first16-zero (a ∷ []) rest h n le = refl
first16-zero (a ∷ (b ∷ r)) rest h n le =
    let u : unit r ≡ unit rest = unit-length r rest (omega arith) in
    let lt = big_endian-lt-unit rest h in above (a * 256 + b) (unit r) (grind arith)

quotient_le : (q wt : ℕ) → 65536 ≤ wt → q * 2 ^ 16 / wt ≤ q
quotient_le q wt h =
    let lt : q * 2 ^ 16 / wt < suc q = (div-lt_iff_lt-mul (omega arith)).1 (grind arith) in
    omega arith

-- A weight is between 1.0 and the largest `uint32`, and the output has 32 bytes, so that the first two
-- of the 33 bytes of the rank are zero.
rank16-zero :
    (y : Bytes) (wt : ℕ)
    → length y ≡ 32
    → IsBytes y
    → 65536 ≤ wt
    → wt < 2 ^ 32
    → (r : Bytes) × (rank_value y wt ≡ some r) × (first16 r ≡ 0)
rank16-zero [] wt n h low high = absurd (omega arith)
rank16-zero (b ∷ rest) wt n h low high =
    let (r, e, value, len, bytes) = rank_value_lem b rest wt h (omega arith) high in
    (r, e, first16-zero r rest h.1 len (omega (arith, value, quotient_le (big_endian rest) wt low)))

-- Entropies are at most 1.0.
abbrev Small : History → Type 0
Small h = (h.h0 ≤ 65536) × (h.h1 ≤ 65536) × (h.h2 ≤ 65536) × (h.h3 ≤ 65536)

record Fits (s : LeaderService) : Type 0 where
  denom_pos : 0 < s.denom
  denom_fits : s.denom < 2 ^ 16
  entropies : Small s.hist
  rank_zero : s.last_rank16 ≡ 0
  agrees : s.leader_active ≡ s.may_produce

-- What an evaluation leads to.
abbrev Leads : Option LeaderService → Bool → Type 0
Leads v b = (t : LeaderService) × (v ≡ some t) × Fits t × (t.may_produce ≡ b)

weight_fits :
    (alpha : ℕ) (h : History)
    → Small h
    → alpha < 2 ^ 32
    → (65536 ≤ weight_q16 alpha h.h0 h.h1 h.h2 h.h3)
      × (weight_q16 alpha h.h0 h.h1 h.h2 h.h3 < 2 ^ 32)
weight_fits alpha h (a, b, c, d) l =
    let exact =
      weight_q16_exact alpha h.h0 h.h1 h.h2 h.h3 l (omega arith) (omega arith) (omega arith)
        (omega arith) in
    (omega (arith, exact), omega (arith, exact))

resign-Fits : (s : LeaderService) → Fits s → Fits (resign s)
unfolding resign
resign-Fits s f = record {
  denom_pos = f.denom_pos;
  denom_fits = f.denom_fits;
  entropies = f.entropies;
  rank_zero = f.rank_zero;
  agrees = refl;
}

with_weight : (s : LeaderService) (wt : ℕ) → Fits s → Fits (record s { last_wt_q16 = wt })
with_weight s wt f = record {
  denom_pos = f.denom_pos;
  denom_fits = f.denom_fits;
  entropies = f.entropies;
  rank_zero = f.rank_zero;
  agrees = f.agrees;
}

maintained :
    (s : LeaderService) → Fits s → s.leader_active ≡ true → Fits (record s { may_produce = true })
maintained s f active = record {
  denom_pos = f.denom_pos;
  denom_fits = f.denom_fits;
  entropies = f.entropies;
  rank_zero = f.rank_zero;
  agrees = active;
}

threshold_pos : (d : ℕ) → 0 < d → d < 2 ^ 16 → ltb 0 (65535 / d) ≡ true
threshold_pos d p h =
    let q : 1 ≤ 65535 / d = (le-div_iff_mul-le {k = d} {x = 1} {y = 65535} p).1 (omega arith) in
    ground arith

decide-Leads :
    (s : LeaderService) (epoch : ℕ) (r : Bytes)
    → Fits s
    → first16 r ≡ 0
    → Leads (some (decide s epoch r)) true
unfolding decide
decide-Leads s epoch r f z =
    let thr = threshold_pos s.denom f.denom_pos f.denom_fits in
    rw (z, thr, decide)
      (
        record s {
          last_thr16 = 65535 / s.denom;
          last_rank16 = 0;
          last_epoch = epoch;
          may_produce = true;
          leader_active = true;
          leader_epoch = to_int64 epoch;
        },
        refl,
        record {
          denom_pos = f.denom_pos;
          denom_fits = f.denom_fits;
          entropies = f.entropies;
          rank_zero = refl;
          agrees = refl;
        },
        refl,
      )

-- Whether the cell was active at the last evaluation.
abbrev pub active_last : Bool → List Surroundings → Bool
active_last b [] = b
active_last b (x ∷ xs) = active_last x.cell.active xs

start-Fits :
    (params : Params) (denom : ℕ) → denom < 2 ^ 16 → Fits (start_leader_service params denom)
unfolding start_leader_service
start-Fits params denom h =
    let mid = (normalize_entropy_q16_lem 64).1 in
    record {
      denom_pos = ground arith;
      denom_fits = ground arith;
      entropies = (mid, mid, mid, mid);
      rank_zero = refl;
      agrees = refl;
    }

push_history-Small : (h : History) (q : ℕ) → Small h → q ≤ 65536 → Small (push_history h q)
unfolding push_history
push_history-Small h q (a, b, c, d) l = (l, a, b, c)

module _ (c : Crypto)
    (hash : (bs : Bytes) → (length (c.sha256 bs) ≡ 32) × IsBytes (c.sha256 bs)) where
  re_elect-Leads :
      (s : LeaderService) (tip : Bytes) (epoch : ℕ) → Fits s → Leads (re_elect c s tip epoch) true
  unfolding re_elect output_of
  re_elect-Leads s tip epoch f =
      let wt = weight_q16 (s.params.alpha_q16 % 2 ^ 32) s.hist.h0 s.hist.h1 s.hist.h2 s.hist.h3 in
      let (low, high) =
        weight_fits (s.params.alpha_q16 % 2 ^ 32) s.hist f.entropies (omega arith) in
      let (len, bytes) = hash (challenge c tip epoch ++ c.own_key) in
      let (r, e, z) = rank16-zero (output_of c tip epoch) wt len bytes low high in
      let some_denom : (s.denom == 0) ≡ false = (let p = f.denom_pos in ground arith) in
      let (t, d, fits, leads) =
        decide-Leads (record s { last_wt_q16 = wt }) epoch r (with_weight s wt f) z in
      (t, rw (e, some_denom, re_elect) d, fits, leads)

module _ (data_section : Bytes → Option Bytes) where
  observe-Fits : (s : LeaderService) (x : Surroundings) → Fits s → Fits (observe data_section s x)
  unfolding observe
  observe-Fits s x f =
      let hb = lower_bound_of (pool_tally data_section x.cell x.entries) in
      record {
        denom_pos = f.denom_pos;
        denom_fits = f.denom_fits;
        entropies =
            push_history-Small s.hist (normalize_entropy_q16 hb) f.entropies
              (normalize_entropy_q16_lem hb).1;
        rank_zero = f.rank_zero;
        agrees = f.agrees;
      }

  module _ (c : Crypto)
      (hash : (bs : Bytes) → (length (c.sha256 bs) ≡ 32) × IsBytes (c.sha256 bs)) where
    evaluate_active-Leads :
        (s : LeaderService) (x : Surroundings)
        → Fits s
        → Leads (evaluate_active data_section c s x) true
    unfolding evaluate_active
    evaluate_active-Leads s x f =
        let u = observe data_section s x in
        let epoch = tip_epoch x.height s.params.epoch_length in
        elim (Bool-cases (u.leader_active && in_window u epoch)) [
          | inr expired ↦
              rw (expired, evaluate_active)
                (re_elect-Leads c hash u x.tip epoch (observe-Fits s x f))
          | inl kept ↦ (
            record u { may_produce = true },
            rw (kept, evaluate_active) refl,
            maintained u (observe-Fits s x f) (ground arith),
            refl,
          )
        ]

    eval_once-Leads :
        (s : LeaderService) (x : Surroundings)
        → Fits s
        → Leads (eval_once data_section c s x) x.cell.active
    unfolding eval_once resign
    eval_once-Leads s x f = elim (Bool-cases x.cell.active) [
      | inl active ↦ simp (active, eval_once) (evaluate_active-Leads s x f)
      | inr idle ↦ rw (idle, eval_once) (resign s, refl, resign-Fits s f, refl)
    ]

    eval_all-Leads :
        (s : LeaderService) (xs : List Surroundings)
        → Fits s
        → Leads (eval_all data_section c s xs) (active_last s.may_produce xs)
    unfolding eval_all
    eval_all-Leads s [] f = (s, refl, f, refl)
    eval_all-Leads s (x ∷ xs) f =
        let (t, e, fits, leads) = eval_once-Leads s x f in
        let (u, e', fits', leads') = eval_all-Leads t xs fits in
        (u, rw (e, eval_all) e', fits', leads' ∙ ap (λ b. active_last b xs) leads)

    -- Where SHA-256 gives 32 bytes, and for any denominator of 16 bits: however many evaluations are
    -- made, none divides by zero, and after them the node may produce exactly if its cell was active
    -- at the last one. The 16 bits of the rank that are compared with the threshold are always zero,
    -- so that neither the denominator nor the entropy has an influence.
    pub eval_all_elects :
        (params : Params) (denom : ℕ) (xs : List Surroundings)
        → denom < 2 ^ 16
        → (t : LeaderService) × (eval_all data_section c (start_leader_service params denom) xs
            ≡ some t)
          × (t.may_produce ≡ active_last false xs)
          × (t.leader_active ≡ t.may_produce)
          × (t.last_rank16 ≡ 0)
    unfolding start_leader_service
    eval_all_elects params denom xs h =
        let (t, e, fits, leads) =
          eval_all-Leads (start_leader_service params denom) xs (start-Fits params denom h) in
        (t, e, leads, fits.agrees, fits.rank_zero)
