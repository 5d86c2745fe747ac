-- ===== src/Aion/Leader.antt =====
-- internal/aion/service.go and runtime.go: the leadership predicate of a node, evaluated at each tick.
pub mod Elected
use custom_consensus.Base.{
  ℕ, zero, suc, ◌+◌, ◌-◌, ◌*◌, ◌/◌, ◌%◌, ◌^◌, Bool, true, false, not, ◌&&◌, Option, none, some,
  List, [], ◌∷◌, ◌++◌, map, Bytes, Text, is_empty, ltb, ◌==◌, if◌then◌else◌,
}
use custom_consensus.Base.Int.{ℤ, pos, negsuc, to_int64, ltb_ℤ, leb_ℤ}
use custom_consensus.Mempool.{Entry}
use custom_consensus.Cell.{Cell}
use custom_consensus.Aion.Weight.{weight_q16, normalize_entropy_q16}
use custom_consensus.Aion.Entropy.{h_min_bits, h_renyi2_bits, h_lower_bound_bits}
use custom_consensus.Aion.Rank.{rank_value}
use custom_consensus.Aion.Scheduler.{Params}
use custom_consensus.Aion.Commitment.{Crypto, challenge}
use custom_consensus.Aion.ChainEntropy.{Tally, tally_bytes, zeros, max_count, sum_squares, member}

-- The entropies of the last four evaluations, the latest first.
pub record History : Type 0 where
  pub h0 : ℕ
  pub h1 : ℕ
  pub h2 : ℕ
  pub h3 : ℕ

-- `lastEntropyBPB` only ever is 0 and is left out. `may_produce` is the process's `runtimeLeader`.
pub record LeaderService : Type 0 where
  pub params : Params
  pub denom : ℕ
  pub hist : History
  pub leader_epoch : ℤ
  pub leader_active : Bool
  pub last_epoch : ℕ
  pub last_hb : ℕ
  pub last_hnorm_q16 : ℕ
  pub last_wt_q16 : ℕ
  pub last_rank16 : ℕ
  pub last_thr16 : ℕ
  pub may_produce : Bool

-- What an evaluation looks at: the cell, the pool, and the tip of the chain.
pub record Surroundings : Type 0 where
  pub cell : Cell
  pub entries : List Entry
  pub height : ℤ
  pub tip : Bytes

-- `StartLeaderService`
unfoldable pub start_leader_service : Params → ℕ → LeaderService
start_leader_service params denom =
    let mid = normalize_entropy_q16 64 in
    record {
      params = params;
      denom = if ltb denom 1 then 1 else denom;
      hist = record { h0 = mid; h1 = mid; h2 = mid; h3 = mid };
      leader_epoch = pos 0;
      leader_active = false;
      last_epoch = 0;
      last_hb = 0;
      last_hnorm_q16 = 0;
      last_wt_q16 = 0;
      last_rank16 = 0;
      last_thr16 = 0;
      may_produce = false;
    }

-- The sum of two `int64`.
unfoldable pub add_int64 : ℤ → ℤ → ℤ
unfolding to_int64
add_int64 (pos a) (pos b) = to_int64 (a + b)
add_int64 (pos a) (negsuc b) = to_int64 (a + 2 ^ 64 - 1 - b)
add_int64 (negsuc a) (pos b) = to_int64 (b + 2 ^ 64 - 1 - a)
add_int64 (negsuc a) (negsuc b) = to_int64 (2 ^ 65 - 2 - a - b)

-- The epoch of the tip.
unfoldable pub tip_epoch : ℤ → ℕ → ℕ
tip_epoch (pos zero) len = 0
tip_epoch (pos (suc h)) len = if ltb 0 len then h / len else 0
tip_epoch (negsuc h) len = 0

-- The lower bound of the entropy of a histogram.
unfoldable pub lower_bound_of : Tally → ℕ
lower_bound_of (n, freq) =
    h_lower_bound_bits
      (h_min_bits n (max_count 0 freq) 128 ∷ h_renyi2_bits n (sum_squares 0 freq) 128 ∷ [])

unfoldable pub push_history : History → ℕ → History
push_history h q = record { h0 = q; h1 = h.h0; h2 = h.h1; h3 = h.h2 }

-- `binary.BigEndian.Uint16` of the first two bytes.
unfoldable pub first16 : Bytes → ℕ
first16 [] = 0
first16 (a ∷ []) = 0
first16 (a ∷ (b ∷ rest)) = a * 256 + b

-- The window of a leader that is active.
unfoldable pub in_window : LeaderService → ℕ → Bool
in_window s epoch =
    leb_ℤ (pos 0) s.leader_epoch
    && ltb_ℤ (to_int64 epoch) (add_int64 s.leader_epoch (to_int64 s.params.leadership_window))

unfoldable pub resign : LeaderService → LeaderService
resign s = record s { leader_active = false; may_produce = false }

-- The last step of an evaluation, with the rank.
unfoldable pub decide : LeaderService → ℕ → Bytes → LeaderService
decide s epoch r =
    let thr = 65535 / s.denom in
    let val = first16 r in
    let s' = record s { last_thr16 = thr; last_rank16 = val; last_epoch = epoch } in
    if ltb val thr
    then record s' { may_produce = true; leader_active = true; leader_epoch = to_int64 epoch }
    else resign s'

module _ (c : Crypto) where
  unfoldable pub output_of : Bytes → ℕ → Bytes
  output_of tip epoch = c.sha256 (challenge c tip epoch ++ c.own_key)

  -- The last part of an evaluation; `none` is the panic of a division by zero.
  unfoldable pub re_elect : LeaderService → Bytes → ℕ → Option LeaderService
  re_elect s tip epoch =
      let wt = weight_q16 (s.params.alpha_q16 % 2 ^ 32) s.hist.h0 s.hist.h1 s.hist.h2 s.hist.h3 in
      elim (rank_value (output_of tip epoch) wt) [
        | none ↦ none
        | some r ↦
            if s.denom == 0 then none else some (decide (record s { last_wt_q16 = wt }) epoch r)
      ]

module _ (data_section : Bytes → Option Bytes) where
  -- `data_section` is `ExtractIoTDataSection`, which the CBOR library decides.
  unfoldable pub tally_entry : List Text → Entry → Tally → Tally
  tally_entry ids e t =
      if not (member e.dev_id ids)
      then t
      else elim (data_section e.bytes) [ none ↦ t | some bs ↦ tally_bytes bs t ]

  unfoldable pub tally_entries : List Text → List Entry → Tally → Tally
  tally_entries ids [] t = t
  tally_entries ids (e ∷ es) t = tally_entries ids es (tally_entry ids e t)

  unfoldable pub pool_tally : Cell → List Entry → Tally
  pool_tally c es = tally_entries (map (λ d. d.device_id) c.devices) es (0, zeros 256)

  -- The first part of an evaluation: the entropy of the pool goes into the history.
  unfoldable pub observe : LeaderService → Surroundings → LeaderService
  observe s x =
      let hb = lower_bound_of (pool_tally x.cell x.entries) in
      let hq = normalize_entropy_q16 hb in
      record s { hist = push_history s.hist hq; last_hb = hb; last_hnorm_q16 = hq }

  module _ (c : Crypto) where
    -- An evaluation of an active cell.
    unfoldable pub evaluate_active : LeaderService → Surroundings → Option LeaderService
    evaluate_active s x =
        let s' = observe s x in
        let epoch = tip_epoch x.height s.params.epoch_length in
        if s'.leader_active && in_window s' epoch
        then some (record s' { may_produce = true })
        else re_elect c s' x.tip epoch

    -- `evalOnce`
    unfoldable pub eval_once : LeaderService → Surroundings → Option LeaderService
    eval_once s x = if not x.cell.active then some (resign s) else evaluate_active s x

    -- `loop`: an evaluation at each tick.
    unfoldable pub eval_all : LeaderService → List Surroundings → Option LeaderService
    eval_all s [] = some s
    eval_all s (x ∷ xs) = elim (eval_once s x) [ none ↦ none | some t ↦ eval_all t xs ]

pub record LeaderStatus : Type 0 where
  pub active : Bool
  pub epoch : ℕ
  pub window_end_epoch : ℕ
  pub denom : ℕ
  pub alpha_q16 : ℕ
  pub weight_q16 : ℕ
  pub entropy_norm_q16 : ℕ
  pub rank16 : ℕ
  pub threshold16 : ℕ

unfoldable pub window_end : LeaderService → ℕ
window_end s = elim s.leader_epoch [
  | pos e ↦ if s.leader_active then (e + s.params.leadership_window) % 2 ^ 64 else 0
  | negsuc e ↦ 0
]

-- `GetStatus`
unfoldable pub get_status : LeaderService → LeaderStatus
get_status s = record {
  active = s.leader_active;
  epoch = s.last_epoch;
  window_end_epoch = window_end s;
  denom = s.denom;
  alpha_q16 = s.params.alpha_q16 % 2 ^ 32;
  weight_q16 = s.last_wt_q16;
  entropy_norm_q16 = s.last_hnorm_q16;
  rank16 = s.last_rank16;
  threshold16 = s.last_thr16;
}
