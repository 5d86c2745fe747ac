-- ===== src/Aion/Election.antt =====
-- internal/aion/gossip.go: commitments, reveals and outputs of the candidates of an epoch, and the
-- schedule of its leaders. A map by epoch is a function, which is empty where nothing was written.
pub mod State
pub mod Ranking
pub mod Candidates
pub mod Messages
pub mod Publishing
pub mod Recommit
pub mod Slots
mod Tests
use custom_consensus.Base.{
  ℕ, zero, suc, ◌+◌, ◌-◌, ◌/◌, ◌%◌, ◌^◌, Bool, true, false, not, ◌&&◌, ◌||◌, Option, none, some,
  List, [], ◌∷◌, ◌++◌, map, length, get_elem?, Bytes, Text, text_eq, text_lt, is_empty, hex_encode,
  hex_decode, Map, get, put, del, ltb, leb, ◌==◌, if◌then◌else◌,
}
use custom_consensus.Base.Int.{ℤ, pos, negsuc, eqb_ℤ, ltb_ℤ}
use custom_consensus.Iot.{has_prefix}
use custom_consensus.Aion.Weight.{weight_q16, q_one}
use custom_consensus.Aion.Rank.{rank_value}
use custom_consensus.Aion.Order.{cmp_rank}
use custom_consensus.Aion.Scheduler.{Params}
use custom_consensus.Aion.Commitment.{
  Crypto, be64, commit_seed, verify_reveal, challenge, evaluate, vrf_verify,
}
use custom_consensus.Aion.Election.State.{
  MsgCommit, MsgReveal, MsgVrf, MsgEntropy, VrfOutput, PendingVrf, Election, at_epoch,
}
use custom_consensus.Aion.ChainEntropy.{ChainView, epoch_entropy_q16}

infixl 5 ◌>>=◌
abbrev ◌>>=◌ {ℓ κ} : {A : Type ℓ} {B : Type κ} → Option A → (A → Option B) → Option B
none >>= f = none
some a >>= f = f a

-- A candidate of an epoch, with the rank of its output and its peer ID.
pub record Cand : Type 0 where
  pub pub_hex : Text
  pub pid : Text
  pub rank : Bytes

-- The order of `sort.Slice` in `updateLeader`.
unfoldable pub ranks_before : Cand → Cand → Bool
ranks_before c d =
    let k = cmp_rank c.rank d.rank in
    if not (eqb_ℤ k (pos 0)) then ltb_ℤ k (pos 0) else text_lt c.pid d.pid

-- `sort.Slice`, as a stable insertion sort.
unfoldable pub insert_cand : Cand → List Cand → List Cand
insert_cand c [] = c ∷ []
insert_cand c (d ∷ ds) =
    let rest = insert_cand c ds in if ranks_before d c then d ∷ rest else c ∷ d ∷ ds

unfoldable pub sort_cands : List Cand → List Cand
sort_cands [] = []
sort_cands (c ∷ cs) = insert_cand c (sort_cands cs)

unfoldable pub head_of : List Text → Option Text → Option Text
head_of [] old = old
head_of (t ∷ ts) old = some t

-- `weightForEpoch`: the weight, from the entropies of the four epochs before.
unfoldable pub entropy_before : ChainView → ℕ → ℕ → ℕ → ℕ
entropy_before view e len i = if leb e i then 0 else epoch_entropy_q16 view (e - 1 - i) len

unfoldable pub weight_for_epoch : ChainView → Params → ℕ → ℕ
weight_for_epoch view params e =
    let len = params.epoch_length in
    if len == 0
    then q_one
    else weight_q16 (params.alpha_q16 % 2 ^ 32) (entropy_before view e len 0)
        (entropy_before view e len 1) (entropy_before view e len 2) (entropy_before view e len 3)

unfoldable pub commit_valid : MsgCommit → Bool
commit_valid m = not (is_empty m.pub_key) && (length m.commit == 32)

-- `onCommit`
unfoldable pub on_commit : Election → Option MsgCommit → Election
on_commit s none = s
on_commit s (some m) =
    if commit_valid m
    then record s {
      cmt = at_epoch m.epoch (put (hex_encode m.pub_key) m.commit (s.cmt m.epoch)) s.cmt;
    }
    else s

module _ (c : Crypto) (view : ChainView) where
  pid_of : Option Bytes → Text
  pid_of none = []
  pid_of (some key) = c.peer_id key

  unfoldable pub cand_of : ℕ → Text → VrfOutput → Option Cand
  unfolding pid_of
  cand_of wt pub_hex out = do
    r ← rank_value out.y wt
    some (record { pub_hex = pub_hex; pid = pid_of (hex_decode pub_hex); rank = r })

  unfoldable pub cands_of : ℕ → Map VrfOutput → Option (List Cand)
  cands_of wt [] = some []
  cands_of wt ((k, out) ∷ m) = do cand ← cand_of wt k out; rest ← cands_of wt m; some (cand ∷ rest)

  -- The locked section at the end of `updateLeader`.
  unfoldable pub set_schedule : Election → ℕ → List Cand → Election
  set_schedule s e cs =
      let sched = map (λ cand. cand.pub_hex) (sort_cands cs) in
      record s {
        schedule = at_epoch e sched s.schedule;
        leader = at_epoch e (head_of sched (s.leader e)) s.leader;
        started = true;
      }

  -- `updateLeader`; `none` is the panic of a division by zero.
  unfoldable pub update_leader : Election → ℕ → Option Election
  update_leader s e = if length (s.vrf e) == 0 then some s else (do
    cs ← cands_of (weight_for_epoch view s.params e) (s.vrf e)
    some (set_schedule s e cs))

  -- An output that is accepted under a revealed seed.
  unfoldable pub output_valid : Bytes → PendingVrf → Bool
  output_valid seed p =
      not (is_empty seed)
      && (has_prefix p.input seed
          && (c.knows_key p.pub_key && vrf_verify c p.pub_key p.input p.y p.proof))

  unfoldable pub store_output : Election → ℕ → Text → PendingVrf → Election
  store_output s e ph p = record s {
    vrf = at_epoch e (put ph (record { y = p.y; proof = p.proof }) (s.vrf e)) s.vrf;
  }

  -- The end of `onReveal`, with the pending output of the candidate.
  unfoldable pub try_pending : Election → ℕ → Text → Bytes → Option PendingVrf → Option Election
  try_pending s e ph seed none = some s
  try_pending s e ph seed (some p) =
      if output_valid seed p
      then update_leader
          (record (store_output s e ph p) {
            pending_vrf = at_epoch e (del ph (s.pending_vrf e)) s.pending_vrf;
          })
          e
      else some s

  matches : Option Bytes → Bytes → Bool
  matches none seed = true
  matches (some commit) seed = verify_reveal c commit seed

  unfoldable pub reveal_valid : Election → MsgReveal → Bool
  unfolding matches
  reveal_valid s m =
      not (is_empty m.pub_key)
      && (not (is_empty m.seed)
          && ((length m.commit == 32)
              && matches (get (hex_encode m.pub_key) (s.cmt m.epoch)) m.seed))

  unfoldable pub set_reveal : Election → MsgReveal → Election
  set_reveal s m = record s {
    rev = at_epoch m.epoch (put (hex_encode m.pub_key) m.seed (s.rev m.epoch)) s.rev;
  }

  -- `onReveal`
  unfoldable pub on_reveal : Election → Option MsgReveal → Option Election
  on_reveal s none = some s
  on_reveal s (some m) =
      let ph = hex_encode m.pub_key in
      if reveal_valid s m
      then try_pending (set_reveal s m) m.epoch ph m.seed (get ph (s.pending_vrf m.epoch))
      else some s

  unfoldable pub vrf_shape : MsgVrf → Bool
  vrf_shape m =
      not (is_empty m.pub_key)
      && (not (is_empty m.input) && ((length m.y == 32) && not (is_empty m.proof)))

  unfoldable pub pending_of : MsgVrf → PendingVrf
  pending_of m = record { pub_key = m.pub_key; input = m.input; y = m.y; proof = m.proof }

  unfoldable pub revealed : Option Bytes → Bytes
  revealed none = []
  revealed (some seed) = seed

  unfoldable pub stash : Election → MsgVrf → Election
  stash s m = record s {
    pending_vrf =
        at_epoch m.epoch (put (hex_encode m.pub_key) (pending_of m) (s.pending_vrf m.epoch))
          s.pending_vrf;
  }

  -- `onVRF`
  unfoldable pub on_vrf : Election → Option MsgVrf → Option Election
  on_vrf s none = some s
  on_vrf s (some m) =
      let ph = hex_encode m.pub_key in
      let seed = revealed (get ph (s.rev m.epoch)) in
      if not (vrf_shape m)
      then some s
      else if is_empty seed
      then some (stash s m)
      else if output_valid seed (pending_of m)
      then update_leader (store_output s m.epoch ph (pending_of m)) m.epoch
      else some s

  -- `onEntropy`
  unfoldable pub on_entropy : Election → Option MsgEntropy → Option Election
  on_entropy s none = some s
  on_entropy s (some m) =
      if is_empty m.pub_key
      then some s
      else update_leader
          (record s {
            ent = at_epoch m.epoch (put (hex_encode m.pub_key) m.h_norm (s.ent m.epoch)) s.ent;
          })
          m.epoch
