-- ===== src/Aion/Election/State.antt =====
-- internal/aion/gossip.go: messages, and the state of `Service`.
use custom_consensus.Base.{
  ℕ, Bool, false, Option, none, List, [], Bytes, Text, Map, ◌==◌, if◌then◌else◌,
}
use custom_consensus.Aion.Scheduler.{Params}

pub record MsgCommit : Type 0 where
  pub pub_key : Bytes
  pub epoch : ℕ
  pub commit : Bytes

pub record MsgReveal : Type 0 where
  pub pub_key : Bytes
  pub epoch : ℕ
  pub seed : Bytes
  pub commit : Bytes

pub record MsgVrf : Type 0 where
  pub pub_key : Bytes
  pub epoch : ℕ
  pub input : Bytes
  pub y : Bytes
  pub proof : Bytes

pub record MsgEntropy : Type 0 where
  pub pub_key : Bytes
  pub epoch : ℕ
  pub h_norm : ℕ

pub record VrfOutput : Type 0 where
  pub y : Bytes
  pub proof : Bytes

pub record PendingVrf : Type 0 where
  pub pub_key : Bytes
  pub input : Bytes
  pub y : Bytes
  pub proof : Bytes

-- What the service publishes.
pub data AionMsg : Type 0 where
  commit_sent : MsgCommit → AionMsg
  reveal_sent : MsgReveal → AionMsg
  vrf_sent : MsgVrf → AionMsg
  entropy_sent : MsgEntropy → AionMsg

-- `published` holds the latest message first.
pub record Election : Type 0 where
  pub params : Params
  pub seeds : ℕ → Option Bytes
  pub commits : ℕ → Option Bytes
  pub cmt : ℕ → Map Bytes
  pub rev : ℕ → Map Bytes
  pub vrf : ℕ → Map VrfOutput
  pub ent : ℕ → Map ℕ
  pub schedule : ℕ → List Text
  pub leader : ℕ → Option Text
  pub pending_vrf : ℕ → Map PendingVrf
  pub started : Bool
  pub published : List AionMsg

-- A write at an epoch.
unfoldable pub at_epoch {ℓ} : {A : Type ℓ} → ℕ → A → (ℕ → A) → ℕ → A
at_epoch e v f x = if x == e then v else f x

-- `StartAIONService`
unfoldable pub start_election : Params → Election
start_election params = record {
  params = params;
  seeds = λ e. none;
  commits = λ e. none;
  cmt = λ e. [];
  rev = λ e. [];
  vrf = λ e. [];
  ent = λ e. [];
  schedule = λ e. [];
  leader = λ e. none;
  pending_vrf = λ e. [];
  started = false;
  published = [];
}
