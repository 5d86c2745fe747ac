-- ===== src/L1/State.antt =====
-- l1_notarization.go: messages, the state of `L1Service`, and what it uses of other packages.
use custom_consensus.Base.{ℕ, Bool, Option, List, [], Bytes, Text, Map, ltb, if◌then◌else◌}
use custom_consensus.Base.Int.{ℤ, pos, negsuc}

pub record L1Attest : Type 0 where
  pub epoch : ℕ
  pub height : ℤ
  pub hash : Bytes
  pub producer : Bytes
  pub attester : Bytes
  pub sample : Bytes
  pub sig : Bytes

pub record L1Notarized : Type 0 where
  pub epoch : ℕ
  pub height : ℤ
  pub hash : Bytes
  pub count : ℕ
  pub attesters : List Bytes

-- Times are in nanoseconds, `latency_ms` and `at_ms` in milliseconds.
pub record L1Record : Type 0 where
  pub epoch : ℕ
  pub height : ℤ
  pub hash : Text
  pub notarized : Bool
  pub attesters : ℕ
  pub latency_ms : ℕ
  pub at_ms : ℕ

-- The fields that block messages are decoded to.
pub record L1Block : Type 0 where
  pub height : ℤ
  pub hash : Bytes
  pub producer_pub : Bytes
  pub txs : List Bytes

-- `notarizations` is what the service published, the latest first, and `published` its attestations.
pub record L1 : Type 0 where
  pub min_attesters : ℕ
  pub seen : Map (Map (Unit {0}))
  pub first : Map ℕ
  pub attests : Map (List Bytes)
  pub recent : List L1Record
  pub rec_by_hash : Map ℕ
  pub max_recent : ℕ
  pub retain_for : ℕ
  pub notarizations : List L1Notarized
  pub published : List Bytes

-- SHA-256, CBOR and the host's key, and whether the attestation topic accepts a message.
pub record L1Outside : Type 0 where
  pub sha256 : Bytes → Bytes
  pub decode_attest : Bytes → Option L1Attest
  pub encode_attest : L1Attest → Bytes
  pub decode_block : Bytes → Option L1Block
  pub own_key : Bytes
  pub own_sign : Bytes → Bytes
  pub publishes : Bytes → Bool

min_attesters_or : ℤ → ℕ
min_attesters_or (negsuc n) = 1
min_attesters_or (pos n) = if ltb 0 n then n else 1

-- `StartL1FromTopic`
unfoldable pub start_l1 : ℤ → L1
unfolding min_attesters_or
start_l1 min = record {
  min_attesters = min_attesters_or min;
  seen = [];
  first = [];
  attests = [];
  recent = [];
  rec_by_hash = [];
  max_recent = 32;
  retain_for = 30_000_000_000;
  notarizations = [];
  published = [];
}
