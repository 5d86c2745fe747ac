-- ===== src/L2/State.antt =====
-- l2_checkpoint.go: messages, the state of `L2Service`, and what the service uses of other packages.
use custom_consensus.Base.{
  ℕ, ◌+◌, ◌*◌, ◌/◌, Bool, true, false, Option, none, some, List, [], Bytes, Text, Map, get, ltb,
  if◌then◌else◌,
}
use custom_consensus.Base.Int.{ℤ, pos, negsuc}

pub record VotePayload : Type 0 where
  pub block : Bytes
  pub parent : Bytes
  pub height : ℤ
  pub step : ℕ
  pub pub_key : Bytes
  pub peer : Text

pub record VoteMsg : Type 0 where
  pub payload : VotePayload
  pub sig : Bytes

pub record QcMsg : Type 0 where
  pub block : Bytes
  pub parent : Bytes
  pub height : ℤ
  pub step : ℕ
  pub votes : List VoteMsg
  pub created_by : Text
  pub created_at : ℕ

pub record CommitMsg : Type 0 where
  pub block : Bytes
  pub height : ℤ
  pub committed_at : ℕ

pub record VoteRecord : Type 0 where
  pub msg : VoteMsg
  pub received : ℕ

pub record BlockMeta : Type 0 where
  pub height : ℤ
  pub parent_hex : Text
  pub first_seen : ℕ
  pub tx_root : Bytes

pub record CommitInfo : Type 0 where
  pub height : ℤ
  pub committed_when : ℕ

-- `ValidatorQCRef`, as the service fills it in; the weight is the number of votes.
pub record QcRef : Type 0 where
  pub block_id : Bytes
  pub height : ℤ
  pub weight : ℕ
  pub created_at : ℕ
  pub signers : List Bytes

-- What the service sends to its topics and tells the L3 service.
pub data Event : Type 0 where
  vote_sent : VoteMsg → Event
  qc_sent : QcMsg → Event
  commit_sent : CommitMsg → Event
  descendant_qc : Bytes → QcRef → Event
  block_meta : Bytes → Bytes → ℤ → Bytes → Event

pub record L2 : Type 0 where
  pub quorum_size : ℕ
  pub vote_expiry : ℕ
  pub has_l3 : Bool
  pub votes : Map (Map VoteRecord)
  pub qcs : Map QcMsg
  pub blocks : Map BlockMeta
  pub child_qcs : Map (Map (Unit {0}))
  pub committed : Map CommitInfo
  pub commit_msg : Map CommitMsg
  pub sent_vote : Map Bool
  pub locked_blk : Text
  pub locked_h : ℤ
  pub pending : Map (Unit {0})
  pub sent : List Event

-- Keys, signatures and CBOR of the libraries, and the host's own identity. `peer_of_key` is
-- `UnmarshalPublicKey` and `IDFromPublicKey`; `none` stands for an error.
pub record Net : Type 0 where
  pub peer_of_key : Bytes → Option Text
  pub key_verifies : Bytes → Bytes → Bytes → Bool
  pub encode_payload : VotePayload → Option Bytes
  pub encodes_vote : VoteMsg → Bool
  pub encodes_qc : QcMsg → Bool
  pub encodes_commit : CommitMsg → Bool
  pub own_key : Option Bytes
  pub own_sign : Bytes → Option Bytes
  pub own_id : Text

-- `stepPrepare`
abbrev pub step_prepare : ℕ
step_prepare = 1

-- `HotstuffQuorumSize`, for fewer than 2^62 validators.
unfoldable pub hotstuff_quorum_size : ℤ → ℕ
hotstuff_quorum_size (negsuc n) = 3
hotstuff_quorum_size (pos n) =
    if ltb n 3 then 3 else (let quorum = (2 * n + 2) / 3 in if ltb quorum 3 then 3 else quorum)

-- The fields that `StartL2FromTopic` sets; thresholds that are not positive get their defaults.
positive_or : ℕ → ℤ → ℕ
positive_or d (negsuc n) = d
positive_or d (pos n) = if ltb 0 n then n else d

unfoldable pub start_l2 : ℤ → ℤ → L2
unfolding positive_or
start_l2 quorum expiry = record {
  quorum_size = positive_or 3 quorum;
  vote_expiry = positive_or 15_000_000_000 expiry;
  has_l3 = false;
  votes = [];
  qcs = [];
  blocks = [];
  child_qcs = [];
  committed = [];
  commit_msg = [];
  sent_vote = [];
  locked_blk = [];
  locked_h = negsuc 0;
  pending = [];
  sent = [];
}

-- `AttachL3`
pub attach_l3 : L2 → L2
attach_l3 s = record s { has_l3 = true }

-- `UpdateQuorumSize`
unfoldable pub update_quorum_size : L2 → ℤ → L2
update_quorum_size s (negsuc n) = s
update_quorum_size s (pos n) = if ltb 0 n then record s { quorum_size = n } else s

-- The zero value that an absent key reads as.
pub zero_meta : BlockMeta
zero_meta = record { height = pos 0; parent_hex = []; first_seen = 0; tx_root = [] }

unfoldable pub meta_of : L2 → Text → BlockMeta
unfolding zero_meta
meta_of s b = elim (get b s.blocks) [ none ↦ zero_meta | some meta ↦ meta ]

unfoldable pub peers_of : L2 → Text → Map VoteRecord
peers_of s b = elim (get b s.votes) [ none ↦ [] | some peers ↦ peers ]

unfoldable pub kids_of : L2 → Text → Map (Unit {0})
kids_of s b = elim (get b s.child_qcs) [ none ↦ [] | some kids ↦ kids ]

-- `s.sentVote[b]`
unfoldable pub has_voted : L2 → Text → Bool
has_voted s b = elim (get b s.sent_vote) [ none ↦ false | some v ↦ v ]
