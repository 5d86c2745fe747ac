-- ===== src/L2/Certificates.antt =====
-- l2_checkpoint.go: checking votes and certificates, the lock, and commits. A handler's clock reading
-- is its argument `now`.
use custom_consensus.Base.{
  ℕ, ◌-◌, Bool, true, false, not, ◌&&◌, ◌||◌, Option, none, some, List, [], ◌∷◌, map, length, Bytes,
  Text, is_empty, text_eq, hex_encode, hex_decode, Map, get, put, has, ltb, ◌==◌, if◌then◌else◌,
}
use custom_consensus.Base.Int.{ℤ, pos, ltb_ℤ}
use custom_consensus.L2.State.{
  L2, Net, VoteMsg, QcMsg, QcRef, CommitMsg, BlockMeta, Event, commit_sent, block_meta,
  step_prepare, kids_of,
}
use custom_consensus.L2.Voting.{extends_locked}

-- `b, _ := hex.DecodeString(t)`, for a `t` that encodes some bytes.
unfoldable pub decoded : Text → Bytes
decoded t = elim (hex_decode t) [ none ↦ [] | some b ↦ b ]

module _ (net : Net) where
  peer_matches : Option Text → Text → Bool
  peer_matches none peer = false
  peer_matches (some pid) peer = text_eq pid peer

  signature_verifies : Option Bytes → VoteMsg → Bool
  signature_verifies none msg = false
  signature_verifies (some to_sign) msg = net.key_verifies msg.payload.pub_key to_sign msg.sig

  unfoldable pub verify_vote : VoteMsg → Bool
  unfolding peer_matches signature_verifies
  verify_vote msg =
      if not (msg.payload.step == step_prepare)
      then false
      else if is_empty msg.payload.block
      then false
      else if not (peer_matches (net.peer_of_key msg.payload.pub_key) msg.payload.peer)
      then false
      else signature_verifies (net.encode_payload msg.payload) msg

  -- The loop of `verifyQC`; `seen` holds the peers met so far.
  unfoldable pub verify_votes : Text → Text → Map (Unit {0}) → List VoteMsg → Bool
  verify_votes block_hex parent_hex seen [] = true
  verify_votes block_hex parent_hex seen (v ∷ votes) =
      let rest = verify_votes block_hex parent_hex (put v.payload.peer tt seen) votes in
      if not (text_eq (hex_encode v.payload.block) block_hex)
      then false
      else if not (text_eq (hex_encode v.payload.parent) parent_hex)
      then false
      else if not (verify_vote v)
      then false
      else if has v.payload.peer seen
      then false
      else rest

  unfoldable pub verify_qc : L2 → QcMsg → Bool
  verify_qc s qc =
      if not (qc.step == step_prepare)
      then false
      else if ltb (length qc.votes) s.quorum_size
      then false
      else verify_votes (hex_encode qc.block) (hex_encode qc.parent) [] qc.votes

-- The height of a certificate, or that of the block's metadata if it is larger.
unfoldable pub lock_height : Option BlockMeta → ℤ → ℤ
lock_height none qc_height = qc_height
lock_height (some meta) qc_height = if ltb_ℤ qc_height meta.height then meta.height else qc_height

-- `updateLockForQCLocked`
unfoldable pub update_lock_for_qc : L2 → Text → ℤ → L2
unfolding lock_height
update_lock_for_qc s block_hex qc_height =
    let height = lock_height (get block_hex s.blocks) qc_height in
    if is_empty s.locked_blk
    then record s { locked_blk = block_hex; locked_h = height }
    else if ltb_ℤ s.locked_h height && extends_locked s block_hex
    then record s { locked_blk = block_hex; locked_h = height }
    else s

-- `s.childQCs[parentHex][blockHex] = struct{}{}`, for a parent.
unfoldable pub add_child : L2 → Text → Text → Map (Map (Unit {0}))
add_child s parent_hex block_hex =
    if is_empty parent_hex
    then s.child_qcs
    else put parent_hex (put block_hex tt (kids_of s parent_hex)) s.child_qcs

-- The locked section of `storeQC`, for a block without a certificate.
unfoldable pub store_section : L2 → Text → QcMsg → Text → L2
unfolding add_child
store_section s block_hex qc parent_hex =
    update_lock_for_qc
      (record s { qcs = put block_hex qc s.qcs; child_qcs = add_child s parent_hex block_hex })
      block_hex qc.height

-- What `storeQC` remembers of the parent and tells the L3 service.
pub grand_parent : L2 → Text → Text
grand_parent s parent_hex =
    if is_empty parent_hex
    then []
    else elim (get parent_hex s.blocks) [ none ↦ [] | some meta ↦ meta.parent_hex ]

pub notify_parent : L2 → Text → Option Bytes
notify_parent s parent_hex =
    if is_empty parent_hex then none else if s.has_l3 then hex_decode parent_hex else none

pub qc_ref : QcMsg → QcRef
qc_ref qc = record {
  block_id = qc.block;
  height = qc.height;
  weight = length qc.votes;
  created_at = qc.created_at;
  signers = map (λ v. v.payload.pub_key) qc.votes;
}

unfoldable pub any_key : (Text → Bool) → Map (Unit {0}) → Bool
any_key p [] = false
any_key p ((k, _) ∷ m) = p k || any_key p m

-- Some child with a certificate has a child with a certificate.
unfoldable pub grand_chain : L2 → Text → Bool
unfolding any_key
grand_chain s block_hex =
    any_key (λ child. has child s.qcs && any_key (λ grand. has grand s.qcs) (kids_of s child))
      (kids_of s block_hex)

unfoldable pub add_event : Bool → Event → List Event → List Event
add_event true e es = e ∷ es
add_event false e es = es

module _ (net : Net) where
  -- The second half of `checkCommitFor`, for a block with metadata whose key decodes.
  unfoldable pub record_commit : L2 → Text → BlockMeta → Bytes → ℕ → L2
  unfolding add_event
  record_commit s block_hex meta block now =
      let commit : CommitMsg = record { block = block; height = meta.height; committed_at = now } in
      let told = add_event (net.encodes_commit commit) (commit_sent commit) s.sent in
      record s {
        committed =
            put block_hex (record { height = meta.height; committed_when = now }) s.committed;
        commit_msg = put block_hex commit s.commit_msg;
        sent =
            add_event (s.has_l3 && not (is_empty block))
              (block_meta block (decoded meta.parent_hex) meta.height meta.tx_root) told;
      }

  unfoldable pub commit_known : L2 → Text → Option BlockMeta → Option Bytes → ℕ → L2
  unfolding record_commit
  commit_known s block_hex (some meta) (some block) now = record_commit s block_hex meta block now
  commit_known s block_hex _ _ now = s

  -- `checkCommitFor`
  unfoldable pub check_commit_for : L2 → Text → ℕ → L2
  unfolding commit_known
  check_commit_for s block_hex now =
      if is_empty block_hex
      then s
      else if has block_hex s.committed
      then s
      else if not (has block_hex s.qcs)
      then s
      else if not (grand_chain s block_hex)
      then s
      else commit_known s block_hex (get block_hex s.blocks) (hex_decode block_hex) now

-- What `onCommit` tells the L3 service: the metadata of the block, if it has any.
unfoldable pub commit_meta : CommitMsg → Option BlockMeta → Event
commit_meta msg none = block_meta msg.block [] msg.height []
commit_meta msg (some meta) =
    block_meta msg.block (decoded meta.parent_hex)
      (if ltb_ℤ (pos 0) meta.height then meta.height else msg.height) meta.tx_root

unfoldable pub on_commit : L2 → Option CommitMsg → L2
unfolding commit_meta add_event
on_commit s none = s
on_commit s (some msg) =
    let block_hex = hex_encode msg.block in
    if has block_hex s.committed then s else record s {
      committed =
          put block_hex (record { height = msg.height; committed_when = msg.committed_at })
            s.committed;
      commit_msg = put block_hex msg s.commit_msg;
      sent =
          add_event (s.has_l3 && not (is_empty msg.block))
            (commit_meta msg (get block_hex s.blocks)) s.sent;
    }

-- The loops of `pruneExpired`: a map without the entries that `drop` names.
unfoldable pub drop_keys {ℓ} : {V : Type ℓ} → (Text → V → Bool) → Map V → Map V
drop_keys drop [] = []
drop_keys drop ((k, v) ∷ m) =
    let rest = drop_keys drop m in if drop k v then rest else (k, v) ∷ rest

-- The votes of one block, or the children of one parent, thinned out; empty ones go.
unfoldable pub thin_out {ℓ} : {V : Type ℓ} → (Text → V → Bool) → Map (Map V) → Map (Map V)
unfolding drop_keys
thin_out drop [] = []
thin_out drop ((k, m) ∷ rest) =
    let m' = drop_keys drop m in
    let rest' = thin_out drop rest in if length m' == 0 then rest' else (k, m') ∷ rest'

unfoldable pub prune_expired : L2 → ℕ → L2
unfolding drop_keys thin_out
prune_expired s now = record s {
  votes =
      thin_out (λ _ vote. ltb 0 s.vote_expiry && ltb s.vote_expiry (now - vote.received)) s.votes;
  sent_vote = drop_keys (λ b _. has b s.committed) s.sent_vote;
  blocks = drop_keys (λ b _. has b s.committed) s.blocks;
  pending = drop_keys (λ b _. has b s.committed) s.pending;
  child_qcs =
      thin_out (λ child _. not (has child s.qcs))
        (drop_keys (λ parent _. has parent s.committed) s.child_qcs);
}
