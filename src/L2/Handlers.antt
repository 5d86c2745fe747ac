-- ===== src/L2/Handlers.antt =====
-- l2_checkpoint.go: the handlers. A vote can complete a certificate, a certificate can make pending
-- blocks safe to vote for, and so on: `retry` is the argument that stands for `retryPendingVotes`,
-- which recurs on fuel; `none` means that the fuel ran out. The handlers run one after another; what
-- other goroutines do between two locked sections is the subject of L2.Steps.
use custom_consensus.Base.{
  ℕ, zero, suc, Bool, true, false, not, ◌&&◌, Option, none, some, List, [], ◌∷◌, map, length, Bytes,
  Text, is_empty, text_lt, hex_encode, hex_decode, Map, put, has, ltb, leb, if◌then◌else◌,
}
use custom_consensus.Base.Int.{ℤ}
use custom_consensus.L2.State.{
  L2, Net, VotePayload, VoteMsg, QcMsg, vote_sent, qc_sent, descendant_qc, step_prepare, meta_of,
  peers_of,
}
use custom_consensus.L2.Voting.{note_block, mark_vote_if_safe, pick_loop, nothing, picked}
use custom_consensus.L2.Certificates.{
  decoded, verify_vote, verify_qc, store_section, grand_parent, notify_parent, qc_ref,
  check_commit_for,
}

infixl 5 ◌>>=◌
abbrev pub ◌>>=◌ {ℓ κ} : {A : Type ℓ} {B : Type κ} → Option A → (A → Option B) → Option B
none >>= f = none
some a >>= f = f a

-- The locked section of `consumeVote` for a vote that verifies: the first vote of a peer for a block
-- is kept. The flag says that the votes now suffice for a certificate.
unfoldable pub add_vote : L2 → VoteMsg → ℕ → L2 × Bool
add_vote s msg now =
    let block_hex = hex_encode msg.payload.block in
    let peers = peers_of s block_hex in
    let peers' = put msg.payload.peer (record { msg = msg; received = now }) peers in
    if has msg.payload.peer peers then (s, false) else (
      note_block (record s { votes = put block_hex peers' s.votes }) block_hex msg.payload.height
          (hex_encode msg.payload.parent) now,
      not (has block_hex s.qcs) && leb s.quorum_size (length peers'),
    )

-- `sort.Slice` by peer: a stable insertion sort.
unfoldable pub insert_by_peer : VoteMsg → List VoteMsg → List VoteMsg
insert_by_peer v [] = v ∷ []
insert_by_peer v (w ∷ ws) =
    let rest = insert_by_peer v ws in
    if text_lt w.payload.peer v.payload.peer then w ∷ rest else v ∷ w ∷ ws

unfoldable pub sort_by_peer : List VoteMsg → List VoteMsg
unfolding insert_by_peer
sort_by_peer [] = []
sort_by_peer (v ∷ vs) = insert_by_peer v (sort_by_peer vs)

-- The last lines of `storeQC`.
unfoldable pub tell_descendant : L2 → Option Bytes → QcMsg → L2
tell_descendant s none qc = s
tell_descendant s (some parent) qc = record s { sent = descendant_qc parent (qc_ref qc) ∷ s.sent }

-- The state after a choice of the loop of `retryPendingVotes`.
unfoldable pub take_pick : L2 → Text → Map (Unit {0}) → L2
take_pick s b rest = record s { pending = rest; sent_vote = put b true s.sent_vote }

module _ (net : Net) where
  unfoldable pub built_qc : L2 → Text → Bytes → ℕ → QcMsg
  built_qc s block_hex block now =
      let meta = meta_of s block_hex in
      record {
        block = block;
        parent = decoded meta.parent_hex;
        height = meta.height;
        step = step_prepare;
        votes = sort_by_peer (map (λ e. e.1.msg) (peers_of s block_hex));
        created_by = net.own_id;
        created_at = now;
      }

  module _ (retry : L2 → Option L2) where
    unfoldable pub store_qc : L2 → Text → QcMsg → Text → ℕ → Option (L2 × Bool)
    unfolding tell_descendant
    store_qc s block_hex qc parent_hex now = if has block_hex s.qcs then some (s, false) else (do
      s' ← retry (store_section s block_hex qc parent_hex)
      let s₁ = check_commit_for net s' parent_hex now
      let s₂ = check_commit_for net s₁ block_hex now
      let s₃ = check_commit_for net s₂ (grand_parent s parent_hex) now
      some (tell_descendant s₃ (notify_parent s parent_hex) qc, true))

    unfoldable pub announce_qc : L2 × Bool → QcMsg → L2
    announce_qc (s, false) qc = s
    announce_qc (s, true) qc =
        if net.encodes_qc qc then record s { sent = qc_sent qc ∷ s.sent } else s

    -- The rest of `buildAndBroadcastQC`, for a key that decodes.
    unfoldable pub build_decoded : L2 → Text → Option Bytes → ℕ → Option L2
    unfolding announce_qc
    build_decoded s block_hex none now = some s
    build_decoded s block_hex (some block) now =
        let qc = built_qc s block_hex block now in
        do r ← store_qc s block_hex qc (meta_of s block_hex).parent_hex now; some (announce_qc r qc)

    unfoldable pub build_and_broadcast_qc : L2 → Text → ℕ → Option L2
    unfolding build_decoded
    build_and_broadcast_qc s block_hex now =
        if has block_hex s.qcs
        then some s
        else if ltb (length (peers_of s block_hex)) s.quorum_size
        then some s
        else build_decoded s block_hex (hex_decode block_hex) now

    unfoldable pub consume_vote : L2 → VoteMsg → ℕ → Option L2
    consume_vote s msg now =
        if not (verify_vote net msg)
        then some s
        else (let (s', should_build) = add_vote s msg now in
            if should_build
            then build_and_broadcast_qc s' (hex_encode msg.payload.block) now
            else some s')

    unfoldable pub publish_signed : L2 → VotePayload → Option Bytes → ℕ → Option L2
    publish_signed s payload none now = some s
    publish_signed s payload (some sig) now =
        let msg : VoteMsg = record { payload = payload; sig = sig } in
        do
          s' ← consume_vote s msg now
          some (if net.encodes_vote msg then record s' { sent = vote_sent msg ∷ s'.sent } else s')

    unfoldable pub own_vote : Text → ℤ → Text → Bytes → Bytes → VotePayload
    own_vote hash_hex height parent_hex key block = record {
      block = block;
      parent = decoded parent_hex;
      height = height;
      step = step_prepare;
      pub_key = key;
      peer = net.own_id;
    }

    unfoldable pub sign_payload : L2 → VotePayload → Option Bytes → ℕ → Option L2
    unfolding publish_signed
    sign_payload s payload none now = some s
    sign_payload s payload (some to_sign) now = publish_signed s payload (net.own_sign to_sign) now

    unfoldable pub publish_parts :
        L2 → Text → ℤ → Text → Option Bytes → Option Bytes → ℕ → Option L2
    unfolding sign_payload own_vote
    publish_parts s hash_hex height parent_hex (some key) (some block) now =
        let payload = own_vote hash_hex height parent_hex key block in
        sign_payload s payload (net.encode_payload payload) now
    publish_parts s hash_hex height parent_hex _ _ now = some s

    unfoldable pub publish_vote : L2 → Text → ℤ → Text → ℕ → Option L2
    unfolding publish_parts
    publish_vote s hash_hex height parent_hex now =
        publish_parts s hash_hex height parent_hex net.own_key (hex_decode hash_hex) now

    unfoldable pub vote_for_block : L2 → Text → ℤ → Text → ℕ → Option L2
    vote_for_block s hash_hex height parent_hex now =
        let (s', safe) = mark_vote_if_safe s hash_hex parent_hex in
        if safe then publish_vote s' hash_hex height parent_hex now else some s'

    -- A block message that decodes to its hash, parent and height.
    unfoldable pub on_block : L2 → Bytes → Bytes → ℤ → ℕ → Option L2
    on_block s hash prev_hash height now =
        let hash_hex = hex_encode hash in
        let parent_hex = hex_encode prev_hash in
        if is_empty hash
        then some s
        else vote_for_block (note_block s hash_hex height parent_hex now) hash_hex height parent_hex
            now

    unfoldable pub on_vote : L2 → Option VoteMsg → ℕ → Option L2
    on_vote s none now = some s
    on_vote s (some msg) now = consume_vote s msg now

    unfoldable pub on_qc : L2 → Option QcMsg → ℕ → Option L2
    on_qc s none now = some s
    on_qc s (some msg) now =
        if not (verify_qc net s msg)
        then some s
        else (let block_hex = hex_encode msg.block in
            let parent_hex = hex_encode msg.parent in
            do
              r ←
                  store_qc (note_block s block_hex msg.height parent_hex now) block_hex msg
                    parent_hex now
              some r.0)

  unfoldable pub retry_pending_votes : ℕ → ℕ → L2 → Option L2
  unfolding take_pick
  retry_pending_votes now zero s = none
  retry_pending_votes now (suc fuel) s = elim (pick_loop s s.pending) [
    | nothing rest ↦ some (record s { pending = rest })
    | picked b meta rest ↦ if is_empty b then some (take_pick s b rest) else (do
      s' ←
          publish_vote (retry_pending_votes now fuel) (take_pick s b rest) b meta.height
            meta.parent_hex now
      retry_pending_votes now fuel s')
  ]
