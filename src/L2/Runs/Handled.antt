-- ===== src/L2/Runs/Handled.antt =====
-- l2_checkpoint.go: the handlers, for any `retry` that returns.
use custom_consensus.Base.{
  ℕ, ◌≤◌, ◌≡◌, refl, sym, ap, true, false, some, none, inl, inr, Option, Bool, ◌∷◌, Text, Bytes,
  IsBytes, has, length, is_empty, hex_encode, hex_decode, arith, Bool-cases, ltb,
}
use custom_consensus.Base.Int.{ℤ}
use custom_consensus.L2.State.{
  L2, Net, VoteMsg, VotePayload, QcMsg, vote_sent, qc_sent, descendant_qc, meta_of, peers_of,
}
use custom_consensus.L2.Certificates.{
  verify_vote, store_section, check_commit_for, grand_parent, notify_parent, qc_ref,
}
use custom_consensus.L2.Handlers.{
  add_vote, built_qc, store_qc, tell_descendant, announce_qc, build_decoded, build_and_broadcast_qc,
  consume_vote, publish_signed, own_vote, sign_payload, publish_parts, publish_vote,
}
use custom_consensus.L2.Steps.{
  IsHex, Certified, Step, vote, store, commit, tell, Reach, start, one, Reach-trans,
}
use custom_consensus.L2.Steps.Ledger.{Inv, meta_of-IsHex, decoded_lem}
use custom_consensus.L2.Steps.Invariant.{Step-Inv}
use custom_consensus.L2.Quorum.Votes.{verify_vote-full}
use custom_consensus.L2.Quorum.Built.{built_qc-Certified}
use custom_consensus.L2.Runs.Pending.{
  add_vote-pending, store_section-pending, check_commit_for-pending,
}

module _ (net : Net) (q : ℕ) where
  -- The run from `s` to `t` is a sequence of steps, and leaves no more blocks pending.
  pub record Run (s t : L2) : Type 0 where
    pub steps : Reach net q s t
    pub settled : length t.pending ≤ length s.pending

  pub stay : (s : L2) → Run s s
  stay s = record { steps = start; settled = omega arith }

  pub then-Run : {s t u : L2} → Run s t → Run t u → Run s u
  then-Run a b = record {
    steps = Reach-trans a.steps b.steps;
    settled = omega (arith, a.settled, b.settled);
  }

  pub step-Run : {s t : L2} → Step net q s t → t.pending ≡ s.pending → Run s t
  step-Run st e = record { steps = one st; settled = omega (arith, ap length e) }

  -- A handler that returns, by a run.
  abbrev pub Returns : L2 → Option L2 → Type 0
  Returns s r = (t : L2) × (r ≡ some t) × Run s t

  -- `retry` returns from every valid state with at most `n` pending blocks.
  abbrev pub Works : (L2 → Option L2) → ℕ → Type 0
  Works retry n = (s : L2) → length s.pending ≤ n → Inv net q s → Returns s (retry s)

  pub check-Run : (s : L2) (b : Text) (now : ℕ) → Run s (check_commit_for net s b now)
  check-Run s b now = step-Run (commit s b now) (check_commit_for-pending net s b now)

  module _ (retry : L2 → Option L2) (n : ℕ) (works : Works retry n) where
    told-Run : (s : L2) (o : Option Bytes) (qc : QcMsg) → Run s (tell_descendant s o qc)
    unfolding tell_descendant
    told-Run s none qc = stay s
    told-Run s (some p) qc = step-Run (tell s (descendant_qc p (qc_ref qc)) tt) refl

    pub store_qc-Run :
        (s : L2) (b : Text) (qc : QcMsg) (p : Text) (now : ℕ)
        → length s.pending ≤ n
        → Inv net q s
        → is_empty b ≡ false
        → p ≡ hex_encode qc.parent
        → Certified net q (b, qc)
        → (t : L2) × (flag : Bool) × (store_qc net retry s b qc p now ≡ some (t, flag)) × Run s t
    unfolding store_qc
    store_qc-Run s b qc p now small v full e c = elim (Bool-cases (has b s.qcs)) [
      | inl old ↦ (s, false, rw old, stay s)
      | inr fresh ↦
          let s₀ = store_section s b qc p in
          let st = store s b qc p fresh full e c in
          let r₀ = step-Run st (store_section-pending s b qc p) in
          let (t, returned, r) = works s₀ (omega (arith, r₀.settled)) (Step-Inv net q st v) in
          let r₁ = check-Run t p now in
          let t₁ = check_commit_for net t p now in
          let r₂ = check-Run t₁ b now in
          let t₂ = check_commit_for net t₁ b now in
          let r₃ = check-Run t₂ (grand_parent s p) now in
          let t₃ = check_commit_for net t₂ (grand_parent s p) now in
          (
            tell_descendant t₃ (notify_parent s p) qc,
            true,
            rw (fresh, returned),
            then-Run r₀ (
                then-Run r
                  (then-Run r₁ (then-Run r₂ (then-Run r₃ (told-Run t₃ (notify_parent s p) qc))))),
          )
    ]

    build_decoded_run :
        (s : L2) (b : Text) (block : Option Bytes) (now : ℕ)
        → length s.pending ≤ n
        → Inv net q s
        → is_empty b ≡ false
        → q ≤ length (peers_of s b)
        → Returns s (build_decoded net retry s b block now)
    unfolding build_decoded announce_qc built_qc
    build_decoded_run s b none now small v full enough = (s, refl, stay s)
    build_decoded_run s b (some block) now small v full enough =
        let qc = built_qc net s b block now in
        let p = (meta_of s b).parent_hex in
        let parent = sym (decoded_lem p (meta_of-IsHex s b v.metas)).1 in
        let (t, flag, returned, r) =
          store_qc-Run s b qc p now small v full parent
            (built_qc-Certified net q s b block now v enough) in
        (announce_qc net retry (t, flag) qc, rw returned, then-Run r (announced_run t flag qc))
      where
        announced_run :
            (t : L2) (flag : Bool) (qc : QcMsg) → Run t (announce_qc net retry (t, flag) qc)
        announced_run t false qc = stay t
        announced_run t true qc = elim (Bool-cases (net.encodes_qc qc)) [
          | inl sent ↦ rw (sent, announce_qc) (step-Run (tell t (qc_sent qc) tt) refl)
          | inr lost ↦ rw (lost, announce_qc) (stay t)
        ]

    build_run :
        (s : L2) (b : Text) (now : ℕ)
        → length s.pending ≤ n
        → Inv net q s
        → is_empty b ≡ false
        → Returns s (build_and_broadcast_qc net retry s b now)
    unfolding build_and_broadcast_qc
    build_run s b now small v full = elim (Bool-cases (has b s.qcs)) [
      | inl old ↦ (s, rw old, stay s)
      | inr fresh ↦ elim (Bool-cases (ltb (length (peers_of s b)) s.quorum_size)) [
        | inl few ↦ (s, rw (fresh, few), stay s)
        | inr enough ↦
            let many : q ≤ length (peers_of s b) = enough_votes s b enough v.quorum_min in
            let (t, returned, r) = build_decoded_run s b (hex_decode b) now small v full many in
            (t, rw (fresh, enough, returned), r)
      ]
    ]
      where
        enough_votes :
            (s : L2) (b : Text)
            → ltb (length (peers_of s b)) s.quorum_size ≡ false
            → q ≤ s.quorum_size
            → q ≤ length (peers_of s b)
        enough_votes s b e h = ground arith

    pub consume_vote_run :
        (s : L2) (msg : VoteMsg) (now : ℕ)
        → length s.pending ≤ n
        → Inv net q s
        → IsBytes msg.payload.parent
        → Returns s (consume_vote net retry s msg now)
    unfolding consume_vote
    consume_vote_run s msg now small v bytes = elim (Bool-cases (verify_vote net msg)) [
      | inr bad ↦ (s, rw bad, stay s)
      | inl valid ↦
          let st = vote s msg now valid bytes in
          let b = hex_encode msg.payload.block in
          let s' = (add_vote s msg now).0 in
          let r = step-Run st (add_vote-pending s msg now) in
          elim (Bool-cases (add_vote s msg now).1) [
            | inr few ↦ (s', rw (valid, few), r)
            | inl enough ↦
                let (t, returned, r') =
                  build_run s' b now (omega (arith, r.settled)) (Step-Inv net q st v)
                    (verify_vote-full net msg valid) in
                (t, rw (valid, enough, returned), then-Run r r')
          ]
    ]

    publish_signed_run :
        (s : L2) (payload : VotePayload) (sig : Option Bytes) (now : ℕ)
        → length s.pending ≤ n
        → Inv net q s
        → IsBytes payload.parent
        → Returns s (publish_signed net retry s payload sig now)
    unfolding publish_signed
    publish_signed_run s payload none now small v bytes = (s, refl, stay s)
    publish_signed_run s payload (some sig) now small v bytes =
        let msg : VoteMsg = record { payload = payload; sig = sig } in
        let (t, returned, r) = consume_vote_run s msg now small v bytes in
        elim (Bool-cases (net.encodes_vote msg)) [
          | inl sent ↦ (
            record t { sent = vote_sent msg ∷ t.sent },
            rw (returned, sent),
            then-Run r (step-Run (tell t (vote_sent msg) tt) refl),
          )
          | inr lost ↦ (t, rw (returned, lost), r)
        ]

    sign_payload_run :
        (s : L2) (payload : VotePayload) (to_sign : Option Bytes) (now : ℕ)
        → length s.pending ≤ n
        → Inv net q s
        → IsBytes payload.parent
        → Returns s (sign_payload net retry s payload to_sign now)
    unfolding sign_payload
    sign_payload_run s payload none now small v bytes = (s, refl, stay s)
    sign_payload_run s payload (some to_sign) now small v bytes =
        publish_signed_run s payload (net.own_sign to_sign) now small v bytes

    pub publish_vote_run :
        (s : L2) (b : Text) (h : ℤ) (p : Text) (now : ℕ)
        → length s.pending ≤ n
        → Inv net q s
        → IsHex p
        → Returns s (publish_vote net retry s b h p now)
    unfolding publish_vote
    publish_vote_run s b h p now small v hex = parts net.own_key (hex_decode b)
      where
        parts :
            (key block : Option Bytes) → Returns s (publish_parts net retry s b h p key block now)
        parts (some key) (some block) =
            let payload = own_vote net retry b h p key block in
            sign_payload_run s payload (net.encode_payload payload) now small v
              (decoded_lem p hex).0
        parts none (some block) = (s, refl, stay s)
        parts none none = (s, refl, stay s)
        parts (some key) none = (s, refl, stay s)
