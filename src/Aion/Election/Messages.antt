-- ===== src/Aion/Election/Messages.antt =====
-- internal/aion/gossip.go: the handlers of the four topics, in any order.
use custom_consensus.Base.{
  ℕ, ◌≡◌, refl, inl, inr, true, false, Option, none, some, List, [], ◌∷◌, length, Bytes, IsBytes,
  Text, is_empty, hex_encode, Map, get, put, del, All, All-put, All-get, All-del, Bool-cases, arith,
  ◌==◌,
}
use custom_consensus.Aion.Scheduler.{Params}
use custom_consensus.Aion.ChainEntropy.{ChainView}
use custom_consensus.Aion.Commitment.{Crypto, vrf_verify}
use custom_consensus.Aion.Election.State.{
  MsgCommit, MsgReveal, MsgVrf, MsgEntropy, PendingVrf, Election, at_epoch, start_election,
}
use custom_consensus.Aion.Election.{
  commit_valid, on_commit, update_leader, output_valid, store_output, try_pending, reveal_valid,
  set_reveal, on_reveal, vrf_shape, pending_of, revealed, stash, on_vrf, on_entropy,
}
use custom_consensus.Aion.Election.Candidates.{
  Proven, Stashed, Sound, Current, at_epoch-All, update_leader_run,
}

-- A message of one of the topics; `none` is one that does not decode.
pub data Received : Type 0 where
  commit : Option MsgCommit → Received
  reveal : Option MsgReveal → Received
  output : Option MsgVrf → Received
  entropy : Option MsgEntropy → Received

-- The output that a message carries consists of bytes.
abbrev pub HasBytes : Received → Type 0
HasBytes (output (some m)) = IsBytes m.y
HasBytes _ = Unit

-- An epoch has a candidate once an output is stored.
put_some : {A : Type 0} (k : Text) (v : A) (m : Map A) → (length (put k v m) == 0) ≡ true → ⊥
unfolding put
put_some k v [] h = absurd (ground arith)
put_some k v ((j, w) ∷ m) h = absurd (ground arith)

stored_some :
    {A : Type 0} (e : ℕ) (k : Text) (v : A) (m : Map A) (f : ℕ → Map A)
    → (length (at_epoch e (put k v m) f e) == 0) ≡ true
    → ⊥
unfolding at_epoch
stored_some e k v m f h =
    let here : (e == e) ≡ true = ground arith in put_some k v m (rw (here, at_epoch) at h)

module _ (c : Crypto) where
  -- The handlers, one message at a time, with the chain as it is then.
  unfoldable pub handle : ChainView → Election → Received → Option Election
  handle view s (commit m) = some (on_commit s m)
  handle view s (reveal m) = on_reveal c view s m
  handle view s (output m) = on_vrf c view s m
  handle view s (entropy m) = on_entropy c view s m

  -- Messages one after another: each handler is run to its end before the next starts. `run` has a
  -- goroutine per topic, so that it may also start a handler while another is between its locked
  -- sections; those orders are not among the ones here.
  unfoldable pub handle_all : Election → List (ChainView × Received) → Option Election
  handle_all s [] = some s
  handle_all s ((view, m) ∷ ms) = elim (handle view s m) [ none ↦ none | some t ↦ handle_all t ms ]

  -- What a handler returns.
  abbrev pub Kept : Option Election → Type 0
  Kept v = (t : Election) × (v ≡ some t) × Sound c t

module _ (c : Crypto) (view : ChainView) where
  -- A state like this one in all that `Sound` reads.
  Sound-like :
      (s t : Election)
      → t.vrf ≡ s.vrf
      → t.pending_vrf ≡ s.pending_vrf
      → t.schedule ≡ s.schedule
      → t.leader ≡ s.leader
      → t.params ≡ s.params
      → Sound c s
      → Sound c t
  Sound-like s t a b d e f v = record {
    outputs = rw a v.outputs;
    pendings = rw b v.pendings;
    current = rw (a, d, e, f) v.current;
  }

  on_commit-Sound : (s : Election) (m : Option MsgCommit) → Sound c s → Sound c (on_commit s m)
  unfolding on_commit
  on_commit-Sound s none v = v
  on_commit-Sound s (some m) v = elim (Bool-cases (commit_valid m)) [
    | inl valid ↦ rw (valid, on_commit) (Sound-like s _ refl refl refl refl refl v)
    | inr malformed ↦ rw (malformed, on_commit) v
  ]

  output_verified :
      (seed : Bytes) (p : PendingVrf)
      → output_valid c view seed p ≡ true
      → vrf_verify c p.pub_key p.input p.y p.proof ≡ true
  unfolding output_valid
  output_verified seed p h = ground arith

  update_leader-Kept : (s : Election) (e : ℕ) → Sound c s → Kept c (update_leader c view s e)
  update_leader-Kept s e v =
      let (t, is, same, sound) =
        update_leader_run c view s e v.outputs v.pendings (λ x other. v.current x)
          (λ idle. v.current e) in
      (t, is, sound)

  elsewhere :
      (s : Election) (e : ℕ) (ph : Text) (p : PendingVrf) (pending : ℕ → Map PendingVrf)
      → Sound c s
      → (x : ℕ) → (x == e) ≡ false
      → Current c (record (store_output c view s e ph p) { pending_vrf = pending }) x
  unfolding store_output at_epoch
  elsewhere s e ph p pending v x other = rw (other, at_epoch) (v.current x)

  -- A proven output is stored, and the schedule of its epoch is made anew.
  store_output-Kept :
      (s : Election) (e : ℕ) (ph : Text) (seed : Bytes) (p : PendingVrf)
      (pending : ℕ → Map PendingVrf)
      → Sound c s
      → Stashed c (ph, p)
      → output_valid c view seed p ≡ true
      → ((x : ℕ) → All (Stashed c) (pending x))
      → Kept c
          (update_leader c view (record (store_output c view s e ph p) { pending_vrf = pending }) e)
  unfolding store_output
  store_output-Kept s e ph seed p pending v (out, name) valid stashed =
      let (t, is, same, sound) =
        update_leader_run c view (record (store_output c view s e ph p) { pending_vrf = pending }) e
          (at_epoch-All (All (Proven c)) e _ s.vrf
            (All-put (Proven c) ph (record { y = p.y; proof = p.proof }) (s.vrf e)
              (out, (p.pub_key, p.input, name, output_verified seed p valid)) (v.outputs e))
            v.outputs)
          stashed (elsewhere s e ph p pending v)
          (λ idle. absurd (stored_some e ph _ (s.vrf e) s.vrf idle)) in
      (t, is, sound)

  try_pending-Kept :
      (s : Election) (e : ℕ) (ph : Text) (seed : Bytes) (p : Option PendingVrf)
      → Sound c s
      → get ph (s.pending_vrf e) ≡ p
      → Kept c (try_pending c view s e ph seed p)
  unfolding try_pending
  try_pending-Kept s e ph seed none v found = (s, refl, v)
  try_pending-Kept s e ph seed (some p) v found = elim (Bool-cases (output_valid c view seed p)) [
    | inr refused ↦ (s, rw (refused, try_pending) refl, v)
    | inl valid ↦
        rw (valid, try_pending)
          (store_output-Kept s e ph seed p (at_epoch e (del ph (s.pending_vrf e)) s.pending_vrf) v
            (All-get (Stashed c) ph p (s.pending_vrf e) found (v.pendings e)) valid
            (at_epoch-All (All (Stashed c)) e _ s.pending_vrf
              (All-del (Stashed c) ph (s.pending_vrf e) (v.pendings e)) v.pendings))
  ]

  on_reveal-Kept : (s : Election) (m : Option MsgReveal) → Sound c s → Kept c (on_reveal c view s m)
  unfolding on_reveal set_reveal
  on_reveal-Kept s none v = (s, refl, v)
  on_reveal-Kept s (some m) v = elim (Bool-cases (reveal_valid c view s m)) [
    | inr refused ↦ (s, rw (refused, on_reveal) refl, v)
    | inl valid ↦
        rw (valid, on_reveal)
          (try_pending-Kept (set_reveal c view s m) m.epoch (hex_encode m.pub_key) m.seed
            (get (hex_encode m.pub_key) (s.pending_vrf m.epoch))
            (Sound-like s (set_reveal c view s m) refl refl refl refl refl v) refl)
  ]

  vrf_shape-y : (m : MsgVrf) → vrf_shape c view m ≡ true → length m.y ≡ 32
  unfolding vrf_shape
  vrf_shape-y m h = ground arith

  on_vrf-Kept :
      (s : Election) (m : MsgVrf) → IsBytes m.y → Sound c s → Kept c (on_vrf c view s (some m))
  unfolding on_vrf stash pending_of store_output
  on_vrf-Kept s m bytes v =
      let ph = hex_encode m.pub_key in
      let seed = revealed c view (get ph (s.rev m.epoch)) in
      elim (Bool-cases (vrf_shape c view m)) [
        | inr malformed ↦ (s, rw (malformed, on_vrf) refl, v)
        | inl shaped ↦ elim (Bool-cases (is_empty seed)) [
          | inl early ↦ (
            stash c view s m,
            rw (shaped, early, on_vrf) refl,
            record {
              outputs = v.outputs;
              pendings =
                  at_epoch-All (All (Stashed c)) m.epoch _ s.pending_vrf
                    (All-put (Stashed c) ph (pending_of c view m) (s.pending_vrf m.epoch)
                      ((vrf_shape-y m shaped, bytes), refl) (v.pendings m.epoch))
                    v.pendings;
              current = v.current;
            },
          )
          | inr known ↦ elim (Bool-cases (output_valid c view seed (pending_of c view m))) [
            | inr refused ↦ (s, rw (shaped, known, refused, on_vrf) refl, v)
            | inl valid ↦
                rw (shaped, known, valid, on_vrf)
                  (store_output-Kept s m.epoch ph seed (pending_of c view m) s.pending_vrf v
                    ((vrf_shape-y m shaped, bytes), refl) valid v.pendings)
          ]
        ]
      ]

  on_entropy-Kept :
      (s : Election) (m : Option MsgEntropy) → Sound c s → Kept c (on_entropy c view s m)
  unfolding on_entropy
  on_entropy-Kept s none v = (s, refl, v)
  on_entropy-Kept s (some m) v = elim (Bool-cases (is_empty m.pub_key)) [
    | inl no_key ↦ (s, rw (no_key, on_entropy) refl, v)
    | inr given ↦
        rw (given, on_entropy)
          (update_leader-Kept _ m.epoch (Sound-like s _ refl refl refl refl refl v))
  ]

  handle-Kept : (s : Election) (m : Received) → HasBytes m → Sound c s → Kept c (handle c view s m)
  unfolding handle on_vrf
  handle-Kept s (commit m) h v = (on_commit s m, refl, on_commit-Sound s m v)
  handle-Kept s (reveal m) h v = on_reveal-Kept s m v
  handle-Kept s (output none) h v = (s, refl, v)
  handle-Kept s (output (some m)) h v = on_vrf-Kept s m h v
  handle-Kept s (entropy m) h v = on_entropy-Kept s m v

module _ (c : Crypto) where
  handle_all-Kept :
      (ms : List (ChainView × Received)) (s : Election)
      → All (λ x. HasBytes x.1) ms
      → Sound c s
      → Kept c (handle_all c s ms)
  unfolding handle_all
  handle_all-Kept [] s h v = (s, refl, v)
  handle_all-Kept ((view, m) ∷ ms) s (h, hs) v =
      let (t, e, kept) = handle-Kept c view s m h v in
      let (u, f, kept') = handle_all-Kept ms t hs kept in (u, rw (e, handle_all) f, kept')

  -- Whatever messages of byte strings are handled, one after another, in whichever order and with
  -- whatever chain at each: no handler panics; and then, for every epoch, each candidate's output is
  -- proven under the key that it is filed under, and an epoch without candidates has neither a schedule
  -- nor a leader. In an epoch with candidates the schedule holds exactly these, by the ranks that their
  -- outputs have for the weight of some chain, with the lowest rank first, and its first entry leads.
  pub handle_all-Sound :
      (params : Params) (ms : List (ChainView × Received))
      → All (λ x. HasBytes x.1) ms
      → Kept c (handle_all c (start_election params) ms)
  unfolding start_election
  handle_all-Sound params ms h =
      handle_all-Kept ms (start_election params) h
        (record { outputs = λ e. tt; pendings = λ e. tt; current = λ e. inl (refl, refl, refl) })
