-- ===== src/Aion/Election/Recommit.antt =====
-- internal/aion/gossip.go: a commitment can be replaced.
use custom_consensus.Base.{
  ℕ, ◌≡◌, ◌∙◌, refl, ap, true, false, none, some, length, Bytes, is_empty, hex_encode, get, put,
  get-put_self, text_eq_refl, arith,
}
use custom_consensus.Aion.ChainEntropy.{ChainView}
use custom_consensus.Aion.Commitment.{Crypto, verify_reveal}
use custom_consensus.Aion.Election.State.{MsgCommit, MsgReveal, Election, at_epoch}
use custom_consensus.Aion.Election.{
  commit_valid, on_commit, reveal_valid, matches, set_reveal, on_reveal, try_pending,
}

at_self {ℓ} : {A : Type ℓ} (e : ℕ) (v : A) (f : ℕ → A) → at_epoch e v f e ≡ v
unfolding at_epoch
at_self e v f = ground arith

module _ (c : Crypto) (view : ChainView) (key : Bytes) (e : ℕ) (seed : Bytes)
    (has_key : is_empty key ≡ false) (has_seed : is_empty seed ≡ false)
    (hash : length (c.sha256 seed) ≡ 32) where
  -- The messages with this seed.
  abbrev pub the_commit : MsgCommit
  the_commit = record { pub_key = key; epoch = e; commit = c.sha256 seed }

  abbrev pub the_reveal : MsgReveal
  the_reveal = record { pub_key = key; epoch = e; seed = seed; commit = c.sha256 seed }

  committed :
      (s : Election)
      → get (hex_encode key) ((on_commit s (some the_commit)).cmt e) ≡ some (c.sha256 seed)
  unfolding on_commit commit_valid
  committed s =
      rw (has_key, hash, commit_valid, on_commit)
        (ap (get (hex_encode key))
            (at_self e (put (hex_encode key) (c.sha256 seed) (s.cmt e)) s.cmt)
          ∙ get-put_self (hex_encode key) (c.sha256 seed) (s.cmt e))

  reveal_fits :
      (s : Election)
      → get (hex_encode key) (s.cmt e) ≡ some (c.sha256 seed)
      → reveal_valid c view s the_reveal ≡ true
  unfolding reveal_valid matches verify_reveal
  reveal_fits s found =
      rw
        (
          has_key,
          has_seed,
          hash,
          found,
          text_eq_refl (c.sha256 seed),
          reveal_valid,
          matches,
          verify_reveal,
        )
        refl

  -- Whatever a candidate has committed to and revealed before, if none of its outputs is pending for
  -- the epoch: a commitment to another seed and its reveal are accepted and take the place of the
  -- earlier ones. The reveal is checked against the latest commitment only, so that nothing binds the
  -- candidate to its first one.
  pub on_reveal_again :
      (s : Election)
      → get (hex_encode key) ((on_commit s (some the_commit)).pending_vrf e) ≡ none
      → (t : Election) × (on_reveal c view (on_commit s (some the_commit)) (some the_reveal)
          ≡ some t)
        × (get (hex_encode key) (t.cmt e) ≡ some (c.sha256 seed))
        × (get (hex_encode key) (t.rev e) ≡ some seed)
  unfolding on_reveal try_pending set_reveal
  on_reveal_again s no_output =
      let s' = on_commit s (some the_commit) in
      (
        set_reveal c view s' the_reveal,
        rw (reveal_fits s' (committed s), on_reveal, no_output) refl,
        committed s,
        ap (get (hex_encode key)) (at_self e (put (hex_encode key) seed (s'.rev e)) s'.rev)
            ∙ get-put_self (hex_encode key) seed (s'.rev e),
      )
