-- ===== src/Aion/Election/Publishing.antt =====
-- internal/aion/gossip.go: what a node publishes for an epoch.
use custom_consensus.Base.{
  ℕ, ◌+◌, ◌%◌, ◌^◌, Option, none, some, [], ◌∷◌, ◌++◌, Bytes, is_empty, if◌then◌else◌,
}
use custom_consensus.Aion.Commitment.{Crypto, be64, commit_seed, challenge, evaluate}
use custom_consensus.Aion.Election.State.{
  MsgCommit, MsgReveal, MsgVrf, AionMsg, commit_sent, reveal_sent, vrf_sent, entropy_sent, Election,
  at_epoch,
}

-- `aion-seed`
abbrev pub seed_label : Bytes
seed_label = 97 ∷ 105 ∷ 111 ∷ 110 ∷ 45 ∷ 115 ∷ 101 ∷ 101 ∷ 100 ∷ []

unfoldable pub publish : Election → AionMsg → Election
publish s m = record s { published = m ∷ s.published }

module _ (c : Crypto) where
  -- `priv.Sign`, whose error is ignored.
  unfoldable pub signature_of : Option Bytes → Bytes
  signature_of none = []
  signature_of (some sig) = sig

  unfoldable pub seed_or : Option Bytes → ℕ → Bytes
  unfolding signature_of
  seed_or (some seed) e = seed
  seed_or none e = c.sha256 (signature_of (c.own_sign (seed_label ++ be64 e)))

  -- `seedForEpoch`: the seed, and the state that remembers it.
  unfoldable pub own_seed : Election → ℕ → Bytes
  own_seed s e = seed_or (s.seeds e) e

  unfoldable pub seed_for_epoch : Election → ℕ → Election
  seed_for_epoch s e = record s { seeds = at_epoch e (some (own_seed s e)) s.seeds }

  -- `challengeForEpoch`
  unfoldable pub challenge_for_epoch : ℕ → Bytes
  challenge_for_epoch e = challenge c [] e

  unfoldable pub own_commit : Election → ℕ → MsgCommit
  own_commit s e = record { pub_key = c.own_key; epoch = e; commit = commit_seed c (own_seed s e) }

  -- `publishCommit`
  unfoldable pub publish_commit : Election → ℕ → Election
  publish_commit s e =
      if is_empty c.own_key
      then s
      else publish
          (record (seed_for_epoch s e) {
            commits = at_epoch e (some (commit_seed c (own_seed s e))) s.commits;
          })
          (commit_sent (own_commit s e))

  unfoldable pub own_reveal : Election → ℕ → Bytes → MsgReveal
  own_reveal s e commit = record {
    pub_key = c.own_key;
    epoch = e;
    seed = own_seed s e;
    commit = commit;
  }

  unfoldable pub publish_reveal : Election → ℕ → Option Bytes → Election
  publish_reveal s e none = s
  publish_reveal s e (some commit) = publish s (reveal_sent (own_reveal s e commit))

  unfoldable pub own_input : Election → ℕ → Bytes
  own_input s e = own_seed s e ++ challenge_for_epoch e

  unfoldable pub own_output : Election → ℕ → Bytes × Bytes → MsgVrf
  own_output s e r = record {
    pub_key = c.own_key;
    epoch = e;
    input = own_input s e;
    y = r.0;
    proof = r.1;
  }

  unfoldable pub publish_output : Election → ℕ → Option (Bytes × Bytes) → Election
  publish_output s e none = s
  publish_output s e (some r) = publish s (vrf_sent (own_output s e r))

  -- The output for the next epoch, after one for this epoch.
  unfoldable pub publish_next : Election → ℕ → Option (Bytes × Bytes) → Election
  publish_next s e none = s
  publish_next s e (some r) =
      let t = seed_for_epoch (publish_output s e (some r)) ((e + 1) % 2 ^ 64) in
      publish_output t ((e + 1) % 2 ^ 64) (evaluate c (own_input t ((e + 1) % 2 ^ 64)))

  -- `publishRevealAndVRF`
  unfoldable pub publish_reveal_and_vrf : Election → ℕ → Election
  publish_reveal_and_vrf s e =
      let t = seed_for_epoch s e in
      if is_empty c.own_key
      then s
      else publish_next (publish_reveal t e (s.commits e)) e (evaluate c (own_input t e))

  -- `publishEntropy`
  unfoldable pub publish_entropy : Election → ℕ → ℕ → Election
  publish_entropy s e h_norm =
      if is_empty c.own_key
      then s
      else publish s (entropy_sent (record { pub_key = c.own_key; epoch = e; h_norm = h_norm }))
