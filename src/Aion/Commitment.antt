-- ===== src/Aion/Commitment.antt =====
-- internal/aion/commitment.go and vrf_ed25519.go: seeds, commitments, challenges, and the verifiable
-- function of a producer.
use custom_consensus.Base.{
  ℕ, ◌/◌, ◌%◌, ◌^◌, Bool, false, not, Option, none, some, [], ◌∷◌, ◌++◌, Bytes, Text, text_eq,
  if◌then◌else◌,
}

-- The library functions, for any key in the form of libp2p: `knows_key` says that the bytes decode to
-- a key, `key_verifies` checks a signature, `peer_id` is `IDFromPublicKey` as a text, or empty.
pub record Crypto : Type 0 where
  pub sha256 : Bytes → Bytes
  pub knows_key : Bytes → Bool
  pub key_verifies : Bytes → Bytes → Bytes → Bool
  pub peer_id : Bytes → Text
  pub own_key : Bytes
  pub own_sign : Bytes → Option Bytes

-- `binary.BigEndian.PutUint64`
unfoldable pub be64 : ℕ → Bytes
be64 n =
    n / 2 ^ 56 % 256
    ∷ n / 2 ^ 48 % 256
    ∷ n / 2 ^ 40 % 256
    ∷ n / 2 ^ 32 % 256
    ∷ n / 2 ^ 24 % 256
    ∷ n / 2 ^ 16 % 256
    ∷ n / 2 ^ 8 % 256
    ∷ n % 256
    ∷ []

module _ (c : Crypto) where
  -- `CommitSeed`
  unfoldable pub commit_seed : Bytes → Bytes
  commit_seed seed = c.sha256 seed

  -- `VerifyReveal`
  unfoldable pub verify_reveal : Bytes → Bytes → Bool
  verify_reveal commit seed = text_eq (c.sha256 seed) commit

  -- `Challenge`
  unfoldable pub challenge : Bytes → ℕ → Bytes
  challenge last_finalized_hash epoch = c.sha256 (last_finalized_hash ++ be64 epoch)

  -- `ed25519VRF.Evaluate`: the output and its proof.
  unfoldable pub evaluate : Bytes → Option (Bytes × Bytes)
  evaluate input = elim (c.own_sign input) [ none ↦ none | some sig ↦ some (c.sha256 sig, sig) ]

  -- `ed25519VRF.Verify` under a key.
  unfoldable pub vrf_verify : Bytes → Bytes → Bytes → Bytes → Bool
  vrf_verify key input y proof =
      if not (c.key_verifies key input proof) then false else text_eq (c.sha256 proof) y
