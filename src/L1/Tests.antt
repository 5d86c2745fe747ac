-- ===== src/L1/Tests.antt =====
-- Witnesses for notarization.
use custom_consensus.Base.{true, some, [], ◌∷◌}
use custom_consensus.Base.Int.{pos}
use custom_consensus.L1.State.{L1Outside, start_l1}
use custom_consensus.L1.Handlers.{on_attest}
use custom_consensus.L1.Notarize.{Answered, start_l1-Valid, on_attest-Answered}

-- A message is the attester's key.
abbrev outside : L1Outside
outside = record {
  sha256 = λ bs. 1 ∷ 2 ∷ 3 ∷ 4 ∷ 5 ∷ [];
  decode_attest = λ raw. some (record {
    epoch = 0;
    height = pos 4;
    hash = 7 ∷ [];
    producer = [];
    attester = raw;
    sample = [];
    sig = [];
  });
  encode_attest = λ a. a.attester;
  decode_block =
      λ raw. some (record { height = pos 4; hash = 7 ∷ []; producer_pub = []; txs = raw ∷ [] });
  own_key = 9 ∷ [];
  own_sign = λ bs. bs;
  publishes = λ bs. true;
}

on_attest-Answered_example :
    Answered outside (start_l1 (pos 1)) (3 ∷ []) (on_attest outside (start_l1 (pos 1)) (3 ∷ []) 5)
on_attest-Answered_example =
    on_attest-Answered outside (start_l1 (pos 1)) (3 ∷ []) 5 (start_l1-Valid (pos 1))
