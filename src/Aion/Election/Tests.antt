-- ===== src/Aion/Election/Tests.antt =====
-- Witnesses for the election.
use custom_consensus.Base.{
  ℕ, zero, suc, leb, if◌then◌else◌, ◌/◌, ◌<◌, ◌≡◌, ◌↔◌, refl, true, false, none, some, List, [],
  ◌∷◌, length, Bytes, Text, IsBytes, get, hex_encode, arith, is_empty,
}
use custom_consensus.Base.Int.{pos}
use custom_consensus.Aion.Scheduler.{Params}
use custom_consensus.Aion.ChainEntropy.{ChainView, epoch_entropy_q16, epoch_entropy_q16_local}
use custom_consensus.Aion.Commitment.{Crypto}
use custom_consensus.Aion.Election.State.{at_epoch, Election, start_election}
use custom_consensus.Aion.Election.{on_commit, on_reveal, commit_valid}
use custom_consensus.Aion.Election.Messages.{
  Received, reveal, output, Kept, handle_all, handle_all-Sound,
}
use custom_consensus.Aion.Election.Recommit.{on_reveal_again}
use custom_consensus.Cell.{Cell}
use custom_consensus.Aion.Leader.{LeaderService, Surroundings, start_leader_service, eval_all}
use custom_consensus.Aion.Leader.Elected.{eval_all_elects}
use custom_consensus.Aion.Election.Slots.{allow_at, slots_per_leader, allow_at_panics}

abbrev thirty_two : Bytes
thirty_two =
    1 ∷ 2 ∷ 3 ∷ 4 ∷ 5 ∷ 6 ∷ 7 ∷ 8 ∷ 9 ∷ 10 ∷ 11 ∷ 12 ∷ 13 ∷ 14 ∷ 15 ∷ 16 ∷ 17 ∷ 18 ∷ 19 ∷ 20 ∷ 21
    ∷ 22 ∷ 23 ∷ 24 ∷ 25 ∷ 26 ∷ 27 ∷ 28 ∷ 29 ∷ 30 ∷ 31 ∷ 32 ∷ []

abbrev crypto : Crypto
crypto = record {
  sha256 = λ bs. thirty_two;
  knows_key = λ key. true;
  key_verifies = λ key input sig. true;
  peer_id = λ key. key;
  own_key = 9 ∷ [];
  own_sign = λ bs. some (1 ∷ []);
}

-- A chain of one block.
abbrev chain : ChainView
chain = record {
  txs_at = λ h. some ((h ∷ 7 ∷ []) ∷ []);
  data_of = λ tx. some tx;
  device_data_of = λ tx. none;
}

abbrev params : Params
params = record {
  slot_duration = pos 500_000_000;
  epoch_length = 4;
  leadership_window = 5;
  alpha_q16 = 0x8000;
  genesis = 0;
}

abbrev messages : List (ChainView × Received)
messages =
    (
      chain,
      reveal (some (record { pub_key = 5 ∷ []; epoch = 0; seed = 3 ∷ []; commit = thirty_two })),
    )
    ∷ (
      chain,
      output (
          some (record {
            pub_key = 5 ∷ [];
            epoch = 0;
            input = 3 ∷ 4 ∷ [];
            y = thirty_two;
            proof = 1 ∷ [];
          })),
    )
    ∷ []

bytes : IsBytes thirty_two
bytes = ground arith

handle_all-Sound_example : Kept crypto (handle_all crypto (start_election params) messages)
handle_all-Sound_example = handle_all-Sound crypto params messages (tt, (bytes, tt))

-- The candidate has committed to the seed 8 and revealed it.
abbrev bound : Election
bound = record (start_election params) {
  cmt = at_epoch 0 ((hex_encode (5 ∷ []), thirty_two) ∷ []) (start_election params).cmt;
  rev = at_epoch 0 ((hex_encode (5 ∷ []), 8 ∷ []) ∷ []) (start_election params).rev;
}

on_reveal_again_example :
    (t : Election) × (on_reveal crypto chain
        (on_commit bound (some (record { pub_key = 5 ∷ []; epoch = 0; commit = thirty_two })))
        (some (record { pub_key = 5 ∷ []; epoch = 0; seed = 3 ∷ []; commit = thirty_two }))
      ≡ some t)
    × (get (hex_encode (5 ∷ [])) (t.cmt 0) ≡ some thirty_two)
    × (get (hex_encode (5 ∷ [])) (t.rev 0) ≡ some (3 ∷ []))
unfolding on_commit start_election get is_empty commit_valid
on_reveal_again_example = on_reveal_again crypto chain (5 ∷ []) 0 (3 ∷ []) refl refl refl bound refl

-- Two leaders in the epoch before, and none known for this one.
abbrev two_leaders : ℕ → List Text
two_leaders zero = (49 ∷ []) ∷ (50 ∷ []) ∷ []
two_leaders (suc e) = []

abbrev boundary : Election
boundary = record (start_election params) { schedule = two_leaders }

allow_at_panics_example : (allow_at boundary (9 ∷ []) 1 0 false ≡ none) ↔ (
    (length (boundary.schedule 1) ≡ 0)
    × (0 < 3)
    × (0 < 1)
    × (length (boundary.schedule 0) ≡ 2)
    × (0 / slots_per_leader boundary.params.slot_duration ≡ 0))
allow_at_panics_example = allow_at_panics boundary (9 ∷ []) 1 0 false

-- The same blocks up to height 4.
abbrev fork : ChainView
fork = record chain { txs_at = λ h. if leb h 4 then some ((h ∷ 7 ∷ []) ∷ []) else none }

epoch_entropy_q16_local_example : epoch_entropy_q16 chain 0 4 ≡ epoch_entropy_q16 fork 0 4
epoch_entropy_q16_local_example =
    epoch_entropy_q16_local chain fork 0 4 (λ tx. refl) (λ k low high. ground arith) (omega arith)
      (omega arith)

abbrev cell_of_one : Cell
cell_of_one = record {
  id = [];
  node_id = [];
  chain_id = [];
  devices = [];
  formed_at = 0;
  threshold = pos 1;
  max_devices = pos 1;
  active = true;
}

-- A tick at a height, with an active cell.
abbrev tick_at : ℕ → Surroundings
tick_at h = record { cell = cell_of_one; entries = []; height = pos h; tip = 1 ∷ [] }

eval_all_elects_example :
    (t : LeaderService) × (eval_all
        (λ bs. some bs)
        crypto
        (start_leader_service params 1000)
        (tick_at 3 ∷ tick_at 90 ∷ [])
      ≡ some t)
    × (t.may_produce ≡ true)
    × (t.leader_active ≡ t.may_produce)
    × (t.last_rank16 ≡ 0)
eval_all_elects_example =
    eval_all_elects (λ bs. some bs) crypto (λ bs. (refl, bytes)) params 1000
      (tick_at 3 ∷ tick_at 90 ∷ []) (ground arith)
