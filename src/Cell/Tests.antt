-- ===== src/Cell/Tests.antt =====
-- Witnesses for cells.
use custom_consensus.Base.{ℕ, ◌≡◌, refl, some, List, [], ◌∷◌, Option}
use custom_consensus.Base.Int.{pos}
use custom_consensus.Iot.{Device}
use custom_consensus.Cell.{Cell, Manager, new_manager, try_form, pick_size}
use custom_consensus.Cell.Forming.{Answered, try_form-Answered}

-- A device that was first seen at a time.
abbrev seen_at : ℕ → Device
seen_at t = record {
  device_id = t ∷ [];
  firmware = [];
  model = [];
  kid_hex = [];
  pub_hex = [];
  sensors = [];
  caps = [];
  first_seen = t;
  last_seen = t;
}

abbrev manager : Manager
manager = new_manager (1 ∷ []) (2 ∷ []) (pos 2) (pos 3)

abbrev devices : List Device
devices = seen_at 9 ∷ seen_at 4 ∷ seen_at 7 ∷ []

try_form-Answered_example :
    (r : Manager × Option Cell) × (try_form manager devices (3 ∷ []) 10 ≡ some r)
    × Answered manager devices (3 ∷ []) 10 r
unfolding new_manager
try_form-Answered_example = try_form-Answered manager devices (3 ∷ []) 10 2 refl

-- Of as many devices as the limit of 3, or more, only the threshold of 2 are picked; of fewer, all.
three_of_limit_three : pick_size (pos 2) (pos 3) 3 ≡ pos 2
unfolding pick_size
three_of_limit_three = refl

three_of_limit_four : pick_size (pos 2) (pos 4) 3 ≡ pos 3
unfolding pick_size
three_of_limit_four = refl
