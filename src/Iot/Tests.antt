-- ===== src/Iot/Tests.antt =====
-- Witnesses for the device registry.
use custom_consensus.Base.{
  is_empty, get, put, ◌≡◌, ◌≤◌, refl, true, false, none, [], ◌∷◌, Text, arith,
}
use custom_consensus.Base.Int.{pos, negsuc}
use custom_consensus.Iot.{
  Device, Registry, Files, is_l3_attester, non_attesters, upsert_with_limit, new_registry, set_max,
  to_lower, trim_left, trim_right, has_prefix, limit_of, upsert, reached, put_device, save_locked,
  stored_device,
}
use custom_consensus.Iot.Limits.{Stored, upsert_with_limit-Within, upsert_with_limit-Stored}

abbrev lamp : Device
lamp = record {
  device_id = 108 ∷ 97 ∷ [];
  firmware = [];
  model = [];
  kid_hex = [];
  pub_hex = [];
  sensors = [];
  caps = [];
  first_seen = 0;
  last_seen = 0;
}

abbrev door : Device
door = record lamp { device_id = 100 ∷ [] }

-- ` DID:IOT:L3_ATTESTER_1`
abbrev attester_id : Text
attester_id =
    32 ∷ 68 ∷ 73 ∷ 68 ∷ 58 ∷ 105 ∷ 111 ∷ 116 ∷ 58 ∷ 108 ∷ 51 ∷ 95 ∷ 97 ∷ 116 ∷ 116 ∷ 101 ∷ 115 ∷ 116
    ∷ 101 ∷ 114 ∷ 95 ∷ 49 ∷ []

attester_id_test : is_l3_attester attester_id ≡ true
unfolding is_l3_attester to_lower trim_left trim_right is_empty has_prefix
attester_id_test = refl

abbrev disk : Files
disk = record { data_dir = 100 ∷ []; mkdir_fails = false; write_fails = true; left_behind = none }

abbrev one_lamp : Registry
one_lamp = (upsert_with_limit disk (set_max (new_registry [] none) (pos 1)) lamp (negsuc 0) 5).0

upsert_with_limit-Within_example :
    non_attesters (upsert_with_limit disk one_lamp door (negsuc 0) 6).0.by_id ≤ 1
unfolding upsert_with_limit non_attesters new_registry set_max limit_of upsert get is_l3_attester
    is_empty trim_right trim_left has_prefix to_lower reached put_device save_locked put
    stored_device
upsert_with_limit-Within_example =
    upsert_with_limit-Within disk one_lamp door (negsuc 0) 1 6 refl (omega arith) (omega arith)

upsert_with_limit-Stored_example :
    Stored disk one_lamp door 6 (upsert_with_limit disk one_lamp door (negsuc 0) 6)
upsert_with_limit-Stored_example = upsert_with_limit-Stored disk one_lamp door (negsuc 0) 6
