-- ===== src/Iot.antt =====
-- internal/iot/registry.go: the registry of IoT devices. A time is a number, 0 the zero time.
pub mod Limits
mod Tests
use custom_consensus.Base.{
  ℕ, suc, ◌+◌, Bool, true, false, not, ◌&&◌, Option, none, some, List, [], ◌∷◌, ◌++◌, map, length,
  Text, is_empty, Map, get, put, del, ltb, leb, ◌==◌, if◌then◌else◌,
}
use custom_consensus.Base.Int.{ℤ, pos, negsuc}

-- `strings.ToLower` and `strings.TrimSpace`, for texts of ASCII characters.
unfoldable pub to_lower : Text → Text
to_lower [] = []
to_lower (c ∷ cs) = (if leb 65 c && leb c 90 then c + 32 else c) ∷ to_lower cs

is_space : ℕ → Bool
is_space c = if c == 32 then true else leb 9 c && leb c 13

unfoldable pub trim_left : Text → Text
unfolding is_space
trim_left [] = []
trim_left (c ∷ cs) = let rest = trim_left cs in if is_space c then rest else c ∷ cs

unfoldable pub trim_right : Text → Text
unfolding is_space
trim_right [] = []
trim_right (c ∷ cs) =
    let rest = trim_right cs in if is_empty rest && is_space c then [] else c ∷ rest

-- `strings.HasPrefix`
unfoldable pub has_prefix : Text → Text → Bool
has_prefix cs [] = true
has_prefix [] (p ∷ ps) = false
has_prefix (c ∷ cs) (p ∷ ps) = (c == p) && has_prefix cs ps

-- `did:iot:l3_attester_`
abbrev pub l3_attester_prefix : Text
l3_attester_prefix =
    100 ∷ 105 ∷ 100 ∷ 58 ∷ 105 ∷ 111 ∷ 116 ∷ 58 ∷ 108 ∷ 51 ∷ 95 ∷ 97 ∷ 116 ∷ 116 ∷ 101 ∷ 115 ∷ 116
    ∷ 101 ∷ 114 ∷ 95 ∷ []

unfoldable pub is_l3_attester : Text → Bool
is_l3_attester id =
    let trim = trim_right (trim_left id) in
    if is_empty trim then false else has_prefix (to_lower trim) l3_attester_prefix

pub record Device : Type 0 where
  pub device_id : Text
  pub firmware : Text
  pub model : Text
  pub kid_hex : Text
  pub pub_hex : Text
  pub sensors : List Text
  pub caps : List Text
  pub first_seen : ℕ
  pub last_seen : ℕ

-- `stored` is what `load` reads of devices.json.
pub record Registry : Type 0 where
  pub chain_id : Text
  pub by_id : Map Device
  pub limit : ℤ
  pub stored : Option (Map Device)

pub data RegistryError : Type 0 where
  registry_full : RegistryError
  save_failed : RegistryError

-- The data directory, and whether the file system refuses a directory or a file. `os.WriteFile` empties
-- the file before it writes, so that a failed write may leave the old file, a part of the new one or
-- nothing: `left_behind` is what `load` reads of it afterwards.
pub record Files : Type 0 where
  pub data_dir : Text
  pub mkdir_fails : Bool
  pub write_fails : Bool
  pub left_behind : Option (Map Device)

-- `NewRegistry`, with what `load` reads: `none` when there is no file or it does not decode.
unfoldable pub new_registry : Text → Option (Map Device) → Registry
new_registry chain_id none = record {
  chain_id = chain_id;
  by_id = [];
  limit = pos 0;
  stored = none;
}
new_registry chain_id (some m) = record {
  chain_id = chain_id;
  by_id = m;
  limit = pos 0;
  stored = some m;
}

-- `SetMax`
pub set_max : Registry → ℤ → Registry
set_max r max = record r { limit = max }

unfoldable pub save_locked : Files → Registry → Registry × Option RegistryError
save_locked fs r =
    if is_empty fs.data_dir
    then (r, none)
    else if fs.mkdir_fails
    then (r, some save_failed)
    else if fs.write_fails
    then (record r { stored = fs.left_behind }, some save_failed)
    else (record r { stored = some r.by_id }, none)

-- `List`, whose order is the order of a map iteration.
unfoldable pub list : Registry → List Device
list r = map (λ e. e.1) r.by_id

-- `Count`
unfoldable pub count : Registry → ℕ
count r = length r.by_id

unfoldable pub count_attesters_of : List Device → ℕ
count_attesters_of [] = 0
count_attesters_of (d ∷ ds) =
    let rest = count_attesters_of ds in if is_l3_attester d.device_id then suc rest else rest

-- `CountAttesters`
unfoldable pub count_attesters : Registry → ℕ
count_attesters r = count_attesters_of (list r)

unfoldable pub non_attesters : Map Device → ℕ
non_attesters [] = 0
non_attesters ((id, d) ∷ m) =
    let rest = non_attesters m in if not (is_l3_attester id) then suc rest else rest

-- `NonAttesterCount`
unfoldable pub non_attester_count : Registry → ℕ
non_attester_count r = non_attesters r.by_id

-- `Get`
unfoldable pub get_device : Registry → Text → Option Device
get_device r id = get id r.by_id

-- `Remove`, which ignores the error of saving.
unfoldable pub remove : Files → Registry → Text → Registry
remove fs r id = (save_locked fs (record r { by_id = del id r.by_id })).0

-- `max < 0` stands for the registry's own limit; a limit that is not positive is none.
unfoldable pub limit_of : Registry → ℤ → ℤ
limit_of r (pos n) = pos n
limit_of r (negsuc n) = r.limit

-- `max > 0 && count >= max`
unfoldable pub reached : ℤ → ℕ → Bool
reached (pos n) count = ltb 0 n && leb n count
reached (negsuc n) count = false

unfoldable pub or_time : ℕ → ℕ → ℕ
or_time t default = if t == 0 then default else t

unfoldable pub stored_device : Device → ℕ → ℕ → Device
unfolding or_time
stored_device d first now = record d {
  first_seen = or_time d.first_seen first;
  last_seen = or_time d.last_seen now;
}

unfoldable pub put_device : Files → Registry → Device → Registry × Option RegistryError
put_device fs r d = save_locked fs (record r { by_id = put d.device_id d r.by_id })

-- A known device is always updated, a new one only below the limit.
unfoldable pub upsert :
    Files → Registry → Device → ℤ → ℕ → Option Device → Registry × Option RegistryError
upsert fs r d max now (some prev) = put_device fs r (stored_device d prev.first_seen now)
upsert fs r d max now none =
    if not (is_l3_attester d.device_id) && reached max (non_attesters r.by_id)
    then (r, some registry_full)
    else put_device fs r (stored_device d now now)

unfoldable pub upsert_with_limit :
    Files → Registry → Device → ℤ → ℕ → Registry × Option RegistryError
upsert_with_limit fs r d max now = upsert fs r d (limit_of r max) now (get d.device_id r.by_id)
