-- ===== src/Cell.antt =====
-- internal/cell/cell.go: a node groups the first devices of its registry in a cell. A time is a number.
pub mod Forming
mod Tests
use custom_consensus.Base.{
  ℕ, Bool, true, false, ◌&&◌, Option, none, some, List, [], ◌∷◌, ◌++◌, length, take, Text, leb,
  if◌then◌else◌, sort_on,
}
use custom_consensus.Base.Int.{ℤ, pos, negsuc, ltb_ℤ, leb_ℤ}
use custom_consensus.Iot.{Device}

pub record Cell : Type 0 where
  pub id : Text
  pub node_id : Text
  pub chain_id : Text
  pub devices : List Device
  pub formed_at : ℕ
  pub threshold : ℤ
  pub max_devices : ℤ
  pub active : Bool

pub record Manager : Type 0 where
  pub chain_id : Text
  pub node_id : Text
  pub threshold : ℤ
  pub max_devices : ℤ
  pub cell : Option Cell

-- `NewManager`
unfoldable pub new_manager : Text → Text → ℤ → ℤ → Manager
new_manager chain_id node_id threshold max_devices = record {
  chain_id = chain_id;
  node_id = node_id;
  threshold = threshold;
  max_devices = max_devices;
  cell = none;
}

-- `SetMaxDevices`
unfoldable pub set_max_devices : Manager → ℤ → Manager
set_max_devices m v = record m { max_devices = v }

-- `CanAccept`
unfoldable pub can_accept : Manager → ℕ → Bool
can_accept m count = if leb_ℤ m.max_devices (pos 0) then true else ltb_ℤ (pos count) m.max_devices

unfoldable pub or_empty : Manager → Option Cell → Cell
or_empty m none = record {
  id = [];
  node_id = m.node_id;
  chain_id = m.chain_id;
  devices = [];
  formed_at = 0;
  threshold = m.threshold;
  max_devices = m.max_devices;
  active = false;
}
or_empty m (some c) = c

-- `Status`
unfoldable pub status_of : Manager → Cell
unfolding or_empty
status_of m = or_empty m m.cell

unfoldable pub is_formed : Option Cell → Bool
is_formed none = false
is_formed (some c) = c.active

-- How many of `count` devices are picked.
unfoldable pub pick_size : ℤ → ℤ → ℕ → ℤ
pick_size threshold max count =
    let n = if ltb_ℤ (pos 0) max && ltb_ℤ max threshold then max else threshold in
    if ltb_ℤ (pos 0) max && (ltb_ℤ (pos count) max && leb_ℤ threshold (pos count))
    then pos count
    else n

-- `devs[:n]`, which panics out of range.
unfoldable pub slice_to : List Device → ℤ → Option (List Device)
slice_to ds (negsuc n) = none
slice_to ds (pos n) = if leb n (length ds) then some (take n ds) else none

-- `stamp` is the time in the form that the name of the cell ends with, after `-cell-`.
unfoldable pub new_cell : Manager → List Device → Text → ℕ → Cell
new_cell m pick stamp now = record {
  id = m.node_id ++ (45 ∷ 99 ∷ 101 ∷ 108 ∷ 108 ∷ 45 ∷ stamp);
  node_id = m.node_id;
  chain_id = m.chain_id;
  devices = pick;
  formed_at = now;
  threshold = m.threshold;
  max_devices = m.max_devices;
  active = true;
}

unfoldable pub form : Manager → Text → ℕ → Option (List Device) → Option (Manager × Option Cell)
form m stamp now none = none
form m stamp now (some pick) =
    let c = new_cell m pick stamp now in some (record m { cell = some c }, some c)

-- `TryForm`, with the devices that the registry lists; `none` is the panic of the slice.
unfoldable pub try_form : Manager → List Device → Text → ℕ → Option (Manager × Option Cell)
try_form m devs stamp now =
    if is_formed m.cell
    then some (m, none)
    else if ltb_ℤ (pos (length devs)) m.threshold
    then some (m, none)
    else form m stamp now (
        slice_to (sort_on (λ d. d.first_seen) devs)
          (pick_size m.threshold m.max_devices (length devs)))
