-- ===== src/Gossip.antt =====
-- internal/gossip/directory.go: the directory of the nodes that were heard of. A time is a number.
pub mod Offline
use custom_consensus.Base.{
  ℕ, ◌+◌, Bool, not, ◌&&◌, ◌||◌, Option, none, some, List, [], ◌∷◌, map, Text, text_eq, text_lt,
  Map, put, is_empty, ltb, if◌then◌else◌,
}
use custom_consensus.Base.Int.{ℤ, pos, negsuc}

pub record NodeInfo : Type 0 where
  pub node_id : Text
  pub status : Text
  pub last_seen : ℕ

pub record NodeDirectory : Type 0 where
  pub ttl : ℤ
  pub nodes : Map NodeInfo

pub record NodeStatusMsg : Type 0 where
  pub node_id : Text
  pub status : Text

-- `offline` and `online`
abbrev pub offline : Text
offline = 111 ∷ 102 ∷ 102 ∷ 108 ∷ 105 ∷ 110 ∷ 101 ∷ []

abbrev pub online : Text
online = 111 ∷ 110 ∷ 108 ∷ 105 ∷ 110 ∷ 101 ∷ []

-- `NewNodeDirectory`
unfoldable pub new_node_directory : ℤ → NodeDirectory
new_node_directory ttl = record { ttl = ttl; nodes = [] }

-- `Mark`
unfoldable pub mark : NodeDirectory → Text → Text → ℕ → NodeDirectory
mark d node_id status now = record d {
  nodes = put node_id (record { node_id = node_id; status = status; last_seen = now }) d.nodes;
}

unfoldable pub swept_info : ℕ → ℕ → NodeInfo → NodeInfo
swept_info ttl now info =
    if ltb (info.last_seen + ttl) now && not (text_eq info.status offline)
    then record info { status = offline; last_seen = now }
    else info

-- The loop of `Sweep`.
unfoldable pub sweep_nodes : ℕ → ℕ → Map NodeInfo → Map NodeInfo
sweep_nodes ttl now [] = []
sweep_nodes ttl now ((k, info) ∷ m) = (k, swept_info ttl now info) ∷ sweep_nodes ttl now m

unfoldable pub sweep_for : NodeDirectory → ℤ → ℕ → NodeDirectory
sweep_for d (negsuc n) now = d
sweep_for d (pos ttl) now =
    if ltb 0 ttl then record d { nodes = sweep_nodes ttl now d.nodes } else d

-- `Sweep`
unfoldable pub sweep_directory : NodeDirectory → ℕ → NodeDirectory
sweep_directory d now = sweep_for d d.ttl now

-- The order of `List`.
unfoldable pub info_before : NodeInfo → NodeInfo → Bool
info_before a b =
    if text_eq a.status b.status then text_lt a.node_id b.node_id else text_lt a.status b.status

unfoldable pub insert_info : NodeInfo → List NodeInfo → List NodeInfo
insert_info a [] = a ∷ []
insert_info a (b ∷ bs) =
    let rest = insert_info a bs in if info_before b a then b ∷ rest else a ∷ b ∷ bs

unfoldable pub sort_infos : List NodeInfo → List NodeInfo
sort_infos [] = []
sort_infos (a ∷ xs) = insert_info a (sort_infos xs)

-- `List`
unfoldable pub list_nodes : NodeDirectory → List NodeInfo
list_nodes d = sort_infos (map (λ e. e.1) d.nodes)

-- The goroutine of `StartNodeDirectory` for a message; `none` is one that does not decode.
unfoldable pub receive_status : NodeDirectory → Option NodeStatusMsg → ℕ → NodeDirectory
receive_status d none now = d
receive_status d (some m) now =
    if is_empty m.node_id || is_empty m.status then d else mark d m.node_id m.status now

-- `StartNodeDirectory`, before its goroutines run.
unfoldable pub start_node_directory : Text → ℤ → ℕ → NodeDirectory
start_node_directory own ttl now = mark (new_node_directory ttl) own online now
