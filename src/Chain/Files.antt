-- ===== src/Chain/Files.antt =====
-- internal/blockchain/block.go: what `getChain` reads of the files of a chain, and the reading methods.
-- The JSON library finds a field of a struct by its name, in any case.
pub mod Restart
use custom_consensus.Base.{
  ℕ, ◌+◌, ◌*◌, Bool, true, false, Option, none, some, List, [], ◌∷◌, ◌++◌, length, take, map, Bytes,
  Text, is_empty, text_eq, hex_encode, hex_decode, Map, get, put, leb, if◌then◌else◌,
}
use custom_consensus.Base.Int.{ℤ, pos, negsuc, eqb_ℤ, ltb_ℤ}
use custom_consensus.Iot.{to_lower}
use custom_consensus.Chain.{Block, Chain, Disk, SavedIndex, TxRef}

pub data JsonValue : Type 0 where
  number : ℤ → JsonValue
  string : Text → JsonValue
  heights : Map ℤ → JsonValue

-- The names that `saveIndex` writes: `tip_height`, `tip_hash` and `known`.
abbrev pub saved_tip_height : Text
saved_tip_height = 116 ∷ 105 ∷ 112 ∷ 95 ∷ 104 ∷ 101 ∷ 105 ∷ 103 ∷ 104 ∷ 116 ∷ []

abbrev pub saved_tip_hash : Text
saved_tip_hash = 116 ∷ 105 ∷ 112 ∷ 95 ∷ 104 ∷ 97 ∷ 115 ∷ 104 ∷ []

abbrev pub saved_known : Text
saved_known = 107 ∷ 110 ∷ 111 ∷ 119 ∷ 110 ∷ []

-- The names that `loadIndex` reads: `TipHeight`, `TipHash` and `Known`.
abbrev pub read_tip_height : Text
read_tip_height = 84 ∷ 105 ∷ 112 ∷ 72 ∷ 101 ∷ 105 ∷ 103 ∷ 104 ∷ 116 ∷ []

abbrev pub read_tip_hash : Text
read_tip_hash = 84 ∷ 105 ∷ 112 ∷ 72 ∷ 97 ∷ 115 ∷ 104 ∷ []

abbrev pub read_known : Text
read_known = 75 ∷ 110 ∷ 111 ∷ 119 ∷ 110 ∷ []

-- The object that `saveIndex` writes, but for the chain's id.
unfoldable pub index_json : SavedIndex → Map JsonValue
index_json idx =
    (saved_tip_height, number idx.tip_height)
    ∷ (saved_tip_hash, string (hex_encode idx.tip_hash))
    ∷ (saved_known, heights idx.known)
    ∷ []

unfoldable pub json_field : Text → Map JsonValue → Option JsonValue
json_field name [] = none
json_field name ((k, v) ∷ m) =
    let rest = json_field name m in if text_eq (to_lower k) (to_lower name) then some v else rest

-- A field that is absent keeps its zero value; one of another type is an error.
unfoldable pub number_field : Option JsonValue → Option ℤ
number_field none = some (pos 0)
number_field (some (number n)) = some n
number_field (some _) = none

unfoldable pub string_field : Option JsonValue → Option Text
string_field none = some []
string_field (some (string t)) = some t
string_field (some _) = none

unfoldable pub heights_field : Option JsonValue → Option (Map ℤ)
heights_field none = some []
heights_field (some (heights m)) = some m
heights_field (some _) = none

-- The loop that copies a map; its keys are different.
unfoldable pub put_all : {V : Type 0} → Map V → Map V → Map V
put_all [] m = m
put_all ((k, v) ∷ kvs) m = put k v (put_all kvs m)

-- `hex.DecodeString` without its error: the bytes before the first character that is no digit.
unfoldable pub decoded_part : Text → Bytes
decoded_part [] = []
decoded_part (c ∷ []) = []
decoded_part (c ∷ (d ∷ r)) = elim (hex_decode (c ∷ d ∷ [])) [
  | none ↦ []
  | some bs ↦ bs ++ decoded_part r
]

-- The hash, if the text yields bytes.
unfoldable pub tip_of : Bytes → Text → Bytes
tip_of old t = let bs = decoded_part t in if is_empty bs then old else bs

unfoldable pub set_index : Chain → ℤ → Text → Map ℤ → Chain
set_index c height t known = record c {
  tip_height = height;
  tip_hash = tip_of c.tip_hash t;
  known = put_all known c.known;
}

-- `loadIndex`, of an object that was read.
unfoldable pub load_json : Chain → Map JsonValue → Chain
load_json c m = elim (number_field (json_field read_tip_height m)) [
  | none ↦ c
  | some height ↦ elim (string_field (json_field read_tip_hash m)) [
    | none ↦ c
    | some t ↦ elim (heights_field (json_field read_known m)) [
      | none ↦ c
      | some known ↦ set_index c height t known
    ]
  ]
]

-- `loadIndex`
unfoldable pub load_index : Chain → Option SavedIndex → Chain
load_index c none = c
load_index c (some idx) = load_json c (index_json idx)

-- `loadTxIndex`, whose names are those that `saveTxIndex` writes.
unfoldable pub load_tx_index : Chain → Option (Map TxRef) → Chain
load_tx_index c none = c
load_tx_index c (some m) = record c { tx_index = put_all m c.tx_index }

-- A chain without files.
unfoldable pub empty_chain : Bool → Disk → Chain
empty_chain has_data_dir disk = record {
  tip_height = pos 0;
  tip_hash = [];
  known = [];
  waiting = [];
  tx_index = [];
  has_data_dir = has_data_dir;
  disk = disk;
}

-- `getChain` for a chain that is not in memory.
unfoldable pub get_chain : Bool → Disk → Chain
get_chain has_data_dir disk =
    load_tx_index (load_index (empty_chain has_data_dir disk) disk.index) disk.tx_index

-- `CurrentTip` and `GetTip`
unfoldable pub current_tip : Chain → ℤ × Bytes
current_tip c = (c.tip_height, c.tip_hash)

unfoldable pub get_tip : Chain → ℤ × Text
get_tip c = (c.tip_height, hex_encode c.tip_hash)

-- `LoadBlockByHash`
unfoldable pub load_block_by_hash : Chain → Text → Option Block
load_block_by_hash c hash_hex = get (to_lower hash_hex) c.disk.blocks

-- `loadBlockTimestamp`
unfoldable pub load_block_timestamp : Chain → Text → Option ℕ
load_block_timestamp c hash_hex = elim (load_block_by_hash c hash_hex) [
  | none ↦ none
  | some b ↦ some b.timestamp
]

-- `GetHashByHeight`, which meets the entries in the order of the map.
unfoldable pub hash_at : ℤ → Map ℤ → Option Text
hash_at height [] = none
hash_at height ((k, h) ∷ m) = let rest = hash_at height m in if eqb_ℤ h height then some k else rest

unfoldable pub get_hash_by_height : Chain → ℤ → Option Text
get_hash_by_height c height = hash_at height c.known

-- `sort.Slice` by falling height.
unfoldable pub insert_recent : Text × ℤ → List (Text × ℤ) → List (Text × ℤ)
insert_recent e [] = e ∷ []
insert_recent e (d ∷ ds) =
    let rest = insert_recent e ds in if ltb_ℤ e.1 d.1 then d ∷ rest else e ∷ d ∷ ds

unfoldable pub sort_recent : Map ℤ → List (Text × ℤ)
sort_recent [] = []
sort_recent (e ∷ m) = insert_recent e (sort_recent m)

-- 20 if `n` is not positive.
unfoldable pub how_many : ℤ → ℕ
how_many (pos n) = if leb n 0 then 20 else n
how_many (negsuc n) = 20

-- `ListRecentHashes`
unfoldable pub list_recent_hashes : Chain → ℤ → List (Text × ℤ)
list_recent_hashes c n = take (how_many n) (sort_recent c.known)

-- `waitingKeys`
unfoldable pub waiting_keys : Chain → List Text
waiting_keys c = map (λ e. e.0) c.waiting
