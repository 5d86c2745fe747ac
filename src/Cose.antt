-- ===== src/Cose.antt =====
-- internal/coseutil/cose.go: the replay window. A transaction's validation needs the CBOR and Ed25519
-- libraries and is a parameter of the modules that use it, with the result type `Tx`.
pub mod Values
pub mod Validation
pub mod Replay
pub mod Tests
use custom_consensus.Base.{
  ℕ, Bool, true, false, Option, none, some, [], ◌∷◌, ◌++◌, List, Bytes, Text, is_empty, hex_encode,
  Map, get, put, if◌then◌else◌,
}
use custom_consensus.Base.Int.{ℤ, pos, ltb_ℤ}

-- What `ValidateCOSETx` returns.
pub record Tx : Type 0 where
  pub tx_id : Text
  pub dev_id : Text
  pub kid : Bytes
  pub seq : ℤ

-- `seqKey`: the device, then a bar and the key id, if there is one.
unfoldable pub seq_key : Text → Bytes → Text
seq_key dev_id kid = if is_empty kid then dev_id else dev_id ++ (124 ∷ hex_encode kid)

-- `devSeq.m[key]`, zero for an absent key.
unfoldable pub last_seq : Map ℤ → Text → ℤ
last_seq seqs key = elim (get key seqs) [ none ↦ pos 0 | some last ↦ last ]

-- `UpdateLastSeq`
unfoldable pub update_last_seq : Map ℤ → Text → Bytes → ℤ → Map ℤ × Bool
update_last_seq seqs dev_id kid seq =
    let key = seq_key dev_id kid in
    if ltb_ℤ (last_seq seqs key) seq then (put key seq seqs, true) else (seqs, false)

-- The calls one after the other.
unfoldable pub update_all : Map ℤ → List (Text × Bytes × ℤ) → Map ℤ
update_all seqs [] = seqs
update_all seqs ((dev_id, kid, seq) ∷ calls) =
    update_all (update_last_seq seqs dev_id kid seq).0 calls
