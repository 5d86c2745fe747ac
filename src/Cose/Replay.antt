-- ===== src/Cose/Replay.antt =====
-- internal/coseutil/cose.go, `UpdateLastSeq`: a sequence number is accepted once.
use custom_consensus.Base.{
  ◌≡◌, true, false, inl, inr, List, [], ◌∷◌, Bytes, Text, Map, put, get-put, get-put_self,
  text_eq_iff, Bool-cases, arith,
}
use custom_consensus.Base.Int.{ℤ, ltb_ℤ, ◌≤ℤ◌}
use custom_consensus.Cose.{seq_key, last_seq, update_last_seq, update_all}

last_seq-put :
    (seqs : Map ℤ) (key j : Text) (n : ℤ)
    → last_seq seqs key ≤ℤ n
    → last_seq seqs j ≤ℤ last_seq (put key n seqs) j
unfolding last_seq
last_seq-put seqs key j n h = ground (arith, get-put key j n seqs, text_eq_iff key j)

last_seq-update :
    (seqs : Map ℤ) (dev_id : Text) (kid : Bytes) (n : ℤ) (j : Text)
    → last_seq seqs j ≤ℤ last_seq (update_last_seq seqs dev_id kid n).0 j
unfolding update_last_seq
last_seq-update seqs dev_id kid n j =
    elim (Bool-cases (ltb_ℤ (last_seq seqs (seq_key dev_id kid)) n)) [
      | inl newer ↦
          rw (newer, update_last_seq) (last_seq-put seqs (seq_key dev_id kid) j n (ground arith))
      | inr older ↦ rw (older, update_last_seq) (omega arith)
    ]

last_seq-update_all :
    (calls : List (Text × Bytes × ℤ)) (seqs : Map ℤ) (j : Text)
    → last_seq seqs j ≤ℤ last_seq (update_all seqs calls) j
unfolding update_all
last_seq-update_all [] seqs j = omega arith
last_seq-update_all ((dev_id, kid, n) ∷ calls) seqs j = omega (
  arith,
  last_seq-update seqs dev_id kid n j,
  last_seq-update_all calls (update_last_seq seqs dev_id kid n).0 j,
)

accepted_last :
    (seqs : Map ℤ) (dev_id : Text) (kid : Bytes) (n : ℤ)
    → (update_last_seq seqs dev_id kid n).1 ≡ true
    → last_seq (update_last_seq seqs dev_id kid n).0 (seq_key dev_id kid) ≡ n
unfolding update_last_seq last_seq
accepted_last seqs dev_id kid n e = ground (arith, get-put_self (seq_key dev_id kid) n seqs)

refused_old :
    (seqs : Map ℤ) (dev_id : Text) (kid : Bytes) (n : ℤ)
    → n ≤ℤ last_seq seqs (seq_key dev_id kid)
    → update_last_seq seqs dev_id kid n ≡ (seqs, false)
unfolding update_last_seq
refused_old seqs dev_id kid n h = ground arith

-- After a sequence number is accepted for a device and a key, that number and every smaller one are
-- refused for them, whatever calls come in between, and a refused call changes nothing.
pub update_last_seq_once :
    (seqs : Map ℤ) (dev_id : Text) (kid : Bytes) (n m : ℤ) (calls : List (Text × Bytes × ℤ))
    → (update_last_seq seqs dev_id kid n).1 ≡ true
    → m ≤ℤ n
    → let later = update_all (update_last_seq seqs dev_id kid n).0 calls in
      update_last_seq later dev_id kid m ≡ (later, false)
update_last_seq_once seqs dev_id kid n m calls e h =
    let key = seq_key dev_id kid in
    let now = (update_last_seq seqs dev_id kid n).0 in
    let low : n ≤ℤ last_seq (update_all now calls) key =
      rw (accepted_last seqs dev_id kid n e) at (last_seq-update_all calls now key) in
    refused_old (update_all now calls) dev_id kid m (omega (arith, h, low))
