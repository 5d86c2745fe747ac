-- ===== src/Mempool/Refine/OneId.antt =====
-- internal/mempool/mempool.go, `RemoveTxIDs`: one entry leaves, wherever it stands.
use custom_consensus.Base.{
  ◌+◌, ◌≡◌, ◌≢◌, refl, sym, ap, ◌∙◌, none, some, inl, inr, List, [], ◌∷◌, length, Text, get,
  text_eq, text_eq_iff, eq_of_text_eq, unwrap, arith, Bool-cases, All, if◌then◌else◌, get-del,
  length-del, del-Distinct,
}
use custom_consensus.Mempool.{Entry, Pool, drop_oldest, bytes_without}
use custom_consensus.Mempool.Queue.{ids, total, find, Unique, Represents}

-- The queue without the entry with this id.
unfoldable pub remove_id : Text → List Entry → List Entry
remove_id id [] = []
remove_id id (e ∷ q) = let rest = remove_id id q in if text_eq e.tx_id id then rest else e ∷ rest

find-remove_id :
    (id j : Text) (q : List Entry)
    → find j (remove_id id q) ≡ (if text_eq id j then none else find j q)
unfolding find remove_id
find-remove_id id j [] = ground arith
find-remove_id id j (e ∷ q) =
    ground (
      arith,
      text_eq_iff id j,
      text_eq_iff e.tx_id id,
      text_eq_iff e.tx_id j,
      find-remove_id id j q,
    )

remove_id-All : (P : Entry → Type 0) (id : Text) (q : List Entry) → All P q → All P (remove_id id q)
unfolding remove_id
remove_id-All P id [] a = tt
remove_id-All P id (e ∷ q) (h, a) = elim (Bool-cases (text_eq e.tx_id id)) [
  | inl same ↦ rw (same, remove_id) (remove_id-All P id q a)
  | inr other ↦ rw (other, remove_id) (h, remove_id-All P id q a)
]

remove_id-Unique : (id : Text) (q : List Entry) → Unique q → Unique (remove_id id q)
unfolding remove_id
remove_id-Unique id [] u = tt
remove_id-Unique id (e ∷ q) (a, u) = elim (Bool-cases (text_eq e.tx_id id)) [
  | inl same ↦ rw (same, remove_id) (remove_id-Unique id q u)
  | inr other ↦ rw (other, remove_id) (remove_id-All _ id q a, remove_id-Unique id q u)
]

pub remove_id-absent : (id : Text) (q : List Entry) → find id q ≡ none → remove_id id q ≡ q
unfolding find remove_id
remove_id-absent id [] e = refl
remove_id-absent id (f ∷ q) e = ground (arith, remove_id-absent id q)

remove_id-fresh :
    (e : Entry) (id : Text) (q : List Entry)
    → e.tx_id ≡ id
    → All (λ f. f.tx_id ≢ e.tx_id) q
    → remove_id id q ≡ q
unfolding remove_id
remove_id-fresh e id [] same a = refl
remove_id-fresh e id (f ∷ q) same (other, a) =
    ground (arith, text_eq_iff f.tx_id id, remove_id-fresh e id q same a)

-- One entry less, and its bytes.
pub remove_id-size :
    (id : Text) (e : Entry) (q : List Entry)
    → Unique q
    → find id q ≡ some e
    → (length (remove_id id q) + 1 ≡ length q) × (total (remove_id id q) + length e.bytes ≡ total q)
unfolding find remove_id total
remove_id-size id e [] u found = absurd (ground arith)
remove_id-size id e (f ∷ q) (a, u) found = elim (Bool-cases (text_eq f.tx_id id)) [
  | inl same ↦
      let gone = remove_id-fresh f id q (eq_of_text_eq f.tx_id id same) a in
      let this : f ≡ e = unwrap (rw (same, find) at found) in
      rw (same, gone, remove_id) (omega arith, omega (arith, ap (λ g. length g.bytes) this))
  | inr other ↦
      let rest = remove_id-size id e q u (rw (other, find) at found) in
      rw (other, remove_id) (omega (arith, rest.0), omega (arith, rest.1))
]

-- The pool holds the queue, whatever its order says.
abbrev pub Ordered : Pool → List Entry → Type 0
Ordered p q = Represents (record p { order = ids q }) q

pub drop-Ordered :
    (p : Pool) (id : Text) (e : Entry) (o : List Text) (q : List Entry)
    → Ordered p q
    → get id p.entries ≡ some e
    → Ordered (drop_oldest p id o) (remove_id id q)
unfolding drop_oldest bytes_without
drop-Ordered p id e o q r held =
    let size = remove_id-size id e q r.unique (sym (r.exact id) ∙ held) in
    record {
      in_order = refl;
      exact = λ j.
          get-del id j p.entries
          ∙ ap (λ f. if text_eq id j then none else f) (r.exact j)
          ∙ sym (find-remove_id id j q);
      unique = remove_id-Unique id q r.unique;
      keys = del-Distinct id p.entries r.keys;
      count = omega (arith, r.count, size.0, length-del id e p.entries r.keys held);
      counted = rw held (omega (arith, r.counted, size.1));
    }
