-- ===== src/Mempool/Queue.antt =====
-- internal/mempool/mempool.go: what the pool is for its clients, a queue of entries, and how the map,
-- the order and the byte count of `Pool` represent it.
use custom_consensus.Base.{
  ℕ, ◌+◌, ◌≡◌, ◌≢◌, refl, sym, ap, ◌∙◌, Option, none, some, inl, inr, List, [], ◌∷◌, ◌++◌, map,
  length, Text, get, text_eq, text_eq_iff, text_eq_refl, eq_of_text_eq, get-put, get-del,
  length-del, length-put_new, put-Distinct, del-Distinct, Distinct, All, arith, Bool-cases,
  if◌then◌else◌, length-append,
}
use custom_consensus.Mempool.{Entry, Pool, drop_oldest, store_entry, bytes_without}

abbrev pub ids : List Entry → List Text
ids = map (λ e. e.tx_id)

unfoldable pub total : List Entry → ℕ
total [] = 0
total (e ∷ q) = length e.bytes + total q

unfoldable pub find : Text → List Entry → Option Entry
find id [] = none
find id (e ∷ q) = if text_eq e.tx_id id then some e else find id q

-- No two entries have the same id.
abbrev pub Unique : List Entry → Type 0
Unique [] = Unit {0}
Unique (e ∷ q) = All (λ f. f.tx_id ≢ e.tx_id) q × Unique q

-- The pool holds the queue, oldest entry first.
pub record Represents (p : Pool) (q : List Entry) : Type 0 where
  pub in_order : p.order ≡ ids q
  pub exact : (id : Text) → get id p.entries ≡ find id q
  pub unique : Unique q
  pub keys : Distinct p.entries
  pub count : length p.entries ≡ length q
  pub counted : p.cur_bytes ≡ total q

pub find_self : (e : Entry) (q : List Entry) → find e.tx_id (e ∷ q) ≡ some e
unfolding find
find_self e q = rw (text_eq_refl e.tx_id)

find_fresh :
    (e : Entry) (id : Text) (q : List Entry)
    → e.tx_id ≡ id
    → All (λ f. f.tx_id ≢ e.tx_id) q
    → find id q ≡ none
unfolding find
find_fresh e id [] same a = refl
find_fresh e id (f ∷ q) same (other, a) =
    ground (arith, text_eq_iff f.tx_id id, find_fresh e id q same a)

pub head_found :
    (p : Pool) (e : Entry) (q : List Entry) → Represents p (e ∷ q) → get e.tx_id p.entries ≡ some e
head_found p e q r = r.exact e.tx_id ∙ find_self e q

-- The oldest entry goes: the queue loses its head.
pub drop_oldest-Represents :
    (p : Pool) (e : Entry) (q : List Entry)
    → Represents p (e ∷ q)
    → Represents (drop_oldest p e.tx_id (ids q)) q
unfolding drop_oldest bytes_without total find
drop_oldest-Represents p e q r = record {
  in_order = refl;
  exact = λ id. get-del e.tx_id id p.entries ∙ without id;
  unique = r.unique.1;
  keys = del-Distinct e.tx_id p.entries r.keys;
  count = omega (arith, r.count, length-del e.tx_id e p.entries r.keys (head_found p e q r));
  counted = rw (head_found p e q r) (omega (arith, r.counted));
}
  where
    without : (id : Text) → (if text_eq e.tx_id id then none else get id p.entries) ≡ find id q
    without id = elim (Bool-cases (text_eq e.tx_id id)) [
      | inl same ↦ rw same (sym (find_fresh e id q (eq_of_text_eq e.tx_id id same) r.unique.0))
      | inr other ↦ rw other (r.exact id ∙ rw other)
    ]

pub find-none : (id : Text) (q : List Entry) → find id q ≡ none → All (λ e. e.tx_id ≢ id) q
unfolding find
find-none id [] e = tt
find-none id (f ∷ q) e = elim (Bool-cases (text_eq f.tx_id id)) [
  | inl same ↦ absurd (ground arith)
  | inr other ↦
      (λ k. ground (arith, text_eq_iff f.tx_id id), find-none id q (rw (other, find) at e))
]

Unique-append :
    (q : List Entry) (e : Entry)
    → All (λ f. f.tx_id ≢ e.tx_id) q
    → Unique q
    → Unique (q ++ (e ∷ []))
Unique-append [] e a u = (tt, tt)
Unique-append (f ∷ q) e (other, a) (b, u) = (fresh q b, Unique-append q e a u)
  where
    fresh :
        (q : List Entry)
        → All (λ g. g.tx_id ≢ f.tx_id) q
        → All (λ g. g.tx_id ≢ f.tx_id) (q ++ (e ∷ []))
    fresh [] b = (λ k. other (sym k), tt)
    fresh (g ∷ q) (h, b) = (h, fresh q b)

find-append :
    (q : List Entry) (e : Entry) (id : Text)
    → find e.tx_id q ≡ none
    → find id (q ++ (e ∷ [])) ≡ (if text_eq e.tx_id id then some e else find id q)
unfolding find
find-append [] e id fresh = refl
find-append (f ∷ q) e id fresh = ground (
  arith,
  text_eq_iff f.tx_id id,
  text_eq_iff e.tx_id id,
  text_eq_iff f.tx_id e.tx_id,
  find-append q e id,
)

pub total-append : (q : List Entry) (e : Entry) → total (q ++ (e ∷ [])) ≡ total q + length e.bytes
unfolding total
total-append [] e = omega arith
total-append (f ∷ q) e = omega (arith, total-append q e)

ids-append : (q : List Entry) (e : Entry) → ids (q ++ (e ∷ [])) ≡ ids q ++ (e.tx_id ∷ [])
ids-append [] e = refl
ids-append (f ∷ q) e = ap (◌∷◌ f.tx_id) (ids-append q e)

-- A new entry joins the end of the queue.
pub store_entry-Represents :
    (p : Pool) (q : List Entry) (e : Entry)
    → Represents p q
    → find e.tx_id q ≡ none
    → Represents (store_entry p e) (q ++ (e ∷ []))
unfolding store_entry
store_entry-Represents p q e r fresh =
    let absent = r.exact e.tx_id ∙ fresh in
    record {
      in_order = ap (λ o. o ++ (e.tx_id ∷ [])) r.in_order ∙ sym (ids-append q e);
      exact = λ id.
          get-put e.tx_id id e p.entries
          ∙ ap (λ o. if text_eq e.tx_id id then some e else o) (r.exact id)
          ∙ sym (find-append q e id fresh);
      unique = Unique-append q e (find-none e.tx_id q fresh) r.unique;
      keys = put-Distinct e.tx_id e p.entries r.keys;
      count =
          omega
            (arith, r.count, length-put_new e.tx_id e p.entries absent, length-append q (e ∷ []));
      counted = omega (arith, r.counted, total-append q e);
    }
