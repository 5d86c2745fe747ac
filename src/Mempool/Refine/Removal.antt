-- ===== src/Mempool/Refine/Removal.antt =====
-- internal/mempool/mempool.go, `RemoveTxIDs`: the named entries leave, the others keep their order.
use custom_consensus.Base.{
  ℕ, ◌+◌, ◌≤◌, ◌≡◌, refl, sym, ap, ◌∙◌, Bool, true, false, inl, inr, List, [], ◌∷◌, length, Text,
  Map, get, has, put, text_eq, text_eq_iff, ◌==◌, ◌||◌, get-put, arith, Bool-cases, Option-cases,
  if◌then◌else◌, subst,
}
use custom_consensus.Mempool.{
  Entry, Pool, drop_oldest, id_set, remove_loop, keep_ids, remove_tx_ids,
}
use custom_consensus.Mempool.Queue.{ids, Represents}
use custom_consensus.Mempool.Refine.{Goes}
use custom_consensus.Mempool.Refine.OneId.{
  remove_id, remove_id-absent, remove_id-size, Ordered, drop-Ordered,
}

remove_all : Map (Unit {0}) → List Entry → List Entry
remove_all [] q = q
remove_all ((id, _) ∷ rm) q = remove_all rm (remove_id id q)

record Removed (p : Pool) (q q' : List Entry) (r : Pool × ℕ) : Type 0 where
  holds : Ordered r.0 q'
  number : r.1 + length q' ≡ length q
  same_order : r.0.order ≡ p.order
  same_capacity : r.0.capacity ≡ p.capacity
  same_ttl : r.0.ttl ≡ p.ttl
  same_cap_bytes : r.0.cap_bytes ≡ p.cap_bytes

remove_loop-Removed :
    (rm : Map (Unit {0})) (p : Pool) (q : List Entry)
    → Ordered p q
    → Removed p q (remove_all rm q) (remove_loop rm p)
unfolding remove_loop remove_all drop_oldest
remove_loop-Removed [] p q r = record {
  holds = r;
  number = omega arith;
  same_order = refl;
  same_capacity = refl;
  same_ttl = refl;
  same_cap_bytes = refl;
}
remove_loop-Removed ((id, u) ∷ rm) p q r = elim (Option-cases (get id p.entries)) [
  | inl absent ↦
      let same = remove_id-absent id q (sym (r.exact id) ∙ absent) in
      rw (absent, same, remove_loop, remove_all) (remove_loop-Removed rm p q r)
  | inr (e, held) ↦
      let p' = drop_oldest p id p.order in
      let t = remove_loop-Removed rm p' (remove_id id q) (drop-Ordered p id e p.order q r held) in
      let size = remove_id-size id e q r.unique (sym (r.exact id) ∙ held) in
      rw (held, remove_loop, remove_all)
        (record {
          holds = t.holds;
          number = omega (arith, t.number, size.0);
          same_order = t.same_order;
          same_capacity = t.same_capacity;
          same_ttl = t.same_ttl;
          same_cap_bytes = t.same_cap_bytes;
        })
]

-- The id is in the list.
unfoldable pub named : List Text → Text → Bool
named [] j = false
named (id ∷ ids) j = text_eq id j || named ids j

-- The queue without the entries whose ids satisfy the test.
unfoldable pub without : (Text → Bool) → List Entry → List Entry
without test [] = []
without test (e ∷ q) = let rest = without test q in if test e.tx_id then rest else e ∷ rest

has-id_set :
    (l : List Text) (rm : Map (Unit {0})) (j : Text) → has j (id_set l rm) ≡ (named l j || has j rm)
unfolding id_set named has
has-id_set [] rm j = refl
has-id_set (id ∷ l) rm j = ground (arith, has-id_set l (put id tt rm) j, get-put id j tt rm)

without_same :
    (f g : Text → Bool) (q : List Entry) → ((j : Text) → f j ≡ g j) → without f q ≡ without g q
unfolding without
without_same f g [] h = refl
without_same f g (e ∷ q) h = rw (h e.tx_id, without_same f g q h) refl

none_left : (q : List Entry) → q ≡ without (λ j. has {V = Unit {0}} j []) q
unfolding without has get
none_left [] = refl
none_left (e ∷ q) = ap (◌∷◌ e) (none_left q)

has-head :
    (id j : Text) (u : Unit {0}) (rm : Map (Unit {0}))
    → has j ((id, u) ∷ rm) ≡ (text_eq id j || has j rm)
unfolding has get
has-head id j u rm = ground arith

two_filters :
    (id : Text) (u : Unit {0}) (rm : Map (Unit {0})) (q : List Entry)
    → without (λ j. has j rm) (remove_id id q) ≡ without (λ j. has j ((id, u) ∷ rm)) q
unfolding without remove_id
two_filters id u rm [] = refl
two_filters id u rm (e ∷ q) = elim (Bool-cases (text_eq e.tx_id id)) [
  | inl same ↦
      let flipped : text_eq id e.tx_id ≡ true =
        ground (arith, text_eq_iff id e.tx_id, text_eq_iff e.tx_id id) in
      rw (same, has-head id e.tx_id u rm, flipped) (two_filters id u rm q)
  | inr other ↦
      let flipped : text_eq id e.tx_id ≡ false =
        ground (arith, text_eq_iff id e.tx_id, text_eq_iff e.tx_id id) in
      rw (other, has-head id e.tx_id u rm, flipped)
        (ap (λ rest. if has e.tx_id rm then rest else e ∷ rest) (two_filters id u rm q))
]

remove_all-without :
    (rm : Map (Unit {0})) (q : List Entry) → remove_all rm q ≡ without (λ j. has j rm) q
unfolding remove_all
remove_all-without [] q = none_left q
remove_all-without ((id, u) ∷ rm) q = remove_all-without rm (remove_id id q) ∙ two_filters id u rm q

keep_ids-without :
    (rm : Map (Unit {0})) (q : List Entry) → keep_ids rm (ids q) ≡ ids (without (λ j. has j rm) q)
unfolding keep_ids without
keep_ids-without rm [] = refl
keep_ids-without rm (e ∷ q) = elim (Bool-cases (has e.tx_id rm)) [
  | inl gone ↦ rw gone (keep_ids-without rm q)
  | inr stays ↦ rw stays (ap (◌∷◌ e.tx_id) (keep_ids-without rm q))
]

without_small : (f : Text → Bool) (q : List Entry) → length (without f q) ≤ length q
unfolding without
without_small f [] = omega arith
without_small f (e ∷ q) = elim (Bool-cases (f e.tx_id)) [
  | inl gone ↦ rw gone (omega (arith, without_small f q))
  | inr stays ↦ rw stays (omega (arith, without_small f q))
]

without_all : (f : Text → Bool) (q : List Entry) → length (without f q) ≡ length q → without f q ≡ q
unfolding without
without_all f [] h = refl
without_all f (e ∷ q) h = elim (Bool-cases (f e.tx_id)) [
  | inl gone ↦ absurd (omega (arith, without_small f q, ap (λ n. n) (rw gone at h)))
  | inr stays ↦
      let same : length (without f q) ≡ length q = omega (arith, rw stays at h) in
      rw stays (ap (◌∷◌ e) (without_all f q same))
]

has-id_set_empty : (l : List Text) (j : Text) → has j (id_set l []) ≡ named l j
unfolding has get
has-id_set_empty l j = has-id_set l [] j ∙ or_false (named l j)
  where
    or_false : (b : Bool) → (b || false) ≡ b
    or_false true = refl
    or_false false = refl

in_any_order :
    (p : Pool) (q : List Entry) (o : List Text)
    → o ≡ ids q
    → Represents p q
    → Represents (record p { order = o }) q
in_any_order p q o e r = record {
  in_order = e;
  exact = r.exact;
  unique = r.unique;
  keys = r.keys;
  count = r.count;
  counted = r.counted;
}

placed :
    (p p' : Pool) (q : List Entry)
    → Ordered p' q
    → p'.order ≡ ids q
    → p'.capacity ≡ p.capacity
    → p'.ttl ≡ p.ttl
    → p'.cap_bytes ≡ p.cap_bytes
    → Goes p p' q
placed p p' q r e c t b = record {
  holds = in_any_order (record p' { order = ids q }) q p'.order e r;
  same_capacity = c;
  same_ttl = t;
  same_cap_bytes = b;
}

-- `RemoveTxIDs` takes exactly the entries with the given ids from the queue, leaves the others in
-- their order, and returns how many it took.
pub remove_tx_ids-Goes :
    (l : List Text) (p : Pool) (q : List Entry)
    → Represents p q
    → let q' = without (named l) q in
      Goes p (remove_tx_ids l p).0 q' × ((remove_tx_ids l p).1 + length q' ≡ length q)
unfolding remove_tx_ids
remove_tx_ids-Goes l p q r = elim (Bool-cases (found.1 == 0)) [
  | inl zero_removed ↦
      let all : q' ≡ q = without_all (named l) q (ground (arith, t.number)) in
      let kept : found.0.order ≡ ids q' = t.same_order ∙ r.in_order ∙ ap ids (sym all) in
      rw (zero_removed, remove_tx_ids)
        (
          placed p found.0 q' t.holds kept t.same_capacity t.same_ttl t.same_cap_bytes,
          ground (arith, t.number),
        )
  | inr some_removed ↦
      let o = keep_ids rm found.0.order in
      let kept : o ≡ ids q' =
        ap (keep_ids rm) (t.same_order ∙ r.in_order) ∙ keep_ids-without rm q ∙ ap ids filtered in
      rw (some_removed, remove_tx_ids)
        (
          placed p (record found.0 { order = o }) q' t.holds kept t.same_capacity t.same_ttl
              t.same_cap_bytes,
          omega (arith, t.number),
        )
]
  where
    rm : Map (Unit {0})
    rm = id_set l []

    q' : List Entry
    q' = without (named l) q

    found : Pool × ℕ
    found = remove_loop rm p

    filtered : without (λ j. has j rm) q ≡ q'
    filtered = without_same (λ j. has j rm) (named l) q (has-id_set_empty l)

    t : Removed p q q' found
    t =
        subst (λ x. Removed p q x found) (remove_all-without rm q ∙ filtered)
          (remove_loop-Removed rm p q (in_any_order p q (ids q) refl r))
