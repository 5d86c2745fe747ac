-- ===== src/L1/Index.antt =====
-- l1_notarization.go: the index of the recent records points at them.
use custom_consensus.Base.{
  ℕ, zero, suc, ◌≤◌, ◌<◌, ◌≡◌, ◌∙◌, refl, sym, ap, true, some, List, [], ◌∷◌, length, length-take,
  take, drop, get_elem?, Text, Map, get, put, has, is_some, All, All-put, All-get, arith, unwrap,
  Distinct, get-put, get-put_self,
}
use custom_consensus.L1.State.{L1, L1Record}
use custom_consensus.L2.Steps.Maps.{All-imp}
use custom_consensus.L1.Records.{
  set_elem, index_from, reindexed, prune_attests, push_record, update_at, pruned,
}

-- The index of a hash is that of a record of this hash.
abbrev pub Indexed : List L1Record → Map ℕ → Type 0
Indexed rs = All (λ e. (r : L1Record) × (get_elem? rs e.1 ≡ some r) × (r.hash ≡ e.0))

drop-get_elem? {ℓ} :
    {A : Type ℓ} (i : ℕ) (xs : List A) (r : A) (rs : List A)
    → drop i xs ≡ r ∷ rs
    → (get_elem? xs i ≡ some r) × (drop (suc i) xs ≡ rs)
drop-get_elem? zero [] r rs e = absurd (ground arith)
drop-get_elem? zero (x ∷ xs) r rs e = (cc, cc)
drop-get_elem? (suc i) [] r rs e = absurd (ground arith)
drop-get_elem? (suc i) (x ∷ xs) r rs e = drop-get_elem? i xs r rs e

index_from-Indexed :
    (rs xs : List L1Record) (i : ℕ) (m : Map ℕ)
    → drop i xs ≡ rs
    → Indexed xs m
    → Indexed xs (index_from i rs m)
unfolding index_from
index_from-Indexed [] xs i m e h = h
index_from-Indexed (r ∷ rs) xs i m e h =
    let (found, rest) = drop-get_elem? i xs r rs e in
    index_from-Indexed rs xs (suc i) (put r.hash i m) rest (
      All-put (λ x. (q : L1Record) × (get_elem? xs x.1 ≡ some q) × (q.hash ≡ x.0)) r.hash i m
        (r, found, refl) h)

reindexed-Indexed : (rs : List L1Record) → Indexed rs (reindexed rs)
unfolding reindexed
reindexed-Indexed rs = index_from-Indexed rs rs 0 [] refl tt

has-put : (k j : Text) (v : ℕ) (m : Map ℕ) → has k m ≡ true → has k (put j v m) ≡ true
unfolding has is_some
has-put k j v m h = ground (arith, get-put j k v m)

has-put_self : (k : Text) (v : ℕ) (m : Map ℕ) → has k (put k v m) ≡ true
unfolding has is_some
has-put_self k v m = ground (arith, get-put_self k v m)

has-index_from :
    (k : Text) (rs : List L1Record) (i : ℕ) (m : Map ℕ)
    → has k m ≡ true
    → has k (index_from i rs m) ≡ true
unfolding index_from
has-index_from k [] i m h = h
has-index_from k (r ∷ rs) i m h =
    has-index_from k rs (suc i) (put r.hash i m) (has-put k r.hash i m h)

length-set_elem {ℓ} :
    {A : Type ℓ} (i : ℕ) (x : A) (ys : List A) → length (set_elem i x ys) ≡ length ys
unfolding set_elem
length-set_elem i x [] = refl
length-set_elem zero x (y ∷ ys) = refl
length-set_elem (suc i) x (y ∷ ys) = ap suc (length-set_elem i x ys)

set_elem-Indexed :
    (i : ℕ) (r q : L1Record) (rs : List L1Record)
    → get_elem? rs i ≡ some r
    → q.hash ≡ r.hash
    → (j : ℕ) (p : L1Record) → get_elem? rs j ≡ some p
    → (s : L1Record) × (get_elem? (set_elem i q rs) j ≡ some s) × (s.hash ≡ p.hash)
unfolding set_elem
set_elem-Indexed i r q [] found same j p at_j = absurd (ground arith)
set_elem-Indexed zero r q (x ∷ rs) found same zero p at_j =
    (q, refl, same ∙ ap (λ y. y.hash) (unwrap (sym found ∙ at_j)))
set_elem-Indexed zero r q (x ∷ rs) found same (suc j) p at_j = (p, at_j, refl)
set_elem-Indexed (suc i) r q (x ∷ rs) found same zero p at_j = (p, at_j, refl)
set_elem-Indexed (suc i) r q (x ∷ rs) found same (suc j) p at_j =
    set_elem-Indexed i r q rs found same j p at_j

get_elem?-set_elem {ℓ} :
    {A : Type ℓ} (i : ℕ) (r q : A) (xs : List A)
    → get_elem? xs i ≡ some r
    → get_elem? (set_elem i q xs) i ≡ some q
unfolding set_elem
get_elem?-set_elem i r q [] found = absurd (ground arith)
get_elem?-set_elem zero r q (x ∷ xs) found = refl
get_elem?-set_elem (suc i) r q (x ∷ xs) found = get_elem?-set_elem i r q xs found

-- The recent records are few and indexed, and the attesters of a block are counted once each.
pub record Valid (s : L1) : Type 0 where
  pub room : 0 < s.max_recent
  pub few : length s.recent ≤ s.max_recent
  pub indexed : Indexed s.recent s.rec_by_hash
  pub distinct : All (λ e. Distinct e.1) s.seen

pub prune_attests-Valid : (s : L1) (now : ℕ) → Valid s → Valid (prune_attests s now)
unfolding prune_attests
prune_attests-Valid s now v = record {
  room = v.room;
  few = v.few;
  indexed = v.indexed;
  distinct = v.distinct;
}

pub push_record-Valid : (s : L1) (r : L1Record) → Valid s → Valid (push_record s r)
unfolding push_record
push_record-Valid s r v = record {
  room = v.room;
  few = omega (arith, length-take s.max_recent (r ∷ s.recent));
  indexed = reindexed-Indexed (take s.max_recent (r ∷ s.recent));
  distinct = v.distinct;
}

pub has-push :
    (n : ℕ) (r : L1Record) (rs : List L1Record)
    → 0 < n
    → has r.hash (reindexed (take n (r ∷ rs))) ≡ true
unfolding reindexed index_from
has-push zero r rs h = absurd (omega arith)
has-push (suc n) r rs h = has-index_from r.hash (take n rs) 1 _ (has-put_self r.hash 0 [])

-- The records after an update of the one of a hash.
pub record Updated (s t : L1) (k : Text) (i : ℕ) (f : L1Record → L1Record) : Type 0 where
  pub valid : Valid t
  pub same_index : t.rec_by_hash ≡ s.rec_by_hash
  pub same_seen : t.seen ≡ s.seen
  pub same_min : t.min_attesters ≡ s.min_attesters
  pub same_sent : t.notarizations ≡ s.notarizations
  pub old : L1Record
  pub is_old : get_elem? s.recent i ≡ some old
  pub hash_old : old.hash ≡ k
  pub now_new : get_elem? t.recent i ≡ some (f old)

pub update_at-Updated :
    (s : L1) (k : Text) (i now : ℕ) (f : L1Record → L1Record)
    → Valid s
    → ((r : L1Record) → (f r).hash ≡ r.hash)
    → get k s.rec_by_hash ≡ some i
    → (t : L1) × (pruned (update_at s i f) now ≡ some t) × Updated s t k i f
unfolding update_at pruned prune_attests
update_at-Updated s k i now f v keeps found =
    let (r, at_i, same) =
      All-get (λ x. (q : L1Record) × (get_elem? s.recent x.1 ≡ some q) × (q.hash ≡ x.0)) k i
        s.rec_by_hash found v.indexed in
    (
      prune_attests (record s { recent = set_elem i (f r) s.recent }) now,
      rw (at_i, update_at) refl,
      record {
        valid = record {
          room = v.room;
          few = omega (arith, v.few, length-set_elem i (f r) s.recent);
          indexed =
              All-imp _ _ s.rec_by_hash
                (λ e h.
                  let (q, at_e, is) = h in
                  let (p, there, p_hash) =
                    set_elem-Indexed i r (f r) s.recent at_i (keeps r) e.1 q at_e in
                  (p, there, p_hash ∙ is))
                v.indexed;
          distinct = v.distinct;
        };
        same_index = refl;
        same_seen = refl;
        same_min = refl;
        same_sent = refl;
        old = r;
        is_old = at_i;
        hash_old = same;
        now_new = get_elem?-set_elem i r (f r) s.recent at_i;
      },
    )
