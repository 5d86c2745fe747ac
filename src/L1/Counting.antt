-- ===== src/L1/Counting.antt =====
-- l1_notarization.go: what one more attester of a block leads to.
use custom_consensus.Base.{
  get-del, text_eq_refl, ℕ, ◌-◌, ◌≤◌, ◌<◌, ◌≡◌, ◌∙◌, refl, ap, ◌⊎◌, inl, inr, true, false, Option,
  none, some, [], ◌∷◌, Bytes, length, get_elem?, Text, Map, get, put, del, has, is_some, hex_encode,
  All, All-put, All-del, All-get, get-put_self, Bool-cases, arith, Distinct, put-Distinct, leb,
  leb→le,
}
use custom_consensus.Base.Int.{ℤ}
use custom_consensus.L1.State.{L1, L1Record, L1Attest, L1Notarized}
use custom_consensus.L1.Records.{
  prune_attests, push_record, record_notarized, record_notarized_at, notarized_again, counted_again,
  update_attesters, update_attesters_at, fresh_record,
}
use custom_consensus.L1.Handlers.{set_or_none, seen_of, first_of, track, notarize, count_attest}
use custom_consensus.L1.Index.{
  Valid, Updated, update_at-Updated, prune_attests-Valid, push_record-Valid, has-push,
}

-- The attesters of a block, with this one.
unfoldable pub voters : L1 → L1Attest → Map (Unit {0})
voters s a = put (hex_encode a.attester) tt (seen_of s (hex_encode a.hash))

-- The state after `updateAttesters`: the hash is in the index.
record Noted (s t : L1) (k : Text) : Type 0 where
  valid : Valid t
  known : (i : ℕ) × (get k t.rec_by_hash ≡ some i)
  same_seen : t.seen ≡ s.seen
  same_min : t.min_attesters ≡ s.min_attesters
  same_sent : t.notarizations ≡ s.notarizations

lt_of_leb : (a b : ℕ) → leb a b ≡ false → b < a
lt_of_leb a b e = ground arith

some_of_has : (k : Text) (m : Map ℕ) → has k m ≡ true → (i : ℕ) × (get k m ≡ some i)
unfolding has is_some
some_of_has k m e = ground arith

counted_hash : (n now : ℕ) (r : L1Record) → (counted_again n now r).hash ≡ r.hash
unfolding counted_again
counted_hash n now r = refl

notarized_hash : (n dt now : ℕ) (r : L1Record) → (notarized_again n dt now r).hash ≡ r.hash
unfolding notarized_again
notarized_hash n dt now r = refl

update_attesters_at-Noted :
    (s : L1) (k : Text) (epoch : ℕ) (height : ℤ) (n now : ℕ) (v : Option ℕ)
    → Valid s
    → get k s.rec_by_hash ≡ v
    → (t : L1) × (update_attesters_at s k epoch height n now v ≡ some t) × Noted s t k
unfolding update_attesters_at prune_attests push_record fresh_record
update_attesters_at-Noted s k epoch height n now (some i) v found =
    let (t, e, u) =
      update_at-Updated s k i now (counted_again n now) v (λ r. counted_hash n now r) found in
    (
      t,
      e,
      record {
        valid = u.valid;
        known = (i, ap (get k) u.same_index ∙ found);
        same_seen = u.same_seen;
        same_min = u.same_min;
        same_sent = u.same_sent;
      },
    )
update_attesters_at-Noted s k epoch height n now none v found =
    let r = fresh_record k epoch height n now in
    (
      prune_attests (push_record s r) now,
      refl,
      record {
        valid = prune_attests-Valid (push_record s r) now (push_record-Valid s r v);
        known =
            some_of_has k (push_record s r).rec_by_hash (has-push s.max_recent r s.recent v.room);
        same_seen = refl;
        same_min = refl;
        same_sent = refl;
      },
    )

set_or_none-Distinct :
    (k : Text) (m : Map (Map (Unit {0}))) (v : Option (Map (Unit {0})))
    → get k m ≡ v
    → All (λ e. Distinct e.1) m
    → Distinct (set_or_none v)
unfolding set_or_none
set_or_none-Distinct k m none e a = tt
set_or_none-Distinct k m (some set) e a = All-get (λ x. Distinct x.1) k set m e a

voters-Distinct : (s : L1) (a : L1Attest) → Valid s → Distinct (voters s a)
unfolding voters seen_of
voters-Distinct s a v = put-Distinct (hex_encode a.attester) tt _ (
    set_or_none-Distinct (hex_encode a.hash) s.seen (get (hex_encode a.hash) s.seen) refl
      v.distinct)

track-Valid :
    (s : L1) (a : L1Attest) (raw : Bytes) (now : ℕ)
    → Valid s
    → Valid (track s (hex_encode a.hash) (hex_encode a.attester) raw now)
unfolding track voters
track-Valid s a raw now v = record {
  room = v.room;
  few = v.few;
  indexed = v.indexed;
  distinct =
      All-put (λ e. Distinct e.1) (hex_encode a.hash) (voters s a) s.seen (voters-Distinct s a v)
        v.distinct;
}

seen_of-track :
    (s : L1) (a : L1Attest) (raw : Bytes) (now : ℕ)
    → seen_of (track s (hex_encode a.hash) (hex_encode a.attester) raw now) (hex_encode a.hash)
      ≡ voters s a
unfolding track seen_of voters
seen_of-track s a raw now = rw (get-put_self (hex_encode a.hash) (voters s a) s.seen) refl

-- A notarization that was just published: it is for the block, it counts the different attesters of
-- the block, which are enough, the record of the block says so, and the attesters are forgotten.
pub record Notarization (s t : L1) (a : L1Attest) : Type 0 where
  pub out : L1Notarized
  pub published : t.notarizations ≡ out ∷ s.notarizations
  pub same_hash : out.hash ≡ a.hash
  pub counts : out.count ≡ length (voters s a)
  pub different : Distinct (voters s a)
  pub enough : s.min_attesters ≤ out.count
  pub index : ℕ
  pub rec : L1Record
  pub recorded : get_elem? t.recent index ≡ some rec
  pub rec_hash : rec.hash ≡ hex_encode a.hash
  pub rec_notarized : rec.notarized ≡ true
  pub rec_attesters : rec.attesters ≡ length (voters s a)
  pub forgotten : get (hex_encode a.hash) t.seen ≡ none

out_of : L1Attest → ℕ → L1Notarized
out_of a cnt = record {
  epoch = a.epoch;
  height = a.height;
  hash = a.hash;
  count = cnt;
  attesters = a.attester ∷ [];
}

record_notarized_known :
    (s : L1) (k : Text) (epoch : ℕ) (height : ℤ) (n dt now i : ℕ)
    → Valid s
    → get k s.rec_by_hash ≡ some i
    → (t : L1) × (record_notarized s k epoch height n dt now ≡ some t)
      × Updated s t k i (notarized_again n dt now)
unfolding record_notarized record_notarized_at
record_notarized_known s k epoch height n dt now i v found =
    let (t, e, u) =
      update_at-Updated s k i now (notarized_again n dt now) v (λ r. notarized_hash n dt now r)
        found in
    (t, ap (record_notarized_at s k epoch height n dt now) found ∙ e, u)

-- What a handled attestation did to the published notarizations.
abbrev pub Counted : L1 → L1 → L1Attest → Type 0
Counted s t a =
    Valid t
    × (((length (voters s a) < s.min_attesters)
          × (seen_of t (hex_encode a.hash) ≡ voters s a)
          × (t.notarizations ≡ s.notarizations))
        ⊎ Notarization s t a)

get-del_self : {V : Type 0} (k : Text) (m : Map V) → get k (del k m) ≡ none
get-del_self k m = ground (arith, get-del k k m, text_eq_refl k)

notarize-Counted :
    (s u : L1) (a : L1Attest) (first now i : ℕ)
    → Valid u
    → get (hex_encode a.hash) u.rec_by_hash ≡ some i
    → u.notarizations ≡ s.notarizations
    → Distinct (voters s a)
    → s.min_attesters ≤ length (voters s a)
    → (t : L1) × (notarize u a (length (voters s a)) first now ≡ some t) × Counted s t a
unfolding notarize out_of notarized_again
notarize-Counted s u a first now i v found same distinct enough =
    let cnt = length (voters s a) in
    let (t, e, r) =
      record_notarized_known u (hex_encode a.hash) a.epoch a.height cnt (now - first) now i v
        found in
    (
      record t {
        seen = del (hex_encode a.hash) t.seen;
        notarizations = out_of a cnt ∷ t.notarizations;
      },
      rw e refl,
      (
        record {
          room = r.valid.room;
          few = r.valid.few;
          indexed = r.valid.indexed;
          distinct = All-del (λ x. Distinct x.1) (hex_encode a.hash) t.seen r.valid.distinct;
        },
        inr (record {
          out = out_of a cnt;
          published = ap (◌∷◌ (out_of a cnt)) (r.same_sent ∙ same);
          same_hash = refl;
          counts = refl;
          different = distinct;
          enough = enough;
          index = i;
          rec = notarized_again cnt (now - first) now r.old;
          recorded = r.now_new;
          rec_hash = r.hash_old;
          rec_notarized = refl;
          rec_attesters = refl;
          forgotten = get-del_self (hex_encode a.hash) t.seen;
        }),
      ),
    )

pub count_attest-Counted :
    (s : L1) (a : L1Attest) (raw : Bytes) (now : ℕ)
    → Valid s
    → (t : L1) × (count_attest s a raw now ≡ some t) × Counted s t a
unfolding count_attest update_attesters track seen_of
count_attest-Counted s a raw now v =
    let key = hex_encode a.hash in
    let s₁ = track s key (hex_encode a.attester) raw now in
    let cnt = seen_of-track s a raw now in
    let (u, e, noted) =
      update_attesters_at-Noted s₁ key a.epoch a.height (length (voters s a)) now
        (get key s₁.rec_by_hash) (track-Valid s a raw now v) refl in
    let (i, found) = noted.known in
    let kept : seen_of u key ≡ voters s a =
      ap (λ m. set_or_none (get key m)) noted.same_seen ∙ cnt in
    elim (Bool-cases (leb s.min_attesters (length (voters s a)))) [
      | inl enough ↦
          let (t, done, counted) =
            notarize-Counted s u a (first_of s₁.first key) now i noted.valid found noted.same_sent
              (voters-Distinct s a v) (leb→le _ _ enough) in
          (t, rw (cnt, e, enough) done, counted)
      | inr few ↦
          (u, rw (cnt, e, few) refl, (noted.valid, inl (lt_of_leb _ _ few, kept, noted.same_sent)))
    ]
