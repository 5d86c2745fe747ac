-- ===== src/Aion/Election/Slots.antt =====
-- internal/aion/gossip.go: who may produce in a slot, and what the other packages ask.
use native.Mathlib.Nat.{mod-lt}
use custom_consensus.Base.{
  ℕ, zero, suc, ◌+◌, ◌-◌, ◌/◌, ◌%◌, ◌≤◌, ◌<◌, ◌≡◌, ◌≢◌, ◌↔◌, refl, inl, inr, Bool, true, false, not,
  ◌&&◌, ◌||◌, Option, none, some, List, [], ◌∷◌, length, get_elem?, Bytes, Text, text_eq, is_empty,
  hex_encode, ltb, leb, ◌==◌, if◌then◌else◌, arith, Bool-cases,
}
use custom_consensus.Base.Int.{ℤ, pos, negsuc}
use custom_consensus.Aion.Scheduler.{epoch, epoch_slot_offset, current_slot}
use custom_consensus.Aion.Election.State.{Election}

infixl 5 ◌>>=◌
abbrev ◌>>=◌ {ℓ κ} : {A : Type ℓ} {B : Type κ} → Option A → (A → Option B) → Option B
none >>= f = none
some a >>= f = f a

-- `s.leader[e] == ph`
unfoldable pub is_leader : Election → ℕ → Bytes → Bool
is_leader s e key = elim (s.leader e) [ none ↦ is_empty key | some l ↦ text_eq l (hex_encode key) ]

-- `AcceptProducer`
pub accept_producer : Election → ℕ → Bytes → Bool
accept_producer s e key = true

-- `LocalIsLeader`, at the height of the tip.
unfoldable pub epoch_of_tip : ℕ → ℕ → ℕ
epoch_of_tip len tip = if tip == 0 then 0 else (tip - 1) / len

unfoldable pub local_is_leader : Election → Bytes → ℕ → Bool
local_is_leader s key tip =
    let len = s.params.epoch_length in
    if (len == 0) || is_empty key then false else is_leader s (epoch_of_tip len tip) key

-- `LeaderForEpoch`
pub leader_for_epoch : Election → ℕ → Option Text
leader_for_epoch s e = s.leader e

-- `EpochLength`
pub epoch_length_of : Election → ℕ
epoch_length_of s = s.params.epoch_length

-- `ScheduledLeaderFor`, for an offset below 2^63.
unfoldable pub scheduled_leader_for : Election → ℕ → ℕ → Option Text
scheduled_leader_for s e offset =
    let sched = s.schedule e in
    if length sched == 0 then none else get_elem? sched (offset % length sched)

-- The slots of one leader in `AllowProduceSlot`, five seconds' worth.
unfoldable pub slots_per_leader : ℤ → ℕ
slots_per_leader (negsuc n) = 1
slots_per_leader (pos zero) = 1
slots_per_leader (pos (suc n)) = (5_000_000_000 + suc n - 1) / suc n

-- `(groupIdx + n - 3) % n`: Go's remainder of a negative number is not positive, and a negative index
-- panics (`none`).
unfoldable pub previous_index : ℕ → ℕ → Option ℕ
previous_index group n =
    if leb 3 (group + n)
    then some ((group + n - 3) % n)
    else if (3 - (group + n)) % n == 0
    then some 0
    else none

-- The grace period at the start of an epoch, when the previous schedule still counts.
unfoldable pub allow_previous : List Text → Bytes → ℕ → Bool → Option Bool
allow_previous prev key group alone = if length prev == 0 then some alone else (do
  i ← previous_index group (length prev)
  want ← get_elem? prev i
  some (text_eq (hex_encode key) want || alone))

-- `AllowProduceSlot` in a slot of this epoch at this offset; `alone` says that no peer is connected.
unfoldable pub allow_at : Election → Bytes → ℕ → ℕ → Bool → Option Bool
allow_at s key e off alone =
    let group = off / slots_per_leader s.params.slot_duration in
    let sched = s.schedule e in
    if not (length sched == 0)
    then (do want ← get_elem? sched (group % length sched); some (text_eq (hex_encode key) want))
    else if ltb off 3 && ltb 0 e
    then allow_previous (s.schedule (e - 1)) key group alone
    else some alone

-- `AllowProduceSlot`; `none` is a panic.
unfoldable pub allow_produce_slot : Election → Bytes → ℕ → Bool → Option Bool
allow_produce_slot s key now alone =
    if (s.params.epoch_length == 0) || is_empty key then some false else (do
      e ← epoch s.params (current_slot s.params now)
      off ← epoch_slot_offset s.params (current_slot s.params now)
      allow_at s key e off alone)

some-none {ℓ} : {A : Type ℓ} {a : A} → some a ≡ none → ⊥
some-none e = ground arith

get_elem?-some {ℓ} :
    {A : Type ℓ} (xs : List A) (i : ℕ) → i < length xs → (x : A) × (get_elem? xs i ≡ some x)
get_elem?-some [] i h = absurd (omega arith)
get_elem?-some (x ∷ xs) zero h = (x, refl)
get_elem?-some (x ∷ xs) (suc i) h = get_elem?-some xs i (omega arith)

-- `x % n` with the element there.
elem_at_rest {ℓ} :
    {A : Type ℓ} (xs : List A) (i : ℕ)
    → (length xs == 0) ≡ false
    → (x : A) × (get_elem? xs (i % length xs) ≡ some x)
elem_at_rest xs i h = get_elem?-some xs (i % length xs) (mod-lt i {m = length xs} (ground arith))

previous_index-lt : (group n i : ℕ) → (n == 0) ≡ false → previous_index group n ≡ some i → i < n
unfolding previous_index
previous_index-lt group n i h e = ground (arith, mod-lt (group + n - 3) {m = n} (ground arith))

large_index : (group n : ℕ) → 3 ≤ group + n → previous_index group n ≢ none
unfolding previous_index
large_index group n h = ground arith

-- The index of the previous schedule is negative in one case only.
previous_index-none :
    (group n : ℕ) → (n == 0) ≡ false → (previous_index group n ≡ none) ↔ ((n ≡ 2) × (group ≡ 0))
unfolding previous_index
previous_index-none group zero h = ground arith
previous_index-none zero (suc zero) h = ground arith
previous_index-none zero (suc (suc zero)) h = ground arith
previous_index-none (suc zero) (suc zero) h = ground arith
previous_index-none (suc (suc group)) (suc zero) h = (
  λ e. absurd (large_index (suc (suc group)) 1 (omega arith) e),
  λ p. absurd (omega (arith, p.1)),
)
previous_index-none (suc group) (suc (suc zero)) h =
    (λ e. absurd (large_index (suc group) 2 (omega arith) e), λ p. absurd (omega (arith, p.1)))
previous_index-none group (suc (suc (suc n))) h = (
  λ e. absurd (large_index group (suc (suc (suc n))) (omega arith) e),
  λ p. absurd (omega (arith, p.0)),
)

module _ (prev : List Text) (key : Bytes) (group : ℕ) (alone : Bool) where
  previous_want :
      (v : Option ℕ)
      → ((i : ℕ) → v ≡ some i → i < length prev)
      → ((do i ← v; want ← get_elem? prev i; some (text_eq (hex_encode key) want || alone)) ≡ none)
        ↔ (v ≡ none)
  previous_want none h = (λ e. refl, λ e. refl)
  previous_want (some i) h =
      let (want, e) = get_elem?-some prev i (h i refl) in
      rw e (λ f. absurd (some-none f), λ f. absurd (some-none f))

  allow_previous-none :
      (allow_previous prev key group alone ≡ none) ↔ ((length prev ≡ 2) × (group ≡ 0))
  unfolding allow_previous
  allow_previous-none = elim (Bool-cases (length prev == 0)) [
    | inl empty ↦
        rw (empty, allow_previous) (λ e. absurd (some-none e), λ p. absurd (ground (arith, p.0)))
    | inr full ↦
        let (to, from) = previous_index-none group (length prev) full in
        let (there, back) =
          previous_want (previous_index group (length prev))
            (λ i e. previous_index-lt group (length prev) i full e) in
        rw (full, allow_previous) (λ e. to (there e), λ p. back (from p))
  ]

-- AllowProduceSlot panics, by a negative index, exactly when the epoch has no schedule yet, it is one
-- of the first three slots of an epoch after the first, the schedule before has exactly two leaders,
-- and the slots of the first leader are not over.
pub allow_at_panics :
    (s : Election) (key : Bytes) (e off : ℕ) (alone : Bool)
    → (allow_at s key e off alone ≡ none) ↔ (
        (length (s.schedule e) ≡ 0)
        × (off < 3)
        × (0 < e)
        × (length (s.schedule (e - 1)) ≡ 2)
        × (off / slots_per_leader s.params.slot_duration ≡ 0))
unfolding allow_at
allow_at_panics s key e off alone =
    let group = off / slots_per_leader s.params.slot_duration in
    elim (Bool-cases (length (s.schedule e) == 0)) [
      | inr full ↦
          let (want, is) = elem_at_rest (s.schedule e) group full in
          rw (full, allow_at, is) (λ f. absurd (some-none f), λ p. absurd (ground (arith, p.0)))
      | inl empty ↦ elim (Bool-cases (ltb off 3 && ltb 0 e)) [
        | inr late ↦
            rw (empty, late, allow_at)
              (λ f. absurd (some-none f), λ p. let (_, q, r, _, _) = p in absurd (ground arith))
        | inl early ↦
            let (to, from) = allow_previous-none (s.schedule (e - 1)) key group alone in
            rw (empty, early, allow_at)
              (
                λ f.
                    let (two, first) = to f in
                    (ground arith, ground arith, ground arith, two, first),
                λ p. let (_, _, _, two, first) = p in from (two, first),
              )
      ]
    ]
