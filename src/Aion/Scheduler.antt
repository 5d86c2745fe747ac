-- ===== src/Aion/Scheduler.antt =====
-- internal/aion/scheduler.go and params.go: slots, epochs and the wall clock. A `time.Time` is a number
-- of nanoseconds, a `time.Duration` a signed one; instants and durations stay within their range.
use native.Mathlib.Nat.{div-add-mod', mod-lt}
use custom_consensus.Base.{
  ℕ, zero, suc, ◌+◌, ◌-◌, ◌*◌, ◌/◌, ◌%◌, ◌≤◌, ◌<◌, ◌≡◌, ap, Option, none, some, arith, ltb, ◌==◌,
  if◌then◌else◌,
}
use custom_consensus.Base.Int.{ℤ, pos, negsuc, pos_part}

pub record Params : Type 0 where
  pub slot_duration : ℤ
  pub epoch_length : ℕ
  pub leadership_window : ℕ
  pub alpha_q16 : ℕ
  pub genesis : ℕ

-- `now` is the clock of `time.Now`.
unfoldable pub default_params : ℕ → Params
default_params now = record {
  slot_duration = pos 500_000_000;
  epoch_length = 36000;
  leadership_window = 5;
  alpha_q16 = 0x8000;
  genesis = now;
}

-- Division by zero panics.
pub epoch : Params → ℕ → Option ℕ
epoch p s = if p.epoch_length == 0 then none else some (s / p.epoch_length)

pub epoch_slot_offset : Params → ℕ → Option ℕ
epoch_slot_offset p s = if p.epoch_length == 0 then none else some (s % p.epoch_length)

-- The slot duration is not negative.
pub slot_at : Params → ℕ → ℕ
slot_at p s = p.genesis + s * pos_part p.slot_duration

slot_of : ℕ → ℤ → ℕ
slot_of d (pos zero) = 0
slot_of d (pos (suc n)) = d / suc n
slot_of d (negsuc n) = 0

pub current_slot : Params → ℕ → ℕ
unfolding slot_of
current_slot p now = if ltb now p.genesis then 0 else slot_of (now - p.genesis) p.slot_duration

-- With a positive epoch length a slot has an epoch and an offset below the length, and they
-- determine the slot.
pub epoch-epoch_slot_offset :
    (p : Params) (s : ℕ)
    → 0 < p.epoch_length
    → (e : ℕ) × (o : ℕ) × (epoch p s ≡ some e)
      × (epoch_slot_offset p s ≡ some o)
      × (o < p.epoch_length)
      × (e * p.epoch_length + o ≡ s)
unfolding epoch epoch_slot_offset
epoch-epoch_slot_offset p s h = (
  s / p.epoch_length,
  s % p.epoch_length,
  ground arith,
  ground arith,
  mod-lt s h,
  div-add-mod' s p.epoch_length,
)

current_slot_lem :
    (p : Params) (d now : ℕ)
    → p.slot_duration ≡ pos (suc d)
    → p.genesis ≤ now
    → current_slot p now ≡ (now - p.genesis) / suc d
unfolding current_slot
current_slot_lem p d now e h = ground arith

-- From genesis on, the current slot is the one whose time has come while that of the next has not.
pub current_slot-slot_at :
    (p : Params) (d now : ℕ)
    → p.slot_duration ≡ pos (suc d)
    → p.genesis ≤ now
    → (slot_at p (current_slot p now) ≤ now) × (now < slot_at p (current_slot p now + 1))
unfolding current_slot slot_at
current_slot-slot_at p d now e h =
    let q = (now - p.genesis) / suc d in
    let split = div-add-mod' (now - p.genesis) (suc d) in
    let rem = mod-lt (now - p.genesis) {m = suc d} (omega arith) in
    let width : pos_part p.slot_duration ≡ suc d = ap pos_part e in
    rw (current_slot_lem p d now e h, width) (omega (arith, split, rem), omega (arith, split, rem))
