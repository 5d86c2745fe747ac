-- ===== src/Cell/Forming.antt =====
-- internal/cell/cell.go: which devices a cell is formed of.
use mathlib.Core.List.{Perm}
use custom_consensus.Base.{
  ℕ, ◌≤◌, ◌≡◌, ◌∙◌, refl, sym, ap, subst, ◌⊎◌, inl, inr, true, false, Option, none, some, List,
  ◌++◌, length, take, drop, All, Text, Bool-cases, arith, length-take, take-append-drop, sort_on,
  sort_on-SortedOn, sort_on-Perm, length-sort_on, ltb, take-drop-KeyLe,
}
use custom_consensus.Base.Int.{ℤ, pos, negsuc, ltb_ℤ, ◌≤ℤ◌, ◌<ℤ◌}
use custom_consensus.Iot.{Device}
use custom_consensus.Cell.{Cell, Manager, is_formed, pick_size, slice_to, new_cell, form, try_form}

-- The devices by the time at which they were first seen.
abbrev pub by_age : List Device → List Device
by_age = sort_on (λ d. d.first_seen)

-- What a call that forms a cell does.
pub record Formed (m : Manager) (devs : List Device) (stamp : Text) (now : ℕ) (m' : Manager)
    (c : Cell) : Type 0 where
  pub not_before : is_formed m.cell ≡ false
  pub enough : m.threshold ≤ℤ pos (length devs)
  pub pick : List Device
  pub others : List Device
  pub made : c ≡ new_cell m pick stamp now
  pub kept : m' ≡ record m { cell = some c }
  pub all_devices : Perm (pick ++ others) devs
  pub oldest : All (λ d. All (λ e. d.first_seen ≤ e.first_seen) others) pick
  pub within : m.max_devices ≤ℤ pos 0 ⊎ pos (length pick) ≤ℤ m.max_devices
  pub at_least : m.threshold ≤ℤ pos (length pick) ⊎ (pos (length pick) ≡ m.max_devices)

pick_size_lem :
    (t count : ℕ) (max : ℤ)
    → t ≤ count
    → (n : ℕ) × (pick_size (pos t) max count ≡ pos n)
      × (n ≤ count)
      × ((max ≤ℤ pos 0 ⊎ pos n ≤ℤ max) × ((t ≤ n) ⊎ (pos n ≡ max)))
unfolding pick_size
pick_size_lem t count (negsuc k) h = (t, ground arith, h, (inl (omega arith), inl (omega arith)))
pick_size_lem t count (pos k) h = elim (Bool-cases (ltb 0 k)) [
  | inr unlimited ↦ (t, ground arith, h, (inl (ground arith), inl (omega arith)))
  | inl limited ↦ elim (Bool-cases (ltb k t)) [
    | inl low ↦ (k, ground arith, ground arith, (inr (omega arith), inr refl))
    | inr high ↦ elim (Bool-cases (ltb count k)) [
      | inl few ↦ (count, ground arith, omega arith, (inr (ground arith), inl h))
      | inr many ↦ (t, ground arith, h, (inr (ground arith), inl (omega arith)))
    ]
  ]
]

slice_to-some : (ds : List Device) (n : ℕ) → n ≤ length ds → slice_to ds (pos n) ≡ some (take n ds)
unfolding slice_to
slice_to-some ds n h = ground arith

length-pick : (n : ℕ) (devs : List Device) → n ≤ length devs → length (take n (by_age devs)) ≡ n
length-pick n devs h =
    omega (arith, length-take n (by_age devs), length-sort_on (λ d. d.first_seen) devs)

-- What TryForm answers.
abbrev pub Answered : Manager → List Device → Text → ℕ → Manager × Option Cell → Type 0
Answered m devs stamp now (m', some c) = Formed m devs stamp now m' c
Answered m devs stamp now (m', none) =
    (m' ≡ m) × ((is_formed m.cell ≡ true) ⊎ (pos (length devs) <ℤ m.threshold))

form-Answered :
    (m : Manager) (devs : List Device) (stamp : Text) (now t : ℕ)
    → m.threshold ≡ pos t
    → t ≤ length devs
    → is_formed m.cell ≡ false
    → (r : Manager × Option Cell) × (form m stamp now
          (slice_to (by_age devs) (pick_size m.threshold m.max_devices (length devs)))
        ≡ some r)
      × Answered m devs stamp now r
unfolding form
form-Answered m devs stamp now t is h idle =
    let (n, size, le, (within, least)) = pick_size_lem t (length devs) m.max_devices h in
    let len = length-pick n devs le in
    let sorted = by_age devs in
    let c = new_cell m (take n sorted) stamp now in
    (
      (record m { cell = some c }, some c),
      rw (is, size, slice_to-some sorted n (omega (arith, length-sort_on (λ d. d.first_seen) devs)))
          refl,
      record {
        not_before = idle;
        enough = rw is (omega arith);
        pick = take n sorted;
        others = drop n sorted;
        made = refl;
        kept = refl;
        all_devices =
            subst (λ xs. Perm xs devs) (sym (take-append-drop n sorted))
              (sort_on-Perm (λ d. d.first_seen) devs);
        oldest =
            take-drop-KeyLe (λ d. d.first_seen) n sorted
              (sort_on-SortedOn (λ d. d.first_seen) devs);
        within = elim within [ inl un ↦ inl un | inr up ↦ inr (rw len up) ];
        at_least = elim least [
          | inl low ↦ inl (rw (is, len) (omega arith))
          | inr full ↦ inr (ap pos len ∙ full)
        ];
      },
    )

-- With a threshold that is not negative, TryForm does not panic. It does nothing when there is an
-- active cell or there are fewer devices than the threshold. Otherwise it forms an active cell of
-- devices of the registry none of which was first seen later than one that is left out. They are no
-- more than a positive limit, and no fewer than the threshold unless they are as many as the limit.
pub try_form-Answered :
    (m : Manager) (devs : List Device) (stamp : Text) (now t : ℕ)
    → m.threshold ≡ pos t
    → (r : Manager × Option Cell) × (try_form m devs stamp now ≡ some r)
      × Answered m devs stamp now r
unfolding try_form
try_form-Answered m devs stamp now t is = elim (Bool-cases (is_formed m.cell)) [
  | inl formed ↦ ((m, none), rw (formed, try_form) refl, (refl, inl formed))
  | inr idle ↦ elim (Bool-cases (ltb_ℤ (pos (length devs)) m.threshold)) [
    | inl few ↦ ((m, none), rw (idle, few, try_form) refl, (refl, inr (ground arith)))
    | inr enough ↦
        let (r, e, a) =
          form-Answered m devs stamp now t is
            (let h : ltb_ℤ (pos (length devs)) (pos t) ≡ false =
                ap (ltb_ℤ (pos (length devs))) (sym is) ∙ enough in
              ground arith)
            idle in
        (r, rw (idle, enough, try_form) e, a)
  ]
]
