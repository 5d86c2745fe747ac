-- ===== src/Base/Sorting.antt =====
-- `sort.Slice` on a key, as a stable insertion sort.
use Prim.Native.Nat.{ℕ, zero, suc, ◌≤◌}
use mathlib.Core.Logic.{inl, inr}
use mathlib.Core.List.{List, [], ◌∷◌, Perm}
use mathlib.Core.List.Perm
use mathlib.Core.Path.{◌≡◌, refl, ap, ◌∙◌}
use native.Mathlib.Omega.{arith}
use custom_consensus.Base.Tests.{ltb, if◌then◌else◌, Bool-cases}
use custom_consensus.Base.Lists.{length, take, drop, All}

module _ {ℓ} {A : Type ℓ} (key : A → ℕ) where
  unfoldable pub insert_on : A → List A → List A
  insert_on a [] = a ∷ []
  insert_on a (b ∷ bs) =
      let rest = insert_on a bs in if ltb (key b) (key a) then b ∷ rest else a ∷ b ∷ bs

  unfoldable pub sort_on : List A → List A
  sort_on [] = []
  sort_on (a ∷ xs) = insert_on a (sort_on xs)

  abbrev pub KeyLe : A → A → Type 0
  KeyLe a b = key a ≤ key b

  -- Each key is at most those after it.
  abbrev pub SortedOn : List A → Type 0
  SortedOn [] = Unit
  SortedOn (a ∷ xs) = All (KeyLe a) xs × SortedOn xs

  All-insert_on {κ} :
      (P : A → Type κ) (a : A) (bs : List A) → P a → All P bs → All P (insert_on a bs)
  unfolding insert_on
  All-insert_on P a [] h k = (h, tt)
  All-insert_on P a (b ∷ bs) h (p, k) = elim (Bool-cases (ltb (key b) (key a))) [
    | inl after ↦ rw (after, insert_on) (p, All-insert_on P a bs h k)
    | inr before ↦ rw (before, insert_on) (h, (p, k))
  ]

  All-KeyLe : (a b : A) (xs : List A) → KeyLe a b → All (KeyLe b) xs → All (KeyLe a) xs
  All-KeyLe a b [] h k = tt
  All-KeyLe a b (x ∷ xs) h (p, k) = (omega arith, All-KeyLe a b xs h k)

  insert_on-SortedOn : (a : A) (bs : List A) → SortedOn bs → SortedOn (insert_on a bs)
  unfolding insert_on
  insert_on-SortedOn a [] s = (tt, tt)
  insert_on-SortedOn a (b ∷ bs) (le, s) = elim (Bool-cases (ltb (key b) (key a))) [
    | inl after ↦
        rw (after, insert_on)
          (All-insert_on (KeyLe b) a bs (ground arith) le, insert_on-SortedOn a bs s)
    | inr before ↦
        let h : KeyLe a b = ground arith in
        rw (before, insert_on) ((h, All-KeyLe a b bs h le), (le, s))
  ]

  pub sort_on-SortedOn : (xs : List A) → SortedOn (sort_on xs)
  unfolding sort_on
  sort_on-SortedOn [] = tt
  sort_on-SortedOn (a ∷ xs) = insert_on-SortedOn a (sort_on xs) (sort_on-SortedOn xs)

  insert_on-Perm : (a : A) (bs : List A) → Perm (insert_on a bs) (a ∷ bs)
  unfolding insert_on
  insert_on-Perm a [] = Perm.rfl
  insert_on-Perm a (b ∷ bs) = elim (Bool-cases (ltb (key b) (key a))) [
    | inr before ↦ rw (before, insert_on) Perm.rfl
    | inl after ↦
        rw (after, insert_on) (Perm.trans (Perm.cons b (insert_on-Perm a bs)) (Perm.swap a b bs))
  ]

  pub sort_on-Perm : (xs : List A) → Perm (sort_on xs) xs
  unfolding sort_on
  sort_on-Perm [] = Perm.rfl
  sort_on-Perm (a ∷ xs) = Perm.trans (insert_on-Perm a (sort_on xs)) (Perm.cons a (sort_on-Perm xs))

  length-insert_on : (a : A) (bs : List A) → length (insert_on a bs) ≡ suc (length bs)
  unfolding insert_on
  length-insert_on a [] = refl
  length-insert_on a (b ∷ bs) = ground (arith, length-insert_on a bs)

  pub length-sort_on : (xs : List A) → length (sort_on xs) ≡ length xs
  unfolding sort_on
  length-sort_on [] = refl
  length-sort_on (a ∷ xs) = length-insert_on a (sort_on xs) ∙ ap suc (length-sort_on xs)

  All-drop {κ} : (P : A → Type κ) (n : ℕ) (xs : List A) → All P xs → All P (drop n xs)
  All-drop P zero xs a = a
  All-drop P (suc n) [] a = tt
  All-drop P (suc n) (x ∷ xs) (p, a) = All-drop P n xs a

  -- The first keys are at most the others.
  pub take-drop-KeyLe :
      (n : ℕ) (xs : List A) → SortedOn xs → All (λ a. All (KeyLe a) (drop n xs)) (take n xs)
  take-drop-KeyLe zero xs s = tt
  take-drop-KeyLe (suc n) [] s = tt
  take-drop-KeyLe (suc n) (x ∷ xs) (le, s) = (All-drop (KeyLe x) n xs le, take-drop-KeyLe n xs s)
