-- ===== src/Base/Maps.antt =====
-- Go maps with text keys, as association lists. An iteration over a map meets the entries in the
-- order of the list; since the theorems range over all lists, they hold for every order.
use Prim.Native.Nat.{◌+◌, ◌≤◌}
use mathlib.Core.Path.{◌≡◌, refl, subst₂}
use mathlib.Core.Bool.{Bool, true, false}
use mathlib.Core.Logic.{inl, inr}
use mathlib.Core.Option.{Option, none, some}
use mathlib.Core.List.{List, [], ◌∷◌}
use native.Mathlib.Omega.{arith}
use custom_consensus.Base.Tests.{Bool-cases, if◌then◌else◌}
use custom_consensus.Base.Lists.{length, All}
use custom_consensus.Base.Texts.{Text, text_eq, text_eq_iff, text_eq_refl, eq_of_text_eq}

abbrev pub Map {ℓ} : Type ℓ → Type ℓ
Map V = List (Text × V)

module _ {ℓ} {V : Type ℓ} where
  -- `v, ok := m[k]`
  unfoldable pub get : Text → Map V → Option V
  get k [] = none
  get k ((j, v) ∷ m) = if text_eq j k then some v else get k m

  -- `m[k] = v`
  unfoldable pub put : Text → V → Map V → Map V
  put k v [] = (k, v) ∷ []
  put k v ((j, w) ∷ m) = if text_eq j k then (k, v) ∷ m else (j, w) ∷ put k v m

  -- `delete(m, k)`
  unfoldable pub del : Text → Map V → Map V
  del k [] = []
  del k ((j, w) ∷ m) = let rest = del k m in if text_eq j k then rest else (j, w) ∷ rest

  unfoldable pub is_some : Option V → Bool
  is_some none = false
  is_some (some v) = true

  unfoldable pub has : Text → Map V → Bool
  unfolding is_some
  has k m = is_some (get k m)

  pub get-put :
      (k j : Text) (v : V) (m : Map V)
      → get j (put k v m) ≡ (if text_eq k j then some v else get j m)
  unfolding get put
  get-put k j v [] = refl
  get-put k j v ((i, w) ∷ m) =
      ground (arith, text_eq_iff k j, text_eq_iff i k, text_eq_iff i j, get-put k j v m)

  pub get-put_self : (k : Text) (v : V) (m : Map V) → get k (put k v m) ≡ some v
  get-put_self k v m = ground (arith, get-put k k v m, text_eq_refl k)

  pub get-del : (k j : Text) (m : Map V) → get j (del k m) ≡ (if text_eq k j then none else get j m)
  unfolding get del
  get-del k j [] = ground arith
  get-del k j ((i, w) ∷ m) =
      ground (arith, text_eq_iff k j, text_eq_iff i k, text_eq_iff i j, get-del k j m)

  -- No key stands twice, as in every Go map.
  abbrev pub Distinct : Map V → Type ℓ
  Distinct [] = Unit
  Distinct ((k, v) ∷ m) = (get k m ≡ none) × Distinct m

  pub put-Distinct : (k : Text) (v : V) (m : Map V) → Distinct m → Distinct (put k v m)
  unfolding put get
  put-Distinct k v [] d = (refl, tt)
  put-Distinct k v ((j, w) ∷ m) (fresh, d) =
      ground
        (arith, fresh, d, text_eq_iff j k, text_eq_iff k j, get-put k j v m, put-Distinct k v m d)

  pub del-Distinct : (k : Text) (m : Map V) → Distinct m → Distinct (del k m)
  unfolding del
  del-Distinct k [] d = tt
  del-Distinct k ((j, w) ∷ m) (fresh, d) = ground (arith, fresh, get-del k j m, del-Distinct k m d)

  pub length-put_new :
      (k : Text) (v : V) (m : Map V) → get k m ≡ none → length (put k v m) ≡ length m + 1
  unfolding get put
  length-put_new k v [] e = omega arith
  length-put_new k v ((j, w) ∷ m) e = ground (arith, length-put_new k v m)

  pub length-put_old :
      (k : Text) (v w : V) (m : Map V) → get k m ≡ some w → length (put k v m) ≡ length m
  unfolding get put
  length-put_old k v w [] e = ground arith
  length-put_old k v w ((j, u) ∷ m) e = ground (arith, length-put_old k v w m)

  pub put_small : (k : Text) (v : V) (m : Map V) → length (put k v m) ≤ length m + 1
  unfolding put
  put_small k v [] = omega arith
  put_small k v ((j, w) ∷ m) = ground (arith, put_small k v m)

  pub del_small : (k : Text) (m : Map V) → length (del k m) ≤ length m
  unfolding del
  del_small k [] = omega arith
  del_small k ((j, w) ∷ m) = ground (arith, del_small k m)

  pub del_absent : (k : Text) (m : Map V) → get k m ≡ none → del k m ≡ m
  unfolding get del
  del_absent k [] e = refl
  del_absent k ((j, w) ∷ m) e = ground (arith, del_absent k m)

  pub length-del :
      (k : Text) (v : V) (m : Map V)
      → Distinct m
      → get k m ≡ some v
      → length (del k m) + 1 ≡ length m
  unfolding get del
  length-del k v [] d e = ground arith
  length-del k v ((j, w) ∷ m) (fresh, d) e =
      ground (arith, fresh, text_eq_iff j k, del_absent k m, length-del k v m d)

pub unwrap {ℓ} : {V : Type ℓ} {w v : V} → some w ≡ some v → w ≡ v
unwrap e = cc

-- A predicate of every entry of a map.
module _ {ℓ κ} {V : Type ℓ} (P : Text × V → Type κ) where
  pub All-put : (k : Text) (v : V) (m : Map V) → P (k, v) → All P m → All P (put k v m)
  unfolding put
  All-put k v [] h a = (h, tt)
  All-put k v ((j, w) ∷ m) h (b, a) = elim (Bool-cases (text_eq j k)) [
    | inl same ↦ rw (same, put) (h, a)
    | inr other ↦ rw (other, put) (b, All-put k v m h a)
  ]

  pub All-del : (k : Text) (m : Map V) → All P m → All P (del k m)
  unfolding del
  All-del k [] a = tt
  All-del k ((j, w) ∷ m) (b, a) = elim (Bool-cases (text_eq j k)) [
    | inl same ↦ rw (same, del) (All-del k m a)
    | inr other ↦ rw (other, del) (b, All-del k m a)
  ]

  pub All-get : (k : Text) (v : V) (m : Map V) → get k m ≡ some v → All P m → P (k, v)
  unfolding get
  All-get k v [] e a = absurd (ground arith)
  All-get k v ((j, w) ∷ m) e (b, a) = elim (Bool-cases (text_eq j k)) [
    | inl same ↦
        let key = eq_of_text_eq j k same in
        let value : some w ≡ some v = rw (same, get) at e in
        subst₂ (λ x y. P (x, y)) key (unwrap value) b
    | inr other ↦ All-get k v m (rw (other, get) at e) a
  ]
