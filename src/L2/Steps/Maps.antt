-- ===== src/L2/Steps/Maps.antt =====
-- Predicates on the maps of the service, through the writes and the pruning loops.
use custom_consensus.Base.{
  ◌≡◌, inl, inr, refl, true, false, Bool, Text, Map, List, [], ◌∷◌, some, none, get, put, has,
  get-put, text_eq_iff, arith, Bool-cases, All, Distinct, length, ◌==◌,
}
use custom_consensus.L2.Certificates.{drop_keys, thin_out, any_key}

module _ {ℓ} {V : Type ℓ} where
  pub get_of_has-false : (k : Text) (m : Map V) → has k m ≡ false → get k m ≡ none
  unfolding has
  get_of_has-false k m e = ground arith

  pub some_of_has : (k : Text) (m : Map V) → has k m ≡ true → (v : V) × (get k m ≡ some v)
  unfolding has
  some_of_has k m e = ground arith

  -- A write under a new key leaves the others.
  pub get-put_fresh :
      (b c : Text) (v w : V) (m : Map V)
      → get b m ≡ none
      → get c m ≡ some w
      → get c (put b v m) ≡ some w
  get-put_fresh b c v w m fresh found = ground (arith, get-put b c v m, text_eq_iff b c)

  get-drop_none :
      (drop : Text → V → Bool) (k : Text) (m : Map V)
      → get k m ≡ none
      → get k (drop_keys drop m) ≡ none
  unfolding get drop_keys
  get-drop_none drop k [] e = refl
  get-drop_none drop k ((j, v) ∷ m) e = ground (arith, get-drop_none drop k m)

  pub drop_keys-Distinct :
      (drop : Text → V → Bool) (m : Map V) → Distinct m → Distinct (drop_keys drop m)
  unfolding drop_keys
  drop_keys-Distinct drop [] d = tt
  drop_keys-Distinct drop ((k, v) ∷ m) (fresh, d) =
      ground (arith, get-drop_none drop k m fresh, drop_keys-Distinct drop m d)

  pub drop_keys-All {κ} :
      (P : Text × V → Type κ) (drop : Text → V → Bool) (m : Map V)
      → All P m
      → All P (drop_keys drop m)
  unfolding drop_keys
  drop_keys-All P drop [] a = tt
  drop_keys-All P drop ((k, v) ∷ m) (h, a) = elim (Bool-cases (drop k v)) [
    | inl gone ↦ rw (gone, drop_keys) (drop_keys-All P drop m a)
    | inr kept ↦ rw (kept, drop_keys) (h, drop_keys-All P drop m a)
  ]

  pub thin_out-All {κ} :
      (P : Text × Map V → Type κ) (drop : Text → V → Bool)
      → ((k : Text) (m : Map V) → P (k, m) → P (k, drop_keys drop m))
      → (m : Map (Map V)) → All P m
      → All P (thin_out drop m)
  unfolding thin_out
  thin_out-All P drop keep [] a = tt
  thin_out-All P drop keep ((k, m) ∷ rest) (h, a) =
      elim (Bool-cases (length (drop_keys drop m) == 0)) [
        | inl empty ↦ rw (empty, thin_out) (thin_out-All P drop keep rest a)
        | inr full ↦ rw (full, thin_out) (keep k m h, thin_out-All P drop keep rest a)
      ]

-- A predicate weakened throughout.
pub All-imp {ℓ κ μ} :
    {A : Type ℓ} (P : A → Type κ) (Q : A → Type μ) (xs : List A)
    → ((x : A) → P x → Q x)
    → All P xs
    → All Q xs
All-imp P Q [] f a = tt
All-imp P Q (x ∷ xs) f (h, a) = (f x h, All-imp P Q xs f a)

-- A key that a search finds has what all entries have.
pub any_key-All {κ} :
    (Q : Text × Unit {0} → Type κ) (p : Text → Bool) (m : Map (Unit {0}))
    → any_key p m ≡ true
    → All Q m
    → (k : Text) × (p k ≡ true) × Q (k, tt)
unfolding any_key
any_key-All Q p [] e a = absurd (ground arith)
any_key-All Q p ((k, u) ∷ m) e (h, a) = elim (Bool-cases (p k)) [
  | inl found ↦ (k, found, h)
  | inr other ↦ any_key-All Q p m (rw (other, any_key) at e) a
]
