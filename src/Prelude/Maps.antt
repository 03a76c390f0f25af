-- ===== src/Prelude/Maps.antt =====
-- `HashMap`s keyed by ids, as association lists, with the laws that clients use.
use Prim.Native.Nat.{ℕ}
use mathlib.Core.Path.{◌≡◌, refl, subst}
use mathlib.Core.List.{List, [], ◌∷◌}
use mathlib.Core.Option.{Option, none, some}
use mathlib.Core.Logic.{inl, inr}
use native.Mathlib.Omega.{arith}
use dekit.Prelude.Tests.{◌==◌, if◌then◌else◌, Bool-cases}

abbrev pub Map {ℓ} : Type ℓ → Type ℓ
Map V = List (ℕ × V)

module _ {ℓ} {V : Type ℓ} where
  -- get
  unfoldable pub lookup : ℕ → Map V → Option V
  lookup key [] = none
  lookup key ((at, value) ∷ rest) = if at == key then some value else lookup key rest

  -- remove
  unfoldable pub remove : ℕ → Map V → Map V
  remove k [] = []
  remove k ((j, v) ∷ m) = let rest = remove k m in if j == k then rest else (j, v) ∷ rest

  -- insert: in place of the value under the key, if there is one
  unfoldable pub insert : ℕ → V → Map V → Map V
  insert key new [] = (key, new) ∷ []
  insert key new ((at, old) ∷ rest) =
      if at == key then (key, new) ∷ rest else (at, old) ∷ insert key new rest

  -- get_mut, with what is done to the value
  unfoldable pub modify : ℕ → (V → V) → Map V → Map V
  modify k f [] = []
  modify k f ((j, w) ∷ m) = if j == k then (j, f w) ∷ m else (j, w) ∷ modify k f m

  pub lookup-insert :
      (key j : ℕ) (new : V) (rest : Map V)
      → lookup j (insert key new rest) ≡ (if key == j then some new else lookup j rest)
  unfolding lookup insert
  lookup-insert key j new [] = refl
  lookup-insert key j new ((at, old) ∷ rest) = ground (arith, lookup-insert key j new rest)

  pub lookup-remove :
      (k j : ℕ) (m : Map V) → lookup j (remove k m) ≡ (if k == j then none else lookup j m)
  unfolding lookup remove
  lookup-remove k j [] = ground arith
  lookup-remove k j ((i, w) ∷ m) = ground (arith, lookup-remove k j m)

  -- The value under the key, changed if there is one.
  abbrev pub map_option : (V → V) → Option V → Option V
  map_option f none = none
  map_option f (some v) = some (f v)

  pub lookup-modify :
      (k j : ℕ) (f : V → V) (m : Map V)
      → lookup j (modify k f m) ≡ (if k == j then map_option f (lookup j m) else lookup j m)
  unfolding lookup modify
  lookup-modify k j f [] = ground arith
  lookup-modify k j f ((i, w) ∷ m) = ground (arith, lookup-modify k j f m)

pub some_injective {ℓ} : {A : Type ℓ} {a b : A} → some a ≡ some b → a ≡ b
some_injective e = cc

-- A predicate of every value.
abbrev pub AllValues {ℓ κ} : {V : Type ℓ} → (V → Type κ) → Map V → Type κ
AllValues P [] = Unit
AllValues P ((k, v) ∷ m) = P v × AllValues P m

module _ {ℓ κ} {V : Type ℓ} (P : V → Type κ) where
  pub AllValues-insert :
      (k : ℕ) (v : V) (m : Map V) → P v → AllValues P m → AllValues P (insert k v m)
  unfolding insert
  AllValues-insert k v [] p a = (p, tt)
  AllValues-insert k v ((j, w) ∷ m) p a = elim (Bool-cases (j == k)) [
    | inl same ↦ rw same (p, a.1)
    | inr other ↦ rw other (a.0, AllValues-insert k v m p a.1)
  ]

  pub AllValues-lookup : (k : ℕ) (v : V) (m : Map V) → AllValues P m → lookup k m ≡ some v → P v
  unfolding lookup
  AllValues-lookup k v [] a e = absurd (cc)
  AllValues-lookup k v ((j, w) ∷ m) a e = elim (Bool-cases (j == k)) [
    | inl same ↦ subst P (some_injective (rw same at e)) a.0
    | inr other ↦ AllValues-lookup k v m a.1 (rw other at e)
  ]

  pub AllValues-remove : (k : ℕ) (m : Map V) → AllValues P m → AllValues P (remove k m)
  unfolding remove
  AllValues-remove k [] a = tt
  AllValues-remove k ((j, w) ∷ m) a = elim (Bool-cases (j == k)) [
    | inl same ↦ rw same (AllValues-remove k m a.1)
    | inr other ↦ rw other (a.0, AllValues-remove k m a.1)
  ]
