-- ===== src/Prelude/Lists.antt =====
-- Lists measured by native numbers, and sets of ids as lists without repetition (`HashSet<TaskId>`).
use Prim.Native.Nat.{ℕ, zero, suc, ◌+◌}
use mathlib.Core.Path.{◌≡◌, refl}
use mathlib.Core.Bool.{Bool, false, ◌||◌}
use mathlib.Core.List.{List, [], ◌∷◌, ◌++◌}
use mathlib.Core.Logic.{inl, inr}
use native.Mathlib.Omega.{arith}
use dekit.Prelude.Tests.{◌==◌, if◌then◌else◌, Bool-cases}

module _ {ℓ} {A : Type ℓ} where
  abbrev pub length : List A → ℕ
  length [] = 0
  length (x ∷ xs) = suc (length xs)

  abbrev pub take : ℕ → List A → List A
  take zero xs = []
  take (suc n) [] = []
  take (suc n) (x ∷ xs) = x ∷ take n xs

  abbrev pub drop : ℕ → List A → List A
  drop zero xs = xs
  drop (suc n) [] = []
  drop (suc n) (x ∷ xs) = drop n xs

  pub length-append : (xs ys : List A) → length (xs ++ ys) ≡ length xs + length ys
  length-append [] ys = omega arith
  length-append (x ∷ xs) ys = omega (arith, length-append xs ys)

-- A predicate of every element, by recursion.
abbrev pub All {ℓ κ} : {E : Type ℓ} → (E → Type κ) → List E → Type κ
All Q [] = Unit
All Q (e ∷ l) = Q e × All Q l

pub All-append {ℓ κ} :
    {E : Type ℓ} (Q : E → Type κ) (l m : List E) → All Q l → All Q m → All Q (l ++ m)
All-append Q [] m left right = right
All-append Q (e ∷ l) m left right = (left.0, All-append Q l m left.1 right)

-- A set of ids: `contains`, `HashSet::insert` and `HashSet::remove`.
abbrev pub contains : ℕ → List ℕ → Bool
contains a [] = false
contains a (x ∷ xs) = x == a || contains a xs

abbrev pub set_insert : ℕ → List ℕ → List ℕ
set_insert a xs = if contains a xs then xs else xs ++ a ∷ []

abbrev pub set_remove : ℕ → List ℕ → List ℕ
set_remove a [] = []
set_remove a (x ∷ xs) = let rest = set_remove a xs in if x == a then rest else x ∷ rest

pub contains-append :
    (a : ℕ) (xs ys : List ℕ) → contains a (xs ++ ys) ≡ (contains a xs || contains a ys)
contains-append a [] ys = refl
contains-append a (x ∷ xs) ys = ground (arith, contains-append a xs ys)

pub contains-set_insert :
    (a b : ℕ) (xs : List ℕ) → contains b (set_insert a xs) ≡ (a == b || contains b xs)
contains-set_insert a b xs = ground (arith, contains-append b xs (a ∷ []))

pub contains-set_remove :
    (a b : ℕ) (xs : List ℕ)
    → contains b (set_remove a xs) ≡ (if a == b then false else contains b xs)
contains-set_remove a b [] = ground arith
contains-set_remove a b (x ∷ xs) = ground (arith, contains-set_remove a b xs)

pub All-imp {ℓ κ μ} :
    {A : Type ℓ} {P : A → Type κ} {Q : A → Type μ}
    → ((a : A) → P a → Q a)
    → (xs : List A) → All P xs
    → All Q xs
All-imp f [] h = tt
All-imp f (x ∷ xs) h = (f x h.0, All-imp f xs h.1)

-- A list without repetition, by recursion.
abbrev pub Distinct : List ℕ → Type 0
Distinct [] = Unit
Distinct (x ∷ xs) = (contains x xs ≡ false) × Distinct xs

pub Distinct-append :
    (a : ℕ) (xs : List ℕ) → contains a xs ≡ false → Distinct xs → Distinct (xs ++ a ∷ [])
Distinct-append a [] n d = (refl, tt)
Distinct-append a (x ∷ xs) n d =
    (ground (arith, contains-append x xs (a ∷ [])), Distinct-append a xs (ground arith) d.1)

pub set_remove-absent : (a : ℕ) (xs : List ℕ) → contains a xs ≡ false → set_remove a xs ≡ xs
set_remove-absent a [] n = refl
set_remove-absent a (x ∷ xs) n = ground (arith, set_remove-absent a xs)

pub Distinct-set_remove : (a : ℕ) (xs : List ℕ) → Distinct xs → Distinct (set_remove a xs)
Distinct-set_remove a [] d = tt
Distinct-set_remove a (x ∷ xs) d = elim (Bool-cases (x == a)) [
  | inl same ↦ rw same (Distinct-set_remove a xs d.1)
  | inr other ↦ rw other (ground (arith, contains-set_remove a x xs), Distinct-set_remove a xs d.1)
]

-- What holds of all but one holds of all once that one is taken out.
pub All-set_remove {κ μ} :
    {P : ℕ → Type κ} {Q : ℕ → Type μ} (a : ℕ)
    → ((x : ℕ) → (x == a) ≡ false → P x → Q x)
    → (xs : List ℕ) → All P xs
    → All Q (set_remove a xs)
All-set_remove a f [] h = tt
All-set_remove a f (x ∷ xs) h = elim (Bool-cases (x == a)) [
  | inl same ↦ rw same (All-set_remove a f xs h.1)
  | inr other ↦ rw other (f x other h.0, All-set_remove a f xs h.1)
]
