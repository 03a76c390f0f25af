-- ===== src/Graph/Fresh.antt =====
-- What `seen.insert` of `closure` in src/kernel/kernel.rs adds to a list of ids, and how many ids
-- there can be.
use dekit.Prelude.{
  ℕ, suc, ◌≤◌, ◌≡◌, inl, inr, sym, ap, ◌∙◌, true, false, ◌||◌, Bool-cases, List, [], ◌∷◌, ◌++◌, All,
  arith, is_some, contains, contains-append, length, set_remove, Distinct, Distinct-set_remove,
  set_remove-absent, All-set_remove, subst, ◌==◌, ==_iff, ==_refl,
}
use dekit.Prelude.Maps
use dekit.Prelude.Maps.{Map, AllValues, AllValues-lookup}
use dekit.Graph.Intent.{fresh}

-- Taking an id out makes a list without repetition shorter by one at most.
pub length-set_remove : (a : ℕ) (l : List ℕ) → Distinct l → length l ≤ suc (length (set_remove a l))
length-set_remove a [] d = omega arith
length-set_remove a (x ∷ l) d = elim (Bool-cases (x == a)) [
  | inl same ↦
      let gone : contains a l ≡ false = ap (λ b. contains b l) (sym ((==_iff x a).0 same)) ∙ d.0 in
      rw (same, set_remove-absent a l gone) (omega arith)
  | inr other ↦ rw other (omega (arith, length-set_remove a l d.1))
]

-- As many different keys as a map has are all it has.
pub length-keys :
    {V : Type 0} (m : Map V) (l : List ℕ)
    → Distinct l
    → All (λ j. is_some (Maps.lookup j m) ≡ true) l
    → length l ≤ length m
unfolding Maps.lookup
length-keys [] [] d a = omega arith
length-keys [] (x ∷ l) d a = absurd (cc (a.0))
length-keys ((k, v) ∷ m) l d a = omega (
  arith,
  length-set_remove k l d,
  length-keys m (set_remove k l) (Distinct-set_remove k l d)
      (All-set_remove k (λ x other h. ground (arith, other, h)) l a),
)

Distinct-middle :
    (xs : List ℕ) (a : ℕ) (ys : List ℕ)
    → Distinct (xs ++ a ∷ ys)
    → (contains a (xs ++ ys) ≡ false) × Distinct (xs ++ ys)
Distinct-middle [] a ys d = d
Distinct-middle (x ∷ xs) a ys d =
    let (absent, rest) = Distinct-middle xs a ys d.1 in
    (
      ground (arith, d.0, absent, contains-append x xs (a ∷ ys)),
      (ground (arith, d.0, contains-append x xs (a ∷ ys), contains-append x xs ys), rest),
    )

module _ (seen : List ℕ) (dep : ℕ) (deps : List ℕ) where
  fresh-listed : contains dep seen ≡ true → fresh seen (dep ∷ deps) ≡ fresh seen deps
  unfolding fresh
  fresh-listed e =
      ap (λ b. elim b [ true ↦ fresh seen deps | false ↦ dep ∷ fresh (dep ∷ seen) deps ]) e

  fresh-new : contains dep seen ≡ false → fresh seen (dep ∷ deps) ≡ dep ∷ fresh (dep ∷ seen) deps
  unfolding fresh
  fresh-new e =
      ap (λ b. elim b [ true ↦ fresh seen deps | false ↦ dep ∷ fresh (dep ∷ seen) deps ]) e

-- What is fresh is not listed yet, and each once.
pub Distinct-fresh : (seen deps : List ℕ) → Distinct seen → Distinct (fresh seen deps ++ seen)
Distinct-fresh seen [] d = unfold fresh in d
Distinct-fresh seen (dep ∷ deps) d = elim (Bool-cases (contains dep seen)) [
  | inl listed ↦
      subst (λ l. Distinct (l ++ seen)) (sym (fresh-listed seen dep deps listed))
        (Distinct-fresh seen deps d)
  | inr new ↦
      subst (λ l. Distinct (l ++ seen)) (sym (fresh-new seen dep deps new))
        (Distinct-middle (fresh (dep ∷ seen) deps) dep seen
          (Distinct-fresh (dep ∷ seen) deps (new, d)))
]

pub contains-fresh :
    (y : ℕ) (seen deps : List ℕ)
    → contains y deps ≡ true
    → (contains y (fresh seen deps) || contains y seen) ≡ true
contains-fresh y seen [] h = absurd (cc)
contains-fresh y seen (dep ∷ deps) h = elim (Bool-cases (dep == y)) [
  | inl same ↦ elim (Bool-cases (contains dep seen)) [
    | inl listed ↦
        let is : contains y seen ≡ true =
          ap (λ b. contains b seen) (sym ((==_iff dep y).0 same)) ∙ listed in
        ground (arith, is)
    | inr new ↦
        subst (λ l. (contains y l || contains y seen) ≡ true) (sym (fresh-new seen dep deps new))
          (ground (arith, same))
  ]
  | inr other ↦ elim (Bool-cases (contains dep seen)) [
    | inl listed ↦
        subst (λ l. (contains y l || contains y seen) ≡ true)
          (sym (fresh-listed seen dep deps listed))
          (contains-fresh y seen deps (ground (arith, h, other)))
    | inr new ↦
        subst (λ l. (contains y l || contains y seen) ≡ true) (sym (fresh-new seen dep deps new))
          (ground (arith, other, contains-fresh y (dep ∷ seen) deps (ground (arith, h, other))))
  ]
]

pub All-fresh :
    (P : ℕ → Type 0) (seen deps : List ℕ)
    → ((y : ℕ) → contains y deps ≡ true → P y)
    → All P (fresh seen deps)
All-fresh P seen [] h = unfold fresh in tt
All-fresh P seen (dep ∷ deps) h =
    let later = λ (y : ℕ) (e : contains y deps ≡ true). h y (ground (arith, e)) in
    elim (Bool-cases (contains dep seen)) [
      | inl listed ↦
          subst (All P) (sym (fresh-listed seen dep deps listed)) (All-fresh P seen deps later)
      | inr new ↦
          subst (All P) (sym (fresh-new seen dep deps new))
            (h dep (ground (arith, ==_refl dep)), All-fresh P (dep ∷ seen) deps later)
    ]
