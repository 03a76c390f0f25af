-- ===== src/PathTrie/Glob/Ordered.antt =====
-- Sorting the matches and dropping the repeated ones keeps each of them.
use dekit.Prelude.{
  ℕ, ◌≡◌, ◌⊎◌, ◌↔◌, inl, inr, refl, ap, ◌∙◌, true, Option, none, some, List, [], ◌∷◌, ◌++◌, if_elim,
  ==_iff, arith,
}
use dekit.Prelude.Text.{text_eq, text_eq_iff, Text}
use dekit.PathTrie.Glob.{
  Match, goes_after, insert_sorted, sort, same_match, same_option, dedup_after, dedup,
}

abbrev pub IsIn : {A : Type 0} → A → List A → Type 0
IsIn a [] = ⊥
IsIn a (b ∷ bs) = (b ≡ a) ⊎ IsIn a bs

pub IsIn-append :
    {A : Type 0} (a : A) (xs ys : List A) → (IsIn a xs ⊎ IsIn a ys) → IsIn a (xs ++ ys)
IsIn-append a [] ys (inl i) = absurd i
IsIn-append a [] ys (inr i) = i
IsIn-append a (x ∷ xs) ys (inl (inl e)) = inl e
IsIn-append a (x ∷ xs) ys (inl (inr i)) = inr (IsIn-append a xs ys (inl i))
IsIn-append a (x ∷ xs) ys (inr i) = inr (IsIn-append a xs ys (inr i))

pub append-IsIn : {A : Type 0} (a : A) (xs ys : List A) → IsIn a (xs ++ ys) → IsIn a xs ⊎ IsIn a ys
append-IsIn a [] ys i = inr i
append-IsIn a (x ∷ xs) ys (inl e) = inl (inl e)
append-IsIn a (x ∷ xs) ys (inr i) = elim (append-IsIn a xs ys i) [
  | inl j ↦ inl (inr j)
  | inr j ↦ inr j
]

IsIn-insert_sorted :
    (m a : Match) (bs : List Match) → ((a ≡ m) ⊎ IsIn m bs) → IsIn m (insert_sorted a bs)
unfolding insert_sorted
IsIn-insert_sorted m a [] i = i
IsIn-insert_sorted m a (b ∷ bs) i =
    if_elim (IsIn m) (goes_after a b) {x = b ∷ insert_sorted a bs} {y = a ∷ b ∷ bs}
      (λ after. elim i [
        | inl e ↦ inr (IsIn-insert_sorted m a bs (inl e))
        | inr (inl e) ↦ inl e
        | inr (inr j) ↦ inr (IsIn-insert_sorted m a bs (inr j))
      ])
      (λ before. i)

insert_sorted-IsIn :
    (m a : Match) (bs : List Match) → IsIn m (insert_sorted a bs) → (a ≡ m) ⊎ IsIn m bs
unfolding insert_sorted
insert_sorted-IsIn m a [] = λ i. i
insert_sorted-IsIn m a (b ∷ bs) =
    if_elim (λ l. IsIn m l → (a ≡ m) ⊎ IsIn m (b ∷ bs)) (goes_after a b)
      {x = b ∷ insert_sorted a bs} {y = a ∷ b ∷ bs}
      (λ after i. elim i [
        | inl e ↦ inr (inl e)
        | inr j ↦ elim (insert_sorted-IsIn m a bs j) [ inl e ↦ inl e | inr k ↦ inr (inr k) ]
      ])
      (λ before i. i)

IsIn-sort : (m : Match) (l : List Match) → IsIn m l → IsIn m (sort l)
unfolding sort
IsIn-sort m [] i = i
IsIn-sort m (a ∷ l) (inl e) = IsIn-insert_sorted m a (sort l) (inl e)
IsIn-sort m (a ∷ l) (inr i) = IsIn-insert_sorted m a (sort l) (inr (IsIn-sort m l i))

sort-IsIn : (m : Match) (l : List Match) → IsIn m (sort l) → IsIn m l
unfolding sort
sort-IsIn m [] i = i
sort-IsIn m (a ∷ l) i = elim (insert_sorted-IsIn m a (sort l) i) [
  | inl e ↦ inl e
  | inr j ↦ inr (sort-IsIn m l j)
]

same_option-eq : (a b : Option ℕ) → same_option a b ≡ true → a ≡ b
same_option-eq none none e = refl
same_option-eq none (some b) e = absurd (cc)
same_option-eq (some a) none e = absurd (cc)
same_option-eq (some a) (some b) e = ap some ((==_iff a b).0 e)

same_match-eq : (a b : Match) → same_match a b ≡ true → a ≡ b
same_match-eq (p, a) (q, b) e =
    let same_text : text_eq p.text q.text ≡ true = ground arith in
    let same_id : same_option a b ≡ true = ground arith in
    let path : p ≡ q =
      ap (λ (s : Text). record { text = s }) ((text_eq_iff p.text q.text).0 same_text) in
    ap (λ r. (r, a)) path ∙ ap (λ o. (q, o)) (same_option-eq a b same_id)

IsIn-dedup_after : (m a : Match) (l : List Match) → IsIn m l → (a ≡ m) ⊎ IsIn m (dedup_after a l)
unfolding dedup_after
IsIn-dedup_after m a [] i = absurd i
IsIn-dedup_after m a (b ∷ l) i =
    if_elim (λ r. (a ≡ m) ⊎ IsIn m r) (same_match a b) {x = dedup_after a l}
      {y = b ∷ dedup_after b l}
      (λ same. elim i [
        | inl e ↦ inl (same_match-eq a b same ∙ e)
        | inr j ↦ IsIn-dedup_after m a l j
      ])
      (λ other. elim i [ inl e ↦ inr (inl e) | inr j ↦ inr (IsIn-dedup_after m b l j) ])

dedup_after-IsIn : (m a : Match) (l : List Match) → IsIn m (dedup_after a l) → IsIn m l
unfolding dedup_after
dedup_after-IsIn m a [] = λ i. absurd i
dedup_after-IsIn m a (b ∷ l) =
    if_elim (λ r. IsIn m r → IsIn m (b ∷ l)) (same_match a b) {x = dedup_after a l}
      {y = b ∷ dedup_after b l} (λ same i. inr (dedup_after-IsIn m a l i))
      (λ other i. elim i [ inl e ↦ inl e | inr j ↦ inr (dedup_after-IsIn m b l j) ])

IsIn-dedup : (m : Match) (l : List Match) → IsIn m l → IsIn m (dedup l)
IsIn-dedup m [] i = i
IsIn-dedup m (a ∷ l) (inl e) = inl e
IsIn-dedup m (a ∷ l) (inr i) = IsIn-dedup_after m a l i

dedup-IsIn : (m : Match) (l : List Match) → IsIn m (dedup l) → IsIn m l
dedup-IsIn m [] i = i
dedup-IsIn m (a ∷ l) (inl e) = inl e
dedup-IsIn m (a ∷ l) (inr i) = inr (dedup_after-IsIn m a l i)

-- The matches are the same ones.
pub IsIn-dedup-sort : (m : Match) (l : List Match) → IsIn m l ↔ IsIn m (dedup (sort l))
IsIn-dedup-sort m l =
    ((λ i. IsIn-dedup m (sort l) (IsIn-sort m l i)), (λ i. sort-IsIn m l (dedup-IsIn m (sort l) i)))
