-- ===== src/TaskPath/Split.antt =====
-- How `split`, `rfind`, `strip_prefix` and `nth_slash` act on a text with and without slashes.
use dekit.Prelude.{
  ℕ, zero, suc, ◌+◌, ◌≡◌, refl, ap, true, false, ◌&&◌, ◌||◌, Option, none, some, [], ◌∷◌, ◌++◌, All,
  length, take, drop, arith, ◌==◌,
}
use dekit.Prelude.Text.{Text, text_eq}
use dekit.TaskPath.{
  slash, is_valid_component_char, split, rfind, is_at_or_under, nth_slash, is_empty_text,
  starts_with_slash,
}
use native.Mathlib.Nat.{zero-add, suc-add}

abbrev pub IsSlashFree : Text → Type 0
IsSlashFree = All (λ x. (x == slash) ≡ false)

pub valid_char-ne-slash : (c : ℕ) → is_valid_component_char c ≡ true → (c == slash) ≡ false
unfolding is_valid_component_char
valid_char-ne-slash c h = ground arith

pub IsSlashFree-of_valid :
    (s : Text) → All (λ x. is_valid_component_char x ≡ true) s → IsSlashFree s
IsSlashFree-of_valid [] h = tt
IsSlashFree-of_valid (c ∷ s) h = (valid_char-ne-slash c h.0, IsSlashFree-of_valid s h.1)

pub split_slash_free : (s : Text) → IsSlashFree s → split s ≡ s ∷ []
unfolding split
split_slash_free [] h = refl
split_slash_free (c ∷ s) h = rw h.0 (rw (split_slash_free s h.1))

pub split-append : (s t : Text) → IsSlashFree s → split (s ++ slash ∷ t) ≡ s ∷ split t
unfolding split
split-append [] t h = refl
split-append (c ∷ s) t h = rw h.0 (rw (split-append s t h.1))

pub rfind_slash_free : (s : Text) → IsSlashFree s → rfind s ≡ none
unfolding rfind
rfind_slash_free [] h = refl
rfind_slash_free (c ∷ s) h = ground (arith, rfind_slash_free s h.1)

pub rfind-append : (s t : Text) → IsSlashFree t → rfind (s ++ slash ∷ t) ≡ some (length s)
unfolding rfind
rfind-append [] t h = ground (arith, rfind_slash_free t h)
rfind-append (c ∷ s) t h = ground (arith, rfind-append s t h)

pub nth_slash_free : (n : ℕ) (s : Text) → IsSlashFree s → nth_slash n s ≡ none
unfolding nth_slash
nth_slash_free n [] h = refl
nth_slash_free zero (c ∷ s) h = ground (arith, nth_slash_free zero s h.1)
nth_slash_free (suc n) (c ∷ s) h = rw h.0 (rw (nth_slash_free (suc n) s h.1))

abbrev pub shift : ℕ → Option ℕ → Option ℕ
shift k none = none
shift k (some pos) = some (k + suc pos)

pub nth_slash-zero :
    (s t : Text) → IsSlashFree s → nth_slash zero (s ++ slash ∷ t) ≡ some (length s)
unfolding nth_slash
nth_slash-zero [] t h = refl
nth_slash-zero (c ∷ s) t h = ground (arith, nth_slash-zero s t h.1)

pub nth_slash-suc :
    (n : ℕ) (s t : Text)
    → IsSlashFree s
    → nth_slash (suc n) (s ++ slash ∷ t) ≡ shift (length s) (nth_slash n t)
unfolding nth_slash
nth_slash-suc n [] t h = ground arith
nth_slash-suc n (c ∷ s) t h = rw h.0 (ground (arith, nth_slash-suc n s t h.1))

-- A text that is empty or goes on with a slash: what may follow a component.
abbrev pub IsBoundary : Text → Type 0
IsBoundary s = (is_empty_text s || starts_with_slash s) ≡ true

pub at_or_under_cons :
    (x y : ℕ) (g p : Text) → is_at_or_under (y ∷ p) (x ∷ g) ≡ ((x == y) && is_at_or_under p g)
unfolding is_at_or_under
at_or_under_cons x y g p = ground arith

pub at_or_under_nil : (x : ℕ) (g : Text) → is_at_or_under [] (x ∷ g) ≡ false
unfolding is_at_or_under
at_or_under_nil x g = refl

-- A last component of the group against a component of the path.
pub at_or_under_last :
    (g a tail : Text)
    → IsSlashFree g
    → IsSlashFree a
    → IsBoundary tail
    → is_at_or_under (a ++ tail) g ≡ text_eq g a
unfolding is_at_or_under text_eq
at_or_under_last [] [] tail hg ha b = b
at_or_under_last [] (y ∷ a) tail hg ha b = ha.0
at_or_under_last (x ∷ g) [] [] hg ha b = refl
at_or_under_last (x ∷ g) [] (y ∷ tail) hg ha b = ground arith
at_or_under_last (x ∷ g) (y ∷ a) tail hg ha b =
    ground (arith, at_or_under_last g a tail hg.1 ha.1 b)

-- A component of the group that another follows, against one of the path.
pub at_or_under_step :
    (g a g' p : Text)
    → IsSlashFree g
    → IsSlashFree a
    → is_at_or_under (a ++ slash ∷ p) (g ++ slash ∷ g') ≡ (text_eq g a && is_at_or_under p g')
unfolding is_at_or_under text_eq
at_or_under_step [] [] g' p hg ha = ground arith
at_or_under_step [] (y ∷ a) g' p hg ha = ground arith
at_or_under_step (x ∷ g) [] g' p hg ha = ground arith
at_or_under_step (x ∷ g) (y ∷ a) g' p hg ha = ground (arith, at_or_under_step g a g' p hg.1 ha.1)

-- A path of one component is not under a group of several.
pub at_or_under_short : (g a g' : Text) → IsSlashFree a → is_at_or_under a (g ++ slash ∷ g') ≡ false
unfolding is_at_or_under
at_or_under_short [] [] g' ha = refl
at_or_under_short [] (y ∷ a) g' ha = ground arith
at_or_under_short (x ∷ g) [] g' ha = refl
at_or_under_short (x ∷ g) (y ∷ a) g' ha = ground (arith, at_or_under_short g a g' ha.1)

pub take-length : (s t : Text) → take (length s) (s ++ t) ≡ s
take-length [] t = refl
take-length (c ∷ s) t = ap (λ u. c ∷ u) (take-length s t)

pub take_all : (s : Text) → take (length s) s ≡ s
take_all [] = refl
take_all (c ∷ s) = ap (λ u. c ∷ u) (take_all s)

pub take_past :
    (k : ℕ) (s t : Text) → take (length s + suc k) (s ++ slash ∷ t) ≡ s ++ slash ∷ take k t
take_past k [] t = rw zero-add
take_past k (c ∷ s) t = rw suc-add (ap (λ u. c ∷ u) (take_past k s t))

pub drop_past : (s t : Text) → drop (suc (length s)) (s ++ slash ∷ t) ≡ t
drop_past [] t = refl
drop_past (c ∷ s) t = drop_past s t
