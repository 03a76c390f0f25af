-- ===== src/TaskPath.antt =====
-- src/kernel/task_path.rs: task paths as text. Positions are counted in code points, where the
-- source counts bytes: only `/`, which is ASCII, is looked for. The errors keep the cases of the
-- source's messages.
pub mod Render
mod Split
pub mod Refines
pub mod Tree
mod Tests
use Prim.Native.Nat.{compare, Ordering}
use dekit.Prelude.{
  ℕ, zero, suc, ◌+◌, ◌-◌, Bool, true, false, not, ◌&&◌, ◌||◌, Option, none, some, List, [], ◌∷◌,
  ◌++◌, map, leb, ◌==◌, if◌then◌else◌, length, take, drop,
}
use dekit.Prelude.Text.{Text, codes, text_eq}
use dekit.Prelude.Result.{Result, ok, err, ◌>>=◌, ◌>>◌}

abbrev pub slash : ℕ
slash = b'/'

-- `TaskPath(String)`
pub record TaskPath : Type 0 where
  pub text : Text

pub data InvalidPath : Type 0 where
  is_empty leading_slash empty_component : InvalidPath
  invalid_character : ℕ → InvalidPath

abbrev pub is_empty_text : Text → Bool
is_empty_text [] = true
is_empty_text (c ∷ s) = false

abbrev pub starts_with_slash : Text → Bool
starts_with_slash [] = false
starts_with_slash (c ∷ s) = c == slash

unfoldable pub is_valid_component_char : ℕ → Bool
is_valid_component_char c =
    leb b'a' c && leb c b'z'
    || leb b'A' c && leb c b'Z'
    || leb b'0' c && leb c b'9'
    || c == b'-'
    || c == b'_'
    || c == b'.'

unfoldable pub path_name : Text → Text
unfolding is_valid_component_char
path_name text =
    let name = map (λ c. if is_valid_component_char c then c else b'_') text in
    if is_empty_text name then codes "task" else name

-- `str::strip_prefix`
unfoldable pub strip_prefix : Text → Text → Option Text
strip_prefix [] text = some text
strip_prefix (p ∷ ps) [] = none
strip_prefix (p ∷ ps) (c ∷ text) = let rest = strip_prefix ps text in if p == c then rest else none

unfoldable pub is_at_or_under : Text → Text → Bool
unfolding strip_prefix
is_at_or_under path group = elim (strip_prefix group path) [
  | none ↦ false
  | some rest ↦ is_empty_text rest || starts_with_slash rest
]

unfoldable pub overlaps : Text → Text → Bool
unfolding is_at_or_under
overlaps a b = is_at_or_under a b || is_at_or_under b a

unfoldable pub join : Text → Text → Text
join [] child = child
join (p ∷ parent) [] = p ∷ parent
join (p ∷ parent) (c ∷ child) = (p ∷ parent) ++ slash ∷ c ∷ child

-- `str::split('/')`: always at least one piece.
abbrev pub push_front : ℕ → List Text → List Text
push_front c [] = (c ∷ []) ∷ []
push_front c (piece ∷ pieces) = (c ∷ piece) ∷ pieces

unfoldable pub split : Text → List Text
split [] = [] ∷ []
split (c ∷ s) = let pieces = split s in if c == slash then [] ∷ pieces else push_front c pieces

-- The loops of `new` and `check_glob` over a component's characters, and over the components.
unfoldable pub check_chars : Text → Result InvalidPath (Unit {0})
unfolding is_valid_component_char
check_chars [] = ok tt
check_chars (c ∷ s) =
    let rest = check_chars s in
    if is_valid_component_char c then rest else err (invalid_character c)

abbrev pub check_component : Text → Result InvalidPath (Unit {0})
check_component [] = err empty_component
check_component (c ∷ s) = check_chars (c ∷ s)

unfoldable pub check_components : List Text → Result InvalidPath (Unit {0})
unfolding check_chars
check_components [] = ok tt
check_components (c ∷ cs) = do check_component c; check_components cs

unfoldable pub new : Text → Result InvalidPath TaskPath
new s =
    if is_empty_text s
    then err is_empty
    else if starts_with_slash s
    then err leading_slash
    else do check_components (split s); ok (record { text = s })

unfoldable pub check_glob_components : List Text → Result InvalidPath (Unit {0})
unfolding check_chars text_eq
check_glob_components [] = ok tt
check_glob_components (c ∷ cs) =
    let rest = check_glob_components cs in
    if text_eq c (codes "*") || text_eq c (codes "**") then rest else do check_component c; rest

unfoldable pub check_glob : Text → Result InvalidPath (Unit {0})
unfolding check_glob_components split
check_glob pattern =
    if is_empty_text pattern
    then err is_empty
    else if starts_with_slash pattern
    then err leading_slash
    else check_glob_components (split pattern)

abbrev pub root : TaskPath
root = record { text = [] }

abbrev pub is_root : TaskPath → Bool
is_root p = is_empty_text p.text

-- `str::rfind('/')`
unfoldable pub rfind : Text → Option ℕ
rfind [] = none
rfind (c ∷ s) = elim (rfind s) [
  | some pos ↦ some (suc pos)
  | none ↦ if c == slash then some 0 else none
]

unfoldable pub parent : TaskPath → Option TaskPath
parent p = if is_root p then none else elim (rfind p.text) [
  | some pos ↦ some (record { text = take pos p.text })
  | none ↦ some root
]

unfoldable pub name : TaskPath → Text
name p = elim (rfind p.text) [ some pos ↦ drop (suc pos) p.text | none ↦ p.text ]

abbrev pub filter_nonempty : List Text → List Text
filter_nonempty [] = []
filter_nonempty (c ∷ cs) =
    let rest = filter_nonempty cs in if is_empty_text c then rest else c ∷ rest

unfoldable pub components : TaskPath → List Text
components p = filter_nonempty (split p.text)

unfoldable pub depth : TaskPath → ℕ
depth p = length (components p)

unfoldable pub with_parent : TaskPath → TaskPath → TaskPath
with_parent p parent' = record { text = join parent'.text (name p) }

-- `match_indices('/').nth(n)`
unfoldable pub nth_slash : ℕ → Text → Option ℕ
nth_slash n [] = none
nth_slash zero (c ∷ s) =
    if c == slash
    then some 0
    else elim (nth_slash zero s) [ none ↦ none | some pos ↦ some (suc pos) ]
nth_slash (suc n) (c ∷ s) = elim (nth_slash (if c == slash then n else suc n) s) [
  | none ↦ none
  | some pos ↦ some (suc pos)
]

abbrev pub or_else : Option ℕ → ℕ → ℕ
or_else none d = d
or_else (some n) d = n

unfoldable pub ancestor : TaskPath → ℕ → TaskPath
ancestor p zero = record { text = take 0 p.text }
ancestor p (suc n) = record { text = take (or_else (nth_slash n p.text) (length p.text)) p.text }

-- `Ord`: component by component, each as text.
unfoldable pub text_cmp : Text → Text → Ordering
text_cmp [] [] = Ordering.eq
text_cmp [] (b ∷ bs) = Ordering.lt
text_cmp (a ∷ as') [] = Ordering.gt
text_cmp (a ∷ as') (b ∷ bs) =
    let rest = text_cmp as' bs in
    elim (compare a b) [
      | Ordering.lt ↦ Ordering.lt
      | Ordering.eq ↦ rest
      | Ordering.gt ↦ Ordering.gt
    ]

unfoldable pub components_cmp : List Text → List Text → Ordering
unfolding text_cmp
components_cmp [] [] = Ordering.eq
components_cmp [] (b ∷ bs) = Ordering.lt
components_cmp (a ∷ as') [] = Ordering.gt
components_cmp (a ∷ as') (b ∷ bs) =
    let rest = components_cmp as' bs in
    elim (text_cmp a b) [
      | Ordering.lt ↦ Ordering.lt
      | Ordering.eq ↦ rest
      | Ordering.gt ↦ Ordering.gt
    ]

unfoldable pub cmp : TaskPath → TaskPath → Ordering
unfolding components_cmp components
cmp p q = components_cmp (components p) (components q)
