-- ===== src/TaskPath/Render.antt =====
-- What a task path stands for: a list of components, and the text that it is written as.
use dekit.Prelude.{Bool, true, false, ◌&&◌, ◌≡◌, ◌≢◌, List, [], ◌∷◌, ◌++◌, All}
use dekit.Prelude.Text.{Text, text_eq}
use dekit.TaskPath.{slash, TaskPath, is_valid_component_char}

-- A component: not empty, every character one that `is_valid_component_char` takes.
abbrev pub IsComponent : Text → Type 0
IsComponent c = (c ≢ []) × All (λ x. is_valid_component_char x ≡ true) c

-- The components with `/` between them.
unfoldable pub render : List Text → Text
render [] = []
render (c ∷ []) = c
render (c ∷ d ∷ cs) = c ++ slash ∷ render (d ∷ cs)

abbrev pub path_of : List Text → TaskPath
path_of cs = record { text = render cs }

-- The first list begins the second.
unfoldable pub is_prefix : List Text → List Text → Bool
unfolding text_eq
is_prefix [] cs = true
is_prefix (g ∷ gs) [] = false
is_prefix (g ∷ gs) (c ∷ cs) = text_eq g c && is_prefix gs cs
