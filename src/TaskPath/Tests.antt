-- ===== src/TaskPath/Tests.antt =====
-- The cases of the tests of src/kernel/task_path.rs, and the theorems at concrete paths.
use dekit.Prelude.{◌≡◌, ◌≢◌, ◌↔◌, refl, true, false, some, List, [], ◌∷◌, ◌++◌, All, take}
use dekit.Prelude.Text.{Text, codes}
use dekit.Prelude.Result.{ok, err}
use dekit.TaskPath.{
  is_empty, leading_slash, empty_component, invalid_character, split, check_components, new,
  check_glob, join, is_at_or_under, parent, name, components, with_parent, ancestor,
  is_valid_component_char, nth_slash,
}
use dekit.TaskPath.Render.{IsComponent, render, path_of, is_prefix}
use dekit.TaskPath.Refines.{
  new_complete, new_sound, new_iff, join-render, is_at_or_under-render, components-render,
}
use dekit.TaskPath.Tree.{parent-render, name-render, with_parent-render, ancestor-render}

abbrev web_api : List Text
web_api = codes "web" ∷ codes "api" ∷ []

part-valid : IsComponent (codes "api") × IsComponent (codes "web")
unfolding is_valid_component_char
part-valid = (((λ e. cc), (refl, (refl, (refl, tt)))), ((λ e. cc), (refl, (refl, (refl, tt)))))

web_api-valid : All IsComponent web_api
web_api-valid = (part-valid.1, (part-valid.0, tt))

new_rejects :
    (new (codes "") ≡ err is_empty)
    × (new (codes "/web") ≡ err leading_slash)
    × (new (codes "web//api") ≡ err empty_component)
    × (new (codes "web@home") ≡ err (invalid_character b'@'))
unfolding new split check_components
new_rejects = (refl, refl, refl, refl)

new-web_api : new (render web_api) ≡ ok (path_of web_api)
new-web_api = new_complete (codes "web") (codes "api" ∷ []) web_api-valid

new_sound_example :
    (codes "web/api" ≡ codes "web/api")
    × All IsComponent (components (path_of web_api))
    × (components (path_of web_api) ≢ [])
    × (render (components (path_of web_api)) ≡ codes "web/api")
unfolding render
new_sound_example = new_sound (codes "web/api") (path_of web_api) new-web_api

new_iff_example : (new (codes "web/api") ≡ ok (path_of web_api)) ↔ (
    (c : Text) × (cs : List Text) × All IsComponent (c ∷ cs)
    × (render (c ∷ cs) ≡ codes "web/api")
    × (path_of web_api ≡ record { text = codes "web/api" }))
new_iff_example = new_iff (codes "web/api") (path_of web_api)

is_at_or_under_tests :
    (is_at_or_under (codes "website") (codes "web") ≡ false)
    × (is_at_or_under (codes "web/api") (codes "web") ≡ true)
unfolding is_at_or_under
is_at_or_under_tests = (refl, refl)

is_at_or_under-render_example :
    is_at_or_under (render web_api) (render (codes "web" ∷ []))
    ≡ is_prefix (codes "web" ∷ []) web_api
is_at_or_under-render_example =
    is_at_or_under-render web_api (codes "web") [] web_api-valid (part-valid.1, tt)

join-render_example : join (render web_api) (render web_api) ≡ render (web_api ++ web_api)
join-render_example = join-render web_api web_api web_api-valid web_api-valid

parent-render_example : parent (path_of web_api) ≡ some (path_of (codes "web" ∷ []))
parent-render_example =
    parent-render (codes "web" ∷ []) (codes "api") (part-valid.1, tt) part-valid.0

name-render_example : name (path_of web_api) ≡ codes "api"
name-render_example = name-render (codes "web" ∷ []) (codes "api") (part-valid.1, tt) part-valid.0

components-render_example : components (path_of web_api) ≡ web_api
components-render_example = components-render web_api web_api-valid

with_parent-render_example :
    with_parent (path_of web_api) (path_of web_api) ≡ path_of (web_api ++ codes "api" ∷ [])
with_parent-render_example =
    with_parent-render (codes "web" ∷ []) web_api (codes "api") (part-valid.1, tt) web_api-valid
      part-valid.0

ancestor-render_example : ancestor (path_of web_api) 1 ≡ path_of (take 1 web_api)
ancestor-render_example = ancestor-render 1 web_api web_api-valid

ancestors : ancestor (path_of web_api) 1 ≡ path_of (codes "web" ∷ [])
unfolding ancestor nth_slash render
ancestors = refl

globs :
    (check_glob (codes "a/**/c") ≡ ok tt)
    × (check_glob (codes "web*") ≡ err (invalid_character b'*'))
unfolding check_glob
globs = (refl, refl)
