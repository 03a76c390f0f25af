-- ===== src/Shell/Tests.antt =====
-- The cases of the tests of src/parse_shell.rs and src/spec.rs, and the theorems at concrete words.
use dekit.Prelude.{◌≡◌, refl, List, [], ◌∷◌}
use dekit.Prelude.Text.{Text, codes, text_eq}
use dekit.Prelude.Result.{ok, err}
use dekit.Shell.{
  assignment, keyword, no_words, would_expand, dollar, split_argv, split_from, end_word,
  contains_text, is_name, join_argv, join_rest, quote_word, is_plain, escape,
}
use dekit.Shell.RoundTrip.{split_argv-join_argv}

split_tests :
    (split_argv (codes "echo 'a b'  c") ≡ ok (codes "echo" ∷ codes "a b" ∷ codes "c" ∷ []))
    × (split_argv (codes "  ") ≡ err no_words)
    × (split_argv (codes "if x") ≡ err (keyword (codes "if")))
    × (split_argv (codes "A=1 x") ≡ err (assignment (codes "A")))
    × (split_argv (codes "a \"$b\"") ≡ err (would_expand dollar))
unfolding split_argv split_from end_word contains_text is_name text_eq
split_tests = (refl, refl, refl, refl, refl)

join_tests :
    (join_argv (codes "if" ∷ codes "a b" ∷ codes "x=1" ∷ codes "it's" ∷ [])
      ≡ codes "'if' 'a b' x=1 \"it's\"")
    × (join_argv (codes "" ∷ []) ≡ codes "''")
unfolding join_argv join_rest quote_word is_plain escape split_argv split_from end_word
    contains_text is_name text_eq
join_tests = (refl, refl)

abbrev test_words : List Text
test_words = codes "if" ∷ codes "it's $5" ∷ codes "" ∷ codes "x=1" ∷ []

split_argv-join_argv_example : split_argv (join_argv test_words) ≡ ok test_words
split_argv-join_argv_example =
    split_argv-join_argv (codes "if") (codes "it's $5" ∷ codes "" ∷ codes "x=1" ∷ [])
