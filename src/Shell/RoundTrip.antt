-- ===== src/Shell/RoundTrip.antt =====
-- `split_argv` reads back what `join_argv` writes.
use mathlib.Core.List.{append_assoc}
use dekit.Prelude.{
  ◌≡◌, refl, sym, ap, ◌∙◌, Bool, true, false, not, ◌&&◌, ◌||◌, List, [], ◌∷◌, ◌++◌, if◌then◌else◌,
  contains, arith, Bool-cases, inl, inr, if_elim,
}
use dekit.Prelude.Text.{Text}
use dekit.Prelude.Result.{Result, ok, err}
use dekit.Shell.{
  SplitError, space, quote, double_quote, reserved, contains_text, is_nil, all_chars, end_word,
  bare, single, double, and_then, finish, split_from, split_argv, is_plain_char, starts_with,
  is_ok_and, is_plain, escape, quote_word, join_rest, join_argv,
}
use dekit.Shell.Chars.{split_single, split_double, split_plain, split_program}

-- How a written word is read: as itself, and then it can end.
abbrev ReadsAs : List Text → Text → Text → Text → Type 0
ReadsAs args arg written r =
    (quoted : Bool) × (split_from bare args [] false (written ++ r)
      ≡ split_from bare args arg quoted r)
    × ((quoted || not (is_nil arg)) ≡ true)
    × (end_word args arg quoted ≡ ok (args ++ arg ∷ []))

end_word-quoted : (args : List Text) (arg : Text) → end_word args arg true ≡ ok (args ++ arg ∷ [])
unfolding end_word
end_word-quoted args arg = ground arith

end_word-later :
    (args : List Text) (arg : Text)
    → is_nil args ≡ false
    → end_word args arg false ≡ ok (args ++ arg ∷ [])
unfolding end_word
end_word-later args arg n = ground arith

end_word-program :
    (arg : Text) (words : List Text)
    → is_nil arg ≡ false
    → split_from bare [] arg false [] ≡ ok words
    → end_word [] arg false ≡ ok (arg ∷ [])
unfolding end_word split_from
end_word-program arg words n e = elim (Bool-cases (contains_text reserved arg)) [
  | inl is ↦ absurd (ground arith)
  | inr other ↦ ground arith
]

single-ReadsAs :
    (args : List Text) (arg r : Text)
    → contains quote arg ≡ false
    → ReadsAs args arg (quote ∷ arg ++ quote ∷ []) r
unfolding split_from
single-ReadsAs args arg r h = (
  true,
  ap (split_from single args [] true) (append_assoc arg (quote ∷ []) r)
      ∙ split_single args [] arg r h,
  refl,
  end_word-quoted args arg,
)

double-ReadsAs :
    (args : List Text) (arg r : Text)
    → ReadsAs args arg (double_quote ∷ escape arg ++ double_quote ∷ []) r
unfolding split_from
double-ReadsAs args arg r = (
  true,
  ap (split_from double args [] true) (append_assoc (escape arg) (double_quote ∷ []) r)
      ∙ split_double args [] arg r,
  refl,
  end_word-quoted args arg,
)

and_inv :
    (a b c d : Bool) → (a && b && c && d) ≡ true → (a ≡ true) × (b ≡ true) × (c ≡ true) × (d ≡ true)
and_inv a b c d h = (ground arith, ground arith, ground arith, ground arith)

not_inv : (b : Bool) → not b ≡ true → b ≡ false
not_inv b h = ground arith

ok_inv :
    (r : Result SplitError (List Text)) (f : List Text → Bool)
    → is_ok_and r f ≡ true
    → (words : List Text) × (r ≡ ok words)
ok_inv (ok words) f h = (words, refl)
ok_inv (err e) f h = absurd (cc)

plain-ReadsAs :
    (args : List Text) (arg r : Text) → is_plain (is_nil args) arg ≡ true → ReadsAs args arg arg r
unfolding is_plain split_argv
plain-ReadsAs [] arg r h =
    let (some_char, no_tilde, plain, itself) =
      and_inv (not (is_nil arg)) (not (starts_with b'~' arg)) (all_chars is_plain_char arg) _ h in
    let (words, reads) = ok_inv (split_from bare [] [] false arg) _ itself in
    let (read, ends) = split_program [] [] arg r words plain no_tilde reads in
    (false, read, some_char, end_word-program arg words (not_inv (is_nil arg) some_char) ends)
plain-ReadsAs (a ∷ args) arg r h =
    let (some_char, no_tilde, plain, itself) =
      and_inv (not (is_nil arg)) (not (starts_with b'~' arg)) (all_chars is_plain_char arg) _ h in
    (
      false,
      split_plain (a ∷ args) [] arg r refl plain no_tilde,
      some_char,
      end_word-later (a ∷ args) arg refl,
    )

quote_word-ReadsAs :
    (args : List Text) (arg r : Text) → ReadsAs args arg (quote_word (is_nil args) arg) r
unfolding quote_word
quote_word-ReadsAs args arg r =
    if_elim (λ w. ReadsAs args arg w r) (is_plain (is_nil args) arg)
      (λ plain. plain-ReadsAs args arg r plain)
      (λ odd.
        if_elim (λ w. ReadsAs args arg w r) (not (contains quote arg))
          (λ free. single-ReadsAs args arg r (not_inv (contains quote arg) free))
          (λ quotes. double-ReadsAs args arg r))

finish-snoc : (args : List Text) (arg : Text) → finish (args ++ arg ∷ []) ≡ ok (args ++ arg ∷ [])
finish-snoc [] arg = refl
finish-snoc (a ∷ args) arg = refl

is_nil-snoc : (args : List Text) (arg : Text) → is_nil (args ++ arg ∷ []) ≡ false
is_nil-snoc [] arg = refl
is_nil-snoc (a ∷ args) arg = refl

-- Where a word can end, the characters run out or a space ends it.
word_last :
    (args : List Text) (arg : Text) (quoted : Bool)
    → (quoted || not (is_nil arg)) ≡ true
    → end_word args arg quoted ≡ ok (args ++ arg ∷ [])
    → split_from bare args arg quoted [] ≡ ok (args ++ arg ∷ [])
unfolding split_from
word_last args arg quoted some_word ends =
    ap (λ b. if b then and_then (end_word args arg quoted) finish else finish args) some_word
    ∙ ap (λ r. and_then r finish) ends
    ∙ finish-snoc args arg

word_space :
    (args : List Text) (arg r : Text) (quoted : Bool)
    → (quoted || not (is_nil arg)) ≡ true
    → end_word args arg quoted ≡ ok (args ++ arg ∷ [])
    → split_from bare args arg quoted (space ∷ r) ≡ split_from bare (args ++ arg ∷ []) [] false r
unfolding split_from
word_space args arg r quoted some_word ends =
    ap
      (λ b.
        and_then (if b then end_word args arg quoted else ok args)
          (λ args'. split_from bare args' [] false r))
      some_word
    ∙ ap (λ w. and_then w (λ args'. split_from bare args' [] false r)) ends

split-join_rest :
    (argv args : List Text) (arg : Text) (quoted : Bool)
    → (quoted || not (is_nil arg)) ≡ true
    → end_word args arg quoted ≡ ok (args ++ arg ∷ [])
    → split_from bare args arg quoted (join_rest argv) ≡ ok (args ++ arg ∷ argv)
unfolding join_rest
split-join_rest [] args arg quoted some_word ends = word_last args arg quoted some_word ends
split-join_rest (a ∷ argv) args arg quoted some_word ends =
    let args' = args ++ arg ∷ [] in
    let written = ap (λ b. quote_word b a ++ join_rest argv) (sym (is_nil-snoc args arg)) in
    let (q, read, some_a, ends_a) = quote_word-ReadsAs args' a (join_rest argv) in
    word_space args arg (quote_word false a ++ join_rest argv) quoted some_word ends
    ∙ ap (split_from bare args' [] false) written
    ∙ read
    ∙ split-join_rest argv args' a q some_a ends_a
    ∙ ap ok (append_assoc args (arg ∷ []) (a ∷ argv))

-- Whatever the words are, at least one, the line that is written of them is read back as exactly
-- these words.
pub split_argv-join_argv :
    (a : Text) (argv : List Text) → split_argv (join_argv (a ∷ argv)) ≡ ok (a ∷ argv)
unfolding split_argv join_argv
split_argv-join_argv a argv =
    let (q, read, some_a, ends_a) = quote_word-ReadsAs [] a (join_rest argv) in
    read ∙ split-join_rest argv [] a q some_a ends_a
