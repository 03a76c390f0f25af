-- ===== src/Shell.antt =====
-- src/parse_shell.rs: a command line split into words the way sh splits a simple command, and
-- `join_argv` of src/spec.rs, which writes words as one line. The nested loops over one iterator of
-- characters are one recursion on the characters that are left, with the loop it is in. The errors
-- keep the cases of the source's messages.
pub mod Chars
pub mod RoundTrip
mod Tests
use dekit.Prelude.{
  ℕ, Bool, true, false, not, ◌&&◌, ◌||◌, List, [], ◌∷◌, ◌++◌, leb, ltb, ◌==◌, if◌then◌else◌,
  contains,
}
use dekit.Prelude.Result.{Result, ok, err}
use dekit.Prelude.Text.{Text, codes, text_eq}

pub data SplitError : Type 0 where
  newline_between no_single_quote no_double_quote escapes_nothing no_words : SplitError
  would_expand unsupported : ℕ → SplitError
  assignment keyword : Text → SplitError

abbrev pub space : ℕ
space = 32

abbrev pub newline : ℕ
newline = 10

abbrev pub quote : ℕ
quote = 39

abbrev pub double_quote : ℕ
double_quote = 34

abbrev pub backslash : ℕ
backslash = 92

abbrev pub dollar : ℕ
dollar = b'$'

abbrev pub backquote : ℕ
backquote = 96

abbrev pub reserved : List Text
reserved =
    codes "!"
    ∷ codes "{"
    ∷ codes "}"
    ∷ codes "case"
    ∷ codes "do"
    ∷ codes "done"
    ∷ codes "elif"
    ∷ codes "else"
    ∷ codes "esac"
    ∷ codes "fi"
    ∷ codes "for"
    ∷ codes "if"
    ∷ codes "in"
    ∷ codes "then"
    ∷ codes "until"
    ∷ codes "while"
    ∷ []

unfoldable pub contains_text : List Text → Text → Bool
unfolding text_eq
contains_text [] word = false
contains_text (t ∷ ts) word = text_eq t word || contains_text ts word

abbrev pub is_nil : {A : Type 0} → List A → Bool
is_nil [] = true
is_nil (x ∷ xs) = false

abbrev pub is_ascii_alphabetic : ℕ → Bool
is_ascii_alphabetic c = leb b'a' c && leb c b'z' || leb b'A' c && leb c b'Z'

abbrev pub is_ascii_alphanumeric : ℕ → Bool
is_ascii_alphanumeric c = is_ascii_alphabetic c || leb b'0' c && leb c b'9'

abbrev pub all_chars : (ℕ → Bool) → Text → Bool
all_chars f [] = true
all_chars f (c ∷ s) = f c && all_chars f s

unfoldable pub is_name : Text → Bool
is_name [] = false
is_name (c ∷ s) =
    (is_ascii_alphabetic c || c == b'_') && all_chars (λ c. is_ascii_alphanumeric c || c == b'_') s

-- A word ends: the words with it, unless the program is a keyword.
unfoldable pub end_word : List Text → Text → Bool → Result SplitError (List Text)
end_word args word quoted =
    if is_nil args && not quoted && contains_text reserved word
    then err (keyword word)
    else ok (args ++ word ∷ [])

abbrev pub is_blank : ℕ → Bool
is_blank c = c == space || c == 9 || c == newline

-- `|&;<>()$`*?[`
abbrev pub operators : List ℕ
operators =
    b'|' ∷ b'&' ∷ b';' ∷ b'<' ∷ b'>' ∷ b'(' ∷ b')' ∷ dollar ∷ backquote ∷ b'*' ∷ b'?' ∷ b'[' ∷ []

-- What `\` keeps its meaning before, between double quotes.
abbrev pub is_escaped : ℕ → Bool
is_escaped c = c == double_quote || c == backslash || c == dollar || c == backquote

-- Which loop the next character comes to: between words or in one, after a `\` there, in single
-- quotes, in double quotes, and after a `\` there.
pub data At : Type 0 where
  bare escaped single double double_escaped : At

abbrev pub and_then :
    Result SplitError (List Text)
    → (List Text → Result SplitError (List Text))
    → Result SplitError (List Text)
and_then (ok args) f = f args
and_then (err e) f = err e

-- The words, once the characters run out.
abbrev pub finish : List Text → Result SplitError (List Text)
finish [] = err no_words
finish (a ∷ args) = ok (a ∷ args)

unfoldable pub split_from : At → List Text → Text → Bool → Text → Result SplitError (List Text)
split_from bare args cur quoted [] =
    if quoted || not (is_nil cur) then and_then (end_word args cur quoted) finish else finish args
split_from escaped args cur quoted [] = err escapes_nothing
split_from single args cur quoted [] = err no_single_quote
split_from double args cur quoted [] = err no_double_quote
split_from double_escaped args cur quoted [] = err no_double_quote
split_from bare args cur quoted (c ∷ s) =
    if is_blank c
    then and_then (if quoted || not (is_nil cur) then end_word args cur quoted else ok args)
        (λ args'.
          if c == newline && not (is_nil args') && not (all_chars is_blank s)
          then err newline_between
          else split_from bare args' [] false s)
    else if c == quote
    then split_from single args cur true s
    else if c == double_quote
    then split_from double args cur true s
    else if c == backslash
    then split_from escaped args cur quoted s
    else if (c == b'#' || c == b'~') && not quoted && is_nil cur
    then err (unsupported c)
    else if contains c operators
    then err (unsupported c)
    else if c == b'=' && is_nil args && not quoted && is_name cur
    then err (assignment cur)
    else split_from bare args (cur ++ c ∷ []) quoted s
split_from escaped args cur quoted (c ∷ s) =
    if c == newline
    then split_from bare args cur quoted s
    else split_from bare args (cur ++ c ∷ []) true s
split_from single args cur quoted (c ∷ s) =
    if c == quote
    then split_from bare args cur quoted s
    else split_from single args (cur ++ c ∷ []) quoted s
split_from double args cur quoted (c ∷ s) =
    if c == double_quote
    then split_from bare args cur quoted s
    else if c == backslash
    then split_from double_escaped args cur quoted s
    else if c == dollar || c == backquote
    then err (would_expand c)
    else split_from double args (cur ++ c ∷ []) quoted s
split_from double_escaped args cur quoted (c ∷ s) =
    if is_escaped c
    then split_from double args (cur ++ c ∷ []) quoted s
    else if c == newline
    then split_from double args cur quoted s
    else split_from double args (cur ++ backslash ∷ c ∷ []) quoted s

unfoldable pub split_argv : Text → Result SplitError (List Text)
split_argv s = split_from bare [] [] false s

-- `"-_./:=,+@%^~"`
abbrev pub plain_marks : List ℕ
plain_marks = b'-' ∷ b'_' ∷ b'.' ∷ b'/' ∷ b':' ∷ b'=' ∷ b',' ∷ b'+' ∷ b'@' ∷ b'%' ∷ b'^' ∷ b'~' ∷ []

-- Of the characters that are not ASCII, all; so `is_alphanumeric` is asked only of ASCII.
abbrev pub is_plain_char : ℕ → Bool
is_plain_char c = is_ascii_alphanumeric c || contains c plain_marks || leb 128 c

abbrev pub starts_with : ℕ → Text → Bool
starts_with c [] = false
starts_with c (d ∷ s) = d == c

abbrev pub words_eq : List Text → List Text → Bool
words_eq [] [] = true
words_eq [] (b ∷ bs) = false
words_eq (a ∷ as') [] = false
words_eq (a ∷ as') (b ∷ bs) = text_eq a b && words_eq as' bs

abbrev pub is_ok_and : Result SplitError (List Text) → (List Text → Bool) → Bool
is_ok_and (ok args) f = f args
is_ok_and (err e) f = false

-- Whether the word is written as it is; the program can be a keyword or an assignment too.
unfoldable pub is_plain : Bool → Text → Bool
is_plain is_first arg =
    not (is_nil arg)
    && not (starts_with b'~' arg)
    && all_chars is_plain_char arg
    && (not is_first || is_ok_and (split_argv arg) (λ words. words_eq words (arg ∷ [])))

unfoldable pub escape : Text → Text
escape [] = []
escape (c ∷ s) = if is_escaped c then backslash ∷ c ∷ escape s else c ∷ escape s

unfoldable pub quote_word : Bool → Text → Text
quote_word is_first arg =
    if is_plain is_first arg
    then arg
    else if not (contains quote arg)
    then quote ∷ arg ++ quote ∷ []
    else double_quote ∷ escape arg ++ double_quote ∷ []

unfoldable pub join_rest : List Text → Text
join_rest [] = []
join_rest (a ∷ argv) = space ∷ quote_word false a ++ join_rest argv

unfoldable pub join_argv : List Text → Text
join_argv [] = []
join_argv (a ∷ argv) = quote_word true a ++ join_rest argv
