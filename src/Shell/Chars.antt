-- ===== src/Shell/Chars.antt =====
-- How the loops of `split_argv` go through what `join_argv` writes: quoted characters, and plain ones.
use mathlib.Core.List.{append-nil, append_assoc}
use dekit.Prelude.{
  ℕ, ◌≡◌, refl, sym, ap, ◌∙◌, Bool, true, false, not, ◌&&◌, ◌||◌, List, [], ◌∷◌, ◌++◌, ◌==◌,
  if◌then◌else◌, contains, arith, Bool-cases, inl, inr,
}
use dekit.Prelude.Text.{Text}
use dekit.Prelude.Result.{ok, err}
use dekit.Shell.{
  assignment, quote, double_quote, backslash, is_nil, all_chars, is_name, is_blank, operators, bare,
  single, double, split_from, is_plain_char, starts_with, escape,
}

-- A character that goes into a word as it is has none of the other meanings.
plain_char_lem :
    (c : ℕ)
    → is_plain_char c ≡ true
    → (is_blank c ≡ false)
      × ((c == quote) ≡ false)
      × ((c == double_quote) ≡ false)
      × ((c == backslash) ≡ false)
      × ((c == b'#') ≡ false)
      × (contains c operators ≡ false)
plain_char_lem c h =
    (ground arith, ground arith, ground arith, ground arith, ground arith, ground arith)

-- The condition on `#` and `~`.
starts_comment_lem :
    (hash tilde started : Bool)
    → hash ≡ false
    → (not started || not tilde) ≡ true
    → ((hash || tilde) && true && started) ≡ false
starts_comment_lem hash tilde started h g = ground arith

not_program : (sets is_first named : Bool) → is_first ≡ false → (sets && is_first && named) ≡ false
not_program sets is_first named h = ground arith

unquoted :
    (sets is_first named : Bool)
    → (sets && is_first && not false && named) ≡ (sets && is_first && named)
unquoted sets is_first named = ground arith

if_false : {A : Type 0} (b : Bool) (x y : A) → b ≡ false → (if b then x else y) ≡ y
if_false b x y h = rw h refl

module _ (args : List Text) where
  pub split_single :
      (cur s r : Text)
      → contains quote s ≡ false
      → split_from single args cur true (s ++ quote ∷ r) ≡ split_from bare args (cur ++ s) true r
  unfolding split_from
  split_single cur [] r h = ap (λ w. split_from bare args w true r) (sym (append-nil cur))
  split_single cur (c ∷ s) r h =
      ground (arith, split_single (cur ++ c ∷ []) s r, append_assoc cur (c ∷ []) s)

  pub split_double :
      (cur s r : Text)
      → split_from double args cur true (escape s ++ double_quote ∷ r)
        ≡ split_from bare args (cur ++ s) true r
  unfolding split_from escape
  split_double cur [] r = ap (λ w. split_from bare args w true r) (sym (append-nil cur))
  split_double cur (c ∷ s) r =
      ground (arith, split_double (cur ++ c ∷ []) s r, append_assoc cur (c ∷ []) s)

  -- `~` begins no word.
  abbrev IsGoing : Text → Text → Type 0
  IsGoing cur s = (not (is_nil cur) || not (starts_with b'~' s)) ≡ true

  plain_step :
      (cur s : Text) (c : ℕ)
      → is_plain_char c ≡ true
      → IsGoing cur (c ∷ s)
      → split_from bare args cur false (c ∷ s) ≡ (
          if c == b'=' && is_nil args && is_name cur
          then err (assignment cur)
          else split_from bare args (cur ++ c ∷ []) false s)
  unfolding split_from
  plain_step cur s c p g =
      let (blank, single', double', back, hash, operator) = plain_char_lem c p in
      if_false (is_blank c) _ _ blank
      ∙ if_false (c == quote) _ _ single'
      ∙ if_false (c == double_quote) _ _ double'
      ∙ if_false (c == backslash) _ _ back
      ∙ if_false _ _ _ (starts_comment_lem (c == b'#') (c == b'~') (is_nil cur) hash g)
      ∙ if_false (contains c operators) _ _ operator
      ∙ ap (λ b. if b then err (assignment cur) else split_from bare args (cur ++ c ∷ []) false s)
          (unquoted (c == b'=') (is_nil args) (is_name cur))

  IsGoing-snoc : (cur s : Text) (c : ℕ) → IsGoing (cur ++ c ∷ []) s
  IsGoing-snoc [] s c = refl
  IsGoing-snoc (d ∷ cur) s c = refl

  -- A plain word is taken as it is, where it cannot be an assignment.
  pub split_plain :
      (cur s r : Text)
      → is_nil args ≡ false
      → all_chars is_plain_char s ≡ true
      → IsGoing cur s
      → split_from bare args cur false (s ++ r) ≡ split_from bare args (cur ++ s) false r
  split_plain cur [] r n p g = ap (λ w. split_from bare args w false r) (sym (append-nil cur))
  split_plain cur (c ∷ s) r n p g =
      let here : is_plain_char c ≡ true = ground arith in
      let rest : all_chars is_plain_char s ≡ true = ground arith in
      plain_step cur (s ++ r) c here g
      ∙ ap
          (λ b.
            if b then err (assignment cur) else split_from bare args (cur ++ c ∷ []) false (s ++ r))
          (not_program (c == b'=') (is_nil args) (is_name cur) n)
      ∙ split_plain (cur ++ c ∷ []) s r n rest (IsGoing-snoc cur s c)
      ∙ ap (λ w. split_from bare args w false r) (append_assoc cur (c ∷ []) s)

  -- A plain word that is read as itself is read as itself before anything else.
  pub split_program :
      (cur s r : Text) (words : List Text)
      → all_chars is_plain_char s ≡ true
      → IsGoing cur s
      → split_from bare args cur false s ≡ ok words
      → (split_from bare args cur false (s ++ r) ≡ split_from bare args (cur ++ s) false r)
        × (split_from bare args (cur ++ s) false [] ≡ ok words)
  split_program cur [] r words p g e = (
    ap (λ w. split_from bare args w false r) (sym (append-nil cur)),
    ap (λ w. split_from bare args w false []) (append-nil cur) ∙ e,
  )
  split_program cur (c ∷ s) r words p g e =
      let here : is_plain_char c ≡ true = ground arith in
      let rest : all_chars is_plain_char s ≡ true = ground arith in
      let step = plain_step cur s c here g in
      elim (Bool-cases (c == b'=' && is_nil args && is_name cur)) [
        | inl sets ↦ absurd (ground arith)
        | inr taken ↦
            let go =
              split_program (cur ++ c ∷ []) s r words rest (IsGoing-snoc cur s c) (ground arith) in
            (
              plain_step cur (s ++ r) c here g
                  ∙ ap
                      (λ b.
                        if b
                        then err (assignment cur)
                        else split_from bare args (cur ++ c ∷ []) false (s ++ r))
                      taken
                  ∙ go.0
                  ∙ ap (λ w. split_from bare args w false r) (append_assoc cur (c ∷ []) s),
              ap (λ w. split_from bare args w false []) (sym (append_assoc cur (c ∷ []) s)) ∙ go.1,
            )
      ]
