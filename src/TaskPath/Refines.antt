-- ===== src/TaskPath/Refines.antt =====
-- Task paths refine lists of components: what the operations do to the text of a path is what
-- they say of its components.
use mathlib.Core.List.{append-nil, append_assoc}
use dekit.Prelude.{
  ℕ, ◌≡◌, ◌≢◌, refl, ap, sym, ◌∙◌, Bool, true, false, ◌&&◌, List, [], ◌∷◌, ◌++◌, All, length, arith,
  Bool-cases, inl, inr, ◌⊎◌, ◌↔◌, ◌==◌, ==_iff, subst,
}
use dekit.Prelude.Text.{Text, text_eq}
use dekit.Prelude.Result.{Result, ok, err}
use dekit.TaskPath.{
  slash, TaskPath, InvalidPath, is_valid_component_char, split, check_chars, check_components, new,
  join, components, filter_nonempty, depth, is_at_or_under,
}
use dekit.TaskPath.Render.{IsComponent, render, path_of, is_prefix}
use dekit.TaskPath.Split.{
  IsSlashFree, IsSlashFree-of_valid, valid_char-ne-slash, split_slash_free, split-append,
  at_or_under_nil, at_or_under_last, at_or_under_step, at_or_under_short,
}

pub slash_free : {c : Text} → IsComponent c → IsSlashFree c
slash_free {c} h = IsSlashFree-of_valid c h.1

split-render :
    (c : Text) (cs : List Text) → All IsComponent (c ∷ cs) → split (render (c ∷ cs)) ≡ c ∷ cs
unfolding render
split-render c [] h = split_slash_free c (IsSlashFree-of_valid c h.0.1)
split-render c (d ∷ cs) h =
    rw (split-append c (render (d ∷ cs)) (IsSlashFree-of_valid c h.0.1))
      (ap (λ u. c ∷ u) (split-render d cs h.1))

filter_components : (cs : List Text) → All IsComponent cs → filter_nonempty cs ≡ cs
filter_components [] h = refl
filter_components ([] ∷ cs) h = absurd (h.0.0 refl)
filter_components ((x ∷ c) ∷ cs) h = ap (λ u. (x ∷ c) ∷ u) (filter_components cs h.1)

-- The components of a path written from components are these.
pub components-render : (cs : List Text) → All IsComponent cs → components (path_of cs) ≡ cs
unfolding components
components-render [] h = unfold render split in refl
components-render (c ∷ cs) h = rw (split-render c cs h) (filter_components (c ∷ cs) h)

pub depth-render : (cs : List Text) → All IsComponent cs → depth (path_of cs) ≡ length cs
unfolding depth
depth-render cs h = ap length (components-render cs h)

-- Splitting a text and writing the pieces gives the text back.
push_front-render :
    (c : ℕ) (p : Text) (ps : List Text) → render ((c ∷ p) ∷ ps) ≡ c ∷ render (p ∷ ps)
unfolding render
push_front-render c p [] = refl
push_front-render c p (q ∷ ps) = refl

split_cons : (s : Text) → (p : Text) × (ps : List Text) × (split s ≡ p ∷ ps)
unfolding split
split_cons [] = ([], [], refl)
split_cons (c ∷ s) =
    let (p, ps, e) = split_cons s in
    elim (Bool-cases (c == slash)) [
      | inl is ↦ ([], split s, rw is)
      | inr not' ↦ (c ∷ p, ps, rw (not', e))
    ]

render_after_slash :
    (c : ℕ) (s : Text) (p : Text) (ps : List Text)
    → c ≡ slash
    → render (p ∷ ps) ≡ s
    → render ([] ∷ p ∷ ps) ≡ c ∷ s
unfolding render
render_after_slash c s p ps e h = cc

render-split : (s : Text) → render (split s) ≡ s
unfolding split
render-split [] = unfold render in refl
render-split (c ∷ s) =
    let (p, ps, e) = split_cons s in
    elim (Bool-cases (c == slash)) [
      | inl is ↦ rw is (
          rw e (
            render_after_slash c s p ps ((==_iff c slash).0 is)
              (sym (ap render e) ∙ render-split s)))
      | inr not' ↦
          rw (not', e)
            (push_front-render c p ps ∙ ap (λ u. c ∷ u) (sym (ap render e) ∙ render-split s))
    ]

Result-cases :
    (r : Result InvalidPath (Unit {0})) → ((r ≡ ok tt) ⊎ ((e : InvalidPath) × (r ≡ err e)))
Result-cases (ok u) = inl refl
Result-cases (err e) = inr (e, refl)

and_true : (b : Bool) → b ≡ (b && true)
and_true b = ground arith

and_false : (b : Bool) → false ≡ (b && false)
and_false b = ground arith

check_chars_sound :
    (s : Text) → check_chars s ≡ ok tt → All (λ x. is_valid_component_char x ≡ true) s
unfolding check_chars
check_chars_sound [] h = tt
check_chars_sound (c ∷ s) h = ground (arith, check_chars_sound s)

check_chars_complete :
    (s : Text) → All (λ x. is_valid_component_char x ≡ true) s → check_chars s ≡ ok tt
unfolding check_chars
check_chars_complete [] h = refl
check_chars_complete (c ∷ s) h = rw h.0 (check_chars_complete s h.1)

check_components_sound : (cs : List Text) → check_components cs ≡ ok tt → All IsComponent cs
unfolding check_components
check_components_sound [] h = tt
check_components_sound ([] ∷ cs) h = cc
check_components_sound ((x ∷ c) ∷ cs) h = (
  ((λ e. cc), ground (arith, check_chars_sound (x ∷ c))),
  ground (arith, check_components_sound cs),
)

check_components_complete : (cs : List Text) → All IsComponent cs → check_components cs ≡ ok tt
unfolding check_components
check_components_complete [] h = refl
check_components_complete ([] ∷ cs) h = absurd (h.0.0 refl)
check_components_complete ((x ∷ c) ∷ cs) h =
    rw (check_chars_complete (x ∷ c) h.0.1) (check_components_complete cs h.1)

-- The empty text, and one that begins with a slash, are not written from components.
pub render_cons :
    (c : Text) (cs : List Text)
    → IsComponent c
    → (x : ℕ) × (t : Text) × (render (c ∷ cs) ≡ x ∷ t) × ((x == slash) ≡ false)
unfolding render
render_cons [] cs h = absurd (h.0 refl)
render_cons (x ∷ c) [] h = (x, c, refl, valid_char-ne-slash x h.1.0)
render_cons (x ∷ c) (d ∷ cs) h =
    (x, c ++ slash ∷ render (d ∷ cs), refl, valid_char-ne-slash x h.1.0)

-- A text that valid components are written as is taken as it is.
pub new_complete :
    (c : Text) (cs : List Text)
    → All IsComponent (c ∷ cs)
    → new (render (c ∷ cs)) ≡ ok (path_of (c ∷ cs))
unfolding new
new_complete c cs h =
    let (x, t, e, n) = render_cons c cs h.0 in
    rw (e, n) (rw (← e) (rw (split-render c cs h) (rw (check_components_complete (c ∷ cs) h))))

new_inv :
    (x : ℕ) (s : Text) (p : TaskPath)
    → new (x ∷ s) ≡ ok p
    → (check_components (split (x ∷ s)) ≡ ok tt) × (p ≡ record { text = x ∷ s })
unfolding new
new_inv x s p h = elim (Result-cases (check_components (split (x ∷ s)))) [
  | inl e ↦ (e, ground arith)
  | inr (u, e) ↦ absurd (ground arith)
]

-- What `new` takes it keeps as it is, and its components are valid, at least one, and written as
-- the text.
pub new_sound :
    (s : Text) (p : TaskPath)
    → new s ≡ ok p
    → (p.text ≡ s)
      × All IsComponent (components p)
      × (components p ≢ [])
      × (render (components p) ≡ s)
unfolding components
new_sound [] p h = unfold new in absurd (cc)
new_sound (x ∷ s) p h =
    let (checked, is) = new_inv x s p h in
    let valid = check_components_sound (split (x ∷ s)) checked in
    let same =
      ap (λ (q : TaskPath). filter_nonempty (split q.text)) is
      ∙ filter_components (split (x ∷ s)) valid in
    let (c, cs, e) = split_cons (x ∷ s) in
    (
      ap (λ (q : TaskPath). q.text) is,
      rw same valid,
      (λ n. cc (same, e)),
      rw same (render-split (x ∷ s)),
    )

Parts-cases : (l : List Text) → (l ≡ []) ⊎ ((c : Text) × (cs : List Text) × (l ≡ c ∷ cs))
Parts-cases [] = inl refl
Parts-cases (c ∷ cs) = inr (c, cs, refl)

-- `new` takes exactly the texts that valid components, at least one, are written as, and answers
-- with the text as it is.
pub new_iff :
    (s : Text) (p : TaskPath)
    → (new s ≡ ok p) ↔ (
        (c : Text) × (cs : List Text) × All IsComponent (c ∷ cs)
        × (render (c ∷ cs) ≡ s)
        × (p ≡ record { text = s }))
new_iff s p = (
  (λ h.
      let (kept, valid, some_part, same) = new_sound s p h in
      let whole : p ≡ record { text = s } = ap (λ u. record { text = u }) kept in
      elim (Parts-cases (components p)) [
        | inl none' ↦ absurd (some_part none')
        | inr (c, cs, e) ↦ (c, cs, subst (All IsComponent) e valid, sym (ap render e) ∙ same, whole)
      ]),
  (λ (c, cs, valid, same, whole).
      sym (ap new same)
      ∙ new_complete c cs valid
      ∙ ap (λ (u : Text). ok (record { text = u })) same
      ∙ ap ok (sym whole)),
)

pub render-append :
    (a : Text) (as' : List Text) (b : Text) (bs : List Text)
    → render ((a ∷ as') ++ b ∷ bs) ≡ render (a ∷ as') ++ slash ∷ render (b ∷ bs)
unfolding render
render-append a [] b bs = refl
render-append a (c ∷ as') b bs =
    rw (render-append c as' b bs)
      (sym (append_assoc a (slash ∷ render (c ∷ as')) (slash ∷ render (b ∷ bs))))

-- Joining paths joins their components, the root included.
pub join-render :
    (as' bs : List Text)
    → All IsComponent as'
    → All IsComponent bs
    → join (render as') (render bs) ≡ render (as' ++ bs)
join-render [] bs ha hb = unfold join render in refl
join-render (a ∷ as') [] ha hb =
    let (x, t, e, n) = render_cons a as' ha.0 in rw (append-nil, e) (unfold join render in refl)
join-render (a ∷ as') (b ∷ bs) ha hb =
    let (x, t, e, n) = render_cons a as' ha.0 in
    let (y, u, e', n') = render_cons b bs hb.0 in
    rw (render-append a as' b bs) (rw (e, e') (unfold join in refl))

-- On texts, a path is at or under a path other than the root exactly when the components of the
-- second begin those of the first.
pub is_at_or_under-render :
    (as' : List Text) (g : Text) (gs : List Text)
    → All IsComponent as'
    → All IsComponent (g ∷ gs)
    → is_at_or_under (render as') (render (g ∷ gs)) ≡ is_prefix (g ∷ gs) as'
unfolding render is_prefix
is_at_or_under-render [] g gs ha hg =
    let (x, t, e, n) = render_cons g gs hg.0 in rw (ap (is_at_or_under []) e) (at_or_under_nil x t)
is_at_or_under-render (a ∷ []) g [] ha hg =
    ap (λ u. is_at_or_under u g) (sym (append-nil a))
    ∙ at_or_under_last g a [] (slash_free hg.0) (slash_free ha.0) refl
    ∙ and_true (text_eq g a)
is_at_or_under-render (a ∷ b ∷ as') g [] ha hg =
    at_or_under_last g a (slash ∷ render (b ∷ as')) (slash_free hg.0) (slash_free ha.0) refl
    ∙ and_true (text_eq g a)
is_at_or_under-render (a ∷ []) g (g' ∷ gs) ha hg =
    at_or_under_short g a (render (g' ∷ gs)) (slash_free ha.0) ∙ and_false (text_eq g a)
is_at_or_under-render (a ∷ b ∷ as') g (g' ∷ gs) ha hg =
    at_or_under_step g a (render (g' ∷ gs)) (render (b ∷ as')) (slash_free hg.0) (slash_free ha.0)
    ∙ ap (λ r. text_eq g a && r) (is_at_or_under-render (b ∷ as') g' gs ha.1 hg.1)
