-- ===== src/TaskPath/Tree.antt =====
-- The tree that task paths make: parent, name, ancestors and moves, as they act on components.
use dekit.Prelude.{
  ℕ, zero, suc, ◌≡◌, refl, ap, ◌∙◌, Option, none, some, List, [], ◌∷◌, ◌++◌, All, length,
  length-append, take, drop,
}
use dekit.Prelude.Text.{Text}
use dekit.TaskPath.{slash, parent, name, with_parent, ancestor, rfind, nth_slash, or_else, join}
use dekit.TaskPath.Render.{IsComponent, render, path_of}
use dekit.TaskPath.Split.{
  rfind_slash_free, rfind-append, nth_slash_free, nth_slash-zero, nth_slash-suc, take-length,
  take_all, take_past, drop_past, shift,
}
use dekit.TaskPath.Refines.{slash_free, render_cons, render-append, join-render}

rfind-render_snoc :
    (b : Text) (bs : List Text) (c : Text)
    → IsComponent c
    → rfind (render ((b ∷ bs) ++ c ∷ [])) ≡ some (length (render (b ∷ bs)))
rfind-render_snoc b bs c h =
    ap rfind (render-append b bs c [])
    ∙ unfold render in rfind-append (render (b ∷ bs)) c (slash_free h)

rfind-render_one : (c : Text) → IsComponent c → rfind (render (c ∷ [])) ≡ none
unfolding render
rfind-render_one c h = rfind_slash_free c (slash_free h)

take-render_snoc :
    (b : Text) (bs : List Text) (c : Text)
    → take (length (render (b ∷ bs))) (render ((b ∷ bs) ++ c ∷ [])) ≡ render (b ∷ bs)
take-render_snoc b bs c =
    ap (take (length (render (b ∷ bs)))) (render-append b bs c [])
    ∙ take-length (render (b ∷ bs)) (slash ∷ render (c ∷ []))

drop-render_snoc :
    (b : Text) (bs : List Text) (c : Text)
    → drop (suc (length (render (b ∷ bs)))) (render ((b ∷ bs) ++ c ∷ [])) ≡ render (c ∷ [])
drop-render_snoc b bs c =
    ap (drop (suc (length (render (b ∷ bs))))) (render-append b bs c [])
    ∙ drop_past (render (b ∷ bs)) (render (c ∷ []))

-- The parent of a path is the path of the components before the last.
pub parent-render :
    (cs : List Text) (c : Text)
    → All IsComponent cs
    → IsComponent c
    → parent (path_of (cs ++ c ∷ [])) ≡ some (path_of cs)
unfolding parent
parent-render [] c h hc =
    let (x, t, e, n) = render_cons c [] hc in
    rw e (rw (← e) (rw (rfind-render_one c hc) (unfold render in refl)))
parent-render (b ∷ bs) c h hc =
    let (x, t, e, n) = render_cons b (bs ++ c ∷ []) h.0 in
    rw e (
      rw (← e) (
        rw (rfind-render_snoc b bs c hc)
          (ap (λ u. some (record { text = u })) (take-render_snoc b bs c))))

-- The name of a path is its last component.
pub name-render :
    (cs : List Text) (c : Text)
    → All IsComponent cs
    → IsComponent c
    → name (path_of (cs ++ c ∷ [])) ≡ c
unfolding name
name-render [] c h hc = rw (rfind-render_one c hc, name) (unfold render in refl)
name-render (b ∷ bs) c h hc =
    rw (rfind-render_snoc b bs c hc, name) (drop-render_snoc b bs c ∙ (unfold render in refl))

-- A move puts the name under the new parent.
pub with_parent-render :
    (cs ps : List Text) (c : Text)
    → All IsComponent cs
    → All IsComponent ps
    → IsComponent c
    → with_parent (path_of (cs ++ c ∷ [])) (path_of ps) ≡ path_of (ps ++ c ∷ [])
unfolding with_parent render
with_parent-render cs ps c h hp hc =
    ap (λ u. record { text = u })
      (ap (join (render ps)) (name-render cs c h hc) ∙ join-render ps (c ∷ []) hp (hc, tt))

take-shift :
    (o : Option ℕ) (c r : Text)
    → take (or_else (shift (length c) o) (length (c ++ slash ∷ r))) (c ++ slash ∷ r)
      ≡ c ++ slash ∷ take (or_else o (length r)) r
take-shift none c r = rw (length-append c (slash ∷ r)) (take_past (length r) c r)
take-shift (some k) c r = take_past k c r

take-nth_slash :
    (n : ℕ) (cs : List Text)
    → All IsComponent cs
    → take (or_else (nth_slash n (render cs)) (length (render cs))) (render cs)
      ≡ render (take (suc n) cs)
unfolding render
take-nth_slash n [] h = unfold nth_slash in refl
take-nth_slash zero (c ∷ []) h = rw (nth_slash_free zero c (slash_free h.0)) (take_all c)
take-nth_slash (suc n) (c ∷ []) h = rw (nth_slash_free (suc n) c (slash_free h.0)) (take_all c)
take-nth_slash zero (c ∷ d ∷ cs) h =
    rw (nth_slash-zero c (render (d ∷ cs)) (slash_free h.0))
      (take-length c (slash ∷ render (d ∷ cs)))
take-nth_slash (suc n) (c ∷ d ∷ cs) h = rw (nth_slash-suc n c (render (d ∷ cs)) (slash_free h.0)) (
    take-shift (nth_slash n (render (d ∷ cs))) c (render (d ∷ cs))
    ∙ ap (λ u. c ++ slash ∷ u) (take-nth_slash n (d ∷ cs) h.1))

-- The ancestor at a depth is the path of that many of the first components.
pub ancestor-render :
    (n : ℕ) (cs : List Text) → All IsComponent cs → ancestor (path_of cs) n ≡ path_of (take n cs)
unfolding ancestor
ancestor-render zero cs h = unfold render in refl
ancestor-render (suc n) cs h = ap (λ u. record { text = u }) (take-nth_slash n cs h)
