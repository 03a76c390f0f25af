-- ===== src/SubTrie/Run.antt =====
-- Every trie that the operations build from the empty one.
use dekit.Prelude.{
  ℕ, ◌≡◌, ◌∙◌, sym, ap, inl, inr, Bool-cases, Bool, false, List, [], ◌∷◌, arith, ◌==◌,
  if◌then◌else◌,
}
use dekit.Prelude.Text.{Text}
use dekit.TaskPath.{TaskPath, components}
use dekit.SubTrie.{
  SubMode, subtree, exact, SubTrie, new, subscribe, unsubscribe, remove_subscriber, is_subscribed,
}
use dekit.SubTrie.Registry.{holds, told, is_subscribed-told}
use dekit.SubTrie.Covered.{
  IsCovered, new-IsCovered, subscribe-IsCovered, unsubscribe-IsCovered, remove_subscriber-IsCovered,
  holds-remove_subscriber,
}

pub data Op : Type 0 where
  subscribes unsubscribes : ℕ → TaskPath → SubMode → Op
  removes : ℕ → Op

abbrev pub step : SubTrie → Op → SubTrie
step t (subscribes x p m) = subscribe t x p m
step t (unsubscribes x p m) = unsubscribe t x p m
step t (removes x) = remove_subscriber t x

unfoldable pub run : List Op → SubTrie → SubTrie
run [] t = t
run (op ∷ ops) t = run ops (step t op)

step-IsCovered : (t : SubTrie) (op : Op) → IsCovered t → IsCovered (step t op)
step-IsCovered t (subscribes x p m) = subscribe-IsCovered t x p m
step-IsCovered t (unsubscribes x p m) = unsubscribe-IsCovered t x p m
step-IsCovered t (removes x) = remove_subscriber-IsCovered t x

pub run-IsCovered : (ops : List Op) (t : SubTrie) → IsCovered t → IsCovered (run ops t)
unfolding run
run-IsCovered [] t c = c
run-IsCovered (op ∷ ops) t c = run-IsCovered ops (step t op) (step-IsCovered t op c)

told-false :
    (reg : List Text → SubMode → Bool) (cs : List Text)
    → ((ds : List Text) (m : SubMode) → reg ds m ≡ false)
    → told reg cs ≡ false
unfolding told
told-false reg [] h = ground (arith, h [] subtree, h [] exact)
told-false reg (c ∷ cs) h =
    ground (arith, h [] subtree, told-false (λ ds. reg (c ∷ ds)) cs (λ ds. h (c ∷ ds)))

told-ext :
    (reg reg' : List Text → SubMode → Bool) (cs : List Text)
    → ((ds : List Text) (m : SubMode) → reg ds m ≡ reg' ds m)
    → told reg cs ≡ told reg' cs
unfolding told
told-ext reg reg' [] h = ground (arith, h [] subtree, h [] exact)
told-ext reg reg' (c ∷ cs) h =
    ground (
      arith,
      h [] subtree,
      told-ext (λ ds. reg (c ∷ ds)) (λ ds. reg' (c ∷ ds)) cs (λ ds. h (c ∷ ds)),
    )

-- What a trie says of subscribers once one is removed, if its index covers what it holds.
pub is_subscribed-remove_covered :
    (t : SubTrie) (x y : ℕ) (p : TaskPath)
    → IsCovered t
    → is_subscribed (remove_subscriber t x) y p ≡ (if x == y then false else is_subscribed t y p)
is_subscribed-remove_covered t x y p covered =
    let held = λ (ds : List Text) (m : SubMode). holds-remove_subscriber t x y ds m covered in
    elim (Bool-cases (x == y)) [
      | inl is ↦ rw is (
          is_subscribed-told (remove_subscriber t x) y p
          ∙ told-false _ (components p)
              (λ ds m. held ds m ∙ ap (λ b. if b then false else holds t ds m y) is))
      | inr other ↦ rw other (
          is_subscribed-told (remove_subscriber t x) y p
          ∙ told-ext _ _ (components p)
              (λ ds m. held ds m ∙ ap (λ b. if b then false else holds t ds m y) other)
          ∙ sym (is_subscribed-told t y p))
    ]

-- After any operations, a subscriber that is removed is told of no path, and every other
-- subscriber is told of exactly the paths that it was told of.
pub is_subscribed-remove_subscriber :
    (ops : List Op) (x y : ℕ) (p : TaskPath)
    → is_subscribed (remove_subscriber (run ops new) x) y p
      ≡ (if x == y then false else is_subscribed (run ops new) y p)
is_subscribed-remove_subscriber ops x y p =
    is_subscribed-remove_covered (run ops new) x y p (run-IsCovered ops new new-IsCovered)
