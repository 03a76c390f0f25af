-- ===== src/SubTrie/Registry.antt =====
-- The trie as the set of subscriptions that it stands for: who is registered where, and how.
use dekit.Prelude.{
  ℕ, ◌≡◌, refl, sym, ap, ◌∙◌, Bool, true, false, ◌&&◌, ◌||◌, Option, none, some, Option-cases, inl,
  inr, List, [], ◌∷◌, contains, contains-set_insert, set_insert, contains-set_remove, arith, ◌==◌,
  if◌then◌else◌,
}
use dekit.Prelude.Text.{Text, text_eq, text_eq_iff}
use dekit.TaskPath.{TaskPath, components}
use dekit.SubTrie.{
  SubMode, exact, subtree, SubNode, node, SubTrie, default, get_child, or_default, is_empty,
  subscribe_at, remove_one, extend, collect_from, is_subscribed_from, mode_eq, subscribe,
  unsubscribe, collect, is_subscribed,
}
use dekit.SubTrie.Children.{get_child-set_child, get_child-remove_child}

-- `x` is registered at exactly these components, in this mode.
unfoldable pub holds_at : List Text → SubMode → ℕ → SubNode → Bool
holds_at [] exact x (node e s ch) = contains x e
holds_at [] subtree x (node e s ch) = contains x s
holds_at (c ∷ cs) m x (node e s ch) = elim (get_child c ch) [
  | none ↦ false
  | some n ↦ holds_at cs m x n
]

unfoldable pub path_eq : List Text → List Text → Bool
path_eq [] [] = true
path_eq [] (d ∷ ds) = false
path_eq (c ∷ cs) [] = false
path_eq (c ∷ cs) (d ∷ ds) = text_eq c d && path_eq cs ds

pub holds_at-default : (cs : List Text) (m : SubMode) (x : ℕ) → holds_at cs m x default ≡ false
unfolding holds_at get_child
holds_at-default [] exact x = refl
holds_at-default [] subtree x = refl
holds_at-default (c ∷ cs) m x = refl

pub holds-subscribe_at :
    (cs ds : List Text) (m k : SubMode) (x y : ℕ) (n : SubNode)
    → holds_at ds k y (subscribe_at cs x m n)
      ≡ (path_eq cs ds && mode_eq m k && (x == y) || holds_at ds k y n)
unfolding holds_at subscribe_at path_eq
holds-subscribe_at [] [] exact exact x y (node e s ch) = contains-set_insert x y e
holds-subscribe_at [] [] exact subtree x y (node e s ch) = refl
holds-subscribe_at [] [] subtree exact x y (node e s ch) = refl
holds-subscribe_at [] [] subtree subtree x y (node e s ch) = contains-set_insert x y s
holds-subscribe_at [] (d ∷ ds) exact k x y (node e s ch) = refl
holds-subscribe_at [] (d ∷ ds) subtree k x y (node e s ch) = refl
holds-subscribe_at (c ∷ cs) [] m exact x y (node e s ch) = refl
holds-subscribe_at (c ∷ cs) [] m subtree x y (node e s ch) = refl
holds-subscribe_at (c ∷ cs) (d ∷ ds) m k x y (node e s ch) = ground (
  arith,
  text_eq_iff c d,
  holds_at-default ds k y,
  holds-subscribe_at cs ds m k x y (or_default (get_child c ch)),
  get_child-set_child c d (subscribe_at cs x m (or_default (get_child c ch))) ch,
)

-- A node that is empty holds nobody.
holds-is_empty :
    (cs : List Text) (m : SubMode) (x : ℕ) (n : SubNode)
    → is_empty n ≡ true
    → holds_at cs m x n ≡ false
unfolding holds_at get_child
holds-is_empty [] exact x (node e s ch) h = ground arith
holds-is_empty [] subtree x (node e s ch) h = ground arith
holds-is_empty (c ∷ cs) m x (node e s ch) h = ground arith

pub holds-remove_one :
    (cs ds : List Text) (m k : SubMode) (x y : ℕ) (n : SubNode)
    → holds_at ds k y (remove_one cs x m n)
      ≡ (if path_eq cs ds && mode_eq m k && (x == y) then false else holds_at ds k y n)
unfolding holds_at remove_one path_eq
holds-remove_one [] [] exact exact x y (node e s ch) = contains-set_remove x y e
holds-remove_one [] [] exact subtree x y (node e s ch) = refl
holds-remove_one [] [] subtree exact x y (node e s ch) = refl
holds-remove_one [] [] subtree subtree x y (node e s ch) = contains-set_remove x y s
holds-remove_one [] (d ∷ ds) exact k x y (node e s ch) = refl
holds-remove_one [] (d ∷ ds) subtree k x y (node e s ch) = refl
holds-remove_one (c ∷ cs) [] m exact x y (node e s ch) = ground arith
holds-remove_one (c ∷ cs) [] m subtree x y (node e s ch) = ground arith
holds-remove_one (c ∷ cs) (d ∷ ds) m k x y (node e s ch) = elim (Option-cases (get_child c ch)) [
  | inl gone ↦ ground (arith, text_eq_iff c d)
  | inr (n, at) ↦ ground (
    arith,
    text_eq_iff c d,
    holds-remove_one cs ds m k x y n,
    holds-is_empty ds k y (remove_one cs x m n),
    get_child-set_child c d (remove_one cs x m n) ch,
    get_child-remove_child c d ch,
  )
]

-- What a registry of subscriptions says of a path: somebody is told of it who is registered at it,
-- or at a path above it for the whole subtree.
unfoldable pub told : (List Text → SubMode → Bool) → List Text → Bool
told reg [] = reg [] subtree || reg [] exact
told reg (c ∷ cs) = reg [] subtree || told (λ ds. reg (c ∷ ds)) cs

told-none : (cs : List Text) → told (λ ds m. false) cs ≡ false
unfolding told
told-none [] = refl
told-none (c ∷ cs) = told-none cs

if_or : (b r : Bool) → (if b then true else r) ≡ (b || r)
if_or true r = refl
if_or false r = refl

told_child :
    (cs : List Text) (x : ℕ) (o : Option SubNode)
    → ((n : SubNode) → is_subscribed_from cs n x ≡ told (λ ds m. holds_at ds m x n) cs)
    → ◌≡◌ {A = Bool}
        (elim o [ none ↦ false | some n ↦ is_subscribed_from cs n x ])
        (told (λ ds m. elim o [ none ↦ false | some n ↦ holds_at ds m x n ]) cs)
told_child cs x none ih = sym (told-none cs)
told_child cs x (some n) ih = ih n

is_subscribed_from-told :
    (cs : List Text) (n : SubNode) (x : ℕ)
    → is_subscribed_from cs n x ≡ told (λ ds m. holds_at ds m x n) cs
unfolding is_subscribed_from told holds_at
is_subscribed_from-told [] (node e s ch) x = ground arith
is_subscribed_from-told (c ∷ cs) (node e s ch) x =
    if_or (contains x s) _
    ∙ ap (λ r. contains x s || r)
        (told_child cs x (get_child c ch) (λ n. is_subscribed_from-told cs n x))

pub contains-extend :
    (x : ℕ) (xs out : List ℕ) → contains x (extend xs out) ≡ (contains x out || contains x xs)
unfolding extend
contains-extend x [] out = ground arith
contains-extend x (a ∷ xs) out =
    ground (arith, contains-extend x xs (set_insert a out), contains-set_insert a x out)

contains-collect_from :
    (cs : List Text) (n : SubNode) (x : ℕ) (out : List ℕ)
    → contains x (collect_from cs n out) ≡ (contains x out || is_subscribed_from cs n x)
unfolding collect_from is_subscribed_from
contains-collect_from [] (node e s ch) x out =
    ground (arith, contains-extend x e (extend s out), contains-extend x s out)
contains-collect_from (c ∷ cs) (node e s ch) x out = elim (Option-cases (get_child c ch)) [
  | inl gone ↦ ground (arith, contains-extend x s out)
  | inr (n, at) ↦
      ground (arith, contains-extend x s out, contains-collect_from cs n x (extend s out))
]

-- The registry of a trie: `x` is subscribed at these components in this mode.
unfoldable pub holds : SubTrie → List Text → SubMode → ℕ → Bool
holds t cs m x = holds_at cs m x t.root

-- Subscribing adds exactly one subscription to the registry, and unsubscribing takes exactly that
-- one away, whoever else is registered there, above it or below it.
pub holds-subscribe-unsubscribe :
    (t : SubTrie) (x y : ℕ) (p : TaskPath) (m k : SubMode) (ds : List Text)
    → (holds (subscribe t x p m) ds k y
        ≡ (path_eq (components p) ds && mode_eq m k && (x == y) || holds t ds k y))
      × (holds (unsubscribe t x p m) ds k y ≡ (
          if path_eq (components p) ds && mode_eq m k && (x == y) then false else holds t ds k y))
unfolding holds subscribe unsubscribe
holds-subscribe-unsubscribe t x y p m k ds = (
  holds-subscribe_at (components p) ds m k x y t.root,
  holds-remove_one (components p) ds m k x y t.root,
)

-- A task is told of a path when the registry has it at the path, or above it for the subtree.
pub is_subscribed-told :
    (t : SubTrie) (x : ℕ) (p : TaskPath)
    → is_subscribed t x p ≡ told (λ ds m. holds t ds m x) (components p)
unfolding is_subscribed holds
is_subscribed-told t x p = is_subscribed_from-told (components p) t.root x

-- `collect` adds exactly the tasks for which `is_subscribed` holds, and drops none.
pub contains-collect :
    (t : SubTrie) (x : ℕ) (p : TaskPath) (out : List ℕ)
    → contains x (collect t p out) ≡ (contains x out || is_subscribed t x p)
unfolding collect is_subscribed
contains-collect t x p out = contains-collect_from (components p) t.root x out
