-- ===== src/SubTrie/Covered.antt =====
-- The record of each subscriber's subscriptions covers what the trie holds, so that removing a
-- subscriber removes all of it.
use dekit.Prelude.{
  ℕ, ◌≡◌, refl, ap, Bool, true, false, ◌&&◌, ◌||◌, Bool-cases, inl, inr, some, Option-cases, List,
  [], ◌∷◌, ◌++◌, arith, ◌==◌, if◌then◌else◌,
}
use dekit.Prelude.Maps
use dekit.Prelude.Maps.{Map, lookup-insert, lookup-remove}
use dekit.Prelude.Text.{Text, text_eq, text_eq_iff}
use dekit.TaskPath.{TaskPath, components}
use dekit.SubTrie.{
  SubMode, SubNode, SubTrie, Subscription, new, entry, mode_eq, has_subscription, add_subscription,
  drop_subscription, same_subscription, unrecord, subscribe, unsubscribe, remove_all, remove_one,
  remove_subscriber,
}
use dekit.SubTrie.Registry.{
  holds_at, holds_at-default, holds, path_eq, holds-subscribe_at, holds-remove_one,
}

-- One of the subscriptions is at these components in this mode.
unfoldable pub covers : List Text → SubMode → List Subscription → Bool
covers ds k [] = false
covers ds k ((p, m) ∷ subs) = path_eq (components p) ds && mode_eq m k || covers ds k subs

-- Whatever the trie holds for a subscriber, its record has.
pub record IsCovered (t : SubTrie) : Type 0 where
  pub at :
      (x : ℕ) (ds : List Text) (k : SubMode)
      → holds t ds k x ≡ true
      → covers ds k (entry (Maps.lookup x t.by_subscriber)) ≡ true

covers-append :
    (ds : List Text) (k : SubMode) (as' bs : List Subscription)
    → covers ds k (as' ++ bs) ≡ (covers ds k as' || covers ds k bs)
unfolding covers
covers-append ds k [] bs = refl
covers-append ds k ((p, m) ∷ as') bs = ground (arith, covers-append ds k as' bs)

components_of_text : (p q : TaskPath) → text_eq q.text p.text ≡ true → components q ≡ components p
components_of_text p q e =
    ap (λ u. components (record { text = u })) ((text_eq_iff q.text p.text).0 e)

-- Equal subscriptions are at the same place.
same_place :
    (q : TaskPath) (l : SubMode) (p : TaskPath) (m : SubMode) (ds : List Text) (k : SubMode)
    → same_subscription (q, l) (p, m) ≡ true
    → (path_eq (components q) ds && mode_eq l k) ≡ (path_eq (components p) ds && mode_eq m k)
same_place q l p m ds k e = ground (arith, components_of_text p q)

-- A recorded subscription covers its own place.
covers_of_has :
    (p : TaskPath) (m : SubMode) (ds : List Text) (k : SubMode) (subs : List Subscription)
    → has_subscription (p, m) subs ≡ true
    → (path_eq (components p) ds && mode_eq m k) ≡ true
    → covers ds k subs ≡ true
unfolding covers has_subscription
covers_of_has p m ds k [] h e = h
covers_of_has p m ds k ((q, l) ∷ subs) h e =
    ground (arith, same_place q l p m ds k, covers_of_has p m ds k subs)

covers-add :
    (p : TaskPath) (m : SubMode) (ds : List Text) (k : SubMode) (subs : List Subscription)
    → (path_eq (components p) ds && mode_eq m k || covers ds k subs) ≡ true
    → covers ds k (add_subscription (p, m) subs) ≡ true
unfolding add_subscription
covers-add p m ds k subs h = elim (Bool-cases (has_subscription (p, m) subs)) [
  | inl old ↦ ground (arith, covers_of_has p m ds k subs old)
  | inr added ↦ rw added (unfold covers in ground (arith, covers-append ds k subs ((p, m) ∷ [])))
]

covers-drop :
    (p : TaskPath) (m : SubMode) (ds : List Text) (k : SubMode) (subs : List Subscription)
    → (path_eq (components p) ds && mode_eq m k) ≡ false
    → covers ds k subs ≡ true
    → covers ds k (drop_subscription (p, m) subs) ≡ true
unfolding covers drop_subscription
covers-drop p m ds k [] n h = h
covers-drop p m ds k ((q, l) ∷ subs) n h =
    ground (arith, same_place q l p m ds k, covers-drop p m ds k subs n)

holds-remove_all :
    (subs : List Subscription) (ds : List Text) (k : SubMode) (x y : ℕ) (n : SubNode)
    → holds_at ds k y (remove_all subs x n)
      ≡ (if (x == y) && covers ds k subs then false else holds_at ds k y n)
unfolding remove_all covers
holds-remove_all [] ds k x y n = ground arith
holds-remove_all ((p, m) ∷ subs) ds k x y n = ground (
  arith,
  holds-remove_all subs ds k x y (remove_one (components p) x m n),
  holds-remove_one (components p) ds m k x y n,
)

-- Once a subscriber is removed the trie holds nothing of it, and all that it held of the others.
pub holds-remove_subscriber :
    (t : SubTrie) (x y : ℕ) (ds : List Text) (k : SubMode)
    → IsCovered t
    → holds (remove_subscriber t x) ds k y ≡ (if x == y then false else holds t ds k y)
unfolding remove_subscriber holds covers
holds-remove_subscriber t x y ds k c = elim (Option-cases (Maps.lookup x t.by_subscriber)) [
  | inl gone ↦ ground (arith, c.at y ds k)
  | inr (subs, at) ↦ ground (arith, c.at y ds k, holds-remove_all subs ds k x y t.root)
]

pub new-IsCovered : IsCovered new
unfolding holds
new-IsCovered = record { at = λ x ds k h. absurd (ground (arith, holds_at-default ds k x)) }

pub subscribe-IsCovered :
    (t : SubTrie) (x : ℕ) (p : TaskPath) (m : SubMode) → IsCovered t → IsCovered (subscribe t x p m)
unfolding subscribe holds
subscribe-IsCovered t x p m c = record {
  at = λ y ds k h. ground (
    arith,
    c.at y ds k,
    holds-subscribe_at (components p) ds m k x y t.root,
    covers-add p m ds k (entry (Maps.lookup x t.by_subscriber)),
    lookup-insert x y (add_subscription (p, m) (entry (Maps.lookup x t.by_subscriber)))
        t.by_subscriber,
  );
}

entry-unrecord :
    (x y : ℕ) (subs : List Subscription) (m : Map (List Subscription))
    → entry (Maps.lookup y (unrecord x subs m)) ≡ (if x == y then subs else entry (Maps.lookup y m))
entry-unrecord x y [] m = ground (arith, lookup-remove x y m)
entry-unrecord x y (b ∷ bs) m = ground (arith, lookup-insert x y (b ∷ bs) m)

pub unsubscribe-IsCovered :
    (t : SubTrie) (x : ℕ) (p : TaskPath) (m : SubMode)
    → IsCovered t
    → IsCovered (unsubscribe t x p m)
unfolding unsubscribe holds
unsubscribe-IsCovered t x p m c = record {
  at = λ y ds k h. elim (Option-cases (Maps.lookup x t.by_subscriber)) [
    | inl gone ↦ ground (arith, c.at y ds k, holds-remove_one (components p) ds m k x y t.root)
    | inr (subs, at) ↦ ground (
      arith,
      c.at y ds k,
      holds-remove_one (components p) ds m k x y t.root,
      covers-drop p m ds k subs,
      entry-unrecord x y (drop_subscription (p, m) subs) t.by_subscriber,
    )
  ];
}

holds_subs :
    (t : SubTrie) (x : ℕ) (ds : List Text) (k : SubMode) (subs : List Subscription)
    → IsCovered t
    → Maps.lookup x t.by_subscriber ≡ some subs
    → holds_at ds k x t.root ≡ true
    → covers ds k subs ≡ true
unfolding holds
holds_subs t x ds k subs c at h = ground (arith, c.at x ds k)

pub remove_subscriber-IsCovered :
    (t : SubTrie) (x : ℕ) → IsCovered t → IsCovered (remove_subscriber t x)
unfolding remove_subscriber holds
remove_subscriber-IsCovered t x c = record {
  at = λ y ds k h. elim (Option-cases (Maps.lookup x t.by_subscriber)) [
    | inl gone ↦ ground (arith, c.at y ds k)
    | inr (subs, at) ↦ ground (
      arith,
      c.at y ds k,
      holds-remove_all subs ds k x y t.root,
      lookup-remove x y t.by_subscriber,
      holds_subs t x ds k subs,
    )
  ];
}
