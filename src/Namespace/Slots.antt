-- ===== src/Namespace/Slots.antt =====
-- The map of spaces, a space that is not there taken for a new one.
use dekit.Prelude.{
  ℕ, ◌≡◌, refl, sym, ap, ◌∙◌, Bool, true, false, Option, none, some, Bool-cases, inl, inr, [], ◌∷◌,
  arith, if◌then◌else◌, option_elim_eq,
}
use dekit.Prelude.Text.{Text, text_eq, text_eq_iff}
use dekit.Prelude.Result.{Result, ok, err}
use dekit.SubTrie
use dekit.SubTrie.{SubTrie, SubMode, exact, subtree}
use dekit.PathTrie
use dekit.PathTrie.{PathTrie, Place, PathConflict}
use dekit.PathTrie.Leaves
use dekit.Namespace.{
  SpaceNamespace, Namespace, new_space, or_new, space_of, space_mut, get_mut, with_paths, with_subs,
  claimed, held, remove_subscriber,
}

abbrev pub or_unplaced : Namespace → Option Namespace → Namespace
or_unplaced ns none = ns
or_unplaced ns (some ns') = ns'

-- The maps of spaces.
pub space_of-space_mut :
    (s r : Text) (f : SpaceNamespace → SpaceNamespace) (ns : Namespace)
    → space_of r (space_mut s f ns)
      ≡ (if text_eq s r then some (f (or_new (space_of s ns))) else space_of r ns)
unfolding space_of space_mut
space_of-space_mut s r f [] = refl
space_of-space_mut s r f ((i, n) ∷ ns) =
    ground (arith, space_of-space_mut s r f ns, text_eq_iff s r, text_eq_iff i s, text_eq_iff i r)

abbrev pub map_space :
    (SpaceNamespace → SpaceNamespace) → Option SpaceNamespace → Option SpaceNamespace
map_space f none = none
map_space f (some n) = some (f n)

pub space_of-get_mut :
    (s r : Text) (f : SpaceNamespace → SpaceNamespace) (ns : Namespace)
    → space_of r (get_mut s f ns)
      ≡ (if text_eq s r then map_space f (space_of s ns) else space_of r ns)
unfolding space_of get_mut
space_of-get_mut s r f [] = ground arith
space_of-get_mut s r f ((i, n) ∷ ns) =
    ground (arith, space_of-get_mut s r f ns, text_eq_iff s r, text_eq_iff i s, text_eq_iff i r)

pub space_of-remove_subscriber :
    (x : ℕ) (r : Text) (ns : Namespace)
    → space_of r (remove_subscriber ns x)
      ≡ map_space (λ n. with_subs (SubTrie.remove_subscriber n.subs x) n) (space_of r ns)
unfolding space_of remove_subscriber
space_of-remove_subscriber x r [] = refl
space_of-remove_subscriber x r ((i, n) ∷ ns) = ground (arith, space_of-remove_subscriber x r ns)

-- A space; one that is not there is as good as new.
abbrev pub slot : Text → Namespace → SpaceNamespace
slot space ns = or_new (space_of space ns)

pub slot-space_mut :
    (k s : Text) (f : SpaceNamespace → SpaceNamespace) (ns : Namespace)
    → slot s (space_mut k f ns) ≡ (if text_eq k s then f (slot k ns) else slot s ns)
slot-space_mut k s f ns = ap or_new (space_of-space_mut k s f ns) ∙ ground arith

pub slot-get_mut :
    (k s : Text) (f : SpaceNamespace → SpaceNamespace) (ns : Namespace)
    → f new_space ≡ new_space
    → slot s (get_mut k f ns) ≡ (if text_eq k s then f (slot k ns) else slot s ns)
slot-get_mut k s f ns e = ap or_new (space_of-get_mut k s f ns) ∙ ground arith

pub slot-claimed :
    (k s : Text) (ns : Namespace) (r : Result PathConflict PathTrie)
    → slot s (claimed k ns r).0 ≡ (
        if text_eq k s
        then with_paths (PathTrie.Leaves.or_same (slot k ns).paths r) (slot k ns)
        else slot s ns)
slot-claimed k s ns (ok t) = slot-space_mut k s (with_paths t) ns
slot-claimed k s ns (err e) = slot-space_mut k s (λ n. n) ns

pub slot-held :
    (k s : Text) (ns : Namespace) (o : Option PathTrie)
    → slot s (or_unplaced ns (held k ns o)) ≡ (
        if text_eq k s
        then with_paths (PathTrie.Leaves.or_unplaced (slot k ns).paths o) (slot k ns)
        else slot s ns)
slot-held k s ns (some t) = slot-space_mut k s (with_paths t) ns
slot-held k s ns none = ground (arith, text_eq_iff k s)

-- A space that is there and one that is not, as slots.
pub slot-some :
    (k : Text) (ns : Namespace) (n : SpaceNamespace) → space_of k ns ≡ some n → slot k ns ≡ n
slot-some k ns n e = ap or_new e

pub slot_kept :
    (k s : Text) (ns : Namespace) (n : SpaceNamespace)
    → n ≡ slot k ns
    → slot s ns ≡ (if text_eq k s then n else slot s ns)
slot_kept k s ns n e = elim (Bool-cases (text_eq k s)) [
  | inl is ↦ rw is (ap (λ l. slot l ns) (sym ((text_eq_iff k s).0 is)) ∙ sym e)
  | inr other ↦ rw other refl
]

pub or_new_if :
    (b : Bool) (n : SpaceNamespace) (o : Option SpaceNamespace)
    → or_new (if b then some n else o) ≡ (if b then n else or_new o)
or_new_if true n o = refl
or_new_if false n o = refl

pub or_new_map :
    (f : SpaceNamespace → SpaceNamespace) (o : Option SpaceNamespace)
    → f new_space ≡ new_space
    → or_new (map_space f o) ≡ f (or_new o)
or_new_map f none e = sym e
or_new_map f (some n) e = refl

pub slot-removed :
    (k s : Text) (ns : Namespace) (f : PathTrie → Option ℕ × PathTrie)
    → (f PathTrie.new).1 ≡ PathTrie.new
    → slot s
        (elim (space_of k ns) as (λ o. Option ℕ × Namespace) [
          | none ↦ (none, ns)
          | some n ↦ ((f n.paths).0, get_mut k (with_paths (f n.paths).1) ns)
        ]).1
      ≡ (if text_eq k s then with_paths (f (slot k ns).paths).1 (slot k ns) else slot s ns)
slot-removed k s ns f e =
    option_elim_eq
      (λ (r : Option ℕ × Namespace).
        slot s r.1
        ≡ (if text_eq k s then with_paths (f (slot k ns).paths).1 (slot k ns) else slot s ns))
      (space_of k ns)
      (λ gone.
        let blank : slot k ns ≡ new_space = ap or_new gone in
        slot_kept k s ns _ (
          ap (λ (m : SpaceNamespace). with_paths (f m.paths).1 m) blank
          ∙ ap (λ t. with_paths t new_space) e
          ∙ sym blank))
      (λ n at.
        let changed = with_paths (f n.paths).1 in
        ap or_new (space_of-get_mut k s changed ns)
        ∙ ap (λ o. or_new (if text_eq k s then map_space changed o else space_of s ns)) at
        ∙ or_new_if (text_eq k s) (changed n) (space_of s ns)
        ∙ ap (λ (m : SpaceNamespace). if text_eq k s then with_paths (f m.paths).1 m else slot s ns)
            (sym (slot-some k ns n at)))
