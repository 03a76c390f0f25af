-- ===== src/CopyMode/Cursor.antt =====
-- The cursor and the selection stay in the screen and its history.
use dekit.Prelude.{
  ℕ, zero, suc, ◌-◌, ◌^◌, ◌<◌, ◌≤◌, ◌≡◌, refl, true, Option, none, some, List, [], ◌∷◌, arith,
  if_elim, option_elim_eq, subst, leb, if◌then◌else◌,
}
use dekit.Prelude.Int.{
  ℤ, pos, negsuc, cmp, is_lt, is_le, up_one, down_one, minus, difference, negate, subtract, as_i32,
  wrap_i32, IsI32, as_i32_exact, wrap_i32_exact,
}
use dekit.CopyMode.{
  Pos, CopyMove, up, down, left, right, GridView, CopyState, new, cursor, or_start, set_cursor,
  moved, move_cursor, begin_selection, pos_at, set_anchor, set_extent, scroll_up, scroll_down,
}

abbrev IsWithin : ℤ → ℤ → ℤ → Type 0
IsWithin low high n = (is_le (cmp low n) ≡ true) × (is_lt (cmp n high) ≡ true)

-- A position in the history or on the screen.
abbrev pub IsOn : GridView → Pos → Type 0
IsOn g p = IsWithin (minus g.max_scrollback) (pos g.height) p.y × IsWithin (pos 0) (pos g.width) p.x

down_one-IsWithin :
    (low high n : ℤ)
    → is_lt (cmp low n) ≡ true
    → IsWithin low high n
    → IsWithin low high (down_one n)
unfolding cmp
down_one-IsWithin (pos a) (pos b) (pos zero) h w = absurd (ground arith)
down_one-IsWithin (pos a) (pos b) (pos (suc n)) h w = (ground arith, ground arith)
down_one-IsWithin (pos a) (pos b) (negsuc n) h w = absurd (cc)
down_one-IsWithin (pos a) (negsuc b) (pos n) h w = absurd (cc)
down_one-IsWithin (pos a) (negsuc b) (negsuc n) h w = absurd (cc)
down_one-IsWithin (negsuc a) (pos b) (pos zero) h w = (ground arith, refl)
down_one-IsWithin (negsuc a) (pos b) (pos (suc n)) h w = (refl, ground arith)
down_one-IsWithin (negsuc a) (pos b) (negsuc n) h w = (ground arith, refl)
down_one-IsWithin (negsuc a) (negsuc b) (pos n) h w = absurd (cc)
down_one-IsWithin (negsuc a) (negsuc b) (negsuc n) h w = (ground arith, ground arith)

up_one-IsWithin :
    (low high n : ℤ)
    → is_lt (cmp (up_one n) high) ≡ true
    → IsWithin low high n
    → IsWithin low high (up_one n)
unfolding cmp
up_one-IsWithin (pos a) (pos b) (pos n) h w = (ground arith, h)
up_one-IsWithin (pos a) high (negsuc n) h w = absurd (cc)
up_one-IsWithin (pos a) (negsuc b) (pos n) h w = absurd (cc)
up_one-IsWithin (negsuc a) high (pos n) h w = (refl, h)
up_one-IsWithin (negsuc a) high (negsuc zero) h w = (refl, h)
up_one-IsWithin (negsuc a) high (negsuc (suc n)) h w = (ground arith, h)

-- The sizes that a grid's integers can have, the history's rows in an `i32`.
abbrev IsSized : GridView → Type 0
IsSized g = (g.width < 2 ^ 16) × (g.height < 2 ^ 16) × (g.max_scrollback < 2 ^ 31)

IsWithin-IsI32 :
    (most height : ℕ) (z : ℤ)
    → most < 2 ^ 31
    → height < 2 ^ 16
    → IsWithin (minus most) (pos height) z
    → IsI32 (down_one z) × IsI32 (up_one z)
unfolding cmp
IsWithin-IsI32 most height (pos zero) m h w = (omega arith, omega arith)
IsWithin-IsI32 most height (pos (suc n)) m h w = (ground arith, ground arith)
IsWithin-IsI32 zero height (negsuc n) m h w = absurd (cc)
IsWithin-IsI32 (suc most) height (negsuc zero) m h w = (ground arith, ground arith)
IsWithin-IsI32 (suc most) height (negsuc (suc n)) m h w = (ground arith, ground arith)

negate-IsI32 : (n : ℕ) → n < 2 ^ 31 → IsI32 (minus n)
negate-IsI32 zero h = h
negate-IsI32 (suc n) h = omega arith

negated : (n : ℕ) → n < 2 ^ 31 → wrap_i32 (negate (as_i32 n)) ≡ minus n
negated n h = rw (as_i32_exact n h) (wrap_i32_exact (minus n) (negate-IsI32 n h))

-- A move without bounds on the integers.
move_exactly : CopyMove → GridView → Pos → Pos
move_exactly up g p =
    if is_lt (cmp (minus g.max_scrollback) p.y) then record p { y = down_one p.y } else p
move_exactly down g p =
    if is_lt (cmp (up_one p.y) (pos g.height)) then record p { y = up_one p.y } else p
move_exactly left g p = if is_lt (cmp (pos 0) p.x) then record p { x = down_one p.x } else p
move_exactly right g p =
    if is_lt (cmp (up_one p.x) (pos g.width)) then record p { x = up_one p.x } else p

-- No move wraps around.
moved_exact :
    (dir : CopyMove) (g : GridView) (p : Pos)
    → IsSized g
    → IsOn g p
    → moved dir g p ≡ move_exactly dir g p
unfolding moved move_exactly
moved_exact up g p (narrow, low, short) (wy, wx) =
    let (less, more) = IsWithin-IsI32 g.max_scrollback g.height p.y short low wy in
    rw (negated g.max_scrollback short, wrap_i32_exact (down_one p.y) less) refl
moved_exact down g p (narrow, low, short) (wy, wx) =
    let (less, more) = IsWithin-IsI32 g.max_scrollback g.height p.y short low wy in
    rw (as_i32_exact g.height (omega (arith, low)), wrap_i32_exact (up_one p.y) more) refl
moved_exact left g p (narrow, low, short) (wy, wx) =
    let (less, more) = IsWithin-IsI32 0 g.width p.x (omega arith) narrow wx in
    rw (wrap_i32_exact (down_one p.x) less) refl
moved_exact right g p (narrow, low, short) (wy, wx) =
    let (less, more) = IsWithin-IsI32 0 g.width p.x (omega arith) narrow wx in
    rw (as_i32_exact g.width (omega (arith, narrow)), wrap_i32_exact (up_one p.x) more) refl

move_exactly-IsOn :
    (dir : CopyMove) (g : GridView) (p : Pos) → IsOn g p → IsOn g (move_exactly dir g p)
unfolding move_exactly
move_exactly-IsOn up g p (wy, wx) =
    if_elim (IsOn g) (is_lt (cmp (minus g.max_scrollback) p.y)) {x = record p { y = down_one p.y }}
      {y = p} (λ room. (down_one-IsWithin (minus g.max_scrollback) (pos g.height) p.y room wy, wx))
      (λ edge. (wy, wx))
move_exactly-IsOn down g p (wy, wx) =
    if_elim (IsOn g) (is_lt (cmp (up_one p.y) (pos g.height))) {x = record p { y = up_one p.y }}
      {y = p} (λ room. (up_one-IsWithin (minus g.max_scrollback) (pos g.height) p.y room wy, wx))
      (λ edge. (wy, wx))
move_exactly-IsOn left g p (wy, wx) =
    if_elim (IsOn g) (is_lt (cmp (pos 0) p.x)) {x = record p { x = down_one p.x }} {y = p}
      (λ room. (wy, down_one-IsWithin (pos 0) (pos g.width) p.x room wx)) (λ edge. (wy, wx))
move_exactly-IsOn right g p (wy, wx) =
    if_elim (IsOn g) (is_lt (cmp (up_one p.x) (pos g.width))) {x = record p { x = up_one p.x }}
      {y = p} (λ room. (wy, up_one-IsWithin (pos 0) (pos g.width) p.x room wx)) (λ edge. (wy, wx))

moved-IsOn :
    (dir : CopyMove) (g : GridView) (p : Pos) → IsSized g → IsOn g p → IsOn g (moved dir g p)
moved-IsOn dir g p z on = rw (moved_exact dir g p z on) (move_exactly-IsOn dir g p on)

abbrev IsOnIfAny : GridView → Option Pos → Type 0
IsOnIfAny g none = Unit
IsOnIfAny g (some p) = IsOn g p

abbrev pub IsInside : CopyState → Type 0
IsInside s =
    IsOn s.snapshot s.start
    × IsOnIfAny s.snapshot s.end
    × ((s.snapshot).scrollback ≤ (s.snapshot).max_scrollback)

-- What the user does: keys that move and scroll, and a mouse that is on the screen.
pub data Action : Type 0 where
  moves : CopyMove → Action
  begins : Action
  anchors extends : ℕ → ℕ → Action
  scrolls_up scrolls_down : ℕ → Action

unfoldable pub act : CopyState → Action → CopyState
act s (moves dir) = move_cursor dir s
act s begins = begin_selection s
act s (anchors row col) = set_anchor (pos_at s row col) s
act s (extends row col) = set_extent (pos_at s row col) s
act s (scrolls_up n) = scroll_up n s
act s (scrolls_down n) = scroll_down n s

unfoldable pub run : List Action → CopyState → CopyState
run [] s = s
run (a ∷ as') s = run as' (act s a)

-- The mouse is on a cell of the screen.
abbrev pub IsOnScreen : GridView → Action → Type 0
IsOnScreen g (anchors row col) = (row < g.height) × (col < g.width)
IsOnScreen g (extends row col) = (row < g.height) × (col < g.width)
IsOnScreen g _ = Unit

-- Every click is on the screen as it is then.
unfoldable pub AreOnScreen : CopyState → List Action → Type 0
AreOnScreen s [] = Unit
AreOnScreen s (a ∷ as') = IsOnScreen s.snapshot a × AreOnScreen (act s a) as'

minus_le : (m n : ℕ) → is_le (cmp (minus m) (pos n)) ≡ true
unfolding cmp
minus_le zero n = ground arith
minus_le (suc m) n = refl

minus-minus : (m n : ℕ) → m ≤ n → is_le (cmp (minus n) (minus m)) ≡ true
unfolding cmp
minus-minus zero zero h = refl
minus-minus zero (suc n) h = refl
minus-minus (suc m) zero h = absurd (omega arith)
minus-minus (suc m) (suc n) h = ground arith

minus_lt : (m n : ℕ) → 0 < n → is_lt (cmp (minus m) (pos n)) ≡ true
unfolding cmp
minus_lt zero n h = ground arith
minus_lt (suc m) n h = refl

difference-IsWithin :
    (row offset height most : ℕ)
    → row < height
    → offset ≤ most
    → IsWithin (minus most) (pos height) (difference row offset)
difference-IsWithin row offset height most inside past =
    if_elim (IsWithin (minus most) (pos height)) (leb offset row) {x = pos (row - offset)}
      {y = minus (offset - row)}
      (λ on_screen. (minus_le most (row - offset), unfold cmp in ground arith))
      (λ in_history. (
        minus-minus (offset - row) most (omega (arith, past)),
        minus_lt (offset - row) height (omega (arith, inside)),
      ))

-- A cell's row in the history or on the screen, none wrapped around.
subtract_exact :
    (row offset : ℕ)
    → row < 2 ^ 16
    → offset < 2 ^ 31
    → wrap_i32 (subtract (as_i32 row) (as_i32 offset)) ≡ difference row offset
subtract_exact row offset low short =
    rw (as_i32_exact row (omega arith), as_i32_exact offset short)
      (wrap_i32_exact (difference row offset) (
        if_elim IsI32 (leb offset row) {x = pos (row - offset)} {y = minus (offset - row)}
          (λ on_screen. omega (arith, low))
          (λ in_history. negate-IsI32 (offset - row) (omega (arith, short)))))

pos_at-IsOn :
    (s : CopyState) (row col : ℕ)
    → IsSized s.snapshot
    → (s.snapshot).scrollback ≤ (s.snapshot).max_scrollback
    → row < (s.snapshot).height
    → col < (s.snapshot).width
    → IsOn s.snapshot (pos_at s row col)
unfolding pos_at
pos_at-IsOn s row col (narrow, low, short) past on_row on_col =
    rw
      (
        subtract_exact row (s.snapshot).scrollback (omega arith) (omega arith),
        as_i32_exact col (omega arith),
      )
      (
        difference-IsWithin row (s.snapshot).scrollback (s.snapshot).height
            (s.snapshot).max_scrollback on_row past,
        (unfold cmp in ground arith, unfold cmp in ground arith),
      )

set_cursor-IsInside :
    (dir : CopyMove) (s : CopyState) (o : Option Pos)
    → s.end ≡ o
    → IsSized s.snapshot
    → IsInside s
    → IsInside (set_cursor o (moved dir s.snapshot (or_start o s.start)) s)
set_cursor-IsInside dir s none e z (on, on', past) =
    (moved-IsOn dir s.snapshot s.start z on, on', past)
set_cursor-IsInside dir s (some q) e z (on, on', past) =
    (on, moved-IsOn dir s.snapshot q z (subst (IsOnIfAny s.snapshot) e on'), past)

begin_selection-IsInside : (s : CopyState) → IsInside s → IsInside (begin_selection s)
unfolding begin_selection
begin_selection-IsInside s (on, on', past) =
    option_elim_eq IsInside s.end (λ none_yet. (on, on, past)) (λ q begun. (on, on', past))

act-IsInside :
    (s : CopyState) (a : Action)
    → IsOnScreen s.snapshot a
    → IsSized s.snapshot
    → IsInside s
    → IsInside (act s a)
unfolding act move_cursor cursor set_anchor set_extent scroll_up scroll_down
act-IsInside s (moves dir) c z i = set_cursor-IsInside dir s s.end refl z i
act-IsInside s begins c z i = begin_selection-IsInside s i
act-IsInside s (anchors row col) c z (on, on', past) =
    (pos_at-IsOn s row col z past c.0 c.1, tt, past)
act-IsInside s (extends row col) c z (on, on', past) =
    (on, pos_at-IsOn s row col z past c.0 c.1, past)
act-IsInside s (scrolls_up n) c z (on, on', past) = (on, on', omega arith)
act-IsInside s (scrolls_down n) c z (on, on', past) = (on, on', omega arith)

set_cursor-IsSized :
    (o : Option Pos) (p : Pos) (s : CopyState)
    → IsSized s.snapshot
    → IsSized (set_cursor o p s).snapshot
set_cursor-IsSized none p s z = z
set_cursor-IsSized (some q) p s z = z

act-IsSized : (s : CopyState) (a : Action) → IsSized s.snapshot → IsSized (act s a).snapshot
unfolding act move_cursor begin_selection set_anchor set_extent scroll_up scroll_down
act-IsSized s (moves dir) z = set_cursor-IsSized s.end (moved dir s.snapshot (cursor s)) s z
act-IsSized s begins z =
    option_elim_eq (λ (r : CopyState). IsSized r.snapshot) s.end (λ none_yet. z) (λ q begun. z)
act-IsSized s (anchors row col) z = z
act-IsSized s (extends row col) z = z
act-IsSized s (scrolls_up n) z = z
act-IsSized s (scrolls_down n) z = z

run-IsInside_from :
    (actions : List Action) (s : CopyState)
    → AreOnScreen s actions
    → IsSized s.snapshot
    → IsInside s
    → IsInside (run actions s)
unfolding run AreOnScreen
run-IsInside_from [] s c z i = i
run-IsInside_from (a ∷ actions) s c z i =
    run-IsInside_from actions (act s a) c.1 (act-IsSized s a z) (act-IsInside s a c.0 z i)

new-IsInside :
    (g : GridView) → 0 < g.width → 0 < g.height → g.scrollback ≤ g.max_scrollback → IsInside (new g)
unfolding new cmp
new-IsInside g wide tall past =
    (((minus_le g.max_scrollback (g.height - 1), ground arith), (refl, ground arith)), tt, past)

-- Whatever keys and clicks on the screen come, the start and the end of the selection stay in the
-- history or on the screen, and the view scrolls back no further than the history goes, if the
-- screen has at least one cell, its size is of 16 bits, and the history has less than 2 ^ 31 rows.
pub run-IsInside :
    (g : GridView) (actions : List Action)
    → 0 < g.width
    → 0 < g.height
    → g.width < 2 ^ 16
    → g.height < 2 ^ 16
    → g.max_scrollback < 2 ^ 31
    → g.scrollback ≤ g.max_scrollback
    → AreOnScreen (new g) actions
    → IsInside (run actions (new g))
run-IsInside g actions wide tall narrow low short past c =
    run-IsInside_from actions (new g) c (unfold new in (narrow, low, short))
      (new-IsInside g wide tall past)
