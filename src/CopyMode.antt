-- ===== src/CopyMode.antt =====
-- src/kernel/copy_mode.rs: the cursor and the selection over a frozen screen. Of the screen's grid
-- (src/term/grid.rs) it is the size, the rows of history and the scroll offset that they go by;
-- reading the selected text out of the cells is left to the grid. The casts to `i32` and the
-- arithmetic on it wrap around, as in a release build (a debug build panics where a sum does).
mod Tests
pub mod Selection
pub mod Cursor
use dekit.Prelude.{
  ℕ, suc, ◌+◌, ◌-◌, min, Bool, true, false, ◌&&◌, ◌||◌, Option, none, some, List, [], ◌∷◌,
  if◌then◌else◌, ltb,
}
use dekit.Prelude.Int.{
  ℤ, pos, cmp, is_lt, is_eq, is_le, up_one, down_one, negate, subtract, as_i32, wrap_i32,
}

pub record Pos : Type 0 where
  pub y : ℤ
  pub x : ℤ

pub data CopyMove : Type 0 where
  up down left right : CopyMove

-- `width` and `height` (of 16 bits), `max_scrollback` and `scrollback` (`usize`) of `Grid`.
pub record GridView : Type 0 where
  pub width : ℕ
  pub height : ℕ
  pub max_scrollback : ℕ
  pub scrollback : ℕ

abbrev pub set_scrollback : ℕ → GridView → GridView
set_scrollback rows g = record g { scrollback = min rows g.max_scrollback }

pub record CopyState : Type 0 where
  pub snapshot : GridView
  pub start : Pos
  pub end : Option Pos

unfoldable pub new : GridView → CopyState
new grid = record {
  snapshot = grid;
  start = record { y = pos (grid.height - 1); x = pos 0 };
  end = none;
}

abbrev pub or_start : Option Pos → Pos → Pos
or_start none p = p
or_start (some q) p = q

unfoldable pub cursor : CopyState → Pos
cursor s = or_start s.end s.start

-- What `cursor_mut` gives a reference to, changed.
abbrev pub set_cursor : Option Pos → Pos → CopyState → CopyState
set_cursor none p s = record s { start = p }
set_cursor (some q) p s = record s { end = some p }

unfoldable pub moved : CopyMove → GridView → Pos → Pos
moved up g p =
    if is_lt (cmp (wrap_i32 (negate (as_i32 g.max_scrollback))) p.y)
    then record p { y = wrap_i32 (down_one p.y) }
    else p
moved down g p =
    if is_lt (cmp (wrap_i32 (up_one p.y)) (as_i32 g.height))
    then record p { y = wrap_i32 (up_one p.y) }
    else p
moved left g p = if is_lt (cmp (pos 0) p.x) then record p { x = wrap_i32 (down_one p.x) } else p
moved right g p =
    if is_lt (cmp (wrap_i32 (up_one p.x)) (as_i32 g.width))
    then record p { x = wrap_i32 (up_one p.x) }
    else p

unfoldable pub move_cursor : CopyMove → CopyState → CopyState
move_cursor dir s = set_cursor s.end (moved dir s.snapshot (cursor s)) s

unfoldable pub begin_selection : CopyState → CopyState
begin_selection s = elim s.end [ none ↦ record s { end = some s.start } | some p ↦ s ]

unfoldable pub pos_at : CopyState → ℕ → ℕ → Pos
pos_at s row col = record {
  y = wrap_i32 (subtract (as_i32 row) (as_i32 (s.snapshot).scrollback));
  x = as_i32 col;
}

unfoldable pub set_anchor : Pos → CopyState → CopyState
set_anchor p s = record s { start = p; end = none }

unfoldable pub set_extent : Pos → CopyState → CopyState
set_extent p s = record s { end = some p }

unfoldable pub scroll_up : ℕ → CopyState → CopyState
scroll_up n s = record s { snapshot = set_scrollback ((s.snapshot).scrollback + n) s.snapshot }

unfoldable pub scroll_down : ℕ → CopyState → CopyState
scroll_down n s = record s { snapshot = set_scrollback ((s.snapshot).scrollback - n) s.snapshot }

unfoldable pub to_low_high : Pos → Pos → Pos × Pos
to_low_high a b =
    if is_lt (cmp a.y b.y) || is_eq (cmp a.y b.y) && is_lt (cmp a.x b.x) then (a, b) else (b, a)

unfoldable pub within_low_high : Pos × Pos → Pos → Bool
within_low_high (low, high) p =
    if is_lt (cmp low.y p.y)
    then is_lt (cmp p.y high.y) || is_eq (cmp p.y high.y) && is_le (cmp p.x high.x)
    else if is_eq (cmp p.y low.y)
    then (if is_lt (cmp p.y high.y)
        then is_le (cmp low.x p.x)
        else if is_eq (cmp p.y high.y)
        then is_le (cmp low.x p.x) && is_le (cmp p.x high.x)
        else false)
    else false

unfoldable pub within : Pos → Pos → Pos → Bool
within start end target = within_low_high (to_low_high start end) target
