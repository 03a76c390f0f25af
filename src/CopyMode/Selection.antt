-- ===== src/CopyMode/Selection.antt =====
-- Which positions are selected.
use Prim.Native.Nat.{Ordering}
use dekit.Prelude.{
  ◌≡◌, refl, sym, ap, ◌∙◌, Bool, true, false, ◌&&◌, ◌||◌, if◌then◌else◌, arith, Bool-cases, inl,
  inr, if_elim,
}
use dekit.Prelude.Int.{ℤ, cmp, cmp-swap, cmp-eq, is_lt, is_eq, is_le, swap}
use dekit.CopyMode.{Pos, to_low_high, within, within_low_high}

-- Reading order: by row, and in a row by column.
unfoldable pub reads_before : Pos → Pos → Bool
reads_before p q = is_lt (cmp p.y q.y) || is_eq (cmp p.y q.y) && is_le (cmp p.x q.x)

-- The test by cases is that by reading order.
within_orders :
    (low_y y_low y_high low_x x_high : Ordering)
    → y_low ≡ swap low_y
    → (if is_lt low_y
        then is_lt y_high || is_eq y_high && is_le x_high
        else if is_eq y_low
        then (if is_lt y_high
            then is_le low_x
            else if is_eq y_high
            then is_le low_x && is_le x_high
            else false)
        else false)
      ≡ ((is_lt low_y || is_eq low_y && is_le low_x)
          && (is_lt y_high || is_eq y_high && is_le x_high))
within_orders low_y y_low y_high low_x x_high e = ground arith

within_low_high_lem :
    (low high p : Pos) → within_low_high (low, high) p ≡ (reads_before low p && reads_before p high)
unfolding within_low_high reads_before
within_low_high_lem low high p =
    within_orders (cmp low.y p.y) (cmp p.y low.y) (cmp p.y high.y) (cmp low.x p.x) (cmp p.x high.x)
      (cmp-swap low.y p.y)

-- The two ends in reading order, from the orders of their rows and columns.
abbrev is_first : Ordering → Ordering → Bool
is_first rows columns = is_lt rows || is_eq rows && is_lt columns

swap_first :
    (rows columns : Ordering)
    → is_first rows columns ≡ true
    → is_first (swap rows) (swap columns) ≡ false
swap_first rows columns h = ground arith

neither_first :
    (rows columns : Ordering)
    → is_first rows columns ≡ false
    → is_first (swap rows) (swap columns) ≡ false
    → (rows ≡ Ordering.eq) × (columns ≡ Ordering.eq)
neither_first rows columns h h' = (ground arith, ground arith)

first_reads :
    (rows columns : Ordering)
    → is_first rows columns ≡ true
    → (is_lt rows || is_eq rows && is_le columns) ≡ true
first_reads rows columns h = ground arith

last_reads :
    (rows columns : Ordering)
    → is_first rows columns ≡ false
    → (is_lt (swap rows) || is_eq (swap rows) && is_le (swap columns)) ≡ true
last_reads rows columns h = ground arith

same_pos : (a b : Pos) → cmp a.y b.y ≡ Ordering.eq → cmp a.x b.x ≡ Ordering.eq → a ≡ b
same_pos a b same_y same_x =
    let ends : Pos = record { y = b.y; x = a.x } in
    let rows : a ≡ ends = ap (λ (y : ℤ). record { y = y; x = a.x }) (cmp-eq a.y b.y same_y) in
    let columns : ends ≡ b = ap (λ (x : ℤ). record { y = b.y; x = x }) (cmp-eq a.x b.x same_x) in
    rows ∙ columns

to_low_high-reads : (a b : Pos) → reads_before (to_low_high a b).0 (to_low_high a b).1 ≡ true
unfolding to_low_high reads_before
to_low_high-reads a b =
    if_elim (λ (ends : Pos × Pos). reads_before ends.0 ends.1 ≡ true)
      (is_first (cmp a.y b.y) (cmp a.x b.x)) {x = (a, b)} {y = (b, a)}
      (first_reads (cmp a.y b.y) (cmp a.x b.x))
      (λ not_first.
        ap (λ o. is_lt o || is_eq o && is_le (cmp b.x a.x)) (cmp-swap a.y b.y)
        ∙ ap (λ o. is_lt (swap (cmp a.y b.y)) || is_eq (swap (cmp a.y b.y)) && is_le o)
            (cmp-swap a.x b.x)
        ∙ last_reads (cmp a.y b.y) (cmp a.x b.x) not_first)

to_low_high-swap : (a b : Pos) → to_low_high b a ≡ to_low_high a b
unfolding to_low_high
to_low_high-swap a b =
    let rows = cmp-swap a.y b.y in
    let columns = cmp-swap a.x b.x in
    ap (λ o. if is_first o (cmp b.x a.x) then (b, a) else (a, b)) rows
    ∙ ap (λ o. if is_first (swap (cmp a.y b.y)) o then (b, a) else (a, b)) columns
    ∙ elim (Bool-cases (is_first (cmp a.y b.y) (cmp a.x b.x))) [
      | inl first ↦ rw (first, swap_first (cmp a.y b.y) (cmp a.x b.x) first) refl
      | inr not_first ↦ elim (Bool-cases (is_first (swap (cmp a.y b.y)) (swap (cmp a.x b.x)))) [
        | inl second ↦ rw (not_first, second) refl
        | inr not_second ↦
            let (same_y, same_x) = neither_first (cmp a.y b.y) (cmp a.x b.x) not_first not_second in
            rw (not_first, not_second)
              (ap (λ q. (q, b)) (same_pos a b same_y same_x)
                ∙ ap (λ q. (b, q)) (sym (same_pos a b same_y same_x)))
      ]
    ]

-- A position is selected when it is between the two ends in reading order, the ends included, and
-- it does not matter which of them the selection was begun at.
pub within_lem :
    (a b p : Pos)
    → (within a b p ≡ (reads_before (to_low_high a b).0 p && reads_before p (to_low_high a b).1))
      × (reads_before (to_low_high a b).0 (to_low_high a b).1 ≡ true)
      × (within b a p ≡ within a b p)
unfolding within
within_lem a b p = (
  within_low_high_lem (to_low_high a b).0 (to_low_high a b).1 p,
  to_low_high-reads a b,
  ap (λ ends. within_low_high ends p) (to_low_high-swap a b),
)
