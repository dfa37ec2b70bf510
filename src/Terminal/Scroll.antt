-- ===== src/Terminal/Scroll.antt =====
-- Scrolling: what `framebuffer_move_one_row_up` leaves at each pixel.
use husky_os.Base.{
  ℕ, zero, suc, ◌+◌, ◌-◌, ◌*◌, ◌≤◌, ◌<◌, ◌≡◌, ◌&&◌, leb, ltb, ◌==◌, if◌then◌else◌, arith, for_range,
  for_range-last, ap, ◌∙◌, inl, inr, Bool-cases, ltb→lt, ==_iff, ◌⊎◌,
}
use native.Mathlib.Nat.{add-mul, add_comm}
use husky_os.Terminal.Screen.{
  set_pixel, move_pixel, move_rows, Screen, stride, framebuffer_move_one_row_up,
}

-- A pixel has one place.
row_below : (s y v : ℕ) → y < v → y * s + s ≤ v * s
row_below s y v h =
    let whole : v * s ≡ (y + 1) * s + (v - (y + 1)) * s =
      ap (λ (t : ℕ). t * s) (omega arith) ∙ add-mul (y + 1) (v - (y + 1)) s in
    omega (arith, add-mul y 1 s)

pub trichotomy : (y v : ℕ) → (y < v) ⊎ ((y ≡ v) ⊎ (v < y))
trichotomy y v = elim (Bool-cases (ltb y v)) [
  | inl e ↦ inl (ltb→lt y v e)
  | inr e ↦ elim (Bool-cases (y == v)) [
    | inl d ↦ inr (inl ((==_iff y v).0 d))
    | inr d ↦ inr (inr (ground arith))
  ]
]

pub same_place : (s y x v u : ℕ) → x < s → u < s → (y * s + x == v * s + u) ≡ (y == v) && (x == u)
same_place s y x v u hx hu = elim (trichotomy y v) [
  | inl h ↦ let below = row_below s y v h in ground arith
  | inr (inl h) ↦ rw h (ground arith)
  | inr (inr h) ↦ let below = row_below s v y h in ground arith
]

-- The loop over a row, when `n` pixels of it are done.
moved_row : (bg column n : ℕ) (fb : ℕ → ℕ) (s y x : ℕ) → ℕ
moved_row bg column n fb s y x =
    if ltb x n
    then if y == column
      then bg
      else if y + 16 == column
      then fb (column * s + x)
      else fb (y * s + x)
    else fb (y * s + x)

row-eq :
    (s bg column n : ℕ) (fb : ℕ → ℕ) (y x : ℕ)
    → 16 ≤ column
    → n ≤ s
    → x < s
    → for_range n 0 (move_pixel s bg column) fb (y * s + x) ≡ moved_row bg column n fb s y x
unfolding for_range move_pixel moved_row set_pixel
row-eq s bg column zero fb y x hc hn hx = ground arith
row-eq s bg column (suc n) fb y x hc hn hx =
    let before = for_range n 0 (move_pixel s bg column) fb in
    let from_zero : 0 + n ≡ n = omega arith in
    let here = row-eq s bg column n fb y x hc (omega arith) hx in
    let source = row-eq s bg column n fb column n hc (omega arith) (omega arith) in
    rw
      (
        for_range-last n 0 (move_pixel s bg column) fb,
        from_zero,
        same_place s y x (column - 16) n hx (omega arith),
        same_place s y x column n hx (omega arith),
        here,
        source,
      )
      (elim (trichotomy x n) [
        | inl h ↦ ground arith
        | inr (inl h) ↦ rw h (ground arith)
        | inr (inr h) ↦ ground arith
      ])

-- The loop over the rows, when `m` of them are done.
moved : (bg m : ℕ) (fb : ℕ → ℕ) (s y x : ℕ) → ℕ
moved bg m fb s y x =
    if ltb y m
    then fb ((y + 16) * s + x)
    else if leb 16 y && ltb y (16 + m)
    then bg
    else fb (y * s + x)

rows-eq :
    (w s bg m : ℕ) (fb : ℕ → ℕ) (y x : ℕ)
    → w ≤ s
    → x < w
    → for_range m 16 (λ (column : ℕ). for_range w 0 (move_pixel s bg column)) fb (y * s + x)
      ≡ moved bg m fb s y x
unfolding for_range moved moved_row
rows-eq w s bg zero fb y x hw hx = ground arith
rows-eq w s bg (suc m) fb y x hw hx =
    let body = λ (column : ℕ). for_range w 0 (move_pixel s bg column) in
    let before = for_range m 16 body fb in
    rw
      (
        for_range-last m 16 body fb,
        row-eq s bg (16 + m) w before y x (omega arith) hw (omega arith),
        rows-eq w s bg m fb y x hw hx,
        rows-eq w s bg m fb (16 + m) x hw hx,
      )
      (elim (trichotomy y m) [
        | inl h ↦ ground arith
        | inr (inl h) ↦ rw h (ground (arith, add_comm m 16))
        | inr (inr h) ↦ ground arith
      ])

-- One row of text up: a pixel above the last 16 rows takes the colour that stood 16 rows below it,
-- and the last 16 rows, below the first 16, take the background's: on a screen of 16 rows or more
-- whose rows fit the pitch.
pub framebuffer_move_one_row_up_lem :
    (s : Screen) (y x : ℕ)
    → 16 ≤ s.fb_height
    → s.fb_width ≤ stride s
    → x < s.fb_width
    → (y + 16 < s.fb_height
        → (framebuffer_move_one_row_up s).fb (y * stride s + x) ≡ s.fb ((y + 16) * stride s + x))
      × (16 ≤ y
          → s.fb_height ≤ y + 16
          → y < s.fb_height
          → (framebuffer_move_one_row_up s).fb (y * stride s + x) ≡ s.pen.bg)
unfolding framebuffer_move_one_row_up move_rows
framebuffer_move_one_row_up_lem s y x tall wide h =
    let all = rows-eq s.fb_width (stride s) s.pen.bg (s.fb_height - 16) s.fb y x wide h in
    (
      λ inside. all ∙ unfold moved in ground arith,
      λ low last inside. all ∙ unfold moved in ground arith,
    )
