-- ===== src/Terminal/Cursor.antt =====
-- Where the cursor goes, and that a backspace takes back a character.
use husky_os.Base.{
  ℕ, ◌+◌, ◌-◌, ◌%◌, ◌^◌, ◌≤◌, ◌<◌, ◌≡◌, false, ◌&&◌, leb, ltb, if◌then◌else◌, arith, refl, sym, ap,
  ap₂, ◌∙◌, inl, inr, Bool-cases, u32,
}
use husky_os.Terminal.Screen.{
  Pen, Screen, framebuffer_move_one_row_up, advance_pen, scroll_down, wrap_line, place_pen, draw,
  putchar_on_term, put_glyph, i16,
}

-- A screen with columns of 8 and rows of 16 pixels, and a cursor on a column.
pub record IsScreen (s : Screen) : Type 0 where
  pub columns : s.fb_width % 8 ≡ 0
  pub wide : 8 ≤ s.fb_width
  pub width_fits : s.fb_width < 2 ^ 14
  pub tall : 16 ≤ s.fb_height
  pub height_fits : s.fb_height < 2 ^ 14
  pub on_column : s.cursor_x % 8 ≡ 0
  pub on_row : s.cursor_x ≤ s.fb_width

-- The place behind a character that is written at `x` and `y`.
abbrev pub next_cell : (width height x y : ℕ) → ℕ × ℕ
next_cell width height x y =
    if leb height y then (8, height - 16) else if leb width x then (8, y + 16) else (x + 8, y)

-- What a step leaves: the size of the screen, and a new place.
unfoldable pub Moved : Screen → Screen → ℕ × ℕ → Type 0
Moved s t place =
    (t.fb_width ≡ s.fb_width)
    × (t.fb_height ≡ s.fb_height)
    × (t.fb_pitch ≡ s.fb_pitch)
    × (t.cursor_x ≡ place.0)
    × (t.cursor_y ≡ place.1)

pub placed : (x y : ℕ) (s : Screen) → place_pen x y (advance_pen s) ≡ place_pen x y s
unfolding place_pen advance_pen
placed x y s = elim (Bool-cases (ltb 16 (u32 (s.pen.x + 8)) && ltb (u32 (s.pen.x + 8)) (2 ^ 31))) [
  | inl e ↦ rw e refl
  | inr e ↦ rw e refl
]

pub i16-small : (w : ℕ) → w < 2 ^ 15 → i16 w ≡ w
i16-small w h = ground arith

behind :
    (x y : ℕ) (s : Screen)
    → IsScreen s
    → x ≡ s.cursor_x
    → y ≡ s.cursor_y
    → y < 2 ^ 15
    → let t = wrap_line (scroll_down (place_pen x y s)) in
      Moved s (record t { cursor_x = u32 (t.cursor_x + 8) }) (next_cell s.fb_width s.fb_height x y)
unfolding wrap_line scroll_down place_pen framebuffer_move_one_row_up Moved
behind x y s v ex ey h =
    let column = i16-small x (omega (arith, v.on_row, v.width_fits)) in
    let row = i16-small y h in
    let first : leb s.fb_width 0 ≡ false = ground (arith, v.wide) in
    elim (Bool-cases (leb s.fb_height y)) [
      | inl e ↦
          rw (column, row, e, first) (refl, refl, refl, refl, omega (arith, v.tall, v.height_fits))
      | inr e ↦ elim (Bool-cases (leb s.fb_width x)) [
        | inl d ↦ rw (column, row, e, d) (refl, refl, refl, refl, omega (arith, ey, h))
        | inr d ↦
            rw (column, row, e, d)
              (refl, refl, refl, omega (arith, ex, v.on_row, v.width_fits), sym ey)
      ]
    ]

-- Places keep to the columns.
next_cell-column :
    (w h x y : ℕ)
    → w % 8 ≡ 0
    → 8 ≤ w
    → x % 8 ≡ 0
    → x ≤ w
    → ((next_cell w h x y).0 % 8 ≡ 0) × ((next_cell w h x y).0 ≤ w)
next_cell-column w h x y a b c d = (ground arith, ground arith)

module _ (ssfn_putc : ℕ → Pen × (ℕ → ℕ) → Pen × (ℕ → ℕ)) where
  pub put_glyph-Moved :
      (c : ℕ) (s : Screen)
      → IsScreen s
      → s.cursor_y < 2 ^ 15
      → Moved s (put_glyph ssfn_putc c s) (next_cell s.fb_width s.fb_height s.cursor_x s.cursor_y)
  unfolding put_glyph putchar_on_term draw Moved
  put_glyph-Moved c s v h =
      let there = behind s.cursor_x s.cursor_y s v refl refl h in
      rw (placed s.cursor_x s.cursor_y s) there

  -- A character moves the cursor to the next column; behind the last column to the next row, and
  -- below the screen to the last row: on a screen whose width is a multiple of 8, whose sizes are
  -- below 2 ^ 14, with the cursor on a column and its row below 2 ^ 15; and so it stays on a column.
  pub put_glyph_lem :
      (c : ℕ) (s : Screen)
      → IsScreen s
      → s.cursor_y < 2 ^ 15
      → (((put_glyph ssfn_putc c s).cursor_x, (put_glyph ssfn_putc c s).cursor_y)
          ≡ next_cell s.fb_width s.fb_height s.cursor_x s.cursor_y)
        × IsScreen (put_glyph ssfn_putc c s)
  unfolding Moved
  put_glyph_lem c s v h =
      let (width, height, pitch, x, y) = put_glyph-Moved c s v h in
      let next =
        next_cell-column s.fb_width s.fb_height s.cursor_x s.cursor_y v.columns v.wide v.on_column
          v.on_row in
      (
        ap₂ (λ (a b : ℕ). (a, b)) x y,
        record {
          columns = ap (λ (n : ℕ). n % 8) width ∙ v.columns;
          wide = omega (arith, width, v.wide);
          width_fits = omega (arith, width, v.width_fits);
          tall = omega (arith, height, v.tall);
          height_fits = omega (arith, height, v.height_fits);
          on_column = ap (λ (n : ℕ). n % 8) x ∙ next.0;
          on_row = omega (arith, width, x, next.1);
        },
      )
