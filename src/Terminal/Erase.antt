-- ===== src/Terminal/Erase.antt =====
-- A backspace takes back a character.
use husky_os.Base.{
  ℕ, zero, suc, ◌+◌, ◌*◌, ◌/◌, ◌≤◌, ◌<◌, ◌≡◌, false, ◌&&◌, leb, ltb, ◌==◌, if◌then◌else◌, arith,
  for_range, for_range-last, refl, ◌∙◌,
}
use husky_os.Terminal.Screen.{
  Pen, Screen, set_pixel, stride, backspace_draw_over, back_row, drop_input, at_limit, backspace,
  put_glyph, sub32,
}
use husky_os.Terminal.Scroll.{same_place}
use husky_os.Terminal.Cursor.{IsScreen, Moved, put_glyph-Moved}

-- A row of pixels from `left` on.
row_filled :
    (s color row left n : ℕ) (fb : ℕ → ℕ) (y x : ℕ)
    → left + n ≤ s
    → x < s
    → for_range n 0 (λ (j : ℕ). set_pixel (row * s + (left + j)) color) fb (y * s + x)
      ≡ (if y == row && (leb left x && ltb x (left + n)) then color else fb (y * s + x))
unfolding for_range set_pixel
row_filled s color row left zero fb y x hl hx = ground arith
row_filled s color row left (suc n) fb y x hl hx =
    let from_zero : 0 + n ≡ n = omega arith in
    rw
      (
        for_range-last n 0 (λ (j : ℕ). set_pixel (row * s + (left + j)) color) fb,
        from_zero,
        same_place s y x row (left + n) hx (omega arith),
        row_filled s color row left n fb y x (omega arith) hx,
      )
      (ground arith)

-- Rows of pixels from `top` on.
rows_filled :
    (s color top left w n : ℕ) (fb : ℕ → ℕ) (y x : ℕ)
    → left + w ≤ s
    → x < s
    → for_range n 0
        (λ (i : ℕ). for_range w 0 (λ (j : ℕ). set_pixel ((top + i) * s + (left + j)) color))
        fb
        (y * s + x)
      ≡ (if (leb top y && ltb y (top + n)) && (leb left x && ltb x (left + w))
          then color
          else fb (y * s + x))
unfolding for_range
rows_filled s color top left w zero fb y x hl hx = ground arith
rows_filled s color top left w (suc n) fb y x hl hx =
    let body = λ (i : ℕ). for_range w 0 (λ (j : ℕ). set_pixel ((top + i) * s + (left + j)) color) in
    let from_zero : 0 + n ≡ n = omega arith in
    rw
      (
        for_range-last n 0 body fb,
        from_zero,
        row_filled s color (top + n) left w (for_range n 0 body fb) y x hl hx,
        rows_filled s color top left w n fb y x hl hx,
      )
      (ground arith)

backspace-eq :
    (t : Screen)
    → at_limit t ≡ false
    → (t.cursor_x == 0) ≡ false
    → backspace t
      ≡ backspace_draw_over t.cursor_y
          (sub32 t.cursor_x 8)
          (record (drop_input t) { cursor_x = sub32 t.cursor_x 8 })
unfolding backspace back_row drop_input
backspace-eq t limited first = rw (limited, first) refl

module _ (ssfn_putc : ℕ → Pen × (ℕ → ℕ) → Pen × (ℕ → ℕ)) where
  -- A backspace takes back a character that fitted into its row and its screen, where the input
  -- does not start behind it: the cursor is where it was, and the pixels of the character's cell
  -- have the background's colour, on a screen whose rows fit the pitch.
  pub backspace-put_glyph :
      (c : ℕ) (s : Screen)
      → IsScreen s
      → s.fb_width ≤ stride s
      → s.cursor_x < s.fb_width
      → s.cursor_y < s.fb_height
      → at_limit (put_glyph ssfn_putc c s) ≡ false
      → ((backspace (put_glyph ssfn_putc c s)).cursor_x ≡ s.cursor_x)
        × ((backspace (put_glyph ssfn_putc c s)).cursor_y ≡ s.cursor_y)
        × ((i j : ℕ)
            → i < 16
            → j < 8
            → (backspace (put_glyph ssfn_putc c s)).fb
                ((s.cursor_y + i) * stride s + (s.cursor_x + j))
              ≡ (put_glyph ssfn_putc c s).pen.bg)
  unfolding Moved backspace_draw_over drop_input stride
  backspace-put_glyph c s v wide hx hy free =
      let (width, height, pitch, x, y) =
        put_glyph-Moved ssfn_putc c s v (omega (arith, v.height_fits)) in
      let t = put_glyph ssfn_putc c s in
      let inside : leb s.fb_height s.cursor_y ≡ false = ground arith in
      let before : leb s.fb_width s.cursor_x ≡ false = ground arith in
      let there = rw (inside, before) at x in
      let still = rw (inside, before) at y in
      let not_first : (t.cursor_x == 0) ≡ false = ground (arith, there) in
      let room : s.cursor_x + 8 ≤ s.fb_pitch / 4 = omega (arith, v.columns, v.on_column, wide) in
      let back : sub32 t.cursor_x 8 ≡ s.cursor_x = omega (arith, there, v.width_fits) in
      rw (backspace-eq t free not_first) (
        back,
        still,
        λ i j hi hj.
            rw (back, still, pitch)
              (rows_filled (stride s) t.pen.bg s.cursor_y s.cursor_x 8 16 t.fb (s.cursor_y + i)
                  (s.cursor_x + j) room (omega (arith, room))
                ∙ ground arith),
      )
