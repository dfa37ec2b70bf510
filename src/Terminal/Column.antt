-- ===== src/Terminal/Column.antt =====
-- The cursor keeps to its column and to its row, whatever is printed.
use husky_os.Base.{
  ℕ, ◌+◌, ◌%◌, ◌≤◌, ◌≡◌, false, ◌||◌, leb, ◌==◌, arith, refl, ap, ◌∙◌, inl, inr, Bool-cases, u32,
  [], ◌∷◌,
}
use husky_os.Klib.Text.{Text}
use husky_os.Terminal.Screen.{
  Pen, Screen, framebuffer_move_one_row_up, backspace_draw_over, new_line, back_row, drop_input,
  at_limit, backspace, put_glyph, put_glyphs, gfx_putchar, wrap_line, scroll_down, place_pen,
  putchar_on_term, draw, putstring, i16,
}
use husky_os.Terminal.Cursor.{IsScreen, placed, i16-small}

-- The cursor after a step that leaves the screen's size.
stays :
    (s t : Screen)
    → IsScreen s
    → t.fb_width ≡ s.fb_width
    → t.fb_height ≡ s.fb_height
    → t.cursor_x % 8 ≡ 0
    → t.cursor_x ≤ t.fb_width
    → IsScreen t
stays s t v w h column row = record {
  columns = ap (λ (n : ℕ). n % 8) w ∙ v.columns;
  wide = omega (arith, w, v.wide);
  width_fits = omega (arith, w, v.width_fits);
  tall = omega (arith, h, v.tall);
  height_fits = omega (arith, h, v.height_fits);
  on_column = column;
  on_row = row;
}

new_line-IsScreen : (s : Screen) → IsScreen s → IsScreen (new_line s)
unfolding new_line framebuffer_move_one_row_up
new_line-IsScreen s v = elim (Bool-cases (leb s.fb_height s.cursor_y)) [
  | inl e ↦ rw e (stays s _ v refl refl refl (omega arith))
  | inr e ↦ rw e (stays s _ v refl refl refl (omega arith))
]

backspace-IsScreen : (s : Screen) → IsScreen s → IsScreen (backspace s)
unfolding backspace back_row drop_input backspace_draw_over
backspace-IsScreen s v = elim (Bool-cases (at_limit s)) [
  | inl e ↦ rw e v
  | inr e ↦ elim (Bool-cases (s.cursor_x == 0)) [
    | inl d ↦
        rw (e, d)
          (stays s _ v refl refl (omega (arith, v.columns, v.wide, v.width_fits))
            (omega (arith, v.wide, v.width_fits)))
    | inr d ↦
        let some_column : 1 ≤ s.cursor_x = ground arith in
        rw (e, d)
          (stays s _ v refl refl (omega (arith, v.on_column, v.on_row, v.width_fits))
            (omega (arith, v.on_column, v.on_row, v.width_fits)))
  ]
]

behind-IsScreen :
    (y : ℕ) (s : Screen)
    → IsScreen s
    → let t = wrap_line (scroll_down (place_pen s.cursor_x y s)) in
      IsScreen (record t { cursor_x = u32 (t.cursor_x + 8) })
unfolding wrap_line scroll_down place_pen framebuffer_move_one_row_up
behind-IsScreen y s v =
    let column = i16-small s.cursor_x (omega (arith, v.on_row, v.width_fits)) in
    let first : leb s.fb_width 0 ≡ false = ground (arith, v.wide) in
    elim (Bool-cases (leb s.fb_height (i16 y))) [
      | inl e ↦ rw (column, e, first) (stays s _ v refl refl refl v.wide)
      | inr e ↦ elim (Bool-cases (leb s.fb_width s.cursor_x)) [
        | inl d ↦ rw (column, e, d) (stays s _ v refl refl refl v.wide)
        | inr d ↦
            let room : s.cursor_x + 8 ≤ s.fb_width = ground (arith, v.on_column, v.columns) in
            rw (column, e, d)
              (stays s _ v refl refl (omega (arith, v.on_column, v.width_fits, room))
                (omega (arith, v.width_fits, room)))
      ]
    ]

module _ (ssfn_putc : ℕ → Pen × (ℕ → ℕ) → Pen × (ℕ → ℕ)) where
  put_glyph-IsScreen : (c : ℕ) (s : Screen) → IsScreen s → IsScreen (put_glyph ssfn_putc c s)
  unfolding put_glyph putchar_on_term draw
  put_glyph-IsScreen c s v = rw (placed s.cursor_x s.cursor_y s) (
      let w = behind-IsScreen s.cursor_y s v in
      record {
        columns = w.columns;
        wide = w.wide;
        width_fits = w.width_fits;
        tall = w.tall;
        height_fits = w.height_fits;
        on_column = w.on_column;
        on_row = w.on_row;
      })

  put_glyphs-IsScreen : (cs : Text) (s : Screen) → IsScreen s → IsScreen (put_glyphs ssfn_putc cs s)
  unfolding put_glyphs
  put_glyphs-IsScreen [] s v = v
  put_glyphs-IsScreen (c ∷ cs) s v =
      put_glyphs-IsScreen cs (put_glyph ssfn_putc c s) (put_glyph-IsScreen c s v)

  gfx_putchar-IsScreen : (c : ℕ) (s : Screen) → IsScreen s → IsScreen (gfx_putchar ssfn_putc c s)
  unfolding gfx_putchar
  gfx_putchar-IsScreen c s v = elim (Bool-cases (c == 13 || c == 10)) [
    | inl e ↦ rw e (new_line-IsScreen s v)
    | inr e ↦ elim (Bool-cases (c == 8)) [
      | inl d ↦ rw (e, d) (backspace-IsScreen s v)
      | inr d ↦ elim (Bool-cases (c == 9)) [
        | inl f ↦ rw (e, d, f) (put_glyphs-IsScreen (32 ∷ 32 ∷ 32 ∷ 32 ∷ 32 ∷ []) s v)
        | inr f ↦ rw (e, d, f) (put_glyph-IsScreen c s v)
      ]
    ]
  ]

  -- Whatever text is printed, with its line ends, tabs and backspaces: the cursor stays on a column
  -- of 8 pixels and no further right than the width, on a screen whose width is a multiple of 8.
  pub putstring-IsScreen :
      (cs : Text) (s : Screen) → IsScreen s → IsScreen (putstring ssfn_putc cs s)
  unfolding putstring
  putstring-IsScreen [] s v = v
  putstring-IsScreen (c ∷ cs) s v =
      putstring-IsScreen cs (gfx_putchar ssfn_putc c s) (gfx_putchar-IsScreen c s v)
