-- ===== src/Terminal/Screen.antt =====
-- Kernel/src/terminal/terminal.cpp: the text on the frame buffer, and the terminal of the boot
-- loader. Drawing a character is ssfn's: a parameter, which may change its pen and the pixels.
use husky_os.Base.{
  ℕ, ◌+◌, ◌-◌, ◌*◌, ◌/◌, ◌%◌, ◌^◌, Bool, ◌&&◌, ◌||◌, [], ◌∷◌, leb, ltb, ◌==◌, if◌then◌else◌, u32,
  for_range,
}
use husky_os.Klib.Text.{Text, strlen}

-- What ssfn's `ssfn_dst` holds of the place and the colours. The places are `int16_t`, here the
-- 32-bit words that they are extended to.
pub record Pen : Type 0 where
  pub x : ℕ
  pub y : ℕ
  pub fg : ℕ
  pub bg : ℕ

-- `gfxmode`, the cursors, ssfn's pen, and the input buffer that a backspace reaches into. The
-- frame buffer is read by its 32-bit words.
pub record Screen : Type 0 where
  pub fb : ℕ → ℕ
  pub fb_width : ℕ
  pub fb_height : ℕ
  pub fb_pitch : ℕ
  pub pen : Pen
  pub cursor_x : ℕ
  pub cursor_y : ℕ
  pub limit_x : ℕ
  pub limit_y : ℕ
  pub buffer : ℕ → ℕ
  pub index : ℕ
  pub gfx_mode : ℕ

abbrev pub char_height : ℕ
char_height = 16

abbrev pub char_width : ℕ
char_width = 8

abbrev pub background : ℕ
background = 0x002b36

abbrev pub text_color : ℕ
text_color = 0x93a1a1

abbrev pub i16 : ℕ → ℕ
i16 w = if ltb (w % 2 ^ 16) (2 ^ 15) then w % 2 ^ 16 else w % 2 ^ 16 + (2 ^ 32 - 2 ^ 16)

-- `a - b` on a `uint32_t`, for `b` up to `2 ^ 32`.
abbrev pub sub32 : ℕ → ℕ → ℕ
sub32 a b = u32 (a + 2 ^ 32 - b)

-- `fb[index] = color`
unfoldable pub set_pixel : (index color : ℕ) → (ℕ → ℕ) → ℕ → ℕ
set_pixel index color fb i = if i == index then color else fb i

unfoldable pub stride : Screen → ℕ
stride s = s.fb_pitch / 4

unfoldable pub framebuffer_draw_pixel : (x y color : ℕ) → Screen → Screen
framebuffer_draw_pixel x y color s = record s { fb = set_pixel (y * stride s + x) color s.fb }

-- The body of the loops of `framebuffer_move_one_row_up`.
unfoldable pub move_pixel : (stride bg column row : ℕ) → (ℕ → ℕ) → ℕ → ℕ
move_pixel stride bg column row fb =
    let current_index = column * stride + row in
    let new_index = (column - char_height) * stride + row in
    set_pixel new_index (fb current_index) (set_pixel current_index bg fb)

unfoldable pub move_rows : (width height stride bg : ℕ) → (ℕ → ℕ) → ℕ → ℕ
move_rows width height stride bg =
    for_range (height - char_height) char_height
      (λ (column : ℕ). for_range width 0 (move_pixel stride bg column))

unfoldable pub framebuffer_move_one_row_up : Screen → Screen
framebuffer_move_one_row_up s = record s {
  fb = move_rows s.fb_width s.fb_height (stride s) s.pen.bg s.fb;
}

unfoldable pub paint : (bg : ℕ) → Screen → Screen
paint bg s =
    for_range s.fb_height 0
      (λ (y : ℕ). for_range s.fb_width 0 (λ (x : ℕ). framebuffer_draw_pixel x y bg)) s

unfoldable pub initialize_framebuffer : (width height pitch : ℕ) → Screen → Screen
initialize_framebuffer width height pitch s =
    let t =
      paint background (record s { fb_width = width; fb_height = height; fb_pitch = pitch }) in
    record t {
      cursor_x = 0;
      cursor_y = 0;
      pen = record { x = 0; y = 0; fg = text_color; bg = background };
      gfx_mode = 1;
    }

-- `BackspaceDrawOver`
unfoldable pub backspace_draw_over : (column row : ℕ) → Screen → Screen
backspace_draw_over column row s = record s {
  fb =
      for_range char_height 0
        (λ (i : ℕ).
          for_range char_width 0
            (λ (j : ℕ). set_pixel ((column + i) * stride s + (row + j)) s.pen.bg))
        s.fb;
}

unfoldable pub changefg : ℕ → Screen → Screen
changefg color s = record s { pen = record s.pen { fg = color } }

unfoldable pub draw_line : (color length thickness x y : ℕ) → Screen → Screen
draw_line color length thickness x y s = record s {
  fb =
      for_range length 0
        (λ (i : ℕ).
          for_range thickness 0 (λ (j : ℕ). set_pixel ((j + y) * stride s + (i + x)) color))
        s.fb;
}

-- `setlimit` of keyboard.cpp
unfoldable pub setlimit : (x y : ℕ) → Screen → Screen
setlimit x y s = record s {
  limit_x = x;
  limit_y = y;
  cursor_x = u32 (x * char_width);
  cursor_y = u32 (y * char_height);
}

-- The first test of `putcharonTerm`.
unfoldable pub advance_pen : Screen → Screen
advance_pen s =
    if ltb char_height (u32 (s.pen.x + char_width)) && ltb (u32 (s.pen.x + char_width)) (2 ^ 31)
    then record s { pen = record s.pen { x = 0; y = i16 (s.pen.y + char_height) } }
    else s

-- Behind the last row.
unfoldable pub scroll_down : Screen → Screen
scroll_down s =
    if leb s.fb_height s.pen.y
    then framebuffer_move_one_row_up (record s {
      pen = record s.pen { x = 0; y = i16 (sub32 s.fb_height char_height) };
      cursor_x = 0;
      cursor_y = sub32 s.fb_height char_height;
    })
    else s

-- Behind the last column.
unfoldable pub wrap_line : Screen → Screen
wrap_line s =
    if leb s.fb_width s.pen.x
    then record s {
      pen = record s.pen { x = 0; y = i16 (s.pen.y + char_height) };
      cursor_x = 0;
      cursor_y = u32 (s.cursor_y + char_height);
    }
    else s

unfoldable pub place_pen : (x y : ℕ) → Screen → Screen
place_pen x y s = record s { pen = record s.pen { x = i16 x; y = i16 y } }

unfoldable pub new_line : Screen → Screen
new_line s =
    let t = if leb s.fb_height s.cursor_y then framebuffer_move_one_row_up s else s in
    record t { cursor_x = 0; cursor_y = u32 (t.cursor_y + char_height) }

-- The step of a backspace to the row above.
unfoldable pub back_row : Screen → Screen
back_row s =
    if s.cursor_x == 0
    then record s { cursor_y = sub32 s.cursor_y char_height; cursor_x = s.fb_width }
    else s

-- `buffer[index] = ' '; --index`, with an `int` for the index
unfoldable pub drop_input : Screen → Screen
drop_input s = record s { buffer = set_pixel s.index 32 s.buffer; index = sub32 s.index 1 }

unfoldable pub at_limit : Screen → Bool
at_limit s =
    s.cursor_x == u32 (s.limit_x * char_width) && s.cursor_y == u32 (s.limit_y * char_height)

unfoldable pub backspace : Screen → Screen
backspace s =
    if at_limit s
    then s
    else let t = drop_input (back_row s) in
      let x = sub32 t.cursor_x char_width in
      backspace_draw_over t.cursor_y x (record t { cursor_x = x })

module _ (ssfn_putc : ℕ → Pen × (ℕ → ℕ) → Pen × (ℕ → ℕ)) where
  unfoldable pub draw : ℕ → Screen → Screen
  draw c s = let drawn = ssfn_putc c (s.pen, s.fb) in record s { pen = drawn.0; fb = drawn.1 }

  unfoldable pub putchar_on_term : (c x y : ℕ) → Screen → Screen
  putchar_on_term c x y s = draw c (wrap_line (scroll_down (place_pen x y (advance_pen s))))

  -- The default case.
  unfoldable pub put_glyph : ℕ → Screen → Screen
  put_glyph c s =
      let t = putchar_on_term c s.cursor_x s.cursor_y s in
      record t { cursor_x = u32 (t.cursor_x + char_width) }

  unfoldable pub put_glyphs : Text → Screen → Screen
  put_glyphs [] s = s
  put_glyphs (c ∷ cs) s = put_glyphs cs (put_glyph c s)

  unfoldable pub gfx_putchar : ℕ → Screen → Screen
  gfx_putchar c s =
      if c == 13 || c == 10
      then new_line s
      else if c == 8
      then backspace s
      else if c == 9
      then put_glyphs (32 ∷ 32 ∷ 32 ∷ 32 ∷ 32 ∷ []) s
      else put_glyph c s

  unfoldable pub putstring : Text → Screen → Screen
  putstring [] s = s
  putstring (c ∷ cs) s = putstring cs (gfx_putchar c s)

-- The terminal of the boot loader: `term_write` is a parameter. `println` passes the length of the
-- string, and `putchar` a string of one byte that nothing ends but what lies behind it.
module _ {T : Type 0} (term_write : Text → (length : ℕ) → T → T) where
  unfoldable pub println : Text → T → T
  println string t = term_write string (strlen string) t

  unfoldable pub text_putchar : (behind : Text) → ℕ → T → T
  text_putchar behind c t = println (c ∷ behind) t
