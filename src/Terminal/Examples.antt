-- ===== src/Terminal/Examples.antt =====
-- The screen and the serial line on concrete devices.
use husky_os.Base.{
  ℕ, ◌+◌, ◌*◌, ◌≤◌, ◌<◌, ◌≡◌, Bool, true, false, List, [], ◌∷◌, ◌++◌, ◌==◌, if◌then◌else◌, refl,
  arith, bit_and,
}
use husky_os.Klib.Text.{Text}
use husky_os.Klib.Printf.{Arguments}
use husky_os.Klib.Printf.Items.{Item, literal, convert, long, hex}
use husky_os.Cpu.Port.{Ports}
use husky_os.Terminal.Screen.{
  Pen, Screen, stride, framebuffer_move_one_row_up, backspace, put_glyph, putstring, at_limit,
  putchar_on_term, draw, wrap_line, scroll_down, place_pen, advance_pen,
}
use husky_os.Terminal.Scroll.{framebuffer_move_one_row_up_lem}
use husky_os.Terminal.Cursor.{IsScreen}
use husky_os.Terminal.Erase.{backspace-put_glyph}
use husky_os.Terminal.Column.{putstring-IsScreen}
use husky_os.Terminal.Serial.{Serial}
use husky_os.Terminal.Delivery.{Uart}

-- Two columns and two rows; every pixel has its index as its colour. The cursor is in the corner
-- below on the right.
abbrev screen : Screen
screen = record {
  fb = λ i. i;
  fb_width = 16;
  fb_height = 32;
  fb_pitch = 64;
  pen = record { x = 0; y = 0; fg = 1; bg = 7 };
  cursor_x = 8;
  cursor_y = 16;
  limit_x = 0;
  limit_y = 0;
  buffer = λ i. 0;
  index = 0;
  gfx_mode = 1;
}

-- A font of one pixel.
abbrev dot : ℕ → Pen × (ℕ → ℕ) → Pen × (ℕ → ℕ)
dot c (pen, fb) = (pen, λ i. if i == pen.y * 16 + pen.x then pen.fg else fb i)

screen-IsScreen : IsScreen screen
screen-IsScreen = record {
  columns = refl;
  wide = omega arith;
  width_fits = omega arith;
  tall = omega arith;
  height_fits = omega arith;
  on_column = refl;
  on_row = omega arith;
}

framebuffer_move_one_row_up_lem_example :
    (3 + 16 < 32
      → (framebuffer_move_one_row_up screen).fb (3 * stride screen + 5)
        ≡ screen.fb ((3 + 16) * stride screen + 5))
    × (16 ≤ 3
        → 32 ≤ 3 + 16
        → 3 < 32
        → (framebuffer_move_one_row_up screen).fb (3 * stride screen + 5) ≡ screen.pen.bg)
framebuffer_move_one_row_up_lem_example =
    framebuffer_move_one_row_up_lem screen 3 5 (omega arith) (unfold stride in omega arith)
      (omega arith)

not_at_limit : at_limit (put_glyph dot 65 screen) ≡ false
unfolding at_limit put_glyph putchar_on_term draw wrap_line scroll_down place_pen advance_pen
not_at_limit = refl

backspace-put_glyph_example :
    ((backspace (put_glyph dot 65 screen)).cursor_x ≡ 8)
    × ((backspace (put_glyph dot 65 screen)).cursor_y ≡ 16)
    × ((i j : ℕ)
        → i < 16
        → j < 8
        → (backspace (put_glyph dot 65 screen)).fb ((16 + i) * stride screen + (8 + j))
          ≡ (put_glyph dot 65 screen).pen.bg)
backspace-put_glyph_example =
    backspace-put_glyph dot 65 screen screen-IsScreen (unfold stride in omega arith) (omega arith)
      (omega arith) not_at_limit

-- "A", a tab, an end of line, two backspaces and "B"
abbrev text : Text
text = 65 ∷ 9 ∷ 10 ∷ 8 ∷ 8 ∷ 66 ∷ []

putstring-IsScreen_example : IsScreen (putstring dot text screen)
putstring-IsScreen_example = putstring-IsScreen dot text screen screen-IsScreen

-- A UART that is busy for one look after each character.
abbrev ports : Ports (Text × Bool)
ports = record {
  input = λ s port. if s.1 then 0 else 0x20;
  reading = λ port s. (s.0, false);
  output = λ port value s. (s.0 ++ value ∷ [], true);
}

abbrev looks : Bool → ℕ
looks true = 1
looks false = 0

looks-few : (busy : Bool) → looks busy < 2
looks-few true = omega arith
looks-few false = omega arith

looks-fewer : (busy : Bool) → bit_and (if busy then 0 else 0x20) 0x20 ≡ 0 → looks false < looks busy
looks-fewer true e = omega arith
looks-fewer false e = omega (arith, e)

abbrev uart : Uart ports
uart = record {
  sent = λ s. s.0;
  delay = λ s. looks (s.1);
  patience = 2;
  patient = λ s. looks-few (s.1);
  sent-reading = λ s. refl;
  sent-output = λ c s. refl;
  empties = λ s e. looks-fewer (s.1) e;
}

-- "a" is in the buffer, and what is behind is 0.
abbrev serial : Serial (Text × Bool)
serial = record { buffer = λ i. if i == 0 then 97 else 0; idx = 1; line = ([], false) }

-- The word 255, as "%lx" and the end of the line.
abbrev arguments : Arguments
arguments = record {
  word = λ i. 255;
  real = λ i. i;
  string_at = λ a. [];
  floats = record { truncated = λ f. f; scaled_rest = λ f n s. 0 };
}

abbrev items : List Item
items = convert (long ∷ []) hex ∷ literal 10 ∷ []
