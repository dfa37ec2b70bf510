-- ===== src/Terminal/Mode.antt =====
-- Printing leaves the mode of the output, so a message goes to the screen as a whole.
use husky_os.Base.{
  ℕ, ◌+◌, ◌≡◌, ◌&&◌, ◌||◌, true, false, some, List, [], ◌∷◌, ◌==◌, leb, ltb, u32, refl, ap, ◌∙◌,
  inl, inr, Bool-cases, All,
}
use husky_os.Klib.Text.{Text}
use husky_os.Klib.Printf.{Arguments}
use husky_os.Klib.Printf.Items.{Item, fits, written, render}
use husky_os.Klib.Printf.Render.{vkprint-render}
use husky_os.Terminal.Screen.{
  Pen, Screen, framebuffer_move_one_row_up, backspace_draw_over, new_line, back_row, drop_input,
  at_limit, backspace, put_glyph, put_glyphs, gfx_putchar, wrap_line, scroll_down, place_pen,
  advance_pen, putchar_on_term, draw, putstring,
}
use husky_os.Terminal.Console.{Console, putchar, put_text, kprint}

new_line-mode : (s : Screen) → (new_line s).gfx_mode ≡ s.gfx_mode
unfolding new_line framebuffer_move_one_row_up
new_line-mode s = elim (Bool-cases (leb s.fb_height s.cursor_y)) [
  | inl e ↦ rw e refl
  | inr e ↦ rw e refl
]

backspace-mode : (s : Screen) → (backspace s).gfx_mode ≡ s.gfx_mode
unfolding backspace back_row drop_input backspace_draw_over
backspace-mode s = elim (Bool-cases (at_limit s)) [
  | inl e ↦ rw e refl
  | inr e ↦ elim (Bool-cases (s.cursor_x == 0)) [ inl d ↦ rw (e, d) refl | inr d ↦ rw (e, d) refl ]
]

advance_pen-mode : (s : Screen) → (advance_pen s).gfx_mode ≡ s.gfx_mode
unfolding advance_pen
advance_pen-mode s =
    elim (Bool-cases (ltb 16 (u32 (s.pen.x + 8)) && ltb (u32 (s.pen.x + 8)) 2147483648)) [
      | inl e ↦ rw e refl
      | inr e ↦ rw e refl
    ]

scroll_down-mode : (s : Screen) → (scroll_down s).gfx_mode ≡ s.gfx_mode
unfolding scroll_down framebuffer_move_one_row_up
scroll_down-mode s = elim (Bool-cases (leb s.fb_height s.pen.y)) [
  | inl e ↦ rw e refl
  | inr e ↦ rw e refl
]

wrap_line-mode : (s : Screen) → (wrap_line s).gfx_mode ≡ s.gfx_mode
unfolding wrap_line
wrap_line-mode s = elim (Bool-cases (leb s.fb_width s.pen.x)) [
  | inl e ↦ rw e refl
  | inr e ↦ rw e refl
]

module _ (ssfn_putc : ℕ → Pen × (ℕ → ℕ) → Pen × (ℕ → ℕ)) where
  put_glyph-mode : (c : ℕ) (s : Screen) → (put_glyph ssfn_putc c s).gfx_mode ≡ s.gfx_mode
  unfolding put_glyph putchar_on_term draw place_pen
  put_glyph-mode c s =
      wrap_line-mode (scroll_down (place_pen s.cursor_x s.cursor_y (advance_pen s)))
      ∙ scroll_down-mode (place_pen s.cursor_x s.cursor_y (advance_pen s))
      ∙ advance_pen-mode s

  put_glyphs-mode : (cs : Text) (s : Screen) → (put_glyphs ssfn_putc cs s).gfx_mode ≡ s.gfx_mode
  unfolding put_glyphs
  put_glyphs-mode [] s = refl
  put_glyphs-mode (c ∷ cs) s = put_glyphs-mode cs (put_glyph ssfn_putc c s) ∙ put_glyph-mode c s

  gfx_putchar-mode : (c : ℕ) (s : Screen) → (gfx_putchar ssfn_putc c s).gfx_mode ≡ s.gfx_mode
  unfolding gfx_putchar
  gfx_putchar-mode c s = elim (Bool-cases (c == 13 || c == 10)) [
    | inl e ↦ rw e (new_line-mode s)
    | inr e ↦ elim (Bool-cases (c == 8)) [
      | inl d ↦ rw (e, d) (backspace-mode s)
      | inr d ↦ elim (Bool-cases (c == 9)) [
        | inl f ↦ rw (e, d, f) (put_glyphs-mode (32 ∷ 32 ∷ 32 ∷ 32 ∷ 32 ∷ []) s)
        | inr f ↦ rw (e, d, f) (put_glyph-mode c s)
      ]
    ]
  ]

  module _ {T : Type 0} (term_write : Text → (length : ℕ) → T → T) (behind : Text) where
    put_text-putstring :
        (cs : Text) (k : Console T)
        → (k.screen.gfx_mode == 0) ≡ false
        → put_text ssfn_putc term_write behind cs k
          ≡ record k { screen = putstring ssfn_putc cs k.screen }
    unfolding put_text putstring putchar
    put_text-putstring [] k on = refl
    put_text-putstring (c ∷ cs) k on =
        let next = record k { screen = gfx_putchar ssfn_putc c k.screen } in
        let still = ap (λ (m : ℕ). m == 0) (gfx_putchar-mode c k.screen) ∙ on in
        rw on (put_text-putstring cs next still)

    -- In the graphic mode `kprint` writes to the screen what the items of its format print, as
    -- `putstring` writes a string, and leaves the boot loader's terminal alone.
    pub kprint-render :
        (args : Arguments) (is : List Item) (text : Text) (k : Console T)
        → (k.screen.gfx_mode == 0) ≡ false
        → All (λ (i : Item). fits i ≡ true) is
        → render args is 0 0 ≡ some text
        → kprint ssfn_putc term_write behind args (written is) k
          ≡ some (record k { screen = putstring ssfn_putc text k.screen })
    unfolding kprint
    kprint-render args is text k on f e =
        rw ((vkprint-render args is f).0, e) (ap some (put_text-putstring text k on))
