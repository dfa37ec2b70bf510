-- ===== src/Terminal/Console.antt =====
-- Kernel/src/klib/hkStdio.cpp and Kernel/src/terminal/serial.cpp: the kernel's messages, formatted
-- and put character by character to the screen, the boot loader's terminal or the serial line.
use husky_os.Base.{length, ℕ, Option, some, [], ◌∷◌, ◌==◌, if◌then◌else◌, ◌>>=◌}
use husky_os.Klib.Text.{Text}
use husky_os.Klib.Printf.{Arguments, vkprint}
use husky_os.Cpu.Port.{Ports}
use husky_os.Terminal.Screen.{
  Pen, Screen, gfx_putchar, putstring, changefg, text_putchar, text_color,
}
use husky_os.Terminal.Serial.{Serial, serial_put}

pub record Console (T : Type 0) : Type 0 where
  pub screen : Screen
  pub terminal : T

module _ {T : Type 0} (ssfn_putc : ℕ → Pen × (ℕ → ℕ) → Pen × (ℕ → ℕ))
    (term_write : Text → (length : ℕ) → T → T) (behind : Text) where
  unfoldable pub putchar : ℕ → Console T → Console T
  putchar c k =
      if k.screen.gfx_mode == 0
      then record k { terminal = text_putchar term_write behind c k.terminal }
      else record k { screen = gfx_putchar ssfn_putc c k.screen }

  unfoldable pub put_text : Text → Console T → Console T
  put_text [] k = k
  put_text (c ∷ cs) k = put_text cs (putchar c k)

  unfoldable pub kprint : Arguments → Text → Console T → Option (Console T)
  kprint args fmt k = do text ← vkprint args fmt; some (put_text text k)

  abbrev pub on_screen : (Screen → Screen) → Console T → Console T
  on_screen f k = record k { screen = f k.screen }

  unfoldable pub statuslog :
      (color : ℕ) (status : Text) → Arguments → Text → Console T → Option (Console T)
  statuslog color status args fmt k =
      let s = gfx_putchar ssfn_putc 32 (gfx_putchar ssfn_putc 91 k.screen) in
      let t = changefg text_color (putstring ssfn_putc status (changefg color s)) in
      let u = gfx_putchar ssfn_putc 32 (gfx_putchar ssfn_putc 93 (gfx_putchar ssfn_putc 32 t)) in
      kprint args fmt (record k { screen = u })

  unfoldable pub assertpanic : Arguments → Text → Console T → Option (Console T)
  assertpanic args str k = kprint args str (on_screen (changefg 0xff0000) k)

module _ {S : Type 0} (ports : Ports S) where
  -- `debug`
  unfoldable pub debug : (fuel : ℕ) → Arguments → Text → Serial S → Option (Serial S)
  debug fuel args fmt s = do text ← vkprint args fmt; serial_put ports fuel text s
