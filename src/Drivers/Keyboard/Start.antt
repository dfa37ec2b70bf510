-- ===== src/Drivers/Keyboard/Start.antt =====
-- Kernel/src/drivers/keyboard.cpp: `EnableKeyboard`, which puts the handler into the table that the
-- common interrupt handler looks into.
use husky_os.Base.{ℕ, Option}
use husky_os.Cpu.Port.{Ports}
use husky_os.Cpu.Isr.{Handler, Tables, register_interrupt_handler}
use husky_os.Drivers.Keyboard.{Keyboard, keyboard_init}

-- `keyboard_irq_handler` is the handler for the machine as a whole.
unfoldable pub enable_keyboard :
    {S : Type 0}
    → Ports S
    → (fuel : ℕ) → (keyboard_irq_handler : Handler S) → Keyboard
    → Tables S
    → S
    → Keyboard × Tables S × Option S
enable_keyboard ports fuel keyboard_irq_handler k t s =
    let (started, on) = keyboard_init ports fuel k s in
    (
      record started { is_keyboard_active = 0 },
      register_interrupt_handler 1 keyboard_irq_handler t,
      on,
    )
