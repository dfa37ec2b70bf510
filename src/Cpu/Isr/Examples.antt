-- ===== src/Cpu/Isr/Examples.antt =====
-- A handler that counts, registered for line 1.
use husky_os.Base.{ℕ, ◌+◌, ◌<◌, ◌≡◌, ◌≢◌, none, arith}
use husky_os.Cpu.Port.{Ports}
use husky_os.Cpu.Pic.{pic_signal_eoi}
use husky_os.Cpu.Isr.{
  Handler, Tables, returned, run, intr_common_handler_c, register_interrupt_handler,
}
use husky_os.Cpu.Isr.Dispatch.{intr_common_handler_c-register}

abbrev ports : Ports ℕ
ports = record { input = λ s p. 0; reading = λ p s. s; output = λ p v s. s + v }

abbrev tables : Tables ℕ
tables = record { handlers = λ k. none; static_handlers = λ k. none }

abbrev counting : Handler ℕ
counting s = s + 1

intr_common_handler_c-register_example :
    (intr_common_handler_c ports (register_interrupt_handler 1 counting tables) (1 + 32) 7
      ≡ returned (pic_signal_eoi ports (1 + 32) (counting (run (tables.handlers (1 + 32)) 7))))
    × ((n : ℕ)
        → n < 256
        → n ≢ 1 + 32
        → intr_common_handler_c ports (register_interrupt_handler 1 counting tables) n 7
          ≡ intr_common_handler_c ports tables n 7)
intr_common_handler_c-register_example =
    intr_common_handler_c-register ports tables 1 counting 7 (omega arith)
