-- ===== src/Cpu/Isr.antt =====
-- Kernel/src/cpu/isr/isr.cpp: the common interrupt handler and the tables of handlers.
-- A handler is a parameter: what it does to the machine.
pub mod Dispatch
mod Examples
use husky_os.Base.{
  ℕ, ◌+◌, ◌-◌, Bool, true, false, ◌&&◌, Option, some, none, leb, ltb, ◌==◌, if◌then◌else◌, sub64,
  u8,
}
use husky_os.Cpu.Port.{Ports}
use husky_os.Cpu.Pic.{outportb, pic_signal_eoi}

abbrev pub Handler : Type 0 → Type 0
Handler S = S → S

-- `handlers` and `static_handlers`. The entries past the end of the second, which the handler
-- reads for a vector below 32 and does not use, are whatever lies there.
pub record Tables (S : Type 0) : Type 0 where
  pub handlers : ℕ → Option (Handler S)
  pub static_handlers : ℕ → Option (Handler S)

-- How the common handler ends.
pub data Outcome (S : Type 0) : Type 0 where
  panicked : Outcome S
  halted : Outcome S
  returned : S → Outcome S

unfoldable pub run : {S : Type 0} → Option (Handler S) → S → S
run none s = s
run (some handler) s = handler s

unfoldable pub intr_common_handler_c :
    {S : Type 0} → Ports S → Tables S → (interrupt_number : ℕ) → S → Outcome S
intr_common_handler_c ports t n s =
    let handler = t.static_handlers (sub64 n 32) in
    if leb n 0x1f
    then panicked
    else if n == 0xff
    then halted
    else if (leb 0x20 n && leb n 0x2f)
    then returned (pic_signal_eoi ports n (run handler (run (t.handlers n) s)))
    else returned s

-- `register_interrupt_handler`, and the constructor and destructor of `interrupt_handler`. The
-- destructor clears the entry when it holds the object; `is_this` is that test.
unfoldable pub register_interrupt_handler :
    {S : Type 0} → (intr : ℕ) → Handler S → Tables S → Tables S
register_interrupt_handler intr handler t = record t {
  static_handlers = λ k. if k == u8 intr then some handler else t.static_handlers k;
}

unfoldable pub attach : {S : Type 0} → (int_num : ℕ) → Handler S → Tables S → Tables S
attach int_num handler t = record t {
  handlers = λ k. if k == u8 int_num then some handler else t.handlers k;
}

unfoldable pub detach : {S : Type 0} → (int_num : ℕ) → (is_this : Bool) → Tables S → Tables S
detach int_num is_this t = record t {
  handlers = λ k. if (k == u8 int_num && is_this) then none else t.handlers k;
}

-- `irq_check`
unfoldable pub irq_check : {S : Type 0} → Ports S → (irq_no : ℕ) → S → S
irq_check ports irq_no s =
    outportb ports 0x20 0x20 (if leb 12 irq_no then outportb ports 0xa0 0x20 s else s)

unfoldable pub irq_remap : {S : Type 0} → Ports S → S → S
irq_remap ports s =
    let started = outportb ports 0xa0 0x11 (outportb ports 0x20 0x11 s) in
    let moved = outportb ports 0xa1 0x28 (outportb ports 0x21 0x20 started) in
    let wired = outportb ports 0xa1 0x02 (outportb ports 0x21 0x04 moved) in
    let mode = outportb ports 0xa1 0x01 (outportb ports 0x21 0x01 wired) in
    outportb ports 0xa1 0x0 (outportb ports 0x21 0x0 mode)
