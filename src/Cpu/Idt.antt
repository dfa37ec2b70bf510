-- ===== src/Cpu/Idt.antt =====
-- Kernel/src/cpu/idt/idt.cpp, Kernel/include/idt.h, and the gates of Kernel/src/cpu/isr/isr.cpp.
pub mod Gates
mod Examples
use husky_os.Base.{
  ℕ, zero, suc, ◌+◌, ◌-◌, ◌*◌, ◌/◌, ◌%◌, ◌^◌, ◌==◌, if◌then◌else◌, u8, u16, u32, u64, bit_and,
  bit_or,
}
use husky_os.Memory.Frames.{Frames, request_page}
use husky_os.Cpu.Port.{Ports}
use husky_os.Cpu.Pic.{pic_remap, pic_set_mask}

-- `idt_desc_entry_t`
pub record Gate : Type 0 where
  pub offset_0 : ℕ
  pub selector : ℕ
  pub ist : ℕ
  pub type_attr : ℕ
  pub offset_1 : ℕ
  pub offset_2 : ℕ
  pub ignore : ℕ

unfoldable pub set_offset : ℕ → Gate → Gate
set_offset offset g = record g {
  offset_0 = u16 (bit_and offset (2 ^ 16 - 1));
  offset_1 = u16 (bit_and (offset / 2 ^ 16) (2 ^ 16 - 1));
  offset_2 = u32 (bit_and (offset / 2 ^ 32) (2 ^ 32 - 1));
}

unfoldable pub get_offset : Gate → ℕ
get_offset g =
    bit_or (bit_or (bit_or 0 g.offset_0) (u64 (g.offset_1 * 2 ^ 16))) (u64 (g.offset_2 * 2 ^ 32))

-- The table that `idtr` points to, by the number of the entry.
pub record Idt : Type 0 where
  pub limit : ℕ
  pub offset : ℕ
  pub gates : ℕ → Gate

unfoldable pub fill_gate : (handler type_attr selector : ℕ) → Gate → Gate
fill_gate handler type_attr selector g = record (set_offset handler g) {
  type_attr = type_attr;
  selector = selector;
  ist = 0;
}

unfoldable pub set_idt_gate : (handler entry_offset type_attr selector : ℕ) → Idt → Idt
set_idt_gate handler entry_offset type_attr selector t = record t {
  gates = λ k.
      if u8 entry_offset == k
      then fill_gate handler (u8 type_attr) (u8 selector) (t.gates k)
      else t.gates k;
}

abbrev pub idt_ta_interrupt_gate : ℕ
idt_ta_interrupt_gate = 0x8e

-- `set_idt_gate((void *)intr_stub_<n>, n, idt_ta_interrupt_gate, 0x08)` for `count` vectors from
-- `first` on; the stubs are written in assembly.
unfoldable pub set_gates : (stub : ℕ → ℕ) → (count first : ℕ) → Idt → Idt
set_gates stub zero first t = t
set_gates stub (suc count) first t =
    set_gates stub count (first + 1) (set_idt_gate (stub first) first idt_ta_interrupt_gate 0x08 t)

pub record Interrupts (S : Type 0) : Type 0 where
  pub idt : Idt
  pub frames : Frames
  pub machine : S

-- `interrupts_init`: the table stands in a new page, whose contents `page` are what they were.
unfoldable pub interrupts_init :
    {S : Type 0} → Ports S → (stub : ℕ → ℕ) → (page : ℕ → ℕ → Gate) → Frames → S → Interrupts S
interrupts_init ports stub page frames machine =
    let (address, frames') = request_page frames in
    let t =
      set_gates stub 32 0 (record { limit = 0xfff; offset = address; gates = page address }) in
    let m = pic_remap ports machine in
    let t' = set_idt_gate (stub 255) 255 idt_ta_interrupt_gate 0x08 (set_gates stub 16 32 t) in
    record { idt = t'; frames = frames'; machine = pic_set_mask ports 1 (pic_set_mask ports 0 m) }
