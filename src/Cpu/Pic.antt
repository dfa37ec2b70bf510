-- ===== src/Cpu/Pic.antt =====
-- Kernel/src/cpu/pic/pic.cpp: the two interrupt controllers.
pub mod Controllers
pub mod Masks
mod Examples
use husky_os.Base.{ℕ, ◌+◌, ◌-◌, ◌^◌, ltb, leb, if◌then◌else◌, u8, bit_and, bit_or}
use husky_os.Cpu.Port.{Ports}

abbrev pub pic1_command : ℕ
pic1_command = 0x20

abbrev pub pic1_data : ℕ
pic1_data = 0x21

abbrev pub pic2_command : ℕ
pic2_command = 0xa0

abbrev pub pic2_data : ℕ
pic2_data = 0xa1

-- The port of a line, and the line's number at its controller.
unfoldable pub port_of : ℕ → ℕ
port_of irq_line = if ltb irq_line 8 then pic1_data else pic2_data

unfoldable pub line_of : ℕ → ℕ
line_of irq_line = if ltb irq_line 8 then irq_line else irq_line - 8

-- `value | (1 << line)` and `value & ~(1 << line)` in a `uint8_t`.
unfoldable pub mask_with : (value line : ℕ) → ℕ
mask_with value line = u8 (bit_or value (2 ^ line))

unfoldable pub mask_without : (value line : ℕ) → ℕ
mask_without value line = u8 (bit_and value (2 ^ 32 - 1 - 2 ^ line))

module _ {S : Type 0} (ports : Ports S) where
  abbrev pub outportb : (port value : ℕ) → S → S
  outportb port value s = ports.output port (u8 value) s

  -- `io_wait` reads port 0x80.
  abbrev pub io_wait : S → S
  io_wait s = ports.reading 0x80 s

  unfoldable pub pic_disable : S → S
  pic_disable s = outportb pic1_data 0xff (outportb pic2_data 0xff s)

  -- A pair of writes, to the first and to the second controller.
  abbrev pub both : (port1 value1 port2 value2 : ℕ) → S → S
  both port1 value1 port2 value2 s = outportb port2 value2 (outportb port1 value1 s)

  unfoldable pub pic_start : S → S
  pic_start s = io_wait (
      outportb pic2_data 0x01 (
        io_wait (
          outportb pic1_data 0x01 (
            io_wait (
              both pic1_data 0x00 pic2_data 0x00 (
                io_wait (
                  both pic1_data 0x01 pic2_data 0x01 (
                    io_wait (
                      both pic1_data 0x04 pic2_data 0x02 (
                        io_wait (
                          both pic1_data 0x20 pic2_data 0x28
                            (io_wait (both pic1_command 0x11 pic2_command 0x11 s)))))))))))))

  unfoldable pub pic_remap : S → S
  pic_remap s =
      let mask1 = ports.input s pic1_data in
      let s1 = ports.reading pic1_data s in
      let mask2 = ports.input s1 pic2_data in
      both pic1_data mask1 pic2_data mask2 (pic_start (ports.reading pic2_data s1))

  unfoldable pub pic_set_mask : ℕ → S → S
  pic_set_mask irq_line s =
      outportb (port_of irq_line) (mask_with (ports.input s (port_of irq_line)) (line_of irq_line))
        (ports.reading (port_of irq_line) s)

  unfoldable pub pic_clear_mask : ℕ → S → S
  pic_clear_mask irq_line s =
      outportb (port_of irq_line)
        (mask_without (ports.input s (port_of irq_line)) (line_of irq_line))
        (ports.reading (port_of irq_line) s)

  unfoldable pub pic_signal_eoi : ℕ → S → S
  pic_signal_eoi isr_number s =
      outportb pic1_command 0x20 (if leb 40 isr_number then outportb pic2_command 0x20 s else s)
