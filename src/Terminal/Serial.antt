-- ===== src/Terminal/Serial.antt =====
-- Kernel/src/terminal/serial.cpp: the serial line and its buffer.
use husky_os.Base.{
  ℕ, zero, suc, ◌+◌, Option, some, none, [], ◌∷◌, ltb, ◌==◌, ◌>>=◌, if◌then◌else◌, bit_and,
}
use husky_os.Klib.Text.{Text}
use husky_os.Cpu.Port.{Ports}
use husky_os.Cpu.Pic.{outportb}

abbrev pub port_com1 : ℕ
port_com1 = 0x3f8

abbrev pub bufsize : ℕ
bufsize = 8192

-- `buffer` and `idx`, with what lies behind the buffer, and the machine.
pub record Serial (S : Type 0) : Type 0 where
  pub buffer : ℕ → ℕ
  pub idx : ℕ
  pub line : S

abbrev pub put_at : (i value : ℕ) → (ℕ → ℕ) → ℕ → ℕ
put_at i value buffer j = if j == i then value else buffer j

-- `memset(buffer, 0, BUFSIZE)`
abbrev pub cleared : (ℕ → ℕ) → ℕ → ℕ
cleared buffer j = if ltb j bufsize then 0 else buffer j

module _ {S : Type 0} (ports : Ports S) where
  -- A `char` of the line, once the receiver has one.
  unfoldable pub read_serial : (fuel : ℕ) → S → Option (ℕ × S)
  read_serial zero s = none
  read_serial (suc fuel) s =
      let on = read_serial fuel (ports.reading (port_com1 + 5) s) in
      if bit_and (ports.input s (port_com1 + 5)) 1 == 0
      then on
      else let t = ports.reading (port_com1 + 5) s in
        some (ports.input t port_com1, ports.reading port_com1 t)

  -- `serialPrint`: the loop waits for the transmitter.
  unfoldable pub serial_print : (fuel c : ℕ) → S → Option S
  serial_print zero c s = none
  serial_print (suc fuel) c s =
      let on = serial_print fuel c (ports.reading (port_com1 + 5) s) in
      if bit_and (ports.input s (port_com1 + 5)) 0x20 == 0
      then on
      else some (outportb ports port_com1 c (ports.reading (port_com1 + 5) s))

  -- `serialWrite`, over at most `rounds` characters.
  unfoldable pub serial_write : (fuel rounds : ℕ) → (ℕ → ℕ) → (i : ℕ) → S → Option S
  serial_write fuel zero str i s = none
  serial_write fuel (suc rounds) str i s =
      if str i == 0
      then some s
      else do t ← serial_print fuel (str i) s; serial_write fuel rounds str (i + 1) t

  unfoldable pub flush_serial : (fuel : ℕ) → Serial S → Option (Serial S)
  flush_serial fuel s = do
    t ← serial_write fuel (bufsize + 1) s.buffer 0 s.line
    some (record s { buffer = cleared s.buffer; idx = 0; line = t })

  unfoldable pub make_room : (fuel : ℕ) → Serial S → Option (Serial S)
  make_room fuel s = if ltb bufsize (s.idx + 1) then flush_serial fuel s else some s

  abbrev pub store : ℕ → Serial S → Serial S
  store c s = record s { buffer = put_at (s.idx + 1) 0 (put_at s.idx c s.buffer); idx = s.idx + 1 }

  unfoldable pub serial_putchar : (fuel c : ℕ) → Serial S → Option (Serial S)
  serial_putchar fuel c s = do
    t ← make_room fuel s
    if c == 10 then flush_serial fuel (store c t) else some (store c t)

  -- What `debug` does with the characters that `vkprint` prints.
  unfoldable pub serial_put : (fuel : ℕ) → Text → Serial S → Option (Serial S)
  serial_put fuel [] s = some s
  serial_put fuel (c ∷ cs) s = do t ← serial_putchar fuel c s; serial_put fuel cs t

  unfoldable pub init_serial : Serial S → Serial S
  init_serial s = record s {
    buffer = cleared s.buffer;
    line = outportb ports (port_com1 + 4) 0x0b (
        outportb ports (port_com1 + 2) 0xc7 (
          outportb ports (port_com1 + 3) 0x03 (
            outportb ports (port_com1 + 1) 0x00 (
              outportb ports port_com1 0x03 (
                outportb ports (port_com1 + 3) 0x80
                  (outportb ports (port_com1 + 1) 0x00 s.line))))));
  }
