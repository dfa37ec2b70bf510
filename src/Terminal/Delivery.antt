-- ===== src/Terminal/Delivery.antt =====
-- What reaches the serial line: every character that is put, in order.
use husky_os.Base.{
  ℕ, zero, suc, ◌+◌, ◌^◌, ◌≤◌, ◌<◌, ◌≡◌, false, Option, some, none, [], ◌∷◌, ◌++◌, ltb, ◌==◌,
  bit_and, u8, ◌>>=◌, front, front-put, arith, refl, sym, ap, ◌∙◌, inl, inr, Bool-cases, All,
}
use mathlib.Core.List.{append-nil, append_assoc}
use husky_os.Klib.Text.{Text}
use husky_os.Cpu.Port.{Ports}
use husky_os.Terminal.Serial.{
  port_com1, bufsize, Serial, put_at, cleared, serial_print, serial_write, flush_serial, make_room,
  store, serial_putchar, serial_put,
}

-- What the manual of the UART says of its registers: the line takes what is written to its data
-- register, and while the transmitter is not empty each look at the status brings it nearer.
pub record Uart {S : Type 0} (ports : Ports S) : Type 0 where
  pub sent : S → Text
  pub delay : S → ℕ
  pub patience : ℕ
  pub patient : (s : S) → delay s < patience
  pub sent-reading : (s : S) → sent (ports.reading (port_com1 + 5) s) ≡ sent s
  pub sent-output : (c : ℕ) (s : S) → sent (ports.output port_com1 c s) ≡ sent s ++ c ∷ []
  pub empties :
      (s : S)
      → bit_and (ports.input s (port_com1 + 5)) 0x20 ≡ 0
      → delay (ports.reading (port_com1 + 5) s) < delay s

-- A character that is not the end of a string.
abbrev pub IsByte : ℕ → Type 0
IsByte c = (1 ≤ c) × (c < 2 ^ 8)

-- The buffer ends at its index, at the last byte behind it at most.
pub record IsSerial {S : Type 0} (s : Serial S) : Type 0 where
  pub fits : s.idx ≤ bufsize
  pub bytes : (j : ℕ) → j < s.idx → IsByte (s.buffer j)
  pub ended : s.buffer s.idx ≡ 0

module _ {S : Type 0} (ports : Ports S) (uart : Uart ports) where
  abbrev pub pending : Serial S → Text
  pending s = front s.idx 0 s.buffer

  serial_print-sent :
      (fuel c : ℕ) (s : S)
      → uart.delay s < fuel
      → c < 2 ^ 8
      → (t : S) × (serial_print ports fuel c s ≡ some t) × (uart.sent t ≡ uart.sent s ++ c ∷ [])
  unfolding serial_print
  serial_print-sent zero c s h small = elim h [ ]
  serial_print-sent (suc fuel) c s h small =
      let next = ports.reading (port_com1 + 5) s in
      elim (Bool-cases (bit_and (ports.input s (port_com1 + 5)) 0x20 == 0)) [
        | inl e ↦
            let busy : bit_and (ports.input s (port_com1 + 5)) 0x20 ≡ 0 = ground arith in
            let (t, done, gone) =
              serial_print-sent fuel c next (omega (arith, uart.empties s busy)) small in
            (t, rw e done, gone ∙ ap (λ (cs : Text). cs ++ c ∷ []) (uart.sent-reading s))
        | inr e ↦
            let byte : u8 c ≡ c = omega arith in
            (
              ports.output port_com1 c next,
              rw e (ap (λ (b : ℕ). some (ports.output port_com1 b next)) byte),
              uart.sent-output c next ∙ ap (λ (cs : Text). cs ++ c ∷ []) (uart.sent-reading s),
            )
      ]

  serial_write-sent :
      (fuel rounds n i : ℕ) (str : ℕ → ℕ) (s : S)
      → uart.patience ≤ fuel
      → n < rounds
      → ((j : ℕ) → j < n → IsByte (str (i + j)))
      → str (i + n) ≡ 0
      → (t : S) × (serial_write ports fuel rounds str i s ≡ some t)
        × (uart.sent t ≡ uart.sent s ++ front n i str)
  unfolding serial_write
  serial_write-sent fuel zero n i str s p h b e = elim h [ ]
  serial_write-sent fuel (suc rounds) zero i str s p h b e =
      let last : str i ≡ 0 = ap str (omega arith) ∙ e in
      (s, rw last refl, sym (append-nil (uart.sent s)))
  serial_write-sent fuel (suc rounds) (suc n) i str s p h b e =
      let here : str (i + 0) ≡ str i = ap str (omega arith) in
      let first = b 0 (omega arith) in
      let inside : (str i == 0) ≡ false = ground (arith, here, first.0) in
      let (t, done, gone) =
        serial_print-sent fuel (str i) s (omega (arith, uart.patient s))
          (omega (arith, here, first.1)) in
      let (u, rest, there) =
        serial_write-sent fuel rounds n (i + 1) str t p (omega arith)
          (λ j k.
            let same_place : str (i + suc j) ≡ str (i + 1 + j) = ap str (omega arith) in
            rw same_place at (b (suc j) (omega arith)))
          (ap str (omega arith) ∙ e) in
      (
        u,
        rw (inside, done) rest,
        there
            ∙ ap (λ (cs : Text). cs ++ front n (i + 1) str) gone
            ∙ append_assoc (uart.sent s) (str i ∷ []) (front n (i + 1) str),
      )

  flush_serial-sent :
      (fuel : ℕ) (s : Serial S)
      → uart.patience ≤ fuel
      → IsSerial s
      → (t : Serial S) × (flush_serial ports fuel s ≡ some t)
        × (t.idx ≡ 0)
        × IsSerial t
        × (uart.sent t.line ++ pending t ≡ uart.sent s.line ++ pending s)
  unfolding flush_serial
  flush_serial-sent fuel s p v =
      let (t, done, gone) =
        serial_write-sent fuel (bufsize + 1) s.idx 0 s.buffer s.line p (omega (arith, v.fits))
          (λ j k.
            let same_place : s.buffer j ≡ s.buffer (0 + j) = ap s.buffer (omega arith) in
            rw same_place at (v.bytes j k))
          (ap s.buffer (omega arith) ∙ v.ended) in
      (
        record s { buffer = cleared s.buffer; idx = 0; line = t },
        rw done refl,
        refl,
        record { fits = omega arith; bytes = λ j k. elim k [ ]; ended = refl },
        append-nil (uart.sent t) ∙ gone,
      )

  store-IsSerial :
      (c : ℕ) (s : Serial S) → IsSerial s → s.idx < bufsize → IsByte c → IsSerial (store ports c s)
  store-IsSerial c s v room byte = record {
    fits = omega (arith, room);
    bytes = λ j k. elim (Bool-cases (j == s.idx)) [
      | inl e ↦ let below : (j == s.idx + 1) ≡ false = ground arith in rw (below, e) byte
      | inr e ↦
          let below : (j == s.idx + 1) ≡ false = ground arith in
          rw (below, e) (v.bytes j (ground arith))
    ];
    ended = ground arith;
  }

  store-pending : (c : ℕ) (s : Serial S) → pending (store ports c s) ≡ pending s ++ c ∷ []
  store-pending c s =
      front-put s.idx c s.buffer (put_at (s.idx + 1) 0 (put_at s.idx c s.buffer))
        (λ j k. ground arith) (ground arith)

  make_room-sent :
      (fuel : ℕ) (s : Serial S)
      → uart.patience ≤ fuel
      → IsSerial s
      → (t : Serial S) × (make_room ports fuel s ≡ some t)
        × (t.idx < bufsize)
        × IsSerial t
        × (uart.sent t.line ++ pending t ≡ uart.sent s.line ++ pending s)
  unfolding make_room
  make_room-sent fuel s p v = elim (Bool-cases (ltb bufsize (s.idx + 1))) [
    | inl e ↦
        let (t, done, first, w, gone) = flush_serial-sent fuel s p v in
        (t, rw e done, omega (arith, first), w, gone)
    | inr e ↦ (s, rw e refl, ground arith, v, refl)
  ]

  serial_putchar-sent :
      (fuel c : ℕ) (s : Serial S)
      → uart.patience ≤ fuel
      → IsSerial s
      → IsByte c
      → (t : Serial S) × (serial_putchar ports fuel c s ≡ some t)
        × IsSerial t
        × (uart.sent t.line ++ pending t ≡ (uart.sent s.line ++ pending s) ++ c ∷ [])
        × (c ≡ 10 → t.idx ≡ 0)
  unfolding serial_putchar
  serial_putchar-sent fuel c s p v byte =
      let (t, made, room, w, same_so_far) = make_room-sent fuel s p v in
      let stored = store-IsSerial c t w room byte in
      let kept : uart.sent t.line ++ pending (store ports c t)
          ≡ (uart.sent s.line ++ pending s) ++ c ∷ [] =
        ap (λ (cs : Text). uart.sent t.line ++ cs) (store-pending c t)
        ∙ sym (append_assoc (uart.sent t.line) (pending t) (c ∷ []))
        ∙ ap (λ (cs : Text). cs ++ c ∷ []) same_so_far in
      elim (Bool-cases (c == 10)) [
        | inl e ↦
            let (u, done, first, x, gone) = flush_serial-sent fuel (store ports c t) p stored in
            (u, rw (made, e) done, x, gone ∙ kept, λ d. first)
        | inr e ↦ (store ports c t, rw (made, e) refl, stored, kept, λ d. ground arith)
      ]

  serial_put-sent :
      (fuel : ℕ) (cs : Text) (s : Serial S)
      → uart.patience ≤ fuel
      → IsSerial s
      → All IsByte cs
      → (t : Serial S) × (serial_put ports fuel cs s ≡ some t)
        × IsSerial t
        × (uart.sent t.line ++ pending t ≡ (uart.sent s.line ++ pending s) ++ cs)
  unfolding serial_put
  serial_put-sent fuel [] s p v bytes =
      (s, refl, v, sym (append-nil (uart.sent s.line ++ pending s)))
  serial_put-sent fuel (c ∷ cs) s p v bytes =
      let (t, done, w, kept, flushed) = serial_putchar-sent fuel c s p v (bytes.0) in
      let (u, rest, x, all) = serial_put-sent fuel cs t p w (bytes.1) in
      (
        u,
        rw done rest,
        x,
        all
            ∙ ap (λ (ds : Text). ds ++ cs) kept
            ∙ append_assoc (uart.sent s.line ++ pending s) (c ∷ []) cs,
      )

  serial_put-append :
      (fuel : ℕ) (cs ds : Text) (s : Serial S)
      → serial_put ports fuel (cs ++ ds) s
        ≡ (serial_put ports fuel cs s >>= λ t. serial_put ports fuel ds t)
  unfolding serial_put
  serial_put-append fuel [] ds s = refl
  serial_put-append fuel (c ∷ cs) ds s =
      elim (serial_putchar ports fuel c s)
        as (λ (o : Option (Serial S)).
          (o >>= λ t. serial_put ports fuel (cs ++ ds) t)
          ≡ ((o >>= λ t. serial_put ports fuel cs t) >>= λ t. serial_put ports fuel ds t)) [
            | none ↦ refl
            | some t ↦ serial_put-append fuel cs ds t
          ]

  -- A line that is put to the serial port is sent: the loops end, and all that was in the buffer,
  -- the line and its end reach the UART in order, for characters from 1 to 255, where the UART
  -- takes its characters within `patience` looks at its status.
  pub serial_put-line :
      (fuel : ℕ) (cs : Text) (s : Serial S)
      → uart.patience ≤ fuel
      → IsSerial s
      → All IsByte cs
      → (t : Serial S) × (serial_put ports fuel (cs ++ 10 ∷ []) s ≡ some t)
        × IsSerial t
        × (uart.sent t.line ≡ (uart.sent s.line ++ pending s) ++ (cs ++ 10 ∷ []))
  unfolding serial_put
  serial_put-line fuel cs s p v bytes =
      let (t, done, w, kept) = serial_put-sent fuel cs s p v bytes in
      let (u, last, x, all, flushed) =
        serial_putchar-sent fuel 10 t p w (omega arith, omega arith) in
      (
        u,
        serial_put-append fuel cs (10 ∷ []) s ∙ rw (done, last) refl,
        x,
        sym (append-nil (uart.sent u.line))
            ∙ ap (λ (ds : Text). uart.sent u.line ++ ds)
                (sym (ap (λ (n : ℕ). front n 0 u.buffer) (flushed refl)))
            ∙ all
            ∙ ap (λ (ds : Text). ds ++ 10 ∷ []) kept
            ∙ append_assoc (uart.sent s.line ++ pending s) cs (10 ∷ []),
      )
