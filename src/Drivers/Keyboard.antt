-- ===== src/Drivers/Keyboard.antt =====
-- Kernel/src/drivers/keyboard.cpp: the keyboard's interrupt handler. The scancode is what the
-- handler reads from port 0x60; what lies behind the table of key codes is a parameter.
mod Keys
pub mod Modifiers
pub mod Start
mod Examples
pub use Keys.*
use husky_os.Base.{
  ℕ, zero, suc, ◌+◌, ◌-◌, ◌%◌, ◌^◌, Bool, true, false, not, ◌&&◌, ◌||◌, Option, some, none, List,
  [], ◌∷◌, ltb, leb, ◌==◌, if◌then◌else◌, get_elem?, u8, bit_and,
}
use husky_os.Cpu.Port.{Ports}
use husky_os.Cpu.Pic.{pic_clear_mask, outportb}

-- The globals of the file, and the characters that were shown, the newest first.
pub record Keyboard : Type 0 where
  pub buffer : ℕ → ℕ
  pub index : ℕ
  pub is_keyboard_active : ℕ
  pub ctrl : Bool
  pub alt : Bool
  pub shift : Bool
  pub capslock : Bool
  pub numlock : Bool
  pub scrolllock : Bool
  pub shown : List ℕ

abbrev pub buffer_size : ℕ
buffer_size = 16384

-- The character that a key has with shift.
unfoldable pub shifted : ℕ → ℕ
shifted character =
    if character == 48
    then 41
    else if character == 49
    then 33
    else if character == 50
    then 64
    else if character == 51
    then 35
    else if character == 52
    then 36
    else if character == 53
    then 37
    else if character == 54
    then 94
    else if character == 55
    then 38
    else if character == 56
    then 42
    else if character == 57
    then 40
    else if character == 44
    then 60
    else if character == 46
    then 62
    else if character == 47
    then 63
    else if character == 59
    then 58
    else if character == 39
    then 34
    else if character == 91
    then 123
    else if character == 93
    then 125
    else if character == 96
    then 126
    else if character == 45
    then 95
    else if character == 61
    then 43
    else if character == 92
    then 124
    else character

abbrev pub is_lower : ℕ → Bool
is_lower character = leb 97 character && leb character 122

unfoldable pub upper : ℕ → ℕ
upper character = if is_lower character then character - 32 else character

unfoldable pub keycode_to_ascii : (shift capslock : Bool) → (keycode : ℕ) → ℕ
unfolding shifted upper
keycode_to_ascii true true keycode = shifted (u8 keycode)
keycode_to_ascii true false keycode = shifted (upper (u8 keycode))
keycode_to_ascii false true keycode = upper (u8 keycode)
keycode_to_ascii false false keycode = u8 keycode

abbrev pub word_at : Option ℕ → ℕ → ℕ
word_at none past = past
word_at (some key) past = key

unfoldable pub lookup_key : (past : ℕ → ℕ) → (scancode : ℕ) → ℕ
lookup_key past scancode = word_at (get_elem? standard_keycodes scancode) (past scancode)

-- The tests of the two chains.
abbrev pub is_ctrl : ℕ → Bool
is_ctrl key = key == key_lctrl || key == key_rctrl

abbrev pub is_alt : ℕ → Bool
is_alt key = key == key_lalt || key == key_ralt

abbrev pub is_shift : ℕ → Bool
is_shift key = key == key_lshift || key == key_rshift

-- A breakcode.
unfoldable pub release : ℕ → Keyboard → Keyboard
release key k =
    if is_ctrl key
    then record k { ctrl = false }
    else if is_alt key
    then record k { alt = false }
    else if is_shift key
    then record k { shift = false }
    else k

-- The chain for a key that is pressed: the new state and the character.
unfoldable pub press : ℕ → Keyboard → Keyboard × ℕ
press key k =
    if is_ctrl key
    then (record k { ctrl = true }, 0)
    else if is_alt key
    then (record k { alt = true }, 0)
    else if is_shift key
    then (record k { shift = true }, 0)
    else if key == key_capslock
    then (record k { capslock = not k.capslock }, 0)
    else if key == key_kp_numlock
    then (record k { numlock = not k.numlock }, 0)
    else if key == key_scrolllock
    then (record k { scrolllock = not k.scrolllock }, 0)
    else if leb key 0x7f
    then (k, keycode_to_ascii k.shift k.capslock key)
    else (k, 0)

-- The buffer starts again from the front, cleared, when it is full.
unfoldable pub make_room : Keyboard → Keyboard
make_room k =
    if leb buffer_size k.index
    then record k { buffer = λ i. if ltb i buffer_size then 0 else k.buffer i; index = 0 }
    else k

unfoldable pub store : ℕ → Keyboard → Keyboard
store character k = record k {
  buffer = λ i. if i == k.index then character else k.buffer i;
  index = k.index + 1;
}

-- What `GfxMode.putchar` does to the buffer and the index: a backspace, where the cursor is not at
-- the limit of the input, puts a space at the index and moves it back. Behind `store` the index is
-- 1 or more.
unfoldable pub take_back : (at_limit : List ℕ → Bool) → ℕ → Keyboard → Keyboard
take_back at_limit character k =
    if (character == 8 && not (at_limit k.shown))
    then record k { buffer = λ i. if i == k.index then 32 else k.buffer i; index = k.index - 1 }
    else k

-- `at_limit` is whether the cursor is at the limit, after what the keyboard has shown.
unfoldable pub show : (at_limit : List ℕ → Bool) → ℕ → Keyboard → Keyboard
unfolding take_back
show at_limit character k =
    if k.is_keyboard_active == 1
    then (let t = take_back at_limit character k in record t { shown = character ∷ k.shown })
    else k

-- A makecode; the key code is cut down to a `uint8_t` first.
unfoldable pub key_down : (at_limit : List ℕ → Bool) → ℕ → Keyboard → Keyboard
unfolding press make_room store show
key_down at_limit key k =
    let (k', character) = press (u8 key) k in
    show at_limit character (store character (make_room k'))

unfoldable pub keyboard_irq_handler :
    (past : ℕ → ℕ) → (at_limit : List ℕ → Bool) → (scancode : ℕ) → Keyboard → Keyboard
keyboard_irq_handler past at_limit scancode k =
    if k.is_keyboard_active == 0
    then k
    else if leb 0x80 scancode
    then release (lookup_key past (scancode - 0x80)) k
    else key_down at_limit (lookup_key past scancode) k

unfoldable pub activate_keyboard_processing : Keyboard → Keyboard
activate_keyboard_processing k = record k { is_keyboard_active = 1 }

unfoldable pub disable_keyboard_processing : Keyboard → Keyboard
disable_keyboard_processing k = record k { is_keyboard_active = 0 }

module _ {S : Type 0} (ports : Ports S) where
  -- `while (inportb(KB_CONTROLLER_COMMAND) & 0x1) inportb(KB_CONTROLLER_DATA)`
  unfoldable pub drain : (fuel : ℕ) → S → Option S
  drain zero s = none
  drain (suc fuel) s =
      let on = drain fuel (ports.reading 0x60 (ports.reading 0x64 s)) in
      if bit_and (ports.input s 0x64) 1 == 0 then some (ports.reading 0x64 s) else on

  -- `while (inportb(KB_CONTROLLER_COMMAND) & 0x2) outportb(KB_CONTROLLER_DATA, command_byte)`
  unfoldable pub keyboard_send_command : (fuel command_byte : ℕ) → S → Option S
  keyboard_send_command zero command_byte s = none
  keyboard_send_command (suc fuel) command_byte s =
      let on =
        keyboard_send_command fuel command_byte
          (outportb ports 0x60 command_byte (ports.reading 0x64 s)) in
      if bit_and (ports.input s 0x64) 2 == 0 then some (ports.reading 0x64 s) else on

  abbrev pub and_then : Option S → (S → Option S) → Option S
  and_then none f = none
  and_then (some s) f = f s

  -- `keyboard_init`; both loops get `fuel` rounds.
  unfoldable pub keyboard_init : (fuel : ℕ) → Keyboard → S → Keyboard × Option S
  keyboard_init fuel k s = (
    record k { buffer = λ i. if ltb i buffer_size then 0 else k.buffer i },
    and_then (drain fuel (pic_clear_mask ports 1 s)) (keyboard_send_command fuel 0xf4),
  )
