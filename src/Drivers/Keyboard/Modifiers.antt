-- ===== src/Drivers/Keyboard/Modifiers.antt =====
-- The modifiers, the buffer's bounds, and the characters of the keys.
use husky_os.Base.{
  ℕ, ◌-◌, ◌<◌, ◌≡◌, Bool, true, false, not, List, [], ◌∷◌, leb, ◌==◌, if◌then◌else◌, u8, arith, inl,
  inr, Bool-cases,
}
use husky_os.Drivers.Keyboard.{
  Keyboard, buffer_size, is_lower, keycode_to_ascii, release, press, key_down, keyboard_irq_handler,
}

-- No modifier and no lock is on.
pub record IsPlain (k : Keyboard) : Type 0 where
  pub ctrl : k.ctrl ≡ false
  pub alt : k.alt ≡ false
  pub shift : k.shift ≡ false
  pub capslock : k.capslock ≡ false
  pub numlock : k.numlock ≡ false
  pub scrolllock : k.scrolllock ≡ false

-- The handler over a sequence of scancodes.
unfoldable pub handle_all :
    (past : ℕ → ℕ) → (at_limit : List ℕ → Bool) → List ℕ → Keyboard → Keyboard
handle_all past at_limit [] k = k
handle_all past at_limit (c ∷ cs) k =
    handle_all past at_limit cs (keyboard_irq_handler past at_limit c k)

-- A code of one byte is none of the modifiers' and locks' codes.
press-plain :
    (key : ℕ) (k : Keyboard)
    → key < 256
    → press key k ≡ (k, if leb key 0x7f then keycode_to_ascii k.shift k.capslock key else 0)
unfolding press
press-plain key k h = ground arith

key_down-IsPlain :
    (at_limit : List ℕ → Bool) (key : ℕ) (k : Keyboard)
    → IsPlain k
    → IsPlain (key_down at_limit key k)
unfolding key_down
key_down-IsPlain at_limit key k p = rw (press-plain (u8 key) k (omega arith)) (ground arith)

release-IsPlain : (key : ℕ) (k : Keyboard) → IsPlain k → IsPlain (release key k)
unfolding release
release-IsPlain key k p = ground arith

keyboard_irq_handler-IsPlain :
    (past : ℕ → ℕ) (at_limit : List ℕ → Bool) (c : ℕ) (k : Keyboard)
    → IsPlain k
    → IsPlain (keyboard_irq_handler past at_limit c k)
unfolding keyboard_irq_handler
keyboard_irq_handler-IsPlain past at_limit c k p = elim (Bool-cases (k.is_keyboard_active == 0)) [
  | inl e ↦ rw e p
  | inr e ↦ elim (Bool-cases (leb 0x80 c)) [
    | inl e' ↦ rw (e, e') (release-IsPlain _ k p)
    | inr e' ↦ rw (e, e') (key_down-IsPlain at_limit _ k p)
  ]
]

-- From a keyboard with no modifier or lock on, no sequence of scancodes turns one on, whatever
-- lies behind the table: a pressed key's code is cut to a byte before it is compared.
pub handle_all-IsPlain :
    (past : ℕ → ℕ) (at_limit : List ℕ → Bool) (cs : List ℕ) (k : Keyboard)
    → IsPlain k
    → IsPlain (handle_all past at_limit cs k)
unfolding handle_all
handle_all-IsPlain past at_limit [] k p = p
handle_all-IsPlain past at_limit (c ∷ cs) k p =
    handle_all-IsPlain past at_limit cs _ (keyboard_irq_handler-IsPlain past at_limit c k p)

-- Where the next character goes.
abbrev pub slot : Keyboard → ℕ
slot k = if leb buffer_size k.index then 0 else k.index

-- The character of a key when no modifier is on.
abbrev pub plain_character : ℕ → ℕ
plain_character key = if leb (u8 key) 0x7f then u8 key else 0

-- A letter is a capital exactly when one of shift and caps lock is on and not both.
pub keycode_to_ascii-letter :
    (shift capslock : Bool) (letter : ℕ)
    → is_lower letter ≡ true
    → keycode_to_ascii shift capslock letter
      ≡ (if (if shift then not capslock else capslock) then letter - 32 else letter)
unfolding keycode_to_ascii
keycode_to_ascii-letter true true letter h = ground arith
keycode_to_ascii-letter true false letter h = ground arith
keycode_to_ascii-letter false true letter h = ground arith
keycode_to_ascii-letter false false letter h = ground arith
