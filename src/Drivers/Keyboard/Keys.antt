-- ===== src/Drivers/Keyboard/Keys.antt =====
-- Kernel/include/keyboard.h and the table of Kernel/src/drivers/keyboard.cpp: key codes.
use husky_os.Base.{ℕ, List, [], ◌∷◌}

abbrev pub key_lctrl : ℕ
key_lctrl = 0x4003

abbrev pub key_rctrl : ℕ
key_rctrl = 0x4007

abbrev pub key_lalt : ℕ
key_lalt = 0x4004

abbrev pub key_ralt : ℕ
key_ralt = 0x4008

abbrev pub key_lshift : ℕ
key_lshift = 0x4002

abbrev pub key_rshift : ℕ
key_rshift = 0x4006

abbrev pub key_capslock : ℕ
key_capslock = 0x4001

abbrev pub key_kp_numlock : ℕ
key_kp_numlock = 0x300f

abbrev pub key_scrolllock : ℕ
key_scrolllock = 0x4010

abbrev pub key_unknown : ℕ
key_unknown = 0x4012

-- The key codes of the scancodes from 0 on, as the enumeration numbers them.
abbrev pub standard_keycodes : List ℕ
standard_keycodes =
    key_unknown ∷ 0x1001 ∷ 0x31 ∷ 0x32 ∷ 0x33 ∷ 0x34 ∷ 0x35 ∷ 0x36 ∷ 0x37 ∷ 0x38 ∷ 0x39 ∷ 0x30
    ∷ 0x2d ∷ 0x3d ∷ 0x8 ∷ 0x9 ∷ 0x71 ∷ 0x77 ∷ 0x65 ∷ 0x72 ∷ 0x74 ∷ 0x79 ∷ 0x75 ∷ 0x69 ∷ 0x6f ∷ 0x70
    ∷ 0x5b ∷ 0x5d ∷ 0xd ∷ key_lctrl ∷ 0x61 ∷ 0x73 ∷ 0x64 ∷ 0x66 ∷ 0x67 ∷ 0x68 ∷ 0x6a ∷ 0x6b ∷ 0x6c
    ∷ 0x3b ∷ 0x27 ∷ 0x60 ∷ key_lshift ∷ 0x5c ∷ 0x7a ∷ 0x78 ∷ 0x63 ∷ 0x76 ∷ 0x62 ∷ 0x6e ∷ 0x6d ∷ 0x2c
    ∷ 0x2e ∷ 0x2f ∷ key_rshift ∷ 0x2a ∷ key_ralt ∷ 0x20 ∷ key_capslock ∷ 0x1201 ∷ 0x1202 ∷ 0x1203
    ∷ 0x1204 ∷ 0x1205 ∷ 0x1206 ∷ 0x1207 ∷ 0x1208 ∷ 0x1209 ∷ 0x120a ∷ key_kp_numlock ∷ key_scrolllock
    ∷ 0x400c ∷ 0x38 ∷ 0x400e ∷ 0x32 ∷ 0x33 ∷ 0x30 ∷ 0x2e ∷ key_unknown ∷ key_unknown ∷ key_unknown
    ∷ 0x120b ∷ 0x120b ∷ []
