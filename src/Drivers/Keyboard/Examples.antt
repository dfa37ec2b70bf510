-- ===== src/Drivers/Keyboard/Examples.antt =====
-- A keyboard that is on, and keys that are pressed.
use husky_os.Base.{refl, false, [], ◌∷◌}
use husky_os.Drivers.Keyboard.{Keyboard}
use husky_os.Drivers.Keyboard.Modifiers.{IsPlain, handle_all, handle_all-IsPlain}

abbrev ready : Keyboard
ready = record {
  buffer = λ i. 0;
  index = 16384;
  is_keyboard_active = 1;
  ctrl = false;
  alt = false;
  shift = false;
  capslock = false;
  numlock = false;
  scrolllock = false;
  shown = [];
}

ready-IsPlain : IsPlain ready
ready-IsPlain = record {
  ctrl = refl;
  alt = refl;
  shift = refl;
  capslock = refl;
  numlock = refl;
  scrolllock = refl;
}

-- The left shift key, then "a".
handle_all-IsPlain_example : IsPlain (handle_all (λ c. 0) (λ cs. false) (0x2a ∷ 0x1e ∷ []) ready)
handle_all-IsPlain_example =
    handle_all-IsPlain (λ c. 0) (λ cs. false) (0x2a ∷ 0x1e ∷ []) ready ready-IsPlain
