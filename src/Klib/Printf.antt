-- ===== src/Klib/Printf.antt =====
-- Kernel/src/klib/hkStdio.cpp: formatted output. What is printed is the list of the characters that
-- `putchar` is called with. A `va_list` is the position in the words of the call, with a position
-- of its own for the floating point arguments; a pointer to a string is an address.
pub mod Items
pub mod Fit
pub mod Render
mod Examples
use husky_os.Base.{
  ◌>>=◌, length, ℕ, zero, suc, ◌+◌, ◌-◌, ◌/◌, ◌%◌, ◌^◌, Bool, true, false, Option, some, none, List,
  [], ◌∷◌, ◌++◌, ltb, ◌==◌, if◌then◌else◌, u8, u16, u32, u64,
}
use husky_os.Klib.Text.{Text}
use husky_os.Klib.Numbers.{unsigned_number_to_string, number_to_string}
use husky_os.Klib.Numbers.Floats.{Floats, fnumber_to_string}

-- The arguments of a call: its words, its floating point numbers, and the strings in memory.
pub record Arguments : Type 0 where
  pub word : ℕ → ℕ
  pub real : ℕ → ℕ
  pub string_at : ℕ → Text
  pub floats : Floats

-- The variables of `vkprint`, the positions in the arguments, and what it has printed: `none` once
-- a number has run off a buffer.
pub record Printer : Type 0 where
  pub state : ℕ
  pub is_long : Bool
  pub is_long_long : Bool
  pub is_short : Bool
  pub is_short_short : Bool
  pub need_precision : Bool
  pub can_reset : Bool
  pub precision : ℕ
  pub words : ℕ
  pub reals : ℕ
  pub output : Option Text

unfoldable pub initial : Printer
initial = record {
  state = 0;
  is_long = false;
  is_long_long = false;
  is_short = false;
  is_short_short = false;
  need_precision = false;
  can_reset = true;
  precision = 6;
  words = 0;
  reals = 0;
  output = some [];
}

abbrev pub joined : Option Text → Option Text → Option Text
joined none s = none
joined (some o) none = none
joined (some o) (some s) = some (o ++ s)

abbrev pub put : Text → Printer → Printer
put s p = record p { output = joined p.output (some s) }

-- The `char buff[32]` of a directive, for the text of a number and its NUL.
unfoldable pub held : Option Text → Option Text
held text = text >>= λ s. if ltb (length s) 32 then some s else none

abbrev pub put_number : Option Text → Printer → Printer
put_number text p = record p { output = joined p.output (held text) }

-- `va_arg`: the argument is used up.
abbrev pub next_word : Printer → Printer
next_word p = record p { words = p.words + 1 }

-- The value that the bits below `2 ^ k` of a word have as a signed number, as an `int32_t`.
unfoldable pub sign_extended : (k w : ℕ) → ℕ
sign_extended k w =
    if ltb (w % 2 ^ k) (2 ^ (k - 1)) then w % 2 ^ k else u32 (2 ^ 32 + w % 2 ^ k - 2 ^ k)

-- `n` in 'd', as it reaches `number_to_string`.
unfoldable pub signed_value : Printer → ℕ → ℕ
signed_value p w =
    if p.is_long_long
    then u32 (u64 w)
    else if p.is_long
    then u32 w
    else if p.is_short_short
    then sign_extended 8 w
    else if p.is_short
    then sign_extended 16 w
    else sign_extended 16 w

-- `n` in 'u', 'x' and 'o', as it reaches `unsigned_number_to_string`.
unfoldable pub unsigned_value : Printer → ℕ → ℕ
unsigned_value p w =
    if p.is_long_long
    then u32 (u64 w)
    else if p.is_long
    then u32 w
    else if p.is_short_short
    then u8 w
    else if p.is_short
    then u16 w
    else u16 w

unfoldable pub chosen_precision : Printer → ℕ
chosen_precision p = if p.need_precision then p.precision else 0

unfoldable pub long_flag : Printer → Printer
long_flag p =
    if p.is_long
    then record p { is_long_long = true; can_reset = false }
    else record p { is_long = true; can_reset = false }

unfoldable pub short_flag : Printer → Printer
short_flag p =
    if p.is_short
    then record p { is_short_short = true; can_reset = false }
    else record p { is_short = true; can_reset = false }

-- The end of a directive.
unfoldable pub reset : Printer → Printer
reset p =
    if p.can_reset
    then record p {
      state = 0;
      is_long = false;
      is_long_long = false;
      is_short = false;
      is_short_short = false;
      precision = 6;
      need_precision = false;
    }
    else record p { can_reset = true }

-- `state == 0`
unfoldable pub plain : ℕ → Printer → Printer
plain c p = if c == 37 then record p { state = 1 } else put (c ∷ []) p

module _ (args : Arguments) where
  unfoldable pub print_char : Printer → Printer
  print_char p = put (u8 (args.word p.words) ∷ []) (next_word p)

  unfoldable pub print_string : Printer → Printer
  print_string p = put (args.string_at (args.word p.words)) (next_word p)

  unfoldable pub take_precision : Printer → Printer
  take_precision p =
      if p.need_precision
      then record p { precision = u32 (args.word p.words); can_reset = false; words = p.words + 1 }
      else p

  unfoldable pub print_signed : Printer → Printer
  print_signed p =
      put_number (number_to_string (signed_value p (args.word p.words)) 10 (chosen_precision p))
        (next_word p)

  unfoldable pub print_unsigned : (base : ℕ) → Printer → Printer
  print_unsigned base p =
      put_number
        (unsigned_number_to_string (unsigned_value p (args.word p.words)) base (chosen_precision p))
        (next_word p)

  unfoldable pub print_real : Printer → Printer
  print_real p = record p {
    reals = p.reals + 1;
    output =
        joined p.output (held (fnumber_to_string args.floats (args.real p.reals) 10 p.precision));
  }

  unfoldable pub print_pointer : Printer → Printer
  print_pointer p =
      put_number (unsigned_number_to_string (u32 (args.word p.words)) 16 0)
        (put (48 ∷ 120 ∷ []) (next_word p))

  -- The `switch` on the character of a directive.
  unfoldable pub directive : ℕ → Printer → Printer
  directive c p =
      if c == b'c'
      then print_char p
      else if c == b's'
      then print_string p
      else if c == b'%'
      then put (37 ∷ []) p
      else if c == b'l'
      then long_flag p
      else if c == b'h'
      then short_flag p
      else if c == b'.'
      then record p { need_precision = true; can_reset = false }
      else if c == b'*'
      then take_precision p
      else if c == b'd'
      then print_signed p
      else if c == b'f'
      then print_real p
      else if c == b'u'
      then print_unsigned 10 p
      else if c == b'x'
      then print_unsigned 16 p
      else if c == b'o'
      then print_unsigned 8 p
      else if c == b'p'
      then print_pointer p
      else p

  -- One round of the loop.
  unfoldable pub step : ℕ → Printer → Printer
  step c p = if p.state == 0 then plain c p else if p.state == 1 then reset (directive c p) else p

  unfoldable pub scan : Text → Printer → Printer
  scan [] p = p
  scan (c ∷ cs) p = scan cs (step c p)

  unfoldable pub vkprint : Text → Option Text
  vkprint fmt = (scan fmt initial).output
