-- ===== src/Klib/Printf/Items.antt =====
-- Kernel/src/klib/hkStdio.cpp: what a format is meant to print, item by item.
use husky_os.Base.{
  ℕ, zero, suc, ◌+◌, ◌-◌, ◌≤◌, ◌%◌, ◌^◌, Bool, true, false, Option, some, List, [], ◌∷◌, ◌++◌, ltb,
  ◌==◌, if◌then◌else◌, u8, u32, not, ◌&&◌, ◌||◌,
}
use husky_os.Klib.Text.{Text}
use husky_os.Klib.Numbers.{unsigned_number_to_string, number_to_string}
use husky_os.Klib.Numbers.Floats.{fnumber_to_string}
use husky_os.Klib.Printf.{Arguments, joined, held}

-- What stands between `%` and the letter of a directive.
pub data Modifier : Type 0 where
  long short dot : Modifier
  -- `*` behind a `.`
  star : Modifier

pub data Conversion : Type 0 where
  character text percent signed real unsigned hex octal pointer : Conversion
  -- a letter that the code does not know
  unknown : ℕ → Conversion

pub data Item : Type 0 where
  literal : ℕ → Item
  convert : List Modifier → Conversion → Item

abbrev pub mark : Modifier → ℕ
mark long = b'l'
mark short = b'h'
mark dot = b'.'
mark star = b'*'

abbrev pub letter : Conversion → ℕ
letter character = b'c'
letter text = b's'
letter percent = b'%'
letter signed = b'd'
letter real = b'f'
letter unsigned = b'u'
letter hex = b'x'
letter octal = b'o'
letter pointer = b'p'
letter (unknown c) = c

-- The letters that the code gives a meaning.
abbrev pub has_meaning : ℕ → Bool
has_meaning c =
    c == b'c'
    || c == b's'
    || c == b'%'
    || c == b'l'
    || c == b'h'
    || c == b'.'
    || c == b'*'
    || c == b'd'
    || c == b'f'
    || c == b'u'
    || c == b'x'
    || c == b'o'
    || c == b'p'

-- A `*` has a `.` somewhere before it.
abbrev pub stars_fit : Bool → List Modifier → Bool
stars_fit dotted [] = true
stars_fit dotted (long ∷ ms) = stars_fit dotted ms
stars_fit dotted (short ∷ ms) = stars_fit dotted ms
stars_fit dotted (dot ∷ ms) = stars_fit true ms
stars_fit dotted (star ∷ ms) = dotted && stars_fit dotted ms

abbrev pub fits : Item → Bool
fits (literal c) = not (c == b'%')
fits (convert ms (unknown c)) = stars_fit false ms && not (has_meaning c)
fits (convert ms v) = stars_fit false ms

-- How an item is written in a format.
abbrev pub marks : List Modifier → Text
marks [] = []
marks (m ∷ ms) = mark m ∷ marks ms

abbrev pub written : List Item → Text
written [] = []
written (literal c ∷ is) = c ∷ written is
written (convert ms v ∷ is) = 37 ∷ marks ms ++ letter v ∷ written is

-- What the modifiers of a directive say, and the words that its `*` have left.
pub record Choice : Type 0 where
  pub longs : ℕ
  pub shorts : ℕ
  pub dotted : Bool
  pub precision : ℕ
  pub words : ℕ

abbrev pub none_yet : ℕ → Choice
none_yet w = record { longs = 0; shorts = 0; dotted = false; precision = 6; words = w }

abbrev pub once : ℕ → Bool
once zero = false
once (suc n) = true

abbrev pub twice : ℕ → Bool
twice zero = false
twice (suc n) = once n

-- The width that the code prints: neither `ll` nor a pointer gets more than 32 bits.
abbrev pub width : Choice → ℕ
width h = if once h.longs then 32 else if twice h.shorts then 8 else 16

-- A word of `k` bits as a signed number of 32 bits.
abbrev pub as_signed : (k w : ℕ) → ℕ
as_signed k w = if ltb (w % 2 ^ k) (2 ^ (k - 1)) then w % 2 ^ k else w % 2 ^ k + (2 ^ 32 - 2 ^ k)

abbrev pub zeros : Choice → ℕ
zeros h = if h.dotted then h.precision else 0

-- The next word and the next floating point number behind a conversion.
abbrev pub past_word : Conversion → ℕ → ℕ
past_word percent w = w
past_word real w = w
past_word (unknown c) w = w
past_word v w = w + 1

abbrev pub past_real : Conversion → ℕ → ℕ
past_real real d = d + 1
past_real v d = d

module _ (args : Arguments) where
  abbrev pub chosen : List Modifier → Choice → Choice
  chosen [] h = h
  chosen (long ∷ ms) h = chosen ms (record h { longs = suc h.longs })
  chosen (short ∷ ms) h = chosen ms (record h { shorts = suc h.shorts })
  chosen (dot ∷ ms) h = chosen ms (record h { dotted = true })
  chosen (star ∷ ms) h =
      chosen ms (record h { precision = u32 (args.word h.words); words = h.words + 1 })

  abbrev pub number_shown : (base : ℕ) → Choice → Option Text
  number_shown base h =
      held (unsigned_number_to_string (args.word h.words % 2 ^ width h) base (zeros h))

  -- The text of a conversion, whose argument is the next word or the floating point number at `d`;
  -- `none` for a number that its buffers do not hold.
  abbrev pub shown : Choice → Conversion → (d : ℕ) → Option Text
  shown h character d = some (u8 (args.word h.words) ∷ [])
  shown h text d = some (args.string_at (args.word h.words))
  shown h percent d = some (37 ∷ [])
  shown h signed d = held (number_to_string (as_signed (width h) (args.word h.words)) 10 (zeros h))
  shown h real d = held (fnumber_to_string args.floats (args.real d) 10 h.precision)
  shown h unsigned d = number_shown 10 h
  shown h hex d = number_shown 16 h
  shown h octal d = number_shown 8 h
  shown h pointer d =
      joined (some (48 ∷ 120 ∷ []))
        (held (unsigned_number_to_string (u32 (args.word h.words)) 16 0))
  shown h (unknown c) d = some []

  -- Every number of the items is whole and gets at most 19 zeros in front.
  abbrev pub IsShort : Choice → Conversion → Type 0
  IsShort h real = ⊥
  IsShort h (unknown c) = Unit {0}
  IsShort h character = Unit {0}
  IsShort h text = Unit {0}
  IsShort h percent = Unit {0}
  IsShort h pointer = Unit {0}
  IsShort h signed = zeros h ≤ 19
  IsShort h unsigned = zeros h ≤ 19
  IsShort h hex = zeros h ≤ 19
  IsShort h octal = zeros h ≤ 19

  abbrev pub AreShort : List Item → (w : ℕ) → Type 0
  AreShort [] w = Unit {0}
  AreShort (literal c ∷ is) w = AreShort is w
  AreShort (convert ms v ∷ is) w =
      let h = chosen ms (none_yet w) in IsShort h v × AreShort is (past_word v h.words)

  -- What a list of items prints, with the arguments from `w` and `d` on.
  abbrev pub render : List Item → (w d : ℕ) → Option Text
  render [] w d = some []
  render (literal c ∷ is) w d = joined (some (c ∷ [])) (render is w d)
  render (convert ms v ∷ is) w d =
      let h = chosen ms (none_yet w) in
      joined (shown h v d) (render is (past_word v h.words) (past_real v d))
