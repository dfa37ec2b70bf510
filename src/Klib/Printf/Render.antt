-- ===== src/Klib/Printf/Render.antt =====
-- `vkprint` against its items.
use husky_os.Base.{
  ℕ, zero, suc, ◌+◌, ◌%◌, ◌^◌, ◌≡◌, ◌<◌, u8, inl, inr, Bool-cases, Bool, true, false, Option, some,
  none, List, [], ◌∷◌, ◌++◌, u32, refl, sym, ap, ◌∙◌, arith, not, ◌&&◌, All,
}
use mathlib.Core.List.{append-nil, append_assoc}
use husky_os.Klib.Text.{Text}
use husky_os.Klib.Numbers.{unsigned_number_to_string, number_to_string}
use husky_os.Klib.Printf.{
  Arguments, Printer, initial, joined, held, sign_extended, signed_value, unsigned_value,
  chosen_precision, long_flag, short_flag, reset, plain, print_char, print_string, take_precision,
  print_signed, print_unsigned, print_real, print_pointer, directive, step, scan, vkprint,
}
use husky_os.Klib.Printf.Items.{
  Modifier, long, short, dot, star, Conversion, character, text, percent, signed, real, unsigned,
  hex, octal, pointer, unknown, Item, literal, convert, letter, has_meaning, stars_fit, fits, marks,
  written, Choice, none_yet, once, twice, width, as_signed, zeros, past_word, past_real, chosen,
  number_shown, shown, render, IsShort, AreShort,
}
use husky_os.Klib.Printf.Fit.{held-unsigned, held-signed}

joined-nothing : (o : Option Text) → joined o (some []) ≡ o
joined-nothing none = refl
joined-nothing (some s) = ap some (append-nil s)

nothing-joined : (o : Option Text) → joined (some []) o ≡ o
nothing-joined none = refl
nothing-joined (some s) = refl

joined_assoc : (o p q : Option Text) → joined (joined o p) q ≡ joined o (joined p q)
joined_assoc none p q = refl
joined_assoc (some o) none q = refl
joined_assoc (some o) (some p) none = refl
joined_assoc (some o) (some p) (some q) = ap some (append_assoc o p q)

and_true : (a b : Bool) → a && b ≡ true → (a ≡ true) × (b ≡ true)
and_true true b e = (refl, e)
and_true false b e = ground arith

fits-convert :
    (ms : List Modifier) (v : Conversion)
    → fits (convert ms v) ≡ true
    → (stars_fit false ms ≡ true) × (fits (convert [] v) ≡ true)
fits-convert ms (unknown c) f = and_true (stars_fit false ms) (not (has_meaning c)) f
fits-convert ms character f = (f, refl)
fits-convert ms text f = (f, refl)
fits-convert ms percent f = (f, refl)
fits-convert ms signed f = (f, refl)
fits-convert ms real f = (f, refl)
fits-convert ms unsigned f = (f, refl)
fits-convert ms hex f = (f, refl)
fits-convert ms octal f = (f, refl)
fits-convert ms pointer f = (f, refl)

module _ (args : Arguments) where
  -- The printer behind the modifiers of a directive.
  abbrev after : Choice → Option Text → (d : ℕ) → Printer
  after h o d = record {
    state = 1;
    is_long = once h.longs;
    is_long_long = twice h.longs;
    is_short = once h.shorts;
    is_short_short = twice h.shorts;
    need_precision = h.dotted;
    can_reset = true;
    precision = h.precision;
    words = h.words;
    reals = d;
    output = o;
  }

  abbrev choice : (l s : ℕ) (dotted : Bool) (p w : ℕ) → Choice
  choice l s dotted p w = record {
    longs = l;
    shorts = s;
    dotted = dotted;
    precision = p;
    words = w;
  }

  after-long :
      (l s : ℕ) (dotted : Bool) (p w : ℕ) (o : Option Text) (d : ℕ)
      → step args b'l' (after (choice l s dotted p w) o d) ≡ after (choice (suc l) s dotted p w) o d
  unfolding step directive long_flag reset
  after-long zero s dotted p w o d = refl
  after-long (suc zero) s dotted p w o d = refl
  after-long (suc (suc l)) s dotted p w o d = refl

  after-short :
      (l s : ℕ) (dotted : Bool) (p w : ℕ) (o : Option Text) (d : ℕ)
      → step args b'h' (after (choice l s dotted p w) o d) ≡ after (choice l (suc s) dotted p w) o d
  unfolding step directive short_flag reset
  after-short l zero dotted p w o d = refl
  after-short l (suc zero) dotted p w o d = refl
  after-short l (suc (suc s)) dotted p w o d = refl

  after-dot :
      (h : Choice) (o : Option Text) (d : ℕ)
      → step args b'.' (after h o d) ≡ after (record h { dotted = true }) o d
  unfolding step directive reset
  after-dot h o d = refl

  after-star :
      (h : Choice) (o : Option Text) (d : ℕ)
      → h.dotted ≡ true
      → step args b'*' (after h o d)
        ≡ after (record h { precision = u32 (args.word h.words); words = h.words + 1 }) o d
  unfolding step directive reset take_precision
  after-star h o d e = simp e refl

  scan-marks :
      (ms : List Modifier) (h : Choice) (o : Option Text) (d : ℕ) (rest : Text)
      → stars_fit h.dotted ms ≡ true
      → scan args (marks ms ++ rest) (after h o d) ≡ scan args rest (after (chosen args ms h) o d)
  unfolding scan
  scan-marks [] h o d rest f = refl
  scan-marks (long ∷ ms) h o d rest f =
      ap (scan args (marks ms ++ rest))
        (after-long h.longs h.shorts h.dotted h.precision h.words o d)
      ∙ scan-marks ms (record h { longs = suc h.longs }) o d rest f
  scan-marks (short ∷ ms) h o d rest f =
      ap (scan args (marks ms ++ rest))
        (after-short h.longs h.shorts h.dotted h.precision h.words o d)
      ∙ scan-marks ms (record h { shorts = suc h.shorts }) o d rest f
  scan-marks (dot ∷ ms) h o d rest f =
      ap (scan args (marks ms ++ rest)) (after-dot h o d)
      ∙ scan-marks ms (record h { dotted = true }) o d rest f
  scan-marks (star ∷ ms) h o d rest f =
      let both = and_true h.dotted (stars_fit h.dotted ms) f in
      ap (scan args (marks ms ++ rest)) (after-star h o d (both.0))
      ∙ scan-marks ms (record h { precision = u32 (args.word h.words); words = h.words + 1 }) o d
          rest (both.1)

  -- The printer between two items.
  abbrev between : Option Text → (w d : ℕ) → Printer
  between o w d = record initial { output = o; words = w; reals = d }

  signed_value-after :
      (l s : ℕ) (dotted : Bool) (p v : ℕ) (o : Option Text) (d w : ℕ)
      → signed_value (after (choice l s dotted p v) o d) w
        ≡ as_signed (width (choice l s dotted p v)) w
  unfolding signed_value sign_extended
  signed_value-after zero zero dotted p v o d w = ground arith
  signed_value-after zero (suc zero) dotted p v o d w = ground arith
  signed_value-after zero (suc (suc s)) dotted p v o d w = ground arith
  signed_value-after (suc zero) s dotted p v o d w = ground arith
  signed_value-after (suc (suc l)) s dotted p v o d w = ground arith

  unsigned_value-after :
      (l s : ℕ) (dotted : Bool) (p v : ℕ) (o : Option Text) (d w : ℕ)
      → unsigned_value (after (choice l s dotted p v) o d) w ≡ w % 2 ^ width (choice l s dotted p v)
  unfolding unsigned_value
  unsigned_value-after zero zero dotted p v o d w = refl
  unsigned_value-after zero (suc zero) dotted p v o d w = refl
  unsigned_value-after zero (suc (suc s)) dotted p v o d w = refl
  unsigned_value-after (suc zero) s dotted p v o d w = refl
  unsigned_value-after (suc (suc l)) s dotted p v o d w = omega arith

  unknown-directive : (c : ℕ) (p : Printer) → not (has_meaning c) ≡ true → directive args c p ≡ p
  unfolding directive
  unknown-directive c p f = ground arith

  step-number :
      (base : ℕ) (h : Choice) (o : Option Text) (d : ℕ)
      → reset (print_unsigned args base (after h o d))
        ≡ between (joined o (number_shown args base h)) (h.words + 1) d
  unfolding print_unsigned reset initial chosen_precision
  step-number base h o d =
      ap
        (λ (n : ℕ).
          between (joined o (held (unsigned_number_to_string n base (zeros h)))) (h.words + 1) d)
        (unsigned_value-after h.longs h.shorts h.dotted h.precision h.words o d (args.word h.words))

  step-signed :
      (h : Choice) (o : Option Text) (d : ℕ)
      → reset (print_signed args (after h o d))
        ≡ between (joined o (shown args h signed d)) (h.words + 1) d
  unfolding print_signed reset initial chosen_precision
  step-signed h o d =
      ap (λ (n : ℕ). between (joined o (held (number_to_string n 10 (zeros h)))) (h.words + 1) d)
        (signed_value-after h.longs h.shorts h.dotted h.precision h.words o d (args.word h.words))

  step-letter :
      (v : Conversion) (h : Choice) (o : Option Text) (d : ℕ)
      → fits (convert [] v) ≡ true
      → step args (letter v) (after h o d)
        ≡ between (joined o (shown args h v d)) (past_word v h.words) (past_real v d)
  unfolding step directive reset initial print_char print_string print_real print_pointer
  step-letter character h o d f = refl
  step-letter text h o d f = refl
  step-letter percent h o d f = refl
  step-letter signed h o d f = step-signed h o d
  step-letter real h o d f = refl
  step-letter unsigned h o d f = step-number 10 h o d
  step-letter hex h o d f = step-number 16 h o d
  step-letter octal h o d f = step-number 8 h o d
  step-letter pointer h o d f =
      ap (λ (q : Option Text). between q (h.words + 1) d)
        (joined_assoc o (some (48 ∷ 120 ∷ []))
          (held (unsigned_number_to_string (u32 (args.word h.words)) 16 0)))
  step-letter (unknown c) h o d f =
      ap reset (unknown-directive c (after h o d) f)
      ∙ ap (λ (q : Option Text). between q h.words d) (sym (joined-nothing o))

  step-literal :
      (c : ℕ) (o : Option Text) (w d : ℕ)
      → fits (literal c) ≡ true
      → step args c (between o w d) ≡ between (joined o (some (c ∷ []))) w d
  unfolding step plain initial
  step-literal c o w d f = ground arith

  scan-written :
      (is : List Item) (o : Option Text) (w d : ℕ)
      → All (λ (i : Item). fits i ≡ true) is
      → (scan args (written is) (between o w d)).output ≡ joined o (render args is w d)
  unfolding scan step initial plain
  scan-written [] o w d f = sym (joined-nothing o)
  scan-written (literal c ∷ is) o w d (f, fs) =
      ap (λ (p : Printer). (scan args (written is) p).output) (step-literal c o w d f)
      ∙ scan-written is (joined o (some (c ∷ []))) w d fs
      ∙ joined_assoc o (some (c ∷ [])) (render args is w d)
  scan-written (convert ms v ∷ is) o w d (f, fs) =
      let h = chosen args ms (none_yet w) in
      let both = fits-convert ms v f in
      ap (λ (p : Printer). p.output)
        (scan-marks ms (none_yet w) o d (letter v ∷ written is) (both.0))
      ∙ ap (λ (p : Printer). (scan args (written is) p).output) (step-letter v h o d (both.1))
      ∙ scan-written is (joined o (shown args h v d)) (past_word v h.words) (past_real v d) fs
      ∙ joined_assoc o (shown args h v d) (render args is (past_word v h.words) (past_real v d))

width-lt : (h : Choice) (w : ℕ) → w % 2 ^ width h < 2 ^ 32
width-lt h w = elim (Bool-cases (once h.longs)) [
  | inl e ↦ rw e (omega arith)
  | inr e ↦ elim (Bool-cases (twice h.shorts)) [
    | inl d ↦ rw (e, d) (omega arith)
    | inr d ↦ rw (e, d) (omega arith)
  ]
]

as_signed-lt : (h : Choice) (w : ℕ) → as_signed (width h) w < 2 ^ 32
as_signed-lt h w = elim (Bool-cases (once h.longs)) [
  | inl e ↦ rw e (ground arith)
  | inr e ↦ elim (Bool-cases (twice h.shorts)) [
    | inl d ↦ rw (e, d) (ground arith)
    | inr d ↦ rw (e, d) (ground arith)
  ]
]

module _ (args : Arguments) where
  -- A short number is printed.
  shown-some :
      (v : Conversion) (h : Choice) (d : ℕ)
      → IsShort args h v
      → (out : Text) × (shown args h v d ≡ some out)
  shown-some character h d b = (u8 (args.word h.words) ∷ [], refl)
  shown-some text h d b = (args.string_at (args.word h.words), refl)
  shown-some percent h d b = (37 ∷ [], refl)
  shown-some (unknown c) h d b = ([], refl)
  shown-some real h d b = absurd b
  shown-some pointer h d b =
      let (cs, e) =
        held-unsigned (u32 (args.word h.words)) 16 0 (omega arith) (omega arith) (omega arith) in
      (48 ∷ 120 ∷ cs, rw e refl)
  shown-some signed h d b =
      held-signed (as_signed (width h) (args.word h.words)) (zeros h)
        (as_signed-lt h (args.word h.words)) b
  shown-some unsigned h d b =
      held-unsigned (args.word h.words % 2 ^ width h) 10 (zeros h) (width-lt h (args.word h.words))
        (omega arith) b
  shown-some hex h d b =
      held-unsigned (args.word h.words % 2 ^ width h) 16 (zeros h) (width-lt h (args.word h.words))
        (omega arith) b
  shown-some octal h d b =
      held-unsigned (args.word h.words % 2 ^ width h) 8 (zeros h) (width-lt h (args.word h.words))
        (omega arith) b

  render-some :
      (is : List Item) (w d : ℕ)
      → AreShort args is w
      → (out : Text) × (render args is w d ≡ some out)
  render-some [] w d b = ([], refl)
  render-some (literal c ∷ is) w d b = let (rest, e) = render-some is w d b in (c ∷ rest, rw e refl)
  render-some (convert ms v ∷ is) w d (b, bs) =
      let h = chosen args ms (none_yet w) in
      let (first, e) = shown-some v h d b in
      let (rest, es) = render-some is (past_word v h.words) (past_real v d) bs in
      (first ++ rest, rw (e, es) refl)

-- `vkprint` prints what its format is meant to print, item by item: for every format written from
-- literal characters other than `%` and from directives `%` with modifiers `l`, `h`, `.` and `*`
-- in any order, each `*` behind a `.`, and a letter. An unknown letter prints nothing, and the
-- arguments are taken from left to right. With `l` or `ll` a number is taken modulo 2 ^ 32, with
-- `hh` modulo 2 ^ 8, otherwise modulo 2 ^ 16, and %p is a number modulo 2 ^ 32 behind "0x". A
-- number that takes more than the 65 bytes of its digits' buffer, or the 32 of the directive's with
-- its NUL, is an overrun on both sides; where numbers are whole and have at most 19 zeros in front
-- there is none, and a text is printed.
pub vkprint-render :
    (args : Arguments) (is : List Item)
    → All (λ (i : Item). fits i ≡ true) is
    → (vkprint args (written is) ≡ render args is 0 0)
      × (AreShort args is 0 → (out : Text) × (vkprint args (written is) ≡ some out))
unfolding vkprint initial
vkprint-render args is f =
    let e = scan-written args is (some []) 0 0 f ∙ nothing-joined (render args is 0 0) in
    (e, λ b. let (out, e') = render-some args is 0 0 b in (out, e ∙ e'))
