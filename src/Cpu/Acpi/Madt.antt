-- ===== src/Cpu/Acpi/Madt.antt =====
-- What the loop of `PrepareACPI` takes from the MADT, for a table of the format of the ACPI manual.
use husky_os.Base.{
  ℕ, zero, suc, ◌+◌, ◌%◌, ◌≤◌, ◌<◌, ◌≡◌, Bool, true, false, some, none, List, [], ◌∷◌, ◌++◌, length,
  ◌==◌, if◌then◌else◌, load8, load32, load64, u8, bit_and, front, front-put, refl, sym, ap, ◌∙◌,
  arith, lt→ltb, le→ltb,
}
use mathlib.Core.List.{append-nil, append_assoc}
use husky_os.Base.Bits.{bit_and_mask}
use husky_os.Cpu.Acpi.{Apic, read_record, read_records}

-- An entry of the table: a processor with its local APIC, an I/O APIC, the 64-bit address of the
-- local APICs, or one of the other kinds.
pub data Entry : Type 0 where
  processor : (id : ℕ) → (enabled : Bool) → Entry
  io_apic : (address : ℕ) → Entry
  override : (address : ℕ) → Entry
  other : (kind : ℕ) → Entry

-- The bytes of an entry, behind its length.
abbrev pub Encodes : (ℕ → ℕ) → (ptr : ℕ) → Entry → Type 0
Encodes m ptr (processor id enabled) =
    (load8 m ptr ≡ 0)
    × (load8 m (ptr + 3) ≡ id)
    × (load8 m (ptr + 4) % 2 ≡ (if enabled then 1 else 0))
Encodes m ptr (io_apic address) = (load8 m ptr ≡ 1) × (load32 m (ptr + 4) ≡ address)
Encodes m ptr (override address) = (load8 m ptr ≡ 5) × (load64 m (ptr + 4) ≡ address)
Encodes m ptr (other kind) =
    (load8 m ptr ≡ kind) × ((kind == 0) ≡ false) × ((kind == 1) ≡ false) × ((kind == 5) ≡ false)

-- Entries one behind the other, each with its length in its second byte, up to the end.
pub data IsMadt (m : ℕ → ℕ) : (ptr ptr2 : ℕ) → List Entry → Type 0 where
  ended : {ptr : ℕ} → IsMadt m ptr ptr []
  entry_at :
      {ptr ptr2 : ℕ} {e : Entry} {es : List Entry}
      → Encodes m ptr e
      → 1 ≤ load8 m (ptr + 1)
      → ptr + load8 m (ptr + 1) ≤ ptr2
      → IsMadt m (ptr + load8 m (ptr + 1)) ptr2 es
      → IsMadt m ptr ptr2 (e ∷ es)

-- What the entries say: the processors that can be used, in order, and the last addresses.
abbrev pub usable_ids : List Entry → List ℕ
usable_ids [] = []
usable_ids (processor id true ∷ es) = id ∷ usable_ids es
usable_ids (processor id false ∷ es) = usable_ids es
usable_ids (io_apic address ∷ es) = usable_ids es
usable_ids (override address ∷ es) = usable_ids es
usable_ids (other kind ∷ es) = usable_ids es

abbrev pub last_io_apic : List Entry → (before : ℕ) → ℕ
last_io_apic [] before = before
last_io_apic (io_apic address ∷ es) before = last_io_apic es address
last_io_apic (processor id enabled ∷ es) before = last_io_apic es before
last_io_apic (override address ∷ es) before = last_io_apic es before
last_io_apic (other kind ∷ es) before = last_io_apic es before

abbrev pub last_override : List Entry → (before : ℕ) → ℕ
last_override [] before = before
last_override (override address ∷ es) before = last_override es address
last_override (processor id enabled ∷ es) before = last_override es before
last_override (io_apic address ∷ es) before = last_override es before
last_override (other kind ∷ es) before = last_override es before

abbrev pub ids : Apic → List ℕ
ids s = front s.numcore 0 s.lapic_ids

-- What entries make of the variables.
abbrev pub Says : List Entry → Apic → Apic → Type 0
Says es s t =
    (ids t ≡ ids s ++ usable_ids es)
    × (t.ioapic_ptr ≡ last_io_apic es s.ioapic_ptr)
    × (t.lapic_ptr ≡ last_override es s.lapic_ptr)
    × (t.numcore ≡ s.numcore + length (usable_ids es))

read_record-Says :
    (m : ℕ → ℕ) (ptr : ℕ) (e : Entry) (s : Apic)
    → Encodes m ptr e
    → s.numcore + length (usable_ids (e ∷ [])) < 256
    → Says (e ∷ []) s (read_record m ptr s)
unfolding read_record
read_record-Says m ptr (processor id true) s (kind, name, flag) room =
    let set : (bit_and (load8 m (ptr + 4)) 1 == 0) ≡ false =
      ground (arith, bit_and_mask 1 (load8 m (ptr + 4)), flag) in
    let next : u8 (s.numcore + 1) ≡ s.numcore + 1 = omega (arith, room) in
    rw (kind, set, next, name)
      (
        front-put s.numcore id s.lapic_ids (λ i. if i == s.numcore then id else s.lapic_ids i)
            (λ j k. ground arith) (ground arith),
        refl,
        refl,
        refl,
      )
read_record-Says m ptr (processor id false) s (kind, name, flag) room =
    let clear : (bit_and (load8 m (ptr + 4)) 1 == 0) ≡ true =
      ground (arith, bit_and_mask 1 (load8 m (ptr + 4)), flag) in
    rw (kind, clear) (sym (append-nil (ids s)), refl, refl, omega arith)
read_record-Says m ptr (io_apic address) s (kind, at) room =
    rw (kind, at) (sym (append-nil (ids s)), refl, refl, omega arith)
read_record-Says m ptr (override address) s (kind, at) room =
    rw (kind, at) (sym (append-nil (ids s)), refl, refl, omega arith)
read_record-Says m ptr (other k) s (kind, no_cpu, no_io, no_override) room =
    rw (kind, no_cpu, no_io, no_override) (sym (append-nil (ids s)), refl, refl, omega arith)

-- One entry, and then the others.
Says-next :
    (e : Entry) (es : List Entry) (s t u : Apic)
    → Says (e ∷ []) s t
    → Says es t u
    → Says (e ∷ es) s u
Says-next (processor id true) es s t u (a, b, c, d) (f, g, h, i) = (
  f ∙ ap (λ (xs : List ℕ). xs ++ usable_ids es) a ∙ append_assoc (ids s) (id ∷ []) (usable_ids es),
  g ∙ ap (last_io_apic es) b,
  h ∙ ap (last_override es) c,
  omega (arith, d, i),
)
Says-next (processor id false) es s t u (a, b, c, d) (f, g, h, i) = (
  f ∙ ap (λ (xs : List ℕ). xs ++ usable_ids es) (a ∙ append-nil (ids s)),
  g ∙ ap (last_io_apic es) b,
  h ∙ ap (last_override es) c,
  omega (arith, d, i),
)
Says-next (io_apic address) es s t u (a, b, c, d) (f, g, h, i) = (
  f ∙ ap (λ (xs : List ℕ). xs ++ usable_ids es) (a ∙ append-nil (ids s)),
  g ∙ ap (last_io_apic es) b,
  h ∙ ap (last_override es) c,
  omega (arith, d, i),
)
Says-next (override address) es s t u (a, b, c, d) (f, g, h, i) = (
  f ∙ ap (λ (xs : List ℕ). xs ++ usable_ids es) (a ∙ append-nil (ids s)),
  g ∙ ap (last_io_apic es) b,
  h ∙ ap (last_override es) c,
  omega (arith, d, i),
)
Says-next (other kind) es s t u (a, b, c, d) (f, g, h, i) = (
  f ∙ ap (λ (xs : List ℕ). xs ++ usable_ids es) (a ∙ append-nil (ids s)),
  g ∙ ap (last_io_apic es) b,
  h ∙ ap (last_override es) c,
  omega (arith, d, i),
)

length-usable_ids :
    (e : Entry) (es : List Entry)
    → length (usable_ids (e ∷ es)) ≡ length (usable_ids (e ∷ [])) + length (usable_ids es)
length-usable_ids (processor id true) es = omega arith
length-usable_ids (processor id false) es = omega arith
length-usable_ids (io_apic address) es = omega arith
length-usable_ids (override address) es = omega arith
length-usable_ids (other kind) es = omega arith

-- The loop over a table of the manual's format ends, with fuel of a round for each byte and one
-- more. It has taken the ids of the processors that can be used, in order and behind those that
-- were there, and the last addresses of an I/O APIC and of the local APICs, where fewer than 256
-- processors are counted.
pub read_records_lem :
    (m : ℕ → ℕ) (fuel ptr ptr2 : ℕ) (es : List Entry) (s : Apic)
    → IsMadt m ptr ptr2 es
    → ptr2 < ptr + fuel
    → s.numcore + length (usable_ids es) < 256
    → (t : Apic) × (read_records m fuel ptr ptr2 s ≡ some t) × Says es s t
unfolding read_records
read_records_lem m zero ptr ptr2 [] s ended enough few = absurd (omega (arith, enough))
read_records_lem m zero ptr ptr2 (e ∷ es) s (entry_at code more fits rest) enough few =
    absurd (omega (arith, enough, fits))
read_records_lem m (suc fuel) ptr ptr2 [] s ended enough few =
    let over = le→ltb ptr ptr (omega arith) in
    rw over (s, refl, (sym (append-nil (ids s)), refl, refl, omega arith))
read_records_lem m (suc fuel) ptr ptr2 (e ∷ es) s (entry_at code more fits rest) enough few =
    let inside = lt→ltb ptr ptr2 (omega (arith, more, fits)) in
    let count = length-usable_ids e es in
    let t = read_record m ptr s in
    let first = read_record-Says m ptr e s code (omega (arith, few, count)) in
    let (u, done, says) =
      read_records_lem m fuel (ptr + load8 m (ptr + 1)) ptr2 es t rest (omega (arith, enough, more))
        (omega (arith, few, count, first.3)) in
    (u, rw inside done, Says-next e es s t u first says)

-- A record whose length byte is 0 keeps the loop where it is, whatever the fuel.
read_records-endless :
    (m : ℕ → ℕ) (fuel ptr ptr2 : ℕ) (s : Apic)
    → ptr < ptr2
    → load8 m (ptr + 1) ≡ 0
    → read_records m fuel ptr ptr2 s ≡ none
unfolding read_records
read_records-endless m zero ptr ptr2 s inside e = refl
read_records-endless m (suc fuel) ptr ptr2 s inside e =
    let more = lt→ltb ptr ptr2 inside in
    let stay : ptr + load8 m (ptr + 1) ≡ ptr = omega (arith, e) in
    rw (more, stay) (read_records-endless m fuel ptr ptr2 (read_record m ptr s) inside e)
