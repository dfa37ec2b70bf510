-- ===== src/Cpu/Idt/Gates.antt =====
-- A gate answers the address that was put in, and which gates `interrupts_init` fills.
use husky_os.Base.{
  ℕ, zero, suc, ◌+◌, ◌*◌, ◌/◌, ◌%◌, ◌^◌, ◌<◌, ◌≤◌, ◌≡◌, ◌&&◌, ◌||◌, Bool, true, false, ltb, leb,
  ◌==◌, if◌then◌else◌, bit_or, arith, refl,
}
use husky_os.Base.Bits.{bit_and_mask, bit_or_split, bit_or-zero, zero-bit_or}
use husky_os.Memory.Frames.{Frames, request_page}
use husky_os.Cpu.Port.{Ports}
use husky_os.Cpu.Pic.{pic_remap, pic_set_mask}
use husky_os.Cpu.Pic.Controllers.{Is8259a}
use husky_os.Cpu.Pic.Masks.{
  masked, masked-pic_set_mask, masked-pic_remap, Awaits-pic_remap, Awaits-pic_set_mask,
}
use husky_os.Cpu.Idt.{
  Gate, set_offset, get_offset, Idt, fill_gate, set_idt_gate, set_gates, interrupts_init,
}

-- Bits above and below bit `k` are put together by `|`.
or_high : (k q r : ℕ) → r < 2 ^ k → bit_or r (q * 2 ^ k) ≡ q * 2 ^ k + r
or_high k q r h = ground (arith, bit_or_split k 0 r q 0, zero-bit_or q, bit_or-zero r)

-- `get_offset` answers every address that `set_offset` stored.
pub get_offset-set_offset :
    (address : ℕ) (g : Gate) → address < 2 ^ 64 → get_offset (set_offset address g) ≡ address
unfolding get_offset set_offset
get_offset-set_offset a g h =
    let o0 = a % 2 ^ 16 in
    let o1 = a / 2 ^ 16 % 2 ^ 16 in
    let o2 = a / 2 ^ 32 % 2 ^ 32 in
    ground (
      arith,
      bit_and_mask 16 a,
      bit_and_mask 16 (a / 2 ^ 16),
      bit_and_mask 32 (a / 2 ^ 32),
      zero-bit_or o0,
      or_high 16 o1 o0,
      or_high 32 o2 (o1 * 2 ^ 16 + o0),
    )

gates-set_gates :
    (stub : ℕ → ℕ) (count first : ℕ) (t : Idt) (k : ℕ)
    → first + count ≤ 256
    → (set_gates stub count first t).gates k ≡ (
        if (leb first k && ltb k (first + count))
        then fill_gate (stub k) 0x8e 8 (t.gates k)
        else t.gates k)
unfolding set_gates set_idt_gate
gates-set_gates stub zero first t k h = ground arith
gates-set_gates stub (suc count) first t k h =
    ground
      (arith, gates-set_gates stub count (first + 1) (set_idt_gate (stub first) first 0x8e 8 t) k)

-- What a filled gate holds.
pub record IsGate (g : Gate) (address : ℕ) : Type 0 where
  pub handler : get_offset g ≡ address
  pub selector : g.selector ≡ 8
  pub type_attr : g.type_attr ≡ 0x8e
  pub ist : g.ist ≡ 0

fill_gate-IsGate :
    (address : ℕ) (g : Gate) → address < 2 ^ 64 → IsGate (fill_gate address 0x8e 8 g) address
unfolding fill_gate
fill_gate-IsGate address g h = record {
  handler = unfold get_offset in get_offset-set_offset address g h;
  selector = refl;
  type_attr = refl;
  ist = refl;
}

-- The vectors that `interrupts_init` gives a gate.
abbrev pub has_stub : ℕ → Bool
has_stub k = ltb k 48 || k == 255

gates-interrupts_init :
    {S : Type 0} (ports : Ports S) (stub : ℕ → ℕ) (page : ℕ → ℕ → Gate) (f : Frames) (m : S) (k : ℕ)
    → (interrupts_init ports stub page f m).idt.gates k ≡ (
        if has_stub k
        then fill_gate (stub k) 0x8e 8 (page (request_page f).0 k)
        else page (request_page f).0 k)
unfolding interrupts_init set_idt_gate
gates-interrupts_init ports stub page f m k =
    let t : Idt = record {
      limit = 0xfff;
      offset = (request_page f).0;
      gates = page (request_page f).0;
    } in
    ground (
      arith,
      gates-set_gates stub 32 0 t k (omega arith),
      gates-set_gates stub 16 32 (set_gates stub 32 0 t) k (omega arith),
    )

-- After `interrupts_init` the vectors 0 to 47 and 255 lead to their stubs through interrupt gates
-- of the kernel's code segment, every other entry is what the new page held, and of the sixteen
-- lines of the two 8259A controllers 0 and 1 are masked and the others as they were.
pub interrupts_init_lem :
    {S : Type 0} (ports : Ports S) (stub : ℕ → ℕ) (page : ℕ → ℕ → Gate) (f : Frames) (m : S)
    → Is8259a ports
    → ((k : ℕ) → stub k < 2 ^ 64)
    → ((k : ℕ)
        → has_stub k ≡ true
        → IsGate ((interrupts_init ports stub page f m).idt.gates k) (stub k))
      × ((k : ℕ)
          → has_stub k ≡ false
          → (interrupts_init ports stub page f m).idt.gates k ≡ page (request_page f).0 k)
      × ((line : ℕ)
          → line < 16
          → masked ports (interrupts_init ports stub page f m).machine line
            ≡ (if ltb line 2 then true else masked ports m line))
interrupts_init_lem ports stub page f m h small = (
  λ k e.
      rw (gates-interrupts_init ports stub page f m k, e)
        (fill_gate-IsGate (stub k) (page (request_page f).0 k) (small k)),
  λ k e. rw (gates-interrupts_init ports stub page f m k, e) refl,
  λ line l.
      unfold interrupts_init in
      ground (
        arith,
        masked-pic_set_mask ports h (pic_set_mask ports 0 (pic_remap ports m)) 1 line
            (Awaits-pic_set_mask ports h (pic_remap ports m) 0 (Awaits-pic_remap ports h m)),
        masked-pic_set_mask ports h (pic_remap ports m) 0 line (Awaits-pic_remap ports h m),
        masked-pic_remap ports h m line,
      ),
)
