-- ===== src/Cpu/Idt/Examples.antt =====
-- The gates over a page of zeros, with stubs that stand 16 bytes apart.
use husky_os.Base.{
  suc, Bool, ◌≢◌, u8, ◌-◌, ◌||◌, ℕ, ◌+◌, ◌*◌, ◌%◌, ◌^◌, ◌<◌, ◌≡◌, refl, true, false, arith, ltb,
  ◌==◌, if◌then◌else◌,
}
use husky_os.Memory.Frames.{Frames}
use husky_os.Cpu.Port.{Ports}
use husky_os.Cpu.Pic.Controllers.{Is8259a, data_of, command_of}
use husky_os.Cpu.Pic.Masks.{masked}
use husky_os.Cpu.Idt.{Gate, interrupts_init}
use husky_os.Cpu.Idt.Gates.{IsGate, has_stub, interrupts_init_lem}

abbrev empty : Gate
empty = record {
  offset_0 = 0;
  selector = 0;
  ist = 0;
  type_attr = 0;
  offset_1 = 0;
  offset_2 = 0;
  ignore = 0;
}

-- Two controllers: their masks, and the words that they wait for, by their data ports; a start
-- clears the mask.
abbrev masks : Ports ((ℕ → ℕ) × (ℕ → ℕ))
masks = record {
  input = λ s p. s.0 p % 2 ^ 8;
  reading = λ p s. s;
  output = λ p v s.
      if (p == 0x20 || p == 0xa0)
      then ((λ q. if q == p + 1 then 0 else s.0 q), (λ q. if q == p + 1 then 3 else s.1 q))
      else if s.1 p == 0
      then ((λ q. if q == p then v else s.0 q), s.1)
      else (s.0, (λ q. if q == p then s.1 q - 1 else s.1 q));
}

abbrev State : Type 0
State = (ℕ → ℕ) × (ℕ → ℕ)

masks-starts : (s : State) (c : Bool) → (masks.output (command_of c) 0x11 s).1 (data_of c) ≡ 3
masks-starts s false = refl
masks-starts s true = refl

masks-word :
    (s : State) (c : Bool) (v n : ℕ)
    → s.1 (data_of c) ≡ suc n
    → (masks.output (data_of c) v s).1 (data_of c) ≡ n
masks-word s false v n e = ground arith
masks-word s true v n e = ground arith

masks-mask :
    (s : State) (c : Bool) (v : ℕ)
    → s.1 (data_of c) ≡ 0
    → (masks.input (masks.output (data_of c) v s) (data_of c) ≡ u8 v)
      × ((masks.output (data_of c) v s).1 (data_of c) ≡ 0)
masks-mask s false v e = ground arith
masks-mask s true v e = ground arith

masks-apart :
    (s : State) (c : Bool) (p v : ℕ)
    → p ≢ data_of c
    → p ≢ command_of c
    → (masks.input (masks.output p v s) (data_of c) ≡ masks.input s (data_of c))
      × ((masks.output p v s).1 (data_of c) ≡ s.1 (data_of c))
masks-apart s false p v d e = ground arith
masks-apart s true p v d e = ground arith

masks-Is8259a : Is8259a masks
masks-Is8259a = record {
  awaited = λ s c. s.1 (data_of c);
  byte = λ s c. omega arith;
  starts = masks-starts;
  word = masks-word;
  mask = masks-mask;
  apart = masks-apart;
  read = λ s c p. (refl, refl);
}

abbrev frames : Frames
frames = record {
  page_bitmap = record { size = 1; address = 0; buffer = λ k. 0 };
  free_memory = 32768;
  reserved_memory = 0;
  used_memory = 0;
  page_bitmap_index = 0;
  initialized = true;
}

abbrev none_masked : (ℕ → ℕ) × (ℕ → ℕ)
none_masked = ((λ p. 0), (λ p. 0))

abbrev stub : ℕ → ℕ
stub k = 0x100000 + k % 256 * 16

interrupts_init_lem_example :
    ((k : ℕ)
      → has_stub k ≡ true
      → IsGate
          ((interrupts_init masks stub (λ p k. empty) frames none_masked).idt.gates k)
          (stub k))
    × ((k : ℕ)
        → has_stub k ≡ false
        → (interrupts_init masks stub (λ p k. empty) frames none_masked).idt.gates k ≡ empty)
    × ((line : ℕ)
        → line < 16
        → masked masks (interrupts_init masks stub (λ p k. empty) frames none_masked).machine line
          ≡ (if ltb line 2 then true else masked masks none_masked line))
interrupts_init_lem_example =
    interrupts_init_lem masks stub (λ p k. empty) frames none_masked masks-Is8259a
      (λ k. omega arith)
