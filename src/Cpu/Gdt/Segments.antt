-- ===== src/Cpu/Gdt/Segments.antt =====
-- The base address that the processor reads from the two descriptors of the task state segment.
use husky_os.Base.{ℕ, ◌+◌, ◌*◌, ◌/◌, ◌^◌, ◌<◌, ◌≡◌, arith, refl}
use husky_os.Base.Bits.{bit_and_mask}
use husky_os.Cpu.Gdt.{Descriptor, create_descriptors, gdt_init}

-- The 32-bit base of a descriptor, and the 64-bit base of a system descriptor of two slots.
abbrev pub base_of : Descriptor → ℕ
base_of d = d.base_15_0 + d.base_23_16 * 2 ^ 16 + d.base_31_24 * 2 ^ 24

abbrev pub system_base : (low high : Descriptor) → ℕ
system_base low high = base_of low + (high.limit_15_0 + high.base_15_0 * 2 ^ 16) * 2 ^ 32

-- After `gdt_init` the descriptor of the task state segment has the segment's address as base,
-- for every 64-bit address, and type 0x89; the other segments are the flat ones that
-- `create_descriptors` makes, whose base is 0.
pub gdt_init_lem :
    (tss_base gdt_address : ℕ)
    → tss_base < 2 ^ 64
    → let g = (gdt_init tss_base gdt_address).0 in
      (system_base g.tss_low g.tss_high ≡ tss_base)
      × (g.tss_low.type ≡ 0x89)
      × (base_of g.kernel_code ≡ 0)
      × (g.kernel_code.type ≡ 0x9a)
      × (base_of g.kernel_data ≡ 0)
      × (g.kernel_data.type ≡ 0x92)
unfolding gdt_init create_descriptors
gdt_init_lem b a h = (
  ground (
    arith,
    bit_and_mask 16 b,
    bit_and_mask 8 (b / 2 ^ 16),
    bit_and_mask 8 (b / 2 ^ 24),
    bit_and_mask 16 (b / 2 ^ 32),
    bit_and_mask 16 (b / 2 ^ 48),
  ),
  refl,
  ground arith,
  refl,
  ground arith,
  refl,
)
