-- ===== src/Cpu/Gdt.antt =====
-- Kernel/src/cpu/gdt/gdt.cpp and Kernel/include/gdt.h: the segment descriptors.
pub mod Segments
mod Examples
use husky_os.Base.{ℕ, ◌+◌, ◌-◌, ◌*◌, ◌/◌, ◌%◌, ◌^◌, u8, u16, bit_and}

pub record Descriptor : Type 0 where
  pub limit_15_0 : ℕ
  pub base_15_0 : ℕ
  pub base_23_16 : ℕ
  pub type : ℕ
  pub limit_19_16_and_flags : ℕ
  pub base_31_24 : ℕ

pub record Gdt : Type 0 where
  pub null : Descriptor
  pub kernel_code : Descriptor
  pub kernel_data : Descriptor
  pub null2 : Descriptor
  pub user_data : Descriptor
  pub user_code : Descriptor
  pub ovmf_data : Descriptor
  pub ovmf_code : Descriptor
  pub tss_low : Descriptor
  pub tss_high : Descriptor

-- A descriptor of base 0 and limit 0.
abbrev pub segment : (type flags : ℕ) → Descriptor
segment type flags = record {
  limit_15_0 = 0;
  base_15_0 = 0;
  base_23_16 = 0;
  type = type;
  limit_19_16_and_flags = flags;
  base_31_24 = 0;
}

unfoldable pub create_descriptors : Gdt
create_descriptors = record {
  null = segment 0x00 0x00;
  kernel_code = segment 0x9a 0xa0;
  kernel_data = segment 0x92 0xa0;
  null2 = segment 0x00 0x00;
  user_data = segment 0x92 0xa0;
  user_code = segment 0x9a 0xa0;
  ovmf_data = segment 0x92 0xa0;
  ovmf_code = segment 0x9a 0xa0;
  tss_low = segment 0x89 0xa0;
  tss_high = segment 0x00 0x00;
}

-- `sizeof(tss)` and `sizeof(gdt)`: the structs are packed, and the second is aligned to 4096.
abbrev pub tss_size : ℕ
tss_size = 104

abbrev pub gdt_size : ℕ
gdt_size = 4096

pub record GdtPointer : Type 0 where
  pub limit : ℕ
  pub base : ℕ

-- What `gdt_init` writes into the table and the pointer that it loads.
unfoldable pub gdt_init : (tss_base gdt_address : ℕ) → Gdt × GdtPointer
unfolding create_descriptors
gdt_init tss_base gdt_address =
    let g = create_descriptors in
    (
      record g {
        tss_low = record (g.tss_low) {
          base_15_0 = bit_and tss_base (2 ^ 16 - 1);
          base_23_16 = bit_and (tss_base / 2 ^ 16) (2 ^ 8 - 1);
          base_31_24 = bit_and (tss_base / 2 ^ 24) (2 ^ 8 - 1);
          limit_15_0 = tss_size;
        };
        tss_high = record (g.tss_high) {
          limit_15_0 = bit_and (tss_base / 2 ^ 32) (2 ^ 16 - 1);
          base_15_0 = bit_and (tss_base / 2 ^ 48) (2 ^ 16 - 1);
        };
      },
      record { limit = gdt_size - 1; base = gdt_address },
    )
