-- ===== src/Cpu/Acpi.antt =====
-- Kernel/src/cpu/acpi/acpi.cpp: the search for a table, and the processors and interrupt controllers
-- of the MADT. Tables are memory that is read by bytes.
pub mod Tables
pub mod Madt
mod Examples
use husky_os.Base.{
  ℕ, zero, suc, ◌+◌, ◌-◌, ◌*◌, ◌/◌, ◌%◌, ◌^◌, Bool, true, false, not, Option, some, none, ltb, leb,
  ◌==◌, if◌then◌else◌, u8, u32, u64, sub64, bit_and, load8, load32, load64, ◌>>=◌,
}
use husky_os.Klib.Block.{strncmp}
use husky_os.Cpu.Pci.{Pci, rounds_of, enumerate_pci}

-- `entries`: both kinds of root table count by 4 bytes.
unfoldable pub sdt_entries : (length : ℕ) → ℕ
sdt_entries length = rounds_of (sub64 length 36 / 4)

-- `PointerSDT[i]` of an RSDT and of an XSDT.
unfoldable pub pointer_at : (ℕ → ℕ) → (is_rsdt : Bool) → (root i : ℕ) → ℕ
pointer_at m is_rsdt root i =
    if is_rsdt then load32 m (root + 36 + 4 * i) else load64 m (root + 36 + 8 * i)

-- The loop of `FindTable`, with `rounds` entries left; 0 if none is the table.
unfoldable pub find_from : (ℕ → ℕ) → (is_rsdt : Bool) → (table root rounds i : ℕ) → ℕ
find_from m is_rsdt table root zero i = 0
find_from m is_rsdt table root (suc rounds) i =
    let on = find_from m is_rsdt table root rounds (i + 1) in
    let h = pointer_at m is_rsdt root i in if strncmp 4 h table m == 0 then h else on

unfoldable pub find_table : (ℕ → ℕ) → (is_rsdt : Bool) → (table root : ℕ) → ℕ
find_table m is_rsdt table root =
    find_from m is_rsdt table root (sdt_entries (load32 m (root + 4))) 0

-- What `PrepareACPI` reads from the MADT.
pub record Apic : Type 0 where
  pub lapic_ids : ℕ → ℕ
  pub numcore : ℕ
  pub lapic_ptr : ℕ
  pub ioapic_ptr : ℕ

-- One round of the loop over the records, at the record that starts at `ptr`.
unfoldable pub read_record : (ℕ → ℕ) → (ptr : ℕ) → Apic → Apic
read_record m ptr s =
    if load8 m ptr == 0
    then (if bit_and (load8 m (ptr + 4)) 1 == 0 then s else record s {
      lapic_ids = λ i. if i == s.numcore then load8 m (ptr + 3) else s.lapic_ids i;
      numcore = u8 (s.numcore + 1);
    })
    else if load8 m ptr == 1
    then record s { ioapic_ptr = load32 m (ptr + 4) }
    else if load8 m ptr == 5
    then record s { lapic_ptr = load64 m (ptr + 4) }
    else s

-- The loop: it moves on by the length byte of each record.
unfoldable pub read_records : (ℕ → ℕ) → (fuel ptr ptr2 : ℕ) → Apic → Option Apic
read_records m zero ptr ptr2 s = none
read_records m (suc fuel) ptr ptr2 s =
    let on = read_records m fuel (ptr + load8 m (ptr + 1)) ptr2 (read_record m ptr s) in
    if ltb ptr ptr2 then on else some s

unfoldable pub read_madt : (ℕ → ℕ) → (fuel apic : ℕ) → Option Apic
read_madt m fuel apic =
    read_records m fuel (apic + 44) (apic + load32 m (apic + 4))
      (record { lapic_ids = λ i. 0; numcore = 0; lapic_ptr = apic + 0x24; ioapic_ptr = 0 })

-- `PrepareACPI`, with the names "MCFG" and "APIC" as strings at their addresses.
unfoldable pub prepare_acpi :
    (ℕ → ℕ) → (fuel new_rsdp mcfg_name apic_name : ℕ) → Pci → Option (Pci × Apic)
prepare_acpi m fuel new_rsdp mcfg_name apic_name s =
    let is_rsdt = load64 m (new_rsdp + 24) == 0 in
    let root = if is_rsdt then load32 m (new_rsdp + 16) else load64 m (new_rsdp + 24) in
    let t = enumerate_pci m (find_table m is_rsdt mcfg_name root) s in
    read_madt m fuel (find_table m is_rsdt apic_name root) >>= λ apic. some (t, apic)
