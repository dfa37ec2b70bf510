-- ===== src/Cpu/Acpi/Examples.antt =====
-- A root table with two entries, and a MADT with two processors and an IO APIC.
use husky_os.Base.{List, ℕ, ◌≡◌, ◌==◌, if◌then◌else◌, true, some, [], ◌∷◌, refl, arith, load32}
use husky_os.Cpu.Acpi.{Apic, sdt_entries, find_table, read_records}
use husky_os.Cpu.Acpi.Tables.{First, find_table_lem}
use husky_os.Cpu.Acpi.Madt.{
  Entry, processor, io_apic, IsMadt, ended, entry_at, Says, read_records_lem,
}

-- The RSDT at 0x100 points to 0x200 and 0x300; the table at 0x300 and the name at 0x400 are "APIC".
abbrev bytes : ℕ → ℕ
bytes a =
    if a == 0x104
    then 44
    else if a == 0x125
    then 2
    else if a == 0x129
    then 3
    else if a == 0x300
    then b'A'
    else if a == 0x301
    then b'P'
    else if a == 0x302
    then b'I'
    else if a == 0x303
    then b'C'
    else if a == 0x400
    then b'A'
    else if a == 0x401
    then b'P'
    else if a == 0x402
    then b'I'
    else if a == 0x403
    then b'C'
    else 0

find_table_lem_example :
    First bytes true 0x400 0x100 0
      (sdt_entries (load32 bytes 0x104))
      (find_table bytes true 0x400 0x100)
find_table_lem_example = find_table_lem bytes true 0x400 0x100

-- Records of 8 bytes at 0 and 8 for processors 0 and 1, and one of 12 at 16 for the IO APIC.
abbrev madt : ℕ → ℕ
madt a =
    if a == 1
    then 8
    else if a == 4
    then 1
    else if a == 9
    then 8
    else if a == 11
    then 1
    else if a == 12
    then 1
    else if a == 16
    then 1
    else if a == 17
    then 12
    else if a == 22
    then 0xc0
    else if a == 23
    then 0xfe
    else 0

abbrev nothing_yet : Apic
nothing_yet = record { lapic_ids = λ i. 0; numcore = 0; lapic_ptr = 0; ioapic_ptr = 0 }

abbrev entries : List Entry
entries = processor 0 true ∷ processor 1 true ∷ io_apic 0xfec00000 ∷ []

entries-IsMadt : IsMadt madt 0 28 entries
entries-IsMadt =
    entry_at (refl, refl, refl) (omega arith) (omega arith)
      (entry_at (refl, refl, refl) (omega arith) (omega arith)
        (entry_at (refl, refl) (omega arith) (omega arith) ended))

read_records_lem_example :
    (t : Apic) × (read_records madt 29 0 28 nothing_yet ≡ some t) × Says entries nothing_yet t
read_records_lem_example =
    read_records_lem madt 29 0 28 entries nothing_yet entries-IsMadt (omega arith) (omega arith)
