-- ===== src/Cpu/Pci/Examples.antt =====
-- One bus with one device of one function.
use husky_os.Base.{ℕ, ◌≡◌, ◌++◌, ◌==◌, if◌then◌else◌, true, gathered, load32}
use husky_os.Cpu.Pci.{Pci, enumerate_pci, mcfg_entries}
use husky_os.Cpu.Pci.Devices.{found, buses_at, enumerate_pci_lem}

-- The table lies at 0 and has one entry: the bus 0, at 2 ^ 28, whose device has the number 0x34.
abbrev bytes : ℕ → ℕ
bytes a =
    if a == 4
    then 60
    else if a == 47
    then 16
    else if a == 55
    then 1
    else if a == 0x10000000
    then 0x34
    else 0

abbrev pci : Pci
pci = record {
  devices = record { array = λ i. 0; length = 0 };
  pml4 = 0;
  machine = record {
    memory = λ a. 0;
    frames = record {
      page_bitmap = record { size = 0; address = 0; buffer = λ k. 0 };
      free_memory = 0;
      reserved_memory = 0;
      used_memory = 0;
      page_bitmap_index = 0;
      initialized = true;
    };
  };
}

enumerate_pci_lem_example :
    found bytes (enumerate_pci bytes 0 pci)
    ≡ found bytes pci ++ gathered (mcfg_entries (load32 bytes 4)) 0 (buses_at bytes 0)
enumerate_pci_lem_example = enumerate_pci_lem bytes 0 pci
