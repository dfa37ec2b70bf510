-- ===== src/Boot/Disks.antt =====
-- Kernel/src/kernel.cpp: the drivers that KernelStart starts for the devices on the PCI buses.
use husky_os.Base.{ℕ, zero, suc, ◌+◌, Bool, Option, some, ◌==◌, ◌&&◌, load8, ◌>>=◌, if◌then◌else◌}
use husky_os.Klib.Vector.{Vector, get_item}
use husky_os.Cpu.Port.{Ports}
use husky_os.Drivers.Ahci.{Driver}
use husky_os.Drivers.Ahci.Setup.{Disks, ahci_driver}

-- `Class`, `SubClass` and `ProgramIF` of a serial ATA controller with AHCI.
unfoldable pub is_ahci : (ℕ → ℕ) → (header : ℕ) → Bool
is_ahci m header =
    load8 m (header + 11) == 1 && load8 m (header + 10) == 6 && load8 m (header + 9) == 1

-- The loop over `PCIDevices`, with `rounds` left; `fresh i` is the memory that `new` gives.
unfoldable pub start_drivers :
    {S : Type 0}
    → Ports S
    → (fuel pml4 : ℕ) → Vector
    → (fresh : ℕ → Driver) → (rounds i : ℕ) → Disks S
    → Option (Disks S)
start_drivers registers fuel pml4 pci_devices fresh zero i s = some s
start_drivers registers fuel pml4 pci_devices fresh (suc rounds) i s =
    let header = get_item pci_devices i in
    let started = ahci_driver registers fuel pml4 header (fresh i) s in
    let device = if is_ahci s.bytes header then (started >>= λ (driver, t). some t) else some s in
    device >>= start_drivers registers fuel pml4 pci_devices fresh rounds (i + 1)
