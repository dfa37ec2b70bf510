-- ===== src/Cpu/Pci.antt =====
-- Kernel/src/cpu/pci/pci.cpp: the devices on the PCI buses. Their configuration space is memory that
-- is read by bytes; each part of it is mapped to itself before it is read.
pub mod Devices
mod Examples
use husky_os.Base.{
  ℕ, ◌+◌, ◌-◌, ◌*◌, ◌/◌, ◌^◌, Bool, true, false, not, ◌&&◌, ◌||◌, Option, some, none, leb, ◌==◌,
  if◌then◌else◌, for_range, u8, u32, u64, sub64, load8, load16, load32, load64, get_elem?, List,
}
use husky_os.Klib.Vector.{Vector, add}
use husky_os.Memory.Paging.{Machine, map_memory}

-- `PCIDevices`, and the page tables under `pml4`.
pub record Pci : Type 0 where
  pub devices : Vector
  pub pml4 : ℕ
  pub machine : Machine

unfoldable pub map_identity : (address : ℕ) → Pci → Pci
map_identity address s = record s { machine = map_memory s.pml4 address address s.machine }

-- The two tests of `DeviceID`.
unfoldable pub is_absent : (ℕ → ℕ) → (address : ℕ) → Bool
is_absent m address = load16 m address == 0 || load16 m address == 0xffff

unfoldable pub enumerate_function : (ℕ → ℕ) → (device_address function : ℕ) → Pci → Pci
enumerate_function m device_address function s =
    let function_address = u64 (device_address + u64 (function * 2 ^ 12)) in
    let t = map_identity function_address s in
    if is_absent m function_address
    then t
    else record t { devices = add function_address t.devices }

unfoldable pub enumerate_device : (ℕ → ℕ) → (bus_address device : ℕ) → Pci → Pci
enumerate_device m bus_address device s =
    let device_address = u64 (bus_address + u64 (device * 2 ^ 15)) in
    let t = map_identity device_address s in
    if is_absent m device_address then t else for_range 8 0 (enumerate_function m device_address) t

unfoldable pub enumerate_bus : (ℕ → ℕ) → (base_address bus : ℕ) → Pci → Pci
enumerate_bus m base_address bus s =
    let bus_address = u64 (base_address + u64 (bus * 2 ^ 20)) in
    let t = map_identity bus_address s in
    if is_absent m bus_address then t else for_range 32 0 (enumerate_device m bus_address) t

-- The fields of a `DeviceConfig`.
abbrev pub base_address_of : (ℕ → ℕ) → ℕ → ℕ
base_address_of m config = load64 m config

abbrev pub start_bus_of : (ℕ → ℕ) → ℕ → ℕ
start_bus_of m config = load8 m (config + 10)

abbrev pub end_bus_of : (ℕ → ℕ) → ℕ → ℕ
end_bus_of m config = load8 m (config + 11)

-- An `int` that counts rounds from 0 on: none if it is negative.
abbrev pub rounds_of : ℕ → ℕ
rounds_of n = if leb (2 ^ 31) (u32 n) then 0 else u32 n

-- `entries`, from the table's length.
unfoldable pub mcfg_entries : (length : ℕ) → ℕ
mcfg_entries length = rounds_of (sub64 length 44 / 16)

abbrev pub config_at : (mcfg i : ℕ) → ℕ
config_at mcfg i = u64 (mcfg + 44 + 16 * i)

unfoldable pub enumerate_config : (ℕ → ℕ) → (mcfg i : ℕ) → Pci → Pci
enumerate_config m mcfg i s =
    let config = config_at mcfg i in
    for_range (end_bus_of m config - start_bus_of m config) (start_bus_of m config)
      (enumerate_bus m (base_address_of m config)) s

unfoldable pub enumerate_pci : (ℕ → ℕ) → (mcfg : ℕ) → Pci → Pci
enumerate_pci m mcfg s =
    for_range (mcfg_entries (load32 m (mcfg + 4))) 0 (enumerate_config m mcfg) s
