-- ===== src/Cpu/Pci/Devices.antt =====
-- Which devices the enumeration finds.
use husky_os.Base.{
  ℕ, ◌+◌, ◌-◌, ◌*◌, ◌^◌, ◌≡◌, List, [], ◌∷◌, ◌++◌, if◌then◌else◌, gathered, for_range-gathered, u64,
  load32, sym, inl, inr, Bool-cases,
}
use mathlib.Core.List.{append-nil}
use husky_os.Klib.Vector.{items, items-add}
use husky_os.Cpu.Pci.{
  Pci, map_identity, is_absent, enumerate_function, enumerate_device, enumerate_bus,
  base_address_of, start_bus_of, end_bus_of, mcfg_entries, config_at, enumerate_config,
  enumerate_pci,
}

module _ (m : ℕ → ℕ) where
  -- The addresses of the functions of a device, of a bus, of a range of buses, that are there.
  abbrev pub function_at : (device function : ℕ) → List ℕ
  function_at device function =
      let a = u64 (device + u64 (function * 2 ^ 12)) in if is_absent m a then [] else a ∷ []

  abbrev pub device_at : (bus device : ℕ) → List ℕ
  device_at bus device =
      let a = u64 (bus + u64 (device * 2 ^ 15)) in
      if is_absent m a then [] else gathered 8 0 (function_at a)

  abbrev pub bus_at : (base bus : ℕ) → List ℕ
  bus_at base bus =
      let a = u64 (base + u64 (bus * 2 ^ 20)) in
      if is_absent m a then [] else gathered 32 0 (device_at a)

  abbrev pub buses_at : (mcfg i : ℕ) → List ℕ
  buses_at mcfg i =
      let c = config_at mcfg i in
      gathered (end_bus_of m c - start_bus_of m c) (start_bus_of m c) (bus_at (base_address_of m c))

  abbrev pub found : Pci → List ℕ
  found s = items s.devices

  found-function :
      (device function : ℕ) (s : Pci)
      → found (enumerate_function m device function s) ≡ found s ++ function_at device function
  unfolding enumerate_function map_identity
  found-function device function s =
      elim (Bool-cases (is_absent m (u64 (device + u64 (function * 2 ^ 12))))) [
        | inl e ↦ rw e (sym (append-nil (found s)))
        | inr e ↦ rw e (items-add (u64 (device + u64 (function * 2 ^ 12))) s.devices)
      ]

  found-device :
      (bus device : ℕ) (s : Pci)
      → found (enumerate_device m bus device s) ≡ found s ++ device_at bus device
  unfolding enumerate_device map_identity
  found-device bus device s =
      let a = u64 (bus + u64 (device * 2 ^ 15)) in
      elim (Bool-cases (is_absent m a)) [
        | inl e ↦ rw e (sym (append-nil (found s)))
        | inr e ↦ rw e (
            for_range-gathered found (function_at a) (enumerate_function m a) (found-function a) 8 0
              (map_identity a s))
      ]

  found-bus :
      (base bus : ℕ) (s : Pci) → found (enumerate_bus m base bus s) ≡ found s ++ bus_at base bus
  unfolding enumerate_bus map_identity
  found-bus base bus s =
      let a = u64 (base + u64 (bus * 2 ^ 20)) in
      elim (Bool-cases (is_absent m a)) [
        | inl e ↦ rw e (sym (append-nil (found s)))
        | inr e ↦ rw e (
            for_range-gathered found (device_at a) (enumerate_device m a) (found-device a) 32 0
              (map_identity a s))
      ]

  found-config :
      (mcfg i : ℕ) (s : Pci) → found (enumerate_config m mcfg i s) ≡ found s ++ buses_at mcfg i
  unfolding enumerate_config
  found-config mcfg i s =
      let c = config_at mcfg i in
      for_range-gathered found (bus_at (base_address_of m c))
        (enumerate_bus m (base_address_of m c)) (found-bus (base_address_of m c))
        (end_bus_of m c - start_bus_of m c) (start_bus_of m c) s

  -- `EnumeratePCI` adds to the known devices, in order, the functions that are there of the devices
  -- that are there on the buses that are there: for each entry of the table the buses from its
  -- first on and below its last, so the last bus of an entry is left out.
  pub enumerate_pci_lem :
      (mcfg : ℕ) (s : Pci)
      → found (enumerate_pci m mcfg s)
        ≡ found s ++ gathered (mcfg_entries (load32 m (mcfg + 4))) 0 (buses_at mcfg)
  unfolding enumerate_pci
  enumerate_pci_lem mcfg s =
      for_range-gathered found (buses_at mcfg) (enumerate_config m mcfg) (found-config mcfg)
        (mcfg_entries (load32 m (mcfg + 4))) 0 s
