-- ===== src/Drivers/Ahci/Setup.antt =====
-- `Port::Configure` and the constructor of the driver.
use husky_os.Base.{
  ℕ, zero, suc, ◌+◌, ◌*◌, ◌/◌, ◌^◌, Option, some, for_range, u32, u64, load32, ◌>>=◌,
}
use husky_os.Klib.Block.{memset}
use husky_os.Memory.Frames.{request_page}
use husky_os.Memory.Paging.{Machine, map_memory}
use husky_os.Cpu.Port.{Ports}
use husky_os.Drivers.Ahci.{Driver, register, stop_cmd, start_cmd, probe_ports}
use husky_os.Drivers.Ahci.Command.{store16, store32, read}

-- The controller, memory, and the page tables with their frames.
pub record Disks (S : Type 0) : Type 0 where
  pub device : S
  pub bytes : ℕ → ℕ
  pub machine : Machine

-- A page of the frame allocator.
abbrev pub take_frame : {S : Type 0} → Disks S → ℕ × Disks S
take_frame s =
    let (page, frames) = request_page s.machine.frames in
    (page, record s { machine = record s.machine { frames = frames } })

module _ {S : Type 0} (registers : Ports S) where
  abbrev pub put_register : (address value : ℕ) → Disks S → Disks S
  put_register address value s = record s { device = registers.output address (u32 value) s.device }

  -- A 64-bit address in two registers.
  abbrev pub put_address : (register value : ℕ) → Disks S → Disks S
  put_address register value s =
      put_register (register + 4) (value / 2 ^ 32) (put_register register value s)

  -- A command header, with its table in a page of its own.
  unfoldable pub fill_slot : (command_header i : ℕ) → Disks S → Disks S
  fill_slot command_header i s =
      let header = command_header + 32 * i in
      let (table, t) = take_frame s in
      let address = u64 (table + i * 2 ^ 8) in
      record t {
        bytes = memset 256 table 0 (
            store32 (header + 12) (address / 2 ^ 32)
              (store32 (header + 8) address (store16 (header + 2) 8 t.bytes)));
      }

  unfoldable pub configure : (fuel hba_port : ℕ) → Disks S → Option (Disks S)
  configure fuel hba_port s = do
    stopped ← stop_cmd registers fuel hba_port s.device
    let (base, t) = take_frame (record s { device = stopped })
    let u = put_address hba_port base t
    let low = registers.input u.device hba_port
    let (fis, v) = take_frame (record u {
      device = registers.reading hba_port u.device;
      bytes = memset 1024 low 0 u.bytes;
    })
    let w = put_address (register hba_port 8) fis v
    let header_low = registers.input w.device hba_port
    let after_low = registers.reading hba_port w.device
    let header_high = registers.input after_low (register hba_port 4)
    let x = for_range 32 0 (fill_slot (u64 (header_low + header_high * 2 ^ 32))) (record w {
      device = registers.reading (register hba_port 4) after_low;
      bytes = memset 256 fis 0 w.bytes;
    })
    started ← start_cmd registers fuel hba_port x.device
    some (record x { device = started })

  -- A round of the constructor: the port is set up, and the first 4 sectors are read into a page
  -- of their own; whether that went well is not looked at.
  unfoldable pub start_port : (fuel hba_port : ℕ) → Disks S → Option (Disks S)
  start_port fuel hba_port s = do
    t ← configure fuel hba_port s
    let (buffer, u) = take_frame t
    (done, (device, bytes)) ←
        read registers fuel hba_port 0 4 buffer (u.device, memset 0x1000 buffer 0 u.bytes)
    some (record u { device = device; bytes = bytes })

  -- The loop over the ports, with `rounds` left.
  unfoldable pub start_ports : (fuel rounds i : ℕ) → Driver → Disks S → Option (Disks S)
  start_ports fuel zero i d s = some s
  start_ports fuel (suc rounds) i d s = do
    t ← start_port fuel (d.ports i).hba_port s
    start_ports fuel rounds (i + 1) d t

  -- `AHCIDriver`, for the device whose header stands at `pci`; the memory of `d` is what `new`
  -- gives, so `portCount` is what stands there.
  unfoldable pub ahci_driver : (fuel pml4 pci : ℕ) → Driver → Disks S → Option (Driver × Disks S)
  ahci_driver fuel pml4 pci d s = do
    let abar = load32 s.bytes (pci + 36)
    let t = record s { machine = map_memory pml4 abar abar s.machine }
    e ← probe_ports registers t.device (record d { abar = abar })
    u ← start_ports fuel e.port_count 0 e t
    some (e, u)
