-- ===== src/Drivers/Ahci/Command.antt =====
-- `Port::Read`: a command for the disk, in memory that the controller reads.
use husky_os.Base.{
  ℕ, zero, suc, ◌+◌, ◌-◌, ◌*◌, ◌/◌, ◌%◌, ◌^◌, Bool, true, false, not, Option, some, none, ◌==◌,
  if◌then◌else◌, u8, u32, load8, load32, bit_and, ◌>>=◌,
}
use husky_os.Klib.Block.{write, memset}
use husky_os.Cpu.Port.{Ports}
use husky_os.Drivers.Ahci.{register}

abbrev pub store8 : (address value : ℕ) → (ℕ → ℕ) → ℕ → ℕ
store8 address value m = write m address (u8 value)

abbrev pub store16 : (address value : ℕ) → (ℕ → ℕ) → ℕ → ℕ
store16 address value m = store8 (address + 1) (value / 2 ^ 8) (store8 address value m)

abbrev pub store32 : (address value : ℕ) → (ℕ → ℕ) → ℕ → ℕ
store32 address value m = store16 (address + 2) (value / 2 ^ 16) (store16 address value m)

-- The header: `commandFISLength` is the low 5 bits of its first byte, and `write` bit 6.
unfoldable pub fill_header : (header : ℕ) → (ℕ → ℕ) → ℕ → ℕ
fill_header header m =
    let length_set = load8 m header / 2 ^ 5 * 2 ^ 5 + 5 in
    store16 (header + 2) 1 (store8 header (bit_and length_set 0xbf) m)

-- The first entry of the region table: the byte count has 22 bits, the flag is bit 31.
unfoldable pub fill_entry : (entry buffer sector_count : ℕ) → (ℕ → ℕ) → ℕ → ℕ
fill_entry entry buffer sector_count m =
    let t = store32 (entry + 4) (buffer / 2 ^ 32) (store32 entry buffer m) in
    let kept = load32 t (entry + 12) / 2 ^ 22 % 2 ^ 9 in
    let count = u32 (u32 (sector_count * 2 ^ 9) + 2 ^ 32 - 1) % 2 ^ 22 in
    store32 (entry + 12) (2 ^ 31 + kept * 2 ^ 22 + count) t

-- `cmdFIS`, at the start of the table.
unfoldable pub fill_fis : (fis sector sector_count : ℕ) → (ℕ → ℕ) → ℕ → ℕ
fill_fis fis sector sector_count m =
    let sector_low = u32 sector in
    let sector_high = u32 (sector / 2 ^ 32) in
    let typed =
      store8 (fis + 2) 0x25
        (store8 (fis + 1) (load8 m (fis + 1) % 2 ^ 7 + 2 ^ 7) (store8 fis 0x27 m)) in
    let low =
      store8 (fis + 6) (sector_low / 2 ^ 16)
        (store8 (fis + 5) (sector_low / 2 ^ 8) (store8 (fis + 4) sector_low typed)) in
    let high =
      store8 (fis + 10) (sector_high / 2 ^ 16)
        (store8 (fis + 9) (sector_high / 2 ^ 8) (store8 (fis + 8) sector_high low)) in
    store8 (fis + 13) (sector_count / 2 ^ 8)
      (store8 (fis + 12) sector_count (store8 (fis + 7) (2 ^ 6) high))

-- The header, the cleared table with its entry, and the command.
unfoldable pub fill_command : (header buffer sector sector_count : ℕ) → (ℕ → ℕ) → ℕ → ℕ
fill_command header buffer sector sector_count m =
    let t = fill_header header m in
    let table = load32 t (header + 8) in
    fill_fis table sector sector_count
      (fill_entry (table + 128) buffer sector_count (memset 128 table 0 t))

module _ {S : Type 0} (registers : Ports S) where
  -- The first loop: whether the port was ready before `spin` reached its limit.
  unfoldable pub wait_ready : (spins hba_port : ℕ) → S → Bool × S
  wait_ready zero hba_port s = (false, registers.reading (register hba_port 0x20) s)
  wait_ready (suc spins) hba_port s =
      let t = registers.reading (register hba_port 0x20) s in
      let on = wait_ready spins hba_port t in
      if bit_and (registers.input s (register hba_port 0x20)) 0x88 == 0 then (true, t) else on

  -- The last loop: the command is done, or has failed.
  unfoldable pub wait_done : (fuel hba_port : ℕ) → S → Option (Bool × S)
  wait_done zero hba_port s = none
  wait_done (suc fuel) hba_port s =
      let t = registers.reading (register hba_port 0x38) s in
      let u = registers.reading (register hba_port 0x10) t in
      let on = wait_done fuel hba_port u in
      if registers.input s (register hba_port 0x38) == 0
      then some (true, t)
      else if not (bit_and (registers.input t (register hba_port 0x10)) (2 ^ 30) == 0)
      then some (false, u)
      else on

  -- `Port::Read`: the command list is found by the low half of its address.
  unfoldable pub read :
      (fuel hba_port sector sector_count buffer : ℕ) → S × (ℕ → ℕ) → Option (Bool × (S × (ℕ → ℕ)))
  read fuel hba_port sector sector_count buffer (s, m) =
      let (ready, t) = wait_ready 1000000 hba_port s in
      if not ready
      then some (false, (t, m))
      else let u = registers.output (register hba_port 0x10) 0xffffffff t in
        let header = registers.input u hba_port in
        let v = registers.reading hba_port u in
        let filled = fill_command header buffer sector sector_count m in
        wait_done fuel hba_port (registers.output (register hba_port 0x38) 1 v) >>= λ (result, w).
        some (result, (w, filled))
