-- ===== src/Drivers/Ahci.antt =====
-- Kernel/src/drivers/ahci.cpp: the ports of the disk controller. Its registers are words at
-- addresses; what stands behind them is a parameter, as for the ports of the machine.
pub mod Command
pub mod Setup
pub mod Probe
pub mod Address
mod Examples
use husky_os.Base.{
  ltb, ℕ, zero, suc, ◌+◌, ◌-◌, ◌*◌, ◌/◌, ◌%◌, ◌^◌, Bool, true, false, not, ◌&&◌, ◌||◌, Option, some,
  none, ◌==◌, if◌then◌else◌, for_range, u8, u32, bit_and, bit_or, ◌>>=◌,
}
use husky_os.Cpu.Port.{Ports}

pub data PortType : Type 0 where
  no_port sata semb pm satapi : PortType

-- `CheckPortType`, from the registers `sataStatus` and `signature`.
unfoldable pub check_port_type : (sata_status signature : ℕ) → PortType
check_port_type sata_status signature =
    if not (bit_and sata_status 7 == 3)
    then no_port
    else if not (bit_and (sata_status / 2 ^ 8) 7 == 1)
    then no_port
    else if signature == 0xeb140101
    then satapi
    else if signature == 0x101
    then sata
    else if signature == 0x96690101
    then semb
    else if signature == 0xc33c0101
    then semb
    else no_port

-- `portType == SATA || portType == SATAPI`
abbrev pub is_disk : PortType → Bool
is_disk sata = true
is_disk satapi = true
is_disk no_port = false
is_disk semb = false
is_disk pm = false

pub record Port : Type 0 where
  pub hba_port : ℕ
  pub port_type : PortType
  pub port_number : ℕ

-- `ports` and `portCount` of the driver, a `uint8_t`.
pub record Driver : Type 0 where
  pub abar : ℕ
  pub ports : ℕ → Port
  pub port_count : ℕ

-- `&ABAR->ports[i]`
abbrev pub hba_port_at : (abar i : ℕ) → ℕ
hba_port_at abar i = abar + 0x100 + 0x80 * i

abbrev pub register : ℕ → (offset : ℕ) → ℕ
register hba_port offset = hba_port + offset

module _ {S : Type 0} (registers : Ports S) where
  abbrev pub type_of : S → (hba_port : ℕ) → PortType
  type_of s hba_port =
      check_port_type (registers.input s (register hba_port 0x28))
        (registers.input s (register hba_port 0x24))

  -- `none` where the port would be stored behind the 32 that `ports` has room for, where
  -- `portCount` lies.
  abbrev pub add_port : Port → Driver → Option Driver
  add_port p d =
      if ltb d.port_count 32
      then some (record d {
        ports = λ i. if i == d.port_count then p else d.ports i;
        port_count = u8 (d.port_count + 1);
      })
      else none

  -- A round of the loop of `ProbePorts`.
  unfoldable pub probe_port : S → (ports_implemented i : ℕ) → Driver → Option Driver
  probe_port s ports_implemented i d =
      let hba_port = hba_port_at d.abar i in
      let t = type_of s hba_port in
      if bit_and ports_implemented (2 ^ i) == 0
      then some d
      else if is_disk t
      then add_port (record { hba_port = hba_port; port_type = t; port_number = d.port_count }) d
      else some d

  unfoldable pub probe_ports : S → Driver → Option Driver
  probe_ports s d =
      let ports_implemented = registers.input s (d.abar + 12) in
      for_range 32 0 (λ i o. o >>= probe_port s ports_implemented i) (some d)

  abbrev pub cmd_sts : ℕ → ℕ
  cmd_sts hba_port = register hba_port 0x18

  -- The loop of `stopCmd`: a pass looks at FR, and at CR only when FR is clear.
  unfoldable pub wait_stopped : (fuel hba_port : ℕ) → S → Option S
  wait_stopped zero hba_port s = none
  wait_stopped (suc fuel) hba_port s =
      let t = registers.reading (cmd_sts hba_port) s in
      let u = registers.reading (cmd_sts hba_port) t in
      let again = wait_stopped fuel hba_port t in
      let again' = wait_stopped fuel hba_port u in
      if not (bit_and (registers.input s (cmd_sts hba_port)) 0x4000 == 0)
      then again
      else if not (bit_and (registers.input t (cmd_sts hba_port)) 0x8000 == 0)
      then again'
      else some u

  -- `hbaPortPtr->cmdSts &= mask` and `|= bits`
  abbrev pub mask_cmd_sts : (mask hba_port : ℕ) → S → S
  mask_cmd_sts mask hba_port s =
      registers.output (cmd_sts hba_port) (bit_and (registers.input s (cmd_sts hba_port)) mask)
        (registers.reading (cmd_sts hba_port) s)

  abbrev pub set_cmd_sts : (bits hba_port : ℕ) → S → S
  set_cmd_sts bits hba_port s =
      registers.output (cmd_sts hba_port) (bit_or (registers.input s (cmd_sts hba_port)) bits)
        (registers.reading (cmd_sts hba_port) s)

  unfoldable pub stop_cmd : (fuel hba_port : ℕ) → S → Option S
  stop_cmd fuel hba_port s =
      wait_stopped fuel hba_port
        (mask_cmd_sts 0xffffffef hba_port (mask_cmd_sts 0xfffffffe hba_port s))

  -- The loop of `startCmd`.
  unfoldable pub wait_startable : (fuel hba_port : ℕ) → S → Option S
  wait_startable zero hba_port s = none
  wait_startable (suc fuel) hba_port s =
      let t = registers.reading (cmd_sts hba_port) s in
      let again = wait_startable fuel hba_port t in
      if not (bit_and (registers.input s (cmd_sts hba_port)) 0x8000 == 0) then again else some t

  unfoldable pub start_cmd : (fuel hba_port : ℕ) → S → Option S
  start_cmd fuel hba_port s = wait_startable fuel hba_port s >>= λ t.
      some (set_cmd_sts 0x0001 hba_port (set_cmd_sts 0x0010 hba_port t))
