-- ===== src/Drivers/Ahci/Examples.antt =====
-- A controller with two disks, and a command for one of them.
use husky_os.Base.{
  ℕ, some, refl, ◌≤◌, ◌+◌, ◌*◌, ◌/◌, ◌%◌, ◌^◌, ◌<◌, ◌≡◌, ◌==◌, if◌then◌else◌, gathered, arith,
}
use husky_os.Cpu.Port.{Ports}
use husky_os.Drivers.Ahci.{Driver, sata, probe_ports}
use husky_os.Drivers.Ahci.Probe.{disks, disk_at, probe_ports_lem}
use husky_os.Drivers.Ahci.Command.{fill_fis}
use husky_os.Drivers.Ahci.Address.{lba, sectors, fill_fis_lem}

-- The ports 0 and 2 are implemented; port 0, at 0x100, has a SATA disk.
abbrev registers : Ports ℕ
registers = record {
  input =
      λ s a. if a == 12 then 5 else if a == 0x128 then 0x103 else if a == 0x124 then 0x101 else 0;
  reading = λ a s. s;
  output = λ a v s. s;
}

abbrev driver : Driver
driver = record {
  abar = 0;
  ports = λ i. record { hba_port = 0; port_type = sata; port_number = 0 };
  port_count = 0;
}

probe_ports_lem_example :
    (e : Driver) × (probe_ports registers 0 driver ≡ some e)
    × (disks e ≡ gathered 32 0 (disk_at registers 0 0 5))
    × (e.port_count ≤ 32)
probe_ports_lem_example = probe_ports_lem registers 0 driver refl

-- Sector 2 ^ 24 + 7 is taken for sector 7.
abbrev command : ℕ → ℕ
command = fill_fis 64 16777223 4 (λ a. 0)

fill_fis_lem_example :
    (lba command 64 ≡ 16777223 % 2 ^ 24 + 16777223 / 2 ^ 32 % 2 ^ 24 * 2 ^ 24)
    × (16777223 < 2 ^ 24 → lba command 64 ≡ 16777223)
    × (sectors command 64 ≡ 4 % 2 ^ 16)
fill_fis_lem_example = fill_fis_lem 64 16777223 4 (λ a. 0) (omega arith)
