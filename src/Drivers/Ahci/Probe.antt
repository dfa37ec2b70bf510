-- ===== src/Drivers/Ahci/Probe.antt =====
-- Which ports the driver takes.
use husky_os.Base.{
  Option, some, true, ltb, ◌>>=◌, ℕ, zero, suc, ◌+◌, ◌^◌, ◌≤◌, ◌<◌, ◌≡◌, false, List, [], ◌∷◌, ◌++◌,
  ◌==◌, ==_refl, if◌then◌else◌, for_range, front, front-put, gathered, u8, bit_and, refl, sym, ap,
  ◌∙◌, inl, inr, Bool-cases, arith,
}
use mathlib.Core.List.{append-nil, append_assoc}
use husky_os.Cpu.Port.{Ports}
use husky_os.Drivers.Ahci.{
  PortType, is_disk, Port, Driver, hba_port_at, type_of, probe_port, probe_ports,
}

-- The registers and the kind of a port.
abbrev pub Disk : Type 0
Disk = ℕ × PortType

abbrev pub as_disk : Port → Disk
as_disk p = (p.hba_port, p.port_type)

-- The ports that a driver has, in order.
abbrev pub disks : Driver → List Disk
disks d = front d.port_count 0 (λ i. as_disk (d.ports i))

module _ {S : Type 0} (registers : Ports S) (s : S) where
  -- A port of the controller, if it is implemented and a disk is there.
  abbrev pub disk_at : (abar implemented i : ℕ) → List Disk
  disk_at abar implemented i =
      if bit_and implemented (2 ^ i) == 0
      then []
      else if is_disk (type_of registers s (hba_port_at abar i))
      then (hba_port_at abar i, type_of registers s (hba_port_at abar i)) ∷ []
      else []

  -- What rounds leave.
  Probed : (abar : ℕ) → List Disk → (room : ℕ) → Driver → Option Driver → Type 0
  Probed abar new room d o =
      (e : Driver) × (o ≡ some e)
      × (disks e ≡ disks d ++ new)
      × (e.abar ≡ abar)
      × (e.port_count ≤ d.port_count + room)

  probe_port-Probed :
      (implemented i : ℕ) (d : Driver)
      → d.port_count < 32
      → Probed d.abar (disk_at d.abar implemented i) 1 d (probe_port registers s implemented i d)
  unfolding Probed probe_port
  probe_port-Probed implemented i d room =
      let port = hba_port_at d.abar i in
      let t = type_of registers s port in
      let next : u8 (d.port_count + 1) ≡ d.port_count + 1 = omega (arith, room) in
      let inside : ltb d.port_count 32 ≡ true = ground arith in
      elim (Bool-cases (bit_and implemented (2 ^ i) == 0)) [
        | inl e ↦ rw e (d, refl, sym (append-nil (disks d)), refl, omega arith)
        | inr e ↦ elim (Bool-cases (is_disk t)) [
          | inr f ↦ rw (e, f) (d, refl, sym (append-nil (disks d)), refl, omega arith)
          | inl f ↦
              rw (e, f, inside, next)
                (
                  record d {
                    ports = λ k.
                        if k == d.port_count
                        then record { hba_port = port; port_type = t; port_number = d.port_count }
                        else d.ports k;
                    port_count = d.port_count + 1;
                  },
                  refl,
                  front-put d.port_count (port, t) (λ k. as_disk (d.ports k))
                      (λ k. as_disk (
                        if k == d.port_count
                        then record { hba_port = port; port_type = t; port_number = d.port_count }
                        else d.ports k))
                      (λ j k. let away : (j == d.port_count) ≡ false = ground arith in rw away refl)
                      (let same = ==_refl d.port_count in rw same refl),
                  refl,
                  omega arith,
                )
        ]
      ]

  probe_from :
      (implemented count start : ℕ) (d : Driver)
      → d.port_count + count ≤ 32
      → Probed d.abar
          (gathered count start (disk_at d.abar implemented))
          count
          d
          (for_range count start (λ i o. o >>= probe_port registers s implemented i) (some d))
  unfolding Probed for_range
  probe_from implemented zero start d room =
      (d, refl, sym (append-nil (disks d)), refl, omega arith)
  probe_from implemented (suc count) start d room =
      let (e, found, new, same, more) =
        probe_port-Probed implemented start d (omega (arith, room)) in
      let (f, ended, rest, still, most) =
        probe_from implemented count (start + 1) e (omega (arith, room, more)) in
      (
        f,
        rw found ended,
        rest
            ∙ ap (λ (a : ℕ). disks e ++ gathered count (start + 1) (disk_at a implemented)) same
            ∙ ap (λ (xs : List Disk). xs ++ gathered count (start + 1) (disk_at d.abar implemented))
                new
            ∙ append_assoc (disks d) (disk_at d.abar implemented start)
                (gathered count (start + 1) (disk_at d.abar implemented)),
        still ∙ same,
        omega (arith, more, most),
      )

  -- `ProbePorts` of a driver without ports fills its array, in order, with those of the controller's
  -- 32 ports that are implemented and have a disk, SATA or SATAPI, and stays inside the array.
  pub probe_ports_lem :
      (d : Driver)
      → d.port_count ≡ 0
      → (e : Driver) × (probe_ports registers s d ≡ some e)
        × (disks e ≡ gathered 32 0 (disk_at d.abar (registers.input s (d.abar + 12))))
        × (e.port_count ≤ 32)
  unfolding probe_ports Probed
  probe_ports_lem d nothing =
      let (e, done, new, same, few) =
        probe_from (registers.input s (d.abar + 12)) 32 0 d (omega (arith, nothing)) in
      let empty : disks d ≡ [] = ap (λ (n : ℕ). front n 0 (λ i. as_disk (d.ports i))) nothing in
      (
        e,
        done,
        new
            ∙ ap
                (λ (xs : List Disk).
                  xs ++ gathered 32 0 (disk_at d.abar (registers.input s (d.abar + 12))))
                empty,
        omega (arith, nothing, few),
      )
