-- ===== src/Cpu/Acpi/Tables.antt =====
-- Which table `FindTable` finds.
use husky_os.Base.{
  ℕ, zero, suc, ◌+◌, ◌≤◌, ◌<◌, ◌≡◌, ◌⊎◌, inl, inr, Bool, true, false, ◌==◌, ==_iff, load32, refl,
  sym, ap, ◌∙◌, Bool-cases, arith,
}
use husky_os.Klib.Block.{strncmp}
use husky_os.Cpu.Acpi.{sdt_entries, pointer_at, find_from, find_table}

module _ (m : ℕ → ℕ) (is_rsdt : Bool) (table root : ℕ) where
  -- The entry names the table.
  abbrev pub names : ℕ → Bool
  names i = strncmp 4 (pointer_at m is_rsdt root i) table m == 0

  unfoldable pub First : (start rounds result : ℕ) → Type 0
  First start rounds result =
      ((i : ℕ) × (start ≤ i)
        × (i < start + rounds)
        × (names i ≡ true)
        × ((j : ℕ) → start ≤ j → j < i → names j ≡ false)
        × (result ≡ pointer_at m is_rsdt root i))
      ⊎ (((j : ℕ) → start ≤ j → j < start + rounds → names j ≡ false) × (result ≡ 0))

  names-from :
      (start j end : ℕ)
      → names start ≡ false
      → ((l : ℕ) → start + 1 ≤ l → l < end → names l ≡ false)
      → start ≤ j
      → j < end
      → names j ≡ false
  names-from start j end e after h k = elim (Bool-cases (start == j)) [
    | inl d ↦ ap names (sym ((==_iff start j).0 d)) ∙ e
    | inr d ↦ after j (ground arith) k
  ]

  find_from-First :
      (rounds start : ℕ) → First start rounds (find_from m is_rsdt table root rounds start)
  unfolding find_from First
  find_from-First zero start = inr ((λ j h k. absurd (ground arith)), refl)
  find_from-First (suc rounds) start = elim (Bool-cases (names start)) [
    | inl e ↦ inl (start, omega arith, omega arith, e, (λ j h k. absurd (ground arith)), rw e refl)
    | inr e ↦ elim (find_from-First rounds (start + 1)) [
      | inl (i, low, high, named, first, result) ↦ inl (
        i,
        omega (arith, low),
        omega (arith, high),
        named,
        (λ j h k. names-from start j i e first h k),
        rw e result,
      )
      | inr (none_named, result) ↦ inr (
        (λ j h k.
            names-from start j (start + suc rounds) e (λ l a b. none_named l a (omega (arith, b))) h
              k),
        rw e result,
      )
    ]
  ]

  -- `FindTable` answers the pointer of the first entry, of as many as the root table's length has
  -- room for at 4 bytes each, whose table starts with the name; or 0 when there is none.
  pub find_table_lem : First 0 (sdt_entries (load32 m (root + 4))) (find_table m is_rsdt table root)
  unfolding find_table
  find_table_lem = find_from-First (sdt_entries (load32 m (root + 4))) 0
