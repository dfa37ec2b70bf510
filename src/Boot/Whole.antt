-- ===== src/Boot/Whole.antt =====
-- After the first two loops of KernelStart the processor finds all memory, at two places.
use husky_os.Base.{
  ℕ, ◌+◌, ◌*◌, ◌/◌, ◌%◌, ◌^◌, ◌<◌, ◌≤◌, ◌≡◌, refl, ap, ◌∙◌, some, arith, ◌==◌, if◌then◌else◌, u64,
  for_range,
}
use husky_os.Memory.Frames.{request_page}
use husky_os.Memory.Frames.Mark.{IsValid}
use husky_os.Memory.Paging.{Machine, clear_page}
use husky_os.Memory.Paging.Tables.{target, translate, indices, follow, IsTree}
use husky_os.Memory.Paging.Level.{request_page-IsFresh}
use husky_os.Boot.{map_high, map_all, higher_half, new_pml4}
use husky_os.Boot.Pages.{page_of, HasRooms, mapping, for_range-IsMappedRun, map_while-pages}

-- The walk looks at the page of an address only.
translate-page :
    (memory : ℕ → ℕ) (pml4 a b : ℕ)
    → page_of a ≡ page_of b
    → translate memory pml4 a ≡ translate memory pml4 b
translate-page memory pml4 a b e =
    let e₀ : a / 2 ^ 39 % 512 ≡ b / 2 ^ 39 % 512 = omega (arith, e) in
    let e₁ : a / 2 ^ 30 % 512 ≡ b / 2 ^ 30 % 512 = omega (arith, e) in
    let e₂ : a / 2 ^ 21 % 512 ≡ b / 2 ^ 21 % 512 = omega (arith, e) in
    let e₃ : a / 2 ^ 12 % 512 ≡ b / 2 ^ 12 % 512 = omega (arith, e) in
    let same : indices a ≡ indices b = rw (e₀, e₁, e₂, e₃) refl in
    ap (λ is. follow memory is pml4) same

-- The numbers of pages that the two loops run through.
abbrev pub pages_up : ℕ → ℕ
pages_up total = (total + 4095) / 4096

-- A frame that is cleared is a tree of one table.
module _ (m : Machine) (valid : IsValid m.frames) (words : (a : ℕ) → m.memory a < 2 ^ 64)
    (some_page : 0 < (request_page m.frames).0) where
  abbrev level : ℕ → ℕ
  level t = if t == (new_pml4 m).0 then 4 else 0

  abbrev place : ℕ → ℕ
  place t = 0

  pub new_pml4-IsTree : IsTree level place (new_pml4 m).0 (new_pml4 m).1
  unfolding new_pml4 clear_page
  new_pml4-IsTree =
      let fresh = request_page-IsFresh m.frames valid some_page in
      record {
        valid = fresh.valid;
        root = ground arith;
        root_place = refl;
        words = λ a. ground (arith, words a);
        table = λ t h.
            let e : t ≡ (request_page m.frames).0 = ground arith in
            rw e (record {
              aligned = omega (arith, fresh.address);
              covered = omega (arith, fresh.address, fresh.covered, fresh.size);
              taken =
                  let p : (request_page m.frames).0 / 4096 ≡ fresh.frame =
                    omega (arith, fresh.address) in
                  rw p (ground (arith, fresh.marks fresh.frame));
            });
        entry = λ t i inner small p. absurd (ground arith);
      }

-- After the two loops over the memory, on a cleared first table, the processor translates every
-- address below `total` to its own page, and, in the higher half, every one below the last whole
-- page. This is for at most 2 ^ 47 bytes, with fuel of a round for each page and one more, where a
-- page is left for the first table, and three before each round.
pub map_all_lem :
    (fuel total : ℕ) (m : Machine) (valid : IsValid m.frames)
    (words : (a : ℕ) → m.memory a < 2 ^ 64)
    → 0 < (request_page m.frames).0
    → total ≤ 2 ^ 47
    → pages_up total < fuel
    → (let (pml4, t) = new_pml4 m in
        let low = mapping pml4 (λ j. j * 0x1000) (λ j. j * 0x1000) in
        HasRooms (pages_up total) 0 low t
        × HasRooms (total / 0x1000) 0 (map_high pml4) (for_range (pages_up total) 0 low t))
    → (let (pml4, t) = new_pml4 m in
        (out : Machine) × (map_all pml4 fuel total t ≡ some out)
        × ((a : ℕ) → a < total → translate out.memory pml4 a ≡ some (a / 0x1000 * 0x1000))
        × ((a : ℕ)
            → a < total / 0x1000 * 0x1000
            → translate out.memory pml4 (a + higher_half) ≡ some (a / 0x1000 * 0x1000)))
unfolding map_all
map_all_lem fuel total m valid words some_page small enough rooms =
    let pml4 = (new_pml4 m).0 in
    let t = (new_pml4 m).1 in
    let tree = new_pml4-IsTree m valid words some_page in
    let low =
      for_range-IsMappedRun pml4 (λ j. j * 0x1000) (λ j. j * 0x1000) (pages_up total) 0 tree rooms.0
        (λ j k from less below. omega (arith, less, below, small)) in
    let high =
      for_range-IsMappedRun pml4 (λ j. u64 (u64 (j * 0x1000) + higher_half)) (λ j. u64 (j * 0x1000))
        (total / 0x1000) 0 low.tree rooms.1
        (λ j k from less below. omega (arith, less, below, small)) in
    let run =
      map_while-pages pml4 fuel total (pages_up total) 0 (λ a. a) t (omega arith) (omega arith)
        (omega (arith, small)) enough in
    let out =
      for_range (total / 0x1000) 0 (map_high pml4)
        (for_range (pages_up total) 0 (mapping pml4 (λ j. j * 0x1000) (λ j. j * 0x1000)) t) in
    (
      out,
      rw run refl,
      λ a h.
          let start = a / 0x1000 * 0x1000 in
          let here : target start ≡ start = omega (arith, h, small) in
          translate-page out.memory pml4 a start (omega arith)
          ∙ high.keeps start (target start) (λ j from below. omega (arith, h, below, small))
              (low.maps (a / 0x1000) (omega arith) (omega (arith, h)))
          ∙ ap (λ (x : ℕ). some x) here,
      λ a h.
          let j = a / 0x1000 in
          let here : target (u64 (j * 0x1000)) ≡ j * 0x1000 = omega (arith, h, small) in
          translate-page out.memory pml4 (a + higher_half) (u64 (u64 (j * 0x1000) + higher_half))
            (omega (arith, h, small))
          ∙ high.maps j (omega arith) (omega (arith, h))
          ∙ ap (λ (x : ℕ). some x) here,
    )
