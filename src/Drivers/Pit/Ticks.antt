-- ===== src/Drivers/Pit/Ticks.antt =====
-- Counting interrupts, sleeping, and the divisor that the timer is given.
use husky_os.Base.{
  ℕ, zero, suc, ◌+◌, ◌*◌, ◌/◌, ◌%◌, ◌^◌, ◌-◌, ◌<◌, ◌≤◌, ◌≡◌, some, ltb, u32, arith, refl, inl, inr,
  Bool-cases,
}
use husky_os.Drivers.Pit.{Timer, timer_handler, wait_until, sleep_pit}

-- The handler, `n` times.
unfoldable pub interrupts : (n : ℕ) → Timer → Timer
interrupts zero t = t
interrupts (suc n) t = interrupts n (timer_handler t)

-- What the two counters stand for.
abbrev pub total : Timer → ℕ
total t = t.timer_ticks * 100 + t.timer_subticks

timer_handler_lem :
    (t : Timer)
    → t.timer_subticks < 100
    → t.timer_ticks + 1 < 2 ^ 64
    → (total (timer_handler t) ≡ total t + 1) × ((timer_handler t).timer_subticks < 100)
unfolding timer_handler
timer_handler_lem t h k = ground arith

-- After `n` interrupts the ticks and the sub-ticks are the quotient and the remainder by 100 of
-- what the two counters stood for and `n`, as long as the ticks fit their word.
pub interrupts_lem :
    (n : ℕ) (t : Timer)
    → t.timer_subticks < 100
    → total t + n < 100 * (2 ^ 64 - 1)
    → ((interrupts n t).timer_ticks ≡ (total t + n) / 100)
      × ((interrupts n t).timer_subticks ≡ (total t + n) % 100)
unfolding interrupts
interrupts_lem zero t h k = (omega arith, omega arith)
interrupts_lem (suc n) t h k =
    let r = timer_handler_lem t h (omega arith) in
    let ih = interrupts_lem n (timer_handler t) r.1 (omega (arith, r.0)) in
    (omega (arith, ih.0, r.0), omega (arith, ih.1, r.0))

wait_until_lem :
    (fuel goal : ℕ) (t : Timer)
    → t.timer_subticks < 100
    → t.timer_ticks ≤ goal
    → goal < 2 ^ 32
    → goal * 100 + 99 < total t + fuel
    → (u : Timer) × (wait_until fuel goal t ≡ some u) × (u.timer_ticks ≡ goal)
unfolding wait_until
wait_until_lem zero goal t h l w f = absurd (omega arith)
wait_until_lem (suc fuel) goal t h l w f = elim (Bool-cases (ltb t.timer_ticks goal)) [
  | inl e ↦
      let less : t.timer_ticks < goal = ground arith in
      let r = timer_handler_lem t h (omega arith) in
      let (u, ran, reached) =
        wait_until_lem fuel goal (timer_handler t) r.1 (omega (arith, r.0, r.1)) w
          (omega (arith, r.0)) in
      rw e (u, ran, reached)
  | inr e ↦ rw e (t, refl, ground arith)
]

-- `Sleep_pit` returns when `s` ticks have passed, within `s * 100 + 99` interrupts, as long as
-- the ticks stay below 2 ^ 32.
pub sleep_pit_lem :
    (s : ℕ) (t : Timer)
    → t.timer_subticks < 100
    → t.timer_ticks + s < 2 ^ 32
    → (u : Timer) × (sleep_pit (s * 100 + 100) s t ≡ some u) × (u.timer_ticks ≡ t.timer_ticks + s)
unfolding sleep_pit
sleep_pit_lem s t h w =
    let e : u32 (u32 t.timer_ticks + s) ≡ t.timer_ticks + s = omega arith in
    rw e (wait_until_lem (s * 100 + 100) (t.timer_ticks + s) t h (omega arith) w (omega arith))

-- Once the ticks no longer fit 32 bits, `Sleep_pit` returns at once: the start is cut to a
-- `uint32_t`, and so is the tick that it waits for.
pub sleep_pit_wrapped :
    (fuel s : ℕ) (t : Timer) → 2 ^ 32 ≤ t.timer_ticks → sleep_pit (suc fuel) s t ≡ some t
unfolding sleep_pit wait_until
sleep_pit_wrapped fuel s t h = ground arith
