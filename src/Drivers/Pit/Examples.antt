-- ===== src/Drivers/Pit/Examples.antt =====
-- The timer from its start.
use husky_os.Base.{◌+◌, ◌*◌, ◌/◌, ◌%◌, ◌≡◌, some, arith}
use husky_os.Drivers.Pit.{Timer, sleep_pit}
use husky_os.Drivers.Pit.Ticks.{interrupts, interrupts_lem, sleep_pit_lem}

abbrev started : Timer
started = record { timer_ticks = 0; timer_subticks = 0 }

interrupts_lem_example :
    ((interrupts 250 started).timer_ticks ≡ (0 * 100 + 0 + 250) / 100)
    × ((interrupts 250 started).timer_subticks ≡ (0 * 100 + 0 + 250) % 100)
interrupts_lem_example = interrupts_lem 250 started (omega arith) (omega arith)

sleep_pit_lem_example :
    (u : Timer) × (sleep_pit (3 * 100 + 100) 3 started ≡ some u) × (u.timer_ticks ≡ 0 + 3)
sleep_pit_lem_example = sleep_pit_lem 3 started (omega arith) (omega arith)
