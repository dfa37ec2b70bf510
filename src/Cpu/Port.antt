-- ===== src/Cpu/Port.antt =====
-- The ports of the machine, which the kernel reaches by `inportb` and `outportb`. What stands
-- behind them is a parameter: a state, what a read answers, and what reads and writes do to it.
use husky_os.Base.{ℕ}

pub record Ports (S : Type 0) : Type 0 where
  pub input : S → (port : ℕ) → ℕ
  pub reading : (port : ℕ) → S → S
  pub output : (port value : ℕ) → S → S
