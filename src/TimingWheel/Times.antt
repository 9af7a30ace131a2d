-- ===== src/TimingWheel/Times.antt =====
-- crates/timing-wheel/src/lib.rs: the arithmetic of ticks. A deadline is rounded up to a tick, the
-- present down, so that a timer fires neither early nor more than a tick late.
use zorya_rs.Base.{ℕ, ◌+◌, ◌*◌, ◌/◌, ◌%◌, ◌≤◌, ◌<◌, arith, u64_mod, ◌↔◌}
use zorya_rs.TimingWheel.{deadline_ticks, micros}

quotient_small : (d i : ℕ) → 0 < d % i → 0 < i → d < u64_mod → d / i + 1 < u64_mod
quotient_small d i h p s = grind arith

pub micros-lt : (nanos : ℕ) → micros nanos < u64_mod
unfolding micros
micros-lt nanos = omega arith

-- The tick of a deadline is the first whose time is not before it.
pub deadline_ticks_bounds :
    (d i : ℕ)
    → 0 < i
    → d < u64_mod
    → (d ≤ deadline_ticks d i * i) × (deadline_ticks d i * i < d + i)
unfolding deadline_ticks
deadline_ticks_bounds d i p s = grind (arith, quotient_small d i)

-- A tick is due when its time has come.
pub le-div_iff : (t e i : ℕ) → 0 < i → (t ≤ e / i) ↔ (t * i ≤ e)
le-div_iff t e i p = (λ h. grind arith, λ h. grind arith)
