-- ===== src/TimingWheel.antt =====
-- crates/timing-wheel/src/lib.rs: `TimeWheel`, a timer queue on a heap of ticks and a table of
-- timers. An `Instant` is a number of nanoseconds; the mutex is held by one call at a time, so a
-- call is a function from state to state, and what happens while `poll` waits is a list of calls.
pub mod Pending
pub mod Expiry
pub mod Deadlines
pub mod Times
pub mod Poller
pub mod Wakeups
pub mod Refinement
mod Tests
use zorya_rs.Base.{
  ℕ, ◌-◌, ◌/◌, ◌%◌, List, [], ◌∷◌, ◌++◌, Option, none, some, length, ltb, leb, ◌==◌, not,
  if◌then◌else◌, as_u64, add_u64, sub_u64, mul_u64, Outcome, done, panic, ◌>>=◌,
}
use zorya_rs.Base.Heap.{push}
use zorya_rs.Base.Maps.{Map, lookup, insert, remove, nat_key}

-- `TimeWheelImpl`. The `BinaryHeap<Reverse<u64>>` is the sorted list of what it holds.
pub record TimeWheelImpl (T : Type 0) : Type 0 where
  pub ticks : ℕ
  pub priority_queue : List ℕ
  pub timers : Map ℕ (List T)
  pub counter : ℕ

-- `TimeWheelImpl::new`
unfoldable pub impl_new : (T : Type 0) → TimeWheelImpl T
impl_new T = record { ticks = 0; priority_queue = []; timers = []; counter = 0 }

-- `TimeWheel`, its mutex open. A `Duration` is a number of nanoseconds.
pub record TimeWheel (T : Type 0) : Type 0 where
  pub start : ℕ
  pub tick_interval : ℕ
  pub sys : TimeWheelImpl T
  pub open sys use *

-- `as_micros() as u64` of a duration in nanoseconds
unfoldable pub micros : ℕ → ℕ
micros nanos = as_u64 (nanos / 1000)

-- `TimeWheel::new`, at the instant `now`
unfoldable pub new : (T : Type 0) → ℕ → ℕ → TimeWheel T
unfolding micros impl_new
new T now tick_interval = record {
  start = now;
  tick_interval = micros tick_interval;
  sys = impl_new T;
}

-- The division of a duration by the interval, rounded up.
unfoldable pub deadline_ticks : ℕ → ℕ → ℕ
deadline_ticks duration tick_interval =
    let ticks = duration / tick_interval in
    if not (duration % tick_interval == 0) then add_u64 ticks 1 else ticks

-- What the loop over expired slots leaves, `duration` included.
pub record Expired (T : Type 0) : Type 0 where
  pub rest : TimeWheelImpl T
  pub events : List T
  pub duration : Option ℕ

-- How one round of the loop of `poll` ends: with a return, or with a wait on the condition
-- variable, for at most a number of microseconds where there is one.
pub data Round (T : Type 0) : Type 0 where
  returned : TimeWheel T → List T → Round T
  waits : TimeWheel T → List T → Option ℕ → Round T

-- The calls of `deadline` that others make while `poll` waits, and the instant at which it goes on.
pub record Wake (T : Type 0) : Type 0 where
  pub calls : List (ℕ × T)
  pub now : ℕ

module _ {T : Type 0} where
  -- The table and heap of `deadline`: push to the tick's vector, or start one and push the tick.
  unfoldable pub add_timer : ℕ → T → Option (List T) → TimeWheelImpl T → TimeWheelImpl T
  add_timer ticks value (some values) sys = record sys {
    timers = insert ticks (values ++ value ∷ []) sys.timers;
  }
  add_timer ticks value none sys = record sys {
    priority_queue = push ticks sys.priority_queue;
    timers = insert ticks (value ∷ []) sys.timers;
  }

  -- `TimeWheel::deadline`: the tick, or `none` where the deadline has expired; a division by an
  -- interval of zero panics. `Instant - Instant` stops at zero.
  unfoldable pub deadline : TimeWheel T → ℕ → T → Outcome (Option ℕ × TimeWheel T)
  unfolding micros deadline_ticks add_timer
  deadline w instant value =
      if w.tick_interval == 0
      then panic
      else let duration = micros (instant - w.start) in
        let ticks = deadline_ticks duration w.tick_interval in
        if not (ltb w.ticks ticks)
        then done (none, w)
        else let sys = add_timer ticks value (lookup ticks w.timers) w.sys in
          done (some ticks, record w { sys = record sys { counter = add_u64 sys.counter 1 } })

  -- The body of the loop over expired slots, after `pop`.
  unfoldable pub fire : ℕ → Option (List T) → TimeWheelImpl T → List T → TimeWheelImpl T × List T
  fire slot (some values) sys events = (
    record sys { timers = remove slot sys.timers; counter = sub_u64 sys.counter (length values) },
    events ++ values,
  )
  fire slot none sys events = (sys, events)

  -- `while let Some(slot) = sys.priority_queue.peek()`, over the heap `queue`.
  unfoldable pub expire : ℕ → List ℕ → TimeWheelImpl T → List T → Expired T
  unfolding fire
  expire tick_interval [] sys events = record {
    rest = record sys { priority_queue = [] };
    events = events;
    duration = none;
  }
  expire tick_interval (slot ∷ queue) sys events =
      let (sys', events') = fire slot (lookup slot sys.timers) sys events in
      let later = expire tick_interval queue sys' events' in
      if ltb sys.ticks slot
      then record {
        rest = record sys { priority_queue = slot ∷ queue };
        events = events;
        duration = some (mul_u64 (slot - sys.ticks) tick_interval);
      }
      else later

  -- The wheel and the events with which a round ends, by return or by wait.
  unfoldable pub wheel_of : Round T → TimeWheel T
  wheel_of (returned w events) = w
  wheel_of (waits w events duration) = w

  unfoldable pub events_of : Round T → List T
  events_of (returned w events) = events
  events_of (waits w events duration) = events

  unfoldable pub end_round : TimeWheel T → ℕ → Expired T → Round T
  end_round w len e =
      let w' = record w { sys = e.rest } in
      if ltb len (length e.events) then returned w' e.events else waits w' e.events e.duration

  -- One round of the loop of `poll`, at the instant `now`, up to its return or wait.
  unfoldable pub round : TimeWheel T → ℕ → ℕ → List T → Outcome (Round T)
  unfolding micros expire end_round
  round w now len events =
      if w.tick_interval == 0
      then panic
      else let ticks = micros (now - w.start) / w.tick_interval in
        let sys = record w.sys { ticks = ticks } in
        done (end_round w len (expire w.tick_interval sys.priority_queue sys events))

  pub deadlines : TimeWheel T → List (ℕ × T) → Outcome (TimeWheel T)
  unfolding deadline
  deadlines w [] = done w
  deadlines w ((instant, value) ∷ calls) = do (_, w') ← deadline w instant value; deadlines w' calls

  -- What follows a round: a return, or others' calls during the wait and then the next round.
  pub resume :
      List (ℕ × T) → (TimeWheel T → List T → Outcome (Round T)) → Round T → Outcome (Round T)
  unfolding deadlines
  resume calls next (returned w events) = done (returned w events)
  resume calls next (waits w events duration) = do w' ← deadlines w calls; next w' events

  -- The loop of `poll` over a list of wake-ups; it ends waiting if they run out.
  pub rounds : List (Wake T) → TimeWheel T → ℕ → ℕ → List T → Outcome (Round T)
  unfolding round resume
  rounds [] w now len events = round w now len events
  rounds (wake ∷ wakes) w now len events =
      round w now len events
      >>= resume wake.calls (λ w' events'. rounds wakes w' wake.now len events')

  -- `TimeWheel::poll`, called at the instant `now`.
  pub poll : List (Wake T) → TimeWheel T → ℕ → List T → Outcome (Round T)
  unfolding rounds
  poll wakes w now events = rounds wakes w now (length events) events
