-- ===== src/TimingWheel/Tests.antt =====
-- Runs of the wheel, and its theorems at concrete inputs.
use zorya_rs.Base.{ℕ, ◌≡◌, refl, List, [], ◌∷◌, ◌++◌, none, some, arith, done, ◌>>=◌, ℕ_discrete}
use zorya_rs.Base.Heap.{push}
use zorya_rs.Base.Maps.{lookup, insert, remove}
use zorya_rs.TimingWheel.{
  wheel_of, events_of, TimeWheel, Round, returned, new, deadline, deadline_ticks, round, poll,
}
use zorya_rs.TimingWheel.Pending.{IsValid, values, due, not_due, schedule, pending}
use zorya_rs.TimingWheel.Deadlines.{agenda, tick_of, deadline_expired}
use zorya_rs.TimingWheel.Poller.{ticks_at, never_early, never_late}
use zorya_rs.TimingWheel.Wakeups.{wakes_in_time}
use zorya_rs.TimingWheel.Refinement.{answer_of, spec_rounds, clock_of, agenda_of, poll-Refines}

-- Ticks of 20 milliseconds, from the instant 5 seconds; no timer, or one at tick 2.
empty : TimeWheel ℕ
unfolding new
empty = new ℕ 5_000_000_000 20_000_000

empty-IsValid : IsValid empty.sys
unfolding empty lookup pending
empty-IsValid = record {
  ordered = tt;
  tracked = λ k. refl;
  filled = λ k e. ground arith;
  counted = refl;
}

one_timer : TimeWheel ℕ
unfolding empty
one_timer = record empty {
  sys = record { ticks = 0; priority_queue = 2 ∷ []; timers = (2, 7 ∷ []) ∷ []; counter = 1 };
}

-- A deadline 35 milliseconds from the start is put at tick 2; it fires at 40 milliseconds.
deadline_runs : deadline empty 5_035_000_000 7 ≡ done (some 2, one_timer)
unfolding deadline empty one_timer lookup insert push
deadline_runs = refl

round_runs :
    round one_timer 5_040_000_000 0 []
    ≡ done (
        returned
          (record one_timer {
            sys = record { ticks = 2; priority_queue = []; timers = []; counter = 0 };
          })
          (7 ∷ []))
unfolding round empty one_timer lookup remove ℕ_discrete push
round_runs = refl

poll_runs :
    (w : TimeWheel ℕ) × (poll
        (record { calls = (5_010_000_000, 8) ∷ []; now = 5_041_000_000 } ∷ [])
        one_timer
        5_000_000_000
        []
      ≡ done (returned w (8 ∷ 7 ∷ [])))
unfolding poll empty one_timer lookup insert remove push ℕ_discrete
poll_runs = (_, refl)

two_timers : TimeWheel ℕ
unfolding one_timer
two_timers = record one_timer {
  sys = record {
    ticks = 0;
    priority_queue = 1 ∷ 2 ∷ [];
    timers = (1, 8 ∷ []) ∷ (2, 7 ∷ []) ∷ [];
    counter = 2;
  };
}

deadline_expired_example : deadline empty 5_000_000_000 7 ≡ done (none, empty)
unfolding empty new deadline_ticks
deadline_expired_example = deadline_expired empty 5_000_000_000 7 (omega arith) (omega arith)

never_early_example :
    (r : Round ℕ) × ((deadline empty 5_035_000_000 7 >>= λ p. round p.1 5_030_000_000 0 [])
      ≡ done r)
    × (events_of r ≡ [] ++ values (due (ticks_at empty 5_030_000_000) (agenda empty.sys)))
    × (agenda (wheel_of r).sys
        ≡ schedule
            (tick_of empty 5_035_000_000)
            7
            (not_due (ticks_at empty 5_030_000_000) (agenda empty.sys)))
unfolding empty new deadline_ticks
never_early_example =
    never_early empty 5_035_000_000 5_030_000_000 0 7 [] empty-IsValid (omega arith) (omega arith)
      (omega arith)

never_late_example :
    (w' : TimeWheel ℕ) × (events' : List ℕ) × ((deadline empty 5_035_000_000 7 >>= λ p.
    round p.1 5_055_000_000 0 [])
      ≡ done (returned w' events'))
    × (events'
        ≡ []
          ++ values (
              schedule
                (tick_of empty 5_035_000_000)
                7
                (due (ticks_at empty 5_055_000_000) (agenda empty.sys))))
    × (agenda w'.sys ≡ not_due (ticks_at empty 5_055_000_000) (agenda empty.sys))
unfolding empty new deadline_ticks
never_late_example =
    never_late empty 5_035_000_000 5_055_000_000 0 7 [] empty-IsValid (omega arith) (omega arith)
      (omega arith) (omega arith)

one_timer-IsValid : IsValid one_timer.sys
unfolding one_timer lookup pending ℕ_discrete push
one_timer-IsValid = record {
  ordered = omega arith;
  tracked = λ k. ground arith;
  filled = λ k e. ground arith;
  counted = refl;
}

wakes_in_time_example :
    (w'' : TimeWheel ℕ) × (events'' : List ℕ) × (round one_timer 5_040_000_000 0 []
      ≡ done (returned w'' events''))
unfolding one_timer round lookup pending
wakes_in_time_example =
    wakes_in_time one_timer one_timer 5_000_000_000 5_040_000_000 0 40_000 [] [] one_timer-IsValid
      (omega arith) (omega arith) refl (omega arith) (omega arith)

poll-Refines_example :
    (r : Round ℕ) × (poll
        (record { calls = (5_010_000_000, 8) ∷ []; now = 5_041_000_000 } ∷ [])
        one_timer
        5_000_000_000
        []
      ≡ done r)
    × IsValid (wheel_of r).sys
    × (answer_of r
        ≡ spec_rounds
            (clock_of one_timer)
            (record { calls = (5_010_000_000, 8) ∷ []; now = 5_041_000_000 } ∷ [])
            (agenda_of one_timer)
            5_000_000_000
            0
            [])
unfolding one_timer
poll-Refines_example =
    poll-Refines one_timer (record { calls = (5_010_000_000, 8) ∷ []; now = 5_041_000_000 } ∷ [])
      5_000_000_000 [] one_timer-IsValid (omega arith)
