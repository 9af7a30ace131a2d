-- ===== src/TimingWheel/Poller.antt =====
-- crates/timing-wheel/src/lib.rs, one round of the loop of `poll`: what fires, what stays, and
-- whether the call returns or waits.
use zorya_rs.Base.{
  ℕ, ◌+◌, ◌-◌, ◌/◌, ◌≤◌, ◌<◌, ◌≡◌, ◌⊎◌, refl, ap, ◌∙◌, List, [], ◌∷◌, ◌++◌, Option, arith, length,
  inl, inr, done, dec_lt, lt→ltb, ltb-eq-false, ◌>>=◌, length-append, length-map,
}
use zorya_rs.TimingWheel.{
  TimeWheel, Expired, Round, returned, waits, expire, end_round, round, deadline, wheel_of,
  events_of, micros,
}
use zorya_rs.TimingWheel.Pending.{values, due, not_due, schedule, length-schedule, IsValid}
use zorya_rs.TimingWheel.Expiry.{IsExpired, expire-IsExpired}
use zorya_rs.TimingWheel.Deadlines.{
  agenda, tick_of, with_timer, with_timer-IsScheduled, deadline_accepted,
}
use zorya_rs.TimingWheel.Times.{micros-lt, deadline_ticks_bounds, le-div_iff}

module _ {T : Type 0} where
  -- The microseconds since the start of a wheel, and the ticks that have passed.
  abbrev pub elapsed : TimeWheel T → ℕ → ℕ
  elapsed w now = micros (now - w.start)

  abbrev pub ticks_at : TimeWheel T → ℕ → ℕ
  ticks_at w now = elapsed w now / w.tick_interval

  abbrev pub expired_at : TimeWheel T → ℕ → List T → Expired T
  expired_at w now events =
      expire w.tick_interval w.priority_queue (record w.sys { ticks = ticks_at w now }) events

  pub expired_at-IsExpired :
      (w : TimeWheel T) (now : ℕ) (events : List T)
      → IsValid w.sys
      → IsExpired w.priority_queue
          (record w.sys { ticks = ticks_at w now })
          events
          (expired_at w now events)
  expired_at-IsExpired w now events valid =
      expire-IsExpired w.tick_interval w.ticks w.priority_queue _ events valid.ordered
        (record { tracked = valid.tracked; filled = valid.filled; counted = valid.counted })

  pub round_lem :
      (w : TimeWheel T) (now len : ℕ) (events : List T)
      → 0 < w.tick_interval
      → round w now len events ≡ done (end_round w len (expired_at w now events))
  unfolding round
  round_lem w now len events p = ground arith

  -- What a round does to a wheel with ticks `n` at the time of the round.
  pub record IsRound (w : TimeWheel T) (n len : ℕ) (events : List T) (r : Round T) : Type 0 where
    pub valid : IsValid (wheel_of r).sys
    pub fired : events_of r ≡ events ++ values (due n (agenda w.sys))
    pub kept : agenda (wheel_of r).sys ≡ not_due n (agenda w.sys)
    pub ticks : (wheel_of r).ticks ≡ n
    pub same_start : (wheel_of r).start ≡ w.start
    pub same_interval : (wheel_of r).tick_interval ≡ w.tick_interval
    pub returns :
        ((len < length (events_of r)) × (r ≡ returned (wheel_of r) (events_of r)))
        ⊎ ((length (events_of r) ≤ len)
            × ((d : Option ℕ) × (r ≡ waits (wheel_of r) (events_of r) d)))

  end_round-IsRound :
      (w : TimeWheel T) (n len : ℕ) (events : List T) (e : Expired T)
      → IsExpired w.priority_queue (record w.sys { ticks = n }) events e
      → IsRound w n len events (end_round w len e)
  unfolding end_round wheel_of events_of
  end_round-IsRound w n len events e x = elim (dec_lt len (length e.events)) [
    | yes p ↦ rw (lt→ltb len (length e.events) p) (record {
      valid = x.valid;
      fired = x.fired;
      kept = x.kept;
      ticks = x.same_ticks;
      same_start = refl;
      same_interval = refl;
      returns = inl (p, refl);
    })
    | no p ↦ rw (ltb-eq-false len (length e.events) (omega arith)) (record {
      valid = x.valid;
      fired = x.fired;
      kept = x.kept;
      ticks = x.same_ticks;
      same_start = refl;
      same_interval = refl;
      returns = inr (omega arith, (e.duration, refl));
    })
  ]

  -- On a valid wheel with a positive interval a round does not panic. It appends the timers whose
  -- tick has passed, oldest first, keeps the others, leaves the wheel valid at the present tick, and
  -- returns exactly if there are then more events than `len`; otherwise it waits.
  pub round-IsRound :
      (w : TimeWheel T) (now len : ℕ) (events : List T)
      → IsValid w.sys
      → 0 < w.tick_interval
      → (r : Round T) × (round w now len events ≡ done r) × IsRound w (ticks_at w now) len events r
  round-IsRound w now len events valid p = (
    end_round w len (expired_at w now events),
    round_lem w now len events p,
    end_round-IsRound w (ticks_at w now) len events _ (expired_at-IsExpired w now events valid),
  )

  due-schedule_before :
      (n t : ℕ) (v : T) (l : List (ℕ × T)) → n < t → due n (schedule t v l) ≡ due n l
  unfolding due schedule
  due-schedule_before n t v [] h = ground arith
  due-schedule_before n t v ((s, x) ∷ l) h = ground (arith, due-schedule_before n t v l)

  due-schedule_after :
      (n t : ℕ) (v : T) (l : List (ℕ × T)) → t ≤ n → due n (schedule t v l) ≡ schedule t v (due n l)
  unfolding due schedule
  due-schedule_after n t v [] h = ground arith
  due-schedule_after n t v ((s, x) ∷ l) h = ground (arith, due-schedule_after n t v l)

  not_due-schedule_before :
      (n t : ℕ) (v : T) (l : List (ℕ × T))
      → n < t
      → not_due n (schedule t v l) ≡ schedule t v (not_due n l)
  unfolding not_due schedule
  not_due-schedule_before n t v [] h = ground arith
  not_due-schedule_before n t v ((s, x) ∷ l) h = ground (arith, not_due-schedule_before n t v l)

  not_due-schedule_after :
      (n t : ℕ) (v : T) (l : List (ℕ × T)) → t ≤ n → not_due n (schedule t v l) ≡ not_due n l
  unfolding not_due schedule
  not_due-schedule_after n t v [] h = ground arith
  not_due-schedule_after n t v ((s, x) ∷ l) h = ground (arith, not_due-schedule_after n t v l)

  tick_ahead :
      (w : TimeWheel T) (instant now : ℕ)
      → 0 < w.tick_interval
      → elapsed w now < elapsed w instant
      → ticks_at w now < tick_of w instant
  tick_ahead w instant now p h =
      let bounds = deadline_ticks_bounds (elapsed w instant) w.tick_interval p (micros-lt _) in
      let iff = le-div_iff (tick_of w instant) (elapsed w now) w.tick_interval p in
      elim (dec_lt (ticks_at w now) (tick_of w instant)) [
        | yes q ↦ q
        | no q ↦ let passed = iff.0 (omega arith) in absurd (omega arith)
      ]

  pub tick_passed :
      (w : TimeWheel T) (instant now : ℕ)
      → 0 < w.tick_interval
      → elapsed w instant + w.tick_interval ≤ elapsed w now + 1
      → tick_of w instant ≤ ticks_at w now
  tick_passed w instant now p h =
      let bounds = deadline_ticks_bounds (elapsed w instant) w.tick_interval p (micros-lt _) in
      (le-div_iff (tick_of w instant) (elapsed w now) w.tick_interval p).1 (omega arith)

  abbrev added : TimeWheel T → ℕ → T → TimeWheel T
  added w instant value = with_timer (tick_of w instant) value w

  added-round :
      (w : TimeWheel T) (instant now len : ℕ) (value : T) (events : List T)
      → IsValid w.sys
      → 0 < w.tick_interval
      → w.ticks < tick_of w instant
      → (r : Round T) × ((deadline w instant value >>= λ p. round p.1 now len events) ≡ done r)
        × IsRound (added w instant value) (ticks_at w now) len events r
        × (agenda (added w instant value).sys ≡ schedule (tick_of w instant) value (agenda w.sys))
  added-round w instant now len value events valid p h =
      let s = with_timer-IsScheduled (tick_of w instant) value w valid h in
      let (r, e, x) = round-IsRound (added w instant value) now len events s.valid p in
      (r, rw (deadline_accepted w instant value p h) e, x, s.scheduled)

  -- A timer never fires early: after an accepted `deadline`, a round of `poll` whose time is before
  -- the deadline, in whole microseconds since the start, fires what it would have fired without the
  -- timer, and the timer is still pending behind those of its tick.
  pub never_early :
      (w : TimeWheel T) (instant now len : ℕ) (value : T) (events : List T)
      → IsValid w.sys
      → 0 < w.tick_interval
      → w.ticks < tick_of w instant
      → elapsed w now < elapsed w instant
      → (r : Round T) × ((deadline w instant value >>= λ p. round p.1 now len events) ≡ done r)
        × (events_of r ≡ events ++ values (due (ticks_at w now) (agenda w.sys)))
        × (agenda (wheel_of r).sys
            ≡ schedule (tick_of w instant) value (not_due (ticks_at w now) (agenda w.sys)))
  never_early w instant now len value events valid p h early =
      let (r, e, x, s) = added-round w instant now len value events valid p h in
      let ahead = tick_ahead w instant now p early in
      (
        r,
        e,
        x.fired ∙ rw (s, due-schedule_before _ _ value (agenda w.sys) ahead),
        x.kept ∙ rw (s, not_due-schedule_before _ _ value (agenda w.sys) ahead),
      )

  too_few :
      (len : ℕ) (events events' : List T) (t : ℕ) (v : T) (l : List (ℕ × T))
      → events' ≡ events ++ values (schedule t v l)
      → len ≤ length events
      → length events' ≤ len
      → ⊥
  too_few len events events' t v l fired more few = omega (
    arith,
    ap length fired,
    length-append events (values (schedule t v l)),
    length-map (λ (e : ℕ × T). e.1) (schedule t v l),
    length-schedule t v l,
  )

  -- Nor is a timer more than a tick late: after an accepted `deadline`, a round of `poll` at least one
  -- microsecond less than a tick interval after the deadline fires the timer with the others that are
  -- due, in the order of ticks, and then returns.
  pub never_late :
      (w : TimeWheel T) (instant now len : ℕ) (value : T) (events : List T)
      → IsValid w.sys
      → 0 < w.tick_interval
      → w.ticks < tick_of w instant
      → elapsed w instant + w.tick_interval ≤ elapsed w now + 1
      → len ≤ length events
      → (w' : TimeWheel T) × (events' : List T) × ((deadline w instant value >>= λ p.
            round p.1 now len events)
          ≡ done (returned w' events'))
        × (events'
            ≡ events
              ++ values (schedule (tick_of w instant) value (due (ticks_at w now) (agenda w.sys))))
        × (agenda w'.sys ≡ not_due (ticks_at w now) (agenda w.sys))
  never_late w instant now len value events valid p h late more =
      let (r, e, x, s) = added-round w instant now len value events valid p h in
      let passed = tick_passed w instant now p late in
      let fired = x.fired ∙ rw (s, due-schedule_after _ _ value (agenda w.sys) passed) in
      elim x.returns [
        | inl (_, q) ↦ (
          wheel_of r,
          events_of r,
          rw (← q) e,
          fired,
          x.kept ∙ rw (s, not_due-schedule_after _ _ value (agenda w.sys) passed),
        )
        | inr (few, _) ↦ absurd (too_few len events (events_of r) _ value _ fired more few)
      ]
