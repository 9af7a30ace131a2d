-- ===== src/TimingWheel/Refinement.antt =====
-- crates/timing-wheel/src/lib.rs against a specification: the wheel as one list of timers ordered by
-- tick, and `poll` as a loop that takes the due timers off its front.
use zorya_rs.Base.{
  ℕ, ◌-◌, ◌/◌, ◌<◌, ◌≡◌, refl, ap, ◌∙◌, sym, subst, List, [], ◌∷◌, ◌++◌, Option, none, some, arith,
  length, ltb, if◌then◌else◌, inl, inr, done, dec_lt, Bool, true, false, Outcome, lt→ltb,
  ltb-eq-false,
}
use zorya_rs.TimingWheel.{
  wheel_of, events_of, TimeWheel, Round, returned, waits, round, deadline, deadlines, rounds,
  resume, poll, Wake, deadline_ticks, micros,
}
use zorya_rs.TimingWheel.Pending.{values, due, not_due, schedule, IsValid}
use zorya_rs.TimingWheel.Deadlines.{
  agenda, tick_of, with_timer, with_timer-IsScheduled, deadline_accepted, deadline_expired,
}
use zorya_rs.TimingWheel.Poller.{ticks_at, IsRound, round-IsRound}

-- The clock of a wheel, which no call changes.
pub record Clock : Type 0 where
  pub start : ℕ
  pub tick_interval : ℕ

pub record Agenda (T : Type 0) : Type 0 where
  pub ticks : ℕ
  pub timers : List (ℕ × T)

-- The agenda, the events, and whether `poll` has returned.
pub record Answer (T : Type 0) : Type 0 where
  pub left : Agenda T
  pub events : List T
  pub is_done : Bool

module _ {T : Type 0} where
  abbrev pub clock_of : TimeWheel T → Clock
  clock_of w = record { start = w.start; tick_interval = w.tick_interval }

  abbrev pub agenda_of : TimeWheel T → Agenda T
  agenda_of w = record { ticks = w.ticks; timers = agenda w.sys }

  -- The specification of `deadline`, `deadlines` and of the loop of `poll`.
  pub add : Clock → Agenda T → ℕ → T → Agenda T
  add c a instant value =
      let t = deadline_ticks (micros (instant - c.start)) c.tick_interval in
      if ltb a.ticks t then record a { timers = schedule t value a.timers } else a

  pub add_all : Clock → Agenda T → List (ℕ × T) → Agenda T
  unfolding add
  add_all c a [] = a
  add_all c a ((instant, value) ∷ calls) = add_all c (add c a instant value) calls

  pub advance : Clock → Agenda T → ℕ → ℕ → List T → Answer T
  unfolding due not_due
  advance c a now len events =
      let n = micros (now - c.start) / c.tick_interval in
      let events' = events ++ values (due n a.timers) in
      record {
        left = record { ticks = n; timers = not_due n a.timers };
        events = events';
        is_done = ltb len (length events');
      }

  pub spec_rounds : Clock → List (Wake T) → Agenda T → ℕ → ℕ → List T → Answer T
  unfolding advance add_all
  spec_rounds c [] a now len events = advance c a now len events
  spec_rounds c (wake ∷ wakes) a now len events =
      let r = advance c a now len events in
      let later = spec_rounds c wakes (add_all c r.left wake.calls) wake.now len r.events in
      if r.is_done then r else later

  abbrev is_returned : Round T → Bool
  is_returned (returned w events) = true
  is_returned (waits w events d) = false

  -- What a caller sees of the end of a round.
  abbrev pub answer_of : Round T → Answer T
  answer_of r = record {
    left = agenda_of (wheel_of r);
    events = events_of r;
    is_done = is_returned r;
  }

  -- A wheel that the specification can stand for.
  pub record Runs (c : Clock) (w : TimeWheel T) : Type 0 where
    pub same_start : w.start ≡ c.start
    pub same_interval : w.tick_interval ≡ c.tick_interval
    pub valid : IsValid w.sys
    pub ticking : 0 < c.tick_interval

  deadline-Refines :
      (c : Clock) (w : TimeWheel T) (instant : ℕ) (value : T)
      → Runs c w
      → (o : Option ℕ) × (w' : TimeWheel T) × (deadline w instant value ≡ done (o, w'))
        × Runs c w'
        × (agenda_of w' ≡ add c (agenda_of w) instant value)
  unfolding add
  deadline-Refines c w instant value r =
      let ticking : 0 < w.tick_interval = rw r.same_interval r.ticking in
      elim (dec_lt w.ticks (tick_of w instant)) [
        | yes h ↦
            let s = with_timer-IsScheduled (tick_of w instant) value w r.valid h in
            (
              some (tick_of w instant),
              with_timer (tick_of w instant) value w,
              deadline_accepted w instant value ticking h,
              record {
                same_start = r.same_start;
                same_interval = r.same_interval;
                valid = s.valid;
                ticking = r.ticking;
              },
              ground (arith, s.scheduled, s.same_ticks),
            )
        | no h ↦ (none, w, deadline_expired w instant value ticking (omega arith), r, ground arith)
      ]

  deadlines-Refines :
      (c : Clock) (w : TimeWheel T) (calls : List (ℕ × T))
      → Runs c w
      → (w' : TimeWheel T) × (deadlines w calls ≡ done w')
        × Runs c w'
        × (agenda_of w' ≡ add_all c (agenda_of w) calls)
  unfolding deadlines add_all
  deadlines-Refines c w [] r = (w, refl, r, refl)
  deadlines-Refines c w ((instant, value) ∷ calls) r =
      let (o, w', e, r', s) = deadline-Refines c w instant value r in
      let (w'', e', r'', s') = deadlines-Refines c w' calls r' in (w'', rw e e', r'', rw (← s) s')

  returned_lem :
      (w : TimeWheel T) (n len : ℕ) (events : List T) (r : Round T)
      → IsRound w n len events r
      → is_returned r ≡ ltb len (length (events_of r))
  returned_lem w n len events r x = elim x.returns [
    | inl (more, q) ↦ ap is_returned q ∙ sym (lt→ltb _ _ more)
    | inr (few, (d, q)) ↦ ap is_returned q ∙ sym (ltb-eq-false _ _ few)
  ]

  answer_lem :
      (w : TimeWheel T) (n len : ℕ) (events : List T) (r : Round T)
      → IsRound w n len events r
      → let events' = events ++ values (due n (agenda w.sys)) in
        answer_of r ≡ record {
          left = record { ticks = n; timers = not_due n (agenda w.sys) };
          events = events';
          is_done = ltb len (length events');
        }
  answer_lem w n len events r x =
      ground (arith, returned_lem w n len events r x, x.fired, x.kept, x.ticks)

  round-Refines :
      (c : Clock) (w : TimeWheel T) (now len : ℕ) (events : List T)
      → Runs c w
      → (r : Round T) × (round w now len events ≡ done r)
        × Runs c (wheel_of r)
        × (answer_of r ≡ advance c (agenda_of w) now len events)
  unfolding advance
  round-Refines c w now len events r =
      let ticking : 0 < w.tick_interval = rw r.same_interval r.ticking in
      let (r', e, x) = round-IsRound w now len events r.valid ticking in
      (
        r',
        e,
        record {
          same_start = x.same_start ∙ r.same_start;
          same_interval = x.same_interval ∙ r.same_interval;
          valid = x.valid;
          ticking = r.ticking;
        },
        rw (← r.same_start, ← r.same_interval) (answer_lem w (ticks_at w now) len events r' x),
      )

  -- The outcome of a call refines an answer of the specification.
  abbrev Refines : Clock → Outcome (Round T) → Answer T → Type 0
  Refines c o a = (r : Round T) × (o ≡ done r) × Runs c (wheel_of r) × (answer_of r ≡ a)

  resume-Refines :
      (c : Clock) (calls : List (ℕ × T)) (next : TimeWheel T → List T → Outcome (Round T))
      (spec : Agenda T → List T → Answer T) (r : Round T)
      → Runs c (wheel_of r)
      → ((w : TimeWheel T)
          → Runs c w
          → Refines c (next w (events_of r)) (spec (agenda_of w) (events_of r)))
      → Refines c
          (resume calls next r)
          (let a = answer_of r in if a.is_done then a else spec (add_all c a.left calls) a.events)
  unfolding resume wheel_of events_of
  resume-Refines c calls next spec (returned w events) q ih = (returned w events, refl, q, refl)
  resume-Refines c calls next spec (waits w events d) q ih =
      let (w', e, q', s) = deadlines-Refines c w calls q in
      let (r, e', q'', s') = ih w' q' in
      (r, rw e e', q'', s' ∙ ap (λ (a : Agenda T). spec a events) s)

  rounds-Refines :
      (c : Clock) (wakes : List (Wake T)) (w : TimeWheel T) (now len : ℕ) (events : List T)
      → Runs c w
      → Refines c (rounds wakes w now len events) (spec_rounds c wakes (agenda_of w) now len events)
  unfolding rounds spec_rounds
  rounds-Refines c [] w now len events q = round-Refines c w now len events q
  rounds-Refines c (wake ∷ wakes) w now len events q =
      let (r, e, q', s) = round-Refines c w now len events q in
      let spec = λ (a : Agenda T) (events' : List T). spec_rounds c wakes a wake.now len events' in
      rw e (
        subst
          (λ (a : Answer T).
            Refines c (resume wake.calls (λ w' events'. rounds wakes w' wake.now len events') r)
              (if a.is_done then a else spec (add_all c a.left wake.calls) a.events))
          s
          (resume-Refines c wake.calls (λ w' events'. rounds wakes w' wake.now len events') spec r
            q' (λ w' q''. rounds-Refines c wakes w' wake.now len (events_of r) q'')))

  -- `poll` over any wake-ups, and the calls of `deadline` that others make during its waits, does what
  -- the specification does on the agenda of the wheel: it never panics on a valid wheel with a
  -- positive interval, it returns or waits with the same events and pending timers as the
  -- specification, and the wheel is valid at its end.
  pub poll-Refines :
      (w : TimeWheel T) (wakes : List (Wake T)) (now : ℕ) (events : List T)
      → IsValid w.sys
      → 0 < w.tick_interval
      → (r : Round T) × (poll wakes w now events ≡ done r)
        × IsValid (wheel_of r).sys
        × (answer_of r ≡ spec_rounds (clock_of w) wakes (agenda_of w) now (length events) events)
  unfolding poll
  poll-Refines w wakes now events valid p =
      let (r, e, q, s) =
        rounds-Refines (clock_of w) wakes w now (length events) events
          (record { same_start = refl; same_interval = refl; valid = valid; ticking = p }) in
      (r, e, q.valid, s)
