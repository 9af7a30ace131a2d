-- ===== src/TimingWheel/Wakeups.antt =====
-- crates/timing-wheel/src/lib.rs, the wait of `poll`: how long it sleeps, and why it then returns.
use zorya_rs.Base.{
  ℕ, ◌+◌, ◌-◌, ◌*◌, ◌/◌, ◌≤◌, ◌<◌, ◌≡◌, refl, ap, subst, ◌∙◌, List, [], ◌∷◌, Option, none, some,
  arith, length, inl, inr, done, mul_u64, u64_mod, length-append, Option-cases, All,
}
use zorya_rs.Base.Maps.{lookup, nat_key}
use zorya_rs.TimingWheel.{
  wheel_of, events_of, TimeWheelImpl, TimeWheel, returned, waits, expire, end_round, round, fire,
}
use zorya_rs.TimingWheel.Pending.{Above, values, pending, due, IsValid}
use zorya_rs.TimingWheel.Deadlines.{agenda}
use zorya_rs.TimingWheel.Poller.{elapsed, ticks_at, expired_at, IsRound, round-IsRound}
use zorya_rs.TimingWheel.Times.{le-div_iff}

-- The sleep that the loop computes for the heap it leaves, `n` being the present tick.
abbrev pub sleep : ℕ → ℕ → List ℕ → Option ℕ
sleep tick_interval n [] = none
sleep tick_interval n (s ∷ q) = some (mul_u64 (s - n) tick_interval)

slot_time :
    (e e' n k i : ℕ) → n * i ≤ e → (n + k) * i < u64_mod → e + mul_u64 k i ≤ e' → (n + k) * i ≤ e'
slot_time e e' n k i past range h = omega arith

head_passed :
    (e e' s i : ℕ)
    → 0 < i
    → e / i < s
    → s * i < u64_mod
    → e + mul_u64 (s - e / i) i ≤ e'
    → s ≤ e' / i
head_passed e e' s i p ahead range h =
    let split : s ≡ e / i + (s - e / i) = omega arith in
    let past = (le-div_iff (e / i) e i p).0 (omega arith) in
    (le-div_iff s e' i p).1
      (rw split (slot_time e e' (e / i) (s - e / i) i past (rw (← split) range) h))

sleep-some :
    (i n d : ℕ) (q : List ℕ)
    → some d ≡ sleep i n q
    → (s : ℕ) × (q' : List ℕ) × (q ≡ s ∷ q') × (d ≡ mul_u64 (s - n) i)
sleep-some i n d [] e = cc
sleep-some i n d (s ∷ q) e = (s, q, refl, ground arith)

module _ {T : Type 0} where
  fire-ticks :
      (slot : ℕ) (o : Option (List T)) (sys : TimeWheelImpl T) (events : List T)
      → (fire slot o sys events).0.ticks ≡ sys.ticks
  unfolding fire
  fire-ticks slot none sys events = refl
  fire-ticks slot (some xs) sys events = refl

  expire-sleep :
      (tick_interval n : ℕ) (queue : List ℕ) (sys : TimeWheelImpl T) (events : List T)
      → sys.ticks ≡ n
      → (expire tick_interval queue sys events).duration
        ≡ sleep tick_interval n (expire tick_interval queue sys events).rest.priority_queue
  unfolding expire
  expire-sleep tick_interval n [] sys events e = refl
  expire-sleep tick_interval n (slot ∷ queue) sys events e =
      let (sys', events') = fire slot (lookup slot sys.timers) sys events in
      let same = fire-ticks slot (lookup slot sys.timers) sys events in
      ground (arith, expire-sleep tick_interval n queue sys' events' (same ∙ e))

  -- A round that waits sleeps without limit only if no slot is left in the heap, and otherwise for
  -- the ticks up to the first slot.
  pub waits-sleep :
      (w w' : TimeWheel T) (now len : ℕ) (events events' : List T) (d : Option ℕ)
      → 0 < w.tick_interval
      → round w now len events ≡ done (waits w' events' d)
      → (d ≡ sleep w.tick_interval (ticks_at w now) w'.priority_queue)
  unfolding round end_round
  waits-sleep w w' now len events events' d p h =
      let e = expired_at w now events in
      let s =
        expire-sleep w.tick_interval (ticks_at w now) w.priority_queue
          (record w.sys { ticks = ticks_at w now }) events refl in
      ground arith

  head_vector :
      (s : ℕ) (q : List ℕ) (sys : TimeWheelImpl T)
      → IsValid sys
      → sys.priority_queue ≡ s ∷ q
      → (x : T) × (xs : List T) × (lookup s sys.timers ≡ some (x ∷ xs))
  head_vector s q sys valid e = elim (Option-cases (lookup s sys.timers)) [
    | inl missing ↦ absurd (ground (arith, valid.tracked s))
    | inr ([], empty) ↦ absurd (valid.filled s empty)
    | inr (x ∷ xs, found) ↦ (x, xs, found)
  ]

  -- A valid wheel whose first slot has passed has a timer to fire.
  due_of_head :
      (n s : ℕ) (q : List ℕ) (sys : TimeWheelImpl T)
      → IsValid sys
      → sys.priority_queue ≡ s ∷ q
      → s ≤ n
      → 0 < length (values (due n (agenda sys)))
  unfolding pending due
  due_of_head n s q sys valid e h =
      let (x, xs, found) = head_vector s q sys valid e in rw (e, found) (ground arith)

  round_of_passed :
      (w : TimeWheel T) (now len s : ℕ) (q : List ℕ) (events : List T)
      → IsValid w.sys
      → 0 < w.tick_interval
      → w.priority_queue ≡ s ∷ q
      → s ≤ ticks_at w now
      → len ≤ length events
      → (w' : TimeWheel T) × (events' : List T) × (round w now len events
          ≡ done (returned w' events'))
  round_of_passed w now len s q events valid p e h more =
      let (r, run, x) = round-IsRound w now len events valid p in
      let longer : length (events_of r)
          ≡ length events + length (values (due (ticks_at w now) (agenda w.sys))) =
        ap length x.fired ∙ length-append events _ in
      let some_due = due_of_head (ticks_at w now) s q w.sys valid e h in
      elim x.returns [
        | inl (_, returns) ↦ (wheel_of r, events_of r, run ∙ ap done returns)
        | inr (few, _) ↦ absurd (omega arith)
      ]

  waiting_returns :
      (w w' : TimeWheel T) (now later len d : ℕ) (events events' : List T)
      → IsRound w (ticks_at w now) len events (waits w' events' (some d))
      → 0 < w.tick_interval
      → len ≤ length events
      → some d ≡ sleep w.tick_interval (ticks_at w now) w'.priority_queue
      → All (λ s. s * w.tick_interval < u64_mod) w'.priority_queue
      → elapsed w now + d ≤ elapsed w later
      → (w'' : TimeWheel T) × (events'' : List T) × (round w' later len events'
          ≡ done (returned w'' events''))
  unfolding wheel_of events_of
  waiting_returns w w' now later len d events events' y p more asleep range h =
      let (s, q, e, length_of_sleep) = sleep-some _ _ d w'.priority_queue asleep in
      let order : Above w'.ticks (s ∷ q) = subst (Above w'.ticks) e y.valid.ordered in
      let small = subst (All (λ (s : ℕ). s * w.tick_interval < u64_mod)) e range in
      let ahead : ticks_at w now < s = subst (λ (k : ℕ). k < s) y.ticks order.0 in
      let passed : s ≤ elapsed w later / w.tick_interval =
        head_passed (elapsed w now) _ s w.tick_interval p ahead small.0
          (subst (λ (k : ℕ). elapsed w now + k ≤ elapsed w later) length_of_sleep h) in
      let longer = ap length y.fired ∙ length-append events _ in
      round_of_passed w' later len s q events' y.valid (rw y.same_interval p) e
        (rw (y.same_interval, y.same_start) passed) (omega (arith, longer))

  -- The sleep is long enough: where a round of a valid wheel waits for `d` microseconds, another round
  -- at least `d` microseconds later, with no call in between, returns with events. The slots must lie
  -- within the range of a 64-bit number of microseconds.
  pub wakes_in_time :
      (w w' : TimeWheel T) (now later len d : ℕ) (events events' : List T)
      → IsValid w.sys
      → 0 < w.tick_interval
      → len ≤ length events
      → round w now len events ≡ done (waits w' events' (some d))
      → All (λ s. s * w.tick_interval < u64_mod) w'.priority_queue
      → elapsed w now + d ≤ elapsed w later
      → (w'' : TimeWheel T) × (events'' : List T) × (round w' later len events'
          ≡ done (returned w'' events''))
  wakes_in_time w w' now later len d events events' valid p more run range h =
      let (r, run', x) = round-IsRound w now len events valid p in
      let same : r ≡ waits w' events' (some d) = cc in
      let y = subst (IsRound w (ticks_at w now) len events) same x in
      waiting_returns w w' now later len d events events' y p more
        (waits-sleep w w' now len events events' (some d) p run) range h
