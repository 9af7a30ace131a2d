-- ===== src/TimingWheel/Deadlines.antt =====
-- crates/timing-wheel/src/lib.rs, `deadline`: it schedules the timer behind those of its tick, keeps
-- the wheel valid, and changes nothing where the deadline has expired.
use zorya_rs.Base.{
  ℕ, ◌-◌, ◌≤◌, ◌<◌, ◌≡◌, ◌≢◌, refl, ap, true, false, List, [], ◌∷◌, ◌++◌, ◌||◌, none, some, arith,
  ◌==◌, elem, add_u64, Option-cases, inl, inr, dec_lt, done, ℕ_discrete,
}
use zorya_rs.Base.Maps.{Map, lookup, insert, lookup-insert, nat_key}
use zorya_rs.Base.Heap.{push}
use zorya_rs.TimingWheel.{TimeWheelImpl, TimeWheel, add_timer, deadline, deadline_ticks, micros}
use zorya_rs.TimingWheel.Pending.{
  Above, elem-Above, stamp, pending, schedule, values_at, pending-AllAbove, schedule_above,
  schedule-stamp, length-schedule, pending-insert, IsValid,
}

push-Above : (n t : ℕ) (q : List ℕ) → n < t → elem t q ≡ false → Above n q → Above n (push t q)
unfolding push
push-Above n t [] h f a = (h, tt)
push-Above n t (s ∷ q) h f a = ground (arith, push-Above s t q, a.1)

elem-push : (t k : ℕ) (q : List ℕ) → elem k (push t q) ≡ ((t == k) || elem k q)
unfolding push
elem-push t k [] = refl
elem-push t k (s ∷ q) = ground (arith, elem-push t k q)

lt_of_elem : (s t : ℕ) (q : List ℕ) → Above s q → elem t q ≡ true → s < t
lt_of_elem s t q a h = elim (dec_lt s t) [
  | yes p ↦ p
  | no p ↦ absurd (ground (arith, elem-Above s t q a))
]

module _ {T : Type 0} where
  stamp-snoc :
      (t : ℕ) (v : T) (xs : List T) (l : List (ℕ × T))
      → stamp t (xs ++ v ∷ []) ++ l ≡ stamp t xs ++ (t, v) ∷ l
  stamp-snoc t v [] l = refl
  stamp-snoc t v (x ∷ xs) l = ap (◌∷◌ (t, x)) (stamp-snoc t v xs l)

  pending-push :
      (n t : ℕ) (v : T) (q : List ℕ) (m : Map ℕ (List T))
      → Above n q
      → elem t q ≡ false
      → pending (push t q) (insert t (v ∷ []) m) ≡ schedule t v (pending q m)
  unfolding push pending schedule
  pending-push n t v [] m a f = ground (arith, lookup-insert t t (v ∷ []) m)
  pending-push n t v (s ∷ q) m a f = elim (dec_lt s t) [
    | yes p ↦ ground (
      arith,
      lookup-insert t s (v ∷ []) m,
      pending-push s t v q m a.1,
      schedule-stamp t v s (values_at (lookup s m)) (pending q m),
    )
    | no p ↦
        let late = pending-AllAbove t t (s ∷ q) m (omega arith) (ground arith, a.1) in
        ground (
          arith,
          lookup-insert t t (v ∷ []) m,
          lookup-insert t s (v ∷ []) m,
          pending-insert t (v ∷ []) q m,
          schedule_above t v _ late,
        )
  ]

  pending-append :
      (n t : ℕ) (v : T) (xs : List T) (q : List ℕ) (m : Map ℕ (List T))
      → Above n q
      → elem t q ≡ true
      → lookup t m ≡ some xs
      → pending q (insert t (xs ++ v ∷ []) m) ≡ schedule t v (pending q m)
  unfolding pending
  pending-append n t v xs [] m a h e = cc
  pending-append n t v xs (s ∷ q) m a h e = elim (ℕ_discrete s t) [
    | yes p ↦
        let fresh = elem-Above s t q a.1 (omega arith) in
        ground (
          arith,
          lookup-insert t s (xs ++ v ∷ []) m,
          pending-insert t (xs ++ v ∷ []) q m,
          schedule-stamp t v s xs (pending q m),
          stamp-snoc t v xs (pending q m),
          schedule_above t v (pending q m) (pending-AllAbove t s q m (omega arith) a.1),
        )
    | no p ↦
        let later : elem t q ≡ true = ground arith in
        ground (
          arith,
          lookup-insert t s (xs ++ v ∷ []) m,
          pending-append s t v xs q m a.1,
          lt_of_elem s t q a.1,
          schedule-stamp t v s (values_at (lookup s m)) (pending q m),
        )
  ]

  abbrev pub agenda : TimeWheelImpl T → List (ℕ × T)
  agenda sys = pending sys.priority_queue sys.timers

  -- The wheel after `deadline` has added a timer and counted it.
  abbrev pub with_timer : ℕ → T → TimeWheel T → TimeWheel T
  with_timer t v w =
      let sys = add_timer t v (lookup t w.timers) w.sys in
      record w { sys = record sys { counter = add_u64 sys.counter 1 } }

  pub record IsScheduled (t : ℕ) (v : T) (old new : TimeWheelImpl T) : Type 0 where
    pub valid : IsValid new
    pub scheduled : agenda new ≡ schedule t v (agenda old)
    pub same_ticks : new.ticks ≡ old.ticks

  add_timer-some :
      (t : ℕ) (v : T) (xs : List T) (sys : TimeWheelImpl T)
      → IsValid sys
      → lookup t sys.timers ≡ some xs
      → agenda (add_timer t v (some xs) sys) ≡ schedule t v (agenda sys)
  unfolding add_timer
  add_timer-some t v xs sys valid e =
      pending-append sys.ticks t v xs sys.priority_queue sys.timers valid.ordered
        (ground (arith, valid.tracked t)) e

  add_timer-none :
      (t : ℕ) (v : T) (sys : TimeWheelImpl T)
      → IsValid sys
      → lookup t sys.timers ≡ none
      → agenda (add_timer t v none sys) ≡ schedule t v (agenda sys)
  unfolding add_timer
  add_timer-none t v sys valid e =
      pending-push sys.ticks t v sys.priority_queue sys.timers valid.ordered
        (ground (arith, valid.tracked t))

  snoc-ne-nil : (xs : List T) (v : T) → xs ++ v ∷ [] ≢ []
  snoc-ne-nil [] v h = cc
  snoc-ne-nil (x ∷ xs) v h = cc

  some-IsScheduled :
      (t : ℕ) (v : T) (xs : List T) (sys : TimeWheelImpl T)
      → IsValid sys
      → lookup t sys.timers ≡ some xs
      → let sys' = add_timer t v (some xs) sys in
        IsScheduled t v sys (record sys' { counter = add_u64 sys'.counter 1 })
  unfolding add_timer
  some-IsScheduled t v xs sys valid e =
      let scheduled = add_timer-some t v xs sys valid e in
      record {
        valid = record {
          ordered = valid.ordered;
          tracked = λ k. ground (
            arith,
            valid.tracked k,
            valid.tracked t,
            lookup-insert t k (xs ++ v ∷ []) sys.timers,
          );
          filled = λ k. ground (
            arith,
            valid.filled k,
            snoc-ne-nil xs v,
            lookup-insert t k (xs ++ v ∷ []) sys.timers,
          );
          counted = rw scheduled (omega (arith, valid.counted, length-schedule t v (agenda sys)));
        };
        scheduled = scheduled;
        same_ticks = refl;
      }

  none-IsScheduled :
      (t : ℕ) (v : T) (sys : TimeWheelImpl T)
      → IsValid sys
      → sys.ticks < t
      → lookup t sys.timers ≡ none
      → let sys' = add_timer t v none sys in
        IsScheduled t v sys (record sys' { counter = add_u64 sys'.counter 1 })
  unfolding add_timer
  none-IsScheduled t v sys valid h e =
      let scheduled = add_timer-none t v sys valid e in
      let fresh : elem t sys.priority_queue ≡ false = ground (arith, valid.tracked t) in
      record {
        valid = record {
          ordered = push-Above sys.ticks t sys.priority_queue h fresh valid.ordered;
          tracked = λ k. ground (
            arith,
            valid.tracked k,
            elem-push t k sys.priority_queue,
            lookup-insert t k (v ∷ []) sys.timers,
          );
          filled = λ k. ground (arith, valid.filled k, lookup-insert t k (v ∷ []) sys.timers);
          counted = rw scheduled (omega (arith, valid.counted, length-schedule t v (agenda sys)));
        };
        scheduled = scheduled;
        same_ticks = refl;
      }

  pub with_timer-IsScheduled :
      (t : ℕ) (v : T) (w : TimeWheel T)
      → IsValid w.sys
      → w.ticks < t
      → IsScheduled t v w.sys (with_timer t v w).sys
  with_timer-IsScheduled t v w valid h = elim (Option-cases (lookup t w.timers)) [
    | inl e ↦ rw e (none-IsScheduled t v w.sys valid h e)
    | inr (xs, e) ↦ rw e (some-IsScheduled t v xs w.sys valid e)
  ]

  -- The tick of a deadline on a wheel.
  abbrev pub tick_of : TimeWheel T → ℕ → ℕ
  tick_of w instant = deadline_ticks (micros (instant - w.start)) w.tick_interval

  -- A deadline whose tick has been processed is refused, and the wheel stays as it was.
  pub deadline_expired :
      (w : TimeWheel T) (instant : ℕ) (value : T)
      → 0 < w.tick_interval
      → tick_of w instant ≤ w.ticks
      → deadline w instant value ≡ done (none, w)
  unfolding deadline
  deadline_expired w instant value p h = ground arith

  pub deadline_accepted :
      (w : TimeWheel T) (instant : ℕ) (value : T)
      → 0 < w.tick_interval
      → w.ticks < tick_of w instant
      → deadline w instant value
        ≡ done (some (tick_of w instant), with_timer (tick_of w instant) value w)
  unfolding deadline
  deadline_accepted w instant value p h = ground arith

  -- On a valid wheel a deadline whose tick is still ahead is accepted: `deadline` returns the tick,
  -- the wheel stays valid with its ticks, and the timer stands in the agenda behind those of its
  -- tick and earlier ones and before all later ones.
  pub deadline-IsScheduled :
      (w : TimeWheel T) (instant : ℕ) (value : T)
      → IsValid w.sys
      → 0 < w.tick_interval
      → w.ticks < tick_of w instant
      → (w' : TimeWheel T) × (deadline w instant value ≡ done (some (tick_of w instant), w'))
        × IsScheduled (tick_of w instant) value w.sys w'.sys
        × (w'.start ≡ w.start)
        × (w'.tick_interval ≡ w.tick_interval)
  deadline-IsScheduled w instant value valid p h = (
    with_timer (tick_of w instant) value w,
    deadline_accepted w instant value p h,
    with_timer-IsScheduled (tick_of w instant) value w valid h,
    refl,
    refl,
  )
