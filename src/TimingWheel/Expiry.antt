-- ===== src/TimingWheel/Expiry.antt =====
-- crates/timing-wheel/src/lib.rs, the loop of `poll` over expired slots: it fires exactly the due
-- timers, in order, and keeps the wheel valid.
use zorya_rs.Base.{
  ℕ, ◌%◌, ◌≤◌, ◌<◌, ◌≡◌, ◌≢◌, refl, ◌∙◌, sym, false, List, [], ◌∷◌, ◌++◌, some, arith, length,
  is_some, elem, u64_mod, sub_u64, append_assoc, append-nil, map-append, length-append,
  Option-cases, inl, inr, dec_lt,
}
use zorya_rs.Base.Maps.{lookup, remove, lookup-remove, nat_key}
use zorya_rs.TimingWheel.{TimeWheelImpl, Expired, fire, expire}
use zorya_rs.TimingWheel.Pending.{
  Above, elem-Above, stamp, values, pending, due, not_due, pending-AllAbove, values-stamp,
  length-stamp, due_above, not_due_above, due-stamp, not_due-stamp, pending-remove, IsValid,
}

module _ {T : Type 0} where
  -- What the loop needs of a wheel whose ticks may have moved on: the slots rise above some bound.
  pub record IsReady (queue : List ℕ) (sys : TimeWheelImpl T) : Type 0 where
    pub tracked : (k : ℕ) → is_some (lookup k sys.timers) ≡ elem k queue
    pub filled : (k : ℕ) → lookup k sys.timers ≢ some []
    pub counted : sys.counter ≡ length (pending queue sys.timers) % u64_mod

  -- What the loop promises.
  pub record IsExpired (queue : List ℕ) (sys : TimeWheelImpl T) (events : List T) (e : Expired T)
      : Type 0 where
    pub fired : e.events ≡ events ++ values (due sys.ticks (pending queue sys.timers))
    pub kept :
        pending e.rest.priority_queue e.rest.timers ≡ not_due sys.ticks (pending queue sys.timers)
    pub same_ticks : e.rest.ticks ≡ sys.ticks
    pub valid : IsValid e.rest

  abbrev fired_at : ℕ → List T → TimeWheelImpl T → TimeWheelImpl T
  fired_at slot xs sys = record sys {
    timers = remove slot sys.timers;
    counter = sub_u64 sys.counter (length xs);
  }

  fired_at-IsReady :
      (n slot : ℕ) (queue : List ℕ) (sys : TimeWheelImpl T) (xs : List T)
      → Above n (slot ∷ queue)
      → lookup slot sys.timers ≡ some xs
      → IsReady (slot ∷ queue) sys
      → IsReady queue (fired_at slot xs sys)
  unfolding pending
  fired_at-IsReady n slot queue sys xs a e r = record {
    tracked = λ k. ground (arith, r.tracked k, lookup-remove slot k sys.timers, fresh);
    filled = λ k. ground (arith, r.filled k, lookup-remove slot k sys.timers);
    counted = rw (pending-remove slot queue sys.timers fresh) (
        omega (
          arith,
          counted,
          length-append (stamp slot xs) (pending queue sys.timers),
          length-stamp slot xs,
        ));
  }
    where
      fresh : elem slot queue ≡ false
      fresh = elem-Above slot slot queue a.1 (omega arith)

      counted : sys.counter ≡ length (stamp slot xs ++ pending queue sys.timers) % u64_mod
      counted = ground (arith, r.counted)

  expire_due :
      (tick_interval slot : ℕ) (queue : List ℕ) (sys : TimeWheelImpl T) (events xs : List T)
      → slot ≤ sys.ticks
      → lookup slot sys.timers ≡ some xs
      → expire tick_interval (slot ∷ queue) sys events
        ≡ expire tick_interval queue (fired_at slot xs sys) (events ++ xs)
  unfolding expire
  expire_due tick_interval slot queue sys events xs h e = rw (e, fire) (ground arith)

  expire_late :
      (tick_interval slot : ℕ) (queue : List ℕ) (sys : TimeWheelImpl T) (events : List T)
      → sys.ticks < slot
      → (expire tick_interval (slot ∷ queue) sys events).rest
          ≡ record sys { priority_queue = slot ∷ queue }
        × (expire tick_interval (slot ∷ queue) sys events).events ≡ events
  unfolding expire
  expire_late tick_interval slot queue sys events h = (ground arith, ground arith)

  vector_at :
      (slot : ℕ) (queue : List ℕ) (sys : TimeWheelImpl T)
      → IsReady (slot ∷ queue) sys
      → (xs : List T) × (lookup slot sys.timers ≡ some xs)
  vector_at slot queue sys r = elim (Option-cases (lookup slot sys.timers)) [
    | inl e ↦ absurd (ground (arith, r.tracked slot))
    | inr found ↦ found
  ]

  expire_late-IsExpired :
      (tick_interval n slot : ℕ) (queue : List ℕ) (sys : TimeWheelImpl T) (events : List T)
      → Above n (slot ∷ queue)
      → IsReady (slot ∷ queue) sys
      → sys.ticks < slot
      → IsExpired (slot ∷ queue) sys events (expire tick_interval (slot ∷ queue) sys events)
  expire_late-IsExpired tick_interval n slot queue sys events a r h =
      let (rest, same) = expire_late tick_interval slot queue sys events h in
      let late =
        pending-AllAbove sys.ticks sys.ticks (slot ∷ queue) sys.timers (omega arith) (h, a.1) in
      record {
        fired = rw (same, due_above sys.ticks _ late) (sym (append-nil events));
        kept = rw (rest, not_due_above sys.ticks _ late);
        same_ticks = rw rest;
        valid = rw rest (record {
          ordered = (h, a.1);
          tracked = r.tracked;
          filled = r.filled;
          counted = r.counted;
        });
      }

  expire_due-IsExpired :
      (slot : ℕ) (queue : List ℕ) (sys : TimeWheelImpl T) (events xs : List T) (e : Expired T)
      → Above slot queue
      → lookup slot sys.timers ≡ some xs
      → slot ≤ sys.ticks
      → IsExpired queue (fired_at slot xs sys) (events ++ xs) e
      → IsExpired (slot ∷ queue) sys events e
  unfolding pending
  expire_due-IsExpired slot queue sys events xs e a found h ih =
      let fresh = elem-Above slot slot queue a (omega arith) in
      let same = pending-remove slot queue sys.timers fresh in
      record {
        fired =
            rw (found, due-stamp sys.ticks slot xs (pending queue sys.timers) h)
              (ih.fired
                ∙ rw (same, map-append (λ (t : ℕ × T). t.1) (stamp slot xs) _, values-stamp slot xs)
                    (append_assoc events xs _));
        kept =
            rw (found, not_due-stamp sys.ticks slot xs (pending queue sys.timers) h)
              (ih.kept ∙ rw same);
        same_ticks = ih.same_ticks;
        valid = ih.valid;
      }

  -- The loop appends the due timers to the events, oldest tick first, leaves the others pending and
  -- makes the wheel valid again.
  pub expire-IsExpired :
      (tick_interval n : ℕ) (queue : List ℕ) (sys : TimeWheelImpl T) (events : List T)
      → Above n queue
      → IsReady queue sys
      → IsExpired queue sys events (expire tick_interval queue sys events)
  unfolding expire pending due not_due
  expire-IsExpired tick_interval n [] sys events a r = record {
    fired = sym (append-nil events);
    kept = refl;
    same_ticks = refl;
    valid = record { ordered = tt; tracked = r.tracked; filled = r.filled; counted = r.counted };
  }
  expire-IsExpired tick_interval n (slot ∷ queue) sys events a r = elim (dec_lt sys.ticks slot) [
    | yes late ↦ expire_late-IsExpired tick_interval n slot queue sys events a r late
    | no soon ↦
        let (xs, found) = vector_at slot queue sys r in
        rw (expire_due tick_interval slot queue sys events xs (omega arith) found) (
          expire_due-IsExpired slot queue sys events xs _ a.1 found (omega arith) (
            expire-IsExpired tick_interval slot queue (fired_at slot xs sys) (events ++ xs) a.1
              (fired_at-IsReady n slot queue sys xs a found r)))
  ]
