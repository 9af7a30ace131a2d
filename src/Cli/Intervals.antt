-- ===== src/Cli/Intervals.antt =====
-- crates/agent/src/bin/n3agent.rs and crates/n3/src/bin/n3.rs: what `io_timer_tick_interval` makes of the reactor.
use zorya_rs.Base.{
  ℕ, ◌≡◌, ◌∙◌, ap, ◌*◌, ◌/◌, false, List, ◌∷◌, none, some, Outcome, done, panic, as_u64, arith,
  OnDone, OnDone-at, ◌>>=◌,
}
use zorya_rs.TimingWheel
use zorya_rs.Io.{IoResult, ok, err}
use zorya_rs.Io.Reactor.{ReactorImpl, impl_new, timing_wheel_tick}
use zorya_rs.Io.Reactor.Calls.{Act, acts}
use zorya_rs.Io.Reactor.Global.{
  Made, Globals, unset, set_global_reactor, set_reactor_f, global_reactor, held_or_made, made_by,
  reactor_every, reactor_new, with_registry,
}
use zorya_rs.Io.Reactor.Stopped.{Stopped, acts-Stopped, timing_wheel_tick-Stopped}
use zorya_rs.Quic.Quiche.{Quiche, QResult}
use zorya_rs.Quic.Conn.{QuicConnState}
use zorya_rs.Quic.Conn.Send.{Gaps, poll_send}
use zorya_rs.Quic.Conn.Stopped.{poll_send-Stopped}
use zorya_rs.Cli.Mains.{Common, set_up}

-- The interval of a reactor, in microseconds of 64 bits.
abbrev pub Every : ℕ → ReactorImpl → Type 0
Every millis r = r.timing_wheel.tick_interval ≡ as_u64 (millis * 1000)

-- The whole microseconds of an interval in nanoseconds.
whole_micros : (millis : ℕ) → millis * 1_000_000 / 1000 ≡ millis * 1000
whole_micros millis = omega arith

made-Every :
    (millis : ℕ) (poll registry : IoResult (Unit {0})) (now : ℕ)
    → OnDone
        (Every millis)
        (reactor_every millis (record { poll = poll; registry = registry; now = now }))
unfolding reactor_every reactor_new with_registry impl_new TimingWheel.new TimingWheel.micros
made-Every millis (err kind) registry now = tt
made-Every millis (ok _) (err kind) now = tt
made-Every millis (ok _) (ok _) now = ap (λ n. as_u64 n) (whole_micros millis)

first_done :
    {A B : Type 0} (o : Outcome A) (f : A → B) (a : A) (b : B)
    → ◌>>=◌ {B = A × B} o (λ x. done (x, f x)) ≡ done (a, b)
    → o ≡ done a
first_done (done x) f a b e = cc
first_done panic f a b e = cc

-- The first call of `global_reactor` makes the reactor of the command line.
pub global_reactor-Every :
    (common : Common) (logger answer : IoResult (Unit {0})) (g g' : Globals) (made : Made)
    (r : ReactorImpl)
    → set_up common logger unset ≡ done (answer, g)
    → global_reactor made g ≡ done (r, g')
    → Every common.io_timer_tick_interval r
unfolding set_up set_global_reactor set_reactor_f global_reactor held_or_made made_by
global_reactor-Every common logger answer g g' made r e first =
    let millis = common.io_timer_tick_interval in
    let set : Globals = record unset { reactor_f = some (reactor_every millis) } in
    let same : set ≡ g = cc in
    let made_now : ◌>>=◌ {B = ReactorImpl × Globals} (reactor_every millis made)
          (λ x. done (x, record set { reactor = some x }))
        ≡ done (r, g') =
      rw (← same) at first in
    OnDone-at (Every millis) (reactor_every millis made) r
      (made-Every millis made.poll made.registry made.now) (first_done _ _ r g' made_now)

module _ {Q : Quiche} where
  -- A tick interval that is no microsecond, such as 0, stops both programs' timers. Whatever the event
  -- loop and other tasks do to the reactor that the program gets, registering and polling sockets and
  -- timers included, as long as none of that panics, the timer thread panics with its next round, and
  -- so does the task that sends for a QUIC connection without a timer of its own, once it has nothing
  -- to send and the connection, which is not closed, has a timeout.
  pub zero_interval_stops :
      (common : Common) (logger answer : IoResult (Unit {0})) (g g' : Globals) (made : Made)
      (as' : List Act) (r r' : ReactorImpl) (now cx : ℕ) (first gaps : Gaps) (rest : List Gaps)
      (s : QuicConnState Q) (c : Quiche.Connection Q) (instant : ℕ)
      → as_u64 (common.io_timer_tick_interval * 1000) ≡ 0
      → set_up common logger unset ≡ done (answer, g)
      → global_reactor made g ≡ done (r, g')
      → acts as' r ≡ done r'
      → s.on_timeout_timer ≡ none
      → Quiche.send Q s.quiche_conn ≡ (QResult.error_done, c)
      → Quiche.is_closed Q c ≡ false
      → Quiche.timeout_instant Q c ≡ some instant
      → (timing_wheel_tick now r' ≡ panic) × (poll_send cx first (gaps ∷ rest) s r' ≡ panic)
  zero_interval_stops common logger answer g g' made as' r r' now cx first gaps rest s c instant
        zero e e' acted no_timer nothing open_now timeout =
      let stopped : Stopped r' =
        OnDone-at Stopped (acts as' r) r'
          (acts-Stopped as' r (global_reactor-Every common logger answer g g' made r e e' ∙ zero))
          acted in
      (
        timing_wheel_tick-Stopped now r' stopped,
        poll_send-Stopped cx gaps first rest s r' c instant stopped no_timer nothing open_now
            timeout,
      )
