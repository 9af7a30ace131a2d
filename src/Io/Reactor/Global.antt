-- ===== src/Io/Reactor/Global.antt =====
-- crates/n3io/src/reactor.rs: making a reactor, and the global one. The two threads of a reactor are its acts
-- (Io/Reactor/Calls.antt).
use zorya_rs.Base.{ℕ, ◌*◌, Option, none, some, Outcome, done, panic, ◌>>=◌}
use zorya_rs.Io.Defs.{IoResult, ok, err}
use zorya_rs.Io.Reactor.{ReactorImpl, impl_new}

-- What `mio::Poll::new`, `try_clone` of its registry and the clock answer when a reactor is made.
pub record Made : Type 0 where
  pub poll : IoResult (Unit {0})
  pub registry : IoResult (Unit {0})
  pub now : ℕ

unfoldable pub with_registry : IoResult (Unit {0}) → ℕ → ℕ → IoResult ReactorImpl
unfolding impl_new
with_registry (err kind) now tick_interval = err kind
with_registry (ok _) now tick_interval = ok (impl_new now tick_interval)

-- `Reactor::new`, for a tick interval in nanoseconds.
unfoldable pub reactor_new : IoResult (Unit {0}) → Made → ℕ → IoResult ReactorImpl
unfolding with_registry
reactor_new (err kind) made tick_interval = err kind
reactor_new (ok _) made tick_interval = with_registry made.registry made.now tick_interval

abbrev unwrapped : {A : Type 0} → IoResult A → Outcome A
unwrapped (err kind) = panic
unwrapped (ok a) = done a

-- `Reactor::new(1024, Duration::from_millis(millis)).unwrap()`
unfoldable pub reactor_every : ℕ → Made → Outcome ReactorImpl
unfolding reactor_new
reactor_every millis made = unwrapped (reactor_new made.poll made (millis * 1_000_000))

-- `REACTOR`, with the state of the reactor that it holds, and `REACTOR_F`.
pub record Globals : Type 0 where
  pub reactor : Option ReactorImpl
  pub reactor_f : Option (Made → Outcome ReactorImpl)

-- As a program starts with them.
abbrev pub unset : Globals
unset = record { reactor = none; reactor_f = none }

unfoldable pub made_by : Option (Made → Outcome ReactorImpl) → Made → Outcome ReactorImpl
unfolding reactor_every
made_by none made = reactor_every 20 made
made_by (some f) made = f made

unfoldable pub held_or_made : Option ReactorImpl → Made → Globals → Outcome (ReactorImpl × Globals)
unfolding made_by
held_or_made (some r) made g = done (r, g)
held_or_made none made g = made_by g.reactor_f made >>= λ r. done (r, record g { reactor = some r })

-- `global_reactor`
unfoldable pub global_reactor : Made → Globals → Outcome (ReactorImpl × Globals)
unfolding held_or_made
global_reactor made g = held_or_made g.reactor made g

unfoldable pub set_reactor_f :
    Option (Made → Outcome ReactorImpl) → (Made → Outcome ReactorImpl) → Globals → Outcome Globals
set_reactor_f (some _) f g = panic
set_reactor_f none f g = done (record g { reactor_f = some f })

-- `set_global_reactor`
unfoldable pub set_global_reactor : (Made → Outcome ReactorImpl) → Globals → Outcome Globals
unfolding set_reactor_f
set_global_reactor f g = set_reactor_f g.reactor_f f g
