-- ===== src/Cli/Mains.antt =====
-- crates/agent/src/bin/n3agent.rs and crates/n3/src/bin/n3.rs: `run_n3_agent` and `run_n3`, from the command line on.
-- `main` prints their error.
use zorya_rs.Base.{ℕ, Bool, Option, none, some, if◌then◌else◌, Outcome, done, ◌>>=◌}
use zorya_rs.Io.{other, IoResult, ok, err}
use zorya_rs.Io.Reactor.Global.{Globals, set_global_reactor, reactor_every}
use zorya_rs.Quic.Client.{QuicConnectConfig}
use zorya_rs.Quic.Server.Config
use zorya_rs.Cli.Options.{ConfigApi}
use zorya_rs.Cli.Runs.{AgentCli, N3Cli, run_agent, run_static_redirect}

-- `io_timer_tick_interval`, in milliseconds, and `debug`.
pub record Common : Type 0 where
  pub io_timer_tick_interval : ℕ
  pub debug : Bool

-- `map_err(Error::other)`
abbrev as_other : {A : Type 0} → IoResult A → IoResult A
as_other (err kind) = err other
as_other (ok a) = ok a

-- What both programs begin with: `logger` is what `try_init_timed` answers.
unfoldable pub set_up :
    Common → IoResult (Unit {0}) → Globals → Outcome (IoResult (Unit {0}) × Globals)
unfolding set_global_reactor reactor_every
set_up common logger g =
    set_global_reactor (reactor_every common.io_timer_tick_interval) g >>= λ g'.
    done (if common.debug then as_other logger else ok tt, g')

-- The rest of a program, once it is set up.
unfoldable pub next_if_ok :
    {A : Type 0}
    → Outcome (IoResult A)
    → IoResult (Unit {0}) × Globals
    → Outcome (IoResult A × Globals)
next_if_ok next (err kind, g) = done (err kind, g)
next_if_ok next (ok _, g) = next >>= λ answer. done (answer, g)

abbrev or_default : Option ℕ → ℕ → ℕ
or_default none default = default
or_default (some target) default = target

module _ {C : Type 0} (api : ConfigApi C) where
  -- `Agent::bind` is called with an address and a connector.
  abbrev Binds : Type 0
  Binds = ℕ × IoResult (QuicConnectConfig C)

  abbrev at_address : ℕ → IoResult (IoResult (QuicConnectConfig C)) → IoResult Binds
  at_address laddr (err kind) = err kind
  at_address laddr (ok connector) = ok (laddr, connector)

  -- `Commands::Listen`; `default` is what the parsing of "[::]:1812" answers, with or without a target.
  unfoldable pub listen :
      {I : Type 0}
      → (I → ℕ → ℕ)
      → AgentCli I
      → Option ℕ
      → IoResult ℕ
      → IoResult C
      → Outcome (IoResult Binds)
  unfolding run_agent
  listen socket_addr cli target (err kind) config = done (err other)
  listen socket_addr cli target (ok default) config =
      run_agent api socket_addr cli config >>= λ connector.
      done (at_address (or_default target default) connector)

  -- `run_n3_agent`
  unfoldable pub run_n3_agent :
      {I : Type 0}
      → (I → ℕ → ℕ)
      → Common
      → AgentCli I
      → Option ℕ
      → IoResult (Unit {0})
      → IoResult ℕ
      → IoResult C
      → Globals
      → Outcome (IoResult Binds × Globals)
  unfolding set_up listen next_if_ok
  run_n3_agent socket_addr common cli target logger default config g =
      set_up common logger g >>= next_if_ok (listen socket_addr cli target default config)

  -- `run_n3`
  unfoldable pub run_n3 :
      {V : Type 0}
      → (Bool → C → C)
      → Common
      → N3Cli
      → IoResult (Unit {0})
      → IoResult C
      → Globals
      → Outcome (IoResult (IoResult (Config.QuicServerConfig C V)) × Globals)
  unfolding set_up run_static_redirect next_if_ok
  run_n3 set common cli logger config g =
      set_up common logger g
      >>= next_if_ok (run_static_redirect api set cli config >>= λ server. done (ok server))
