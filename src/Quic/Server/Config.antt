-- ===== src/Quic/Server/Config.antt =====
-- crates/quic/src/server.rs: the builder of a server, and the listener that it binds. `C` is
-- `quiche::Config` and `V` a boxed validator.
use zorya_rs.Base.{
  ℕ, zero, suc, ◌+◌, ◌*◌, Bool, false, List, Option, none, some, Outcome, done, panic, ◌>>=◌,
}
use zorya_rs.Io.{IoResult, ok, err}
use zorya_rs.Io.Reactor.{ReactorImpl}
use zorya_rs.Io.Net.Udp.{UdpGroup, Binding, bind_group}
use zorya_rs.Quic.Quiche.{Quiche}
use zorya_rs.Quic.Server.{QuicListenerDriver, started}

-- `QuicServerConfig`; intervals are nanoseconds.
pub record QuicServerConfig (C V : Type 0) : Type 0 where
  pub config : C
  pub validator : Option V
  pub retry_token_timeout : ℕ
  pub incoming_queue_size : ℕ
  pub max_active_conn_size : ℕ
  pub verify_peer : Bool

-- What a listener consists of: the task that was started, the group of its sockets, its validator and the
-- number of connections that can wait for `accept`: a channel of the futures crate holds as many as it
-- was made for, and one more for its only sender.
pub record Listening (Q : Quiche) (V : Type 0) : Type 0 where
  pub driver : QuicListenerDriver Q
  pub group : UdpGroup
  pub validator : V
  pub capacity : ℕ

module _ {C V : Type 0} where
  -- `with_quiche_config`
  unfoldable pub with_quiche_config : C → IoResult (QuicServerConfig C V)
  with_quiche_config config = ok (record {
    config = config;
    validator = none;
    retry_token_timeout = 60 * 1_000_000_000;
    incoming_queue_size = 100;
    max_active_conn_size = 500;
    verify_peer = false;
  })

  -- `QuicServer::new`, with the answer of `quiche::Config::new`, which it expects to be well.
  unfoldable pub new_server : IoResult C → Outcome (IoResult (QuicServerConfig C V))
  unfolding with_quiche_config
  new_server (err kind) = panic
  new_server (ok config) = done (with_quiche_config config)

  abbrev changed :
      (QuicServerConfig C V → QuicServerConfig C V)
      → IoResult (QuicServerConfig C V)
      → IoResult (QuicServerConfig C V)
  changed f (err kind) = err kind
  changed f (ok config) = ok (f config)

  -- `verify_peer`, where `set` is the method of `quiche::Config`.
  unfoldable pub verify_peer :
      (Bool → C → C) → Bool → IoResult (QuicServerConfig C V) → IoResult (QuicServerConfig C V)
  verify_peer set value =
      changed (λ c. record c { verify_peer = value; config = set value c.config })

  unfoldable pub reconfigured : QuicServerConfig C V → IoResult C → IoResult (QuicServerConfig C V)
  reconfigured config (err kind) = err kind
  reconfigured config (ok c) = ok (record config { config = c })

  -- `quiche_config`, for a function that changes the configuration, fails or panics.
  unfoldable pub quiche_config :
      (C → Outcome (IoResult C))
      → IoResult (QuicServerConfig C V)
      → Outcome (IoResult (QuicServerConfig C V))
  unfolding reconfigured
  quiche_config f (err kind) = done (err kind)
  quiche_config f (ok config) = f config.config >>= (λ c. done (reconfigured config c))

  -- `incoming_queue_size`
  unfoldable pub incoming_queue_size :
      ℕ → IoResult (QuicServerConfig C V) → Outcome (IoResult (QuicServerConfig C V))
  incoming_queue_size zero server = panic
  incoming_queue_size (suc n) server =
      done (changed (λ c. record c { incoming_queue_size = n }) server)

  -- `max_active_conn_size`
  unfoldable pub max_active_conn_size :
      ℕ → IoResult (QuicServerConfig C V) → IoResult (QuicServerConfig C V)
  max_active_conn_size value = changed (λ c. record c { max_active_conn_size = value })

  -- `retry_token_timeout`
  unfoldable pub retry_token_timeout :
      ℕ → IoResult (QuicServerConfig C V) → IoResult (QuicServerConfig C V)
  retry_token_timeout duration = changed (λ c. record c { retry_token_timeout = duration })

  -- `validator`
  unfoldable pub validator : V → IoResult (QuicServerConfig C V) → IoResult (QuicServerConfig C V)
  validator v = changed (λ c. record c { validator = some v })

-- The validator of a listener; `simple` makes one of the crate's own.
abbrev validator_of : {V : Type 0} → (ℕ → V) → ℕ → Option V → V
validator_of simple interval none = simple interval
validator_of simple interval (some v) = v

module _ {C V : Type 0} (Q : Quiche) (simple : ℕ → V) where
  unfoldable pub listener : QuicServerConfig C V → UdpGroup → Listening Q V
  unfolding started
  listener config group = record {
    driver = started Q config.max_active_conn_size config.verify_peer;
    group = group;
    validator = validator_of simple config.retry_token_timeout config.validator;
    capacity = config.incoming_queue_size + 1;
  }

  unfoldable pub listening :
      QuicServerConfig C V
      → IoResult (Unit {0})
      → Option (IoResult UdpGroup × ReactorImpl)
      → Option (IoResult (Listening Q V) × ReactorImpl)
  unfolding listener
  listening config spawn none = none
  listening config spawn (some (err kind, r)) = some (err kind, r)
  listening config (err kind) (some (ok group, r)) = some (err kind, r)
  listening config (ok _) (some (ok group, r)) = some (ok (listener config group), r)

  -- `QuicServer::bind_with`, with what the bindings and `spawn` answer.
  unfoldable pub bind_with :
      IoResult (QuicServerConfig C V)
      → List Binding
      → IoResult (Unit {0})
      → ReactorImpl
      → Option (IoResult (Listening Q V) × ReactorImpl)
  unfolding bind_group listening
  bind_with (err kind) bindings spawn r = some (err kind, r)
  bind_with (ok config) bindings spawn r = listening config spawn (bind_group bindings r)
