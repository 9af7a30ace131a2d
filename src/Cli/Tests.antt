-- ===== src/Cli/Tests.antt =====
-- Command lines at concrete inputs; a part is the port that it says, or nothing.
use zorya_rs.Base.{
  ℕ, ◌<◌, ◌≡◌, ◌+◌, ◌*◌, refl, List, [], ◌∷◌, Option, none, some, arith, if◌then◌else◌, ltb, done,
  panic, false,
}
use mathlib.Core.List.Perm
use zorya_rs.Io.{IoResult, ok, err, not_found, other}
use zorya_rs.Io.Reactor.{ReactorImpl, impl_new}
use zorya_rs.Quic.Conn.{QuicConnState}
use zorya_rs.Quic.Conn.Tests.{echo}
use zorya_rs.Quic.Client.{
  new_connector, new_with_config, quiche_config_by, configured, chosen, tried, connector_connects,
}
use zorya_rs.Agent.{TraceId}
use zorya_rs.Agent.Bind.{Arrival, bind_loop}
use zorya_rs.Agent.Refused.{ServesNobody, accept_error}
use zorya_rs.Io.Reactor.{timing_wheel_tick}
use zorya_rs.Io.Reactor.Calls.{acts}
use zorya_rs.Io.Reactor.Global.{
  Made, set_global_reactor, set_reactor_f, reactor_every, reactor_new, with_registry,
  global_reactor, held_or_made, made_by,
}
use zorya_rs.Quic.Quiche.{Quiche}
use zorya_rs.Quic.Conn.{new}
use zorya_rs.Quic.Conn.Send.{Gaps, poll_send}
use zorya_rs.Cli.Mains.{Common, set_up}
use zorya_rs.Cli.Intervals.{zero_interval_stops}
use zorya_rs.Cli.Options.{ConfigApi, Limits, agent_config, load_file, load_if_given, with_protos}
use zorya_rs.Cli.Runs.{AgentCli, N3Cli, run_agent, connector_for, parse_n3_addrs, configure}
use zorya_rs.Cli.Starts.{Starts, run_agent-Starts}
use zorya_rs.Cli.Keys.{n3_binds, unloadable_key}
use zorya_rs.Cli.{PortRange, parse_laddrs, ports, ports_from, laddrs_of}

parse_u16 : ℕ → Option ℕ
parse_u16 n = if ltb n 65536 then some n else none

parse_u16-lt : (n p : ℕ) → parse_u16 n ≡ some p → p < 65536
unfolding parse_u16
parse_u16-lt n p e = ground (arith, e)

abbrev last_port : PortRange
last_port = record { start = 65535; end_port = 0 }

-- Nothing is bound for the last port.
no_laddrs : parse_laddrs {I = ℕ} 0 none last_port ≡ []
unfolding parse_laddrs laddrs_of ports ports_from
no_laddrs = refl

load_key : List ℕ → ℕ → Option ℕ
load_key [] c = none
load_key (p ∷ path) c = if ltb 6 p then some c else none

-- A configuration is the data that the peer may send; only the key at a path that begins with 7 or more can be loaded.
api : ConfigApi ℕ
api = record {
  set_initial_max_data = λ n c. n;
  set_initial_max_stream_data_bidi_local = λ n c. c;
  set_initial_max_stream_data_bidi_remote = λ n c. c;
  set_initial_max_stream_data_uni = λ n c. c;
  set_initial_max_streams_bidi = λ n c. c;
  set_initial_max_streams_uni = λ n c. c;
  set_max_idle_timeout = λ n c. c;
  set_max_ack_delay = λ n c. c;
  set_ack_delay_exponent = λ n c. c;
  load_cert_chain_from_pem_file = λ path c. some c;
  load_priv_key_from_pem_file = load_key;
  load_verify_locations_from_file = λ path c. some c;
  set_application_protos = λ protos c. some c;
}

abbrev limits : Limits
limits = record {
  initial_max_stream_data = 1_048_576;
  initial_max_streams = 100;
  max_idle_timeout = 60_000;
  max_ack_delay = 25;
  ack_frequency_exponent = 3;
}

abbrev agent_with : List ℕ → AgentCli ℕ
agent_with key = record {
  protos = (110 ∷ 51 ∷ []) ∷ [];
  n3_ip = 10;
  n3_port_range = record { start = 1812; end_port = 1814 };
  cert = none;
  key = some key;
  limits = limits;
}

abbrev n3_with : List ℕ → N3Cli
n3_with key = record {
  protos = (110 ∷ 51 ∷ []) ∷ [];
  cert = some (1 ∷ []);
  key = some key;
  verify_peer = none;
  limits = limits;
}

abbrev addr_of : ℕ → ℕ → ℕ
addr_of ip port = ip * 65536 + port

run_agent-Starts_example :
    Starts {C = ℕ}
      (λ l. l)
      Perm.refl
      addr_of
      (agent_with (7 ∷ []))
      (run_agent api addr_of (agent_with (7 ∷ [])) (ok 0))
run_agent-Starts_example =
    run_agent-Starts api (λ l. l) Perm.refl addr_of (agent_with (7 ∷ [])) (ok 0)

no_key : (c : ℕ) → api.load_priv_key_from_pem_file (6 ∷ []) c ≡ none
unfolding api load_key
no_key c = refl

no_cert : ¬ ((agent_with (6 ∷ [])).cert ≡ some none)
no_cert e = cc

abbrev arrival : Arrival echo
arrival = record {
  accept = ok 3;
  others = [];
  fresh = some (err other);
  turns = [];
  spawn_backward = ok tt;
  spawn_forward = ok tt;
}

abbrev no_attempt : ℕ → Option (IoResult (TraceId × QuicConnState echo))
no_attempt raddr = none

no_sockets : ReactorImpl
unfolding impl_new
no_sockets = impl_new 0 20_000_000

unloadable_key_example :
    (n3_binds api (6 ∷ []) echo (λ t. t) (λ b c. c) (n3_with (6 ∷ [])) (ok 0) [] (ok tt) no_sockets
      ≡ done (some (err not_found, no_sockets)))
    × (run_agent api addr_of (agent_with (6 ∷ [])) (ok 0) ≡ done (ok (err not_found)))
    × ServesNobody {Q = echo}
        (λ c. none)
        other
        (accept_error (arrival ∷ arrival ∷ []))
        (bind_loop (λ c. none) (arrival ∷ arrival ∷ []) [])
unfolding api load_key run_agent connector_for parse_n3_addrs ports ports_from configure
    agent_config load_file load_if_given with_protos quiche_config_by new_connector new_with_config
    configured chosen tried connector_connects
unloadable_key_example =
    unloadable_key {C = ℕ} {Q = echo} (λ l. l) no_attempt api (6 ∷ []) (λ t. t) (λ b c. c)
      (n3_with (6 ∷ [])) (1 ∷ []) addr_of (agent_with (6 ∷ [])) 0 [] (ok tt) no_sockets (λ c. none)
      (arrival ∷ arrival ∷ []) no_key refl refl refl no_cert (omega arith) (refl, (refl, tt))

-- A connection with a timeout.
unfoldable pub idle : Quiche
unfolding echo
idle = record echo { timeout_instant = λ c. some 90 }

no_data : idle.Connection
unfolding idle echo
no_data = []

abbrev no_gaps : Gaps
no_gaps = record { before = []; after = [] }

abbrev no_interval : Common
no_interval = record { io_timer_tick_interval = 0; debug = false }

abbrev made : Made
made = record { poll = ok tt; registry = ok tt; now = 5 }

abbrev idle_conn : QuicConnState idle
idle_conn = new idle no_data

zero_interval_stops_example :
    (timing_wheel_tick 7 (impl_new 5 0) ≡ panic)
    × (poll_send 1 no_gaps (no_gaps ∷ []) idle_conn (impl_new 5 0) ≡ panic)
unfolding set_up set_global_reactor set_reactor_f global_reactor held_or_made made_by reactor_every
    reactor_new with_registry acts idle echo new no_data
zero_interval_stops_example =
    zero_interval_stops no_interval (ok tt) (ok tt)
      (record { reactor = none; reactor_f = some (reactor_every 0) })
      (record { reactor = some (impl_new 5 0); reactor_f = some (reactor_every 0) }) made []
      (impl_new 5 0) (impl_new 5 0) 7 1 no_gaps no_gaps [] idle_conn no_data 90 refl refl refl refl
      refl refl refl refl
