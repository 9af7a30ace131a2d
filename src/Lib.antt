-- ===== src/Lib.antt =====
-- zorya-rs (N3), a QUIC reverse proxy in Rust: the parts of it that carry state and decisions, as
-- definitions that run, with theorems about them.
--
-- The program. An agent accepts TCP connections and carries each through a QUIC stream to the N3
-- server, which opens a TCP connection to its target and copies bytes both ways. QUIC itself is the
-- quiche library; the sockets are mio's. The repository's own core is in five crates.
--
-- * crates/timing-wheel/src/lib.rs, TimingWheel.antt: `TimeWheel::deadline` is `deadline`, one turn
--   of the loop in `TimeWheel::poll` is `round` (with `expire` and `fire` for its inner loop), and
--   `poll` is the loop over a list of wake-ups, each with the calls of `deadline` that other
--   threads make while the poller waits. Instants are numbers of nanoseconds. The binary heap is
--   the sorted list of what it holds and the hash map an association list (Base/Maps.antt). Numbers
--   of 64 bits wrap (Base/Words.antt); a division by zero is a panic. TimingWheel/ has the proofs:
--   Pending the view of a wheel as a list of timers, Expiry the inner loop, Deadlines the other
--   call, Times the arithmetic of ticks, Poller one round, Wakeups the sleep, Refinement the whole
--   of `poll`.
-- * crates/quic/src/validator.rs, Quic/Validator.antt: retry tokens. SHA-256 is a parameter, of
--   which the theorems assume only that it gives 32 bytes.
-- * crates/n3io/src/reactor.rs, Io/Reactor.antt: the two tables of io states, tokens, the bodies of
--   the event loop and of the timer thread; Io/Reactor/Calls.antt has the methods and
--   Io/Reactor/PollIo.antt `poll_io`. A method that gives up its lock in between takes a list of
--   what other threads do then. The loop of `next_token` has a turn for each entry in use and one
--   more; the loop of `poll_io` has one for each attempt in its list, and says so where the list
--   ends first. Answers of mio are arguments. Readiness, Frame, Others, Live, NoLoss, TimerWaits and Tokens have
--   the proofs; Due, Ticks, Held and Prompt follow a timer through the wheel, Shutdown an io that
--   was shut, and Stopped a reactor without an interval. Global has `Reactor::new` and the global
--   reactor.
-- * crates/quic/src/conn.rs, Quic/Conn.antt: `QuicConnState` and `poll_conn_stat_events`, over a
--   quiche connection that is a parameter (Quic/Quiche.antt). Quic/Conn/Calls.antt has the methods
--   and Quic/Conn/Send.antt `poll_send`, which uses the timers of the reactor. The loops over the
--   events of quiche have as many turns as quiche has events left; the loop of `poll_send` has one
--   for each entry of a list of what other threads do, and says so where the list ends first.
--   Incoming and SendQueue follow the queue of new streams, NextStream the ids of own streams,
--   Accepts any sequence of calls, Wakes, Sleeps and Opens the waiting tasks, Loops the ends of the
--   loops, and Halves the two halves of a split stream. Await has the future of `poll_send` and the
--   loop that the sending tasks of both ends share.
-- * crates/quic/src/server.rs, Quic/Server.antt: a turn of the loop of `QuicListenerDriver::run`,
--   with `initial`, `retry` and `negotiate_version`; Quic/Server/Driver.antt has the loop, between
--   the calls of other tasks, and Driver/Bounds its limit on connections, Sending the sending task
--   of a connection, Listener `QuicListener`, Config the builder and the binding of a listener,
--   Admission has which datagrams add a connection, and Delivery which connections are handed to
--   `accept`. The validator is a parameter there, as it is a trait object, and the spawning of the
--   sending task is taken to succeed. Simple puts the crate's own validator into a turn, at an
--   instant of the clock; Tokens has which of its tokens let a client in, and Retry the way of a
--   client through a retry packet.
-- * crates/n3io/src/net, Io/Net.antt and Io/Net/Udp.antt: connecting, accepting, sending and
--   receiving, and the group of UDP sockets. A socket is the token that the reactor gave it. A task
--   that awaits an io is the list of its polls (Io/Await.antt), and has no answer where the list
--   ends first. Connect follows a connect whose attempts all would block, Routes the sockets of a
--   group, and Halves a split stream; what its two halves share with those of a QUIC stream is in
--   Io/Halves.antt.
-- * crates/n3io/src/copy.rs, Io/Copy.antt: `copy`, over what the reader and the writer answer.
--   Where these lists end first there is no answer.
-- * crates/n3io/src/timeout.rs, Io/Timeout.antt: a future with a deadline, as a function on the
--   reactor.
-- * crates/quic/src/client.rs, Quic/Client.antt: the builder of a connector and the handshake loop,
--   with a list of what its awaits see in each turn (Quic/Client/Await.antt has the polls of the
--   receive with a deadline). Handshake has what it answers, Rounds and Progress how its loop comes
--   to its end, Tasks the sending and the receiving task, and Ends how they end.
-- * crates/agent/src/lib.rs, Agent.antt: `QuicPool::connect`, as it asks pooled connections for a
--   stream, drops closed ones and takes a new one from the connector, and Agent/Bind.antt the loop
--   of `Agent::bind`. Pool says which stream is answered; Streams, Issued, Holds and Serving follow
--   the ids of the streams.
-- * crates/n3/src/lib.rs, N3.antt: `N3::redirect_loop` and `create_channel`; Channels has which
--   streams are served, Serving that all are, and Bind has `N3::bind`. The tasks that copy, of both
--   programs, are `pipe` of Io/Copy.antt.
-- * crates/n3/src/bin/n3.rs and crates/agent/src/bin/n3agent.rs, Cli.antt: `parse_port_range`,
--   which both have, and `parse_laddrs`; Cli/Options.antt the configuration of quiche, whose
--   methods are a parameter, and Cli/Runs.antt `run_agent` and `run_static_redirect`.
--   Cli/Mains.antt has `run_n3_agent` and `run_n3`. Ports, Starts, Keys and Intervals have the
--   proofs.
--
-- Not modelled: the encoding of logs, the spawning of tasks, the sockets themselves, and what
-- quiche, mio, boring and the executors do. The declarations of the command lines are left out.
pub mod Base
pub mod TimingWheel
pub mod Io
pub mod Quic
pub mod Agent
pub mod N3
pub mod Cli
