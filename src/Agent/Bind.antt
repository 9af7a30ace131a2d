-- ===== src/Agent/Bind.antt =====
-- crates/agent/src/lib.rs: the loop of `Agent::bind`, with what other tasks call of the connections in between.
use mathlib.Core.Logic.{ite}
use zorya_rs.Base.{ℕ, List, [], ◌∷◌, Option, none, some}
use zorya_rs.Base.Maps.{bytes_key}
use zorya_rs.Io.{IoResult, ok, err}
use zorya_rs.Io.Reactor.{ReactorImpl}
use zorya_rs.Io.Net.{bind_with}
use zorya_rs.Quic.Client.{QuicConnectConfig, new_connector}
use zorya_rs.Quic.Quiche.{Quiche}
use zorya_rs.Quic.Conn.{QuicConnState}
use zorya_rs.Quic.Conn.Accepts.{Call, step}
use zorya_rs.Quic.Conn.Await.{OpenTurn}
use zorya_rs.Agent.{TraceId, Conns, connect}

-- What `Agent::bind` gives the two tasks that copy; each is a `pipe` (Io/Copy.antt).
pub record Proxy : Type 0 where
  pub inbound : ℕ
  pub trace_id : TraceId
  pub stream : ℕ

-- A turn of the loop of `Agent::bind`: what `accept`, the connector and `spawn` answer.
pub record Arrival (Q : Quiche) : Type 0 where
  pub accept : IoResult ℕ
  pub others : List (TraceId × Call)
  pub fresh : Option (IoResult (TraceId × QuicConnState Q))
  pub turns : List OpenTurn
  pub spawn_backward : IoResult (Unit {0})
  pub spawn_forward : IoResult (Unit {0})

module _ {Q : Quiche} where
  -- What other tasks call of the pooled connections.
  unfoldable pub acted : TraceId → Call → Conns Q → Conns Q
  unfolding step
  acted id call [] = []
  acted id call ((trace_id, s) ∷ conns) =
      (trace_id, ite (bytes_key.dec trace_id id) (step call s).1 s) ∷ acted id call conns

  unfoldable pub acted_all : List (TraceId × Call) → Conns Q → Conns Q
  unfolding acted
  acted_all [] conns = conns
  acted_all ((id, call) ∷ others) conns = acted_all others (acted id call conns)

-- What the loop of `Agent::bind` answers, if it has ended, with the proxies that it started.
abbrev pub Served : Quiche → Type 0
Served Q = Option (IoResult (Unit {0})) × List Proxy × Conns Q

module _ {Q : Quiche} where
  abbrev started : Proxy → Served Q → Served Q
  started p (answer, proxies, conns) = (answer, p ∷ proxies, conns)

  unfoldable pub spawned :
      (Conns Q → Served Q) → Proxy → IoResult (Unit {0}) → IoResult (Unit {0}) → Conns Q → Served Q
  spawned again p (err kind) forward conns = (some (err kind), [], conns)
  spawned again p (ok _) (err kind) conns = (some (err kind), [], conns)
  spawned again p (ok _) (ok _) conns = started p (again conns)

  unfoldable pub serve :
      (Conns Q → Served Q) → ℕ → Arrival Q → Option (IoResult (TraceId × ℕ)) → Conns Q → Served Q
  unfolding spawned
  serve again inbound a none conns = (none, [], conns)
  serve again inbound a (some (err kind)) conns = again conns
  serve again inbound a (some (ok (trace_id, stream))) conns =
      spawned again (record { inbound = inbound; trace_id = trace_id; stream = stream })
        a.spawn_backward a.spawn_forward conns

  unfoldable pub accepted :
      (Q.Connection → Option ℕ) → (Conns Q → Served Q) → Arrival Q → IoResult ℕ → Conns Q → Served Q
  unfolding connect acted_all serve
  accepted params again a (err kind) conns = (some (err kind), [], conns)
  accepted params again a (ok inbound) conns =
      let c = connect params a.fresh a.turns (acted_all a.others conns) in
      serve again inbound a c.answer c.conns

  -- The loop of `Agent::bind`.
  unfoldable pub bind_loop : (Q.Connection → Option ℕ) → List (Arrival Q) → Conns Q → Served Q
  unfolding accepted
  bind_loop params [] conns = (none, [], conns)
  bind_loop params (a ∷ arrivals) conns =
      accepted params (λ conns'. bind_loop params arrivals conns') a a.accept conns

  unfoldable pub listens :
      (Q.Connection → Option ℕ)
      → List (Arrival Q)
      → Option (IoResult ℕ × ReactorImpl)
      → Option (Served Q × ReactorImpl)
  unfolding bind_loop
  listens params arrivals none = none
  listens params arrivals (some (err kind, r)) = some ((some (err kind), [], []), r)
  listens params arrivals (some (ok listener, r)) = some (bind_loop params arrivals [], r)

  -- `Agent::bind`, with what mio and the registry answer for the listener; the pool is empty at first.
  unfoldable pub bind :
      (Q.Connection → Option ℕ)
      → IoResult (Unit {0})
      → IoResult (Unit {0})
      → List (Arrival Q)
      → ReactorImpl
      → Option (Served Q × ReactorImpl)
  unfolding bind_with listens
  bind params mio registry arrivals r = listens params arrivals (bind_with mio registry r)

-- `Agent`: its connector, which keeps its error.
pub record Agent (C : Type 0) : Type 0 where
  pub connector : IoResult (QuicConnectConfig C)

module _ {C : Type 0} where
  -- `Agent::new`
  unfoldable pub new_agent : IoResult (List ℕ) → IoResult C → Agent C
  unfolding new_connector
  new_agent raddrs config = record { connector = new_connector raddrs config }

  -- `Agent::connector`
  unfoldable pub connector_by :
      (IoResult (QuicConnectConfig C) → IoResult (QuicConnectConfig C)) → Agent C → Agent C
  connector_by f agent = record { connector = f agent.connector }
