-- ===== src/Agent/Refused.antt =====
-- crates/agent/src/lib.rs, `Agent::bind`, where the connector has no connection to give.
use zorya_rs.Base.{ℕ, ◌≡◌, refl, List, [], ◌∷◌, Option, none, some, All}
use zorya_rs.Io.{ErrorKind, IoResult, ok, err}
use zorya_rs.Quic.Quiche.{Quiche}
use zorya_rs.Quic.Conn.Accepts.{Call}
use zorya_rs.Agent.{TraceId, Conns, connect, scan, removed, stream_or_new, connect_new}
use zorya_rs.Agent.Bind.{Arrival, Served, bind_loop, accepted, serve, acted_all, acted}

abbrev pub first_error : IoResult ℕ → Option (IoResult (Unit {0})) → Option (IoResult (Unit {0}))
first_error (err kind) rest = some (err kind)
first_error (ok inbound) rest = rest

-- The first error of `accept`, if there is one.
abbrev pub accept_error : {Q : Quiche} → List (Arrival Q) → Option (IoResult (Unit {0}))
accept_error [] = none
accept_error (a ∷ arrivals) = first_error a.accept (accept_error arrivals)

module _ {Q : Quiche} (params : Q.Connection → Option ℕ) (kind : ErrorKind) where
  -- The loop goes on until `accept` fails; no task was started, and the pool is empty.
  abbrev pub ServesNobody : Option (IoResult (Unit {0})) → Served Q → Type 0
  ServesNobody ended (answer, proxies, conns) = (answer ≡ ended) × (proxies ≡ []) × (conns ≡ [])

  acted_all-nil : (others : List (TraceId × Call)) → acted_all {Q = Q} others [] ≡ []
  unfolding acted_all acted
  acted_all-nil [] = refl
  acted_all-nil (o ∷ others) = acted_all-nil others

  accepted-ServesNobody :
      (again : Conns Q → Served Q) (a : Arrival Q) (inbound : IoResult ℕ)
      (ended : Option (IoResult (Unit {0})))
      → ServesNobody ended (again [])
      → a.fresh ≡ some (err kind)
      → ServesNobody (first_error inbound ended) (accepted params again a inbound [])
  unfolding accepted connect scan removed stream_or_new connect_new serve
  accepted-ServesNobody again a (err k) ended h e = (refl, refl, refl)
  accepted-ServesNobody again a (ok inbound) ended h e = rw (acted_all-nil a.others, e) h

  -- With an empty pool and a connector that only has errors, the loop starts no task, whoever comes.
  pub bind_loop-ServesNobody :
      (arrivals : List (Arrival Q))
      → All (λ a. a.fresh ≡ some (err kind)) arrivals
      → ServesNobody (accept_error arrivals) (bind_loop params arrivals [])
  unfolding bind_loop
  bind_loop-ServesNobody [] h = (refl, refl, refl)
  bind_loop-ServesNobody (a ∷ arrivals) h =
      accepted-ServesNobody (λ conns. bind_loop params arrivals conns) a a.accept
        (accept_error arrivals) (bind_loop-ServesNobody arrivals h.1) h.0
