-- ===== src/Agent/Serving.antt =====
-- crates/agent/src/lib.rs: the pool as the agent's loop and the tasks of its connections use it, and the
-- streams that it answers: no two inbound connections share one.
use mathlib.Core.Logic.{ite}
use zorya_rs.Base.{ℕ, ◌∙◌, sym, subst, inl, inr, List, [], ◌∷◌, Option, none, some, All, arith}
use zorya_rs.Base.Maps.{Apart, Distinct, lookup, bytes_key, lookup_head, lookup_tail, lookup_cases}
use zorya_rs.Io.{IoResult, ok, err}
use zorya_rs.Quic.Quiche.{Quiche}
use zorya_rs.Quic.Conn.Accepts.{Call, step}
use zorya_rs.Quic.Conn.NextStream.{Takes, step-Takes}
use zorya_rs.Agent.{TraceId, Conns, connect}
use zorya_rs.Agent.Bind.{
  acted, acted_all, Proxy, Arrival, Served, spawned, serve, accepted, bind_loop,
}
use zorya_rs.Agent.Streams.{AllSmall}
use zorya_rs.Agent.Issued.{Shrinks, Issued-Shrinks}
use zorya_rs.Agent.Holds.{NoneTwice, Others, New, with_answer, SmallAnswer, Holds, connect-Holds}

-- The other tasks act on one connection.
module _ {Q : Quiche} where
  acted-Shrinks :
      (id : TraceId) (call : Call) (conns : Conns Q)
      → AllSmall conns
      → Shrinks conns (acted id call conns)
  unfolding acted lookup
  acted-Shrinks id call [] small k s' e = cc
  acted-Shrinks id call ((j, s) ∷ conns) small k s' e =
      let s₁ = ite (bytes_key.dec j id) (step call s).1 s in
      let takes : Takes s s₁ = ground (arith, step-Takes call s small.0) in
      elim (lookup_cases k j s₁ s' (acted id call conns) e) [
        | inl (same, now) ↦ (s, lookup_head k j s conns same, subst (λ t. Takes s t) now takes)
        | inr (other, later) ↦
            let (t, at_k, takes') = acted-Shrinks id call conns small.1 k s' later in
            (t, lookup_tail k j s conns other ∙ at_k, takes')
      ]

  acted-Apart :
      (id k : TraceId) (call : Call) (conns : Conns Q)
      → Apart k conns
      → Apart k (acted id call conns)
  unfolding acted
  acted-Apart id k call [] a = tt
  acted-Apart id k call ((j, s) ∷ conns) a = (a.0, acted-Apart id k call conns a.1)

  acted-Distinct :
      (id : TraceId) (call : Call) (conns : Conns Q)
      → Distinct conns
      → Distinct (acted id call conns)
  unfolding acted
  acted-Distinct id call [] d = tt
  acted-Distinct id call ((j, s) ∷ conns) d =
      (acted-Apart id j call conns d.0, acted-Distinct id call conns d.1)

-- Every id that is taken in these calls fits 64 bits.
abbrev pub ActsFit : {Q : Quiche} → List (TraceId × Call) → Conns Q → Type 0
ActsFit [] conns = AllSmall conns
ActsFit ((id, call) ∷ others) conns = AllSmall conns × ActsFit others (acted id call conns)

acted_all-Holds :
    {Q : Quiche} (others : List (TraceId × Call)) (conns : Conns Q) (issued : List (TraceId × ℕ))
    → ActsFit others conns
    → Holds conns issued
    → AllSmall (acted_all others conns) × Holds (acted_all others conns) issued
unfolding acted_all
acted_all-Holds [] conns issued fit h = (fit, h)
acted_all-Holds ((id, call) ∷ others) conns issued fit (d, i, n) =
    acted_all-Holds others (acted id call conns) issued fit.1 (
      acted-Distinct id call conns d,
      Issued-Shrinks conns (acted id call conns) issued (acted-Shrinks id call conns fit.0) i,
      n,
    )

-- The streams of the proxies.
abbrev pub streams_of : List Proxy → List (TraceId × ℕ)
streams_of [] = []
streams_of (p ∷ proxies) = (p.trace_id, p.stream) ∷ streams_of proxies

module _ {Q : Quiche} (params : Q.Connection → Option ℕ) where
  -- In each turn of the loop the new connection has a new trace id, and the ids of streams fit 64 bits.
  abbrev pub Fits : List (Arrival Q) → Conns Q → List (TraceId × ℕ) → Type 0
  Fits [] conns issued = Unit
  Fits (a ∷ arrivals) conns issued =
      let c = connect params a.fresh a.turns (acted_all a.others conns) in
      ActsFit a.others conns
      × New a.fresh issued
      × SmallAnswer c.answer
      × Fits arrivals c.conns (with_answer c.answer issued)

-- The streams of the proxies are all different, and were not answered before.
abbrev Clean : List (TraceId × ℕ) → List (TraceId × ℕ) → Type 0
Clean issued streams = NoneTwice streams × All (λ p. Others p issued) streams

Others-All :
    (p : TraceId × ℕ) (issued streams : List (TraceId × ℕ))
    → All (λ q. Others q (p ∷ issued)) streams
    → Others p streams × All (λ q. Others q issued) streams
Others-All p issued [] h = (tt, tt)
Others-All p issued (q ∷ streams) h =
    let (others, rest) = Others-All p issued streams h.1 in
    ((λ e. h.0.0 (sym e), others), (h.0.1, rest))

module _ {Q : Quiche} where
  spawned-Clean :
      (again : Conns Q → Served Q) (p : Proxy) (backward forward : IoResult (Unit {0}))
      (conns : Conns Q) (issued : List (TraceId × ℕ))
      → Others (p.trace_id, p.stream) issued
      → Clean ((p.trace_id, p.stream) ∷ issued) (streams_of (again conns).1)
      → Clean issued (streams_of (spawned again p backward forward conns).1)
  unfolding spawned
  spawned-Clean again p (err kind) forward conns issued new h = (tt, tt)
  spawned-Clean again p (ok _) (err kind) conns issued new h = (tt, tt)
  spawned-Clean again p (ok _) (ok _) conns issued new h =
      let (others, rest) =
        Others-All (p.trace_id, p.stream) issued (streams_of (again conns).1) h.1 in
      ((others, h.0), (new, rest))

  serve-Clean :
      (again : Conns Q → Served Q) (inbound : ℕ) (a : Arrival Q)
      (answer : Option (IoResult (TraceId × ℕ))) (conns : Conns Q) (issued : List (TraceId × ℕ))
      → NoneTwice (with_answer answer issued)
      → Clean (with_answer answer issued) (streams_of (again conns).1)
      → Clean issued (streams_of (serve again inbound a answer conns).1)
  unfolding serve
  serve-Clean again inbound a none conns issued n h = (tt, tt)
  serve-Clean again inbound a (some (err kind)) conns issued n h = h
  serve-Clean again inbound a (some (ok (id, st))) conns issued n h =
      spawned-Clean again _ a.spawn_backward a.spawn_forward conns issued n.0 h

module _ {Q : Quiche} (params : Q.Connection → Option ℕ) where
  accepted-Clean :
      (again : Conns Q → Served Q) (a : Arrival Q) (accept : IoResult ℕ) (conns : Conns Q)
      (issued : List (TraceId × ℕ))
      → let c = connect params a.fresh a.turns (acted_all a.others conns) in
        NoneTwice (with_answer c.answer issued)
        → Clean (with_answer c.answer issued) (streams_of (again c.conns).1)
        → Clean issued (streams_of (accepted params again a accept conns).1)
  unfolding accepted
  accepted-Clean again a (err kind) conns issued n h = (tt, tt)
  accepted-Clean again a (ok inbound) conns issued n h =
      let c = connect params a.fresh a.turns (acted_all a.others conns) in
      serve-Clean again inbound a c.answer c.conns issued n h

  bind_loop-Clean :
      (arrivals : List (Arrival Q)) (conns : Conns Q) (issued : List (TraceId × ℕ))
      → Fits params arrivals conns issued
      → Holds conns issued
      → Clean issued (streams_of (bind_loop params arrivals conns).1)
  unfolding bind_loop
  bind_loop-Clean [] conns issued fit h = (tt, tt)
  bind_loop-Clean (a ∷ arrivals) conns issued (acts, new, small, fits) h =
      let (small_ids, held) = acted_all-Holds a.others conns issued acts h in
      let c = connect params a.fresh a.turns (acted_all a.others conns) in
      let after =
        connect-Holds params a.fresh a.turns (acted_all a.others conns) issued small_ids new small
          held in
      accepted-Clean _ a a.accept conns issued after.2
        (bind_loop-Clean arrivals c.conns (with_answer c.answer issued) fits after)

  -- No two inbound connections that `Agent::bind` accepts are carried by the same stream of the same QUIC
  -- connection, whatever the tasks of the pooled connections call in between: new connections have trace
  -- ids that were not answered before, and the ids of streams fit 64 bits.
  pub bind_loop-NoneTwice :
      (arrivals : List (Arrival Q))
      → Fits params arrivals [] []
      → NoneTwice (streams_of (bind_loop params arrivals []).1)
  bind_loop-NoneTwice arrivals fit = (bind_loop-Clean arrivals [] [] fit (tt, tt, tt)).0
