-- ===== src/Agent/Holds.antt =====
-- crates/agent/src/lib.rs: what a call of `QuicPool::connect` keeps of the pool and of its answers.
use zorya_rs.Base.{
  ℕ, ◌+◌, ◌<◌, ◌^◌, ◌≡◌, refl, sym, ap, ◌∙◌, subst, List, [], ◌∷◌, Option, none, some, All, arith,
}
use zorya_rs.Base.Maps.{Distinct, lookup, bytes_key, lookup-insert, Distinct-insert}
use zorya_rs.Io.{IoResult, ok, err}
use zorya_rs.Quic.Quiche.{Quiche}
use zorya_rs.Quic.Conn.{QuicConnState}
use zorya_rs.Quic.Conn.Calls.{Reply}
use zorya_rs.Quic.Conn.NextStream.{next_id}
use zorya_rs.Quic.Conn.Await.{OpenTurn, await_open}
use zorya_rs.Agent.{
  TraceId, scan_start, Conns, scan, removed, stream_or_new, connect, connect_new, pooled,
}
use zorya_rs.Agent.Pool.{scan-stream}
use zorya_rs.Agent.Streams.{AllSmall, scan-Takes, scan-offer, first_offer-next}
use zorya_rs.Agent.Issued.{
  Issued, Shrinks, Issued-Shrinks, Issued-insert, lookup-removed, Distinct-removed, Distinct-scan,
  await_open-Next,
}

abbrev pub Others : TraceId × ℕ → List (TraceId × ℕ) → Type 0
Others p issued = All (λ q. ¬ (q ≡ p)) issued

abbrev pub NoneTwice : List (TraceId × ℕ) → Type 0
NoneTwice [] = Unit
NoneTwice (p ∷ issued) = Others p issued × NoneTwice issued

-- A new connection has a trace id that no stream was answered with.
abbrev pub New :
    {Q : Quiche} → Option (IoResult (TraceId × QuicConnState Q)) → List (TraceId × ℕ) → Type 0
New (some (ok (id, s))) issued = All (λ p. ¬ (p.0 ≡ id)) issued
New fresh issued = Unit

abbrev pub with_answer : Option (IoResult (TraceId × ℕ)) → List (TraceId × ℕ) → List (TraceId × ℕ)
with_answer (some (ok p)) issued = p ∷ issued
with_answer answer issued = issued

abbrev pub SmallAnswer : Option (IoResult (TraceId × ℕ)) → Type 0
SmallAnswer (some (ok p)) = p.1 + 4 < 2 ^ 64
SmallAnswer answer = Unit

Others-new :
    (id : TraceId) (st : ℕ) (issued : List (TraceId × ℕ))
    → All (λ p. ¬ (p.0 ≡ id)) issued
    → Others (id, st) issued
Others-new id st [] new = tt
Others-new id st (q ∷ issued) new = (λ e. new.0 (ap (λ p. p.0) e), Others-new id st issued new.1)

module _ {Q : Quiche} where
  -- What the pool and the streams answered so far satisfy.
  abbrev pub Holds : Conns Q → List (TraceId × ℕ) → Type 0
  Holds conns issued = Distinct conns × Issued conns issued × NoneTwice issued

  Others-next :
      (k : TraceId) (st : ℕ) (s : QuicConnState Q) (conns : Conns Q) (issued : List (TraceId × ℕ))
      → Issued conns issued
      → lookup k conns ≡ some s
      → st ≡ next_id s
      → Others (k, st) issued
  Others-next k st s conns [] i at_k next = tt
  Others-next k st s conns (q ∷ issued) i at_k next = (
    λ e.
        let below = i.0 s (ap (λ p. lookup p.0 conns) e ∙ at_k) in
        let same = ap (λ p. p.1) e in omega (arith, below, same, next),
    Others-next k st s conns issued i.1 at_k next,
  )

  pooled-Holds :
      (id : TraceId) (x : Option (IoResult ℕ) × QuicConnState Q) (conns : Conns Q)
      (out : List (Reply Q (IoResult (Unit {0})))) (issued : List (TraceId × ℕ))
      → All (λ p. ¬ (p.0 ≡ id)) issued
      → ((st : ℕ) → x.0 ≡ some (ok st) → st + 4 < 2 ^ 64 → st < next_id x.1)
      → SmallAnswer (pooled id x conns out).answer
      → Holds conns issued
      → Holds (pooled id x conns out).conns (with_answer (pooled id x conns out).answer issued)
  unfolding pooled
  pooled-Holds id (none, s) conns out issued new next small h = h
  pooled-Holds id (some (err kind), s) conns out issued new next small h = h
  pooled-Holds id (some (ok st), s) conns out issued new next small (d, i, n) = (
    Distinct-insert id s conns d,
    (
      λ s' e.
          let below = next st refl small in
          let same : s ≡ s' = ground (arith, lookup-insert id id s conns, e) in
          subst (λ t. st < next_id t) same below,
      Issued-insert id s conns issued new i,
    ),
    (Others-new id st issued new, n),
  )

  connect_new-Holds :
      (fresh : Option (IoResult (TraceId × QuicConnState Q))) (turns : List OpenTurn)
      (conns : Conns Q) (out : List (Reply Q (IoResult (Unit {0})))) (issued : List (TraceId × ℕ))
      → New fresh issued
      → SmallAnswer (connect_new fresh turns conns out).answer
      → Holds conns issued
      → Holds
          (connect_new fresh turns conns out).conns
          (with_answer (connect_new fresh turns conns out).answer issued)
  unfolding connect_new
  connect_new-Holds none turns conns out issued new small h = h
  connect_new-Holds (some (err kind)) turns conns out issued new small h = h
  connect_new-Holds (some (ok (id, s))) turns conns out issued new small h =
      pooled-Holds id (await_open turns s) conns out issued new
        (λ st e below. await_open-Next turns s st below e) small h

  stream_or_new-Holds :
      (o : Option (TraceId × ℕ)) (fresh : Option (IoResult (TraceId × QuicConnState Q)))
      (turns : List OpenTurn) (conns : Conns Q) (out : List (Reply Q (IoResult (Unit {0}))))
      (issued : List (TraceId × ℕ))
      → New fresh issued
      → SmallAnswer (stream_or_new o fresh turns conns out).answer
      → Holds conns issued
      → ((k : TraceId) (st : ℕ)
          → o ≡ some (k, st)
          → ((s : QuicConnState Q) → lookup k conns ≡ some s → st < next_id s)
            × Others (k, st) issued)
      → Holds
          (stream_or_new o fresh turns conns out).conns
          (with_answer (stream_or_new o fresh turns conns out).answer issued)
  unfolding stream_or_new
  stream_or_new-Holds none fresh turns conns out issued new small h offered =
      connect_new-Holds fresh turns conns out issued new small h
  stream_or_new-Holds (some (k, st)) fresh turns conns out issued new small (d, i, n) offered =
      let (below, others) = offered k st refl in (d, (below, i), (others, n))

module _ {Q : Quiche} (params : Q.Connection → Option ℕ) where
  abbrev left_of : Conns Q → Conns Q
  left_of conns =
      (removed (scan params conns scan_start).1.closed (scan params conns scan_start).0).1

  left-Shrinks : (conns : Conns Q) → AllSmall conns → Shrinks conns (left_of conns)
  left-Shrinks conns small k s e =
      scan-Takes params k s conns scan_start small
        (lookup-removed (scan params conns scan_start).1.closed k s _ e)

  pub connect-Holds :
      (fresh : Option (IoResult (TraceId × QuicConnState Q))) (turns : List OpenTurn)
      (conns : Conns Q) (issued : List (TraceId × ℕ))
      → AllSmall conns
      → New fresh issued
      → SmallAnswer (connect params fresh turns conns).answer
      → Holds conns issued
      → Holds
          (connect params fresh turns conns).conns
          (with_answer (connect params fresh turns conns).answer issued)
  unfolding connect
  connect-Holds fresh turns conns issued small new small_answer (d, i, n) =
      stream_or_new-Holds (scan params conns scan_start).1.stream fresh turns (left_of conns) _
        issued new small_answer
        (
          Distinct-removed (scan params conns scan_start).1.closed _
              (Distinct-scan params conns scan_start d),
          Issued-Shrinks conns (left_of conns) issued (left-Shrinks conns small) i,
          n,
        )
        (λ k st e.
          let first = sym (scan-stream params conns scan_start) ∙ e in
          let (s, at_k, next) = first_offer-next k st conns d small first in
          (
            λ s' at_k'.
                scan-offer params k st s' conns scan_start d small refl first
                  (lookup-removed (scan params conns scan_start).1.closed k s' _ at_k'),
            Others-next k st s conns issued i at_k next,
          ))
