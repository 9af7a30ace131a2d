-- ===== src/Agent/Pool.antt =====
-- crates/agent/src/lib.rs: which stream `QuicPool::connect` answers, and what stays in the pool.
use zorya_rs.Base.{
  ℕ, ◌≡◌, refl, sym, ap, ◌∙◌, inl, inr, List, [], ◌∷◌, Option, none, some, if◌then◌else◌,
  Bool-cases,
}
use zorya_rs.Base.Maps.{bytes_key}
use zorya_rs.Io.{would_block, IoResult, ok, err}
use zorya_rs.Quic.Quiche.{Quiche}
use zorya_rs.Quic.Conn.{QuicConnState}
use zorya_rs.Quic.Conn.Calls.{try_open}
use zorya_rs.Quic.Conn.Await.{OpenTurn}
use zorya_rs.Agent.{
  TraceId, Scan, scan_start, Conns, outbound, try_next, visit, scan, stream_or_new, connect,
}

-- The stream that a connection of the pool has for a caller.
unfoldable pub offered : TraceId → IoResult ℕ → Option (TraceId × ℕ)
offered trace_id (ok stream) = some (trace_id, stream)
offered trace_id (err kind) = none

abbrev pub or_else {ℓ} : {A : Type ℓ} → Option A → Option A → Option A
or_else (some a) o = some a
or_else none o = o

module _ {Q : Quiche} where
  unfoldable pub offer : TraceId → QuicConnState Q → Option (TraceId × ℕ)
  unfolding offered try_open
  offer trace_id s =
      if Q.is_closed s.quiche_conn then none else offered trace_id (try_open s).answer

  -- The first offer of the pool.
  unfoldable pub first_offer : Conns Q → Option (TraceId × ℕ)
  unfolding offer
  first_offer [] = none
  first_offer ((trace_id, s) ∷ conns) = or_else (offer trace_id s) (first_offer conns)

outbound-stream :
    (trace_id : TraceId) (answer : IoResult ℕ) (x : Scan)
    → x.stream ≡ none
    → (outbound trace_id answer x).stream ≡ offered trace_id answer
unfolding outbound offered
outbound-stream trace_id (ok stream) x e = refl
outbound-stream trace_id (err would_block) x e = e
outbound-stream trace_id (err kind) x e = e

or_else-none {ℓ} : {A : Type ℓ} → (o : Option A) → or_else o none ≡ o
or_else-none none = refl
or_else-none (some a) = refl

or_else_assoc {ℓ} :
    {A : Type ℓ} → (o p q : Option A) → or_else (or_else o p) q ≡ or_else o (or_else p q)
or_else_assoc none p q = refl
or_else_assoc (some a) p q = refl

module _ {Q : Quiche} where
  try_next-stream :
      (o : Option (TraceId × ℕ)) (trace_id : TraceId) (s : QuicConnState Q) (x : Scan)
      → x.stream ≡ o
      → (try_next o trace_id s x).1.stream ≡ or_else o (offered trace_id (try_open s).answer)
  unfolding try_next
  try_next-stream none trace_id s x e = outbound-stream trace_id (try_open s).answer x e
  try_next-stream (some p) trace_id s x e = e

module _ {Q : Quiche} (params : Q.Connection → Option ℕ) where
  pub visit-stream :
      (trace_id : TraceId) (s : QuicConnState Q) (x : Scan)
      → (visit params trace_id s x).1.stream ≡ or_else x.stream (offer trace_id s)
  unfolding visit offer
  visit-stream trace_id s x = elim (Bool-cases (Q.is_closed s.quiche_conn)) [
    | inl e ↦ rw e (sym (or_else-none x.stream))
    | inr e ↦ rw e (try_next-stream x.stream trace_id s _ refl)
  ]

  pub scan-stream :
      (conns : Conns Q) (x : Scan)
      → (scan params conns x).1.stream ≡ or_else x.stream (first_offer conns)
  unfolding scan first_offer
  scan-stream [] x = sym (or_else-none x.stream)
  scan-stream ((trace_id, s) ∷ conns) x =
      scan-stream conns (visit params trace_id s x).1
      ∙ ap (λ o. or_else o (first_offer conns)) (visit-stream trace_id s x)
      ∙ or_else_assoc x.stream (offer trace_id s) (first_offer conns)

  -- `QuicPool::connect` answers the first stream that a connection of the pool offers, in the order in
  -- which its loop takes them, and asks the connector for no new connection then; a connection offers a
  -- stream if it is not closed and `try_open` returns one.
  pub connect-first_offer :
      (fresh : Option (IoResult (TraceId × QuicConnState Q))) (turns : List OpenTurn)
      (conns : Conns Q) (stream : TraceId × ℕ)
      → first_offer conns ≡ some stream
      → (connect params fresh turns conns).answer ≡ some (ok stream)
  unfolding connect stream_or_new
  connect-first_offer fresh turns conns stream e = rw (scan-stream conns scan_start, e) refl
