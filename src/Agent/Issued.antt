-- ===== src/Agent/Issued.antt =====
-- crates/agent/src/lib.rs: no two inbound connections of the agent share a stream.
use zorya_rs.Base.{
  ℕ, ◌+◌, ◌<◌, ◌^◌, ◌≡◌, inl, inr, List, [], ◌∷◌, Option, some, ltb, Bool-cases, All, arith,
}
use zorya_rs.Base.Maps.{
  Apart, Distinct, lookup, remove, insert, bytes_key, lookup-remove, lookup-insert, Distinct-remove,
}
use zorya_rs.Io.{IoResult, ok}
use zorya_rs.Quic.Quiche.{Quiche}
use zorya_rs.Quic.Conn.{QuicConnState}
use zorya_rs.Quic.Conn.Calls.{poll_stream_open, open_next}
use zorya_rs.Quic.Conn.Opens.{opened-ok}
use zorya_rs.Quic.Conn.Accepts.{run}
use zorya_rs.Quic.Conn.NextStream.{next_id, Takes}
use zorya_rs.Quic.Conn.Await.{OpenTurn, await_open, opened_or_waits}
use zorya_rs.Agent.{TraceId, Scan, Conns, visit, scan, removed}

module _ {Q : Quiche} where
  -- The streams answered so far have ids below the next one of their connection, if it is pooled.
  abbrev pub Issued : Conns Q → List (TraceId × ℕ) → Type 0
  Issued conns issued =
      All (λ p. (s : QuicConnState Q) → lookup p.0 conns ≡ some s → p.1 < next_id s) issued

  -- What is in the second pool was in the first, and has used up ids at most.
  abbrev pub Shrinks : Conns Q → Conns Q → Type 0
  Shrinks conns conns' =
      (k : TraceId) (s' : QuicConnState Q)
      → lookup k conns' ≡ some s'
      → (s : QuicConnState Q) × (lookup k conns ≡ some s) × Takes s s'

  pub Issued-Shrinks :
      (conns conns' : Conns Q) (issued : List (TraceId × ℕ))
      → Shrinks conns conns'
      → Issued conns issued
      → Issued conns' issued
  Issued-Shrinks conns conns' [] h i = tt
  Issued-Shrinks conns conns' (p ∷ issued) h i = (
    λ s' e. let (s, at_k, takes) = h p.0 s' e in let below = i.0 s at_k in omega arith,
    Issued-Shrinks conns conns' issued h i.1,
  )

  pub Issued-insert :
      (id : TraceId) (s : QuicConnState Q) (conns : Conns Q) (issued : List (TraceId × ℕ))
      → All (λ p. ¬ (p.0 ≡ id)) issued
      → Issued conns issued
      → Issued (insert id s conns) issued
  Issued-insert id s conns [] new i = tt
  Issued-insert id s conns (p ∷ issued) new i = (
    λ s' e. i.0 s' (ground (arith, lookup-insert id p.0 s conns, new.0, e)),
    Issued-insert id s conns issued new.1 i.1,
  )

  pub lookup-removed :
      (ids : List TraceId) (k : TraceId) (s : QuicConnState Q) (conns : Conns Q)
      → lookup k (removed ids conns).1 ≡ some s
      → lookup k conns ≡ some s
  unfolding removed
  lookup-removed [] k s conns e = e
  lookup-removed (id ∷ ids) k s conns e =
      let e' = lookup-removed ids k s (remove id conns) e in
      ground (arith, lookup-remove id k conns, e')

  pub Distinct-removed :
      (ids : List TraceId) (conns : Conns Q) → Distinct conns → Distinct (removed ids conns).1
  unfolding removed
  Distinct-removed [] conns d = d
  Distinct-removed (id ∷ ids) conns d =
      Distinct-removed ids (remove id conns) (Distinct-remove id conns d)

  Apart-scan :
      (params : Q.Connection → Option ℕ) (k : TraceId) (conns : Conns Q) (x : Scan)
      → Apart k conns
      → Apart k (scan params conns x).0
  unfolding scan
  Apart-scan params k [] x a = tt
  Apart-scan params k ((id, s) ∷ conns) x a =
      (a.0, Apart-scan params k conns (visit params id s x).1 a.1)

  pub Distinct-scan :
      (params : Q.Connection → Option ℕ) (conns : Conns Q) (x : Scan)
      → Distinct conns
      → Distinct (scan params conns x).0
  unfolding scan
  Distinct-scan params [] x d = tt
  Distinct-scan params ((id, s) ∷ conns) x d = (
    Apart-scan params id conns (visit params id s x).1 d.0,
    Distinct-scan params conns (visit params id s x).1 d.1,
  )

  -- The stream that `open` answers is below the next id.
  opened-Next :
      (again : QuicConnState Q → Option (IoResult ℕ) × QuicConnState Q) (cx : ℕ)
      (s : QuicConnState Q) (id : ℕ)
      → id + 4 < 2 ^ 64
      → ((s' : QuicConnState Q) → (again s').0 ≡ some (ok id) → id < next_id (again s').1)
      → let reply = poll_stream_open cx s in
        (opened_or_waits again reply.answer reply.state).0 ≡ some (ok id)
        → id
          < next_id
              (opened_or_waits again (poll_stream_open cx s).answer (poll_stream_open cx s).state).1
  unfolding poll_stream_open opened_or_waits open_next
  opened-Next again cx s id small h =
      elim (Bool-cases (ltb 0 (Q.peer_streams_left_bidi s.quiche_conn))) [
        | inl room ↦ rw room (λ e.
            let same =
              opened-ok (next_id s) id (Q.stream_priority (next_id s) s.quiche_conn).0
                (ground (arith, e)) in
            omega (arith, same, small))
        | inr full ↦ rw full (h _)
      ]

  pub await_open-Next :
      (turns : List OpenTurn) (s : QuicConnState Q) (id : ℕ)
      → id + 4 < 2 ^ 64
      → (await_open turns s).0 ≡ some (ok id)
      → id < next_id (await_open turns s).1
  unfolding await_open
  await_open-Next [] s id small e = cc
  await_open-Next (t ∷ turns) s id small e =
      opened-Next (λ s'. await_open turns s') t.cx (run t.before s).1 id small
        (λ s' f. await_open-Next turns s' id small f) e
