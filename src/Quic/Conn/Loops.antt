-- ===== src/Quic/Conn/Loops.antt =====
-- crates/quic/src/conn.rs: the ends of the loops over what quiche reports, and of the loop over the
-- data of a closing stream.
use zorya_rs.Base.{
  ℕ, zero, suc, ◌≤◌, ◌<◌, ◌≡◌, refl, ap, Bool, true, false, List, [], none, some, arith,
  Option-cases, inl, inr,
}
use zorya_rs.Base.Heap.{push}
use zorya_rs.Quic.Quiche.{Quiche, QResult, QuicheLaws}
use zorya_rs.Quic.Conn.{
  QuicConnState, closing_read, closing_loop, closing_recv, path_events, readable_ids, writable_ids,
  gather, gather_writable,
}

module _ {Q : Quiche} (laws : QuicheLaws Q) where
  path_events_end :
      (fuel : ℕ) (c : Q.Connection)
      → Q.path_events_left c ≤ fuel
      → Q.path_event_next (path_events Q fuel c) ≡ none
  unfolding path_events
  path_events_end zero c h = elim (Option-cases (Q.path_event_next c)) [
    | inl e ↦ e
    | inr (c', e) ↦ ground (arith, laws.path_event_falls c c' e, h)
  ]
  path_events_end (suc fuel) c h = elim (Option-cases (Q.path_event_next c)) [
    | inl e ↦ rw (path_events, e) e
    | inr (c', e) ↦
        rw (path_events, e)
          (path_events_end fuel c' (omega (arith, laws.path_event_falls c c' e, h)))
  ]

  readable_ids_end :
      (fuel : ℕ) (heap : List ℕ) (c : Q.Connection)
      → Q.readable_left c ≤ fuel
      → Q.stream_readable_next (readable_ids Q fuel heap c).1 ≡ none
  unfolding readable_ids
  readable_ids_end zero heap c h = elim (Option-cases (Q.stream_readable_next c)) [
    | inl e ↦ e
    | inr ((id, c'), e) ↦ ground (arith, laws.readable_falls c c' id e, h)
  ]
  readable_ids_end (suc fuel) heap c h = elim (Option-cases (Q.stream_readable_next c)) [
    | inl e ↦ rw (readable_ids, e) e
    | inr ((id, c'), e) ↦
        rw (readable_ids, e)
          (readable_ids_end fuel (push id heap) c'
            (omega (arith, laws.readable_falls c c' id e, h)))
  ]

  writable_ids_end :
      (fuel : ℕ) (c : Q.Connection)
      → Q.writable_left c ≤ fuel
      → Q.stream_writable_next (writable_ids Q fuel c).1 ≡ none
  unfolding writable_ids
  writable_ids_end zero c h = elim (Option-cases (Q.stream_writable_next c)) [
    | inl e ↦ e
    | inr ((id, c'), e) ↦ ground (arith, laws.writable_falls c c' id e, h)
  ]
  writable_ids_end (suc fuel) c h = elim (Option-cases (Q.stream_writable_next c)) [
    | inl e ↦ rw (writable_ids, e) e
    | inr ((id, c'), e) ↦
        rw (writable_ids, e)
          (writable_ids_end fuel c' (omega (arith, laws.writable_falls c c' id e, h)))
  ]

  -- Where each turn leaves quiche with less to report, the loops of `poll_conn_stat_events` over the
  -- path events, the readable and the writable streams end with nothing left to report of their kind.
  pub event_loops_end :
      (s : QuicConnState Q)
      → (Q.path_event_next (path_events Q (Q.path_events_left s.quiche_conn) s.quiche_conn) ≡ none)
        × (Q.stream_readable_next (gather s).1.quiche_conn ≡ none)
        × (Q.stream_writable_next (gather_writable s).1.quiche_conn ≡ none)
  unfolding gather gather_writable
  event_loops_end s =
      let c = path_events Q (Q.path_events_left s.quiche_conn) s.quiche_conn in
      (
        path_events_end (Q.path_events_left s.quiche_conn) s.quiche_conn (omega arith),
        readable_ids_end (Q.readable_left c) [] c (omega arith),
        writable_ids_end (Q.writable_left s.quiche_conn) s.quiche_conn (omega arith),
      )

  -- The last read of a closing stream, which gave the answer of the loop.
  abbrev Ended : ℕ → Bool × Q.Connection → Type 0
  Ended id p =
      (c : Q.Connection) × (closing_read (Q.stream_recv id c).0 ≡ some p.0)
      × (p.1 ≡ (Q.stream_recv id c).1)

  closing_read-data :
      (r : QResult (ℕ × Bool)) → closing_read r ≡ none → (n : ℕ) × (r ≡ QResult.ok (n, false))
  unfolding closing_read
  closing_read-data (QResult.ok (n, true)) e = cc
  closing_read-data (QResult.ok (n, false)) e = (n, refl)
  closing_read-data QResult.error_done e = cc
  closing_read-data QResult.error_other e = cc

  closing_loop_ends :
      (fuel id : ℕ) (c : Q.Connection)
      → Q.data_left id c < fuel
      → Ended id (closing_loop Q fuel id c)
  unfolding closing_loop
  closing_loop_ends zero id c h = ground (arith, h)
  closing_loop_ends (suc fuel) id c h =
      let (result, c') = Q.stream_recv id c in
      elim (Option-cases (closing_read result)) [
        | inr (closed, e) ↦ rw (closing_loop, e) (c, e, refl)
        | inl e ↦
            let (n, data') = closing_read-data result e in
            let less = laws.data_falls c c' id n (ap (λ r. (r, c')) data') in
            rw (closing_loop, e) (closing_loop_ends fuel id c' (omega (arith, less, h)))
      ]

  -- Where a read that returns data, but not the end of the stream, leaves less of it, `closing_recv`
  -- ends with a read that finds no more data, an error or the end of the stream, and answers that the
  -- stream is closed in all cases but the first.
  pub closing_recv_ends :
      (id : ℕ) (s : QuicConnState Q)
      → (c : Q.Connection) × (closing_read (Q.stream_recv id c).0 ≡ some (closing_recv id s).0)
        × ((closing_recv id s).1.quiche_conn ≡ (Q.stream_recv id c).1)
  unfolding closing_recv
  closing_recv_ends id s =
      closing_loop_ends (suc (Q.data_left id s.quiche_conn)) id s.quiche_conn (omega arith)
