-- ===== src/Quic/Conn/Halves.antt =====
-- crates/quic/src/conn.rs: `QuicStream` as `AsyncRead` and `AsyncWrite`, and its two halves. The halves share
-- the stream by an `Arc`: the stream is dropped with the last of them.
use zorya_rs.Base.{
  ℕ, ◌≡◌, ◌⊎◌, refl, inl, inr, true, false, List, [], ◌∷◌, none, some, if◌then◌else◌, arith,
  Bool-cases,
}
use zorya_rs.Base.Maps.{lookup, insert, remove, lookup_head, nat_key}
use zorya_rs.Io.Halves.{
  Half, opposite, Halves, split, is_left, release, release-Counted, release_last, Counted,
  split-Counted,
}
use zorya_rs.Io.{IoResult, ok, err, Poll, ready, pending}
use zorya_rs.Quic.Quiche.{Quiche}
use zorya_rs.Quic.Conn.{QuicConnState}
use zorya_rs.Quic.Conn.Calls.{Reply, close_stream, poll_stream_write, poll_stream_read}
use zorya_rs.Quic.Conn.Accepts.{Call, step}

-- `map_ok`
abbrev map_ok : {A B : Type 0} → (A → B) → Poll (IoResult A) → Poll (IoResult B)
map_ok f pending = pending
map_ok f (ready (err kind)) = ready (err kind)
map_ok f (ready (ok a)) = ready (ok (f a))

module _ {Q : Quiche} where
  abbrev answering :
      {A B : Type 0} → (A → B) → Reply Q (Poll (IoResult A)) → Reply Q (Poll (IoResult B))
  answering f reply = record {
    answer = map_ok f reply.answer;
    woken = reply.woken;
    state = reply.state;
  }

  -- `poll_write`
  unfoldable pub poll_write : ℕ → ℕ → List ℕ → QuicConnState Q → Reply Q (Poll (IoResult ℕ))
  unfolding poll_stream_write
  poll_write cx id buf s = poll_stream_write cx id buf false s

  -- `poll_flush`
  unfoldable pub poll_flush : QuicConnState Q → Reply Q (Poll (IoResult (Unit {0})))
  poll_flush s = record { answer = ready (ok tt); woken = []; state = s }

  -- `poll_close`
  unfoldable pub poll_close : ℕ → ℕ → QuicConnState Q → Reply Q (Poll (IoResult (Unit {0})))
  unfolding poll_stream_write
  poll_close cx id s = answering (λ n. tt) (poll_stream_write cx id [] true s)

  -- `poll_read`
  unfoldable pub poll_read : ℕ → ℕ → QuicConnState Q → Reply Q (Poll (IoResult ℕ))
  unfolding poll_stream_read
  poll_read cx id s = answering (λ p. p.0) (poll_stream_read cx id s)

-- What is called of the halves, of one that is left, or of the connection.
pub data HalfCall : Type 0 where
  write : ℕ → List ℕ → HalfCall
  flush : HalfCall
  close_half : ℕ → HalfCall
  read_half : ℕ → HalfCall
  drop_half : Half → ℕ → HalfCall
  of_conn : Call → HalfCall

module _ {Q : Quiche} where
  -- `QuicStream::drop`
  unfoldable pub drop_stream : ℕ → ℕ → QuicConnState Q → QuicConnState Q
  unfolding close_stream
  drop_stream now id s = (close_stream now id s).state

  abbrev in_state : Halves (QuicConnState Q) → QuicConnState Q → Halves (QuicConnState Q)
  in_state h s = record h { state = s }

  unfoldable pub half_step : ℕ → HalfCall → Halves (QuicConnState Q) → Halves (QuicConnState Q)
  unfolding poll_write poll_flush poll_close poll_read drop_stream release step
  half_step id (HalfCall.write cx buf) h =
      if h.has_writer then in_state h (poll_write cx id buf h.state).state else h
  half_step id HalfCall.flush h = if h.has_writer then in_state h (poll_flush h.state).state else h
  half_step id (HalfCall.close_half cx) h =
      if h.has_writer then in_state h (poll_close cx id h.state).state else h
  half_step id (HalfCall.read_half cx) h =
      if h.has_reader then in_state h (poll_read cx id h.state).state else h
  half_step id (HalfCall.drop_half half now) h = release (drop_stream now id) half h
  half_step id (HalfCall.of_conn call) h = in_state h (step call h.state).1

  unfoldable pub half_run : ℕ → List HalfCall → Halves (QuicConnState Q) → Halves (QuicConnState Q)
  unfolding half_step
  half_run id [] h = h
  half_run id (call ∷ calls) h = half_run id calls (half_step id call h)

  half_step-Counted :
      (id : ℕ) (call : HalfCall) (h : Halves (QuicConnState Q))
      → Counted h
      → Counted (half_step id call h)
  unfolding half_step
  half_step-Counted id (HalfCall.write cx buf) h c = ground arith
  half_step-Counted id HalfCall.flush h c = ground arith
  half_step-Counted id (HalfCall.close_half cx) h c = ground arith
  half_step-Counted id (HalfCall.read_half cx) h c = ground arith
  half_step-Counted id (HalfCall.drop_half half now) h c =
      release-Counted (drop_stream now id) half h c
  half_step-Counted id (HalfCall.of_conn call) h c = c

  half_run-Counted :
      (id : ℕ) (calls : List HalfCall) (h : Halves (QuicConnState Q))
      → Counted h
      → Counted (half_run id calls h)
  unfolding half_run
  half_run-Counted id [] h c = c
  half_run-Counted id (call ∷ calls) h c =
      half_run-Counted id calls (half_step id call h) (half_step-Counted id call h c)

  -- The connection, once the end of the stream is sent.
  abbrev pub ended : ℕ → QuicConnState Q → Quiche.Connection Q
  ended id s = (Quiche.stream_send Q id [] true s.quiche_conn).1

  close_stream_remembers :
      (now id : ℕ) (s : QuicConnState Q)
      → Quiche.is_closed Q s.quiche_conn ≡ false
      → ((Quiche.stream_finished Q id (ended id s) ≡ true)
          ⊎ (lookup id (close_stream now id s).state.closing_stream_set ≡ some now))
        × ((close_stream now id s).state.send_waker ≡ none)
  unfolding close_stream insert
  close_stream_remembers now id s is_open = (
    elim (Bool-cases (Quiche.stream_finished Q id (ended id s))) [
      | inl done ↦ inl done
      | inr open_end ↦
          inr (rw (is_open, open_end) (lookup_head id id now (remove id s.closing_stream_set) refl))
    ],
    rw is_open,
  )

  -- Of a stream that was split, after any calls of its halves and of its connection: if one half is left
  -- and the connection is not closed, the stream has not been dropped so far, and it is dropped with that
  -- half, once. No waker of the sending task stays registered then, and quiche
  -- either has finished the stream or it is on the list of closing streams, at this instant.
  pub stream_given_up :
      (id : ℕ) (calls : List HalfCall) (half : Half) (now : ℕ) (s : QuicConnState Q)
      → let h = half_run id calls (split s) in
        is_left half h ≡ true
        → is_left (opposite half) h ≡ false
        → Quiche.is_closed Q h.state.quiche_conn ≡ false
        → let h' = half_step id (HalfCall.drop_half half now) h in
          (h.drops ≡ 0)
          × (h'.drops ≡ 1)
          × (h'.state.send_waker ≡ none)
          × ((Quiche.stream_finished Q id (ended id h.state) ≡ true)
              ⊎ (lookup id h'.state.closing_stream_set ≡ some now))
  unfolding half_step split drop_stream
  stream_given_up id calls half now s left gone is_open =
      let h = half_run id calls (split s) in
      let (once, drops, state) =
        release_last (drop_stream now id) half h
          (half_run-Counted id calls (split s) (split-Counted s)) left gone in
      rw state (
        let (given, waker) = close_stream_remembers now id h.state is_open in
        (once, drops, waker, given))
