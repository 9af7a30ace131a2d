-- ===== src/Io/Net/Halves.antt =====
-- crates/n3io/src/net/tcp_stream.rs: flushing and closing a TCP stream, and its two halves.
use zorya_rs.Base.{
  ℕ, ◌≡◌, Bool, true, false, List, [], ◌∷◌, none, if◌then◌else◌, Outcome, done, panic, ◌>>=◌,
  OnDone, OnDone-then, OnDone-at,
}
use zorya_rs.Io.Defs.{IoResult, Poll, ready}
use zorya_rs.Io.Halves.{
  Half, opposite, Halves, split, is_left, release, release-Counted, release_last, Counted,
  split-Counted,
}
use zorya_rs.Io.Reactor.{ReactorImpl, writable, reads, writes, state_at}
use zorya_rs.Io.Reactor.Calls.{Act, acts, deregister}
use zorya_rs.Io.Reactor.PollIo.{Attempt, Tried, poll_io}
use zorya_rs.Io.Reactor.Frame.{drop_token_self}
use zorya_rs.Io.Net.{poll_write, poll_read, drop_stream}

-- `TcpStreamWriter::poll_flush`; `&TcpStream` and `TcpStream` have the same.
unfoldable pub poll_flush :
    ℕ → ℕ → List (Attempt (Unit {0})) → ReactorImpl → Outcome (Tried (Unit {0}))
unfolding poll_io
poll_flush cx token attempts r = poll_io cx token writable attempts r

-- `TcpStreamWriter::poll_close`: mio shuts the socket down in both directions, and the reactor is not told.
unfoldable pub poll_close : IoResult (Unit {0}) → Poll (IoResult (Unit {0}))
poll_close shut = ready shut

-- What is called of the halves, of one that is left, or of the reactor by other threads. A drop has
-- what the registry answers to it.
pub data TcpCall : Type 0 where
  write : ℕ → List (Attempt ℕ) → TcpCall
  flush : ℕ → List (Attempt (Unit {0})) → TcpCall
  close : IoResult (Unit {0}) → TcpCall
  read : ℕ → List (Attempt ℕ) → TcpCall
  drop_half : Half → IoResult (Unit {0}) → TcpCall
  others : List Act → TcpCall

abbrev in_state : Halves ReactorImpl → ReactorImpl → Halves ReactorImpl
in_state h r = record h { state = r }

-- A call that the half that is asked for takes, if it is left.
abbrev asked :
    {T : Type 0} → Bool → Outcome (Tried T) → Halves ReactorImpl → Outcome (Halves ReactorImpl)
asked left tried h = if left then (tried >>= λ t. done (in_state h t.1)) else done h

unfoldable pub half_step : ℕ → TcpCall → Halves ReactorImpl → Outcome (Halves ReactorImpl)
unfolding poll_write poll_flush poll_read drop_stream release acts
half_step token (TcpCall.write cx attempts) h =
    asked h.has_writer (poll_write cx token attempts h.state) h
half_step token (TcpCall.flush cx attempts) h =
    asked h.has_writer (poll_flush cx token attempts h.state) h
half_step token (TcpCall.close shut) h = done h
half_step token (TcpCall.read cx attempts) h =
    asked h.has_reader (poll_read cx token attempts h.state) h
half_step token (TcpCall.drop_half half registry) h =
    done (release (drop_stream registry token) half h)
half_step token (TcpCall.others as') h = acts as' h.state >>= λ r. done (in_state h r)

unfoldable pub half_run : ℕ → List TcpCall → Halves ReactorImpl → Outcome (Halves ReactorImpl)
unfolding half_step
half_run token [] h = done h
half_run token (call ∷ calls) h = half_step token call h >>= half_run token calls

asked-Counted :
    {T : Type 0} (left : Bool) (tried : Outcome (Tried T)) (h : Halves ReactorImpl)
    → Counted h
    → OnDone Counted (asked left tried h)
asked-Counted true (done t) h c = c
asked-Counted true panic h c = tt
asked-Counted false tried h c = c

half_step-Counted :
    (token : ℕ) (call : TcpCall) (h : Halves ReactorImpl)
    → Counted h
    → OnDone Counted (half_step token call h)
unfolding half_step
half_step-Counted token (TcpCall.write cx attempts) h c = asked-Counted h.has_writer _ h c
half_step-Counted token (TcpCall.flush cx attempts) h c = asked-Counted h.has_writer _ h c
half_step-Counted token (TcpCall.close shut) h c = c
half_step-Counted token (TcpCall.read cx attempts) h c = asked-Counted h.has_reader _ h c
half_step-Counted token (TcpCall.drop_half half registry) h c =
    release-Counted (drop_stream registry token) half h c
half_step-Counted token (TcpCall.others as') h c = other_threads (acts as' h.state)
  where
    other_threads : (o : Outcome ReactorImpl) → OnDone Counted (o >>= λ r. done (in_state h r))
    other_threads (done r) = c
    other_threads panic = tt

half_run-Counted :
    (token : ℕ) (calls : List TcpCall) (h : Halves ReactorImpl)
    → Counted h
    → OnDone Counted (half_run token calls h)
unfolding half_run
half_run-Counted token [] h c = c
half_run-Counted token (call ∷ calls) h c =
    OnDone-then Counted Counted (half_step token call h) _ (half_step-Counted token call h c)
      (half_run-Counted token calls)

-- Of a TCP stream that was split, after any calls of its halves and of other threads that end: if one
-- half is left, the stream has not been dropped so far, and it is dropped with that half, once. The
-- reactor has no entry for it then, in either table, whatever the registry answers.
pub tcp_given_up :
    (token : ℕ) (calls : List TcpCall) (half : Half) (registry : IoResult (Unit {0}))
    (r : ReactorImpl) (h : Halves ReactorImpl)
    → half_run token calls (split r) ≡ done h
    → is_left half h ≡ true
    → is_left (opposite half) h ≡ false
    → let h' = release (drop_stream registry token) half h in
      (h.drops ≡ 0)
      × (h'.drops ≡ 1)
      × (state_at reads token h'.state ≡ none)
      × (state_at writes token h'.state ≡ none)
unfolding drop_stream deregister
tcp_given_up token calls half registry r h e left gone =
    let counted =
      OnDone-at Counted (half_run token calls (split r)) h
        (half_run-Counted token calls (split r) (split-Counted r)) e in
    let (once, drops, state) = release_last (drop_stream registry token) half h counted left gone in
    (
      once,
      drops,
      rw state (drop_token_self reads token h.state),
      rw state (drop_token_self writes token h.state),
    )
