-- ===== src/Io/Net/Tests.antt =====
-- TCP sockets at concrete inputs.
use zorya_rs.Base.{ℕ, ◌≡◌, refl, inl, List, [], ◌∷◌, none, some, done, ℕ_discrete}
use zorya_rs.Base.Maps.{insert, remove, lookup}
use zorya_rs.Io.Defs.{not_connected, other, ok}
use zorya_rs.Io.Reactor.{IoState, ReactorImpl, impl_new}
use zorya_rs.Io.Reactor.Calls.{acts, register, register_with}
use zorya_rs.Io.Reactor.PollIo.{poll_io}
use zorya_rs.Io.Await.{Awaited, await_io, polled}
use zorya_rs.Io.Net.{
  both, failed, peer_connected, poll_connected, attempts_of, Waiting, turns_of, connected_stream,
  registered, connect_with,
}
use zorya_rs.Io.Net.Connect.{connect_refused}

no_sockets : ReactorImpl
unfolding impl_new
no_sockets = impl_new 0 20_000_000

-- The peer has refused; `take_error` says so once, and the socket is not connected then.
abbrev refused : List Waiting
refused =
    record {
      before = [];
      cx = 9;
      looks =
          record { take_error = ok (some other); peer_addr = failed not_connected; meanwhile = [] }
          ∷ [];
    }
    ∷ []

connecting : ReactorImpl
unfolding no_sockets
connecting = record no_sockets {
  token_gen = 1;
  io_readable_stats = (0, IoState.none) ∷ [];
  io_writable_stats = (0, IoState.waker 9) ∷ [];
}

connect_runs : connect_with (ok tt) (ok tt) refused no_sockets ≡ done (none, connecting)
unfolding no_sockets connecting connect_with registered register register_with await_io acts poll_io
    polled connected_stream turns_of attempts_of poll_connected peer_connected insert remove lookup
    ℕ_discrete
connect_runs = refl

abbrev waiting : Awaited ℕ
waiting = (none, connecting)

registered_at : ReactorImpl
unfolding no_sockets
registered_at = record no_sockets {
  token_gen = 1;
  io_readable_stats = (0, IoState.none) ∷ [];
  io_writable_stats = (0, IoState.none) ∷ [];
}

register_runs : register (ok tt) both no_sockets ≡ some (ok 0, registered_at)
unfolding no_sockets registered_at register register_with insert remove lookup ℕ_discrete
register_runs = refl

connect_refused_example : waiting.0 ≡ none
connect_refused_example =
    connect_refused refused no_sockets registered_at 0 waiting register_runs
      ((((some other, refl), inl refl), tt), tt) ((tt, (tt, tt)), tt) connect_runs
