-- ===== src/Quic/Conn/Opens.antt =====
-- crates/quic/src/conn.rs: the streams that this side opens, and the tasks that wait to open one.
use zorya_rs.Base.{
  ℕ, ◌≡◌, refl, Bool, true, false, List, [], ◌∷◌, some, arith, add_u64, elem, map, ◌||◌, ◌++◌,
}
use zorya_rs.Io.{ok, pending}
use zorya_rs.Quic.Quiche.{Quiche, QResult}
use zorya_rs.Quic.Conn.{taken, QuicConnState, new, is_local, is_bidi, finalize_events}
use zorya_rs.Quic.Conn.Calls.{poll_stream_open, open_next, opened}

-- A bidirectional stream that this side opens.
abbrev pub IsOwn : Bool → ℕ → Type 0
IsOwn is_server id = (is_local id is_server ≡ true) × (is_bidi id ≡ true)

add_u64-IsOwn : (b : Bool) (id : ℕ) → IsOwn b id → IsOwn b (add_u64 id 4)
unfolding is_local is_bidi
add_u64-IsOwn true id h = (ground arith, ground arith)
add_u64-IsOwn false id h = (ground arith, ground arith)

new-IsOwn :
    (Q : Quiche) (c : Q.Connection) → IsOwn (Q.is_server c) (new Q c).outbound_bidi_stream_id_next
unfolding new is_local is_bidi
new-IsOwn Q c = (ground arith, ground arith)

pub opened-ok : (id j : ℕ) (r : QResult (Unit {0})) → opened id r ≡ ok j → j ≡ id
unfolding opened
opened-ok id j (QResult.ok _) e = cc
opened-ok id j QResult.error_done e = cc
opened-ok id j QResult.error_other e = cc

elem-append : (k : ℕ) (xs ys : List ℕ) → elem k (xs ++ ys) ≡ (elem k xs || elem k ys)
elem-append k [] ys = refl
elem-append k (x ∷ xs) ys = ground (arith, elem-append k xs ys)

module _ {Q : Quiche} where
  -- A stream that `try_open` or `poll_stream_open` returned has the next id; where that is an id of
  -- this side, so is the one after it, and the two differ by 4 as long as 64 bits hold them.
  pub open_next-IsOwn :
      (b : Bool) (id : ℕ) (s : QuicConnState Q)
      → IsOwn b s.outbound_bidi_stream_id_next
      → (open_next s).0 ≡ ok id
      → IsOwn b id
        × IsOwn b (open_next s).1.outbound_bidi_stream_id_next
        × ((open_next s).1.outbound_bidi_stream_id_next ≡ add_u64 id 4)
  unfolding open_next
  open_next-IsOwn b id s own e =
      let same = opened-ok s.outbound_bidi_stream_id_next id _ e in
      (rw same own, add_u64-IsOwn b s.outbound_bidi_stream_id_next own, rw same refl)

  -- The task waits to accept, to read or to write.
  abbrev pub waits : ℕ → QuicConnState Q → Bool
  waits w s =
      elem w (taken s.fifo_waker)
      || (elem w (map (λ e. e.1) s.stream_readable_wakers)
          || elem w (map (λ e. e.1) s.stream_writable_wakers))

  -- A task that got `Pending` from `poll_stream_open` is registered as the one that waits to open a
  -- stream. `finalize_events`, which runs once the connection is closed, wakes exactly the tasks that
  -- wait to accept, to read or to write, and none waits for these any more; the task that waits to
  -- open stays registered.
  pub opener_stays :
      (cx w : ℕ) (s : QuicConnState Q)
      → (poll_stream_open cx s).answer ≡ pending
      → let (woken, s') = finalize_events (poll_stream_open cx s).state in
        (elem w woken ≡ waits w s) × (waits w s' ≡ false) × (s'.open_stream_waker ≡ some cx)
  unfolding poll_stream_open finalize_events open_next
  opener_stays cx w s e =
      let woken =
        elem-append w (taken s.fifo_waker)
          (map (λ e. e.1) s.stream_readable_wakers ++ map (λ e. e.1) s.stream_writable_wakers) in
      let rest =
        elem-append w (map (λ e. e.1) s.stream_readable_wakers)
          (map (λ e. e.1) s.stream_writable_wakers) in
      (ground (arith, woken, rest), refl, ground (arith, e))
