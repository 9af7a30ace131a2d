-- ===== src/Io/Reactor/State.antt =====
-- crates/n3io/src/reactor.rs: the states of one direction of an io, or of a timer. A waker is the
-- number of its task.
use Prim.Native.Nat.{ℕ}

pub data IoState : Type 0 where
  timeout : IoState
  deadline : ℕ → IoState
  timer : ℕ → IoState
  waker : ℕ → IoState
  ready : IoState
  none : IoState
  shutdown : IoState
