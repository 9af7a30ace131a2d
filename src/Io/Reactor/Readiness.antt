-- ===== src/Io/Reactor/Readiness.antt =====
-- crates/n3io/src/reactor.rs: between the event loop and `poll_io` no readiness is lost.
use zorya_rs.Base.{
  ℕ, Bool, true, false, ◌||◌, ◌≡◌, ◌⊎◌, refl, subst, inl, inr, ◌∷◌, Option, none, some, Outcome,
  done, panic, ◌>>=◌, arith, ℕ_discrete,
}
use mathlib.Core.Logic.{ite}
use zorya_rs.Base.Maps.{lookup-insert, nat_key}
use zorya_rs.Io.Reactor.{
  IoState, ReactorImpl, Direction, reads, writes, state_at, put, Event, raise, raise_at, io_event,
  wake,
}

-- A write through a guard changes the one entry of the one table.
pub state_at-put :
    (d : Direction) (io j : ℕ) (s : IoState) (r : ReactorImpl)
    → state_at d j (put d io s r) ≡ ite (ℕ_discrete io j) (some s) (state_at d j r)
unfolding put
state_at-put reads io j s r = lookup-insert io j s r.io_readable_stats
state_at-put writes io j s r = lookup-insert io j s r.io_writable_stats

pub state_at-put_self :
    (d : Direction) (io : ℕ) (s : IoState) (r : ReactorImpl) → state_at d io (put d io s r) ≡ some s
state_at-put_self d io s r = ground (arith, state_at-put d io io s r)

-- A task that waits on the io is woken by an event of its direction, and the io is then ready.
pub raise_wakes :
    (d : Direction) (io w : ℕ) (r : ReactorImpl)
    → state_at d io r ≡ some (IoState.waker w)
    → (r' : ReactorImpl) × (raise d true io r ≡ done r')
      × (state_at d io r' ≡ some IoState.ready)
      × (r'.woken ≡ w ∷ r.woken)
unfolding raise put
raise_wakes reads io w r e = (
  put reads io IoState.ready (wake w r),
  rw e refl,
  state_at-put_self reads io IoState.ready (wake w r),
  refl,
)
raise_wakes writes io w r e = (
  put writes io IoState.ready (wake w r),
  rw e refl,
  state_at-put_self writes io IoState.ready (wake w r),
  refl,
)

-- A write to one entry of one table leaves every entry as it was, or that of `io` as written.
pub put_frame :
    (d d' : Direction) (io j : ℕ) (s : IoState) (r : ReactorImpl)
    → (state_at d io (put d' j s r) ≡ state_at d io r)
      ⊎ ((j ≡ io) × (state_at d' io r ≡ state_at d io r) × (state_at d io (put d' j s r) ≡ some s))
unfolding put
put_frame reads reads io j s r = ground (arith, lookup-insert j io s r.io_readable_stats)
put_frame reads writes io j s r = inl refl
put_frame writes reads io j s r = inl refl
put_frame writes writes io j s r = ground (arith, lookup-insert j io s r.io_writable_stats)

-- An io that an event finds ready, or without a waiting task.
abbrev pub IsOpen : Direction → ℕ → ReactorImpl → Type 0
IsOpen d io r = (state_at d io r ≡ some IoState.none) ⊎ (state_at d io r ≡ some IoState.ready)

-- Its state is kept, or becomes ready.
abbrev pub Kept : Direction → ℕ → ReactorImpl → ReactorImpl → Type 0
Kept d io r r' = (state_at d io r' ≡ state_at d io r) ⊎ (state_at d io r' ≡ some IoState.ready)

put_ready-Kept :
    (d d' : Direction) (io j : ℕ) (r : ReactorImpl) → Kept d io r (put d' j IoState.ready r)
put_ready-Kept d d' io j r = elim (put_frame d d' io j IoState.ready r) [
  | inl same ↦ inl same
  | inr (_, _, e) ↦ inr e
]

wake-Kept :
    (d d' : Direction) (io j w : ℕ) (r : ReactorImpl)
    → Kept d io r (put d' j IoState.ready (wake w r))
wake-Kept reads d' io j w r = put_ready-Kept reads d' io j (wake w r)
wake-Kept writes d' io j w r = put_ready-Kept writes d' io j (wake w r)

raise_at-Kept :
    (d d' : Direction) (io j : ℕ) (o : Option IoState) (r r' : ReactorImpl)
    → raise_at d' j o r ≡ done r'
    → Kept d io r r'
unfolding raise_at
raise_at-Kept d d' io j none r r' e = inl (ground arith)
raise_at-Kept d d' io j (some (IoState.waker w)) r r' e =
    let e' : put d' j IoState.ready (wake w r) ≡ r' = cc in
    subst (Kept d io r) e' (wake-Kept d d' io j w r)
raise_at-Kept d d' io j (some IoState.none) r r' e =
    let e' : put d' j IoState.ready r ≡ r' = cc in
    subst (Kept d io r) e' (put_ready-Kept d d' io j r)
raise_at-Kept d d' io j (some IoState.shutdown) r r' e = inl (ground arith)
raise_at-Kept d d' io j (some IoState.ready) r r' e = inl (ground arith)
raise_at-Kept d d' io j (some _) r r' e = cc

pub raise-Kept :
    (d d' : Direction) (io j : ℕ) (b : Bool) (r r' : ReactorImpl)
    → raise d' b j r ≡ done r'
    → Kept d io r r'
unfolding raise
raise-Kept d d' io j true r r' e = raise_at-Kept d d' io j (state_at d' j r) r r' e
raise-Kept d d' io j false r r' e = inl (ground arith)

pub Kept-trans :
    (d : Direction) (io : ℕ) (r r' r'' : ReactorImpl)
    → Kept d io r r'
    → Kept d io r' r''
    → Kept d io r r''
Kept-trans d io r r' r'' h k = ground arith

-- Splits a chain of two calls that runs to its end.
pub >>=-eq-done {ℓ κ} :
    {A : Type ℓ} {B : Type κ} (m : Outcome A) (f : A → Outcome B) {b : B}
    → (m >>= f) ≡ done b
    → (a : A) × (m ≡ done a) × (f a ≡ done b)
>>=-eq-done (done a) f h = (a, refl, h)
>>=-eq-done panic f h = cc

pub io_event-Kept :
    (d : Direction) (io : ℕ) (e : Event) (r r' : ReactorImpl)
    → io_event e r ≡ done r'
    → Kept d io r r'
unfolding io_event
io_event-Kept d io e r r' h =
    let (q, first, second) =
      >>=-eq-done (raise reads (e.is_read_closed || e.is_readable) e.token r) _ h in
    Kept-trans d io r q r' (raise-Kept d reads io e.token _ r q first)
      (raise-Kept d writes io e.token _ q r' second)
