-- ===== src/Io/Net/Udp/Routes.antt =====
-- crates/n3io/src/net/udp.rs: the sockets of a group, from its binding through every received datagram.
use mathlib.Core.List.{Perm, perm_append_singleton}
use mathlib.Core.List.Perm
use zorya_rs.Base.{
  ℕ, zero, suc, ◌≡◌, refl, inl, inr, subst, List, [], ◌∷◌, ◌++◌, Option, none, some, Outcome, done,
  panic, arith, ltb→lt, ◌<◌, ◌⊎◌, All, ◌≤◌, ltb, Bool-cases,
}
use zorya_rs.Base.Maps.{Map, lookup, insert, nat_key, lookup-insert}
use zorya_rs.Io.Defs.{IoResult, ok, err}
use zorya_rs.Io.Reactor.{ReactorImpl}
use zorya_rs.Io.Net.Udp.{
  UdpGroupRecvFrom, UdpGroup, Binding, join, joined, bind_all, bind_group, bind_with, Completed,
  keep, pick, Received, answered, recv,
}

-- The addresses that the bindings get.
abbrev pub addr_of : IoResult ℕ → List ℕ → List ℕ
addr_of (ok a) rest = a ∷ rest
addr_of (err kind) rest = rest

abbrev pub addrs : List Binding → List ℕ
addrs [] = []
addrs (b ∷ bindings) = addr_of b.local_addr (addrs bindings)

abbrev pub Distinct : List ℕ → Type 0
Distinct [] = Unit
Distinct (a ∷ rest) = All (λ c. ¬ (a ≡ c)) rest × Distinct rest

-- Each receiving socket is the one that the sender has for its address.
abbrev pub Routes : Map ℕ ℕ → List UdpGroupRecvFrom → Type 0
Routes sender ms = All (λ m. lookup m.addr sender ≡ some m.socket) ms

-- No receiving socket has one of the addresses to come.
abbrev Apart : List ℕ → List UdpGroupRecvFrom → Type 0
Apart as' ms = All (λ m. All (λ a. ¬ (m.addr ≡ a)) as') ms

Routes-insert :
    (a t : ℕ) (sender : Map ℕ ℕ) (rest : List ℕ) (ms : List UdpGroupRecvFrom)
    → Apart (a ∷ rest) ms
    → Routes sender ms
    → Routes (insert a t sender) (ms ++ record { addr = a; socket = t } ∷ [])
Routes-insert a t sender rest [] h r = (ground (arith, lookup-insert a a t sender), tt)
Routes-insert a t sender rest (m ∷ ms) h r = (
  ground (arith, lookup-insert a m.addr t sender, h.0.0, r.0),
  Routes-insert a t sender rest ms h.1 r.1,
)

Apart-snoc :
    (a t : ℕ) (rest : List ℕ) (ms : List UdpGroupRecvFrom)
    → Apart (a ∷ rest) ms
    → All (λ c. ¬ (a ≡ c)) rest
    → Apart rest (ms ++ record { addr = a; socket = t } ∷ [])
Apart-snoc a t rest [] h d = (d, tt)
Apart-snoc a t rest (m ∷ ms) h d = (h.0.1, Apart-snoc a t rest ms h.1 d)

-- What a part of the loop leaves.
abbrev Routed : Option (IoResult UdpGroup × ReactorImpl) → Type 0
Routed none = Unit
Routed (some (err kind, r)) = Unit
Routed (some (ok g, r)) = Routes g.sender g.receiver

joined-Routed :
    (laddr : IoResult ℕ) (next : UdpGroup → ReactorImpl → Option (IoResult UdpGroup × ReactorImpl))
    (g : UdpGroup) (o : Option (IoResult ℕ × ReactorImpl)) (rest : List ℕ)
    → Distinct (addr_of laddr rest)
    → Apart (addr_of laddr rest) g.receiver
    → Routes g.sender g.receiver
    → ((g' : UdpGroup) (r : ReactorImpl)
        → Distinct rest
        → Apart rest g'.receiver
        → Routes g'.sender g'.receiver
        → Routed (next g' r))
    → Routed (joined laddr next g o)
unfolding joined join
joined-Routed laddr next g none rest d p s h = tt
joined-Routed laddr next g (some (err kind, r)) rest d p s h = tt
joined-Routed (err kind) next g (some (ok t, r)) rest d p s h = tt
joined-Routed (ok a) next g (some (ok t, r)) rest d p s h =
    h _ r d.1 (Apart-snoc a t rest g.receiver p d.0)
      (Routes-insert a t g.sender rest g.receiver p s)

bind_all-Routed :
    (bindings : List Binding) (g : UdpGroup) (r : ReactorImpl)
    → Distinct (addrs bindings)
    → Apart (addrs bindings) g.receiver
    → Routes g.sender g.receiver
    → Routed (bind_all bindings g r)
unfolding bind_all
bind_all-Routed [] g r d p s = s
bind_all-Routed (b ∷ bindings) g r d p s =
    joined-Routed b.local_addr _ g (bind_with b.socket b.registry r) (addrs bindings) d p s
      (λ g' r' d' p' s'. bind_all-Routed bindings g' r' d' p' s')

-- The sockets of a group that was bound to distinct addresses: the sender has each receiving socket
-- under its address.
pub bind_group-Routes :
    (bindings : List Binding) (r r' : ReactorImpl) (g : UdpGroup)
    → Distinct (addrs bindings)
    → bind_group bindings r ≡ some (ok g, r')
    → Routes g.sender g.receiver
unfolding bind_group
bind_group-Routes bindings r r' g d e =
    subst Routed e (bind_all-Routed bindings (record { sender = []; receiver = [] }) r d tt tt)

-- The picked future in front of the others.
abbrev head_of :
    UdpGroupRecvFrom
    → List UdpGroupRecvFrom
    → Option (UdpGroupRecvFrom × List UdpGroupRecvFrom)
    → List UdpGroupRecvFrom
head_of m ms none = m ∷ ms
head_of m ms (some (n, ns)) = n ∷ ns

keep-Perm :
    (m : UdpGroupRecvFrom) (ms : List UdpGroupRecvFrom)
    (o : Option (UdpGroupRecvFrom × List UdpGroupRecvFrom)) (m' : UdpGroupRecvFrom)
    (rest : List UdpGroupRecvFrom)
    → ((n : UdpGroupRecvFrom) (ns : List UdpGroupRecvFrom) → o ≡ some (n, ns) → Perm ms (n ∷ ns))
    → keep m o ms ≡ some (m', rest)
    → Perm (m ∷ ms) (m' ∷ rest)
unfolding keep
keep-Perm m ms none m' rest h e = subst (λ o. Perm (m ∷ ms) (head_of m ms o)) e (Perm.refl (m ∷ ms))
keep-Perm m ms (some (n, ns)) m' rest h e =
    subst (λ o. Perm (m ∷ ms) (head_of m ms o)) e
      (Perm.trans (Perm.cons m (h n ns refl)) (Perm.swap n m ns))

pick-Perm :
    (i : ℕ) (ms : List UdpGroupRecvFrom) (m : UdpGroupRecvFrom) (rest : List UdpGroupRecvFrom)
    → pick i ms ≡ some (m, rest)
    → Perm ms (m ∷ rest)
unfolding pick
pick-Perm i [] m rest e = cc
pick-Perm zero (n ∷ ns) m rest e =
    subst (λ o. Perm (n ∷ ns) (head_of n ns o)) e (Perm.refl (n ∷ ns))
pick-Perm (suc i) (n ∷ ns) m rest e =
    keep-Perm n ns (pick i ns) m rest (λ k ks f. pick-Perm i ns k ks f) e

-- What holds of every future holds of the picked one and of the others.
abbrev Split : Map ℕ ℕ → Option (UdpGroupRecvFrom × List UdpGroupRecvFrom) → Type 0
Split sender none = Unit
Split sender (some (m, rest)) = (lookup m.addr sender ≡ some m.socket) × Routes sender rest

keep-Split :
    (sender : Map ℕ ℕ) (m : UdpGroupRecvFrom) (ms : List UdpGroupRecvFrom)
    (o : Option (UdpGroupRecvFrom × List UdpGroupRecvFrom))
    → lookup m.addr sender ≡ some m.socket
    → Routes sender ms
    → Split sender o
    → Split sender (keep m o ms)
unfolding keep
keep-Split sender m ms none h r s = (h, r)
keep-Split sender m ms (some (n, ns)) h r s = (s.0, (h, s.1))

pick-Split :
    (sender : Map ℕ ℕ) (i : ℕ) (ms : List UdpGroupRecvFrom)
    → Routes sender ms
    → Split sender (pick i ms)
unfolding pick
pick-Split sender i [] r = tt
pick-Split sender zero (m ∷ ms) r = r
pick-Split sender (suc i) (m ∷ ms) r =
    keep-Split sender m ms (pick i ms) r.0 r.1 (pick-Split sender i ms r.1)

Routes-snoc :
    (sender : Map ℕ ℕ) (m : UdpGroupRecvFrom) (ms : List UdpGroupRecvFrom)
    → lookup m.addr sender ≡ some m.socket
    → Routes sender ms
    → Routes sender (ms ++ m ∷ [])
Routes-snoc sender m [] h r = (h, tt)
Routes-snoc sender m (n ∷ ms) h r = (r.0, Routes-snoc sender m ms h r.1)

-- What a received datagram leaves, and says.
abbrev pub Keeps : Map ℕ ℕ → ℕ → List UdpGroupRecvFrom → Received → List UdpGroupRecvFrom → Type 0
Keeps sender buf_len ms x ms' =
    Perm ms ms'
    × Routes sender ms'
    × ((socket : ℕ) × (lookup x.to sender ≡ some socket))
    × (x.read_size ≤ buf_len)

-- What a call of `recv` leaves and says, for the answer of the future that was found ready.
abbrev pub Receives :
    Map ℕ ℕ
    → ℕ
    → IoResult (ℕ × ℕ)
    → List UdpGroupRecvFrom
    → Outcome (IoResult Received × List UdpGroupRecvFrom)
    → Type 0
Receives sender buf_len answer ms panic =
    (ms ≡ []) ⊎ ((n : ℕ) × (from : ℕ) × (answer ≡ ok (n, from)) × (buf_len < n))
Receives sender buf_len answer ms (done (err kind, ms')) =
    (answer ≡ err kind) × ((m : UdpGroupRecvFrom) × Perm ms (m ∷ ms')) × Routes sender ms'
Receives sender buf_len answer ms (done (ok x, ms')) =
    (answer ≡ ok (x.read_size, x.from)) × Keeps sender buf_len ms x ms'

answered-Receives :
    (sender : Map ℕ ℕ) (buf_len : ℕ) (answer : IoResult (ℕ × ℕ))
    (o : Option (UdpGroupRecvFrom × List UdpGroupRecvFrom)) (ms : List UdpGroupRecvFrom)
    → Split sender o
    → (o ≡ none → ms ≡ [])
    → ((m : UdpGroupRecvFrom) (rest : List UdpGroupRecvFrom)
        → o ≡ some (m, rest)
        → Perm ms (m ∷ rest))
    → Receives sender buf_len answer ms (answered buf_len answer o)
unfolding answered
answered-Receives sender buf_len answer none ms s n p = inl (n refl)
answered-Receives sender buf_len (err kind) (some (m, rest)) ms s n p =
    (refl, (m, p m rest refl), s.1)
answered-Receives sender buf_len (ok (size, from)) (some (m, rest)) ms s n p =
    elim (Bool-cases (ltb buf_len size)) [
      | inl long ↦ rw long (inr (size, from, refl, ltb→lt buf_len size long))
      | inr fits ↦ rw fits (
        refl,
        (
          Perm.trans (p m rest refl) (Perm.symm (perm_append_singleton m rest)),
          Routes-snoc sender m rest s.0 s.1,
          (m.socket, s.0),
          ground (arith, fits),
        ),
      )
    ]

-- A future is found ready, unless there is none.
keep-some :
    (m : UdpGroupRecvFrom) (o : Option (UdpGroupRecvFrom × List UdpGroupRecvFrom))
    (ms : List UdpGroupRecvFrom)
    → ¬ (keep m o ms ≡ none)
unfolding keep
keep-some m none ms e = cc
keep-some m (some x) ms e = cc

pick-none : (i : ℕ) (ms : List UdpGroupRecvFrom) → pick i ms ≡ none → ms ≡ []
unfolding pick
pick-none i [] e = refl
pick-none zero (m ∷ ms) e = cc
pick-none (suc i) (m ∷ ms) e = absurd (keep-some m (pick i ms) ms e)

-- Every call of `recv`, for a group whose sender has each socket under its address. A datagram leaves
-- the group with the sockets that it had, in another order, fits the buffer, and has as its
-- destination an address of the sender, so that an answer can go out from there. An error of a socket
-- is answered, and that socket has left the group. The call panics only for an empty group or a
-- datagram that is longer than the buffer.
pub recv-Receives :
    (sender : Map ℕ ℕ) (buf_len : ℕ) (c : Completed) (ms : List UdpGroupRecvFrom)
    → Routes sender ms
    → Receives sender buf_len c.answer ms (recv buf_len c ms)
unfolding recv
recv-Receives sender buf_len c ms r =
    answered-Receives sender buf_len c.answer (pick c.index ms) ms (pick-Split sender c.index ms r)
      (pick-none c.index ms) (λ m rest f. pick-Perm c.index ms m rest f)

-- What the last theorem says of a received datagram.
pub recv-Keeps :
    (sender : Map ℕ ℕ) (buf_len : ℕ) (c : Completed) (ms ms' : List UdpGroupRecvFrom) (x : Received)
    → Routes sender ms
    → recv buf_len c ms ≡ done (ok x, ms')
    → Keeps sender buf_len ms x ms'
recv-Keeps sender buf_len c ms ms' x r e =
    (subst (Receives sender buf_len c.answer ms) e (recv-Receives sender buf_len c ms r)).1
