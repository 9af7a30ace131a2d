-- ===== src/Io/Net/Udp/Tests.antt =====
-- Groups of UDP sockets at concrete inputs.
use zorya_rs.Base.{ℕ, refl, List, [], ◌∷◌, ℕ_discrete}
use zorya_rs.Base.Maps.{lookup}
use zorya_rs.Io.Defs.{ok}
use zorya_rs.Io.Reactor.{ReactorImpl, impl_new}
use zorya_rs.Io.Net.Udp.{UdpGroup, UdpGroupRecvFrom, Binding, Completed, recv}
use zorya_rs.Io.Net.Udp.Routes.{Receives, recv-Receives}

no_sockets : ReactorImpl
unfolding impl_new
no_sockets = impl_new 0 20_000_000

abbrev bound_to : ℕ → Binding
bound_to addr = record { socket = ok tt; registry = ok tt; local_addr = ok addr }

abbrev two_addrs : List Binding
two_addrs = bound_to 80 ∷ bound_to 90 ∷ []

abbrev members : List UdpGroupRecvFrom
members = record { addr = 80; socket = 0 } ∷ record { addr = 90; socket = 1 } ∷ []

abbrev group : UdpGroup
group = record { sender = (90, 1) ∷ (80, 0) ∷ []; receiver = members }

abbrev arrives : Completed
arrives = record { index = 0; answer = ok (1200, 7) }

-- A datagram arrives at the first socket.
recv-Receives_example :
    Receives group.sender 1350 arrives.answer members (recv 1350 arrives members)
unfolding lookup ℕ_discrete
recv-Receives_example = recv-Receives group.sender 1350 arrives members (refl, (refl, tt))
