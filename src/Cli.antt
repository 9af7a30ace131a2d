-- ===== src/Cli.antt =====
-- crates/n3/src/bin/n3.rs and crates/agent/src/bin/n3agent.rs: the ports on the command line. The parts
-- of an argument between its colons are strings; `parse::<u16>` is a parameter. Ports are u16, whose
-- addition wraps as in a release build.
pub mod Ports
pub mod Options
pub mod Runs
pub mod Starts
pub mod Keys
pub mod Mains
pub mod Intervals
mod Tests
use zorya_rs.Base.{
  ◌^◌, ℕ, suc, zero, ◌+◌, ◌-◌, ◌%◌, List, [], ◌∷◌, ◌++◌, map, Option, none, some, ltb,
  if◌then◌else◌,
}

-- `Range<u16>`
pub record PortRange : Type 0 where
  pub start : ℕ
  pub end_port : ℕ

pub one_port : Option ℕ → Option PortRange
one_port none = none
one_port (some port) = some (record { start = port; end_port = (port + 1) % 2 ^ 16 })

pub two_ports : Option ℕ → Option ℕ → Option PortRange
two_ports none to = none
two_ports (some from) none = none
two_ports (some from) (some to) =
    if ltb from to then some (record { start = from; end_port = to }) else none

-- `parse_port_range`; the text of an error is left out.
unfoldable pub parse_port_range : {S : Type 0} → (S → Option ℕ) → List S → Option PortRange
unfolding one_port two_ports
parse_port_range parse [] = none
parse_port_range parse (a ∷ []) = one_port (parse a)
parse_port_range parse (a ∷ b ∷ []) = two_ports (parse a) (parse b)
parse_port_range parse (a ∷ b ∷ c ∷ rest) = none

-- The ports of a range, in the order of its iterator.
pub ports_from : ℕ → ℕ → List ℕ
ports_from start zero = []
ports_from start (suc n) = start ∷ ports_from (suc start) n

pub ports : PortRange → List ℕ
unfolding ports_from
ports r = ports_from r.start (r.end_port - r.start)

laddrs_of : {I : Type 0} → List I → List ℕ → List (I × ℕ)
laddrs_of interfaces [] = []
laddrs_of interfaces (port ∷ rest) = map (λ ip. (ip, port)) interfaces ++ laddrs_of interfaces rest

-- `parse_laddrs`, over the interfaces, or the unspecified address where none is given.
unfoldable pub parse_laddrs : {I : Type 0} → I → Option (List I) → PortRange → List (I × ℕ)
unfolding laddrs_of ports
parse_laddrs unspecified (some interfaces) r = laddrs_of interfaces (ports r)
parse_laddrs unspecified none r = laddrs_of (unspecified ∷ []) (ports r)
