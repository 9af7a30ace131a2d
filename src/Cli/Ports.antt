-- ===== src/Cli/Ports.antt =====
-- crates/n3/src/bin/n3.rs, `parse_port_range`: the ranges that come of it.
use zorya_rs.Base.{
  ℕ, ◌<◌, ◌≡◌, ◌⊎◌, refl, inl, inr, List, [], ◌∷◌, Option, none, some, arith, dec_lt,
}
use zorya_rs.Cli.{PortRange, one_port, two_ports, parse_port_range}

one_port_range :
    (o : Option ℕ) (r : PortRange)
    → ((p : ℕ) → o ≡ some p → p < 65536)
    → one_port o ≡ some r
    → (r.start < r.end_port) ⊎ ((r.start ≡ 65535) × (r.end_port ≡ 0))
unfolding one_port
one_port_range none r h e = cc
one_port_range (some p) r h e =
    let small = h p refl in
    elim (dec_lt p 65535) [
      | yes l ↦ inl (ground (arith, e, l))
      | no n ↦ inr (ground (arith, e, n, small), ground (arith, e, n, small))
    ]

two_ports_range : (o o' : Option ℕ) (r : PortRange) → two_ports o o' ≡ some r → r.start < r.end_port
unfolding two_ports
two_ports_range none o' r e = ground (arith, e)
two_ports_range (some p) none r e = ground (arith, e)
two_ports_range (some p) (some q) r e = ground (arith, e)

-- Where parsed ports have 16 bits, a range that `parse_port_range` returns has a port in it, but for the
-- one of the argument `65535`, which ends at 0.
pub parse_port_range_cases :
    {S : Type 0} (parse : S → Option ℕ) (parts : List S) (r : PortRange)
    → ((a : S) (p : ℕ) → parse a ≡ some p → p < 65536)
    → parse_port_range parse parts ≡ some r
    → (r.start < r.end_port) ⊎ ((r.start ≡ 65535) × (r.end_port ≡ 0))
unfolding parse_port_range
parse_port_range_cases parse [] r h e = cc
parse_port_range_cases parse (a ∷ []) r h e = one_port_range (parse a) r (h a) e
parse_port_range_cases parse (a ∷ b ∷ []) r h e = inl (two_ports_range (parse a) (parse b) r e)
parse_port_range_cases parse (a ∷ b ∷ c ∷ rest) r h e = cc
