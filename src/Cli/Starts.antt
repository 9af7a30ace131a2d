-- ===== src/Cli/Starts.antt =====
-- crates/agent/src/bin/n3agent.rs and crates/n3/src/bin/n3.rs: what comes of a command line.
use mathlib.Core.List.{Perm, Mem, mem-cons_self}
use mathlib.Core.List.Perm
use zorya_rs.Base.{
  ℕ, suc, zero, ◌≤◌, ◌<◌, ◌≡◌, ◌⊎◌, inl, inr, refl, ap, List, [], ◌∷◌, Option, none, some, arith,
  Outcome, done, panic, ◌>>=◌, map,
}
use zorya_rs.Io.{other, invalid_input, IoResult, ok, err}
use zorya_rs.Quic.Client.{
  QuicConnectConfig, new_connector, new_with_config, quiche_config_by, configured, chosen,
  first_raddr,
}
use zorya_rs.Cli.{ports, ports_from}
use zorya_rs.Cli.Options.{
  ConfigApi, Limits, and_then, agent_config, load_file, load_if_given, with_protos,
}
use zorya_rs.Cli.Runs.{AgentCli, parse_n3_addrs, configure, connector_for, run_agent}

-- A configuration panics only for a path that is no UTF-8.
abbrev NoPath : Option (Option (List ℕ)) → Option (List ℕ) → Type 0
NoPath cert key = (cert ≡ some none) ⊎ (key ≡ none)

module _ {C : Type 0} (api : ConfigApi C) where
  with_protos-total : (protos : List (List ℕ)) (c : C) → ¬ (with_protos api protos c ≡ panic)
  unfolding with_protos
  with_protos-total protos c e = cc

  load_file-panic :
      (load : List ℕ → C → Option C) (path : Option (List ℕ)) (c : C)
      → load_file load path c ≡ panic
      → path ≡ none
  unfolding load_file
  load_file-panic load none c e = refl
  load_file-panic load (some path) c e = cc

  load_if_given-panic :
      (load : List ℕ → C → Option C) (path : Option (Option (List ℕ))) (c : C)
      → load_if_given load path c ≡ panic
      → path ≡ some none
  unfolding load_if_given
  load_if_given-panic load none c e = cc
  load_if_given-panic load (some path) c e = ap some (load_file-panic load path c e)

-- A step panics, or the next one does.
and_then-panic :
    {A B : Type 0} (o : Outcome (IoResult A)) (f : A → Outcome (IoResult B))
    → and_then o f ≡ panic
    → (o ≡ panic) ⊎ ((a : A) × (f a ≡ panic))
and_then-panic panic f e = inl refl
and_then-panic (done (err kind)) f e = cc
and_then-panic (done (ok a)) f e = inr (a, e)

module _ {C : Type 0} (api : ConfigApi C) where
  key_and_protos-panic :
      (key : Option (List ℕ)) (protos : List (List ℕ)) (c : C)
      → and_then (load_file api.load_priv_key_from_pem_file key c) (with_protos api protos) ≡ panic
      → key ≡ none
  key_and_protos-panic key protos c e =
      elim (and_then-panic (load_file api.load_priv_key_from_pem_file key c)
        (with_protos api protos) e) [
          | inl p ↦ load_file-panic api api.load_priv_key_from_pem_file key c p
          | inr (c', q) ↦ elim (with_protos-total api protos c' q) [ ]
        ]

  agent_config-panic :
      (x : Limits) (cert : Option (Option (List ℕ))) (key : Option (List ℕ))
      (protos : List (List ℕ)) (c : C)
      → agent_config api x cert key protos c ≡ panic
      → NoPath cert key
  unfolding agent_config
  agent_config-panic x cert key protos c e =
      let next : C → Outcome (IoResult C) = λ c'.
        and_then (load_file api.load_priv_key_from_pem_file key c') (with_protos api protos) in
      elim (and_then-panic _ next e) [
        | inl p ↦ inl (load_if_given-panic api api.load_cert_chain_from_pem_file cert _ p)
        | inr (c', q) ↦ inr (key_and_protos-panic key protos c' q)
      ]

-- The address that a connector chooses: one of the list, or the error Other exactly where its
-- configuration failed.
abbrev pub Reaches :
    {C : Type 0} → List ℕ → IoResult (QuicConnectConfig C) → Outcome (IoResult ℕ) → Type 0
Reaches addrs (err kind) o = o ≡ done (err other)
Reaches addrs (ok config) o = (raddr : ℕ) × (o ≡ done (ok raddr)) × Mem raddr addrs

first_raddr-Mem :
    (raddr : ℕ) (rest l : List ℕ)
    → Perm (raddr ∷ rest) l
    → (a : ℕ) × (first_raddr l ≡ done (ok a)) × Mem a (raddr ∷ rest)
unfolding first_raddr
first_raddr-Mem raddr rest [] p = elim (cons-nil (Perm.eq-nil p)) [ ]
  where
    cons-nil : ¬ (raddr ∷ rest ≡ [])
    cons-nil e = cc
first_raddr-Mem raddr rest (a ∷ l) p = (a, refl, (Perm.mem_iff p).1 mem-cons_self)

module _ {C : Type 0} (shuffle : List ℕ → List ℕ) (h : (l : List ℕ) → Perm l (shuffle l)) where
  configured-Reaches :
      (config : QuicConnectConfig C) (c : IoResult C) (raddr : ℕ) (rest : List ℕ)
      → config.raddrs ≡ raddr ∷ rest
      → Reaches (raddr ∷ rest) (configured config c) (chosen shuffle (configured config c))
  unfolding chosen configured
  configured-Reaches config (err kind) raddr rest e = refl
  configured-Reaches config (ok c) raddr rest e =
      rw e (first_raddr-Mem raddr rest (shuffle (raddr ∷ rest)) (h (raddr ∷ rest)))

  -- What a start of the agent says of its command line, by what it answers.
  abbrev pub Starts :
      {I : Type 0}
      → (I → ℕ → ℕ)
      → AgentCli I
      → Outcome (IoResult (IoResult (QuicConnectConfig C)))
      → Type 0
  Starts socket_addr cli panic = NoPath cli.cert cli.key
  Starts socket_addr cli (done (err kind)) =
      (kind ≡ invalid_input) × (cli.n3_port_range.end_port ≤ cli.n3_port_range.start)
  Starts socket_addr cli (done (ok connector)) =
      (cli.n3_port_range.start < cli.n3_port_range.end_port)
      × Reaches (parse_n3_addrs socket_addr cli) connector (chosen shuffle connector)

ports_from-nil : (f : ℕ → ℕ) (start n : ℕ) → map f (ports_from start n) ≡ [] → n ≡ 0
unfolding ports_from
ports_from-nil f start zero e = refl
ports_from-nil f start (suc n) e = cc

ports_from-cons :
    (f : ℕ → ℕ) (start n a : ℕ) (rest : List ℕ) → map f (ports_from start n) ≡ a ∷ rest → 0 < n
unfolding ports_from
ports_from-cons f start zero a rest e = cc
ports_from-cons f start (suc n) a rest e = omega arith

module _ {I : Type 0} (socket_addr : I → ℕ → ℕ) (cli : AgentCli I) where
  pub parse_n3_addrs-nil :
      parse_n3_addrs socket_addr cli ≡ [] → cli.n3_port_range.end_port ≤ cli.n3_port_range.start
  unfolding parse_n3_addrs ports
  parse_n3_addrs-nil e = omega (arith, ports_from-nil (socket_addr cli.n3_ip) _ _ e)

  parse_n3_addrs-cons :
      (raddr : ℕ) (rest : List ℕ)
      → parse_n3_addrs socket_addr cli ≡ raddr ∷ rest
      → cli.n3_port_range.start < cli.n3_port_range.end_port
  unfolding parse_n3_addrs ports
  parse_n3_addrs-cons raddr rest e =
      omega (arith, ports_from-cons (socket_addr cli.n3_ip) _ _ raddr rest e)

module _ {C : Type 0} (api : ConfigApi C) (shuffle : List ℕ → List ℕ)
    (h : (l : List ℕ) → Perm l (shuffle l)) {I : Type 0} (socket_addr : I → ℕ → ℕ) where
  configured-Starts :
      (cli : AgentCli I) (config : QuicConnectConfig C) (raddr : ℕ) (rest : List ℕ) (c : C)
      (o : Outcome (IoResult C))
      → parse_n3_addrs socket_addr cli ≡ raddr ∷ rest
      → config.raddrs ≡ raddr ∷ rest
      → configure api cli c ≡ o
      → Starts shuffle h socket_addr cli
          (o >>= (λ c'. done (configured config c')) >>= (λ connector. done (ok connector)))
  unfolding configure
  configured-Starts cli config raddr rest c panic e e' q =
      agent_config-panic api cli.limits cli.cert cli.key cli.protos c q
  configured-Starts cli config raddr rest c (done c') e e' q = (
    parse_n3_addrs-cons socket_addr cli raddr rest e,
    rw e (configured-Reaches shuffle h config c' raddr rest e'),
  )

  connector_for-Starts :
      (cli : AgentCli I) (config : IoResult C) (addrs : List ℕ)
      → parse_n3_addrs socket_addr cli ≡ addrs
      → Starts shuffle h socket_addr cli (connector_for api cli config addrs)
  unfolding connector_for quiche_config_by new_connector new_with_config chosen
  connector_for-Starts cli config [] e = (refl, parse_n3_addrs-nil socket_addr cli e)
  connector_for-Starts cli (err kind) (raddr ∷ rest) e =
      (parse_n3_addrs-cons socket_addr cli raddr rest e, refl)
  connector_for-Starts cli (ok c) (raddr ∷ rest) e =
      configured-Starts cli
        (record { quiche_config = c; server_name = none; raddrs = raddr ∷ rest }) raddr rest c
        (configure api cli c) e refl refl

  -- The agent's start: it answers InvalidInput only for an empty range of ports, and panics only for a
  -- path that is no UTF-8. Otherwise the range has a port, and the connector that `Agent::bind` is given
  -- has, whatever the shuffle, an address to try, which is one of the command line, or, where its
  -- configuration failed, it answers the error Other instead.
  pub run_agent-Starts :
      (cli : AgentCli I) (config : IoResult C)
      → Starts shuffle h socket_addr cli (run_agent api socket_addr cli config)
  unfolding run_agent
  run_agent-Starts cli config =
      connector_for-Starts cli config (parse_n3_addrs socket_addr cli) refl
