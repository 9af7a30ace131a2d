-- ===== src/Cli/Keys.antt =====
-- crates/n3/src/bin/n3.rs and crates/agent/src/bin/n3agent.rs: what the two programs do without their key.
use zorya_rs.Base.{
  ℕ, ◌<◌, arith, ◌≡◌, refl, subst, Bool, List, [], ◌∷◌, Option, none, some, Outcome, done, ◌>>=◌,
  All, is_some, Option-cases, inl, inr,
}
use zorya_rs.Io.{ErrorKind, other, not_found, IoResult, ok, err}
use zorya_rs.Io.Reactor.{ReactorImpl}
use zorya_rs.Io.Net.Udp.{Binding}
use zorya_rs.Quic.Quiche.{Quiche}
use zorya_rs.Quic.Conn.{QuicConnState}
use zorya_rs.Quic.Client.{
  QuicConnectConfig, new_connector, new_with_config, quiche_config_by, configured, chosen, tried,
  connector_connects,
}
use zorya_rs.Quic.Server.Config
use zorya_rs.Quic.Server.Config.{Listening, bind_with}
use zorya_rs.Agent.{TraceId}
use zorya_rs.Agent.Bind.{Arrival, bind_loop}
use zorya_rs.Agent.Refused.{ServesNobody, accept_error, bind_loop-ServesNobody}
use zorya_rs.Cli.Starts.{parse_n3_addrs-nil}
use zorya_rs.Cli.Options.{
  ConfigApi, Limits, agent_config, n3_config, limited, load_file, load_if_given,
}
use zorya_rs.Cli.Runs.{
  AgentCli, N3Cli, parse_n3_addrs, configure, connector_for, run_agent, run_static_redirect,
}

module _ {C : Type 0} (api : ConfigApi C) (path : List ℕ) where
  -- quiche cannot load the key.
  abbrev pub NoKey : Type 0
  NoKey = (c : C) → api.load_priv_key_from_pem_file path c ≡ none

  n3_config-NoKey :
      (x : Limits) (cert : List ℕ) (ca : Option (Option (List ℕ))) (protos : List (List ℕ)) (c : C)
      → NoKey
      → n3_config api x (some cert) (some path) ca protos c ≡ done (err not_found)
  unfolding n3_config load_file
  n3_config-NoKey x cert ca protos c h =
      elim (Option-cases (api.load_cert_chain_from_pem_file cert (limited api x c))) [
        | inl e ↦ rw e refl
        | inr (c', e) ↦ rw (e, h c') refl
      ]

  agent_config-NoKey :
      (x : Limits) (cert : Option (Option (List ℕ))) (protos : List (List ℕ)) (c : C)
      → NoKey
      → ¬ (cert ≡ some none)
      → agent_config api x cert (some path) protos c ≡ done (err not_found)
  unfolding agent_config load_file load_if_given
  agent_config-NoKey x none protos c h n = rw (h (limited api x c)) refl
  agent_config-NoKey x (some none) protos c h n = elim (n refl) [ ]
  agent_config-NoKey x (some (some cert)) protos c h n =
      elim (Option-cases (api.load_cert_chain_from_pem_file cert (limited api x c))) [
        | inl e ↦ rw e refl
        | inr (c', e) ↦ rw (e, h c') refl
      ]

  module _ {V : Type 0} (Q : Quiche) (simple : ℕ → V) (set : Bool → C → C) where
    -- N3 from its command line to its listener.
    abbrev pub n3_binds :
        N3Cli
        → IoResult C
        → List Binding
        → IoResult (Unit {0})
        → ReactorImpl
        → Outcome (Option (IoResult (Listening Q V) × ReactorImpl))
    n3_binds cli config bindings spawn r =
        run_static_redirect api set cli config
        >>= (λ server. done (bind_with Q simple server bindings spawn r))

    n3-NoKey :
        (cli : N3Cli) (cert : List ℕ) (c : C) (bindings : List Binding)
        (spawn : IoResult (Unit {0})) (r : ReactorImpl)
        → NoKey
        → cli.key ≡ some path
        → cli.cert ≡ some cert
        → n3_binds cli (ok c) bindings spawn r ≡ done (some (err not_found, r))
    unfolding run_static_redirect Config.new_server Config.with_quiche_config Config.verify_peer
        Config.quiche_config Config.reconfigured bind_with
    n3-NoKey cli cert c bindings spawn r h k e =
        rw
          (
            k,
            e,
            n3_config-NoKey cli.limits cert cli.verify_peer cli.protos
                (set (is_some cli.verify_peer) c) h,
          )
          refl

  connector_for-NoKey :
      {I : Type 0} (cli : AgentCli I) (c : C) (raddr : ℕ) (rest : List ℕ)
      → NoKey
      → cli.key ≡ some path
      → ¬ (cli.cert ≡ some none)
      → connector_for api cli (ok c) (raddr ∷ rest) ≡ done (ok (err not_found))
  unfolding connector_for configure quiche_config_by new_connector new_with_config configured
  connector_for-NoKey cli c raddr rest h k n =
      rw (k, agent_config-NoKey cli.limits cli.cert cli.protos c h n) refl

  agent_starts :
      {I : Type 0} (cli : AgentCli I) (c : C) (addrs : List ℕ)
      → NoKey
      → cli.key ≡ some path
      → ¬ (cli.cert ≡ some none)
      → ¬ (addrs ≡ [])
      → connector_for api cli (ok c) addrs ≡ done (ok (err not_found))
  agent_starts cli c [] h k n m = absurd (m refl)
  agent_starts cli c (raddr ∷ rest) h k n m = connector_for-NoKey cli c raddr rest h k n

-- The answers of a connector whose configuration failed.
module _ {C : Type 0} {Q : Quiche} (shuffle : List ℕ → List ℕ)
    (attempt : ℕ → Option (IoResult (TraceId × QuicConnState Q))) where
  -- The connector answers what the loop sees in each of its turns.
  abbrev pub Answers : IoResult (QuicConnectConfig C) → List (Arrival Q) → Type 0
  Answers connector = All (λ a. connector_connects shuffle attempt connector ≡ done a.fresh)

  refuses :
      (connector : IoResult (QuicConnectConfig C)) (kind : ErrorKind) (arrivals : List (Arrival Q))
      → connector ≡ err kind
      → Answers connector arrivals
      → All (λ a. a.fresh ≡ some (err other)) arrivals
  unfolding connector_connects chosen tried
  refuses connector kind [] e h = tt
  refuses connector kind (a ∷ arrivals) e h =
      let refused : connector_connects {C = C} shuffle attempt (err kind) ≡ done a.fresh =
        subst (λ x. connector_connects shuffle attempt x ≡ done a.fresh) e h.0 in
      (cc, refuses connector kind arrivals e h.1)

  -- Without a key that quiche can load, the two programs differ. N3 ends with NotFound before it binds
  -- a socket. The agent, where its range of ports is not empty, starts all the same: it keeps the error
  -- in its connector, goes on accepting connections until `accept` fails, and starts no task for any
  -- of them; its pool stays empty.
  pub unloadable_key :
      (api : ConfigApi C) (path : List ℕ) {V : Type 0} (simple : ℕ → V) (set : Bool → C → C)
      (n3 : N3Cli) (cert : List ℕ) {I : Type 0} (socket_addr : I → ℕ → ℕ) (agent : AgentCli I)
      (c : C) (bindings : List Binding) (spawn : IoResult (Unit {0})) (r : ReactorImpl)
      (params : Q.Connection → Option ℕ) (arrivals : List (Arrival Q))
      → NoKey api path
      → n3.key ≡ some path
      → n3.cert ≡ some cert
      → agent.key ≡ some path
      → ¬ (agent.cert ≡ some none)
      → agent.n3_port_range.start < agent.n3_port_range.end_port
      → Answers (err not_found) arrivals
      → (n3_binds api path Q simple set n3 (ok c) bindings spawn r ≡ done (some (err not_found, r)))
        × (run_agent api socket_addr agent (ok c) ≡ done (ok (err not_found)))
        × ServesNobody params other (accept_error arrivals) (bind_loop params arrivals [])
  unfolding run_agent
  unloadable_key api path simple set n3 cert socket_addr agent c bindings spawn r params arrivals h
        k e k' n some_port answers =
      (
        n3-NoKey api path Q simple set n3 cert c bindings spawn r h k e,
        agent_starts api path agent c (parse_n3_addrs socket_addr agent) h k' n (λ none_left.
            let below = parse_n3_addrs-nil socket_addr agent none_left in
            omega (arith, some_port, below)),
        bind_loop-ServesNobody params other arrivals
            (refuses (err not_found) not_found arrivals refl answers),
      )
