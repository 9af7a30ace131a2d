-- ===== src/Cli/Runs.antt =====
-- crates/agent/src/bin/n3agent.rs and crates/n3/src/bin/n3.rs: from the command line to the connector of the
-- agent and to the listener of N3. `I` is `IpAddr`, and `socket_addr` is `SocketAddr::new`.
use zorya_rs.Base.{ℕ, Bool, List, [], ◌∷◌, map, Option, Outcome, done, ◌>>=◌, is_some}
use zorya_rs.Io.{invalid_input, IoResult, ok, err}
use zorya_rs.Quic.Client.{QuicConnectConfig, new_connector, quiche_config_by}
use zorya_rs.Quic.Server.Config
use zorya_rs.Cli.{PortRange, ports}
use zorya_rs.Cli.Options.{ConfigApi, Limits, agent_config, n3_config}

-- The command line of the agent.
pub record AgentCli (I : Type 0) : Type 0 where
  pub protos : List (List ℕ)
  pub n3_ip : I
  pub n3_port_range : PortRange
  pub cert : Option (Option (List ℕ))
  pub key : Option (List ℕ)
  pub limits : Limits

-- The command line of N3, but for its addresses.
pub record N3Cli : Type 0 where
  pub protos : List (List ℕ)
  pub cert : Option (List ℕ)
  pub key : Option (List ℕ)
  pub verify_peer : Option (Option (List ℕ))
  pub limits : Limits

module _ {I : Type 0} (socket_addr : I → ℕ → ℕ) where
  -- `parse_n3_addrs`
  unfoldable pub parse_n3_addrs : AgentCli I → List ℕ
  unfolding ports
  parse_n3_addrs cli = map (socket_addr cli.n3_ip) (ports cli.n3_port_range)

module _ {C : Type 0} (api : ConfigApi C) where
  unfoldable pub configure : {I : Type 0} → AgentCli I → C → Outcome (IoResult C)
  unfolding agent_config
  configure cli = agent_config api cli.limits cli.cert cli.key cli.protos

  unfoldable pub connector_for :
      {I : Type 0}
      → AgentCli I
      → IoResult C
      → List ℕ
      → Outcome (IoResult (IoResult (QuicConnectConfig C)))
  unfolding configure quiche_config_by new_connector
  connector_for cli config [] = done (err invalid_input)
  connector_for cli config (raddr ∷ rest) =
      quiche_config_by (configure cli) (new_connector (ok (raddr ∷ rest)) config)
      >>= (λ connector. done (ok connector))

  -- `run_agent`, with the answer of `quiche::Config::new`, up to the connector with which `Agent::bind` is
  -- called: an error in its configuration is kept in it.
  unfoldable pub run_agent :
      {I : Type 0}
      → (I → ℕ → ℕ)
      → AgentCli I
      → IoResult C
      → Outcome (IoResult (IoResult (QuicConnectConfig C)))
  unfolding connector_for parse_n3_addrs
  run_agent socket_addr cli config = connector_for cli config (parse_n3_addrs socket_addr cli)

  -- `run_static_redirect`, up to the server with which `N3::bind` is called; `set` is
  -- `quiche::Config::verify_peer`.
  unfoldable pub run_static_redirect :
      {V : Type 0}
      → (Bool → C → C)
      → N3Cli
      → IoResult C
      → Outcome (IoResult (Config.QuicServerConfig C V))
  unfolding n3_config Config.new_server Config.verify_peer Config.quiche_config
  run_static_redirect set cli config = Config.new_server config >>= (λ server.
      Config.quiche_config (n3_config api cli.limits cli.cert cli.key cli.verify_peer cli.protos)
        (Config.verify_peer set (is_some cli.verify_peer) server))
