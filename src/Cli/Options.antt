-- ===== src/Cli/Options.antt =====
-- crates/n3/src/bin/n3.rs and crates/agent/src/bin/n3agent.rs: how the two programs configure quiche from
-- their command lines. A path is what `to_str` answers: nothing if it is no UTF-8.
use zorya_rs.Base.{ℕ, List, Option, none, some, Outcome, done, panic, mul_u64}
use zorya_rs.Io.{ErrorKind, not_found, invalid_input, IoResult, ok, err}

-- The methods of `quiche::Config`; those that can fail say so with `none`.
pub record ConfigApi (C : Type 0) : Type 0 where
  pub set_initial_max_data : ℕ → C → C
  pub set_initial_max_stream_data_bidi_local : ℕ → C → C
  pub set_initial_max_stream_data_bidi_remote : ℕ → C → C
  pub set_initial_max_stream_data_uni : ℕ → C → C
  pub set_initial_max_streams_bidi : ℕ → C → C
  pub set_initial_max_streams_uni : ℕ → C → C
  pub set_max_idle_timeout : ℕ → C → C
  pub set_max_ack_delay : ℕ → C → C
  pub set_ack_delay_exponent : ℕ → C → C
  pub load_cert_chain_from_pem_file : List ℕ → C → Option C
  pub load_priv_key_from_pem_file : List ℕ → C → Option C
  pub load_verify_locations_from_file : List ℕ → C → Option C
  pub set_application_protos : List (List ℕ) → C → Option C

-- The options of both programs that are numbers.
pub record Limits : Type 0 where
  pub initial_max_stream_data : ℕ
  pub initial_max_streams : ℕ
  pub max_idle_timeout : ℕ
  pub max_ack_delay : ℕ
  pub ack_frequency_exponent : ℕ

-- The next step of the configuration, where the last one was well.
abbrev pub and_then :
    {A B : Type 0} → Outcome (IoResult A) → (A → Outcome (IoResult B)) → Outcome (IoResult B)
and_then panic f = panic
and_then (done (err kind)) f = done (err kind)
and_then (done (ok a)) f = f a

abbrev pub or_err : {A : Type 0} → ErrorKind → Option A → IoResult A
or_err kind none = err kind
or_err kind (some a) = ok a

module _ {C : Type 0} where
  -- A file is loaded from a path, which is unwrapped.
  unfoldable pub load_file : (List ℕ → C → Option C) → Option (List ℕ) → C → Outcome (IoResult C)
  load_file load none c = panic
  load_file load (some path) c = done (or_err not_found (load path c))

  unfoldable pub load_if_given :
      (List ℕ → C → Option C) → Option (Option (List ℕ)) → C → Outcome (IoResult C)
  unfolding load_file
  load_if_given load none c = done (ok c)
  load_if_given load (some path) c = load_file load path c

module _ {C : Type 0} (api : ConfigApi C) where
  -- The setters, in the order of the calls; the product wraps as in a release build.
  unfoldable pub limited : Limits → C → C
  limited x c =
      let max_data = x.initial_max_stream_data in
      let streams = x.initial_max_streams in
      let c1 = api.set_initial_max_data (mul_u64 max_data streams) c in
      let c2 = api.set_initial_max_stream_data_bidi_local max_data c1 in
      let c3 = api.set_initial_max_stream_data_bidi_remote max_data c2 in
      let c4 = api.set_initial_max_stream_data_uni max_data c3 in
      let c5 = api.set_initial_max_streams_bidi streams c4 in
      let c6 = api.set_initial_max_streams_uni streams c5 in
      let c7 = api.set_max_idle_timeout x.max_idle_timeout c6 in
      let c8 = api.set_max_ack_delay x.max_ack_delay c7 in
      api.set_ack_delay_exponent x.ack_frequency_exponent c8

  -- The protocols, at the end of both configurations.
  unfoldable pub with_protos : List (List ℕ) → C → Outcome (IoResult C)
  with_protos protos c = done (or_err invalid_input (api.set_application_protos protos c))

  -- The closure of `run_agent`.
  unfoldable pub agent_config :
      Limits
      → (cert : Option (Option (List ℕ))) → (key : Option (List ℕ)) → List (List ℕ)
      → C
      → Outcome (IoResult C)
  unfolding limited load_if_given load_file with_protos
  agent_config x cert key protos c =
      and_then (load_if_given api.load_cert_chain_from_pem_file cert (limited x c))
        (λ c1. and_then (load_file api.load_priv_key_from_pem_file key c1) (with_protos protos))

  -- The closure of `run_static_redirect`.
  unfoldable pub n3_config :
      Limits
      → (cert key : Option (List ℕ)) → (verify_peer : Option (Option (List ℕ))) → List (List ℕ)
      → C
      → Outcome (IoResult C)
  unfolding limited load_if_given load_file with_protos
  n3_config x cert key verify_peer protos c =
      and_then (load_file api.load_cert_chain_from_pem_file cert (limited x c)) (λ c1.
        and_then (load_file api.load_priv_key_from_pem_file key c1) (λ c2.
          and_then (load_if_given api.load_verify_locations_from_file verify_peer c2)
            (with_protos protos)))
