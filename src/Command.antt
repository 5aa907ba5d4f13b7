-- ===== src/Command.antt =====
-- cmd/server/main.go: the command's flags, its interceptors and TLS configuration, how it is set up, and
-- what it does on its way out. The operating system, net/http, crypto/tls, casbin and the telemetry SDK
-- are parameters.
pub mod Exit
mod Tests
use text.Mathlib.Text.{◌==◌ as str_eq}
use Prim.Native.String.{String}
use distributed_systems_trai.Base.{
  ℕ, ◌≡◌, Bool, not, ◌&&◌, Option, none, some, List, [], ◌∷◌, ◌++◌, ◌==◌, if◌then◌else◌, Error,
  Result, ok, err,
}
use distributed_systems_trai.Net.Tls.{
  TlsConfig, Paths, zero_config, setup_server_tls, setup_server_tls_config, add_key_pair,
}
use distributed_systems_trai.Otel.{
  Errors, TracerOption, MeterOption, shutdown, setup_otel_sdk, new_trace_provider,
  new_meter_provider, tracer_options, meter_options, shutdown-new_providers,
}

-- The variables that the flags set.
pub record Flags : Type 0 where
  pub crt : String
  pub key : String
  pub ca : String
  pub server_name : String
  pub listen_address : String
  pub acl_model_file : String
  pub acl_policy_file : String

-- A cli.StringFlag: its name, its variable in the environment, its default, and its destination.
pub record Flag : Type 0 where
  pub name : String
  pub env_var : String
  pub value : String
  pub store : String → Flags → Flags

abbrev pub flags : List Flag
flags =
    record {
      name = "listen-address";
      env_var = "LISTEN_ADDRESS";
      value = ":8080";
      store = λ x f. record f { listen_address = x };
    }
    ∷ record { name = "crt"; env_var = "CERT"; value = ""; store = λ x f. record f { crt = x } }
    ∷ record { name = "key"; env_var = "KEY"; value = ""; store = λ x f. record f { key = x } }
    ∷ record { name = "ca"; env_var = "CA"; value = ""; store = λ x f. record f { ca = x } }
    ∷ record {
      name = "server-name";
      env_var = "SERVER_NAME";
      value = "";
      store = λ x f. record f { server_name = x };
    }
    ∷ record {
      name = "acl-model-file";
      env_var = "ACL_MODEL_FILE";
      value = "";
      store = λ x f. record f { acl_model_file = x };
    }
    ∷ record {
      name = "acl-policy-file";
      env_var = "ACL_POLICY_FILE";
      value = "";
      store = λ x f. record f { acl_policy_file = x };
    }
    ∷ []

pub data Interceptor : Type 0 where
  logging access_control telemetry : Interceptor

-- What the command uses. `listen` is tls.Listen, which the documentation says needs a configuration that
-- is not nil and that has a certificate; of the configurations of the code, these are those with
-- certificates. `wait` is the select at the end: what Serve returned, or none for the interruption.
pub record Parts : Type 1 where
  pub World : Type 0
  pub Cert : Type 0
  pub notify_context : World → World
  pub stop_notify : World → World
  pub new_auth : String → String → World → World × Result (Unit {0})
  pub make_tracer : List (TracerOption (Unit {0})) → World → World × (World → World × Errors)
  pub make_meter : List (MeterOption (Unit {0})) → World → World × (World → World × Errors)
  pub new_otel_interceptor : World → World × Result (Unit {0})
  pub load_key_pair : String → String → Result Cert
  pub read_certs : String → Result (List Cert)
  pub listen : String → Option (TlsConfig Cert) → World → World × Result (Unit {0})
  pub wait : List Interceptor → World → World × Option Error
  pub shutdown_server : World → World
  pub close_listener : World → World
  pub listen_nil :
      (address : String) (w : World) → (e : Error) × ((listen address none w).1 ≡ err e)
  pub listen_bare :
      (address : String) (cfg : TlsConfig Cert) (w : World)
      → cfg.certificates ≡ []
      → (e : Error) × ((listen address (some cfg) w).1 ≡ err e)

abbrev is_given : String → Bool
is_given text = not (str_eq text "")

-- defer: what runs when the rest has returned.
unfoldable pub deferring {ℓ κ} : {W : Type ℓ} {A : Type κ} → (W → W) → W × A → W × A
deferring cleanup (w, a) = (cleanup w, a)

module _ (parts : Parts) where
  open parts use {
    World, Cert, notify_context, stop_notify, new_auth, make_tracer, make_meter,
    new_otel_interceptor, load_key_pair, read_certs, listen, wait, shutdown_server, close_listener,
    listen_nil, listen_bare,
  }

  -- The TLS configuration, nil where it cannot be set up.
  unfoldable pub tls_config : Flags → Option (TlsConfig Cert)
  tls_config f =
      let paths : Paths = record {
        crt = f.crt;
        key = f.key;
        ca = f.ca;
        server_name = f.server_name;
      } in
      let (cfg, r) = setup_server_tls load_key_pair read_certs paths (some zero_config) in
      elim r [ err e ↦ none | ok u ↦ cfg ]

  -- From the server on.
  unfoldable pub run_server : Flags → List Interceptor → World → World × Errors
  unfolding tls_config deferring
  run_server f interceptors w =
      let (w₁, listening) = listen ":0" (tls_config f) w in
      elim listening [
        | err e ↦ (w₁, e ∷ [])
        | ok u ↦
            let (w₂, why) = wait interceptors w₁ in
            deferring (λ x. close_listener (shutdown_server x))
              (elim why [ none ↦ (stop_notify w₂, []) | some e ↦ (w₂, e ∷ []) ])
      ]

  -- With what SetupOTelSDK returns.
  unfoldable pub run_instrumented :
      Flags → List Interceptor → (List (World → World × Errors) × World) × Errors → World × Errors
  unfolding run_server deferring
  run_instrumented f interceptors ((fs, w), e ∷ es) = (w, e ∷ es)
  run_instrumented f interceptors ((fs, w), []) =
      let (w', made) = new_otel_interceptor w in
      deferring (λ x. (shutdown (fs, x)).0.1)
        (elim made [
          | err e ↦ (w', e ∷ [])
          | ok u ↦ run_server f (interceptors ++ (telemetry ∷ [])) w'
        ])

  -- From the telemetry on.
  unfoldable pub run_telemetry : Flags → List Interceptor → World → World × Errors
  unfolding run_instrumented
  run_telemetry f interceptors w =
      run_instrumented f interceptors (
        setup_otel_sdk (new_trace_provider make_tracer none) (new_meter_provider make_meter none) w)

  -- Action
  unfoldable pub action : Flags → World → World × Errors
  unfolding run_telemetry deferring
  action f w =
      let w₁ = notify_context w in
      let (w₂, made) = new_auth f.acl_model_file f.acl_policy_file w₁ in
      deferring stop_notify (
        if is_given f.acl_model_file && is_given f.acl_policy_file
        then elim made [
          | err e ↦ (w₂, e ∷ [])
          | ok u ↦ run_telemetry f (logging ∷ access_control ∷ []) w₂
        ]
        else run_telemetry f (logging ∷ []) w₁)

  -- main: the exit code, 1 of log.Fatal.
  unfoldable pub exit_code : Flags → World → ℕ
  unfolding action
  exit_code f w = elim (action f w).1 [ [] ↦ 0 | e ∷ es ↦ 1 ]
