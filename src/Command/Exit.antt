-- ===== src/Command/Exit.antt =====
-- How the command of cmd/server/main.go ends.
use distributed_systems_trai.Base.{
  ◌≡◌, refl, ap, ◌∙◌, ◌⊎◌, inl, inr, Bool, true, false, ◌&&◌, Option, none, some, List, [], ◌∷◌,
  ◌++◌, arith, Bool-cases, Error, ok, err, Result-cases,
}
use Prim.Native.String.{String}
use distributed_systems_trai.Net.Tls.{
  TlsConfig, Paths, zero_config, setup_server_tls, setup_server_tls_config,
  setup_server_tls_config-bare,
}
use distributed_systems_trai.Otel.{
  Errors, run_shutdowns, tracer_options, meter_options, shutdown, shutdown-new_providers,
}
use distributed_systems_trai.Command.{
  Flags, Parts, Interceptor, logging, access_control, telemetry, deferring, tls_config, run_server,
  run_instrumented, run_telemetry, action, is_given, exit_code,
}

module _ (parts : Parts) where
  open parts use {
    World, Cert, notify_context, stop_notify, new_auth, make_tracer, make_meter,
    new_otel_interceptor, load_key_pair, read_certs, listen, wait, shutdown_server, close_listener,
    listen_nil, listen_bare,
  }

  listen-bare :
      (address : String) (cfg : Option (TlsConfig Cert)) (w : World)
      → (cfg ≡ none) ⊎ ((c : TlsConfig Cert) × (cfg ≡ some c) × (c.certificates ≡ []))
      → (e : Error) × ((listen address cfg w).1 ≡ err e)
  listen-bare address cfg w (inl nil) =
      let (e, fails) = listen_nil address w in (e, ap (λ c. (listen address c w).1) nil ∙ fails)
  listen-bare address cfg w (inr (c, it, bare)) =
      let (e, fails) = listen_bare address c w bare in
      (e, ap (λ c. (listen address c w).1) it ∙ fails)

  tls_config-bare :
      (f : Flags)
      → is_given f.crt && is_given f.key ≡ false
      → (tls_config parts f ≡ none)
        ⊎ ((c : TlsConfig Cert) × (tls_config parts f ≡ some c) × (c.certificates ≡ []))
  unfolding tls_config setup_server_tls
  tls_config-bare f bare =
      let paths : Paths = record {
        crt = f.crt;
        key = f.key;
        ca = f.ca;
        server_name = f.server_name;
      } in
      let setup = setup_server_tls_config load_key_pair read_certs paths zero_config in
      let none_there =
        setup_server_tls_config-bare load_key_pair read_certs paths zero_config bare in
      elim (Result-cases setup.1) [
        | inl (u, done) ↦ inr (setup.0, ground (arith, done), none_there)
        | inr (e, failed) ↦ inl (ground (arith, failed))
      ]

  -- The errors are not none.
  Fails : Errors → Type 0
  Fails errs = (e : Error) × (es : Errors) × (errs ≡ e ∷ es)

  run_server-Fails :
      (f : Flags) (interceptors : List Interceptor) (w : World)
      → is_given f.crt && is_given f.key ≡ false
      → Fails (run_server parts f interceptors w).1
  unfolding run_server Fails
  run_server-Fails f interceptors w bare =
      let (e, failed) = listen-bare ":0" (tls_config parts f) w (tls_config-bare f bare) in
      (e, [], ground (arith, failed))

  run_telemetry-Fails :
      (f : Flags) (interceptors : List Interceptor) (w : World)
      → is_given f.crt && is_given f.key ≡ false
      → Fails (run_telemetry parts f interceptors w).1
  unfolding run_telemetry run_instrumented deferring Fails
  run_telemetry-Fails f interceptors w bare =
      let (w₁, stop_tracer) = make_tracer (tracer_options none) w in
      let (w₂, stop_meter) = make_meter (meter_options none) w₁ in
      let started =
        ap (run_instrumented parts f interceptors)
          (shutdown-new_providers make_tracer make_meter none none w w₁ w₂ stop_tracer stop_meter
            refl refl).0 in
      elim (Result-cases (new_otel_interceptor w₂).1) [
        | inr (e, failed) ↦ (e, [], ap (λ x. x.1) started ∙ ground (arith, failed))
        | inl (u, made) ↦
            let (e, es, fails) =
              run_server-Fails f (interceptors ++ (telemetry ∷ [])) (new_otel_interceptor w₂).0
                bare in
            (e, es, ap (λ x. x.1) started ∙ ground (arith, made, fails))
      ]

  -- Without the paths of a certificate and of its key, the command fails, whatever else is set and
  -- whatever its parts do: it returns an error and exits with 1.
  pub action-no_certificate :
      (f : Flags) (w : World)
      → is_given f.crt && is_given f.key ≡ false
      → ((e : Error) × (es : Errors) × ((action parts f w).1 ≡ e ∷ es)) × (exit_code parts f w ≡ 1)
  unfolding action exit_code deferring Fails
  action-no_certificate f w bare =
      let (e, es, fails) = action-Fails in ((e, es, fails), ground (arith, fails))
    where
      action-Fails : (e : Error) × (es : Errors) × ((action parts f w).1 ≡ e ∷ es)
      action-Fails = elim (Bool-cases (is_given f.acl_model_file && is_given f.acl_policy_file)) [
        | inr unset ↦
            let (e, es, fails) = run_telemetry-Fails f (logging ∷ []) (notify_context w) bare in
            (e, es, ground (arith, unset, fails))
        | inl given ↦
            let made = new_auth f.acl_model_file f.acl_policy_file (notify_context w) in
            elim (Result-cases made.1) [
              | inr (e, failed) ↦ (e, [], ground (arith, given, failed))
              | inl (u, done) ↦
                  let (e, es, fails) =
                    run_telemetry-Fails f (logging ∷ access_control ∷ []) made.0 bare in
                  (e, es, ground (arith, given, done, fails))
            ]
      ]

  abbrev pub interceptors_of : Bool → List Interceptor
  interceptors_of true = logging ∷ access_control ∷ telemetry ∷ []
  interceptors_of false = logging ∷ telemetry ∷ []

  -- The signals are left before the function returns where one has come.
  abbrev pub after_wait : Option Error → World → World
  after_wait none w = stop_notify w
  after_wait (some e) w = w

  abbrev pub errors_of : Option Error → Errors
  errors_of none = []
  errors_of (some e) = e ∷ []

  run_server-served :
      (f : Flags) (interceptors : List Interceptor) (w w₁ w₂ : World) (why : Option Error)
      → listen ":0" (tls_config parts f) w ≡ (w₁, ok tt)
      → wait interceptors w₁ ≡ (w₂, why)
      → run_server parts f interceptors w
        ≡ (close_listener (shutdown_server (after_wait why w₂)), errors_of why)
  unfolding run_server deferring
  run_server-served f interceptors w w₁ w₂ none listens ends = ground (arith, listens, ends)
  run_server-served f interceptors w w₁ w₂ (some e) listens ends = ground (arith, listens, ends)

  module _ (f : Flags) (w₁ w₂ w₃ w₄ w₅ w₆ : World) (stop_tracer stop_meter : World → World × Errors)
      (why : Option Error) where
    -- What the deferred calls leave.
    abbrev pub cleaned : World
    cleaned = (stop_meter (stop_tracer (close_listener (shutdown_server (after_wait why w₆)))).0).0

    run_telemetry-served :
        (interceptors : List Interceptor)
        → make_tracer (tracer_options none) w₁ ≡ (w₂, stop_tracer)
        → make_meter (meter_options none) w₂ ≡ (w₃, stop_meter)
        → new_otel_interceptor w₃ ≡ (w₄, ok tt)
        → listen ":0" (tls_config parts f) w₄ ≡ (w₅, ok tt)
        → wait (interceptors ++ (telemetry ∷ [])) w₅ ≡ (w₆, why)
        → run_telemetry parts f interceptors w₁ ≡ (cleaned, errors_of why)
    unfolding run_telemetry run_instrumented deferring shutdown run_shutdowns
    run_telemetry-served interceptors traced metered made listens ends =
        let started =
          ap (run_instrumented parts f interceptors)
            (shutdown-new_providers make_tracer make_meter none none w₁ w₂ w₃ stop_tracer stop_meter
              traced metered).0 in
        let served =
          run_server-served f (interceptors ++ (telemetry ∷ [])) w₄ w₅ w₆ why listens ends in
        started ∙ ground (arith, made, served)

    -- Where everything can be set up, the command serves until Serve returns an error or the process is
    -- interrupted, through the access control exactly where both of its files are given, and
    -- then cleans up in the reverse order of the set-up: the server, the listener, the tracer
    -- provider, the meter provider, and the signals. It returns the error of Serve, and none on an
    -- interruption.
    pub action-served :
        (w : World) (given : Bool)
        → is_given f.acl_model_file && is_given f.acl_policy_file ≡ given
        → (given ≡ true
            → new_auth f.acl_model_file f.acl_policy_file (notify_context w) ≡ (w₁, ok tt))
        → (given ≡ false → notify_context w ≡ w₁)
        → make_tracer (tracer_options none) w₁ ≡ (w₂, stop_tracer)
        → make_meter (meter_options none) w₂ ≡ (w₃, stop_meter)
        → new_otel_interceptor w₃ ≡ (w₄, ok tt)
        → listen ":0" (tls_config parts f) w₄ ≡ (w₅, ok tt)
        → wait (interceptors_of given) w₅ ≡ (w₆, why)
        → action parts f w ≡ (stop_notify cleaned, errors_of why)
    unfolding action deferring
    action-served w true chosen authorized plain traced metered made listens ends =
        let authorized_it = authorized refl in
        let served =
          run_telemetry-served (logging ∷ access_control ∷ []) traced metered made listens ends in
        ground (arith, chosen, authorized_it, served)
    action-served w false chosen authorized plain traced metered made listens ends =
        let started_it = plain refl in
        let served = run_telemetry-served (logging ∷ []) traced metered made listens ends in
        ground (arith, chosen, ap (run_telemetry parts f (logging ∷ [])) started_it ∙ served)
