-- ===== src/Otel.antt =====
-- internal/otel/setup.go: the set-up of telemetry and its shutdown. The SDK's providers are
-- parameters.
mod Tests
use distributed_systems_trai.Base.{
  ◌≡◌, refl, ◌⊎◌, inl, inr, List, [], ◌∷◌, ◌++◌, ℕ, Option, none, some, append_assoc, append-nil,
  arith, Error, Result, ok, err, Result-cases,
}

-- What a function returns: the errors that errors.Join has put together, none for nil.
abbrev pub Errors : Type 0
Errors = List Error

-- A provider: an error, or its Shutdown.
abbrev pub Provider : Type 0 → Type 0
Provider World = World → World × Result (World → World × Errors)

-- What newTraceProvider and newMeterProvider give to the SDK; the times are in seconds.
pub data TracerOption (Exporter : Type 0) : Type 0 where
  with_sampler_always : TracerOption Exporter
  with_batcher : Exporter → ℕ → TracerOption Exporter

pub data MeterOption (Exporter : Type 0) : Type 0 where
  with_periodic_reader : Exporter → ℕ → MeterOption Exporter

unfoldable pub tracer_options : {Exporter : Type 0} → Option Exporter → List (TracerOption Exporter)
tracer_options none = with_sampler_always ∷ []
tracer_options (some exporter) = with_sampler_always ∷ with_batcher exporter 1 ∷ []

unfoldable pub meter_options : {Exporter : Type 0} → Option Exporter → List (MeterOption Exporter)
meter_options none = []
meter_options (some exporter) = with_periodic_reader exporter 1 ∷ []

module _ {World : Type 0} where
  -- newTraceProvider and newMeterProvider, which never return an error; `make` is the SDK's.
  unfoldable pub new_trace_provider :
      {Exporter : Type 0}
      → (List (TracerOption Exporter) → World → World × (World → World × Errors))
      → Option Exporter
      → Provider World
  unfolding tracer_options
  new_trace_provider make exporter w =
      let (w', stop) = make (tracer_options exporter) w in (w', ok stop)

  unfoldable pub new_meter_provider :
      {Exporter : Type 0}
      → (List (MeterOption Exporter) → World → World × (World → World × Errors))
      → Option Exporter
      → Provider World
  unfolding meter_options
  new_meter_provider make exporter w =
      let (w', stop) = make (meter_options exporter) w in (w', ok stop)

  -- The loop over the functions that were registered.
  unfoldable pub run_shutdowns : List (World → World × Errors) → World → World × Errors
  run_shutdowns [] w = (w, [])
  run_shutdowns (f ∷ fs) w =
      let (w', errs) = f w in let (w'', more) = run_shutdowns fs w' in (w'', errs ++ more)

  -- shutdown: all functions run, and the list is emptied.
  unfoldable pub shutdown :
      List (World → World × Errors) × World → (List (World → World × Errors) × World) × Errors
  unfolding run_shutdowns
  shutdown (fs, w) = let (w', errs) = run_shutdowns fs w in (([], w'), errs)

  -- SetupOTelSDK: the functions that are registered, and the errors. A provider that cannot be made
  -- shuts down those that were.
  unfoldable pub setup_otel_sdk :
      Provider World → Provider World → World → (List (World → World × Errors) × World) × Errors
  unfolding shutdown
  setup_otel_sdk new_tracer new_meter w =
      let (w₁, tracer) = new_tracer w in
      elim tracer [
        | err e ↦ let (s, errs) = shutdown ([], w₁) in (s, e ∷ errs)
        | ok stop_tracer ↦
            let (w₂, meter) = new_meter w₁ in
            elim meter [
              | err e ↦ let (s, errs) = shutdown (stop_tracer ∷ [], w₂) in (s, e ∷ errs)
              | ok stop_meter ↦ ((stop_tracer ∷ stop_meter ∷ [], w₂), [])
            ]
      ]

  run_shutdowns-append :
      (fs gs : List (World → World × Errors)) (w : World)
      → run_shutdowns (fs ++ gs) w ≡ (
        (run_shutdowns gs (run_shutdowns fs w).0).0,
        (run_shutdowns fs w).1 ++ (run_shutdowns gs (run_shutdowns fs w).0).1,
      )
  unfolding run_shutdowns
  run_shutdowns-append [] gs w = refl
  run_shutdowns-append (f ∷ fs) gs w =
      let again = run_shutdowns-append fs gs (f w).0 in
      ground (
        arith,
        again,
        append_assoc (f w).1 (run_shutdowns fs (f w).0).1
            (run_shutdowns gs (run_shutdowns fs (f w).0).0).1,
      )

  -- If SetupOTelSDK succeeds, the first shutdown stops the tracer provider and then the meter provider,
  -- each once, also where the first fails, and returns the errors of both in this order; a second
  -- one does nothing. If the meter provider cannot be made, the tracer provider is stopped at once,
  -- and a later shutdown does nothing.
  pub shutdown-setup_otel_sdk :
      (new_tracer new_meter : Provider World) (w w₁ w₂ : World)
      (stop_tracer : World → World × Errors) (meter : Result (World → World × Errors))
      → new_tracer w ≡ (w₁, ok stop_tracer)
      → new_meter w₁ ≡ (w₂, meter)
      → ((stop_meter : World → World × Errors) × (meter ≡ ok stop_meter)
          × (shutdown (setup_otel_sdk new_tracer new_meter w).0 ≡ (
            ([], (stop_meter (stop_tracer w₂).0).0),
            (stop_tracer w₂).1 ++ (stop_meter (stop_tracer w₂).0).1,
          )))
        ⊎ ((e : Error) × (meter ≡ err e)
            × (setup_otel_sdk new_tracer new_meter w
                ≡ (([], (stop_tracer w₂).0), e ∷ (stop_tracer w₂).1))
            × (shutdown (setup_otel_sdk new_tracer new_meter w).0 ≡ (([], (stop_tracer w₂).0), [])))
  unfolding setup_otel_sdk shutdown run_shutdowns
  shutdown-setup_otel_sdk new_tracer new_meter w w₁ w₂ stop_tracer meter traced metered =
      elim (Result-cases meter) [
        | inl (stop_meter, made) ↦ inl (
          stop_meter,
          made,
          ground (arith, traced, metered, made, append-nil (stop_meter (stop_tracer w₂).0).1),
        )
        | inr (e, failed) ↦ inr (
          e,
          failed,
          ground (arith, traced, metered, failed, append-nil (stop_tracer w₂).1),
          ground (arith, traced, metered, failed),
        )
      ]

  -- With the providers of the code, SetupOTelSDK succeeds, and its shutdown stops both providers, the
  -- tracer's first, and returns the errors of both.
  pub shutdown-new_providers :
      {Exporter Reader : Type 0}
      (make_tracer : List (TracerOption Exporter) → World → World × (World → World × Errors))
      (make_meter : List (MeterOption Reader) → World → World × (World → World × Errors))
      (traces : Option Exporter) (metrics : Option Reader) (w w₁ w₂ : World)
      (stop_tracer stop_meter : World → World × Errors)
      → make_tracer (tracer_options traces) w ≡ (w₁, stop_tracer)
      → make_meter (meter_options metrics) w₁ ≡ (w₂, stop_meter)
      → (setup_otel_sdk
            (new_trace_provider make_tracer traces)
            (new_meter_provider make_meter metrics)
            w
          ≡ ((stop_tracer ∷ stop_meter ∷ [], w₂), []))
        × (shutdown (stop_tracer ∷ stop_meter ∷ [], w₂) ≡ (
          ([], (stop_meter (stop_tracer w₂).0).0),
          (stop_tracer w₂).1 ++ (stop_meter (stop_tracer w₂).0).1,
        ))
  unfolding setup_otel_sdk new_trace_provider new_meter_provider shutdown run_shutdowns
  shutdown-new_providers make_tracer make_meter traces metrics w w₁ w₂ stop_tracer stop_meter traced
        metered =
      (
        ground (arith, traced, metered),
        ground (arith, append-nil (stop_meter (stop_tracer w₂).0).1),
      )
