-- ===== src/Otel/Tests.antt =====
-- The theorem on telemetry at an input.
use distributed_systems_trai.Base.{ℕ, ◌≡◌, refl, ◌⊎◌, List, [], ◌∷◌, ◌++◌, Error, closed, ok, err}
use distributed_systems_trai.Otel.{
  Errors, Provider, shutdown, setup_otel_sdk, shutdown-setup_otel_sdk,
}

-- The world is the list of what was stopped.
abbrev stop : ℕ → List ℕ → List ℕ × Errors
stop n w = (w ++ (n ∷ []), closed ∷ [])

abbrev provider : ℕ → Provider (List ℕ)
provider n w = (w, ok (stop n))

shutdown-setup_otel_sdk_test :
    ((stop_meter : List ℕ → List ℕ × Errors) × (ok (stop 2) ≡ ok stop_meter)
      × (shutdown (setup_otel_sdk (provider 1) (provider 2) []).0
          ≡ (([], (stop_meter (1 ∷ [])).0), (closed ∷ []) ++ (stop_meter (1 ∷ [])).1)))
    ⊎ ((e : Error) × (ok (stop 2) ≡ err e)
        × (setup_otel_sdk (provider 1) (provider 2) [] ≡ (([], 1 ∷ []), e ∷ closed ∷ []))
        × (shutdown (setup_otel_sdk (provider 1) (provider 2) []).0 ≡ (([], 1 ∷ []), [])))
shutdown-setup_otel_sdk_test =
    shutdown-setup_otel_sdk (provider 1) (provider 2) [] [] [] (stop 1) (ok (stop 2)) refl refl
