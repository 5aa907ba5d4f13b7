-- ===== src/Auth/Tests.antt =====
-- The theorems on access control at inputs.
use distributed_systems_trai.Base.{ℕ, ◌≡◌, refl, ◌≢◌, ◌⊎◌, Bool, Option, some, [], ◌∷◌, Result, ok}
use Prim.Native.String.{String}
use text.Mathlib.Text.{◌==◌ as str_eq}
use distributed_systems_trai.Auth.{
  TlsState, Reply, answered, Connect, authenticate, serve, serve_cases, IsAllowed, serve_unary,
  serve_streaming, serve_streaming-unchecked,
}

-- The policy of the user root, who may call everything, and of nobody else.
abbrev enforce : String → String → String → Result Bool
enforce subject object procedure = ok (str_eq subject "root")

abbrev root : Option TlsState
root = some (record { verified_chains = ("root" ∷ "ca" ∷ []) ∷ [] })

abbrev nobody : Option TlsState
nobody = some (record { verified_chains = ("nobody" ∷ "ca" ∷ []) ∷ [] })

abbrev produce : String → ℕ
produce name = 1

abbrev other : String → ℕ
other name = 2

serve_cases_test :
    ((name : String) × IsAllowed enforce "Produce" root name
      × (serve enforce produce "Produce" root ≡ answered 1))
    ⊎ ((serve enforce produce "Produce" root ≡ serve enforce other "Produce" root)
        × (serve enforce produce "Produce" root ≢ answered 1))
serve_cases_test = serve_cases enforce produce other "Produce" root 1

-- Interceptors as what they do to a unary handler.
abbrev connect : Connect ℕ
connect = record {
  Interceptor = (Option String → Reply ℕ) → Option String → Reply ℕ;
  unary_interceptor_func = λ f. f;
  wrap_unary = λ f. f;
  wrap_streaming = λ f next. next;
  wraps_unary = λ f next. refl;
  leaves_streaming = λ f next. refl;
}

serve_streaming-unchecked_test :
    (serve_unary connect enforce produce "ConsumeStream" nobody
      ≡ serve enforce produce "ConsumeStream" nobody)
    × (serve_streaming connect enforce produce "ConsumeStream" nobody ≡ answered 1)
unfolding authenticate
serve_streaming-unchecked_test =
    serve_streaming-unchecked connect enforce produce "ConsumeStream" "nobody" nobody refl
