-- ===== src/Rpc/Tests.antt =====
-- The theorems on the procedures of the log's API at inputs.
use distributed_systems_trai.Base.{
  ◌≡◌, refl, ◌↔◌, ◌⊎◌, inl, Bool, true, false, Option, some, [], ◌∷◌, Result, ok,
}
use Prim.Native.String.{String}
use text.Mathlib.Text.{◌==◌ as str_eq}
use distributed_systems_trai.Auth.{TlsState, Reply, answered, authenticate, known, Connect}
use distributed_systems_trai.Rpc.Access.{serve_path_iff}
use distributed_systems_trai.Rpc.{
  produce, consume, produce_stream, path_of, client_url, is_unary, unimplemented, Answer,
  serve_path,
}

-- The policy of the user root, who may call everything, and of nobody else.
abbrev enforce : String → String → String → Result Bool
enforce subject object procedure = ok (str_eq subject "root")

abbrev nobody : Option TlsState
nobody = some (record { verified_chains = ("nobody" ∷ "ca" ∷ []) ∷ [] })

abbrev connect : Connect Answer
connect = record {
  Interceptor = (Option String → Reply Answer) → Option String → Reply Answer;
  unary_interceptor_func = λ f. f;
  wrap_unary = λ f. f;
  wrap_streaming = λ f next. next;
  wraps_unary = λ f next. refl;
  leaves_streaming = λ f next. refl;
}

-- The streams are open to everybody with a certificate, the other procedures are not.
serve_path_iff_example :
    (serve_path connect enforce "/log.v1.LogAPI/ProduceStream" nobody
      ≡ answered (some (produce_stream, "nobody")))
    × ((serve_path connect enforce "/log.v1.LogAPI/Produce" nobody
          ≡ answered (some (produce, "nobody")))
        ↔ (("/log.v1.LogAPI/Produce" ≡ path_of produce)
            × (authenticate nobody ≡ known "nobody")
            × ((is_unary produce ≡ false)
                ⊎ (enforce "nobody" "*" "/log.v1.LogAPI/Produce" ≡ ok true))))
unfolding authenticate
serve_path_iff_example = (
  (serve_path_iff connect enforce "/log.v1.LogAPI/ProduceStream" "nobody" nobody produce_stream).1
      (refl, refl, inl refl),
  serve_path_iff connect enforce "/log.v1.LogAPI/Produce" "nobody" nobody produce,
)

client_url_test :
    client_url "http://localhost:8080//" consume ≡ "http://localhost:8080/log.v1.LogAPI/Consume"
unfolding client_url
client_url_test = refl

unimplemented_test : unimplemented consume ≡ "log.v1.LogAPI.Consume is not implemented"
unfolding unimplemented
unimplemented_test = refl
