-- ===== src/Command/Tests.antt =====
-- The theorems on the command at inputs.
use distributed_systems_trai.Base.{
  ℕ, ◌≡◌, refl, true, Option, none, some, List, [], ◌∷◌, arith, Error, invalid, Result, ok, err,
}
use Prim.Native.String.{String}
use distributed_systems_trai.Net.Tls.{TlsConfig, setup_server_tls}
use distributed_systems_trai.Command.{Flags, Flag, flags, Parts, tls_config, action, exit_code}
use distributed_systems_trai.Command.Exit.{action-no_certificate, action-served}
use distributed_systems_trai.Otel.{Errors}

-- The world is what was done, the last first.
abbrev done : String → List String → List String
done name w = name ∷ w

abbrev listen_on : String → Option (TlsConfig ℕ) → List String → List String × Result (Unit {0})
listen_on address none w = (w, err invalid)
listen_on address (some cfg) w = elim cfg.certificates [
  | [] ↦ (w, err invalid)
  | c ∷ cs ↦ (done "listen" w, ok tt)
]

listen_on-bare :
    (address : String) (cfg : TlsConfig ℕ) (w : List String)
    → cfg.certificates ≡ []
    → (listen_on address (some cfg) w).1 ≡ err invalid
listen_on-bare address cfg w bare = ground (arith, bare)

-- The process is interrupted.
abbrev parts : Parts
parts = record {
  World = List String;
  Cert = ℕ;
  notify_context = done "notify";
  stop_notify = done "stop";
  new_auth = λ model policy w. (done "auth" w, ok tt);
  make_tracer = λ opts w. (w, λ w'. (done "tracer" w', []));
  make_meter = λ opts w. (w, λ w'. (done "meter" w', []));
  new_otel_interceptor = λ w. (w, ok tt);
  load_key_pair = λ crt key. ok 7;
  read_certs = λ path. ok (8 ∷ []);
  listen = listen_on;
  wait = λ interceptors w. (w, none);
  shutdown_server = done "server";
  close_listener = done "listener";
  listen_nil = λ address w. (invalid, refl);
  listen_bare = λ address cfg w bare. (invalid, listen_on-bare address cfg w bare);
}

-- A flag for each variable; the value of the command line, then of the environment, then the default.
abbrev defaults : List Flag → Flags → Flags
defaults [] f = f
defaults (x ∷ xs) f = defaults xs (x.store x.value f)

abbrev unset : Flags
unset = record {
  crt = "x";
  key = "x";
  ca = "x";
  server_name = "x";
  listen_address = "x";
  acl_model_file = "x";
  acl_policy_file = "x";
}

abbrev by_default : Flags
by_default = defaults flags unset

by_default_test : by_default.listen_address ≡ ":8080"
by_default_test = refl

action-no_certificate_example :
    ((e : Error) × (es : Errors) × ((action parts by_default []).1 ≡ e ∷ es))
    × (exit_code parts by_default [] ≡ 1)
action-no_certificate_example = action-no_certificate parts by_default [] refl

abbrev secure : Flags
secure = record by_default {
  crt = "crt";
  key = "key";
  acl_model_file = "model";
  acl_policy_file = "policy";
}

abbrev stop_as : String → List String → List String × Errors
stop_as name w = (done name w, [])

-- One event after the other, the last first.
action-served_test : action parts secure [] ≡ (
  "stop" ∷ "meter" ∷ "tracer" ∷ "listener" ∷ "server" ∷ "stop" ∷ "listen" ∷ "auth" ∷ "notify" ∷ [],
  [],
)
unfolding tls_config setup_server_tls
action-served_test =
    action-served parts secure ("auth" ∷ "notify" ∷ []) ("auth" ∷ "notify" ∷ [])
      ("auth" ∷ "notify" ∷ []) ("auth" ∷ "notify" ∷ []) ("listen" ∷ "auth" ∷ "notify" ∷ [])
      ("listen" ∷ "auth" ∷ "notify" ∷ []) (stop_as "tracer") (stop_as "meter") none [] true refl
      (λ h. refl) (λ h. cc h) refl refl refl refl refl
