-- ===== src/Net/Tests.antt =====
-- The theorems on ports and TLS configurations at inputs.
use distributed_systems_trai.Base.{
  ℕ, ◌+◌, ◌≤◌, ◌<◌, ◌≡◌, refl, ◌⊎◌, true, false, none, some, List, [], ◌∷◌, ◌==◌, if◌then◌else◌,
  Error, not_exist, Result, ok, err,
}
use Prim.Native.String.{String}
use text.Mathlib.Text.{◌==◌ as str_eq}
use distributed_systems_trai.Net.{get_available_port, find_port, get_available_port_bounds}
use distributed_systems_trai.Net.Client.{
  with_tls, new_h2_client, dial_tls_context, new_h2_client-with_tls,
}
use distributed_systems_trai.Net.Tls.{
  TlsConfig, setup_client_tls_config, Paths, setup_server_tls_config, zero_config,
  require_client_cert_cases,
}

-- Only the port of the second round is free.
get_available_port_bounds_example :
    (1024 ≤ 1031) × (1031 ≤ 65534) × ((i : ℕ) × (i < 1000) × ((1031 == 1031) ≡ true))
unfolding get_available_port find_port
get_available_port_bounds_example =
    get_available_port_bounds (λ i. 6 + i) (λ i port. port == 1031) 1031 refl

abbrev paths : Paths
paths = record { crt = ""; key = ""; ca = "ca.pem"; server_name = "node" }

abbrev load_key_pair : String → String → Result ℕ
load_key_pair crt key = err not_exist

abbrev read_certs : String → Result (List ℕ)
read_certs path = if str_eq path "ca.pem" then ok (7 ∷ []) else err not_exist

require_client_cert_cases_test :
    (((setup_server_tls_config load_key_pair read_certs paths zero_config).0.require_client_cert
        ≡ true)
      × (str_eq "ca.pem" "" ≡ false)
      × ((certs : List ℕ) × (read_certs "ca.pem" ≡ ok certs)
          × ((setup_server_tls_config load_key_pair read_certs paths zero_config).0.client_cas
              ≡ some certs)))
    ⊎ (((setup_server_tls_config load_key_pair read_certs paths zero_config).0.require_client_cert
          ≡ false)
        × ((str_eq "ca.pem" "" ≡ true)
            ⊎ ((e : Error) × ((setup_server_tls_config load_key_pair read_certs paths zero_config).1
                  ≡ err e))))
require_client_cert_cases_test = require_client_cert_cases load_key_pair read_certs paths

-- The key pair cannot be read, and the client has no configuration.
with_key : Paths
with_key = record paths { crt = "crt"; key = "key" }

new_h2_client-with_tls_test :
    ((cfg : TlsConfig ℕ) × (setup_client_tls_config load_key_pair read_certs with_key ≡ ok cfg)
      × (new_h2_client (with_tls load_key_pair read_certs with_key ∷ []) ≡ some cfg))
    ⊎ ((e : Error) × (setup_client_tls_config load_key_pair read_certs with_key ≡ err e)
        × (new_h2_client (with_tls load_key_pair read_certs with_key ∷ []) ≡ new_h2_client []))
new_h2_client-with_tls_test = new_h2_client-with_tls [] load_key_pair read_certs with_key

dial_tls_context_test :
    dial_tls_context {Conn = ℕ}
      (λ network addr. (none, some not_exist))
      (λ conn cfg. 5)
      "tcp"
      "host:1"
      (some (zero_config {Cert = ℕ}))
    ≡ (some 5, some not_exist)
unfolding dial_tls_context
dial_tls_context_test = refl
