-- ===== src/Net/Tls.antt =====
-- internal/http/client.go: the TLS configurations of servers and clients. Reading files and parsing
-- certificates are parameters.
use text.Mathlib.Text.{◌==◌ as str_eq}
use Prim.Native.String.{String}
use distributed_systems_trai.Base.{
  ◌≡◌, ◌⊎◌, inl, inr, Bool, true, false, not, ◌&&◌, Option, none, some, List, [], ◌∷◌, ◌++◌, arith,
  if◌then◌else◌, Bool-cases, Error, Result, ok, err, ◌>>=◌, Result-cases, and_then,
}

-- The fields of tls.Config that the code sets. A pool is a list of certificates, nil is none.
pub record TlsConfig (Cert : Type 0) : Type 0 where
  pub certificates : List Cert
  pub root_cas : Option (List Cert)
  pub client_cas : Option (List Cert)
  pub require_client_cert : Bool
  pub server_name : String

-- The zero value.
abbrev pub zero_config : {Cert : Type 0} → TlsConfig Cert
zero_config = record {
  certificates = [];
  root_cas = none;
  client_cas = none;
  require_client_cert = false;
  server_name = "";
}

-- The arguments crt, key, ca and serverName.
pub record Paths : Type 0 where
  pub crt : String
  pub key : String
  pub ca : String
  pub server_name : String

abbrev pub is_set : String → Bool
is_set text = not (str_eq text "")

abbrev pub pool_of : {Cert : Type 0} → Option (List Cert) → List Cert
pool_of none = []
pool_of (some certs) = certs

module _ {Cert : Type 0} (load_key_pair : String → String → Result Cert)
    (read_certs : String → Result (List Cert)) where
  -- The first part of both functions: the key pair, if both paths are given.
  unfoldable pub add_key_pair : Paths → TlsConfig Cert → TlsConfig Cert × Result (Unit {0})
  add_key_pair p cfg =
      let loaded =
        and_then (cfg, load_key_pair p.crt p.key)
          λ cert c. (record c { certificates = c.certificates ++ (cert ∷ []) }, ok tt) in
      if is_set p.crt && is_set p.key then loaded else (cfg, ok tt)

  -- The second part for a client: the authorities, if their path is given.
  add_root_cas : Paths → TlsConfig Cert → TlsConfig Cert × Result (Unit {0})
  add_root_cas p cfg =
      let with_ca =
        and_then (cfg, read_certs p.ca)
          λ certs c. (
            record c { root_cas = some (pool_of c.root_cas ++ certs); server_name = p.server_name },
            ok tt,
          ) in
      if is_set p.ca then with_ca else (cfg, ok tt)

  -- SetupClientTLSConfig
  unfoldable pub setup_client_tls_config : Paths → Result (TlsConfig Cert)
  unfolding add_key_pair add_root_cas
  setup_client_tls_config p =
      let (cfg, r) = and_then {0, 0, 0} (add_key_pair p zero_config) (λ _ c. add_root_cas p c) in
      r >>= λ _. ok cfg

  -- SetupServerTLSConfig on a configuration that is not nil; on nil it does nothing.
  unfoldable pub setup_server_tls_config :
      Paths → TlsConfig Cert → TlsConfig Cert × Result (Unit {0})
  unfolding add_key_pair
  setup_server_tls_config p cfg = and_then (add_key_pair p cfg) λ _ c₁.
      let with_ca =
        and_then (c₁, read_certs p.ca)
          λ certs c₂. (
            record c₂ {
              client_cas = some (pool_of c₂.client_cas ++ certs);
              require_client_cert = true;
              server_name = p.server_name;
            },
            ok tt,
          ) in
      if is_set p.ca then with_ca else (c₁, ok tt)

  unfoldable pub setup_server_tls :
      Paths → Option (TlsConfig Cert) → Option (TlsConfig Cert) × Result (Unit {0})
  unfolding setup_server_tls_config
  setup_server_tls p none = (none, ok tt)
  setup_server_tls p (some cfg) = let (cfg', r) = setup_server_tls_config p cfg in (some cfg', r)

  add_key_pair_keeps :
      (p : Paths) (cfg : TlsConfig Cert)
      → ((add_key_pair p cfg).0.require_client_cert ≡ cfg.require_client_cert)
        × ((add_key_pair p cfg).0.client_cas ≡ cfg.client_cas)
  unfolding add_key_pair
  add_key_pair_keeps p cfg = elim (Bool-cases (is_set p.crt && is_set p.key)) [
    | inr unset ↦ ground (arith, unset)
    | inl given ↦ elim (Result-cases (load_key_pair p.crt p.key)) [
      | inl (cert, loaded) ↦ ground (arith, given, loaded)
      | inr (e, failed) ↦ ground (arith, given, failed)
    ]
  ]

  -- Without both paths of the key pair, a server has no certificate of its own.
  pub setup_server_tls_config-bare :
      (p : Paths) (cfg : TlsConfig Cert)
      → is_set p.crt && is_set p.key ≡ false
      → (setup_server_tls_config p cfg).0.certificates ≡ cfg.certificates
  unfolding setup_server_tls_config add_key_pair
  setup_server_tls_config-bare p cfg bare = elim (Bool-cases (is_set p.ca)) [
    | inr unset ↦ ground (arith, bare, unset)
    | inl given ↦ elim (Result-cases (read_certs p.ca)) [
      | inl (certs, found) ↦ ground (arith, bare, given, found)
      | inr (e, failed) ↦ ground (arith, bare, given, failed)
    ]
  ]

  -- SetupServerTLSConfig on a new configuration makes the server ask for a client certificate, of the
  -- authorities in the file, exactly where it succeeds with a path of authorities; without such a path,
  -- or on an error, no client certificate is asked for.
  pub require_client_cert_cases :
      (p : Paths)
      → (((setup_server_tls_config p zero_config).0.require_client_cert ≡ true)
          × (str_eq p.ca "" ≡ false)
          × ((certs : List Cert) × (read_certs p.ca ≡ ok certs)
              × ((setup_server_tls_config p zero_config).0.client_cas ≡ some certs)))
        ⊎ (((setup_server_tls_config p zero_config).0.require_client_cert ≡ false)
            × ((str_eq p.ca "" ≡ true)
                ⊎ ((e : Error) × ((setup_server_tls_config p zero_config).1 ≡ err e))))
  unfolding setup_server_tls_config
  require_client_cert_cases p =
      let (flag, cas) = add_key_pair_keeps p zero_config in
      elim (Result-cases (add_key_pair p zero_config).1) [
        | inr (e, failed) ↦ inr (ground (arith, failed, flag), inr (e, ground (arith, failed)))
        | inl (u, done) ↦ elim (Bool-cases (str_eq p.ca "")) [
          | inl unset ↦ inr (ground (arith, done, flag, unset), inl unset)
          | inr given ↦ elim (Result-cases (read_certs p.ca)) [
            | inr (e, failed) ↦ inr (
              ground (arith, done, flag, given, failed),
              inr (e, ground (arith, done, given, failed)),
            )
            | inl (certs, found) ↦ inl (
              ground (arith, done, given, found),
              given,
              (certs, found, ground (arith, done, given, found, cas)),
            )
          ]
        ]
      ]
