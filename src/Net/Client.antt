-- ===== src/Net/Client.antt =====
-- internal/http/client.go: the options of a client, and how its transport dials. net.Dialer and
-- tls.Client are parameters.
use distributed_systems_trai.Base.{
  ◌≡◌, refl, ap, ◌∙◌, ◌⊎◌, inl, inr, Option, none, some, List, [], ◌∷◌, ◌++◌, arith, Error, Result,
  ok, err, Result-cases,
}
use Prim.Native.String.{String}
use distributed_systems_trai.Net.Tls.{TlsConfig, Paths, setup_client_tls_config}

pub record Options (Cert : Type 0) : Type 0 where
  pub tls_config : Option (TlsConfig Cert)

-- An Option, as what it does to the options.
abbrev pub Setting : Type 0 → Type 0
Setting Cert = Options Cert → Options Cert

module _ {Cert : Type 0} where
  -- WithTLSConfig; none is nil.
  unfoldable pub with_tls_config : Option (TlsConfig Cert) → Setting Cert
  with_tls_config cfg o = record o { tls_config = cfg }

  config_of : Result (TlsConfig Cert) → Option (TlsConfig Cert)
  config_of (err e) = none
  config_of (ok cfg) = some cfg

  -- WithTLS: where the configuration cannot be set up, it is nil.
  unfoldable pub with_tls :
      (String → String → Result Cert) → (String → Result (List Cert)) → Paths → Setting Cert
  unfolding with_tls_config config_of
  with_tls load_key_pair read_certs p =
      with_tls_config (config_of (setup_client_tls_config load_key_pair read_certs p))

  -- The loop of NewH2Client, on the zero value.
  unfoldable pub apply_all : List (Setting Cert) → Options Cert → Options Cert
  apply_all [] o = o
  apply_all (f ∷ fs) o = apply_all fs (f o)

  -- NewH2Client: the configuration that the transport gets.
  unfoldable pub new_h2_client : List (Setting Cert) → Option (TlsConfig Cert)
  unfolding apply_all
  new_h2_client fs = (apply_all fs (record { tls_config = none })).tls_config

  apply_all-append :
      (fs gs : List (Setting Cert)) (o : Options Cert)
      → apply_all (fs ++ gs) o ≡ apply_all gs (apply_all fs o)
  unfolding apply_all
  apply_all-append [] gs o = refl
  apply_all-append (f ∷ fs) gs o = apply_all-append fs gs (f o)

  -- The last option decides; where it is WithTLS with a certificate, a key or authorities that cannot be
  -- read, the client is made all the same, without a configuration, as if it had no options.
  pub new_h2_client-with_tls :
      (fs : List (Setting Cert)) (load_key_pair : String → String → Result Cert)
      (read_certs : String → Result (List Cert)) (p : Paths)
      → ((cfg : TlsConfig Cert) × (setup_client_tls_config load_key_pair read_certs p ≡ ok cfg)
          × (new_h2_client (fs ++ (with_tls load_key_pair read_certs p ∷ [])) ≡ some cfg))
        ⊎ ((e : Error) × (setup_client_tls_config load_key_pair read_certs p ≡ err e)
            × (new_h2_client (fs ++ (with_tls load_key_pair read_certs p ∷ [])) ≡ new_h2_client []))
  unfolding new_h2_client with_tls with_tls_config config_of apply_all
  new_h2_client-with_tls fs load_key_pair read_certs p =
      let last = with_tls load_key_pair read_certs p in
      let applied = apply_all-append fs (last ∷ []) (record { tls_config = none }) in
      elim (Result-cases (setup_client_tls_config load_key_pair read_certs p)) [
        | inl (cfg, done) ↦ inl (cfg, done, ap (λ o. o.tls_config) applied ∙ ground (arith, done))
        | inr (e, failed) ↦ inr (e, failed, ap (λ o. o.tls_config) applied ∙ ground (arith, failed))
      ]

module _ {Cert Conn : Type 0} (dial : String → String → Option Conn × Option Error)
    (tls_client : Option Conn → TlsConfig Cert → Conn) where
  -- DialTLSContext of NewH2Client: a connection, none for nil, and an error; with a configuration the
  -- connection is wrapped also where there was an error.
  unfoldable pub dial_tls_context :
      String → String → Option (TlsConfig Cert) → Option Conn × Option Error
  dial_tls_context network addr none = dial network addr
  dial_tls_context network addr (some cfg) =
      let (conn, e) = dial network addr in (some (tls_client conn cfg), e)

  -- DialTLS of DefaultClient.
  unfoldable pub dial_plain : String → String → Option (TlsConfig Cert) → Option Conn × Option Error
  dial_plain network addr cfg = dial network addr
