-- ===== src/Auth.antt =====
-- internal/auth/authorizer.go and internal/http/auth.go: who a request is from, and whether it may
-- call a procedure. casbin's Enforce and the handlers are parameters.
mod Tests
use Prim.Native.String.{String}
use distributed_systems_trai.Base.{
  ◌≡◌, refl, ap, ◌∙◌, ◌≢◌, ◌⊎◌, inl, inr, Bool, true, Option, none, some, List, [], ◌∷◌, arith,
  if◌then◌else◌, Bool-cases, Error, Result, ok, err, Result-cases,
}

-- What the code reads of http.Request.TLS: for each verified chain the common names of its
-- certificates' subjects, the leaf first.
pub record TlsState : Type 0 where
  pub verified_chains : List (List String)

-- Who the request is from, or why that is not known.
pub data Identity : Type 0 where
  known : String → Identity
  no_tls no_verified_chains : Identity

-- authenticate
unfoldable pub authenticate : Option TlsState → Identity
authenticate none = no_tls
authenticate (some tls) = chains tls.verified_chains
  where
    chains : List (List String) → Identity
    chains [] = no_verified_chains
    chains ([] ∷ more) = no_verified_chains
    chains ((name ∷ issuers) ∷ more) = known name

pub Identity-cases :
    (i : Identity)
    → ((name : String) × (i ≡ known name)) ⊎ ((i ≡ no_tls) ⊎ (i ≡ no_verified_chains))
Identity-cases (known name) = inl (name, refl)
Identity-cases no_tls = inr (inl refl)
Identity-cases no_verified_chains = inr (inr refl)

-- The answer to a request: the middleware's 401, or what the RPC layer makes of it.
pub data Reply {ℓ} (A : Type ℓ) : Type ℓ where
  unauthorized : Reply A
  permission_denied : Reply A
  enforce_failed : Error → Reply A
  answered : A → Reply A

-- The value of the context's key, which only the middleware sets.
abbrev pub get_auth_info : Option String → String
get_auth_info none = ""
get_auth_info (some name) = name

-- AuthMiddleware: the next handler with the context's new value.
unfoldable pub auth_middleware {ℓ} :
    {A : Type ℓ} → (Option String → Reply A) → Option TlsState → Reply A
auth_middleware next tls = elim (authenticate tls) [
  | known name ↦ next (some name)
  | no_tls ↦ unauthorized
  | no_verified_chains ↦ unauthorized
]

module _ (enforce : String → String → String → Result Bool) where
  -- Interceptor, for a request of the procedure.
  unfoldable pub interceptor {ℓ} :
      {A : Type ℓ} → (Option String → Reply A) → String → Option String → Reply A
  interceptor next procedure ctx = elim (enforce (get_auth_info ctx) "*" procedure) [
    | err e ↦ enforce_failed e
    | ok allowed ↦ if allowed then next ctx else permission_denied
  ]

  -- A request as setupServer of internal/agent/agent.go serves it: the middleware around the
  -- interceptor around the handler.
  unfoldable pub serve {ℓ} : {A : Type ℓ} → (String → A) → String → Option TlsState → Reply A
  unfolding interceptor
  serve handler procedure =
      auth_middleware (interceptor (λ ctx. answered (handler (get_auth_info ctx))) procedure)

  -- The request carries a verified certificate with this name, which may call the procedure.
  abbrev pub IsAllowed : String → Option TlsState → String → Type 0
  IsAllowed procedure tls name =
      (authenticate tls ≡ known name) × (enforce name "*" procedure ≡ ok true)

  -- A request reaches the handler exactly where a verified client certificate names somebody who may
  -- call its procedure, and then the handler sees that name; in every other case the answer is an
  -- error that does not depend on the handler.
  pub serve_cases {ℓ} :
      {A : Type ℓ} (handler other : String → A) (procedure : String) (tls : Option TlsState) (a : A)
      → ((name : String) × IsAllowed procedure tls name
          × (serve handler procedure tls ≡ answered (handler name)))
        ⊎ ((serve handler procedure tls ≡ serve other procedure tls)
            × (serve handler procedure tls ≢ answered a))
  unfolding serve auth_middleware interceptor
  serve_cases handler other procedure tls a = elim (Identity-cases (authenticate tls)) [
    | inr unknown ↦ inr (ground (arith, unknown), ground (arith, unknown))
    | inl (name, it) ↦ elim (Result-cases (enforce name "*" procedure)) [
      | inr (e, bad) ↦ inr (ground (arith, it, bad), ground (arith, it, bad))
      | inl (allowed, decided) ↦ elim (Bool-cases allowed) [
        | inl may ↦ inl (name, (it, decided ∙ ap ok may), ground (arith, it, decided, may))
        | inr may_not ↦
            inr (ground (arith, it, decided, may_not), ground (arith, it, decided, may_not))
      ]
    ]
  ]

-- connectrpc.com/connect: an interceptor wraps the handlers of unary and of streaming procedures, and
-- one that UnaryInterceptorFunc makes of a function wraps the unary ones by it and leaves the
-- streaming ones as they are.
pub record Connect (A : Type 0) : Type 1 where
  pub Interceptor : Type 0
  pub unary_interceptor_func : ((Option String → Reply A) → Option String → Reply A) → Interceptor
  pub wrap_unary : Interceptor → (Option String → Reply A) → Option String → Reply A
  pub wrap_streaming : Interceptor → (Option String → Reply A) → Option String → Reply A
  pub wraps_unary :
      (f : (Option String → Reply A) → Option String → Reply A) (next : Option String → Reply A)
      → wrap_unary (unary_interceptor_func f) next ≡ f next
  pub leaves_streaming :
      (f : (Option String → Reply A) → Option String → Reply A) (next : Option String → Reply A)
      → wrap_streaming (unary_interceptor_func f) next ≡ next

module _ {A : Type 0} (connect : Connect A) (enforce : String → String → String → Result Bool) where
  open connect use {
    Interceptor, unary_interceptor_func, wrap_unary, wrap_streaming, wraps_unary, leaves_streaming,
  }

  -- Interceptor of authorizer.go, as the value that it returns.
  unfoldable pub acl_interceptor : String → Interceptor
  acl_interceptor procedure = unary_interceptor_func (λ next. interceptor enforce next procedure)

  -- A unary and a streaming procedure as the agent serves them.
  unfoldable pub serve_unary : (String → A) → String → Option TlsState → Reply A
  serve_unary handler procedure =
      auth_middleware
        (wrap_unary (acl_interceptor procedure) (λ ctx. answered (handler (get_auth_info ctx))))

  unfoldable pub serve_streaming : (String → A) → String → Option TlsState → Reply A
  serve_streaming handler procedure =
      auth_middleware
        (wrap_streaming (acl_interceptor procedure) (λ ctx. answered (handler (get_auth_info ctx))))

  -- A unary procedure is served through the access control, which `serve` describes. A streaming one
  -- is served to everybody with a verified client certificate, whatever the access control says of
  -- the name.
  pub serve_streaming-unchecked :
      (handler : String → A) (procedure name : String) (tls : Option TlsState)
      → authenticate tls ≡ known name
      → (serve_unary handler procedure tls ≡ serve enforce handler procedure tls)
        × (serve_streaming handler procedure tls ≡ answered (handler name))
  unfolding serve_unary serve_streaming acl_interceptor serve auth_middleware
  serve_streaming-unchecked handler procedure name tls it =
      let next : Option String → Reply A = λ ctx. answered (handler (get_auth_info ctx)) in
      let f = λ (g : Option String → Reply A). interceptor enforce g procedure in
      (
        ap (λ g. auth_middleware g tls) (wraps_unary f next),
        ap (λ g. auth_middleware g tls) (leaves_streaming f next) ∙ ground (arith, it),
      )
