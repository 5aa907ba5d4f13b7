-- ===== src/Rpc/Access.antt =====
-- Who is served what, by the paths of gen/log/v1/logv1connect/log.connect.go behind the access control.
use text.Mathlib.Text.{◌==◌ as str_eq}
use text.Mathlib.TextEquality.{eq_iff}
use Prim.Native.String.{String}
use distributed_systems_trai.Base.{
  ◌≡◌, refl, sym, ap, ◌∙◌, ◌↔◌, ◌⊎◌, inl, inr, Bool, true, false, Option, none, some, arith,
  Bool-cases, Option-cases, Result, ok,
}
use distributed_systems_trai.Auth.{
  TlsState, Reply, answered, unauthorized, authenticate, known, no_tls, no_verified_chains, Connect,
  serve, serve_unary, serve_streaming, serve_streaming-unchecked, auth_middleware, serve_cases,
  Identity-cases, interceptor,
}
use distributed_systems_trai.Rpc.{
  Procedure, produce, consume, consume_stream, produce_stream, path_of, route, is_unary, Answer,
  serve_procedure, serve_path,
}

route-path_of : (p : Procedure) → route (path_of p) ≡ some p
unfolding route
route-path_of produce = refl
route-path_of consume = refl
route-path_of consume_stream = refl
route-path_of produce_stream = refl

path_of-route : (path : String) (p : Procedure) → route path ≡ some p → path ≡ path_of p
unfolding route
path_of-route path p h = elim (Bool-cases (str_eq path (path_of produce))) [
  | inl a ↦
      let e : produce ≡ p = ground (arith, h, a) in
      ground (arith, a, eq_iff path (path_of produce)) ∙ ap path_of e
  | inr a ↦ elim (Bool-cases (str_eq path (path_of consume))) [
    | inl b ↦
        let e : consume ≡ p = ground (arith, h, a, b) in
        ground (arith, b, eq_iff path (path_of consume)) ∙ ap path_of e
    | inr b ↦ elim (Bool-cases (str_eq path (path_of consume_stream))) [
      | inl c ↦
          let e : consume_stream ≡ p = ground (arith, h, a, b, c) in
          ground (arith, c, eq_iff path (path_of consume_stream)) ∙ ap path_of e
      | inr c ↦ elim (Bool-cases (str_eq path (path_of produce_stream))) [
        | inl d ↦
            let e : produce_stream ≡ p = ground (arith, h, a, b, c, d) in
            ground (arith, d, eq_iff path (path_of produce_stream)) ∙ ap path_of e
        | inr d ↦ ground (arith, h, a, b, c, d)
      ]
    ]
  ]
]

module _ (connect : Connect Answer) (enforce : String → String → String → Result Bool) where
  serve_path-found :
      (path : String) (tls : Option TlsState) (p : Procedure)
      → route path ≡ some p
      → serve_path connect enforce path tls ≡ serve_procedure connect enforce p tls
  unfolding serve_path
  serve_path-found path tls p found = ground (arith, found)

  serve_path-none :
      (path : String) (tls : Option TlsState)
      → route path ≡ none
      → serve_path connect enforce path tls ≡ auth_middleware (λ ctx. answered none) tls
  unfolding serve_path
  serve_path-none path tls missing = ground (arith, missing)

  auth_middleware-unknown :
      (next : Option String → Reply Answer) (tls : Option TlsState)
      → (authenticate tls ≡ no_tls) ⊎ (authenticate tls ≡ no_verified_chains)
      → auth_middleware next tls ≡ unauthorized
  unfolding auth_middleware
  auth_middleware-unknown next tls unknown = ground (arith, unknown)

  serve_path-unknown :
      (path : String) (tls : Option TlsState)
      → (authenticate tls ≡ no_tls) ⊎ (authenticate tls ≡ no_verified_chains)
      → serve_path connect enforce path tls ≡ unauthorized
  unfolding serve_procedure serve_unary serve_streaming
  serve_path-unknown path tls unknown = elim (Option-cases (route path)) [
    | inl missing ↦ serve_path-none path tls missing ∙ auth_middleware-unknown _ tls unknown
    | inr (p, found) ↦ elim (Bool-cases (is_unary p)) [
      | inl unary ↦
          serve_path-found path tls p found ∙ rw unary (auth_middleware-unknown _ tls unknown)
      | inr streams ↦
          serve_path-found path tls p found ∙ rw streams (auth_middleware-unknown _ tls unknown)
    ]
  ]

  serve_path-missing :
      (path name : String) (tls : Option TlsState)
      → authenticate tls ≡ known name
      → route path ≡ none
      → serve_path connect enforce path tls ≡ answered none
  unfolding auth_middleware
  serve_path-missing path name tls it missing =
      serve_path-none path tls missing ∙ ground (arith, it)

  module _ (path name : String) (tls : Option TlsState) (p : Procedure)
      (it : authenticate tls ≡ known name) (found : route path ≡ some p) where
    serve_path-streams :
        is_unary p ≡ false → serve_path connect enforce path tls ≡ answered (some (p, name))
    unfolding serve_procedure
    serve_path-streams streams =
        serve_path-found path tls p found
        ∙ rw streams
            (serve_streaming-unchecked connect enforce (λ n. some (p, n)) (path_of p) name tls it).1

    serve_path-unary :
        is_unary p ≡ true
        → serve_path connect enforce path tls ≡ serve enforce (λ n. some (p, n)) (path_of p) tls
    unfolding serve_procedure
    serve_path-unary unary =
        serve_path-found path tls p found
        ∙ rw unary
            (serve_streaming-unchecked connect enforce (λ n. some (p, n)) (path_of p) name tls it).0

    serve_path-cases :
        (a : Procedure × String)
        → serve_path connect enforce path tls ≡ answered (some a)
        → (a ≡ (p, name)) × ((is_unary p ≡ false) ⊎ (enforce name "*" (path_of p) ≡ ok true))
    serve_path-cases a h = elim (Bool-cases (is_unary p)) [
      | inr streams ↦ (cc (serve_path-streams streams, h), inl streams)
      | inl unary ↦
          elim (serve_cases enforce (λ n. some (p, n)) (λ n. some (p, n)) (path_of p) tls
            (some a)) [
              | inl (n, (who, allowed), served) ↦
                  let same : n ≡ name = cc (who, it) in
                  (
                    cc (serve_path-unary unary, h, served, same),
                    inr (ap (λ x. enforce x "*" (path_of p)) (sym same) ∙ allowed),
                  )
              | inr (_, denied) ↦ absurd (denied (sym (serve_path-unary unary) ∙ h))
            ]
    ]

    serve_path-allowed :
        enforce name "*" (path_of p) ≡ ok true
        → serve_path connect enforce path tls ≡ answered (some (p, name))
    unfolding serve auth_middleware interceptor
    serve_path-allowed allowed = elim (Bool-cases (is_unary p)) [
      | inr streams ↦ serve_path-streams streams
      | inl unary ↦ serve_path-unary unary ∙ ground (arith, it, allowed)
    ]

  -- A request is answered by the handler of a procedure, as a caller of some name, exactly where its
  -- path is that of the procedure, its verified client certificate has that name, and either the
  -- procedure is one of streams or the access control lets the name call the path.
  pub serve_path_iff :
      (path name : String) (tls : Option TlsState) (p : Procedure)
      → (serve_path connect enforce path tls ≡ answered (some (p, name))) ↔ (
          (path ≡ path_of p)
          × (authenticate tls ≡ known name)
          × ((is_unary p ≡ false) ⊎ (enforce name "*" path ≡ ok true)))
  serve_path_iff path name tls p = (reaches, allows)
    where
      reaches :
          serve_path connect enforce path tls ≡ answered (some (p, name))
          → (path ≡ path_of p)
            × (authenticate tls ≡ known name)
            × ((is_unary p ≡ false) ⊎ (enforce name "*" path ≡ ok true))
      reaches h = elim (Identity-cases (authenticate tls)) [
        | inr unknown ↦ absurd (cc (serve_path-unknown path tls unknown, h))
        | inl (n, it) ↦ elim (Option-cases (route path)) [
          | inl missing ↦ absurd (cc (serve_path-missing path n tls it missing, h))
          | inr (q, found) ↦
              let (same, may) = serve_path-cases path n tls q it found (p, name) h in
              let p_is : p ≡ q = ap (λ x. x.0) same in
              let n_is : name ≡ n = ap (λ x. x.1) same in
              let here = path_of-route path q found in
              (
                here ∙ ap path_of (sym p_is),
                it ∙ ap known (sym n_is),
                elim may [
                  | inl streams ↦ inl (ap is_unary p_is ∙ streams)
                  | inr allowed ↦
                      inr (ap (λ x. enforce x "*" path) n_is ∙ ap (enforce n "*") here ∙ allowed)
                ],
              )
        ]
      ]

      allows :
          (path ≡ path_of p)
            × (authenticate tls ≡ known name)
            × ((is_unary p ≡ false) ⊎ (enforce name "*" path ≡ ok true))
          → serve_path connect enforce path tls ≡ answered (some (p, name))
      allows (here, it, may) =
          let found = ap route here ∙ route-path_of p in
          elim may [
            | inl streams ↦ serve_path-streams path name tls p it found streams
            | inr allowed ↦
                serve_path-allowed path name tls p it found
                  (ap (enforce name "*") (sym here) ∙ allowed)
          ]
