-- ===== src/Rpc.antt =====
-- gen/log/v1/logv1connect/log.connect.go: the procedures of the log's API, the addresses that a client
-- calls, and the switch of the handler; with the access control around it, as
-- internal/agent/agent.go puts them together. connectrpc.com/connect is a parameter, and a path is what
-- http.ServeMux passes on.
pub mod Access
mod Tests
use text.Mathlib.Text.{◌==◌ as str_eq}
use text.Mathlib.TextEquality.{eq_iff}
use Prim.Native.String.append
use Prim.Native.String.{String, [] as empty, ◌∷◌ as char_cons, ◌++◌ as str_append}
use distributed_systems_trai.Base.{
  ◌≡◌, refl, ap, ◌∙◌, Bool, true, false, not, ◌&&◌, Option, none, some, [], ◌∷◌, ◌++◌, ◌==◌,
  if◌then◌else◌, Result,
}
use distributed_systems_trai.Auth.{
  TlsState, Reply, answered, unauthorized, authenticate, known, no_tls, no_verified_chains, Connect,
  serve, serve_unary, serve_streaming, serve_streaming-unchecked, auth_middleware, serve_cases,
  Identity-cases, interceptor,
}

pub data Procedure : Type 0 where
  produce consume consume_stream produce_stream : Procedure

-- The constants, which are also the paths of the requests.
abbrev pub path_of : Procedure → String
path_of produce = "/log.v1.LogAPI/Produce"
path_of consume = "/log.v1.LogAPI/Consume"
path_of consume_stream = "/log.v1.LogAPI/ConsumeStream"
path_of produce_stream = "/log.v1.LogAPI/ProduceStream"

-- strings.TrimRight with "/".
unfoldable pub trim_right : String → String
trim_right empty = empty
trim_right (char_cons c s) =
    let rest = trim_right s in
    if str_eq rest "" && str_eq (char_cons c empty) "/" then empty else char_cons c rest

-- NewLogAPIClient: the address that it calls for a procedure.
unfoldable pub client_url : String → Procedure → String
unfolding trim_right
client_url base p = str_append (trim_right base) (path_of p)

-- However many slashes end the base, the client calls the same address.
client_url_slash :
    (base : String) (p : Procedure) → client_url (str_append base "/") p ≡ client_url base p
unfolding client_url
client_url_slash base p = ap (λ b. str_append b (path_of p)) (trim_right_slash base)
  where
    trim_right_slash : (s : String) → trim_right (str_append s "/") ≡ trim_right s
    trim_right_slash empty = refl
    trim_right_slash (char_cons c s) =
        ap trim_right (append.cons c s "/")
        ∙ ap
            (λ rest.
              if str_eq rest "" && str_eq (char_cons c empty) "/" then empty else char_cons c rest)
            (trim_right_slash s)

-- The switch of NewLogAPIHandler; the default is NotFound.
unfoldable pub route : String → Option Procedure
route path =
    if str_eq path (path_of produce)
    then some produce
    else if str_eq path (path_of consume)
    then some consume
    else if str_eq path (path_of consume_stream)
    then some consume_stream
    else if str_eq path (path_of produce_stream)
    then some produce_stream
    else none

-- Which handlers NewLogAPIHandler makes: unary ones, or those of streams.
abbrev pub is_unary : Procedure → Bool
is_unary produce = true
is_unary consume = true
is_unary consume_stream = false
is_unary produce_stream = false

-- UnimplementedLogAPIHandler: the message of the error, whose code is Unimplemented.
unfoldable pub unimplemented : Procedure → String
unimplemented produce = "log.v1.LogAPI.Produce is not implemented"
unimplemented consume = "log.v1.LogAPI.Consume is not implemented"
unimplemented consume_stream = "log.v1.LogAPI.ConsumeStream is not implemented"
unimplemented produce_stream = "log.v1.LogAPI.ProduceStream is not implemented"

-- A request with the handlers of the agent: each answers with its procedure and the caller's name,
-- NotFound with none.
abbrev pub Answer : Type 0
Answer = Option (Procedure × String)

module _ (connect : Connect Answer) (enforce : String → String → String → Result Bool) where
  -- The handler of a procedure behind the access control.
  unfoldable pub serve_procedure : Procedure → Option TlsState → Reply Answer
  serve_procedure p =
      if is_unary p
      then serve_unary connect enforce (λ name. some (p, name)) (path_of p)
      else serve_streaming connect enforce (λ name. some (p, name)) (path_of p)

  -- AuthMiddleware around the handler that NewLogAPIHandler returns.
  unfoldable pub serve_path : String → Option TlsState → Reply Answer
  serve_path path tls = elim (route path) [
    | none ↦ auth_middleware (λ ctx. answered none) tls
    | some p ↦ serve_procedure p tls
  ]
