-- ===== src/Server/Interceptors.antt =====
-- NewErrorInterceptor of internal/server/error.go and LoggingInterceptor of internal/server/logging.go.
-- connect's CodeOf is a parameter; the times of the log entry are left out.
use distributed_systems_trai.Base.{
  ℕ, ◌≡◌, ◌≢◌, ◌⊎◌, inl, inr, Option, none, some, arith, Error, Result, ok, err, Result-cases,
}
use Prim.Native.String.{String}
use distributed_systems_trai.CommitLog.Message.{Record}
use distributed_systems_trai.Server.{
  CommitLog, GoError, by_value, not_found, wrap_to_connect_error, consume,
}

-- What the interceptor reads of a request: the method and the service of its schema, if it has one.
pub record Request : Type 0 where
  pub peer : String
  pub procedure : String
  pub schema : Option (String × String)

-- What a call was of: a procedure, or a method of a service.
pub data Target : Type 0 where
  of_procedure : String → Target
  of_method : String → String → Target

pub record Entry : Type 0 where
  pub code : String
  pub peer : String
  pub target : Target

-- A response and an error, which is none for nil.
abbrev pub Reply : Type 0 → Type 0
Reply A = Option A × Option GoError

abbrev wrap : Option GoError → Option GoError
wrap none = none
wrap (some e) = some (wrap_to_connect_error e)

-- NewErrorInterceptor
unfoldable pub error_interceptor : {A : Type 0} → (Request → Reply A) → Request → Reply A
error_interceptor next req = ((next req).0, wrap (next req).1)

target_of : Request → Option (String × String) → Target
target_of req none = of_procedure req.procedure
target_of req (some (method, service)) = of_method method service

code_or_ok : (GoError → String) → Option GoError → String
code_or_ok code_of none = "OK"
code_or_ok code_of (some e) = code_of e

-- LoggingInterceptor: the reply, and the entry that is logged.
unfoldable pub logging_interceptor :
    {A : Type 0} → (GoError → String) → (Request → Reply A) → Request → Reply A × Entry
unfolding target_of code_or_ok
logging_interceptor code_of next req =
    let (res, e) = next req in
    (
      (res, wrap e),
      record { code = code_or_ok code_of e; peer = req.peer; target = target_of req req.schema },
    )

-- The reply of Consume and Produce: the log's errors are values.
unfoldable pub reply_of : {A : Type 0} → Result A → Reply A
reply_of (ok a) = (some a, none)
reply_of (err e) = (none, some (by_value e))

-- Consume behind the logging interceptor alone, for an error that the log returns by value: what Read
-- returns comes through unchanged, and the entry says OK just where Read succeeds.
pub logging_interceptor-consume :
    (commit_log : CommitLog) (code_of : GoError → String) (s : commit_log.State) (off missing : ℕ)
    (req : Request)
    → ((r : Record) × ((consume commit_log s off).1 ≡ ok r)
        × ((logging_interceptor code_of (λ _. reply_of (consume commit_log s off).1) req).0
            ≡ (some r, none))
        × ((logging_interceptor code_of (λ _. reply_of (consume commit_log s off).1) req).1.code
            ≡ "OK"))
      ⊎ ((e : Error) × ((consume commit_log s off).1 ≡ err e)
          × ((logging_interceptor code_of (λ _. reply_of (consume commit_log s off).1) req).0
              ≡ (none, some (by_value e)))
          × ((logging_interceptor code_of (λ _. reply_of (consume commit_log s off).1) req).1.code
              ≡ code_of (by_value e))
          × (some (by_value e) ≢ some (not_found missing)))
unfolding logging_interceptor reply_of wrap_to_connect_error
logging_interceptor-consume commit_log code_of s off missing req =
    elim (Result-cases (consume commit_log s off).1) [
      | inl (r, got) ↦ inl (r, got, ground (arith, got), ground (arith, got))
      | inr (e, failed) ↦
          inr (e, failed, ground (arith, failed), ground (arith, failed), λ same. cc same)
    ]
