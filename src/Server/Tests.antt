-- ===== src/Server/Tests.antt =====
-- The theorems on the handlers at inputs.
use distributed_systems_trai.Base.{
  ◌⊎◌, ◌≢◌, none, some, Error, err, ℕ, suc, ◌+◌, ◌≡◌, refl, [], ◌∷◌, ◌++◌, map, arith, ltb,
  if◌then◌else◌, replicate, eof, out_of_range, ok, err,
}
use distributed_systems_trai.CommitLog.Plain.{plain}
use distributed_systems_trai.CommitLog.Log.Invariant.{running}
use distributed_systems_trai.CommitLog.LogTests.{
  config, at, bytes_at, length-bytes_at, empty_segment, size-empty, empty-IsSound, files, one,
}
use Prim.Native.String.{String}
use distributed_systems_trai.CommitLog.Message.{Record}
use distributed_systems_trai.CommitLog.Log.{Log, new_log}
use distributed_systems_trai.CommitLog.Log.Operations.{append}
use distributed_systems_trai.CommitLog.Log.Refinement.{Represents}
use distributed_systems_trai.CommitLog.Log.Refinement.Sessions.{new_log-Represents}
use distributed_systems_trai.CommitLog.Log.Refinement.Steps.{append-Represents}
use distributed_systems_trai.CommitLog.ReopenTests.{config-IsRegular, at-Marshals}
use distributed_systems_trai.Server.Streams.{round, consume_stream-Represents}
use distributed_systems_trai.Server.Interceptors.{
  Request, Entry, Reply, logging_interceptor, reply_of, logging_interceptor-consume,
}
use distributed_systems_trai.Server.{
  GoError, by_value, not_found, CommitLog, poll, cancelled, receive_failed, consume, produce,
  consume_stream, produce_stream, finished, of_log,
}
use distributed_systems_trai.Server.Consuming.{
  IsServed, consume_stream-IsServed, consume_stream-waits,
}
use distributed_systems_trai.Server.Producing.{
  append_all, sends, produce_stream-append_all, consume-produce,
}

-- A log of the offsets below a number.
abbrev counter : CommitLog
counter = record {
  State = ℕ;
  append = λ n r. (suc n, ok n);
  read = λ n off. (n, if ltb off n then ok (at off) else err (out_of_range off));
}

consume_stream-IsServed_example :
    IsServed counter 1
      (consume_stream counter 1 1 (
        poll (λ n. n) (ok tt)
        ∷ poll (λ n. n + 1) (ok tt)
        ∷ poll (λ n. n + 1) (ok tt)
        ∷ cancelled
        ∷ [])).1
consume_stream-IsServed_example =
    consume_stream-IsServed counter 1 1 (
      poll (λ n. n) (ok tt)
      ∷ poll (λ n. n + 1) (ok tt)
      ∷ poll (λ n. n + 1) (ok tt)
      ∷ cancelled
      ∷ [])

consume_stream-waits_test :
    consume_stream counter 1 1 (replicate 3 (poll (λ n. n) (ok tt)) ++ (cancelled ∷ []))
    ≡ consume_stream counter 1 1 (cancelled ∷ [])
consume_stream-waits_test = consume_stream-waits counter 1 1 1 3 (ok tt) (cancelled ∷ []) refl

produce_stream-append_all_example :
    produce_stream counter 4
      (map (sends counter) (at 0 ∷ at 0 ∷ []) ++ ((receive_failed eof, ok tt) ∷ []))
    ≡ (6, 4 ∷ 5 ∷ [], finished)
unfolding append_all
produce_stream-append_all_example =
    produce_stream-append_all counter 4 6 (at 0 ∷ at 0 ∷ []) (4 ∷ 5 ∷ []) (ok tt) refl

consume-produce_test :
    (consume
      (of_log plain)
      (produce (of_log plain) (running config files [] (empty_segment config)) (at 0)).0
      0).1
    ≡ ok (at 0)
consume-produce_test =
    (consume-produce plain 0 config files [] (empty_segment config) (at 0) (bytes_at 0)
      empty-IsSound refl (omega arith, omega (arith, length-bytes_at 0, size-empty), omega arith)).1

abbrev request : Request
request = record { peer = "node"; procedure = "Consume"; schema = none }

-- Every error has this code.
abbrev code_of : GoError → String
code_of e = "unknown"

abbrev served : ℕ → Reply Record × Entry
served off =
    logging_interceptor code_of
      (λ _. reply_of (consume (of_log plain) (running config files [] (one config)) off).1) request

logging_interceptor-consume_test :
    ((r : Record) × ((consume (of_log plain) (running config files [] (one config)) 1).1 ≡ ok r)
      × ((served 1).0 ≡ (some r, none))
      × ((served 1).1.code ≡ "OK"))
    ⊎ ((e : Error) × ((consume (of_log plain) (running config files [] (one config)) 1).1 ≡ err e)
        × ((served 1).0 ≡ (none, some (by_value e)))
        × ((served 1).1.code ≡ "unknown")
        × (some (by_value e) ≢ some (not_found 1)))
logging_interceptor-consume_test =
    logging_interceptor-consume (of_log plain) code_of (running config files [] (one config)) 1 1
      request

abbrev pub one_log : Log
one_log = (append plain (new_log (some []) config).0 (at 7)).0

pub one_log-Represents : Represents plain config 0 (at 0 ∷ []) one_log
one_log-Represents =
    (append-Represents plain config config-IsRegular
      (new_log-Represents plain config config-IsRegular (omega arith)) (at 7) (at-Marshals config 7)
      (omega arith)).1

-- Of three rounds one sends the record, and the others wait for the next.
consume_stream-Represents_example :
    (consume_stream (of_log plain) one_log 0 (replicate 3 (round plain config config-IsRegular))).1
    ≡ at 0 ∷ []
consume_stream-Represents_example =
    consume_stream-Represents plain config config-IsRegular 3 0 0 (at 0 ∷ []) one_log
      one_log-Represents (omega arith)
