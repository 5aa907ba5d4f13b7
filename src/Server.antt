-- ===== src/Server.antt =====
-- internal/server/log.go and error.go: the handlers of the log's API over a commit log, which is an
-- interface.
pub mod Tests
pub mod Interceptors
pub mod Streams
pub mod Consuming
pub mod Producing
use distributed_systems_trai.Base.{
  ℕ, Bool, true, false, List, [], ◌∷◌, if◌then◌else◌, Error, eof, out_of_range, Result, ok, err,
}
use distributed_systems_trai.Base.Words.{add64}
use distributed_systems_trai.CommitLog.Message.{Record, Codec}
use distributed_systems_trai.CommitLog.Segment.{Segment, Config}
use distributed_systems_trai.CommitLog.Segment.Reads.{HasRoom}
use distributed_systems_trai.CommitLog.Files.{Directory}
use distributed_systems_trai.CommitLog.Log.{Log}
use distributed_systems_trai.CommitLog.Log.Operations as Operations
use distributed_systems_trai.CommitLog.Log.Invariant.{running, IsSound}
use distributed_systems_trai.CommitLog.Log.Contract.{read-append_log}

-- The interface CommitLog, on a state of its own.
pub record CommitLog : Type 1 where
  pub State : Type 0
  pub append : State → Record → State × Result ℕ
  pub read : State → ℕ → State × Result Record

-- A status that a handler ends with.
pub data Status : Type 0 where
  internal unknown : Error → Status

-- How far a stream has come: it still runs, or it has ended.
pub data Progress : Type 0 where
  waiting finished : Progress
  broken : Status → Progress

-- One round of the loop of ConsumeStream: the context is done; or it is not, and then what others
-- have made of the log since the last round, and what Send will return.
pub data Turn (S : Type 0) : Type 0 where
  cancelled : Turn S
  poll : (S → S) → Result (Unit {0}) → Turn S

-- What Receive returns.
pub data Incoming : Type 0 where
  message : Record → Incoming
  receive_failed : Error → Incoming

-- The cases of the switch on the error's type.
abbrev pub is_out_of_range : Error → Bool
is_out_of_range (out_of_range off) = true
is_out_of_range e = false

-- A Go error: one of the log's, which are values, or a pointer to an ErrOffsetOutOfRange; and an error
-- of the code NotFound with the offset in its details.
pub data GoError : Type 0 where
  by_value : Error → GoError
  by_pointer : ℕ → GoError
  not_found : ℕ → GoError

-- WrapToConnectError: errors.As looks for the pointer.
unfoldable pub wrap_to_connect_error : GoError → GoError
wrap_to_connect_error (by_value e) = by_value e
wrap_to_connect_error (by_pointer off) = not_found off
wrap_to_connect_error (not_found off) = not_found off

module _ (commit_log : CommitLog) where
  open commit_log use {State, append, read}

  -- Consume and Produce
  unfoldable pub consume : State → ℕ → State × Result Record
  consume s off = read s off

  unfoldable pub produce : State → Record → State × Result ℕ
  produce s r = append s r

  -- ConsumeStream: the state of the log, the records that were sent, and whether it has ended.
  unfoldable pub consume_stream : State → ℕ → List (Turn State) → State × List Record × Progress
  unfolding consume
  consume_stream s off [] = (s, [], waiting)
  consume_stream s off (cancelled ∷ ts) = (s, [], finished)
  consume_stream s off (poll others sending ∷ ts) =
      let (s', r) = consume (others s) off in
      elim r [
        | err e ↦
            let again = consume_stream s' off ts in
            if is_out_of_range e then again else (s', [], broken (internal e))
        | ok r ↦ elim sending [
          | err e ↦ (s', [], broken (internal e))
          | ok u ↦
              let (s'', sent, progress) = consume_stream s' (add64 off 1) ts in
              (s'', r ∷ sent, progress)
        ]
      ]

  -- ProduceStream, on what Receive and Send return in turn: the state of the log, the offsets that
  -- were sent, and whether it has ended.
  unfoldable pub produce_stream :
      State → List (Incoming × Result (Unit {0})) → State × List ℕ × Progress
  unfolding produce
  produce_stream s [] = (s, [], waiting)
  produce_stream s ((receive_failed eof, sending) ∷ more) = (s, [], finished)
  produce_stream s ((receive_failed e, sending) ∷ more) = (s, [], broken (unknown e))
  produce_stream s ((message r, sending) ∷ more) =
      let (s', outcome) = produce s r in
      elim outcome [
        | err e ↦ (s', [], broken (internal e))
        | ok off ↦ elim sending [
          | err e ↦ (s', [], broken (internal e))
          | ok u ↦ let (s'', sent, progress) = produce_stream s' more in (s'', off ∷ sent, progress)
        ]
      ]

-- internal/log as the commit log.
abbrev pub of_log : Codec → CommitLog
of_log proto = record {
  State = Log;
  append = Operations.append proto;
  read = Operations.read proto;
}
