-- ===== src/Replicator/CopyingTests.antt =====
-- The theorem on two nodes that replicate at inputs.
use distributed_systems_trai.Base.{◌≡◌, refl, some, List, [], ◌∷◌, ◌++◌, arith, replicate}
use distributed_systems_trai.CommitLog.Message.{Record}
use distributed_systems_trai.CommitLog.Plain.{plain}
use distributed_systems_trai.CommitLog.Log.{Log, new_log}
use distributed_systems_trai.CommitLog.LogTests.{config, at}
use distributed_systems_trai.CommitLog.Log.Refinement.{Represents}
use distributed_systems_trai.CommitLog.Log.Refinement.Sessions.{new_log-Represents}
use distributed_systems_trai.CommitLog.ReopenTests.{
  config-IsRegular, narrow, narrow-IsRegular, at-Marshals,
}
use distributed_systems_trai.Distributed.Fsm.History.{stamp}
use distributed_systems_trai.Server.{consume_stream, produce, of_log}
use distributed_systems_trai.Server.Streams.{round, consume_stream-Represents}
use distributed_systems_trai.Server.Tests.{one_log, one_log-Represents}
use distributed_systems_trai.Replicator.Receiving.{
  Session, opened, take_record, Reached, here, next, receive, send, take_one,
}
use distributed_systems_trai.Replicator.Copying.{Reached-Represents}

abbrev sent : List Record
sent =
    (consume_stream (of_log plain) one_log 0 (replicate 3 (round plain config config-IsRegular))).1

sent_lem : sent ≡ at 0 ∷ []
sent_lem =
    consume_stream-Represents plain config config-IsRegular 3 0 0 (at 0 ∷ []) one_log
      one_log-Represents (omega arith)

abbrev local : Log
local = (new_log (some []) narrow).0

abbrev at_start : Session (produce (of_log plain))
at_start = opened (produce (of_log plain)) local sent

abbrev one_sent : Session (produce (of_log plain))
one_sent = record at_start { incoming = []; buffer = at 0 ∷ [] }

one_taken-Reached :
    Reached
      (produce (of_log plain))
      at_start
      (take_record (produce (of_log plain)) one_sent (at 0) [])
one_taken-Reached =
    next (next (next here (receive (at 0) [] refl refl sent_lem)) (send (at 0) refl (omega arith)))
      (take_one (at 0) [] refl refl)

Reached-Represents_example :
    (taken : List Record) × (rest : List Record) × (at 0 ∷ [] ≡ taken ++ rest)
    × Represents plain narrow 0
        (stamp 0 taken)
        (take_record (produce (of_log plain)) one_sent (at 0) []).local
Reached-Represents_example =
    Reached-Represents plain narrow narrow-IsRegular config config-IsRegular 3 0 (at 0 ∷ []) []
      one_log local one_log-Represents (omega arith)
      (new_log-Represents plain narrow narrow-IsRegular (omega arith)) (at-Marshals narrow 0, tt)
      (omega arith) one_taken-Reached
