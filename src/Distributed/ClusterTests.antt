-- ===== src/Distributed/ClusterTests.antt =====
-- The theorems on the nodes of a cluster at inputs.
use distributed_systems_trai.Base.{
  ℕ, ◌≡◌, refl, some, List, [], ◌∷◌, arith, out_of_range, Result, ok, err,
}
use distributed_systems_trai.CommitLog.Plain.{plain}
use distributed_systems_trai.CommitLog.Log.{Log, new_log}
use distributed_systems_trai.CommitLog.LogTests.{config, at, bytes_at}
use distributed_systems_trai.CommitLog.ReopenTests.{
  config-IsRegular, narrow, narrow-IsRegular, at-Marshals,
}
use distributed_systems_trai.CommitLog.Log.Refinement.{spec_read}
use distributed_systems_trai.Distributed.Fsm.{Response, command, apply}
use distributed_systems_trai.Distributed.Fsm.History.{Replayed, fresh, applied, read-Replayed}
use distributed_systems_trai.Distributed.Startup.{read}
use distributed_systems_trai.Distributed.Cluster.{
  append, read-read, read-append_cluster, restart, read-restart,
}
use distributed_systems_trai.Distributed.SetupTests.{requests}

abbrev one_applied : Log
one_applied = (apply plain requests (new_log (some []) config).0 (0 ∷ bytes_at 7)).0

abbrev two_applied : Log
two_applied =
    (apply plain requests (apply plain requests (new_log (some []) narrow).0 (0 ∷ bytes_at 7)).0
      (0 ∷ bytes_at 8)).0

one-Replayed : Replayed plain requests config (at 7 ∷ []) one_applied
unfolding command
one-Replayed = applied (at 7) (0 ∷ bytes_at 7) refl (at-Marshals config 7) fresh

two-Replayed : Replayed plain requests narrow (at 7 ∷ at 8 ∷ []) two_applied
unfolding command
two-Replayed =
    applied (at 8) (0 ∷ bytes_at 8) refl (at-Marshals narrow 8)
      (applied (at 7) (0 ∷ bytes_at 7) refl (at-Marshals narrow 7) fresh)

found_one : (read plain one_applied 0).1 ≡ ok (at 0)
unfolding spec_read read
found_one = read-Replayed plain requests config config-IsRegular 0 one-Replayed (omega arith)

read-read_example : (read plain two_applied 0).1 ≡ ok (at 0)
read-read_example =
    read-read plain requests config narrow config-IsRegular narrow-IsRegular refl (at 7 ∷ [])
      (at 8 ∷ []) one_applied two_applied 0 (at 0) one-Replayed two-Replayed (omega arith) found_one

-- A Raft of one node, which applies a request at once.
abbrev apply_at_once : Log → List ℕ → Log × Result Response
apply_at_once l b = apply plain requests l b

read-append_cluster_example :
    ((append requests apply_at_once one_applied (at 8)).1 ≡ ok 1)
    × ((read plain two_applied 1).1 ≡ ok (at 1))
unfolding command
read-append_cluster_example =
    read-append_cluster plain requests config narrow config-IsRegular narrow-IsRegular refl
      apply_at_once one_applied (at 8) (0 ∷ bytes_at 8) (at 7 ∷ []) [] one_applied two_applied refl
      (at-Marshals config 8) one-Replayed refl two-Replayed (omega arith)

read-restart_example :
    ((read plain one_applied 1).1 ≡ err (out_of_range 1))
    × ((read plain (restart plain requests config one_applied ((0 ∷ bytes_at 7) ∷ [])) 1).1
        ≡ ok (at 1))
unfolding command
read-restart_example =
    read-restart plain requests config config-IsRegular (at 7) [] ((0 ∷ bytes_at 7) ∷ [])
      one_applied one-Replayed (refl, tt) (at-Marshals config 7, tt) (omega arith)
