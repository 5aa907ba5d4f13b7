-- ===== src/Distributed/Tests.antt =====
-- The theorems on Raft's store, state machine and membership at inputs.
use Prim.Native.String.{String}
use distributed_systems_trai.Base.{
  ◌≡◌, refl, ap, ◌↔◌, List, [], ◌∷◌, ◌++◌, arith, fault, out_of_range, ok, err, ◌>>=◌,
}
use distributed_systems_trai.CommitLog.Plain.{encode, decode, decode-encode, plain}
use distributed_systems_trai.CommitLog.Segment
use distributed_systems_trai.CommitLog.Store
use distributed_systems_trai.CommitLog.Index
use distributed_systems_trai.Base.Words.{put_uint}
use distributed_systems_trai.Base.Slices.{write}
use distributed_systems_trai.CommitLog.Log.Invariant.{running}
use distributed_systems_trai.CommitLog.Log.Operations.{append}
use distributed_systems_trai.CommitLog.Log.Contract.{offsets_of_log}
use distributed_systems_trai.CommitLog.LogTests.{
  config, at, bytes_at, length-bytes_at, empty_segment, size-empty, empty-IsSound, one, one-IsSound,
  files,
}
use distributed_systems_trai.Distributed.LogStore.{
  Entry, store_log, get_log, delete_range, first_index, last_index, get_log-store_log,
  delete_range-suffix,
}
use distributed_systems_trai.Distributed.Fsm.{
  RequestCodec, command, restore, apply, restore-ok, apply-command,
}
use distributed_systems_trai.Distributed.Membership.{
  Server, filter_id, Raft, join, join-new, join-member, join_keeps_stale,
}

abbrev entry : Entry
entry = record { index = 0; term = 1; type = 0; payload = b'h' ∷ b'i' ∷ [] }

get_log-store_log_example :
    (get_log plain (store_log plain (running config files [] (empty_segment config)) entry).0 0).1
    ≡ ok entry
get_log-store_log_example =
    (get_log-store_log plain 0 config files [] (empty_segment config) entry (bytes_at 0)
      empty-IsSound refl (omega arith, omega (arith, length-bytes_at 0, size-empty), omega arith)).1

last_of_one : last_index (running config files [] (one config)) ≡ ok 0
unfolding last_index Segment.append Store.append Store.new_store Index.write_entry put_uint write
last_of_one = (offsets_of_log plain 0 config files [] (one config) one-IsSound).1

delete_range-suffix_example :
    ((delete_range (running config files [] (one config)) 0 0).1 ≡ ok tt)
    × ((get_log plain (delete_range (running config files [] (one config)) 0 0).0 0).1
        ≡ err (out_of_range 0))
    × (first_index (delete_range (running config files [] (one config)) 0 0).0 ≡ err fault)
delete_range-suffix_example =
    delete_range-suffix plain 0 config files [] (one config) 0 0 0 one-IsSound (omega arith)
      last_of_one

restore-ok_example :
    (restore plain (running config files [] (one config)) (put_uint 8 0)).1 ≡ ok tt
    ↔ put_uint 8 0 ≡ []
restore-ok_example = restore-ok plain (running config files [] (one config)) (put_uint 8 0)

abbrev requests : RequestCodec
requests = record { to_bytes = encode; of_bytes = decode; of_to = decode-encode }

apply-command_test :
    ((apply plain requests (running config files [] (empty_segment config)) (0 ∷ bytes_at 0)).0
      ≡ (append plain (running config files [] (empty_segment config)) (at 0)).0)
unfolding command
apply-command_test =
    (apply-command plain requests 0 config files [] (empty_segment config) (at 0) (bytes_at 0)
      (0 ∷ bytes_at 0) [] 7 empty-IsSound refl
      (omega arith, omega (arith, length-bytes_at 0, size-empty), omega arith) refl (omega arith)).0

-- A cluster that is its list of servers.
abbrev pub cluster : Raft
cluster = record {
  Cluster = List Server;
  configuration = ok;
  remove_server = λ k id. (filter_id id k, ok tt);
  add_voter = λ k id addr. (k ++ (record { id = id; address = addr } ∷ []), ok tt);
  removes = λ k id servers found _. ap (λ r. r >>= λ srvs. ok (filter_id id srvs)) found;
}

abbrev pub node : String → String → Server
node id addr = record { id = id; address = addr }

join-new_test : join cluster (node "a" "x" ∷ []) "b" "y" ≡ (node "a" "x" ∷ node "b" "y" ∷ [], ok tt)
join-new_test =
    join-new cluster (node "a" "x" ∷ []) "b" "y" (node "a" "x" ∷ []) ((refl, refl), tt) refl

join-member_test :
    join cluster (node "a" "x" ∷ node "b" "y" ∷ []) "b" "y"
    ≡ (node "a" "x" ∷ node "b" "y" ∷ [], ok tt)
join-member_test =
    join-member cluster (node "a" "x" ∷ node "b" "y" ∷ []) "b" "y" (node "a" "x" ∷ []) []
      ((refl, refl), tt) refl

join_keeps_stale_example :
    (join cluster (node "a" "y" ∷ []) "b" "y" ≡ (node "a" "y" ∷ node "b" "y" ∷ [], ok tt))
    × (cluster.configuration (node "a" "y" ∷ []) ≡ ok (node "a" "y" ∷ []))
unfolding filter_id
join_keeps_stale_example =
    join_keeps_stale cluster (node "a" "y" ∷ []) "b" "y" (node "a" "y") refl refl refl refl
