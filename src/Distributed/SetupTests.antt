-- ===== src/Distributed/SetupTests.antt =====
-- The theorems on snapshots, the stream layer and the set-up of Raft at inputs.
use distributed_systems_trai.Base.{
  List, ℕ, ◌≡◌, refl, ◌↔◌, ◌⊎◌, Bool, true, false, none, some, [], ◌∷◌, arith, not_exist, ok, err,
}
use distributed_systems_trai.Base.Words.{put_uint, uint}
use distributed_systems_trai.Base.Slices.{write, slice}
use distributed_systems_trai.CommitLog.Plain.{encode, decode, decode-encode, plain}
use distributed_systems_trai.CommitLog.Store
use distributed_systems_trai.CommitLog.Index
use distributed_systems_trai.CommitLog.Segment
use distributed_systems_trai.CommitLog.Log.{Log, new_log}
use distributed_systems_trai.CommitLog.Log.Operations.{read}
use distributed_systems_trai.CommitLog.Log.Refinement.Sessions.{new_log-Represents}
use distributed_systems_trai.CommitLog.ReopenTests.{
  config-IsRegular, narrow, narrow-IsRegular, at-Marshals,
}
use distributed_systems_trai.CommitLog.Log.Refinement.{spec_read}
use distributed_systems_trai.Distributed.Fsm.Replicas.{apply_all, read-apply_all}
use distributed_systems_trai.CommitLog.Log.Invariant.{running}
use distributed_systems_trai.CommitLog.Log.Reader.{reader, read_all}
use distributed_systems_trai.CommitLog.LogTests.{
  config, at, bytes_at, empty_segment, files, one, one-IsSound,
}
use distributed_systems_trai.Distributed.Fsm.{RequestCodec, produced, command, restore_loop}
use distributed_systems_trai.Distributed.Fsm.Replay.{
  append_records, restore_loop_fuel, restore_loop-read_all,
}
use distributed_systems_trai.Distributed.StreamLayer.{
  NetConn, Conn, accept, dial, is_raft, far_end, conn_of, accept-dial, accept_iff,
}
use distributed_systems_trai.Distributed.Startup.{
  RaftConfig, Config, Raft, wait_for_leader, timed_out, tick, bootstrap_if_new,
  wait_for_leader_ends, bootstrap_if_new_cases,
}

abbrev one_log : Log
one_log = running config files [] (one config)

abbrev empty_log : Log
empty_log = running config files [] (empty_segment config)

restore_loop_fuel_example :
    restore_loop plain 8 false empty_log (put_uint 8 0)
    ≡ restore_loop plain 100 false empty_log (put_uint 8 0)
unfolding put_uint
restore_loop_fuel_example =
    restore_loop_fuel plain 8 100 false empty_log (put_uint 8 0) (omega arith) (omega arith)

restore_loop-read_all_test :
    ((read_all 40 (λ k. 7) (reader (λ s. 0) one_log)).1.1 ≡ ok tt)
    × (restore_loop plain 40 false empty_log (read_all 40 (λ k. 7) (reader (λ s. 0) one_log)).1.0
        ≡ append_records plain empty_log (at 0 ∷ []))
unfolding Segment.append Store.append Store.new_store Index.write_entry put_uint uint slice write
restore_loop-read_all_test =
    restore_loop-read_all plain one_log empty_log (λ s. 0) 40 (λ k. 7) (bytes_at 0 ∷ []) (at 0 ∷ [])
      ((one-IsSound.healthy.store, omega arith), tt) (λ k. (omega arith, omega arith)) (omega arith)
      refl (refl, omega arith, tt)

-- TLS configurations are numbers here.
accept-dial_example :
    (made : NetConn ℕ) × (taken : NetConn ℕ) × (dial
        (some 3)
        (ok (record { incoming = []; outgoing = [] }))
        (ok tt)
      ≡ ok made)
    × (is_raft (far_end (conn_of made) (5 ∷ 6 ∷ [])).incoming ≡ true)
    × (accept (some 4) (ok (far_end (conn_of made) (5 ∷ 6 ∷ []))) ≡ ok taken)
    × ((conn_of taken).incoming ≡ 5 ∷ 6 ∷ [])
accept-dial_example = accept-dial (some 3) (some 4) (5 ∷ 6 ∷ [])

abbrev conn : Conn
conn = record { incoming = 2 ∷ 5 ∷ []; outgoing = [] }

accept_iff_test :
    ((taken : NetConn ℕ) × (accept (some 4) (ok conn) ≡ ok taken)) ↔ (is_raft (2 ∷ 5 ∷ []) ≡ true)
accept_iff_test = accept_iff (some 4) conn

wait_for_leader_ends_test :
    (wait_for_leader (tick [] ∷ tick (b'n' ∷ []) ∷ timed_out ∷ []) ≡ some (ok tt))
    × (wait_for_leader (tick [] ∷ timed_out ∷ timed_out ∷ []) ≡ some (err not_exist))
    × (wait_for_leader (tick [] ∷ []) ≡ none)
wait_for_leader_ends_test = wait_for_leader_ends (tick [] ∷ []) (timed_out ∷ []) b'n' [] tt

abbrev raft_config : RaftConfig
raft_config = record {
  local_id = "node";
  heartbeat_timeout = 0;
  election_timeout = 0;
  leader_lease_timeout = 0;
  commit_timeout = 0;
}

abbrev setup : Config
setup = record { raft = raft_config; bootstrap = true; segment = config }

-- The world tells whether there is state.
abbrev raft : Raft
raft = record {
  World = Bool;
  default_config = raft_config;
  mkdir_all = λ w path. (w, ok []);
  new_stable_store = λ w. (w, ok tt);
  new_snapshot_store = λ w. (w, ok tt);
  new_raft = λ w c l. (w, ok tt);
  has_existing_state = λ w. (w, ok w);
  bootstrap_cluster = λ w id. (true, ok tt);
  shutdown = λ w. (w, ok tt);
}

bootstrap_if_new_cases_test :
    ((true ≡ false) ⊎ (true ≡ true)) × (bootstrap_if_new raft setup true ≡ (true, ok tt))
    ⊎ ((true ≡ true) × (true ≡ false)) × (bootstrap_if_new raft setup true ≡ (true, ok tt))
bootstrap_if_new_cases_test = bootstrap_if_new_cases raft setup true true true refl

abbrev pub requests : RequestCodec
requests = record { to_bytes = encode; of_bytes = decode; of_to = decode-encode }

abbrev entries : List (List ℕ)
entries = (0 ∷ bytes_at 7) ∷ (0 ∷ bytes_at 8) ∷ []

read-apply_all_test :
    ((apply_all plain requests (new_log (some []) config).0 entries).1
      ≡ ok (produced 0) ∷ ok (produced 1) ∷ [])
    × ((apply_all plain requests (new_log (some []) narrow).0 entries).1
        ≡ (apply_all plain requests (new_log (some []) config).0 entries).1)
    × ((read plain (apply_all plain requests (new_log (some []) config).0 entries).0 1).1
        ≡ ok (at 1))
    × ((read plain (apply_all plain requests (new_log (some []) narrow).0 entries).0 1).1
        ≡ (read plain (apply_all plain requests (new_log (some []) config).0 entries).0 1).1)
unfolding command spec_read
read-apply_all_test =
    read-apply_all plain requests config narrow 0 [] (at 7 ∷ at 8 ∷ []) (new_log (some []) config).0
      (new_log (some []) narrow).0 entries 1 config-IsRegular narrow-IsRegular
      (new_log-Represents plain config config-IsRegular (omega arith))
      (new_log-Represents plain narrow narrow-IsRegular (omega arith)) (refl, (refl, tt))
      (at-Marshals config 7, (at-Marshals config 8, tt)) (omega arith)
