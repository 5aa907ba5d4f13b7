-- ===== src/Distributed/Startup.antt =====
-- NewLog, setupLog, setupRaft, Read, WaitForLeader and Close of internal/log/distributed/distributed.go.
-- Raft, its stores and the file system are parameters; the logs are those of CommitLog.
use Prim.Native.String.{String}
use distributed_systems_trai.Base.{
  ℕ, ◌≡◌, refl, sym, ap, ◌∙◌, ◌⊎◌, inl, inr, Bool, true, false, not, ◌&&◌, Option, none, some, List,
  [], ◌∷◌, ◌++◌, append-nil, arith, ◌==◌, if◌then◌else◌, Bool-cases, not_exist, Result, ok, err,
  ◌>>=◌, and_then,
}
use distributed_systems_trai.CommitLog.Segment as Segments
use distributed_systems_trai.CommitLog.Message.{Record, Codec}
use distributed_systems_trai.CommitLog.Files.{Directory}
use distributed_systems_trai.CommitLog.Log.{Log, new_log}
use distributed_systems_trai.CommitLog.Log.Operations as Operations
use distributed_systems_trai.Distributed.LogStore.{new_log_store}

-- The fields of raft.Config that the code sets; a duration of 0 is not set.
pub record RaftConfig : Type 0 where
  pub local_id : String
  pub heartbeat_timeout : ℕ
  pub election_timeout : ℕ
  pub leader_lease_timeout : ℕ
  pub commit_timeout : ℕ

-- log.Config
pub record Config : Type 0 where
  pub raft : RaftConfig
  pub bootstrap : Bool
  pub segment : Segments.Config

abbrev or_default : ℕ → ℕ → ℕ
or_default n default = if not (n == 0) then n else default

-- The configuration that setupRaft makes of raft.DefaultConfig().
unfoldable pub raft_config : RaftConfig → RaftConfig → RaftConfig
raft_config default c = record {
  local_id = c.local_id;
  heartbeat_timeout = or_default c.heartbeat_timeout default.heartbeat_timeout;
  election_timeout = or_default c.election_timeout default.election_timeout;
  leader_lease_timeout = or_default c.leader_lease_timeout default.leader_lease_timeout;
  commit_timeout = or_default c.commit_timeout default.commit_timeout;
}

-- Raft's entries are kept in a log that starts at offset 1.
unfoldable pub log_store_config : Config → Segments.Config
log_store_config c = record c.segment { initial_offset = 1 }

-- What setupRaft calls, on everything that is touched. `new_raft` starts a node; `directory` is what
-- is in a directory once MkdirAll has made it.
pub record Raft : Type 1 where
  pub World : Type 0
  pub default_config : RaftConfig
  pub mkdir_all : World → String → World × Result Directory
  pub new_stable_store : World → World × Result (Unit {0})
  pub new_snapshot_store : World → World × Result (Unit {0})
  pub new_raft : World → RaftConfig → Log → World × Result (Unit {0})
  pub has_existing_state : World → World × Result Bool
  pub bootstrap_cluster : World → String → World × Result (Unit {0})
  pub shutdown : World → World × Result (Unit {0})

-- One of the events that the select of WaitForLeader takes: the timeout, or a tick with the address
-- of the leader, which is empty if there is none.
pub data Wakeup : Type 0 where
  timed_out : Wakeup
  tick : List ℕ → Wakeup

-- WaitForLeader, on the events in their order; it still waits behind the last of them.
unfoldable pub wait_for_leader : List Wakeup → Option (Result (Unit {0}))
wait_for_leader [] = none
wait_for_leader (timed_out ∷ more) = some (err not_exist)
wait_for_leader (tick [] ∷ more) = wait_for_leader more
wait_for_leader (tick (b ∷ bs) ∷ more) = some (ok tt)

-- No leader is known at the ticks, and there is no timeout.
abbrev pub IsLeaderless : List Wakeup → Type 0
IsLeaderless [] = Unit {0}
IsLeaderless (timed_out ∷ more) = ⊥
IsLeaderless (tick [] ∷ more) = IsLeaderless more
IsLeaderless (tick (b ∷ bs) ∷ more) = ⊥

wait_for_leader-later :
    (before after : List Wakeup)
    → IsLeaderless before
    → wait_for_leader (before ++ after) ≡ wait_for_leader after
unfolding wait_for_leader
wait_for_leader-later [] after h = refl
wait_for_leader-later (timed_out ∷ more) after h = absurd h
wait_for_leader-later (tick [] ∷ more) after h = wait_for_leader-later more after h
wait_for_leader-later (tick (b ∷ bs) ∷ more) after h = absurd h

-- WaitForLeader ends at the first tick with a leader, successfully, if that comes before the timeout,
-- and at the timeout with an error otherwise; before either it waits.
pub wait_for_leader_ends :
    (before after : List Wakeup) (b : ℕ) (addr : List ℕ)
    → IsLeaderless before
    → (wait_for_leader (before ++ (tick (b ∷ addr) ∷ after)) ≡ some (ok tt))
      × (wait_for_leader (before ++ (timed_out ∷ after)) ≡ some (err not_exist))
      × (wait_for_leader before ≡ none)
unfolding wait_for_leader
wait_for_leader_ends before after b addr h = (
  wait_for_leader-later before (tick (b ∷ addr) ∷ after) h,
  wait_for_leader-later before (timed_out ∷ after) h,
  ap wait_for_leader (sym (append-nil before)) ∙ wait_for_leader-later before [] h,
)

module _ (raft : Raft) where
  open raft use {
    World, default_config, mkdir_all, new_stable_store, new_snapshot_store, new_raft,
    has_existing_state, bootstrap_cluster, shutdown,
  }

  -- The end of setupRaft: a cluster is bootstrapped if that is asked for and there is no state.
  unfoldable pub bootstrap_if_new : Config → World → World × Result (Unit {0})
  bootstrap_if_new c w = and_then (has_existing_state w) λ has_state w'.
      if c.bootstrap && not has_state then bootstrap_cluster w' c.raft.local_id else (w', ok tt)

  -- setupRaft: Raft's entries, and what it does.
  unfoldable pub setup_raft : Config → World → World × Result Log
  unfolding raft_config log_store_config bootstrap_if_new
  setup_raft c w = and_then (mkdir_all w "raft/log") λ d w₁.
      let (ldb, opened) = new_log_store (some d) (log_store_config c) in
      and_then (w₁, opened)
        λ _ w₂. and_then (new_stable_store w₂) λ _ w₃. and_then (new_snapshot_store w₃) λ _ w₄.
          and_then (new_raft w₄ (raft_config default_config c.raft) ldb)
            λ _ w₅. and_then (bootstrap_if_new c w₅) λ _ w₆. (w₆, ok ldb)

  -- setupLog
  unfoldable pub setup_log : Config → World → World × Result Log
  setup_log c w =
      and_then (mkdir_all w "log")
        λ d w'. let (l, r) = new_log (some d) c.segment in (w', r >>= λ _. ok l)

  -- NewLog: the log of the records, and that of Raft's entries.
  unfoldable pub new_distributed_log : Config → World → World × Result (Log × Log)
  unfolding setup_log setup_raft
  new_distributed_log c w =
      and_then (setup_log c w) λ l w'. and_then (setup_raft c w') λ ldb w''. (w'', ok (l, ldb))

  -- Close: Raft, and then the log.
  unfoldable pub close : World × Log → (World × Log) × Result (Unit {0})
  close (w, l) =
      and_then (((shutdown w).0, l), (shutdown w).1)
        λ _ s. let (l', r) = Operations.close s.1 in ((s.0, l'), r)

  -- Setting up Raft on a node that has state, or that is not asked to bootstrap, never bootstraps a
  -- cluster; and a node that is asked to and has none is bootstrapped under its own id.
  pub bootstrap_if_new_cases :
      (c : Config) (w w' : World) (has_state : Bool)
      → has_existing_state w ≡ (w', ok has_state)
      → ((c.bootstrap ≡ false) ⊎ (has_state ≡ true)) × (bootstrap_if_new c w ≡ (w', ok tt))
        ⊎ ((c.bootstrap ≡ true) × (has_state ≡ false))
          × (bootstrap_if_new c w ≡ bootstrap_cluster w' c.raft.local_id)
  unfolding bootstrap_if_new
  bootstrap_if_new_cases c w w' has_state found = elim (Bool-cases c.bootstrap) [
    | inr never ↦ inl (inl never, ground (arith, found, never))
    | inl asked ↦ elim (Bool-cases has_state) [
      | inl old ↦ inl (inr old, ground (arith, found, asked, old))
      | inr fresh ↦ inr ((asked, fresh), ground (arith, found, asked, fresh))
    ]
  ]

-- Read of distributed.go, which does not go through Raft.
unfoldable pub read : Codec → Log → ℕ → Log × Result Record
read proto l off = Operations.read proto l off
