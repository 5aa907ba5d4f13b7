-- ===== src/RaftPebble/Events.antt =====
-- New, setEventListener, Close and the event listener of internal/raftpebble/store.go: the workers
-- that Pebble's events start, and when they look at the database. Pebble is a parameter by the moments
-- at which it reports events, which are not restricted, and syncutil.Stopper by its Stop, which waits
-- for the workers that there are, while RunWorker starts workers before Stop and after it.
pub mod Safety
use distributed_systems_trai.Base.{
  ℕ, ◌+◌, ◌-◌, ◌<◌, ◌≡◌, Bool, true, false, not, ◌&&◌, ◌||◌, List, [], ◌∷◌, ◌++◌, if◌then◌else◌,
  fault, Result, ok, err,
}
use distributed_systems_trai.RaftPebble.Config.{RaftLogRocksDbConfig, is_busy}

pub data Db : Type 0 where
  no_db open_db closed_db : Db

-- PebbleKVStore with its listener. `db_set` tells that the channel is closed, `workers` counts those that
-- RunWorker has started and that have not run, `calls` are the arguments of the callback so far, and
-- `faulted` tells that a worker has asked for the metrics of a database that is not open.
pub record Kv : Type 0 where
  pub db : Db
  pub db_set : Bool
  pub event_set : Bool
  pub workers : ℕ
  pub calls : List Bool
  pub faulted : Bool

abbrev pub new_kv : Kv
new_kv = record {
  db = no_db;
  db_set = false;
  event_set = false;
  workers = 0;
  calls = [];
  faulted = false;
}

-- onWALCreated, onFlushEnd and onCompactionEnd: a worker is started.
unfoldable pub notify : Kv → Kv
notify kv = record kv { workers = kv.workers + 1 }

report : Db → Bool → Kv → Kv
report open_db busy kv = record kv { calls = kv.calls ++ (busy ∷ []) }
report no_db busy kv = record kv { faulted = true }
report closed_db busy kv = record kv { faulted = true }

-- What a worker does, with the metrics that the database then has: nothing before the channel is
-- closed, and nothing without a callback.
unfoldable pub run_worker : RaftLogRocksDbConfig → Bool → ℕ → ℕ → Kv → Kv
unfolding report
run_worker cfg has_callback mem_table_size sublevels kv =
    let kv' = record kv { workers = kv.workers - 1 } in
    if kv.db_set && has_callback
    then report kv.db (is_busy cfg mem_table_size sublevels) kv'
    else kv'

is_set : Db → Bool
is_set no_db = false
is_set open_db = true
is_set closed_db = true

-- setEventListener; a panic is a fault. It forces an event.
unfoldable pub set_event_listener : Kv → Kv × Result (Unit {0})
unfolding is_set notify
set_event_listener kv =
    if not (is_set kv.db) || kv.event_set
    then (kv, err fault)
    else (notify (record kv { event_set = true; db_set = true }), ok tt)

-- The end of Close.
abbrev pub close_db : Kv → Kv
close_db kv = record kv { db = closed_db }

-- How far the thread is that calls New and then Close.
pub data Phase : Type 0 where
  opening has_db listening stopped closed_down : Phase

-- The states that are reached. Pebble may report an event in every phase, between Stop and the end of
-- db.Close too, if New has put the listener into its options. `custom` tells that the options of Pebble
-- were given, which New takes instead of its own, without the listener.
pub data Reached (cfg : RaftLogRocksDbConfig) (has_callback custom : Bool)
    : Phase → Kv → Type 0 where
  start : Reached cfg has_callback custom opening new_kv
  event :
      {p : Phase} {kv : Kv}
      → custom ≡ false
      → Reached cfg has_callback custom p kv
      → Reached cfg has_callback custom p (notify kv)
  work :
      {p : Phase} {kv : Kv} (mem_table_size sublevels : ℕ)
      → 0 < kv.workers
      → Reached cfg has_callback custom p kv
      → Reached cfg has_callback custom p (run_worker cfg has_callback mem_table_size sublevels kv)
  opened :
      {kv : Kv}
      → Reached cfg has_callback custom opening kv
      → Reached cfg has_callback custom has_db (record kv { db = open_db })
  listen :
      {kv : Kv}
      → Reached cfg has_callback custom has_db kv
      → Reached cfg has_callback custom listening (set_event_listener kv).0
  stop :
      {kv : Kv}
      → kv.workers ≡ 0
      → Reached cfg has_callback custom listening kv
      → Reached cfg has_callback custom stopped kv
  close :
      {kv : Kv}
      → Reached cfg has_callback custom stopped kv
      → Reached cfg has_callback custom closed_down (close_db kv)
