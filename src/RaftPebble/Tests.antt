-- ===== src/RaftPebble/Tests.antt =====
-- The theorems on the Pebble store at inputs.
use distributed_systems_trai.Base.{
  ◌<◌, ◌≤◌, ℕ, ◌-◌, ◌^◌, ◌≡◌, refl, ◌≢◌, ◌⊎◌, inr, true, false, none, some, List, [], ◌∷◌, ◌++◌,
  arith, length, ok,
}
use distributed_systems_trai.RaftPebble.{
  get_log, store_log, delete_logs, set_uint64, get_uint64, first_index, last_index,
}
use distributed_systems_trai.RaftPebble.RoundTrip.{
  get_value-store_log, delete_logs-inside, delete_logs-outside, get_uint64-set_uint64, ends_of_logs,
}
use distributed_systems_trai.RaftPebble.Opening.{
  PebbleOptions, opening_options, opening_options-given,
}
use distributed_systems_trai.RaftPebble.Memory.{database, msgpack, empty}
use distributed_systems_trai.RaftPebble.Events.{
  Kv, new_kv, open_db, close_db, notify, run_worker, set_event_listener, stopped, closed_down,
  Reached, start, event, work, opened, listen, stop, close,
}
use distributed_systems_trai.RaftPebble.Events.Safety.{Reached-metrics}
use distributed_systems_trai.RaftPebble.Keys.{log_key}
use distributed_systems_trai.RaftPebble.Config.{
  target_file_sizes, nth, target_file_sizes_lem, get_options, get_options-with_config, with_config,
  with_db_dir_path, with_pebble_options, apply_all, apply, with_fs, Setting, default_config,
  tiny_mem_config,
}

get_value-store_log_test :
    get_log database msgpack (store_log database msgpack empty (7 ∷ 9 ∷ [])).0 2 ≡ ok (7 ∷ 9 ∷ [])
unfolding store_log
get_value-store_log_test =
    (get_value-store_log database msgpack empty (7 ∷ 9 ∷ []) 3 (b'v' ∷ []) refl refl (omega arith)
      (omega arith) (omega arith)).0

delete_logs-inside_test : database.get (delete_logs database empty 3 5).0 (log_key 4) ≡ ok none
unfolding delete_logs
delete_logs-inside_test =
    delete_logs-inside database empty 3 5 4 refl (omega arith) (omega arith) (omega arith)

delete_logs-outside_example :
    database.get (delete_logs database empty 3 (2 ^ 64 - 1)).0 (log_key 4) ≡ ok none
unfolding delete_logs
delete_logs-outside_example =
    delete_logs-outside database empty 3 (2 ^ 64 - 1) 4 refl (omega arith) (omega arith)
      (omega arith) (inr (inr refl))

get_uint64-set_uint64_test :
    get_uint64 database (set_uint64 database empty (b'v' ∷ []) 42).0 (b'v' ∷ []) ≡ ok 42
unfolding set_uint64
get_uint64-set_uint64_test =
    (get_uint64-set_uint64 database empty (b'v' ∷ []) [] 42 4 refl refl (omega arith)
      (λ same. cc same)).0

ends_of_logs_test : (first_index database empty ≡ ok 3) × (last_index database empty ≡ ok 8)
ends_of_logs_test =
    ends_of_logs database empty 3 8 (5 ∷ []) (omega arith, (omega arith, (omega arith, tt))) refl
      refl

target_file_sizes_lem_test : nth (target_file_sizes 7 (2 ^ 24) 2) 3 ≡ some (2 ^ 27)
target_file_sizes_lem_test = (target_file_sizes_lem 7 3 (2 ^ 24) 2 (omega arith) (omega arith)).1

abbrev opts : List (Setting ℕ ℕ ℕ ℕ)
opts = with_config default_config ∷ with_fs 4 ∷ []

abbrev logger : ℕ
logger = 1

get_options-with_config_test :
    get_options logger logger (opts ++ (with_config tiny_mem_config ∷ []))
    ≡ record (get_options logger logger opts) { config = tiny_mem_config }
get_options-with_config_test = (get_options-with_config logger logger opts tiny_mem_config).0

-- An event is reported while Pebble is opened, and its worker runs behind the forced one's start.
abbrev at_listening : Kv
at_listening = (set_event_listener (record (notify new_kv) { db = open_db })).0

abbrev at_end : Kv
at_end =
    close_db (run_worker default_config true 5 0 (run_worker default_config true 0 0 at_listening))

Reached-metrics_example :
    ((at_end.faulted ≡ false) ⊎ ((closed_down ≡ closed_down) × (true ≡ true) × (false ≡ false)))
    × ((false ≡ false) ⊎ (length at_end.calls ≤ 1))
    × (((closed_down ≢ stopped) × (closed_down ≢ closed_down))
        ⊎ ((true ≡ false) ⊎ (0 < length at_end.calls)))
unfolding notify run_worker set_event_listener
Reached-metrics_example = Reached-metrics default_config true false (
    close (
      stop refl
        (work 5 0 (omega arith) (work 0 0 (omega arith) (listen (opened (event refl start)))))))

-- An event between Stop and db.Close starts a worker that nothing waits for.
abbrev late : Kv
late = run_worker default_config true 0 0 (
    close_db (
      notify
        (run_worker default_config true 5 0 (run_worker default_config true 0 0 at_listening))))

late_test : Reached default_config true false closed_down late × (late.faulted ≡ true)
unfolding notify run_worker set_event_listener
late_test = (
  work 0 0 (omega arith) (
      close (
        event refl (
          stop refl (
            work 5 0 (omega arith)
              (work 0 0 (omega arith) (listen (opened (event refl start)))))))),
  refl,
)

abbrev given : PebbleOptions ℕ ℕ
given = record {
  levels = [];
  max_manifest_file_size = 1;
  mem_table_size = 2;
  mem_table_stop_writes_threshold = 3;
  l_base_max_bytes = 4;
  l0_compaction_file_threshold = 5;
  l0_stop_writes_threshold = 6;
  cache_size = 7;
  logger = logger;
  fs = 4;
  wal_dir = "wal";
  has_listener = false;
}

opening_options-given_test :
    opening_options {Callback = ℕ} logger logger
      (with_config tiny_mem_config ∷ with_db_dir_path "db" ∷ with_pebble_options given ∷ [])
    ≡ (given, "db")
unfolding get_options apply_all apply
opening_options-given_test =
    opening_options-given logger logger (with_config tiny_mem_config ∷ with_db_dir_path "db" ∷ [])
      given
