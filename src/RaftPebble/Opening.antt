-- ===== src/RaftPebble/Opening.antt =====
-- The options that New of internal/raftpebble/store.go opens Pebble with. A signed number of 64 bits is
-- the number of its bits.
use Prim.Native.String.{String}
use distributed_systems_trai.Base.{
  ltb, if◌then◌else◌, ◌^◌, ℕ, ◌*◌, ◌≡◌, ap, Bool, true, Option, none, some, List, [], ◌∷◌, ◌++◌,
  map,
}
use distributed_systems_trai.RaftPebble.Config.{
  Options, Setting, get_options, with_pebble_options, target_file_sizes, apply, apply_all,
  apply_all-append,
}

abbrev pub max_log_file_size : ℕ
max_log_file_size = 1024 * 1024 * 128

-- The fields of pebble.LevelOptions and pebble.Options that are set; the levels are not compressed, and
-- the format is the newest.
pub record LevelOptions : Type 0 where
  pub block_size : ℕ
  pub target_file_size : ℕ

pub record PebbleOptions (Logger Fs : Type 0) : Type 0 where
  pub levels : List LevelOptions
  pub max_manifest_file_size : ℕ
  pub mem_table_size : ℕ
  pub mem_table_stop_writes_threshold : ℕ
  pub l_base_max_bytes : ℕ
  pub l0_compaction_file_threshold : ℕ
  pub l0_stop_writes_threshold : ℕ
  pub cache_size : ℕ
  pub logger : Logger
  pub fs : Fs
  pub wal_dir : String
  pub has_listener : Bool

-- How often a loop runs to a number of 64 bits that is taken as a signed one.
abbrev signed_count : ℕ → ℕ
signed_count n = if ltb n (2 ^ 63) then n else 0

or_own : {A : Type 0} → Option A → A → A
or_own none own = own
or_own (some given) own = given

module _ {Logger Fs Callback : Type 0} where
  -- The options of the code's own.
  unfoldable pub own_options :
      Options Logger Fs Callback (PebbleOptions Logger Fs) → PebbleOptions Logger Fs
  unfolding target_file_sizes
  own_options o =
      let c = o.config in
      record {
        levels =
            map (λ sz. record { block_size = c.block_size; target_file_size = sz })
              (target_file_sizes (signed_count c.num_of_levels) c.target_file_size_base
                c.target_file_size_multiplier);
        max_manifest_file_size = max_log_file_size;
        mem_table_size = c.write_buffer_size;
        mem_table_stop_writes_threshold = c.max_write_buffer_number;
        l_base_max_bytes = c.max_bytes_for_level_base;
        l0_compaction_file_threshold = c.level0_file_num_compaction_trigger;
        l0_stop_writes_threshold = c.level0_stop_writes_trigger;
        cache_size = c.lru_cache_size;
        logger = o.logger;
        fs = o.fs;
        wal_dir = o.wal_dir;
        has_listener = true;
      }

  -- The options and the directory of pebble.Open.
  unfoldable pub opening_options :
      Logger
      → Fs
      → List (Setting Logger Fs Callback (PebbleOptions Logger Fs))
      → PebbleOptions Logger Fs × String
  unfolding own_options or_own get_options
  opening_options logger fs opts =
      let o = get_options logger fs opts in (or_own o.pebble_options (own_options o), o.dir)

  -- Where the last option gives options for Pebble, these are taken as they are: every other
  -- setting but the directory is without effect, and New's listener is not reported to unless they have it.
  pub opening_options-given :
      (logger : Logger) (fs : Fs)
      (opts : List (Setting Logger Fs Callback (PebbleOptions Logger Fs)))
      (given : PebbleOptions Logger Fs)
      → opening_options logger fs (opts ++ (with_pebble_options given ∷ []))
        ≡ (given, (get_options logger fs opts).dir)
  unfolding opening_options get_options apply_all apply or_own
  opening_options-given logger fs opts given =
      ap (λ o. (or_own o.pebble_options (own_options o), o.dir))
        (apply_all-append opts (with_pebble_options given ∷ []) _)
