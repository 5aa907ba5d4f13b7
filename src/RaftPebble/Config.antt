-- ===== src/RaftPebble/Config.antt =====
-- internal/raftpebble/config.go and options.go, and the part of New and of the event listener of
-- internal/raftpebble/store.go that computes with them.
use Prim.Native.String.{String}
use distributed_systems_trai.Base.Words.{two64}
use native.Mathlib.Nat.{
  mod-add-div, add-mul, mul_assoc, add-mul-mod_self_left, pow-succ', pow-zero, mul-one,
}
use distributed_systems_trai.Base.{
  ℕ, zero, suc, ◌+◌, ◌-◌, ◌*◌, ◌/◌, ◌%◌, ◌^◌, ◌<◌, ◌≡◌, refl, sym, ap, ◌∙◌, Bool, ◌||◌, Option,
  none, some, List, [], ◌∷◌, ◌++◌, arith, leb, length,
}

abbrev mul64 : ℕ → ℕ → ℕ
mul64 a b = (a * b) % two64

abbrev pub default_log_db_shards : ℕ
default_log_db_shards = 1

pub record RaftLogRocksDbConfig : Type 0 where
  pub shards : ℕ
  pub keep_log_file_num : ℕ
  pub max_background_compactions : ℕ
  pub max_background_flushes : ℕ
  pub lru_cache_size : ℕ
  pub write_buffer_size : ℕ
  pub max_write_buffer_number : ℕ
  pub level0_file_num_compaction_trigger : ℕ
  pub level0_slowdown_writes_trigger : ℕ
  pub level0_stop_writes_trigger : ℕ
  pub max_bytes_for_level_base : ℕ
  pub max_bytes_for_level_multiplier : ℕ
  pub target_file_size_base : ℕ
  pub target_file_size_multiplier : ℕ
  pub level_compaction_dynamic_level_bytes : ℕ
  pub recycle_log_file_num : ℕ
  pub num_of_levels : ℕ
  pub block_size : ℕ
  pub save_buffer_size : ℕ
  pub max_save_buffer_size : ℕ

-- getDefaultRaftLogRocksDBConfig
abbrev pub base_config : RaftLogRocksDbConfig
base_config = record {
  shards = default_log_db_shards;
  max_background_compactions = 2;
  max_background_flushes = 2;
  lru_cache_size = 0;
  keep_log_file_num = 16;
  write_buffer_size = 128 * 1024 * 1024;
  max_write_buffer_number = 4;
  level0_file_num_compaction_trigger = 8;
  level0_slowdown_writes_trigger = 17;
  level0_stop_writes_trigger = 24;
  max_bytes_for_level_base = 4 * 1024 * 1024 * 1024;
  max_bytes_for_level_multiplier = 2;
  target_file_size_base = 16 * 1024 * 1024;
  target_file_size_multiplier = 2;
  level_compaction_dynamic_level_bytes = 0;
  recycle_log_file_num = 0;
  num_of_levels = 7;
  block_size = 32 * 1024;
  save_buffer_size = 32 * 1024;
  max_save_buffer_size = 64 * 1024 * 1024;
}

-- GetTinyMem…, GetSmallMem…, GetMediumMem…, GetLargeMem… and GetDefaultRaftLogRocksDBConfig.
abbrev pub tiny_mem_config : RaftLogRocksDbConfig
tiny_mem_config = record base_config {
  write_buffer_size = 4 * 1024 * 1024;
  max_write_buffer_number = 4;
}

abbrev pub small_mem_config : RaftLogRocksDbConfig
small_mem_config = record base_config {
  write_buffer_size = 16 * 1024 * 1024;
  max_write_buffer_number = 4;
}

abbrev pub medium_mem_config : RaftLogRocksDbConfig
medium_mem_config = record base_config {
  write_buffer_size = 64 * 1024 * 1024;
  max_write_buffer_number = 4;
}

abbrev pub large_mem_config : RaftLogRocksDbConfig
large_mem_config = base_config

abbrev pub default_config : RaftLogRocksDbConfig
default_config = large_mem_config

-- MemorySizeMB
unfoldable pub memory_size_mb : RaftLogRocksDbConfig → ℕ
memory_size_mb cfg =
    let ss = mul64 cfg.write_buffer_size cfg.max_write_buffer_number in
    let bs = mul64 ss cfg.shards in bs / (1024 * 1024)

-- The options and the functions that set them, on types for Pebble's own.
pub record Options {ℓ} (Logger Fs Callback Pebble : Type ℓ) : Type ℓ where
  pub config : RaftLogRocksDbConfig
  pub logger : Logger
  pub fs : Fs
  pub wal_dir : String
  pub dir : String
  pub callback : Option Callback
  pub pebble_options : Option Pebble

pub data Setting {ℓ} (Logger Fs Callback Pebble : Type ℓ) : Type ℓ where
  with_config : RaftLogRocksDbConfig → Setting Logger Fs Callback Pebble
  with_logger : Logger → Setting Logger Fs Callback Pebble
  with_fs : Fs → Setting Logger Fs Callback Pebble
  with_wal_dir_path with_db_dir_path : String → Setting Logger Fs Callback Pebble
  with_log_db_callback : Callback → Setting Logger Fs Callback Pebble
  with_pebble_options : Pebble → Setting Logger Fs Callback Pebble

module _ {ℓ} {Logger Fs Callback Pebble : Type ℓ} where
  unfoldable pub apply :
      Setting Logger Fs Callback Pebble
      → Options Logger Fs Callback Pebble
      → Options Logger Fs Callback Pebble
  apply (with_config c) o = record o { config = c }
  apply (with_logger l) o = record o { logger = l }
  apply (with_fs fs) o = record o { fs = fs }
  apply (with_wal_dir_path d) o = record o { wal_dir = d }
  apply (with_db_dir_path d) o = record o { dir = d }
  apply (with_log_db_callback f) o = record o { callback = some f }
  apply (with_pebble_options p) o = record o { pebble_options = some p }

  unfoldable pub apply_all :
      List (Setting Logger Fs Callback Pebble)
      → Options Logger Fs Callback Pebble
      → Options Logger Fs Callback Pebble
  unfolding apply
  apply_all [] o = o
  apply_all (s ∷ ss) o = apply_all ss (apply s o)

  -- getOptions, whose defaults are Pebble's logger and file system.
  unfoldable pub get_options :
      Logger → Fs → List (Setting Logger Fs Callback Pebble) → Options Logger Fs Callback Pebble
  unfolding apply_all
  get_options logger fs opts = apply_all opts (record {
    config = default_config;
    logger = logger;
    fs = fs;
    wal_dir = "";
    dir = "";
    callback = none;
    pebble_options = none;
  })

  pub apply_all-append :
      (xs ys : List (Setting Logger Fs Callback Pebble)) (o : Options Logger Fs Callback Pebble)
      → apply_all (xs ++ ys) o ≡ apply_all ys (apply_all xs o)
  unfolding apply_all
  apply_all-append [] ys o = refl
  apply_all-append (x ∷ xs) ys o = apply_all-append xs ys (apply x o)

  -- A later WithConfig overrides an earlier one, whatever options stand before, and changes nothing
  -- else; without any the configuration is the default one.
  pub get_options-with_config :
      (logger : Logger) (fs : Fs) (opts : List (Setting Logger Fs Callback Pebble))
      (c : RaftLogRocksDbConfig)
      → (get_options logger fs (opts ++ (with_config c ∷ []))
          ≡ record (get_options logger fs opts) { config = c })
        × ((get_options logger fs []).config ≡ default_config)
  unfolding get_options apply_all apply
  get_options-with_config logger fs opts c = (apply_all-append opts (with_config c ∷ []) _, refl)

-- TargetFileSize of the levels that New sets up, in turn.
unfoldable pub target_file_sizes : ℕ → ℕ → ℕ → List ℕ
target_file_sizes zero sz multiplier = []
target_file_sizes (suc n) sz multiplier = sz ∷ target_file_sizes n (mul64 sz multiplier) multiplier

-- The test of the event listener whether to report that the database is busy.
unfoldable pub is_busy : RaftLogRocksDbConfig → ℕ → ℕ → Bool
is_busy cfg mem_table_size sublevels =
    let mem_size_threshold =
      mul64 (mul64 cfg.write_buffer_size cfg.max_write_buffer_number) 19 / 20 in
    let l0_file_num_threshold = (cfg.level0_stop_writes_trigger + two64 - 1) % two64 in
    leb mem_size_threshold mem_table_size || leb l0_file_num_threshold sublevels

abbrev pub nth : List ℕ → ℕ → Option ℕ
nth [] i = none
nth (x ∷ xs) zero = some x
nth (x ∷ xs) (suc i) = nth xs i

mod-mul : (n a b : ℕ) → ((a % n) * b) % n ≡ (a * b) % n
mod-mul n a b =
    let split : a ≡ a % n + n * (a / n) = sym (mod-add-div a n) in
    let spread : a * b ≡ (a % n) * b + n * ((a / n) * b) =
      ap (λ x. x * b) split
      ∙ add-mul (a % n) (n * (a / n)) b
      ∙ ap (λ x. (a % n) * b + x) (mul_assoc n (a / n) b) in
    sym (ap (λ x. x % n) spread ∙ add-mul-mod_self_left ((a % n) * b) n ((a / n) * b))

mul64-pow :
    (sz multiplier i : ℕ)
    → (mul64 sz multiplier * multiplier ^ i) % two64 ≡ (sz * multiplier ^ suc i) % two64
mul64-pow sz multiplier i =
    mod-mul two64 (sz * multiplier) (multiplier ^ i)
    ∙ ap (λ x. x % two64)
        (mul_assoc sz multiplier (multiplier ^ i) ∙ ap (λ x. sz * x) (sym (pow-succ' multiplier i)))

length-target_file_sizes : (n sz multiplier : ℕ) → length (target_file_sizes n sz multiplier) ≡ n
unfolding target_file_sizes
length-target_file_sizes zero sz multiplier = refl
length-target_file_sizes (suc n) sz multiplier =
    ap suc (length-target_file_sizes n (mul64 sz multiplier) multiplier)

nth-target_file_sizes :
    (n i sz multiplier : ℕ)
    → i < n
    → sz < two64
    → nth (target_file_sizes n sz multiplier) i ≡ some ((sz * multiplier ^ i) % two64)
unfolding target_file_sizes
nth-target_file_sizes zero i sz multiplier h small = ground (arith, h)
nth-target_file_sizes (suc n) zero sz multiplier h small =
    ap some (omega (arith, ap (λ x. sz * x) (pow-zero multiplier), mul-one sz))
nth-target_file_sizes (suc n) (suc i) sz multiplier h small =
    nth-target_file_sizes n i (mul64 sz multiplier) multiplier (omega arith) (omega arith)
    ∙ ap some (mul64-pow sz multiplier i)

-- New sets up as many levels as it is told, and the level i has the target file size
-- base * multiplier ^ i, as a uint64.
pub target_file_sizes_lem :
    (n i sz multiplier : ℕ)
    → i < n
    → sz < two64
    → (length (target_file_sizes n sz multiplier) ≡ n)
      × (nth (target_file_sizes n sz multiplier) i ≡ some ((sz * multiplier ^ i) % two64))
target_file_sizes_lem n i sz multiplier h small =
    (length-target_file_sizes n sz multiplier, nth-target_file_sizes n i sz multiplier h small)
