-- ===== src/CommitLog/LogTests.antt =====
-- The theorems on segments and logs at inputs.
use distributed_systems_trai.Base.{
  ℕ, ◌≤◌, ◌≡◌, refl, ◌⊎◌, inr, false, none, some, List, [], ◌∷◌, ◌++◌, arith, length, Error, eof,
  not_exist, fault, out_of_range, ok, err,
}
use distributed_systems_trai.Base.Words.{put_uint, uint}
use distributed_systems_trai.Base.Slices.{write}
use distributed_systems_trai.CommitLog.Message.{Record}
use distributed_systems_trai.CommitLog.Store
use distributed_systems_trai.CommitLog.Store.Frames
use distributed_systems_trai.CommitLog.Plain.{plain}
use distributed_systems_trai.CommitLog.Index
use distributed_systems_trai.CommitLog.Segment
use distributed_systems_trai.CommitLog.Segment.{Segment, Config}
use distributed_systems_trai.CommitLog.Segment.Reads
use distributed_systems_trai.CommitLog.Segment.RoundTrip
use distributed_systems_trai.CommitLog.Segment.RoundTrip.{
  read-append_segment, read-append_segment_old, append-full, append-closed, read-reopen_segment,
}
use distributed_systems_trai.CommitLog.Files.{Directory}
use distributed_systems_trai.CommitLog.Log.{new_log}
use distributed_systems_trai.CommitLog.Log.Operations.{
  append, read, lowest_offset, highest_offset, truncate, close, reset,
}
use distributed_systems_trai.CommitLog.Log.Invariant.{
  running, IsSound, fresh_segment, fresh_segment-IsHealthy, with_files, done,
}
use distributed_systems_trai.CommitLog.Log.Contract.{
  read-append_log, read-append_log_old, offsets_of_log, read_out_of_range,
}
use distributed_systems_trai.CommitLog.Log.Truncation.{read-truncate}
use distributed_systems_trai.CommitLog.Log.Truncation.Emptied.{truncate-all}
use distributed_systems_trai.CommitLog.Log.Capacity.{append_keeps_room, append_stuck, reset_fails}
use distributed_systems_trai.CommitLog.Log.Opening.{new_log-empty, completed}
use distributed_systems_trai.CommitLog.Log.{with_default}

-- Four entries fit the index.
abbrev pub config : Config
config = record { max_store_bytes = 1024; max_index_bytes = 48; initial_offset = 0 }

-- One entry fits the index, which is then short of its limit.
abbrev odd_config : Config
odd_config = record { max_store_bytes = 1024; max_index_bytes = 16; initial_offset = 0 }

abbrev pub at : ℕ → Record
at off = record { value = b'h' ∷ b'i' ∷ []; offset = off; term = 1; type = 0 }

abbrev pub bytes_at : ℕ → List ℕ
bytes_at off = put_uint 8 off ++ (put_uint 8 1 ++ (put_uint 4 0 ++ (b'h' ∷ b'i' ∷ [])))

pub length-bytes_at : (off : ℕ) → length (bytes_at off) ≡ 22
unfolding put_uint
length-bytes_at off = refl

abbrev pub empty_segment : Config → Segment
empty_segment = fresh_segment 0

abbrev pub one : Config → Segment
one c = (Segment.append plain (empty_segment c) (at 0)).0

abbrev two : Config → Segment
two c = (Segment.append plain (one c) (at 1)).0

empty_segment-IsHealthy : Reads.IsHealthy (empty_segment config)
empty_segment-IsHealthy =
    fresh_segment-IsHealthy 0 config (record { positive = omega arith; small = omega arith })
      (omega arith)

pub size-empty : (empty_segment config).store.size ≡ 0
size-empty = Frames.size-new_store []

read-append_segment_test :
    ((Segment.append plain (empty_segment config) (at 0)).1 ≡ ok 0)
    × ((Segment.append plain (empty_segment config) (at 0)).0.next_offset ≡ 1)
    × ((Segment.read plain (Segment.append plain (empty_segment config) (at 0)).0 0).1 ≡ ok (at 0))
    × Reads.IsHealthy (Segment.append plain (empty_segment config) (at 0)).0
read-append_segment_test =
    read-append_segment plain (empty_segment config) (at 0) (bytes_at 0) empty_segment-IsHealthy
      refl (omega arith, omega (arith, length-bytes_at 0, size-empty), omega arith)

one_lem :
    ((Segment.append plain (empty_segment config) (at 0)).1 ≡ ok 0)
    × ((Segment.append plain (empty_segment config) (at 0)).0.next_offset ≡ 1)
    × ((Segment.read plain (Segment.append plain (empty_segment config) (at 0)).0 0).1 ≡ ok (at 0))
    × Reads.IsHealthy (Segment.append plain (empty_segment config) (at 0)).0
one_lem =
    read-append_segment plain (empty_segment config) (at 0) (bytes_at 0) empty_segment-IsHealthy
      refl (omega arith, omega (arith, length-bytes_at 0, size-empty), omega arith)

read-append_segment_old_test : (Segment.read plain (two config) 0).1 ≡ ok (at 0)
unfolding Segment.append Store.append Store.new_store Index.write_entry put_uint write
read-append_segment_old_test =
    read-append_segment_old plain (one config) (at 1) (bytes_at 1) 0 (at 0) one_lem.3 refl
      (omega arith, omega arith, omega arith) (omega arith) (omega arith) one_lem.2

-- A segment whose index has no room for an entry.
abbrev cramped : Segment
cramped = fresh_segment 0 (record config { max_index_bytes = 11 })

append-full_test :
    (t : Segment) × (Segment.append plain cramped (at 0) ≡ (t, err eof))
    × RoundTrip.Orphaned plain cramped (bytes_at 0) t
unfolding Store.new_store
append-full_test =
    append-full plain cramped (at 0) (bytes_at 0)
      (fresh_segment-IsHealthy 0 (record config { max_index_bytes = 11 })
        (record { positive = omega arith; small = omega arith }) (omega arith))
      refl (omega arith) (omega (arith, length-bytes_at 0))

append-closed_test :
    (e : Error) × ((Segment.append plain (Segment.close (one config)).0 (at 1)).1 ≡ err e)
unfolding Segment.append Segment.close Store.append Store.close Store.new_store Index.write_entry
    Index.close put_uint write
append-closed_test = append-closed plain (Segment.close (one config)).0 (at 1) refl

read-reopen_segment_test : (Segment.close (one config)).1 ≡ ok tt
unfolding Segment.append Store.append Store.new_store Index.write_entry put_uint write
read-reopen_segment_test =
    (read-reopen_segment plain (one config) config 0 (at 0) one_lem.3 (omega arith) (omega arith)
      (omega arith) (omega arith) (omega arith) one_lem.2).0

abbrev pub files : Directory
files = with_files 0 []

new_log-empty_test :
    (new_log (some []) config
      ≡ (running (completed config) files [] (fresh_segment 0 (completed config)), ok tt))
    × IsSound 0 (completed config) files [] (fresh_segment 0 (completed config))
new_log-empty_test = new_log-empty config (omega arith) (omega arith)

pub empty-IsSound : IsSound 0 config files [] (empty_segment config)
unfolding with_default
empty-IsSound = (new_log-empty config (omega arith) (omega arith)).1

read-append_log_example :
    (read plain (append plain (running config files [] (empty_segment config)) (at 0)).0 0).1
    ≡ ok (at 0)
read-append_log_example =
    (read-append_log plain 0 config files [] (empty_segment config) (at 0) (bytes_at 0)
      empty-IsSound refl (omega arith, omega (arith, length-bytes_at 0, size-empty), omega arith)).1

pub one-IsSound : IsSound 0 config files [] (one config)
unfolding Segment.append Store.append Store.new_store Index.write_entry put_uint write
one-IsSound = record {
  usable = empty-IsSound.usable;
  chain = done;
  healthy = one_lem.3;
  configured = refl;
  index_room = refl;
  fresh = empty-IsSound.fresh;
}

pub read_one : (read plain (running config files [] (one config)) 0).1 ≡ ok (at 0)
unfolding read Segment.read Segment.append Store.append Store.read Store.new_store Index.write_entry
    Index.read put_uint uint write
read_one = refl

read-append_log_old_test :
    (read plain (append plain (running config files [] (one config)) (at 1)).0 0).1 ≡ ok (at 0)
unfolding Segment.append Store.append Store.new_store Index.write_entry put_uint write
read-append_log_old_test =
    read-append_log_old plain 0 config files [] (one config) (at 1) (bytes_at 1) 0 (at 0)
      one-IsSound refl (omega arith, omega arith, omega arith) read_one

offsets_of_log_test :
    (lowest_offset (running config files [] (one config)) ≡ ok 0)
    × (highest_offset (running config files [] (one config)) ≡ ok 0)
unfolding Segment.append Store.append Store.new_store Index.write_entry put_uint write
offsets_of_log_test = offsets_of_log plain 0 config files [] (one config) one-IsSound

read_out_of_range_example :
    read plain (running config files [] (one config)) 1
    ≡ (running config files [] (one config), err (out_of_range 1))
unfolding Segment.append Store.append Store.new_store Index.write_entry put_uint write
read_out_of_range_example =
    read_out_of_range plain 0 config files [] (one config) 1 one-IsSound (inr (omega arith))

two-IsHealthy : Reads.IsHealthy (two config)
unfolding Segment.append Store.append Store.new_store Index.write_entry put_uint write
two-IsHealthy =
    (read-append_segment plain (one config) (at 1) (bytes_at 1) one_lem.3 refl
      (omega arith, omega arith, omega arith)).3

two-IsSound : IsSound 0 config files [] (two config)
unfolding Segment.append Store.append Store.new_store Index.write_entry put_uint write
two-IsSound = record {
  usable = empty-IsSound.usable;
  chain = done;
  healthy = two-IsHealthy;
  configured = refl;
  index_room = refl;
  fresh = empty-IsSound.fresh;
}

read_two : (read plain (running config files [] (two config)) 1).1 ≡ ok (at 1)
unfolding read Segment.read Segment.append Store.append Store.read Store.new_store Index.write_entry
    Index.read put_uint uint write
read_two = refl

read-truncate_test :
    (d' : Directory) × (older' : List Segment) × (lowest' : ℕ) × (truncate
        (running config files [] (two config))
        0
      ≡ (running config d' older' (two config), ok tt))
    × IsSound lowest' config d' older' (two config)
    × (0 ≤ lowest')
    × ((lowest' ≡ 0) ⊎ (lowest' ≤ 1))
    × ((read plain (running config d' older' (two config)) 1).1 ≡ ok (at 1))
unfolding Segment.append Store.append Store.new_store Index.write_entry put_uint write
read-truncate_test =
    read-truncate plain 0 config files [] (two config) 0 two-IsSound (omega arith) 1 (at 1)
      (omega arith) (omega arith) read_two

truncate-all_example :
    lowest_offset (truncate (running config files [] (one config)) 0).0 ≡ err fault
unfolding Segment.append Store.append Store.new_store Index.write_entry put_uint write
truncate-all_example =
    (truncate-all plain 0 config files [] (one config) 0 one-IsSound (omega arith) 0 (at 1)
      (omega arith)).2

append_keeps_room_example : (append plain (running config files [] (one config)) (at 1)).1 ≡ ok 1
unfolding Segment.append Segment.is_maxed Store.append Store.new_store Index.write_entry put_uint
    write
append_keeps_room_example =
    (append_keeps_room plain 0 config files [] (one config) (at 1) (bytes_at 1) one-IsSound refl
      (omega arith) refl refl (omega arith) (omega arith)).0

odd-IsHealthy : Reads.IsHealthy (one odd_config)
odd-IsHealthy =
    (read-append_segment plain (empty_segment odd_config) (at 0) (bytes_at 0)
      (fresh_segment-IsHealthy 0 odd_config (record { positive = omega arith; small = omega arith })
        (omega arith))
      refl (omega arith, omega (arith, length-bytes_at 0, size-empty), omega arith)).3

odd-IsSound : IsSound 0 odd_config files [] (one odd_config)
unfolding Segment.append Store.append Store.new_store Index.write_entry put_uint write
odd-IsSound = record {
  usable = record { positive = omega arith; small = omega arith };
  chain = done;
  healthy = odd-IsHealthy;
  configured = refl;
  index_room = refl;
  fresh = empty-IsSound.fresh;
}

-- The log is short of both limits, and refuses every further record.
odd_unmaxed : Segment.is_maxed (one odd_config) ≡ false
unfolding Segment.append Segment.is_maxed Store.append Store.new_store Index.write_entry put_uint
    write
odd_unmaxed = refl

append_stuck_example :
    (t : Segment) × (append plain (running odd_config files [] (one odd_config)) (at 1)
      ≡ (running odd_config files [] t, err eof))
    × IsSound 0 odd_config files [] t
    × (t.index ≡ (one odd_config).index)
    × (t.next_offset ≡ (one odd_config).next_offset)
unfolding Segment.append Store.append Store.new_store Index.write_entry put_uint write
append_stuck_example =
    append_stuck plain 0 odd_config files [] (one odd_config) (at 1) (bytes_at 1) odd-IsSound
      (omega arith) refl (omega arith)

reset_fails_example :
    ((e : Error) × ((close (running config files [] (one config))).1 ≡ err e)
      × ((reset (running config files [] (one config))).1 ≡ err e))
    ⊎ (((close (running config files [] (one config))).1 ≡ ok tt)
        × ((reset (running config files [] (one config))).1 ≡ err not_exist)
        × ((reset (running config files [] (one config))).0.directory ≡ none))
reset_fails_example = reset_fails (running config files [] (one config))
