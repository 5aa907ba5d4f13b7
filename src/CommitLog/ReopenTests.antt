-- ===== src/CommitLog/ReopenTests.antt =====
-- The theorems on a log that is closed and opened again, and on its Reader, at inputs.
use distributed_systems_trai.Base.{
  some, lt→ltb, ◌^◌, err, out_of_range, ℕ, ◌≡◌, refl, Bool, true, false, List, [], ◌∷◌, ◌++◌, arith,
  ok,
}
use distributed_systems_trai.Base.Words.{put_uint}
use distributed_systems_trai.Base.Slices.{write}
use distributed_systems_trai.CommitLog.Plain.{plain}
use distributed_systems_trai.CommitLog.Store
use distributed_systems_trai.CommitLog.Index
use distributed_systems_trai.CommitLog.Segment
use distributed_systems_trai.CommitLog.Segment.{Segment, Config}
use distributed_systems_trai.CommitLog.Store.Frames.{frame}
use distributed_systems_trai.CommitLog.Files
use distributed_systems_trai.CommitLog.Files.{Directory}
use distributed_systems_trai.CommitLog.Log.{Log, segments, new_log}
use distributed_systems_trai.CommitLog.Log.Refinement.{
  Call, append_record, read_record, reopen, appended, found, opened, spec_read, spec_one, spec_run,
  IsRegular, session, Marshals,
}
use distributed_systems_trai.CommitLog.Log.Refinement.Sessions.{session-spec_run}
use distributed_systems_trai.CommitLog.Log.Operations.{
  append, close, truncate, truncate_loop, kept, lowest_offset,
}
use distributed_systems_trai.CommitLog.Log.Invariant.{running, IsSound}
use distributed_systems_trai.CommitLog.Log.Stored.{none_stored, Stored-with_files}
use distributed_systems_trai.CommitLog.Log.Durability.{
  IsStored, read-reopen_log, append-IsStored, bytes_of-append,
}
use distributed_systems_trai.CommitLog.Log.Reader.{Sink, reader, read_all, persist, persist-at_end}
use distributed_systems_trai.CommitLog.Log.Reader.Whole.{bytes_of, read_all-reader}
use distributed_systems_trai.CommitLog.LogTests.{
  config, at, bytes_at, length-bytes_at, empty_segment, size-empty, files, empty-IsSound, one,
  one-IsSound,
}

pub empty-IsStored : IsStored config files (empty_segment config ∷ [])
empty-IsStored = Stored-with_files (empty_segment config) none_stored tt (omega arith) (omega arith)

one-IsStored : IsStored config files (one config ∷ [])
unfolding Segment.append Store.append Store.new_store Index.write_entry put_uint write
one-IsStored = Stored-with_files (one config) none_stored tt (omega arith) (omega arith)

read-reopen_log_example : (close (running config files [] (one config))).1 ≡ ok tt
read-reopen_log_example =
    (read-reopen_log plain 0 config files [] (one config) one-IsSound one-IsStored (omega arith)).0

append-IsStored_example :
    (d' : Directory) × (older' : List Segment) × (s' : Segment) × ((append plain
        (running config files [] (empty_segment config))
        (at 0)).0
      ≡ running config d' older' s')
    × IsSound 0 config d' older' s'
    × IsStored config d' (older' ++ (s' ∷ []))
append-IsStored_example =
    append-IsStored plain 0 config files [] (empty_segment config) (at 0) (bytes_at 0) empty-IsSound
      empty-IsStored refl (omega arith, omega (arith, length-bytes_at 0, size-empty), omega arith)

bytes_of-append_example :
    bytes_of (segments (append plain (running config files [] (empty_segment config)) (at 0)).0)
    ≡ bytes_of (segments (running config files [] (empty_segment config))) ++ frame (bytes_at 0)
bytes_of-append_example =
    bytes_of-append plain 0 config files [] (empty_segment config) (at 0) (bytes_at 0) empty-IsSound
      refl (omega arith, omega (arith, length-bytes_at 0, size-empty), omega arith)

abbrev one_log : Log
one_log = running config files [] (one config)

-- The record takes 30 bytes, which are read seven at a time.
read_all-reader_example :
    (read_all 40 (λ k. 7) (reader (λ s. 0) one_log)).1 ≡ (bytes_of (segments one_log), ok tt)
unfolding Segment.append Store.append Store.new_store Index.write_entry put_uint write
read_all-reader_example =
    read_all-reader one_log (λ s. 0) 40 (λ k. 7) ((one-IsSound.healthy.store, omega arith), tt)
      (λ k. (omega arith, omega arith)) (omega arith)

-- A sink that keeps the bytes written to it, and whether it was closed.
abbrev sink : Sink
sink = record {
  State = List ℕ × Bool;
  write = λ k bs. ((k.0 ++ bs, k.1), ok tt);
  cancel = λ k. k;
  close = λ k. ((k.0, true), ok tt);
}

-- The file has 30 bytes, and the offset stands behind them.
persist-at_end_example : persist sink ([], false) (reader (λ s. 30) one_log) ≡ (([], true), ok tt)
unfolding Segment.append Store.append Store.new_store Index.write_entry put_uint write
persist-at_end_example = persist-at_end sink ([], false) (λ s. 30) one_log (omega arith, tt)

pub config-IsRegular : IsRegular config
config-IsRegular = record {
  positive = omega arith;
  whole = omega arith;
  small = omega arith;
  store_positive = omega arith;
  store_small = omega arith;
}

-- A message marshals at every offset.
pub at-Marshals : (c : Config) (n : ℕ) → Marshals plain c (append_record (at n))
at-Marshals c n off small =
    (bytes_at off, rw (lt→ltb off (2 ^ 64) small) refl, omega (arith, length-bytes_at off))

abbrev calls : List Call
calls =
    append_record (at 7)
    ∷ read_record 0
    ∷ read_record 1
    ∷ reopen
    ∷ append_record (at 7)
    ∷ read_record 0
    ∷ read_record 1
    ∷ []

session-spec_run_example :
    session plain config (new_log (some []) config).0 calls
    ≡ appended (ok 0)
      ∷ found (ok (at 0))
      ∷ found (err (out_of_range 1))
      ∷ opened (ok tt)
      ∷ appended (ok 1)
      ∷ found (ok (at 0))
      ∷ found (ok (at 1))
      ∷ []
unfolding spec_run spec_one spec_read
session-spec_run_example =
    session-spec_run plain config config-IsRegular calls
      (at-Marshals config 7, (tt, (tt, (tt, (at-Marshals config 7, (tt, (tt, tt))))))) (omega arith)

-- One entry fits a segment.
abbrev pub narrow : Config
narrow = record { max_store_bytes = 1024; max_index_bytes = 12; initial_offset = 0 }

pub narrow-IsRegular : IsRegular narrow
narrow-IsRegular = record {
  positive = omega arith;
  whole = omega arith;
  small = omega arith;
  store_positive = omega arith;
  store_small = omega arith;
}

abbrev narrow_log : Log
narrow_log = (append plain (append plain (new_log (some []) narrow).0 (at 7)).0 (at 7)).0

-- The segment with the first record is removed.
truncate-Represents_test :
    (lowest_offset narrow_log ≡ ok 0) × (lowest_offset (truncate narrow_log 0).0 ≡ ok 1)
unfolding new_log append truncate truncate_loop kept lowest_offset Segment.append
    Segment.new_segment Segment.first_free Store.append Store.new_store Index.write_entry
    Index.new_index Index.close Segment.close Store.close put_uint write Index.read Files.lookup
    Segment.is_maxed Files.put
truncate-Represents_test = (refl, refl)
