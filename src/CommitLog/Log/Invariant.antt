-- ===== src/CommitLog/Log/Invariant.antt =====
-- The invariant of a log that is set up, and what opening the next segment does.
use distributed_systems_trai.Base.{
  ℕ, ◌-◌, ◌*◌, ◌^◌, ◌<◌, ◌≡◌, refl, false, none, some, List, [], ◌∷◌, ◌++◌, arith, length, ok,
}
use distributed_systems_trai.CommitLog.Store
use distributed_systems_trai.CommitLog.Store.Frames
use distributed_systems_trai.CommitLog.Index.Entries
use distributed_systems_trai.CommitLog.Index.Reopening
use distributed_systems_trai.CommitLog.Segment
use distributed_systems_trai.CommitLog.Segment.{Segment, Config}
use distributed_systems_trai.CommitLog.Segment.Reads.{IsHealthy}
use distributed_systems_trai.CommitLog.Files
use distributed_systems_trai.CommitLog.Files.{File, Directory}
use distributed_systems_trai.CommitLog.Log.{Log, listed, unset, new_segment}

-- Healthy segments without gaps: the offsets from `from` up to `upto`.
pub data Chain : ℕ → List Segment → ℕ → Type 0 where
  done : {n : ℕ} → Chain n [] n
  link :
      {s : Segment} {ss : List Segment} {upto : ℕ}
      → IsHealthy s
      → Chain s.next_offset ss upto
      → Chain s.base_offset (s ∷ ss) upto

-- A log whose active segment `s` is the last of its list.
abbrev pub running : Config → Directory → List Segment → Segment → Log
running c d older s = record { config = c; directory = some d; older = older; active = listed s }

-- The limits of a configuration with which an index can be mapped and counted.
pub record IsUsable (c : Config) : Type 0 where
  pub positive : 0 < c.max_index_bytes
  pub small : c.max_index_bytes < 2 ^ 32 * 12

-- The offsets from `lowest` on are those of the segments, and the directory has no file of a
-- segment after the active one.
pub record IsSound (lowest : ℕ) (c : Config) (d : Directory) (older : List Segment) (s : Segment)
    : Type 0 where
  pub usable : IsUsable c
  pub chain : Chain lowest older s.base_offset
  pub healthy : IsHealthy s
  pub configured : s.config ≡ c
  pub index_room : length s.index.mmap ≡ c.max_index_bytes
  pub fresh : (f : File) → s.base_offset < f.base → Files.lookup f d ≡ none

-- The segment that newSegment makes of no files.
abbrev pub fresh_segment : ℕ → Config → Segment
fresh_segment off c = record {
  store = Store.new_store [];
  index = Reopening.opened [] c.max_index_bytes;
  base_offset = off;
  next_offset = off;
  config = c;
}

fresh_index-IsHealthy :
    (c : Config) → IsUsable c → Entries.IsHealthy (Reopening.opened [] c.max_index_bytes)
fresh_index-IsHealthy c u = record {
  is_mapped = refl;
  fits = omega arith;
  whole = omega arith;
  small = omega (arith, Reopening.length-resize c.max_index_bytes [], u.small);
}

pub fresh_segment-IsHealthy :
    (off : ℕ) (c : Config) → IsUsable c → off < 2 ^ 64 → IsHealthy (fresh_segment off c)
fresh_segment-IsHealthy off c u small = record {
  store = Frames.new_store-IsHealthy [];
  store_small = omega (arith, Frames.size-new_store []);
  index = fresh_index-IsHealthy c u;
  counted = omega arith;
  few = omega (arith, Reopening.length-resize c.max_index_bytes [], u.small);
  bounded = small;
  last_entry = λ n e. absurd (omega arith);
}

pub fresh_segment-unmaxed :
    (off : ℕ) (c : Config)
    → IsUsable c
    → 0 < c.max_store_bytes
    → Segment.is_maxed (fresh_segment off c) ≡ false
unfolding Segment.is_maxed
fresh_segment-unmaxed off c u pos = ground (arith, Frames.size-new_store [], u.positive)

new_segment-fresh :
    (off : ℕ) (c : Config) → IsUsable c → Segment.new_segment [] [] off c ≡ ok (fresh_segment off c)
unfolding Segment.new_segment
new_segment-fresh off c u = ground (
  arith,
  Reopening.new_index-opened [] c.max_index_bytes u.positive (omega (arith, u.small)),
  Entries.read_empty (Reopening.opened [] c.max_index_bytes) (2 ^ 64 - 1),
)

-- The directory with the files of the segment at `off`.
abbrev pub with_files : ℕ → Directory → Directory
with_files off d = Files.put (Files.index_of off) [] (Files.put (Files.store_of off) [] d)

-- Where no file has the base, the new segment is empty and becomes the active one.
pub new_segment-running :
    (c : Config) (d : Directory) (older : List Segment) (s : Segment) (off : ℕ)
    → IsUsable c
    → Files.lookup (Files.store_of off) d ≡ none
    → Files.lookup (Files.index_of off) d ≡ none
    → new_segment (running c d older s) off
      ≡ (running c (with_files off d) (older ++ (s ∷ [])) (fresh_segment off c), ok tt)
unfolding new_segment Files.same_file
new_segment-running c d older s off u no_store no_index = ground (
  arith,
  new_segment-fresh off c u,
  Files.lookup-put (Files.store_of off) (Files.index_of off) [] d,
)

-- The first segment of a log.
pub new_segment-unset :
    (c : Config) (d : Directory) (off : ℕ)
    → IsUsable c
    → Files.lookup (Files.store_of off) d ≡ none
    → Files.lookup (Files.index_of off) d ≡ none
    → new_segment (record { config = c; directory = some d; older = []; active = unset }) off
      ≡ (running c (with_files off d) [] (fresh_segment off c), ok tt)
unfolding new_segment Files.same_file
new_segment-unset c d off u no_store no_index = ground (
  arith,
  new_segment-fresh off c u,
  Files.lookup-put (Files.store_of off) (Files.index_of off) [] d,
)

pub lookup-with_files :
    (off : ℕ) (d : Directory) (f : File)
    → off < f.base
    → Files.lookup f (with_files off d) ≡ Files.lookup f d
unfolding Files.same_file
lookup-with_files off d f h = ground (
  arith,
  Files.lookup-put (Files.index_of off) f [] (Files.put (Files.store_of off) [] d),
  Files.lookup-put (Files.store_of off) f [] d,
)
