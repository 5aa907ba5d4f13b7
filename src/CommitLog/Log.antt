-- ===== src/CommitLog/Log.antt =====
-- internal/log/log.go: the log as a list of segments, of which the active one is appended to.
-- The other methods stand in `Operations`.
pub mod Operations
pub mod Invariant
pub mod Growth
pub mod Lookup
pub mod Contract
pub mod Truncation
pub mod Capacity
pub mod Opening
pub mod Stored
pub mod Reader
pub mod Reopening
pub mod Rereading
pub mod Durability
pub mod Refinement
use distributed_systems_trai.Base.{
  ℕ, ◌+◌, Bool, true, false, Option, none, some, List, [], ◌∷◌, ◌++◌, map, leb, ◌==◌, if◌then◌else◌,
  not_exist, Result, ok, err, and_then,
}
use distributed_systems_trai.Base.Words.{add64}
use distributed_systems_trai.CommitLog.Store
use distributed_systems_trai.CommitLog.Message.{Record, Codec}
use distributed_systems_trai.CommitLog.Segment
use distributed_systems_trai.CommitLog.Segment.{Segment, Config}
use distributed_systems_trai.CommitLog.Files
use distributed_systems_trai.CommitLog.Files.{File, Directory}
use distributed_systems_trai.CommitLog.Files.Names.{file_name, base_of_name}

-- The pointer `activeSegment`: nil, the last of `l.segments`, or a segment that Truncate has taken
-- off `l.segments`. A new segment goes to the end and becomes the active one, and Truncate keeps
-- the order, so the active segment stands nowhere else.
pub data Active : Type 0 where
  unset : Active
  listed dropped : Segment → Active

-- `directory` is none when the directory `l.Dir` does not exist. Its entry for a file of an open
-- segment is brought up to date when the segment is closed.
pub record Log : Type 0 where
  pub config : Config
  pub directory : Option Directory
  pub older : List Segment
  pub active : Active

abbrev pub last_listed : Active → List Segment
last_listed (listed s) = s ∷ []
last_listed _ = []

-- The field `segments`.
abbrev pub segments : Log → List Segment
segments l = l.older ++ last_listed l.active

-- os.OpenFile with O_CREATE, and the bytes that are found there.
created : File → Directory → Directory
created f d = elim (Files.lookup f d) [ some bytes ↦ d | none ↦ Files.put f [] d ]

found : File → Directory → List ℕ
found f d = elim (Files.lookup f d) [ some bytes ↦ bytes | none ↦ [] ]

-- newSegment of segment.go, with the files that it opens.
unfoldable pub open_segment : Directory → ℕ → Config → Directory × Result Segment
unfolding created found
open_segment d off c = (
  created (Files.index_of off) (created (Files.store_of off) d),
  Segment.new_segment (found (Files.store_of off) d) (found (Files.index_of off) d) off c,
)

add_segment : Log → Directory × Result Segment → Log × Result (Unit {0})
add_segment l (d, err e) = (record l { directory = some d }, err e)
add_segment l (d, ok s) =
    (record l { directory = some d; older = segments l; active = listed s }, ok tt)

-- newSegment of log.go
unfoldable pub new_segment : Log → ℕ → Log × Result (Unit {0})
unfolding open_segment add_segment
new_segment l off = elim l.directory [
  | none ↦ (l, err not_exist)
  | some d ↦ add_segment l (open_segment d off l.config)
]

insert_sorted : ℕ → List ℕ → List ℕ
insert_sorted a [] = a ∷ []
insert_sorted a (b ∷ bs) = if leb a b then a ∷ b ∷ bs else b ∷ insert_sorted a bs

-- slices.Sort
unfoldable pub sort : List ℕ → List ℕ
unfolding insert_sorted
sort [] = []
sort (a ∷ as') = insert_sorted a (sort as')

-- Every other offset is passed over: it is the index's, or the store's, of the one before.
unfoldable pub setup_loop : Log → List ℕ → Log × Result (Unit {0})
unfolding new_segment
setup_loop l [] = (l, ok tt)
setup_loop l (off ∷ []) = new_segment l off
setup_loop l (off ∷ dup ∷ rest) = and_then (new_segment l off) λ _ l'. setup_loop l' rest

is_empty : List Segment → Bool
is_empty [] = true
is_empty (s ∷ ss) = false

base_offsets : Directory → List ℕ
base_offsets d = sort (map (λ entry. base_of_name (file_name entry.0)) d)

unfoldable pub setup : Log → Log × Result (Unit {0})
unfolding setup_loop is_empty base_offsets sort
setup l = elim l.directory [
  | none ↦ (l, err not_exist)
  | some d ↦ and_then (setup_loop l (base_offsets d)) λ _ l'.
      if is_empty (segments l') then new_segment l' l'.config.initial_offset else (l', ok tt)
]

unfoldable pub with_default : ℕ → ℕ
with_default n = if n == 0 then 1024 else n

-- NewLog over a directory: the limits that are 0 become 1024.
unfoldable pub new_log : Option Directory → Config → Log × Result (Unit {0})
unfolding setup with_default
new_log d c = setup (record {
  config = record c {
    max_index_bytes = with_default c.max_index_bytes;
    max_store_bytes = with_default c.max_store_bytes;
  };
  directory = d;
  older = [];
  active = unset;
})
