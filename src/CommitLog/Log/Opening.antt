-- ===== src/CommitLog/Log/Opening.antt =====
-- NewLog over an empty directory.
use distributed_systems_trai.Base.{◌*◌, ◌^◌, ◌<◌, ◌≡◌, refl, ◌∙◌, some, [], arith, ok}
use distributed_systems_trai.CommitLog.Segment.{Config}
use distributed_systems_trai.CommitLog.Index.Reopening
use distributed_systems_trai.CommitLog.Files
use distributed_systems_trai.CommitLog.Files.{Directory}
use distributed_systems_trai.CommitLog.Log.{new_log, with_default}
use distributed_systems_trai.CommitLog.Log.Invariant.{
  running, IsUsable, IsSound, done, fresh_segment, fresh_segment-IsHealthy, with_files,
  lookup-with_files, new_segment-unset,
}

-- The configuration with NewLog's defaults.
abbrev pub completed : Config → Config
completed c = record c {
  max_index_bytes = with_default c.max_index_bytes;
  max_store_bytes = with_default c.max_store_bytes;
}

-- Over an empty directory NewLog gives a sound log with one empty segment at the initial offset; a
-- limit of 0 is taken as 1024. The index limit must be below 12 times 2^32.
pub new_log-empty :
    (c : Config)
    → c.max_index_bytes < 2 ^ 32 * 12
    → c.initial_offset < 2 ^ 64
    → (new_log (some []) c ≡ (
      running
          (completed c)
          (with_files c.initial_offset [])
          []
          (fresh_segment c.initial_offset (completed c)),
      ok tt,
    ))
      × IsSound c.initial_offset
          (completed c)
          (with_files c.initial_offset [])
          []
          (fresh_segment c.initial_offset (completed c))
unfolding new_log with_default
new_log-empty c small offset =
    let usable : IsUsable (completed c) = record {
      positive = ground arith;
      small = ground arith;
    } in
    (
      new_segment-unset (completed c) [] c.initial_offset usable (Files.lookup-nil _)
          (Files.lookup-nil _),
      record {
        usable = usable;
        chain = done;
        healthy = fresh_segment-IsHealthy c.initial_offset (completed c) usable offset;
        configured = refl;
        index_room = Reopening.length-resize (with_default c.max_index_bytes) [];
        fresh = λ f above. lookup-with_files c.initial_offset [] f above ∙ Files.lookup-nil f;
      },
    )
