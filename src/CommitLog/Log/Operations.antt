-- ===== src/CommitLog/Log/Operations.antt =====
-- The methods of internal/log/log.go on a log that is set up.
use distributed_systems_trai.Base.{
  ◌>>=◌, ℕ, ◌-◌, Bool, true, false, ◌&&◌, Option, none, some, List, [], ◌∷◌, map, ltb, leb, ◌==◌,
  if◌then◌else◌, fault, out_of_range, Result, ok, err, and_then,
}
use distributed_systems_trai.Base.Words.{add64}
use distributed_systems_trai.CommitLog.Message.{Record, Codec}
use distributed_systems_trai.CommitLog.Segment
use distributed_systems_trai.CommitLog.Segment.{Segment}
use distributed_systems_trai.CommitLog.Files
use distributed_systems_trai.CommitLog.Files.{Directory}
use distributed_systems_trai.CommitLog.Log.{
  Log, Active, unset, listed, dropped, segments, new_segment, setup,
}

-- The files of a segment as they are on the disk.
unfoldable pub saved : Segment → Option Directory → Option Directory
saved s none = none
saved s (some d) = some (
    Files.put (Files.index_of s.base_offset) s.index.mmap
      (Files.put (Files.store_of s.base_offset) s.store.contents d))

-- The end of Segment.Remove: both files are removed.
unfoldable pub removed : Segment → Option Directory → Option Directory
removed s none = none
removed s (some d) =
    some
      (Files.delete (Files.store_of s.base_offset) (Files.delete (Files.index_of s.base_offset) d))

-- The loop of Close. A segment that fails ends it; the files so far are closed.
unfoldable pub close_loop :
    List Segment → Option Directory → (List Segment × Option Directory) × Result (Unit {0})
close_loop [] d = (([], d), ok tt)
close_loop (s ∷ ss) d =
    let (s', r) = Segment.close s in
    elim r [
      | err e ↦ ((s' ∷ ss, saved s' d), err e)
      | ok _ ↦ let ((ss', d'), r') = close_loop ss (saved s' d) in ((s' ∷ ss', d'), r')
    ]

close_active : Log → Active → Log × Result (Unit {0})
close_active l (listed s) =
    let (s', r) = Segment.close s in
    (record l { active = listed s'; directory = saved s' l.directory }, r)
close_active l other = (l, ok tt)

-- Close: all segments of the list in order; the active one is the last.
unfoldable pub close : Log → Log × Result (Unit {0})
unfolding close_loop close_active
close l =
    let ((older, d), r) = close_loop l.older l.directory in
    and_then (record l { older = older; directory = d }, r) λ _ l₁. close_active l₁ l₁.active

-- Remove: Close, and then the directory is removed.
unfoldable pub remove : Log → Log × Result (Unit {0})
remove l = and_then (close l) λ _ l₁. (record l₁ { directory = none }, ok tt)

-- Reset. The fields `segments` and `activeSegment` stay as they are.
unfoldable pub reset : Log → Log × Result (Unit {0})
reset l = and_then (remove l) λ _ l₁. setup l₁

unfoldable pub first_base : List Segment → Result ℕ
first_base [] = err fault
first_base (s ∷ ss) = ok s.base_offset

-- LowestOffset: the first segment's base; an empty list is a panic.
unfoldable pub lowest_offset : Log → Result ℕ
unfolding first_base
lowest_offset l = first_base (segments l)

unfoldable pub last_next : List Segment → Result ℕ
last_next [] = err fault
last_next (s ∷ []) = ok s.next_offset
last_next (s ∷ t ∷ ss) = last_next (t ∷ ss)

-- HighestOffset: the last segment's next offset less 1, and 0 for a log that starts at 0 and is
-- empty.
unfoldable pub highest_offset : Log → Result ℕ
unfolding last_next
highest_offset l = do off ← last_next (segments l); ok (if off == 0 then 0 else off - 1)

-- What Truncate does with a segment, and whether the segment is kept.
unfoldable pub truncate_one : ℕ → Segment → Segment × Result Bool
truncate_one lowest s =
    if leb s.next_offset (add64 lowest 1)
    then (and_then (Segment.close s) λ _ s'. (s', ok false))
    else (s, ok true)

abbrev pub Marked : Type 0
Marked = List (Segment × Bool)

unfoldable pub kept : Marked → List Segment
kept [] = []
kept ((s, keep) ∷ ms) = if keep then s ∷ kept ms else kept ms

abbrev pub unmarked : List Segment → Marked
unmarked = map (λ s. (s, true))

abbrev pub all_marked : Marked → List Segment
all_marked = map (λ m. m.0)

-- The loop of Truncate: each segment with whether it goes into the new list.
unfoldable pub truncate_loop :
    ℕ → List Segment → Option Directory → (Marked × Option Directory) × Result (Unit {0})
unfolding truncate_one
truncate_loop lowest [] d = (([], d), ok tt)
truncate_loop lowest (s ∷ ss) d =
    let (s', r) = truncate_one lowest s in
    elim r [
      | err e ↦ (((s', true) ∷ unmarked ss, saved s' d), err e)
      | ok keep ↦
          let ((ms, d'), r') = truncate_loop lowest ss (if keep then d else removed s' d) in
          (((s', keep) ∷ ms, d'), r')
    ]

truncate_active : ℕ → Log → Marked → Option Directory → Active → Log × Result (Unit {0})
unfolding truncate_one kept
truncate_active lowest l older d (listed s) =
    let (s', r) = truncate_one lowest s in
    elim r [
      | err e ↦
          (record l { older = all_marked older; directory = saved s' d; active = listed s' }, err e)
      | ok keep ↦ (
        record l {
          older = kept older;
          directory = if keep then d else removed s' d;
          active = if keep then listed s' else dropped s';
        },
        ok tt,
      )
    ]
truncate_active lowest l older d other = (record l { older = kept older; directory = d }, ok tt)

-- Truncate: the list stays as it was when a segment cannot be removed.
unfoldable pub truncate : Log → ℕ → Log × Result (Unit {0})
unfolding truncate_loop truncate_active
truncate l lowest =
    let ((older, d), r) = truncate_loop lowest l.older l.directory in
    elim r [
      | err e ↦ (record l { older = all_marked older; directory = d }, err e)
      | ok _ ↦ truncate_active lowest l older d l.active
    ]

-- Whether Read takes the segment for an offset.
abbrev pub covers : Segment → ℕ → Bool
covers s off = leb s.base_offset off && ltb off s.next_offset

module _ (proto : Codec) where
  append_to : Log → (Segment → Active) → Segment → Record → Log × Result ℕ
  append_to l put s message =
      let (s', r) = Segment.append proto s message in
      and_then (record l { active = put s' }, r)
        λ off l₁.
          if Segment.is_maxed s'
          then (and_then (new_segment l₁ (add64 off 1)) λ _ l₂. (l₂, ok off))
          else (l₁, ok off)

  append_active : Log → Active → Record → Log × Result ℕ
  unfolding append_to
  append_active l unset message = (l, err fault)
  append_active l (listed s) message = append_to l listed s message
  append_active l (dropped s) message = append_to l dropped s message

  -- Append: to the active segment, with a new one behind it when it is full.
  unfoldable pub append : Log → Record → Log × Result ℕ
  unfolding append_active
  append l message = append_active l l.active message

  -- The first segment of the list that has the offset, read, if there is one.
  unfoldable pub read_loop : List Segment → ℕ → List Segment × Option (Result Record)
  read_loop [] off = ([], none)
  read_loop (s ∷ ss) off =
      let rest : List Segment × Option (Result Record) =
        let (ss', r) = read_loop ss off in (s ∷ ss', r) in
      let here : List Segment × Option (Result Record) =
        let (s', r) = Segment.read proto s off in (s' ∷ ss, some r) in
      if covers s off then here else rest

  read_active : Log → Active → ℕ → Log × Result Record
  read_active l (listed s) off =
      let here : Log × Result Record =
        let (s', r) = Segment.read proto s off in (record l { active = listed s' }, r) in
      if covers s off then here else (l, err (out_of_range off))
  read_active l other off = (l, err (out_of_range off))

  -- Read
  unfoldable pub read : Log → ℕ → Log × Result Record
  unfolding read_loop read_active
  read l off =
      let (older, r) = read_loop l.older off in
      let l₁ = record l { older = older } in
      elim r [ some result ↦ (l₁, result) | none ↦ read_active l₁ l.active off ]
