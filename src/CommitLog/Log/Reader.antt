-- ===== src/CommitLog/Log/Reader.antt =====
-- Reader of internal/log/log.go and the snapshot of internal/log/distributed/snapshot.go that is made
-- of it: io.MultiReader over one originReader for each segment.
pub mod Whole
use distributed_systems_trai.Base.{
  ℕ, zero, suc, ◌+◌, ◌≤◌, ◌≡◌, refl, ap, Bool, true, false, List, [], ◌∷◌, ◌++◌, map, arith, ◌==◌,
  if◌then◌else◌, length, drop, All, length-drop, eof, fault, Result, ok, err, and_then,
}
use distributed_systems_trai.CommitLog.Store.{Store, read_at}
use distributed_systems_trai.CommitLog.Segment.{Segment}
use distributed_systems_trai.CommitLog.Log.{Log, segments}

-- originReader: the store, which it shares with the segment, how far it has read, and the offset of
-- the store's os.File itself. ReadAt leaves that one alone; a write to a file that is opened with
-- O_APPEND sets it to the end, and it is 0 in a file that was only opened.
pub record OriginReader : Type 0 where
  pub store : Store
  pub off : ℕ
  pub file_offset : ℕ

-- originReader.Read of `n` bytes: what was read, and the error.
unfoldable pub origin_read : ℕ → OriginReader → OriginReader × (List ℕ × Result (Unit {0}))
origin_read n o =
    let (store, (bs, r)) = read_at o.store n o.off in
    (record o { store = store; off = o.off + length bs }, (bs, r))

-- Reader, where `file_offset` tells the offsets of the segments' store files.
unfoldable pub reader : (Segment → ℕ) → Log → List OriginReader
reader file_offset l =
    map (λ s. record { store = s.store; off = 0; file_offset = file_offset s }) (segments l)

-- Whether the error is io.EOF.
abbrev pub is_eof : Result (Unit {0}) → Bool
is_eof (err eof) = true
is_eof _ = false

last_eof : List OriginReader → Result (Unit {0})
last_eof [] = err eof
last_eof (o ∷ os) = ok tt

-- Read of io.MultiReader. A reader that is at its end is left behind; io.EOF is passed on behind the
-- last one only.
unfoldable pub multi_read : ℕ → List OriginReader → List OriginReader × (List ℕ × Result (Unit {0}))
unfolding last_eof
multi_read n [] = ([], ([], err eof))
multi_read n (o ∷ os) =
    let (o', (bs, r)) = origin_read n o in
    let next = multi_read n os in
    let more = if length bs == 0 then next else (os, (bs, last_eof os)) in
    if is_eof r then more else (o' ∷ os, (bs, r))

-- io.ReadAll, whose rounds read `sizes 0`, `sizes 1`, … bytes; the fault is that of no fuel.
unfoldable pub read_all :
    ℕ → (ℕ → ℕ) → List OriginReader → List OriginReader × (List ℕ × Result (Unit {0}))
read_all zero sizes os = (os, ([], err fault))
read_all (suc fuel) sizes os =
    let (os', (bs, r)) = multi_read (sizes 0) os in
    let (os'', (more, r')) = read_all fuel (λ k. sizes (suc k)) os' in
    elim r [
      | ok u ↦ (os'', (bs ++ more, r'))
      | err e ↦ if is_eof (err e) then (os', (bs, ok tt)) else (os', (bs, err e))
    ]

-- raft.SnapshotSink, which counts as written what a Write has taken.
pub record Sink : Type 1 where
  pub State : Type 0
  pub write : State → List ℕ → State × Result (Unit {0})
  pub cancel : State → State
  pub close : State → State × Result (Unit {0})

module _ (sink : Sink) where
  open sink use {State, write, cancel, close}

  -- WriteTo of an originReader, which is os.File's, since originReader embeds *store and that embeds
  -- *os.File: the file's bytes from the file's own offset. The writes of its parts are one write here.
  unfoldable pub write_to : State → OriginReader → State × Result (Unit {0})
  write_to k o =
      let rest = drop o.file_offset o.store.contents in
      let written = write k rest in if length rest == 0 then (k, ok tt) else written

  -- WriteTo of io.MultiReader, which io.Copy calls.
  unfoldable pub copy : State → List OriginReader → State × Result (Unit {0})
  unfolding write_to
  copy k [] = (k, ok tt)
  copy k (o ∷ os) = and_then (write_to k o) λ _ k'. copy k' os

  -- snapshot.Persist
  unfoldable pub persist : State → List OriginReader → State × Result (Unit {0})
  unfolding copy
  persist k os = let (k', r) = copy k os in elim r [ err e ↦ (cancel k', err e) | ok u ↦ close k' ]

  copy-at_end :
      (k : State) (os : List OriginReader)
      → All (λ (o : OriginReader). length o.store.contents ≤ o.file_offset) os
      → copy k os ≡ (k, ok tt)
  unfolding copy write_to
  copy-at_end k [] h = refl
  copy-at_end k (o ∷ os) h =
      ground (arith, length-drop o.file_offset o.store.contents, h.0, copy-at_end k os h.1)

  -- Where the offset of every store's file is at the file's end, as after a write, Persist writes
  -- nothing and closes the sink: the snapshot is empty whatever the log holds.
  pub persist-at_end :
      (k : State) (file_offset : Segment → ℕ) (l : Log)
      → All (λ (s : Segment). length s.store.contents ≤ file_offset s) (segments l)
      → persist k (reader file_offset l) ≡ close k
  unfolding persist reader
  persist-at_end k file_offset l h =
      ap (λ x. elim x.1 [ err e ↦ (cancel x.0, err e) | ok u ↦ close x.0 ])
        (copy-at_end k _ (All-map (segments l) h))
    where
      All-map :
          (ss : List Segment)
          → All (λ (s : Segment). length s.store.contents ≤ file_offset s) ss
          → All
              (λ (o : OriginReader). length o.store.contents ≤ o.file_offset)
              (map (λ s. record { store = s.store; off = 0; file_offset = file_offset s }) ss)
      All-map [] g = tt
      All-map (s ∷ ss) g = (g.0, All-map ss g.1)
