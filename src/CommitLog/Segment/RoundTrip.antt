-- ===== src/CommitLog/Segment/RoundTrip.antt =====
-- What a segment promises: append and read, a full index, and a segment that is opened again.
use distributed_systems_trai.Base.{
  ℕ, ◌+◌, ◌*◌, ◌%◌, ◌^◌, ◌≤◌, ◌<◌, ◌≡◌, refl, inl, inr, false, List, ◌++◌, arith, length, Error,
  eof, ok, err, Result-cases,
}
use distributed_systems_trai.Base.Words.{sub64}
use distributed_systems_trai.CommitLog.Store
use distributed_systems_trai.CommitLog.Store.Writer.{bytes}
use distributed_systems_trai.CommitLog.Store.Frames
use distributed_systems_trai.CommitLog.Index
use distributed_systems_trai.CommitLog.Index.Entries
use distributed_systems_trai.CommitLog.Message.{Record, Codec}
use distributed_systems_trai.CommitLog.Segment.{Segment, Config, append, read, close, new_segment}
use distributed_systems_trai.CommitLog.Segment.Reads
use distributed_systems_trai.CommitLog.Segment.Reads.{IsHealthy, HasRoom, Holds}
use distributed_systems_trai.CommitLog.Segment.Reopen
use distributed_systems_trai.CommitLog.Segment.Reopen.{reopened}

module _ (proto : Codec) where
  -- Append to a healthy segment with room returns the next offset, which grows by 1, and Read at it
  -- returns the message with that offset in it; the segment stays healthy.
  pub read-append_segment :
      (s : Segment) (message : Record) (p : List ℕ)
      → IsHealthy s
      → proto.to_bytes (record message { offset = s.next_offset }) ≡ ok p
      → HasRoom s (length p)
      → ((append proto s message).1 ≡ ok s.next_offset)
        × ((append proto s message).0.next_offset ≡ s.next_offset + 1)
        × ((read proto (append proto s message).0 s.next_offset).1
            ≡ ok (record message { offset = s.next_offset }))
        × IsHealthy (append proto s message).0
  read-append_segment s message p h encoded room =
      let (t, e, a) = Reads.append-Appended proto s message p h encoded room in
      rw e
        (refl, a.next_offset, Reads.Holds-read proto t s.next_offset _ a.healthy a.holds, a.healthy)

  -- A record that Read returned at an offset of a healthy segment is returned after an append too.
  pub read-append_segment_old :
      (s : Segment) (message : Record) (p : List ℕ) (off : ℕ) (r : Record)
      → IsHealthy s
      → proto.to_bytes (record message { offset = s.next_offset }) ≡ ok p
      → HasRoom s (length p)
      → s.base_offset ≤ off
      → off < s.next_offset
      → (read proto s off).1 ≡ ok r
      → (read proto (append proto s message).0 off).1 ≡ ok r
  read-append_segment_old s message p off r h encoded room from before e =
      let (t, eq, a) = Reads.append-Appended proto s message p h encoded room in
      let held = Reads.read-Holds proto s off r h from before e in
      let holds = Reads.Holds-append proto s message p off r h encoded room held in
      rw eq (Reads.Holds-read proto t off r a.healthy (rw eq at holds))

  -- The store of `t` is that of `s` with the bytes `p` of a message that has no entry.
  pub record Orphaned (s : Segment) (p : List ℕ) (t : Segment) : Type 0 where
    pub healthy : IsHealthy t
    pub same_index : t.index ≡ s.index
    pub same_base : t.base_offset ≡ s.base_offset
    pub same_next : t.next_offset ≡ s.next_offset
    pub same_config : t.config ≡ s.config
    pub grown : bytes t.store ≡ bytes s.store ++ Frames.frame p

  -- Append to a healthy segment with a full index is io.EOF; the message's bytes stay in the store,
  -- the index and the offsets are as before, and the segment stays healthy.
  pub append-full :
      (s : Segment) (message : Record) (p : List ℕ)
      → IsHealthy s
      → proto.to_bytes (record message { offset = s.next_offset }) ≡ ok p
      → length s.index.mmap < s.index.size + 12
      → s.store.size + (length p + 8) < 2 ^ 63
      → (t : Segment) × (append proto s message ≡ (t, err eof)) × Orphaned s p t
  unfolding append
  append-full s message p h encoded full room =
      let (store, e, a) = Frames.append-Appended s.store p h.store (omega arith) in
      let k = sub64 s.next_offset s.base_offset % 2 ^ 32 in
      let refused = Entries.write_entry-full s.index k s.store.size h.index full in
      (
        record s { store = store },
        ground (arith, e, refused),
        record {
          healthy = record {
            store = a.healthy;
            store_small = omega (arith, a.size);
            index = h.index;
            counted = h.counted;
            few = h.few;
            bounded = h.bounded;
            last_entry = h.last_entry;
          };
          same_index = refl;
          same_base = refl;
          same_next = refl;
          same_config = refl;
          grown = a.grown;
        },
      )

  -- A successful append has written an entry.
  append-ok :
      (s : Segment) (message : Record) (off : ℕ)
      → (append proto s message).1 ≡ ok off
      → (pos : ℕ) × ((Index.write_entry s.index (sub64 s.next_offset s.base_offset % 2 ^ 32) pos).1
          ≡ ok tt)
  unfolding append
  append-ok s message off e =
      elim (Result-cases (proto.to_bytes (record message { offset = s.next_offset }))) [
        | inr (bad, failed) ↦ ground (arith, failed)
        | inl (p, encoded) ↦ elim (Result-cases (Store.append s.store p).1) [
          | inr (bad, failed) ↦ ground (arith, encoded, failed)
          | inl (w, written) ↦ (
            w.1,
            elim (Result-cases
                (Index.write_entry s.index (sub64 s.next_offset s.base_offset % 2 ^ 32) w.1).1) [
                  | inl (u, indexed) ↦ indexed
                  | inr (bad, failed) ↦ ground (arith, encoded, written, failed, e)
                ],
          )
        ]
      ]

  -- Append to a segment whose index is closed fails, whatever the message and the other fields.
  pub append-closed :
      (s : Segment) (message : Record)
      → s.index.is_mapped ≡ false
      → (e : Error) × ((append proto s message).1 ≡ err e)
  append-closed s message unmapped = elim (Result-cases (append proto s message).1) [
    | inr bad ↦ bad
    | inl (off, e) ↦
        let (pos, w) = append-ok s message off e in
        elim (Entries.write_entry-unmapped s.index (sub64 s.next_offset s.base_offset % 2 ^ 32) pos
          unmapped) [ inl full ↦ cc (w, full) | inr unreachable ↦ cc (w, unreachable) ]
  ]

  -- A healthy segment closes without an error, and newSegment over its files, with an index limit
  -- that is not below the index's size, gives a healthy segment with the same offsets, from which
  -- Read returns what it returned before.
  pub read-reopen_segment :
      (s : Segment) (c : Config) (off : ℕ) (r : Record)
      → IsHealthy s
      → s.index.size ≤ c.max_index_bytes
      → 0 < c.max_index_bytes
      → c.max_index_bytes < 2 ^ 32 * 12
      → s.base_offset ≤ off
      → off < s.next_offset
      → (read proto s off).1 ≡ ok r
      → ((close s).1 ≡ ok tt)
        × ((t : Segment) × (new_segment
                (close s).0.store.contents
                (close s).0.index.mmap
                s.base_offset
                c
              ≡ ok t)
            × IsHealthy t
            × (t.base_offset ≡ s.base_offset)
            × (t.next_offset ≡ s.next_offset)
            × ((read proto t off).1 ≡ ok r))
  read-reopen_segment s c off r h room positive small from before e =
      let healthy = Reopen.reopened-IsHealthy s c h room small in
      let holds =
        Reopen.Holds-reopened proto s c off r h room
          (Reads.read-Holds proto s off r h from before e) in
      rw (Reopen.close-closed_segment s h) (
        refl,
        (
          reopened s c,
          Reopen.new_segment-reopened s c h room positive small,
          healthy,
          refl,
          refl,
          Reads.Holds-read proto (reopened s c) off r healthy holds,
        ),
      )
