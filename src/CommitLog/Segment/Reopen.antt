-- ===== src/CommitLog/Segment/Reopen.antt =====
-- Closing a segment and opening it again.
use distributed_systems_trai.Base.{
  ℕ, ◌+◌, ◌-◌, ◌*◌, ◌/◌, ◌^◌, ◌≤◌, ◌<◌, ◌≡◌, refl, sym, ap, ◌∙◌, inl, inr, arith, ℕ-cases, ok,
  ◌>>=◌,
}
use distributed_systems_trai.CommitLog.Store
use distributed_systems_trai.CommitLog.Store.Writer.{bytes}
use distributed_systems_trai.CommitLog.Store.Frames
use distributed_systems_trai.CommitLog.Index
use distributed_systems_trai.CommitLog.Index.Entries
use distributed_systems_trai.CommitLog.Index.Reopening
use distributed_systems_trai.CommitLog.Index.Reopening.{opened}
use distributed_systems_trai.CommitLog.Message.{Record, Codec}
use distributed_systems_trai.CommitLog.Segment.{
  Segment, Config, new_segment, first_free, close, read,
}
use distributed_systems_trai.CommitLog.Segment.Reads
use distributed_systems_trai.CommitLog.Segment.Reads.{IsHealthy, Holds}
use distributed_systems_trai.Base.Slices.{slice}
use distributed_systems_trai.Base.Words.{uint, sub64}

-- What a successful Close leaves.
abbrev pub closed_segment : Segment → Segment
closed_segment s = record s {
  store = Frames.closed_store s.store;
  index = Reopening.closed_index s.index;
}

pub close-closed_segment : (s : Segment) → IsHealthy s → close s ≡ (closed_segment s, ok tt)
unfolding close
close-closed_segment s h =
    ground
      (arith, Reopening.close-closed_index s.index h.index, Frames.close-closed s.store h.store)

-- The segment that is opened over the files that Close left.
abbrev pub reopened : Segment → Config → Segment
reopened s c = record {
  store = Store.new_store (bytes s.store);
  index = opened (Reopening.closed_index s.index).mmap c.max_index_bytes;
  base_offset = s.base_offset;
  next_offset = s.next_offset;
  config = c;
}

module _ (s : Segment) (c : Config) (h : IsHealthy s) where
  abbrev index_again : Index.Index
  index_again = (reopened s c).index

  -- The last entry tells the next offset.
  first_free-reopened :
      s.index.size ≤ c.max_index_bytes
      → 0 < c.max_index_bytes
      → c.max_index_bytes < 2 ^ 32 * 12
      → first_free s.base_offset (Index.read index_again (2 ^ 64 - 1)) ≡ ok s.next_offset
  unfolding first_free
  first_free-reopened room positive small =
      let same = Reopening.length-resize s.index.size s.index.mmap in
      elim (ℕ-cases (s.index.size / 12)) [
        | inl empty ↦ ground (
          arith,
          Entries.read_empty index_again (2 ^ 64 - 1) (omega (arith, empty, h.index.whole)),
          empty,
          h.counted,
        )
        | inr (n, more) ↦
            let (pos, last) = h.last_entry n more in
            let few : n < 2 ^ 32 = omega (arith, last.within, h.few, h.index.fits) in
            let healthy =
              Reopening.opened-IsHealthy s.index c.max_index_bytes h.index room (omega arith) in
            let kept =
              Reopening.EntryAt-opened s.index c.max_index_bytes n n pos h.index room last in
            let read_again =
              Entries.read_last index_again healthy n (ap (λ m. m / 12) same ∙ more) few
              ∙ Entries.EntryAt-read index_again healthy n n pos few kept in
            ground (arith, read_again, more, h.counted, h.bounded)
      ]

  new_segment-opened :
      0 < c.max_index_bytes
      → c.max_index_bytes < 2 ^ 32 * 12
      → first_free s.base_offset (Index.read index_again (2 ^ 64 - 1)) ≡ ok s.next_offset
      → new_segment (closed_segment s).store.contents (closed_segment s).index.mmap s.base_offset c
        ≡ ok (reopened s c)
  unfolding new_segment
  new_segment-opened positive small next =
      ground
        (arith, next, Reopening.new_index-opened (closed_segment s).index.mmap c.max_index_bytes)

pub new_segment-reopened :
    (s : Segment) (c : Config)
    → IsHealthy s
    → s.index.size ≤ c.max_index_bytes
    → 0 < c.max_index_bytes
    → c.max_index_bytes < 2 ^ 32 * 12
    → new_segment (closed_segment s).store.contents (closed_segment s).index.mmap s.base_offset c
      ≡ ok (reopened s c)
new_segment-reopened s c h room positive small =
    new_segment-opened s c h positive small (first_free-reopened s c h room positive small)

pub reopened-IsHealthy :
    (s : Segment) (c : Config)
    → IsHealthy s
    → s.index.size ≤ c.max_index_bytes
    → c.max_index_bytes < 2 ^ 32 * 12
    → IsHealthy (reopened s c)
reopened-IsHealthy s c h room small =
    let same = Reopening.length-resize s.index.size s.index.mmap in
    let file = (closed_segment s).index.mmap in
    record {
      store = Frames.new_store-IsHealthy (bytes s.store);
      store_small =
          omega (arith, h.store_small, h.store.sized, Frames.size-new_store (bytes s.store));
      index = Reopening.opened-IsHealthy s.index c.max_index_bytes h.index room (omega arith);
      counted = h.counted ∙ ap (λ m. s.base_offset + m / 12) (sym same);
      few = omega (arith, Reopening.length-resize c.max_index_bytes file);
      bounded = h.bounded;
      last_entry = λ n e.
          let (pos, last) = h.last_entry n (ap (λ m. m / 12) (sym same) ∙ e) in
          (pos, Reopening.EntryAt-opened s.index c.max_index_bytes n n pos h.index room last);
    }

module _ (proto : Codec) where
  pub Holds-reopened :
      (s : Segment) (c : Config) (off : ℕ) (r : Record)
      → IsHealthy s
      → s.index.size ≤ c.max_index_bytes
      → Holds proto s off r
      → Holds proto (reopened s c) off r
  Holds-reopened s c off r h room g = record {
    relative = g.relative;
    position = g.position;
    payload = g.payload;
    from = g.from;
    before = g.before;
    entry =
        Reopening.EntryAt-opened s.index c.max_index_bytes (off - s.base_offset) g.relative
          g.position h.index room g.entry;
    frame = rw (Frames.bytes-new_store (bytes s.store)) g.frame;
    decoded = g.decoded;
  }

  -- At an offset in range, Read of the segment that is opened again gives what it gave before, its
  -- errors included.
  pub read-reopened :
      (s : Segment) (c : Config) (off : ℕ)
      → IsHealthy s
      → s.index.size ≤ c.max_index_bytes
      → c.max_index_bytes < 2 ^ 32 * 12
      → s.base_offset ≤ off
      → off < s.next_offset
      → (read proto (reopened s c) off).1 ≡ (read proto s off).1
  read-reopened s c off h room small from before =
      let k = off - s.base_offset in
      let relative = uint (slice (k * 12) 4 s.index.mmap) in
      let pos = uint (slice (k * 12 + 4) 8 s.index.mmap) in
      let few : k < 2 ^ 32 = omega (arith, h.counted, h.few, h.index.fits) in
      let near : sub64 off s.base_offset ≡ k = omega (arith, h.bounded) in
      let entry : Entries.EntryAt s.index k relative pos = record {
        within = omega (arith, h.counted, h.index.whole);
        off_bytes = refl;
        pos_bytes = refl;
      } in
      let again =
        Reopening.EntryAt-opened s.index c.max_index_bytes k relative pos h.index room entry in
      let healthy =
        Reopening.opened-IsHealthy s.index c.max_index_bytes h.index room (omega arith) in
      Reads.read-entry proto (reopened s c) off relative pos
        (rw near (Entries.EntryAt-read (reopened s c).index healthy k relative pos few again))
      ∙ ap (λ res. res >>= proto.of_bytes) (Frames.read-new_store s.store pos h.store)
      ∙ sym (
          Reads.read-entry proto s off relative pos
            (rw near (Entries.EntryAt-read s.index h.index k relative pos few entry)))
