-- ===== src/CommitLog/Segment/Reads.antt =====
-- A segment holds a record at each of its offsets: Append adds one, Read returns them.
use distributed_systems_trai.Base.{
  ℕ, suc, ◌+◌, ◌-◌, ◌*◌, ◌/◌, ◌%◌, ◌^◌, ◌≤◌, ◌<◌, ◌≡◌, refl, subst, inl, inr, List, ◌++◌, arith,
  length, Error, ok, err, ◌>>=◌, Result-cases,
}
use distributed_systems_trai.Base.Words.{sub64}
use distributed_systems_trai.CommitLog.Store
use distributed_systems_trai.CommitLog.Store.Writer
use distributed_systems_trai.CommitLog.Store.Writer.{bytes}
use distributed_systems_trai.CommitLog.Store.Frames
use distributed_systems_trai.CommitLog.Store.Frames.{FrameAt}
use distributed_systems_trai.CommitLog.Index
use distributed_systems_trai.CommitLog.Index.Entries
use distributed_systems_trai.CommitLog.Index.Entries.{EntryAt}
use distributed_systems_trai.CommitLog.Message.{Record, Codec}
use distributed_systems_trai.CommitLog.Segment.{Segment, append, read}

-- Both files are healthy, the offsets count the entries, and all numbers are in range.
pub record IsHealthy (s : Segment) : Type 0 where
  pub store : Writer.IsHealthy s.store
  pub store_small : s.store.size < 2 ^ 63
  pub index : Entries.IsHealthy s.index
  pub counted : s.next_offset ≡ s.base_offset + s.index.size / 12
  pub few : length s.index.mmap < 2 ^ 32 * 12
  pub bounded : s.next_offset < 2 ^ 64
  pub last_entry : (n : ℕ) → s.index.size / 12 ≡ suc n → (pos : ℕ) × EntryAt s.index n n pos

-- The index, the store and the offsets have room for a message of `n` bytes.
abbrev pub HasRoom : Segment → ℕ → Type 0
HasRoom s n =
    (s.index.size + 12 ≤ length s.index.mmap)
    × (s.store.size + (n + 8) < 2 ^ 63)
    × (s.next_offset + 1 < 2 ^ 64)

module _ (proto : Codec) where
  -- The segment has an entry for the offset, which leads to bytes that stand for the record.
  pub record Holds (s : Segment) (off : ℕ) (r : Record) : Type 0 where
    pub relative : ℕ
    pub position : ℕ
    pub payload : List ℕ
    pub from : s.base_offset ≤ off
    pub before : off < s.next_offset
    pub entry : EntryAt s.index (off - s.base_offset) relative position
    pub frame : FrameAt (bytes s.store) position payload
    pub decoded : proto.of_bytes payload ≡ ok r

  pub Holds-read :
      (s : Segment) (off : ℕ) (r : Record)
      → IsHealthy s
      → Holds s off r
      → (read proto s off).1 ≡ ok r
  unfolding read
  Holds-read s off r h g =
      let near : sub64 off s.base_offset ≡ off - s.base_offset =
        omega (arith, g.from, g.before, h.bounded) in
      let entry =
        Entries.EntryAt-read s.index h.index (off - s.base_offset) g.relative g.position
          (omega (arith, g.entry.within, h.few, h.index.fits)) g.entry in
      let found = Frames.FrameAt-read s.store g.position h.store h.store_small g.payload g.frame in
      let entry' : Index.read s.index (sub64 off s.base_offset) ≡ ok (g.relative, g.position) =
        rw near entry in
      ground (arith, entry', found, g.decoded)

  pub record Appended (s : Segment) (message : Record) (p : List ℕ) (t : Segment) : Type 0 where
    pub healthy : IsHealthy t
    pub next_offset : t.next_offset ≡ s.next_offset + 1
    pub base_offset : t.base_offset ≡ s.base_offset
    pub config : t.config ≡ s.config
    pub index_room : length t.index.mmap ≡ length s.index.mmap
    pub index_size : t.index.size ≡ s.index.size + 12
    pub grown : bytes t.store ≡ bytes s.store ++ Frames.frame p
    pub store_size : t.store.size ≡ s.store.size + (length p + 8)
    pub holds : Holds t s.next_offset (record message { offset = s.next_offset })

  pub append-Appended :
      (s : Segment) (message : Record) (p : List ℕ)
      → IsHealthy s
      → proto.to_bytes (record message { offset = s.next_offset }) ≡ ok p
      → HasRoom s (length p)
      → (t : Segment) × (append proto s message ≡ (t, ok s.next_offset)) × Appended s message p t
  unfolding append
  append-Appended s message p h encoded (index_room, store_room, offset_room) =
      let (store, e₁, a) = Frames.append-Appended s.store p h.store (omega arith) in
      let k = sub64 s.next_offset s.base_offset % 2 ^ 32 in
      let number : k ≡ s.index.size / 12 = omega (arith, h.counted, h.few, h.bounded) in
      let same : s.next_offset - s.base_offset ≡ s.index.size / 12 = omega (arith, h.counted) in
      let (index, e₂, w) = Entries.write_entry-Written s.index k s.store.size h.index index_room in
      let added : EntryAt index (s.index.size / 12) (s.index.size / 12) s.store.size =
        subst (λ o. EntryAt index (s.index.size / 12) o s.store.size) number
          (Entries.EntryAt-Written_self s.index index k s.store.size h.index index_room
            (omega arith) (omega arith) w) in
      (
        record s { store = store; index = index; next_offset = s.next_offset + 1 },
        ground (arith, e₁, e₂),
        record {
          healthy = record {
            store = a.healthy;
            store_small = omega (arith, a.size);
            index = w.healthy;
            counted = omega (arith, w.size, h.counted);
            few = omega (arith, w.same_room, h.few);
            bounded = omega arith;
            last_entry = λ n e. (
              s.store.size,
              subst (λ m. EntryAt index m m s.store.size) (omega (arith, w.size)) added,
            );
          };
          next_offset = refl;
          base_offset = refl;
          config = refl;
          index_room = w.same_room;
          index_size = w.size;
          grown = a.grown;
          store_size = a.size;
          holds = record {
            relative = s.index.size / 12;
            position = s.store.size;
            payload = p;
            from = omega (arith, h.counted);
            before = omega arith;
            entry = rw same added;
            frame =
                rw (a.grown, h.store.sized) (Frames.FrameAt-frame (bytes s.store) p (omega arith));
            decoded = proto.of_to (record message { offset = s.next_offset }) p encoded;
          };
        },
      )

  -- What the segment held before an append, it holds after it.
  pub Holds-append :
      (s : Segment) (message : Record) (p : List ℕ) (off : ℕ) (r : Record)
      → IsHealthy s
      → proto.to_bytes (record message { offset = s.next_offset }) ≡ ok p
      → HasRoom s (length p)
      → Holds s off r
      → Holds (append proto s message).0 off r
  unfolding append
  Holds-append s message p off r h encoded (index_room, store_room, offset_room) g =
      let (store, e₁, a) = Frames.append-Appended s.store p h.store (omega arith) in
      let k = sub64 s.next_offset s.base_offset % 2 ^ 32 in
      let (index, e₂, w) = Entries.write_entry-Written s.index k s.store.size h.index index_room in
      let appended : append proto s message ≡ (
        record s { store = store; index = index; next_offset = s.next_offset + 1 },
        ok s.next_offset,
      ) =
        ground (arith, e₁, e₂) in
      rw appended (record {
        relative = g.relative;
        position = g.position;
        payload = g.payload;
        from = g.from;
        before = omega (arith, g.before);
        entry =
            Entries.EntryAt-Written_old s.index index k s.store.size (off - s.base_offset)
              g.relative g.position w g.entry;
        frame =
            rw a.grown
              (Frames.FrameAt-append (bytes s.store) (Frames.frame p) g.position g.payload g.frame);
        decoded = g.decoded;
      })

  -- What Read does with the entry that it finds.
  pub read-entry :
      (s : Segment) (off relative position : ℕ)
      → Index.read s.index (sub64 off s.base_offset) ≡ ok (relative, position)
      → (read proto s off).1 ≡ ((Store.read s.store position).1 >>= proto.of_bytes)
  unfolding read
  read-entry s off relative position e = ground (arith, e)

  read-no_entry :
      (s : Segment) (off : ℕ) (e : Error)
      → Index.read s.index (sub64 off s.base_offset) ≡ err e
      → (read proto s off).1 ≡ err e
  unfolding read
  read-no_entry s off e missing = ground (arith, missing)

  -- At an offset in range, Read succeeds only with what the segment holds.
  pub read-Holds :
      (s : Segment) (off : ℕ) (r : Record)
      → IsHealthy s
      → s.base_offset ≤ off
      → off < s.next_offset
      → (read proto s off).1 ≡ ok r
      → Holds s off r
  read-Holds s off r h from before e =
      let k = off - s.base_offset in
      let few : k < 2 ^ 32 = omega (arith, h.counted, h.few, h.index.fits) in
      let near : sub64 off s.base_offset ≡ k = omega (arith, h.bounded) in
      elim (Result-cases (Index.read s.index k)) [
        | inr (bad, missing) ↦ cc (e, read-no_entry s off bad (rw near missing))
        | inl ((relative, position), entry) ↦ elim (Result-cases (Store.read s.store position).1) [
          | inr (bad, unread) ↦ cc (e, unread, read-entry s off relative position (rw near entry))
          | inl (payload, found) ↦ record {
            relative = relative;
            position = position;
            payload = payload;
            from = from;
            before = before;
            entry = Entries.read-EntryAt s.index h.index k relative position few entry;
            frame = Frames.read-FrameAt s.store position h.store h.store_small payload found;
            decoded = cc (e, found, read-entry s off relative position (rw near entry));
          }
        ]
      ]
