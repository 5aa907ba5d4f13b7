-- ===== src/CommitLog/Index/Entries.antt =====
-- An index as a sequence of entries: Write adds one, Read finds it.
use distributed_systems_trai.Base.{
  ℕ, suc, ◌+◌, ◌-◌, ◌*◌, ◌/◌, ◌^◌, ◌≤◌, ◌<◌, ◌≡◌, refl, sym, ap, ◌∙◌, ◌⊎◌, inl, inr, true, false,
  arith, ltb, Bool-cases, length, eof, fault, ok, err,
}
use distributed_systems_trai.Base.Slices.{
  slice, write, length-write, slice-write_self, slice-write_below,
}
use distributed_systems_trai.Base.Words.{add64, put_uint, uint, length-put_uint, uint-put_uint}
use distributed_systems_trai.CommitLog.Index.{Index, mapped, entry_number, read, write_entry}

-- The file is mapped, and `size` counts whole entries within the mapping.
pub record IsHealthy (i : Index) : Type 0 where
  pub is_mapped : i.is_mapped ≡ true
  pub fits : i.size ≤ length i.mmap
  pub whole : i.size ≡ i.size / 12 * 12
  pub small : length i.mmap < 2 ^ 63

-- The entry with number `k`.
pub record EntryAt (i : Index) (k off pos : ℕ) : Type 0 where
  pub within : k * 12 + 12 ≤ i.size
  pub off_bytes : uint (slice (k * 12) 4 i.mmap) ≡ off
  pub pos_bytes : uint (slice (k * 12 + 4) 8 i.mmap) ≡ pos

module _ (i : Index) (h : IsHealthy i) where
  mapped-slice : (pos n : ℕ) → pos + n ≤ i.size → mapped i pos n ≡ ok (slice pos n i.mmap)
  unfolding mapped
  mapped-slice pos n inside = ground (arith, h.is_mapped, h.fits)

  pub EntryAt-read : (k off pos : ℕ) → k < 2 ^ 32 → EntryAt i k off pos → read i k ≡ ok (off, pos)
  unfolding read entry_number
  EntryAt-read k off pos small e = ground (
    arith,
    mapped-slice (k * 12) 4 (omega (arith, e.within)),
    mapped-slice (k * 12 + 4) 8 (omega (arith, e.within)),
    e.within,
    e.off_bytes,
    e.pos_bytes,
  )

  read-within : (k off pos : ℕ) → k < 2 ^ 32 → read i k ≡ ok (off, pos) → k * 12 + 12 ≤ i.size
  unfolding read entry_number
  read-within k off pos small e = ground arith

  pub read-EntryAt : (k off pos : ℕ) → k < 2 ^ 32 → read i k ≡ ok (off, pos) → EntryAt i k off pos
  read-EntryAt k off pos small e =
      let within = read-within k off pos small e in
      let found =
        EntryAt-read k (uint (slice (k * 12) 4 i.mmap)) (uint (slice (k * 12 + 4) 8 i.mmap)) small
          (record { within = within; off_bytes = refl; pos_bytes = refl }) in
      record { within = within; off_bytes = cc (found, e); pos_bytes = cc (found, e) }

  pub read_last : (n : ℕ) → i.size / 12 ≡ suc n → n < 2 ^ 32 → read i (2 ^ 64 - 1) ≡ read i n
  unfolding read entry_number
  read_last n counted small = ground (arith, h.whole)

pub read_empty : (i : Index) (n : ℕ) → i.size ≡ 0 → read i n ≡ err eof
unfolding read
read_empty i n e = ground arith

-- A full index refuses the entry and stays as it is.
pub write_entry-full :
    (i : Index) (off pos : ℕ)
    → IsHealthy i
    → length i.mmap < i.size + 12
    → write_entry i off pos ≡ (i, err eof)
unfolding write_entry
write_entry-full i off pos h full = ground (arith, h.fits, h.small)

-- No entry can be written when the file is not mapped.
pub write_entry-unmapped :
    (i : Index) (off pos : ℕ)
    → i.is_mapped ≡ false
    → (write_entry i off pos ≡ (i, err eof)) ⊎ (write_entry i off pos ≡ (i, err fault))
unfolding write_entry
write_entry-unmapped i off pos h = elim (Bool-cases (ltb (length i.mmap) (add64 i.size 12))) [
  | inl full ↦ inl (ground arith)
  | inr room ↦ inr (ground arith)
]

-- `j` is `i` with one more entry.
pub record Written (i : Index) (off pos : ℕ) (j : Index) : Type 0 where
  pub healthy : IsHealthy j
  pub size : j.size ≡ i.size + 12
  pub same_room : length j.mmap ≡ length i.mmap
  pub mmap : j.mmap ≡ write (i.size + 4) (put_uint 8 pos) (write i.size (put_uint 4 off) i.mmap)

pub write_entry-Written :
    (i : Index) (off pos : ℕ)
    → IsHealthy i
    → i.size + 12 ≤ length i.mmap
    → (j : Index) × (write_entry i off pos ≡ (j, ok tt)) × Written i off pos j
unfolding write_entry
write_entry-Written i off pos h room =
    let mm = write (i.size + 4) (put_uint 8 pos) (write i.size (put_uint 4 off) i.mmap) in
    let same : length mm ≡ length i.mmap =
      length-write (i.size + 4) (put_uint 8 pos) (write i.size (put_uint 4 off) i.mmap)
      ∙ length-write i.size (put_uint 4 off) i.mmap in
    (
      record i { mmap = mm; size = i.size + 12 },
      ground (arith, h.is_mapped, h.small),
      record {
        healthy = record {
          is_mapped = h.is_mapped;
          fits = omega arith;
          whole = omega (arith, h.whole);
          small = omega (arith, h.small);
        };
        size = refl;
        same_room = same;
        mmap = refl;
      },
    )

-- The entry that was written.
pub EntryAt-Written_self :
    (i j : Index) (off pos : ℕ)
    → IsHealthy i
    → i.size + 12 ≤ length i.mmap
    → off < 2 ^ 32
    → pos < 2 ^ 64
    → Written i off pos j
    → EntryAt j (i.size / 12) off pos
EntryAt-Written_self i j off pos h room small_off small_pos w =
    let head = put_uint 4 off in
    let tail = put_uint 8 pos in
    let start : i.size / 12 * 12 ≡ i.size = sym h.whole in
    record {
      within = omega (arith, w.size, h.whole);
      off_bytes =
          rw (start, w.mmap)
            (ap uint (
                slice-write_below i.size 4 (i.size + 4) tail (write i.size head i.mmap)
                  (omega arith)
                ∙ ap (λ n. slice i.size n (write i.size head i.mmap)) (sym (length-put_uint 4 off))
                ∙ slice-write_self i.size head i.mmap (omega (arith, length-put_uint 4 off)))
              ∙ uint-put_uint 4 off small_off);
      pos_bytes =
          rw (start, w.mmap)
            (ap uint (
                ap (λ n. slice (i.size + 4) n (write (i.size + 4) tail (write i.size head i.mmap)))
                  (sym (length-put_uint 8 pos))
                ∙ slice-write_self (i.size + 4) tail (write i.size head i.mmap)
                    (omega (arith, length-put_uint 8 pos, length-write i.size head i.mmap)))
              ∙ uint-put_uint 8 pos small_pos);
    }

-- The entries before it.
pub EntryAt-Written_old :
    (i j : Index) (off pos k o p : ℕ) → Written i off pos j → EntryAt i k o p → EntryAt j k o p
EntryAt-Written_old i j off pos k o p w e =
    let below = λ (a n : ℕ) (inside : a + n ≤ i.size).
      slice-write_below a n (i.size + 4) (put_uint 8 pos) (write i.size (put_uint 4 off) i.mmap)
        (omega arith)
      ∙ slice-write_below a n i.size (put_uint 4 off) i.mmap inside in
    record {
      within = omega (arith, w.size, e.within);
      off_bytes = rw w.mmap (ap uint (below (k * 12) 4 (omega (arith, e.within))) ∙ e.off_bytes);
      pos_bytes =
          rw w.mmap (ap uint (below (k * 12 + 4) 8 (omega (arith, e.within))) ∙ e.pos_bytes);
    }

-- An entry written to a healthy index with room for it is read back at its number and as the last
-- entry; the index stays healthy. The offset is a uint32, the position a uint64, and there are at
-- most 2^32 entries.
pub read-write_entry :
    (i : Index) (off pos : ℕ)
    → IsHealthy i
    → i.size + 12 ≤ length i.mmap
    → off < 2 ^ 32
    → pos < 2 ^ 64
    → i.size / 12 < 2 ^ 32
    → ((write_entry i off pos).1 ≡ ok tt)
      × (read (write_entry i off pos).0 (i.size / 12) ≡ ok (off, pos))
      × (read (write_entry i off pos).0 (2 ^ 64 - 1) ≡ ok (off, pos))
      × IsHealthy (write_entry i off pos).0
read-write_entry i off pos h room small_off small_pos few =
    let (j, e, w) = write_entry-Written i off pos h room in
    let found =
      EntryAt-read j w.healthy (i.size / 12) off pos few
        (EntryAt-Written_self i j off pos h room small_off small_pos w) in
    let last = read_last j w.healthy (i.size / 12) (omega (arith, w.size)) few in
    rw e (refl, found, last ∙ found, w.healthy)

-- An entry that could be read before a write to a healthy index with room can be read after it.
pub read-write_entry_old :
    (i : Index) (off pos k o p : ℕ)
    → IsHealthy i
    → i.size + 12 ≤ length i.mmap
    → k < 2 ^ 32
    → read i k ≡ ok (o, p)
    → read (write_entry i off pos).0 k ≡ ok (o, p)
read-write_entry_old i off pos k o p h room small e =
    let (j, written, w) = write_entry-Written i off pos h room in
    rw written (
      EntryAt-read j w.healthy k o p small
        (EntryAt-Written_old i j off pos k o p w (read-EntryAt i h k o p small e)))

-- Reading at or behind the number of entries of a healthy index is io.EOF.
pub read-past_end :
    (i : Index) (k : ℕ) → IsHealthy i → k < 2 ^ 32 → i.size / 12 ≤ k → read i k ≡ err eof
unfolding read entry_number
read-past_end i k h small past = ground (arith, h.whole)
