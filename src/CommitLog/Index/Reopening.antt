-- ===== src/CommitLog/Index/Reopening.antt =====
-- An index that is closed and opened again has the same entries.
use distributed_systems_trai.Base.{
  ℕ, ◌+◌, ◌-◌, ◌*◌, ◌^◌, ◌≤◌, ◌<◌, ◌≡◌, refl, sym, ap, ◌∙◌, true, false, List, arith, length, take,
  drop, replicate, length-append, take-append-drop, length-take, length-replicate, ok,
}
use distributed_systems_trai.Base.Slices.{slice, slice-append_left}
use distributed_systems_trai.Base.Words.{uint}
use distributed_systems_trai.CommitLog.Index.{Index, read, resize, new_index, close}
use distributed_systems_trai.CommitLog.Index.Entries.{
  IsHealthy, EntryAt, EntryAt-read, read-EntryAt,
}

pub slice-resize :
    (m j n : ℕ) (xs : List ℕ)
    → j + n ≤ m
    → j + n ≤ length xs
    → slice j n (resize m xs) ≡ slice j n xs
slice-resize m j n xs inside within =
    slice-append_left j n (take m xs) (replicate (m - length xs) 0)
      (omega (arith, length-take m xs))
    ∙ sym (slice-append_left j n (take m xs) (drop m xs) (omega (arith, length-take m xs)))
    ∙ ap (slice j n) (take-append-drop m xs)

pub length-resize : (m : ℕ) (xs : List ℕ) → length (resize m xs) ≡ m
length-resize m xs = omega (
  arith,
  length-append (take m xs) (replicate (m - length xs) 0),
  length-take m xs,
  length-replicate (m - length xs) (let z : ℕ = 0 in z),
)

-- What Close leaves, and what newIndex makes of a file.
abbrev pub closed_index : Index → Index
closed_index i = record i { mmap = resize i.size i.mmap; is_mapped = false }

abbrev pub opened : List ℕ → ℕ → Index
opened file max = record { mmap = resize max file; is_mapped = true; size = length file }

-- An entry lies before `size`, so neither the cut nor the filling up reaches it.
pub EntryAt-opened :
    (i : Index) (m k off pos : ℕ)
    → IsHealthy i
    → i.size ≤ m
    → EntryAt i k off pos
    → EntryAt (opened (resize i.size i.mmap) m) k off pos
EntryAt-opened i m k off pos h room e =
    let kept = λ (j n : ℕ) (inside : j + n ≤ i.size).
      slice-resize m j n (resize i.size i.mmap) (omega arith)
        (omega (arith, length-resize i.size i.mmap))
      ∙ slice-resize i.size j n i.mmap inside (omega (arith, h.fits)) in
    record {
      within = omega (arith, e.within, length-resize i.size i.mmap);
      off_bytes = ap uint (kept (k * 12) 4 (omega (arith, e.within))) ∙ e.off_bytes;
      pos_bytes = ap uint (kept (k * 12 + 4) 8 (omega (arith, e.within))) ∙ e.pos_bytes;
    }

pub close-closed_index : (i : Index) → IsHealthy i → close i ≡ (closed_index i, ok tt)
unfolding close
close-closed_index i h = ground (arith, h.is_mapped)

pub new_index-opened :
    (file : List ℕ) (max : ℕ) → 0 < max → max < 2 ^ 63 → new_index file max ≡ ok (opened file max)
unfolding new_index
new_index-opened file max positive small = ground arith

pub opened-IsHealthy :
    (i : Index) (max : ℕ)
    → IsHealthy i
    → i.size ≤ max
    → max < 2 ^ 63
    → IsHealthy (opened (resize i.size i.mmap) max)
opened-IsHealthy i max h room small =
    let file = resize i.size i.mmap in
    record {
      is_mapped = refl;
      fits = omega (arith, length-resize i.size i.mmap, length-resize max file);
      whole = omega (arith, h.whole, length-resize i.size i.mmap);
      small = omega (arith, length-resize max file);
    }

-- Closing a healthy index cuts its file to `size`; newIndex over that file, with a positive maximum
-- that is not below `size`, gives a healthy index of that size, and every entry is read as before.
pub new_index-close :
    (i : Index) (max k off pos : ℕ)
    → IsHealthy i
    → i.size ≤ max
    → 0 < max
    → max < 2 ^ 63
    → k < 2 ^ 32
    → read i k ≡ ok (off, pos)
    → ((close i).1 ≡ ok tt)
      × (length (close i).0.mmap ≡ i.size)
      × ((j : Index) × (new_index (close i).0.mmap max ≡ ok j)
          × IsHealthy j
          × (j.size ≡ i.size)
          × (read j k ≡ ok (off, pos)))
new_index-close i max k off pos h room positive small few e =
    let file = resize i.size i.mmap in
    let j = opened file max in
    let whole : length file ≡ i.size = length-resize i.size i.mmap in
    let healthy = opened-IsHealthy i max h room small in
    let entry = read-EntryAt i h k off pos few e in
    rw (close-closed_index i h) (
      refl,
      whole,
      (
        j,
        new_index-opened file max positive small,
        healthy,
        whole,
        EntryAt-read j healthy k off pos few (EntryAt-opened i max k off pos h room entry),
      ),
    )
