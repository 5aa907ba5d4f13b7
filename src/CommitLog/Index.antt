-- ===== src/CommitLog/Index.antt =====
-- internal/log/index.go: the memory-mapped file of entries, each a record's offset relative to the
-- segment in four bytes and its position in the store in eight.
pub mod Entries
pub mod Reopening
use distributed_systems_trai.Base.{
  ◌>>=◌, ℕ, ◌+◌, ◌-◌, ◌*◌, ◌/◌, ◌%◌, ◌^◌, Bool, true, false, ◌&&◌, ◌||◌, List, ◌++◌, ltb, leb, ◌==◌,
  if◌then◌else◌, length, take, replicate, eof, invalid, fault, Result, ok, err,
}
use distributed_systems_trai.Base.Slices.{slice, write}
use distributed_systems_trai.Base.Words.{add64, sub64, put_uint, uint}

abbrev pub off_width : ℕ
off_width = 4

abbrev pub pos_width : ℕ
pos_width = 8

abbrev pub entry_width : ℕ
entry_width = off_width + pos_width

-- The bytes of the mapping, which are those of the file (MAP_SHARED), whether the file is still
-- mapped, and the field `size`.
pub record Index : Type 0 where
  pub mmap : List ℕ
  pub is_mapped : Bool
  pub size : ℕ

-- os.File.Truncate: the file is cut, or filled up with zeros.
abbrev pub resize : ℕ → List ℕ → List ℕ
resize n xs = take n xs ++ replicate (n - length xs) 0

-- newIndex over the file's bytes, with `c.Segment.MaxIndexBytes`. A length that is no positive
-- int64 is refused by Truncate or Mmap.
unfoldable pub new_index : List ℕ → ℕ → Result Index
new_index file max_index_bytes =
    if leb (2 ^ 63) max_index_bytes || (max_index_bytes == 0)
    then err invalid
    else ok (record { mmap = resize max_index_bytes file; is_mapped = true; size = length file })

-- Close: the file is cut to `size`. An index that is not mapped is refused by msync. A size beyond the
-- mapped pages, which msync refuses too and which only a file that is longer than the limit gives, is
-- not told apart here.
unfoldable pub close : Index → Index × Result (Unit {0})
close i =
    if i.is_mapped
    then (record i { mmap = resize i.size i.mmap; is_mapped = false }, ok tt)
    else (i, err invalid)

-- The bytes `mmap[pos : pos+n]`: a panic out of bounds, a fault when the file is not mapped.
mapped : Index → ℕ → ℕ → Result (List ℕ)
mapped i pos n =
    if i.is_mapped && leb (pos + n) (length i.mmap) then ok (slice pos n i.mmap) else err fault

-- The number of the entry that is asked for; -1 is the last one. `n` is an int64 by its bits.
entry_number : Index → ℕ → ℕ
entry_number i n = if n == 2 ^ 64 - 1 then sub64 (i.size / entry_width) 1 % 2 ^ 32 else n % 2 ^ 32

-- Read: the relative offset and the position in the entry.
unfoldable pub read : Index → ℕ → Result (ℕ × ℕ)
unfolding mapped entry_number
read i n =
    let pos = entry_number i n * entry_width in
    if i.size == 0 then err eof else if ltb i.size (pos + entry_width) then err eof else do
      off_bytes ← mapped i pos off_width
      pos_bytes ← mapped i (pos + off_width) pos_width
      ok (uint off_bytes, uint pos_bytes)

-- Write: one more entry at `size`, if it fits the mapping.
unfoldable pub write_entry : Index → ℕ → ℕ → Index × Result (Unit {0})
write_entry i off pos =
    if ltb (length i.mmap) (add64 i.size entry_width)
    then (i, err eof)
    else if i.is_mapped
    then (
      record i {
        mmap =
            write (i.size + off_width) (put_uint pos_width pos)
              (write i.size (put_uint off_width off) i.mmap);
        size = add64 i.size entry_width;
      },
      ok tt,
    )
    else (i, err fault)
