-- ===== src/CommitLog/Store.antt =====
-- internal/log/store.go: the file of length-prefixed records, behind a buffered writer.
pub mod Writer
pub mod Frames
use distributed_systems_trai.Base.{
  ◌>>=◌, ℕ, ◌+◌, ◌-◌, ◌^◌, List, [], ◌∷◌, ◌++◌, Bool, true, false, Option, none, some, leb, ◌==◌,
  if◌then◌else◌, length, take, drop, Error, closed, eof, fault, negative_offset, Result, ok, err,
  and_then,
}
use distributed_systems_trai.Base.Slices.{slice}
use distributed_systems_trai.Base.Words.{add64, put_uint, uint}

abbrev pub len_width : ℕ
len_width = 8

-- The size of a `bufio.Writer`'s buffer.
abbrev pub buf_size : ℕ
buf_size = 4096

-- The file with its bytes (a write appends, by O_APPEND), the bytes that `buf` has not written yet
-- and its sticky error, and the field `size`. `is_open` falls when the file is closed.
pub record Store : Type 0 where
  pub contents : List ℕ
  pub is_open : Bool
  pub pending : List ℕ
  pub failed : Option Error
  pub size : ℕ

-- newStore: `size` is the file's size. The file is open.
unfoldable pub new_store : List ℕ → Store
new_store bytes = record {
  contents = bytes;
  is_open = true;
  pending = [];
  failed = none;
  size = length bytes;
}

-- os.File.Write of all of `p`; the writer keeps the error that a write returns.
unfoldable pub write_file : Store → List ℕ → Store × Result (Unit {0})
write_file s p =
    if s.is_open
    then (record s { contents = s.contents ++ p }, ok tt)
    else (record s { failed = some closed }, err closed)

-- bufio.Writer.Flush
flush_pending : Store → List ℕ → Store × Result (Unit {0})
unfolding write_file
flush_pending s [] = (s, ok tt)
flush_pending s (b ∷ bs) =
    if s.is_open
    then (record s { contents = s.contents ++ (b ∷ bs); pending = [] }, ok tt)
    else (record s { failed = some closed }, err closed)

unfoldable pub flush : Store → Store × Result (Unit {0})
unfolding flush_pending
flush s = elim s.failed [ none ↦ flush_pending s s.pending | some e ↦ (s, err e) ]

-- What is left of a long write when the buffer was flushed and is empty.
buf_rest : Store × Result (Unit {0}) → List ℕ → Store × Result (Unit {0})
unfolding write_file
buf_rest (s, err e) p = (s, err e)
buf_rest (s, ok _) p =
    if leb (length p) buf_size then (record s { pending = p }, ok tt) else write_file s p

-- A write that does not fit: an empty buffer is passed by, any other is filled up and flushed.
buf_spill : Store → List ℕ → List ℕ → Store × Result (Unit {0})
unfolding write_file flush_pending buf_rest
buf_spill s [] p = write_file s p
buf_spill s (b ∷ bs) p =
    let room = buf_size - length (b ∷ bs) in
    let full = (b ∷ bs) ++ take room p in
    buf_rest (flush_pending (record s { pending = full }) full) (drop room p)

-- bufio.Writer.Write
unfoldable pub buf_write : Store → List ℕ → Store × Result (Unit {0})
unfolding buf_spill
buf_write s p = elim s.failed [
  | some e ↦ (s, err e)
  | none ↦
      if leb (length p) (buf_size - length s.pending)
      then (record s { pending = s.pending ++ p }, ok tt)
      else buf_spill s s.pending p
]

-- Append: the length in eight bytes, then the record; the number of bytes and their position.
unfoldable pub append : Store → List ℕ → Store × Result (ℕ × ℕ)
unfolding buf_write
append s p = and_then (buf_write s (put_uint 8 (length p))) λ _ s₁.
    and_then (buf_write s₁ p)
      λ _ s₂. let w = length p + len_width in (record s₂ { size = add64 s₂.size w }, ok (w, s.size))

-- os.File.ReadAt of `n` bytes, at an offset that is an int64 by its bit pattern. Nothing is read
-- for an empty slice, and fewer bytes than asked for come with io.EOF.
unfoldable pub read_file_at : Store → ℕ → ℕ → Result (List ℕ)
unfolding slice
read_file_at s n off =
    if leb (2 ^ 63) off
    then err negative_offset
    else if n == 0
    then ok []
    else if s.is_open
    then (if leb (off + n) (length s.contents) then ok (slice off n s.contents) else err eof)
    else err closed

-- The length for make, which panics beyond the range of an int. That less than this may not be
-- allocated either is left out.
unfoldable pub make_len : ℕ → Result ℕ
make_len n = if leb (2 ^ 63) n then err fault else ok n

-- Read: the length at `pos`, then that many bytes.
unfoldable pub read : Store → ℕ → Store × Result (List ℕ)
unfolding flush read_file_at make_len
read s pos = and_then (flush s) λ _ s'. (
  s',
  do
    size ← read_file_at s' len_width pos
    n ← make_len (uint size)
    read_file_at s' n (add64 pos len_width),
)

-- The bytes that os.File.ReadAt copies, and whether it returns io.EOF.
unfoldable pub read_some_at : Store → ℕ → ℕ → List ℕ × Result (Unit {0})
unfolding slice
read_some_at s n off =
    if leb (2 ^ 63) off
    then ([], err negative_offset)
    else if n == 0
    then ([], ok tt)
    else if s.is_open
    then (slice off n s.contents, (if leb (off + n) (length s.contents) then ok tt else err eof))
    else ([], err closed)

read_flushed : Store → ℕ → ℕ → Result (Unit {0}) → List ℕ × Result (Unit {0})
unfolding read_some_at
read_flushed s n off (err e) = ([], err e)
read_flushed s n off (ok _) = read_some_at s n off

-- ReadAt: what was copied into `p`, of length `n`, and the error.
unfoldable pub read_at : Store → ℕ → ℕ → Store × (List ℕ × Result (Unit {0}))
unfolding flush read_flushed
read_at s n off = let (s', r) = flush s in (s', read_flushed s' n off r)

-- Close: the buffer is written before the file is closed; a second os.File.Close fails.
unfoldable pub close : Store → Store × Result (Unit {0})
unfolding flush
close s =
    and_then (flush s)
      λ _ s'. if s'.is_open then (record s' { is_open = false }, ok tt) else (s', err closed)
