-- ===== src/CommitLog/Tests.antt =====
-- The theorems on stores, indexes and file names at inputs.
use distributed_systems_trai.Base.{
  ℕ, ◌+◌, ◌-◌, ◌^◌, ◌≡◌, refl, List, [], ◌∷◌, arith, length, eof, ok, err,
}
use distributed_systems_trai.Base.Words.{put_uint, uint}
use distributed_systems_trai.Base.Slices.{write}
use distributed_systems_trai.CommitLog.Store
use distributed_systems_trai.CommitLog.Store.Writer
use distributed_systems_trai.CommitLog.Store.Frames
use distributed_systems_trai.CommitLog.Store.Frames.{read-append, read-append_old, read-reopen}
use distributed_systems_trai.CommitLog.Index
use distributed_systems_trai.CommitLog.Index.Entries
use distributed_systems_trai.CommitLog.Index.Reopening
use distributed_systems_trai.CommitLog.Index.Entries.{
  write_entry-full, read-write_entry, read-write_entry_old, read-past_end,
}
use distributed_systems_trai.CommitLog.Index.Reopening.{new_index-close}
use distributed_systems_trai.CommitLog.Files
use distributed_systems_trai.CommitLog.Files.Names.{base_of_name, file_name, base_of_name-file_name}

-- A store of one record, "hi", and a second one, "go".
abbrev hi : List ℕ
hi = b'h' ∷ b'i' ∷ []

abbrev go : List ℕ
go = b'g' ∷ b'o' ∷ []

abbrev empty_store : Store.Store
empty_store = Store.new_store []

empty_store-IsHealthy : Writer.IsHealthy empty_store
empty_store-IsHealthy = Frames.new_store-IsHealthy []

read-append_example :
    ((Store.append empty_store hi).1 ≡ ok (length hi + 8, empty_store.size))
    × ((Store.read (Store.append empty_store hi).0 empty_store.size).1 ≡ ok hi)
    × Writer.IsHealthy (Store.append empty_store hi).0
unfolding Store.new_store
read-append_example = read-append empty_store hi empty_store-IsHealthy (omega arith)

abbrev one_store : Store.Store
one_store = (Store.append empty_store hi).0

one_store-IsHealthy : Writer.IsHealthy one_store
unfolding Store.new_store
one_store-IsHealthy = (read-append empty_store hi empty_store-IsHealthy (omega arith)).2

read-append_old_test : (Store.read (Store.append one_store go).0 0).1 ≡ ok hi
unfolding Store.new_store Store.append Store.read put_uint uint
read-append_old_test = read-append_old one_store go 0 hi one_store-IsHealthy (omega arith) refl

read-reopen_test :
    ((Store.close one_store).1 ≡ ok tt)
    × Writer.IsHealthy (Store.new_store (Store.close one_store).0.contents)
    × ((Store.read (Store.new_store (Store.close one_store).0.contents) 0).1 ≡ ok hi)
unfolding Store.new_store Store.append Store.read put_uint uint
read-reopen_test = read-reopen one_store 0 hi one_store-IsHealthy (omega arith) refl

-- An index with room for two entries, and the same with one entry, and with two.
abbrev no_entry : Index.Index
no_entry = Reopening.opened [] 24

no_entry-IsHealthy : Entries.IsHealthy no_entry
no_entry-IsHealthy = record {
  is_mapped = refl;
  fits = omega arith;
  whole = omega arith;
  small = omega arith;
}

read-write_entry_example :
    ((Index.write_entry no_entry 0 0).1 ≡ ok tt)
    × (Index.read (Index.write_entry no_entry 0 0).0 0 ≡ ok (0, 0))
    × (Index.read (Index.write_entry no_entry 0 0).0 (2 ^ 64 - 1) ≡ ok (0, 0))
    × Entries.IsHealthy (Index.write_entry no_entry 0 0).0
read-write_entry_example =
    read-write_entry no_entry 0 0 no_entry-IsHealthy (omega arith) (omega arith) (omega arith)
      (omega arith)

abbrev one_entry : Index.Index
one_entry = (Index.write_entry no_entry 0 0).0

one_entry_lem :
    ((Index.write_entry no_entry 0 0).1 ≡ ok tt)
    × (Index.read one_entry 0 ≡ ok (0, 0))
    × (Index.read one_entry (2 ^ 64 - 1) ≡ ok (0, 0))
    × Entries.IsHealthy one_entry
one_entry_lem =
    read-write_entry no_entry 0 0 no_entry-IsHealthy (omega arith) (omega arith) (omega arith)
      (omega arith)

read-write_entry_old_test : Index.read (Index.write_entry one_entry 1 10).0 0 ≡ ok (0, 0)
unfolding Index.write_entry put_uint write
read-write_entry_old_test =
    read-write_entry_old one_entry 1 10 0 0 0 one_entry_lem.3 (omega arith) (omega arith)
      one_entry_lem.1

read-past_end_test : Index.read one_entry 1 ≡ err eof
unfolding Index.write_entry put_uint write
read-past_end_test = read-past_end one_entry 1 one_entry_lem.3 (omega arith) (omega arith)

abbrev tiny : Index.Index
tiny = Reopening.opened [] 11

write_entry-full_test : Index.write_entry tiny 0 0 ≡ (tiny, err eof)
write_entry-full_test =
    write_entry-full tiny 0 0
      (record { is_mapped = refl; fits = omega arith; whole = omega arith; small = omega arith })
      (omega arith)

new_index-close_test : (Index.close one_entry).1 ≡ ok tt
unfolding Index.write_entry put_uint write
new_index-close_test =
    (new_index-close one_entry 1024 0 0 0 one_entry_lem.3 (omega arith) (omega arith) (omega arith)
      (omega arith) one_entry_lem.1).0

base_of_name-file_name_example : base_of_name (file_name (Files.store_of 1024)) ≡ 1024
base_of_name-file_name_example = base_of_name-file_name (Files.store_of 1024) (omega arith)
