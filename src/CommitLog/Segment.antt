-- ===== src/CommitLog/Segment.antt =====
-- internal/log/segment.go: a store and its index, with the offsets of the records that they hold.
pub mod Reads
pub mod Reopen
pub mod RoundTrip
use distributed_systems_trai.Base.{
  ℕ, ◌-◌, ◌*◌, ◌/◌, ◌%◌, ◌^◌, Bool, ◌||◌, List, leb, fault, Result, ok, err, ◌>>=◌, ◌>>◌, and_then,
}
use distributed_systems_trai.Base.Words.{add64, sub64}
use distributed_systems_trai.CommitLog.Store
use distributed_systems_trai.CommitLog.Store.{Store}
use distributed_systems_trai.CommitLog.Index
use distributed_systems_trai.CommitLog.Index.{Index}
use distributed_systems_trai.CommitLog.Message.{Record, Codec}

-- The fields of config.go's Segment.
pub record Config : Type 0 where
  pub max_store_bytes : ℕ
  pub max_index_bytes : ℕ
  pub initial_offset : ℕ

pub record Segment : Type 0 where
  pub store : Store
  pub index : Index
  pub base_offset : ℕ
  pub next_offset : ℕ
  pub config : Config

-- The offset after the last entry's; a failed read of that entry means an empty index, but a panic
-- goes on.
unfoldable pub first_free : ℕ → Result (ℕ × ℕ) → Result ℕ
first_free base_offset (err fault) = err fault
first_free base_offset (err e) = ok base_offset
first_free base_offset (ok (off, pos)) = ok (add64 (add64 base_offset off) 1)

-- newSegment over the bytes of the files `<base>.store` and `<base>.index`, which are empty if they
-- were created.
unfoldable pub new_segment : List ℕ → List ℕ → ℕ → Config → Result Segment
unfolding first_free
new_segment store_file index_file base_offset c = do
  index ← Index.new_index index_file c.max_index_bytes
  next_offset ← first_free base_offset (Index.read index (2 ^ 64 - 1))
  ok (record {
    store = Store.new_store store_file;
    index = index;
    base_offset = base_offset;
    next_offset = next_offset;
    config = c;
  })

unfoldable pub is_maxed : Segment → Bool
is_maxed s = leb s.config.max_store_bytes s.store.size || leb s.config.max_index_bytes s.index.size

close_store : Segment → Segment × Result (Unit {0})
close_store s = let (store, r) = Store.close s.store in (record s { store = store }, r)

-- Close: the index, and then the store if that went well.
unfoldable pub close : Segment → Segment × Result (Unit {0})
unfolding close_store
close s =
    let (index, r) = Index.close s.index in
    and_then (record s { index = index }, r) λ _ s₁. close_store s₁

module _ (proto : Codec) where
  -- Append: the message gets the next offset; its bytes go to the store and their position to the
  -- index. What a failing step wrote before stays written.
  unfoldable pub append : Segment → Record → Segment × Result ℕ
  append s message = elim (proto.to_bytes (record message { offset = s.next_offset })) [
    | err e ↦ (s, err e)
    | ok p ↦
        let (store, written) = Store.append s.store p in
        let s₁ = record s { store = store } in
        and_then (s₁, written)
          λ w s₁.
            let (index, indexed) =
              Index.write_entry s₁.index (sub64 s₁.next_offset s₁.base_offset % 2 ^ 32) w.1 in
            and_then (record s₁ { index = index }, indexed)
              λ _ s₂. (record s₂ { next_offset = add64 s₂.next_offset 1 }, ok s.next_offset)
  ]

  -- Read: the position in the index, the bytes in the store, and the message.
  unfoldable pub read : Segment → ℕ → Segment × Result Record
  read s off = elim (Index.read s.index (sub64 off s.base_offset)) [
    | err e ↦ (s, err e)
    | ok (o, pos) ↦
        let (store, found) = Store.read s.store pos in
        (record s { store = store }, found >>= proto.of_bytes)
  ]

-- nearestMultiple, which nothing calls.
unfoldable pub nearest_multiple : ℕ → ℕ → ℕ
nearest_multiple j k = (add64 (sub64 j k) 1 / k) * k % 2 ^ 64
