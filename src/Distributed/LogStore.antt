-- ===== src/Distributed/LogStore.antt =====
-- internal/log/distributed/store.go: a log as the store of Raft's entries.
use distributed_systems_trai.Base.{
  ℕ, ◌+◌, ◌-◌, ◌^◌, ◌<◌, ◌≡◌, ◌↔◌, Option, List, [], ◌∷◌, arith, length, fault, out_of_range,
  Result, ok, err, ◌>>=◌, and_then,
}
use distributed_systems_trai.CommitLog.Message.{Record, Codec}
use distributed_systems_trai.CommitLog.Segment.{Segment, Config}
use distributed_systems_trai.CommitLog.Segment.Reads.{HasRoom}
use distributed_systems_trai.CommitLog.Files.{Directory}
use distributed_systems_trai.CommitLog.Log.{Log, new_log}
use distributed_systems_trai.CommitLog.Log.Operations.{
  append, read, lowest_offset, highest_offset, truncate,
}
use distributed_systems_trai.CommitLog.Log.Invariant.{running, IsSound}
use distributed_systems_trai.CommitLog.Log.Contract.{read-append_log, offsets_of_log}
use distributed_systems_trai.CommitLog.Log.Truncation.Emptied.{truncate-all}

-- The fields of raft.Log that the store keeps.
pub record Entry : Type 0 where
  pub index : ℕ
  pub term : ℕ
  pub type : ℕ
  pub payload : List ℕ

-- newLogStore
unfoldable pub new_log_store : Option Directory → Config → Log × Result (Unit {0})
new_log_store d c = new_log d c

-- DeleteRange: the lower end is not used.
unfoldable pub delete_range : Log → ℕ → ℕ → Log × Result (Unit {0})
delete_range l min max = truncate l max

-- FirstIndex and LastIndex
unfoldable pub first_index : Log → Result ℕ
first_index l = lowest_offset l

unfoldable pub last_index : Log → Result ℕ
last_index l = highest_offset l

-- The fields of the entry that GetLog fills. raft.LogType narrows the record's type to eight bits; an
-- entry's type has eight bits, so the record that StoreLogs makes of it has no more.
abbrev pub entry_of : Record → Entry
entry_of r = record { index = r.offset; term = r.term; type = r.type; payload = r.value }

-- The message that StoreLogs appends; the entry's index is not part of it.
abbrev pub message_of : Entry → Record
message_of e = record { value = e.payload; offset = 0; term = e.term; type = e.type }

module _ (proto : Codec) where
  -- GetLog; on an error the caller's entry is not touched.
  unfoldable pub get_log : Log → ℕ → Log × Result Entry
  get_log l index = let (l', r) = read proto l index in (l', r >>= λ message. ok (entry_of message))

  -- StoreLogs
  unfoldable pub store_logs : Log → List Entry → Log × Result (Unit {0})
  store_logs l [] = (l, ok tt)
  store_logs l (e ∷ es) = and_then (append proto l (message_of e)) λ _ l'. store_logs l' es

  -- StoreLog
  unfoldable pub store_log : Log → Entry → Log × Result (Unit {0})
  unfolding store_logs
  store_log l e = store_logs l (e ∷ [])

  module _ (lowest : ℕ) (c : Config) (d : Directory) (older : List Segment) (s : Segment) where
    -- Storing an entry in a sound log with room succeeds, and GetLog at the log's next offset returns
    -- its term, type and data, with that offset as its index, whatever index the entry had: it is the
    -- entry itself exactly when its index is the next offset.
    pub get_log-store_log :
        (e : Entry) (p : List ℕ)
        → IsSound lowest c d older s
        → proto.to_bytes (record (message_of e) { offset = s.next_offset }) ≡ ok p
        → HasRoom s (length p)
        → ((store_log (running c d older s) e).1 ≡ ok tt)
          × ((get_log (store_log (running c d older s) e).0 s.next_offset).1
              ≡ ok (record e { index = s.next_offset }))
          × ((get_log (store_log (running c d older s) e).0 s.next_offset).1 ≡ ok e
              ↔ e.index ≡ s.next_offset)
    unfolding store_log get_log
    get_log-store_log e p h encoded room =
        let found = read-append_log proto lowest c d older s (message_of e) p h encoded room in
        let stores : (store_log (running c d older s) e).1 ≡ ok tt = ground (arith, found.0) in
        let gets : (get_log (store_log (running c d older s) e).0 s.next_offset).1
            ≡ ok (record e { index = s.next_offset }) =
          ground (arith, found.0, found.1) in
        (stores, gets, ((λ same. ground (arith, gets, same)), (λ same. ground (arith, gets, same))))

    -- DeleteRange up to the last index of a sound log, as Raft calls it to drop conflicting entries,
    -- removes the entries below its lower end too: every GetLog fails, and FirstIndex panics.
    pub delete_range-suffix :
        (min max index : ℕ)
        → IsSound lowest c d older s
        → max + 1 < 2 ^ 64
        → last_index (running c d older s) ≡ ok max
        → ((delete_range (running c d older s) min max).1 ≡ ok tt)
          × ((get_log (delete_range (running c d older s) min max).0 index).1
              ≡ err (out_of_range index))
          × (first_index (delete_range (running c d older s) min max).0 ≡ err fault)
    unfolding delete_range get_log first_index last_index
    delete_range-suffix min max index h small last =
        let ends = (offsets_of_log proto lowest c d older s h).1 in
        let at_end : max ≡ s.next_offset - 1 = cc (last, ends) in
        let message = message_of (record { index = 0; term = 0; type = 0; payload = [] }) in
        let gone = truncate-all proto lowest c d older s max h small index message (omega arith) in
        (gone.0, ground (arith, gone.4), gone.2)
