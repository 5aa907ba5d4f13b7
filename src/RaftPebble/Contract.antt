-- ===== src/RaftPebble/Contract.antt =====
-- The log store of internal/raftpebble/store.go against what Raft asks of a log store: a map from
-- indexes to logs.
pub mod Sessions
mod Tests
use distributed_systems_trai.Base.{
  ℕ, ◌-◌, ◌^◌, ◌<◌, ◌≡◌, ◌&&◌, Option, none, some, List, [], ◌∷◌, leb, ◌==◌, if◌then◌else◌, All,
  log_not_found, Result, ok, err,
}
use distributed_systems_trai.RaftPebble.{
  Database, MsgPack, get_log, store_log, store_logs, fill_batch, delete_logs, get_value,
  or_not_found, first_error,
}
use distributed_systems_trai.RaftPebble.RoundTrip.{
  get_value-found, store_log-ok, delete_logs-inside, delete_logs-outside,
}
use distributed_systems_trai.Base.Words.{add64}
use distributed_systems_trai.RaftPebble.Keys.{log_key, log_key_injective}

module _ (pebble : Database) (msgpack : MsgPack) where
  open pebble use {
    Db, get, release, set, write_batch, batch_set, batch_close, delete_range, get_set,
    get_set_other, get_batch, get_batch_other,
  }
  open msgpack use {Entry, index, to_bytes, of_bytes, of_to}

  -- No call of the database reports an error.
  pub record IsUp : Type 0 where
    pub sets : (db : Db) (k v : List ℕ) → (set db k v).1 ≡ ok tt
    pub writes : (db : Db) (kvs : List (List ℕ × List ℕ)) → (write_batch db kvs).1 ≡ ok tt
    pub batches : (db : Db) (k v : List ℕ) → batch_set db k v ≡ ok tt
    pub closes : (db : Db) → batch_close db ≡ ok tt
    pub deletes : (db : Db) (low high : List ℕ) → (delete_range db low high).1 ≡ ok tt
    pub releases : (db : Db) (k : List ℕ) → release db k ≡ ok tt

  -- The calls that Raft makes of a log store.
  pub data Call : Type 0 where
    get_log_at : ℕ → Call
    store_log_of : Entry → Call
    store_logs_of : List Entry → Call
    delete_logs_in : ℕ → ℕ → Call

  pub data Answer : Type 0 where
    got : Result Entry → Answer
    did : Result (Unit {0}) → Answer

  unfoldable pub one_call : Db → Call → Db × Answer
  one_call db (get_log_at i) = (db, got (get_log pebble msgpack db i))
  one_call db (store_log_of e) = let (db', r) = store_log pebble msgpack db e in (db', did r)
  one_call db (store_logs_of es) = let (db', r) = store_logs pebble msgpack db es in (db', did r)
  one_call db (delete_logs_in min max) =
      let (db', r) = delete_logs pebble db min max in (db', did r)

  unfoldable pub session : Db → List Call → List Answer
  session db [] = []
  session db (c ∷ cs) = let (db', a) = one_call db c in a ∷ session db' cs

  -- The same calls on a map.
  abbrev pub Logs : Type 0
  Logs = ℕ → Option Entry

  unfoldable pub put : Logs → Entry → Logs
  put m e i = if index e == i then some e else m i

  unfoldable pub put_each : Logs → List Entry → Logs
  unfolding put
  put_each m [] = m
  put_each m (e ∷ es) = put_each (put m e) es

  unfoldable pub erase : Logs → ℕ → ℕ → Logs
  erase m min max i = if leb min i && leb i max then none else m i

  unfoldable pub spec_call : Logs → Call → Logs × Answer
  unfolding put put_each erase
  spec_call m (get_log_at i) = (m, got (elim (m i) [ none ↦ err log_not_found | some e ↦ ok e ]))
  spec_call m (store_log_of e) = (put m e, did (ok tt))
  spec_call m (store_logs_of es) = (put_each m es, did (ok tt))
  spec_call m (delete_logs_in min max) = (erase m min max, did (ok tt))

  unfoldable pub spec_session : Logs → List Call → List Answer
  unfolding spec_call
  spec_session m [] = []
  spec_session m (c ∷ cs) = let (m', a) = spec_call m c in a ∷ spec_session m' cs

  -- An index is a uint64, and a log can be encoded.
  abbrev pub IsStorable : Entry → Type 0
  IsStorable e = (index e < 2 ^ 64) × (v : List ℕ) × (to_bytes e ≡ ok v)

  abbrev pub IsValid : Call → Type 0
  IsValid (get_log_at i) = i < 2 ^ 64
  IsValid (store_log_of e) = IsStorable e
  IsValid (store_logs_of es) = All IsStorable es
  IsValid (delete_logs_in min max) = (min < 2 ^ 64) × (max < 2 ^ 64 - 1)

  -- What the database has under the key of an index.
  abbrev pub Holds : Result (Option (List ℕ)) → Option Entry → Type 0
  Holds r none = r ≡ ok none
  Holds r (some e) = (v : List ℕ) × (r ≡ ok (some v)) × (to_bytes e ≡ ok v)

  abbrev pub Agrees : Db → Logs → Type 0
  Agrees db m = (i : ℕ) → i < 2 ^ 64 → Holds (get db (log_key i)) (m i)
