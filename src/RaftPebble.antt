-- ===== src/RaftPebble.antt =====
-- internal/raftpebble/store.go and util.go: Raft's log and stable store over a Pebble database.
-- Pebble, the msgpack package and raft.Log are parameters.
pub mod Keys
pub mod Config
pub mod Events
pub mod RoundTrip
pub mod Opening
pub mod Contract
mod Memory
mod Tests
use distributed_systems_trai.Base.{
  ◌>>=◌, ℕ, ◌≡◌, ◌≢◌, ◌⊎◌, true, false, Option, none, some, List, [], ◌∷◌, ◌++◌, ltb, if◌then◌else◌,
  length, take, drop, All, Error, log_not_found, key_not_found, fault, Result, ok, err,
}
use distributed_systems_trai.Base.Words.{put_uint, uint, add64, uint-put_uint, length-put_uint}
use distributed_systems_trai.RaftPebble.Keys.{
  log_prefix, conf_prefix, log_key, conf_key, before, before-log_key, log_key-ne_conf_key,
  log_key_injective, conf_key_injective,
}

-- The calls of pebble.DB that the code makes. `get` is none for ErrNotFound; `release` is the Close of
-- the closer that it returns; `keys` are the keys between the bounds that an iterator meets, and
-- `end_iteration` its Close. The keys are ordered byte by byte, and what a call did that reported
-- no error is seen by the reads after it.
pub record Database : Type 1 where
  pub Db : Type 0
  pub get : Db → List ℕ → Result (Option (List ℕ))
  pub release : Db → List ℕ → Result (Unit {0})
  pub set : Db → List ℕ → List ℕ → Db × Result (Unit {0})
  pub write_batch : Db → List (List ℕ × List ℕ) → Db × Result (Unit {0})
  pub batch_set : Db → List ℕ → List ℕ → Result (Unit {0})
  pub batch_close : Db → Result (Unit {0})
  pub delete_range : Db → List ℕ → List ℕ → Db × Result (Unit {0})
  pub keys : Db → List ℕ → List ℕ → Result (List (List ℕ))
  pub end_iteration : Db → Result (Unit {0})
  pub get_set :
      (db : Db) (k v : List ℕ) → (set db k v).1 ≡ ok tt → get (set db k v).0 k ≡ ok (some v)
  pub get_set_other :
      (db : Db) (k v k' : List ℕ)
      → (set db k v).1 ≡ ok tt
      → k ≢ k'
      → get (set db k v).0 k' ≡ get db k'
  pub get_deleted :
      (db : Db) (low high k : List ℕ)
      → (delete_range db low high).1 ≡ ok tt
      → before k low ≡ false
      → before k high ≡ true
      → get (delete_range db low high).0 k ≡ ok none
  pub get_kept :
      (db : Db) (low high k : List ℕ)
      → (delete_range db low high).1 ≡ ok tt
      → (before k low ≡ true) ⊎ (before k high ≡ false)
      → get (delete_range db low high).0 k ≡ get db k
  pub get_batch :
      (db : Db) (kvs more : List (List ℕ × List ℕ)) (k v : List ℕ)
      → (write_batch db (kvs ++ ((k, v) ∷ more))).1 ≡ ok tt
      → All (λ kv. kv.0 ≢ k) more
      → get (write_batch db (kvs ++ ((k, v) ∷ more))).0 k ≡ ok (some v)
  pub get_batch_other :
      (db : Db) (kvs : List (List ℕ × List ℕ)) (k : List ℕ)
      → (write_batch db kvs).1 ≡ ok tt
      → All (λ kv. kv.0 ≢ k) kvs
      → get (write_batch db kvs).0 k ≡ get db k

-- raft.Log with its encoding, encodeMsgPack and decodeMsgPack.
pub record MsgPack : Type 1 where
  pub Entry : Type 0
  pub index : Entry → ℕ
  pub to_bytes : Entry → Result (List ℕ)
  pub of_bytes : List ℕ → Result Entry
  pub of_to : (e : Entry) (b : List ℕ) → to_bytes e ≡ ok b → of_bytes b ≡ ok e

-- FirstError, on the result of the call and that of the deferred one.
unfoldable pub first_error {ℓ} : {A : Type ℓ} → Result A → Result (Unit {0}) → Result A
first_error (err e) closing = err e
first_error (ok a) (err e) = err e
first_error (ok a) (ok u) = ok a

-- The index in a key, behind the prefix.
unfoldable pub index_of_key : List ℕ → ℕ
index_of_key k = uint (drop 1 k)

-- What iter.First and iter.Last find, 0 without a key.
unfoldable pub first_of : List (List ℕ) → ℕ
unfolding index_of_key
first_of [] = 0
first_of (k ∷ ks) = index_of_key k

unfoldable pub last_of : List (List ℕ) → ℕ
unfolding index_of_key
last_of [] = 0
last_of (k ∷ []) = index_of_key k
last_of (k ∷ k' ∷ ks) = last_of (k' ∷ ks)

-- What GetLog, Get and GetUint64 make of a value; for a missing one they return `missing`.
unfoldable pub or_not_found {ℓ} :
    {A : Type ℓ} → Error → (List ℕ → Result A) → Option (List ℕ) → Result A
or_not_found missing f none = err missing
or_not_found missing f (some v) = f v

-- binary.BigEndian.Uint64, which reads eight bytes and panics on fewer.
unfoldable pub bytes_to_uint64 : List ℕ → Result ℕ
bytes_to_uint64 b = if ltb (length b) 8 then err fault else ok (uint (take 8 b))

module _ (pebble : Database) where
  open pebble use {
    Db, get, release, set, write_batch, batch_set, batch_close, delete_range, keys, end_iteration,
    get_set, get_set_other, get_deleted, get_kept,
  }

  -- FirstIndex and LastIndex
  unfoldable pub first_index : Db → Result ℕ
  unfolding first_error first_of
  first_index db = do
    ks ← keys db log_prefix conf_prefix
    first_error (ok (first_of ks)) (end_iteration db)

  unfoldable pub last_index : Db → Result ℕ
  unfolding first_error last_of
  last_index db = do
    ks ← keys db log_prefix conf_prefix
    first_error (ok (last_of ks)) (end_iteration db)

  -- GetValue; the continuation gets nil for a missing key.
  unfoldable pub get_value {ℓ} :
      {A : Type ℓ} → Db → List ℕ → (Option (List ℕ) → Result A) → Result A
  unfolding first_error
  get_value db k op = elim (get db k) [
    | err e ↦ err e
    | ok none ↦ op none
    | ok (some v) ↦ first_error (op (some v)) (release db k)
  ]

  -- Set and SetUint64
  unfoldable pub set_conf : Db → List ℕ → List ℕ → Db × Result (Unit {0})
  set_conf db k v = set db (conf_key k) v

  unfoldable pub set_uint64 : Db → List ℕ → ℕ → Db × Result (Unit {0})
  unfolding set_conf
  set_uint64 db k v = set_conf db k (put_uint 8 v)

  -- Get and GetUint64
  unfoldable pub get_conf : Db → List ℕ → Result (List ℕ)
  unfolding get_value or_not_found
  get_conf db k = get_value db (conf_key k) (or_not_found key_not_found ok)

  unfoldable pub get_uint64 : Db → List ℕ → Result ℕ
  unfolding get_value or_not_found bytes_to_uint64
  get_uint64 db k = get_value db (conf_key k) (or_not_found key_not_found bytes_to_uint64)

  -- DeleteRange, whose upper end is the key of max + 1 as a uint64.
  unfoldable pub delete_logs : Db → ℕ → ℕ → Db × Result (Unit {0})
  delete_logs db min max = delete_range db (log_key min) (log_key (add64 max 1))

  module _ (msgpack : MsgPack) where
    open msgpack use {Entry, index, to_bytes, of_bytes, of_to}

    -- GetLog
    unfoldable pub get_log : Db → ℕ → Result Entry
    unfolding get_value or_not_found
    get_log db i = get_value db (log_key i) (or_not_found log_not_found of_bytes)

    -- StoreLog and storeLog
    unfoldable pub store_log : Db → Entry → Db × Result (Unit {0})
    store_log db e = elim (to_bytes e) [
      | err bad ↦ (db, err bad)
      | ok v ↦ set db (log_key (index e)) v
    ]

    -- The loop of StoreLogs, which fills the batch.
    unfoldable pub fill_batch : Db → List Entry → Result (List (List ℕ × List ℕ))
    fill_batch db [] = ok []
    fill_batch db (e ∷ es) = do
      v ← to_bytes e
      _ ← batch_set db (log_key (index e)) v
      rest ← fill_batch db es
      ok ((log_key (index e), v) ∷ rest)

    -- StoreLogs
    unfoldable pub store_logs : Db → List Entry → Db × Result (Unit {0})
    unfolding fill_batch first_error
    store_logs db es = elim (fill_batch db es) [
      | err e ↦ (db, err e)
      | ok batch ↦ let (db', r) = write_batch db batch in (db', first_error r (batch_close db'))
    ]
