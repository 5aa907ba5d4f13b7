-- ===== src/RaftPebble/RoundTrip.antt =====
-- What the log store and the stable store of internal/raftpebble/store.go read after they have written.
use distributed_systems_trai.Base.{
  Error, log_not_found, key_not_found, ℕ, ◌-◌, ◌^◌, ◌≤◌, ◌<◌, ◌≡◌, refl, sym, ◌∙◌, subst, ◌≢◌, ◌⊎◌,
  inl, inr, none, some, List, [], ◌∷◌, ◌++◌, map, arith, lt→ltb, ge→ltb, All, take_all, Result, ok,
  Result-cases,
}
use distributed_systems_trai.Base.Words.{put_uint, add64, uint-put_uint, length-put_uint}
use distributed_systems_trai.RaftPebble.Keys.{
  log_prefix, conf_prefix, log_key, conf_key, before-log_key, log_key-ne_conf_key,
  log_key_injective, conf_key_injective,
}
use distributed_systems_trai.RaftPebble.{
  Database, MsgPack, first_error, index_of_key, first_of, last_of, or_not_found, bytes_to_uint64,
  first_index, last_index, get_value, set_conf, set_uint64, get_uint64, delete_logs, get_log,
  store_log,
}

index_of_key-log_key : (i : ℕ) → i < 2 ^ 64 → index_of_key (log_key i) ≡ i
unfolding index_of_key log_key
index_of_key-log_key i small = uint-put_uint 8 i small

last_of-snoc :
    (k : List ℕ) (ks : List (List ℕ)) (z : List ℕ) → last_of (k ∷ (ks ++ (z ∷ []))) ≡ index_of_key z
unfolding last_of
last_of-snoc k [] z = refl
last_of-snoc k (k' ∷ ks) z = last_of-snoc k' ks z

bytes_to_uint64-put_uint : (v : ℕ) → v < 2 ^ 64 → bytes_to_uint64 (put_uint 8 v) ≡ ok v
unfolding bytes_to_uint64
bytes_to_uint64-put_uint v small =
    let whole = take_all (put_uint 8 v) 8 (omega (arith, length-put_uint 8 v)) in
    ground (arith, length-put_uint 8 v, whole, uint-put_uint 8 v small)

module _ (pebble : Database) where
  open pebble use {
    Db, get, release, set, keys, end_iteration, get_set, get_set_other, get_deleted, get_kept,
  }

  pub get_value-found {ℓ} :
      {A : Type ℓ} (db : Db) (k v : List ℕ) (missing : Error) (f : List ℕ → Result A)
      → get db k ≡ ok (some v)
      → release db k ≡ ok tt
      → get_value pebble db k (or_not_found missing f) ≡ f v
  unfolding get_value or_not_found first_error
  get_value-found db k v missing f found released = elim (Result-cases (f v)) [
    | inl (a, same) ↦ ground (arith, found, released, same)
    | inr (e, same) ↦ ground (arith, found, released, same)
  ]

  module _ (msgpack : MsgPack) where
    open msgpack use {Entry, index, to_bytes, of_bytes, of_to}

    pub store_log-ok :
        (db : Db) (e : Entry)
        → (store_log pebble msgpack db e).1 ≡ ok tt
        → (v : List ℕ) × (to_bytes e ≡ ok v)
          × (store_log pebble msgpack db e ≡ set db (log_key (index e)) v)
          × ((set db (log_key (index e)) v).1 ≡ ok tt)
    unfolding store_log
    store_log-ok db e stored = elim (Result-cases (to_bytes e)) [
      | inr (bad, fails) ↦ ground (arith, fails)
      | inl (v, encoded) ↦ (v, encoded, ground (arith, encoded), ground (arith, encoded))
    ]

    -- A log that StoreLog has stored without an error is the one that GetLog returns under its index,
    -- if releasing the value succeeds; every log under another index, and every key of the stable
    -- store, reads in the database as before.
    pub get_value-store_log :
        (db : Db) (e : Entry) (i : ℕ) (k : List ℕ)
        → (store_log pebble msgpack db e).1 ≡ ok tt
        → release (store_log pebble msgpack db e).0 (log_key (index e)) ≡ ok tt
        → index e < 2 ^ 64
        → i < 2 ^ 64
        → i ≢ index e
        → (get_log pebble msgpack (store_log pebble msgpack db e).0 (index e) ≡ ok e)
          × (get (store_log pebble msgpack db e).0 (log_key i) ≡ get db (log_key i))
          × (get (store_log pebble msgpack db e).0 (conf_key k) ≡ get db (conf_key k))
    unfolding get_log
    get_value-store_log db e i k stored released small low other =
        let (v, encoded, is_set, done) = store_log-ok db e stored in
        let freed = subst (λ x. release x.0 (log_key (index e)) ≡ ok tt) is_set released in
        let apart : log_key (index e) ≢ log_key i =
          λ same. other (sym (log_key_injective (index e) i small low same)) in
        rw is_set (
          get_value-found (set db (log_key (index e)) v).0 (log_key (index e)) v log_not_found
                of_bytes (get_set db (log_key (index e)) v done) freed
              ∙ of_to e v encoded,
          get_set_other db (log_key (index e)) v (log_key i) done apart,
          get_set_other db (log_key (index e)) v (conf_key k) done
              (log_key-ne_conf_key (index e) k),
        )

  module _ (db : Db) (min max i : ℕ) where
    -- DeleteRange without an error removes every log from min to max, where max is not the greatest
    -- uint64.
    pub delete_logs-inside :
        (delete_logs pebble db min max).1 ≡ ok tt
        → max < 2 ^ 64 - 1
        → min ≤ i
        → i ≤ max
        → get (delete_logs pebble db min max).0 (log_key i) ≡ ok none
    unfolding delete_logs
    delete_logs-inside deleted top low high =
        get_deleted db (log_key min) (log_key (add64 max 1)) (log_key i) deleted
          (before-log_key i min (omega arith) (omega arith) ∙ ge→ltb i min low)
          (before-log_key i (add64 max 1) (omega arith) (omega arith)
            ∙ lt→ltb i (add64 max 1) (omega arith))

    -- DeleteRange without an error leaves every log outside min to max as it was; and every log at
    -- all, where max is the greatest uint64, since max + 1 is then 0.
    pub delete_logs-outside :
        (delete_logs pebble db min max).1 ≡ ok tt
        → min < 2 ^ 64
        → max < 2 ^ 64
        → i < 2 ^ 64
        → (i < min) ⊎ ((max < i) ⊎ (max ≡ 2 ^ 64 - 1))
        → get (delete_logs pebble db min max).0 (log_key i) ≡ get db (log_key i)
    unfolding delete_logs
    delete_logs-outside deleted min_small max_small small outside =
        let kept = get_kept db (log_key min) (log_key (add64 max 1)) (log_key i) deleted in
        let high_end = before-log_key i (add64 max 1) small (omega arith) in
        elim outside [
          | inl a ↦ kept (inl (before-log_key i min small min_small ∙ lt→ltb i min a))
          | inr b ↦ kept (inr (high_end ∙ ge→ltb i (add64 max 1) (omega arith)))
        ]

  -- A number that SetUint64 has stored without an error is the one that GetUint64 returns, if
  -- releasing the value succeeds; every other key of the stable store, and every log, reads in the
  -- database as before.
  pub get_uint64-set_uint64 :
      (db : Db) (k k' : List ℕ) (v i : ℕ)
      → (set_uint64 pebble db k v).1 ≡ ok tt
      → release (set_uint64 pebble db k v).0 (conf_key k) ≡ ok tt
      → v < 2 ^ 64
      → k ≢ k'
      → (get_uint64 pebble (set_uint64 pebble db k v).0 k ≡ ok v)
        × (get (set_uint64 pebble db k v).0 (conf_key k') ≡ get db (conf_key k'))
        × (get (set_uint64 pebble db k v).0 (log_key i) ≡ get db (log_key i))
  unfolding set_uint64 set_conf get_uint64
  get_uint64-set_uint64 db k k' v i stored released small other =
      let reads = get_set db (conf_key k) (put_uint 8 v) stored in
      (
        get_value-found (set db (conf_key k) (put_uint 8 v)).0 (conf_key k) (put_uint 8 v)
              key_not_found bytes_to_uint64 reads released
            ∙ bytes_to_uint64-put_uint v small,
        get_set_other db (conf_key k) (put_uint 8 v) (conf_key k') stored
            (λ same. other (conf_key_injective k k' same)),
        get_set_other db (conf_key k) (put_uint 8 v) (log_key i) stored
            (λ same. log_key-ne_conf_key i k (sym same)),
      )

  -- FirstIndex and LastIndex of a database whose keys of logs are those of a list of indexes, if
  -- closing the iterator succeeds: the first and the last of them, and 0 where there is none.
  pub ends_of_logs :
      (db : Db) (first last : ℕ) (between : List ℕ)
      → All (λ i. i < 2 ^ 64) (first ∷ last ∷ between)
      → keys db log_prefix conf_prefix
        ≡ ok (log_key first ∷ (map log_key between ++ (log_key last ∷ [])))
      → end_iteration db ≡ ok tt
      → (first_index pebble db ≡ ok first) × (last_index pebble db ≡ ok last)
  unfolding first_index last_index first_error first_of
  ends_of_logs db first last between small found ended = (
    rw (found, ended, index_of_key-log_key first small.0) refl,
    rw
        (
          found,
          ended,
          last_of-snoc (log_key first) (map log_key between) (log_key last),
          index_of_key-log_key last small.1.0,
        )
        refl,
  )
