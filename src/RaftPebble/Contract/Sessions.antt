-- ===== src/RaftPebble/Contract/Sessions.antt =====
-- Sequences of the calls of the log store of internal/raftpebble/store.go, step by step against the map.
use distributed_systems_trai.Base.{
  ℕ, ◌-◌, ◌^◌, ◌<◌, ◌≡◌, refl, sym, ap, ◌∙◌, subst, ◌≢◌, ◌⊎◌, inl, inr, ◌&&◌, Option, none, some,
  List, [], ◌∷◌, ◌++◌, arith, leb, ◌==◌, Bool-cases, All, log_not_found, ok, err,
}
use distributed_systems_trai.RaftPebble.{
  Database, MsgPack, get_log, store_log, store_logs, fill_batch, delete_logs, get_value,
  or_not_found, first_error,
}
use distributed_systems_trai.RaftPebble.RoundTrip.{
  get_value-found, delete_logs-inside, delete_logs-outside,
}
use distributed_systems_trai.Base.Words.{add64}
use distributed_systems_trai.RaftPebble.Keys.{log_key, log_key_injective}
use distributed_systems_trai.RaftPebble.Contract.{
  IsUp, Call, get_log_at, store_log_of, store_logs_of, delete_logs_in, Answer, got, did, one_call,
  session, Logs, put, put_each, erase, spec_call, spec_session, IsStorable, IsValid, Holds, Agrees,
}

module _ (pebble : Database) (msgpack : MsgPack) where
  open pebble use {
    Db, get, release, set, write_batch, batch_set, batch_close, delete_range, get_set,
    get_set_other, get_batch, get_batch_other,
  }
  open msgpack use {Entry, index, to_bytes, of_bytes, of_to}

  module _ (up : IsUp pebble msgpack) where
    open up use {sets, writes, batches, closes, deletes, releases}

    get_log-Agrees :
        (db : Db) (m : Logs pebble msgpack) (i : ℕ)
        → Agrees pebble msgpack db m
        → i < 2 ^ 64
        → get_log pebble msgpack db i ≡ elim (m i) [ none ↦ err log_not_found | some e ↦ ok e ]
    unfolding get_log get_value or_not_found
    get_log-Agrees db m i same small = by_case (m i) (same i small)
      where
        by_case :
            (o : Option Entry)
            → Holds pebble msgpack (get db (log_key i)) o
            → get_log pebble msgpack db i ≡ elim o [ none ↦ err log_not_found | some e ↦ ok e ]
        by_case none missing = ground (arith, missing)
        by_case (some e) (v, found, encoded) =
            get_value-found pebble db (log_key i) v log_not_found of_bytes found
              (releases db (log_key i))
            ∙ of_to e v encoded

    Holds-kept :
        (db db' : Db) (m : Logs pebble msgpack) (i : ℕ)
        → Holds pebble msgpack (get db (log_key i)) (m i)
        → get db' (log_key i) ≡ get db (log_key i)
        → Holds pebble msgpack (get db' (log_key i)) (m i)
    Holds-kept db db' m i h same = subst (λ r. Holds pebble msgpack r (m i)) (sym same) h

    store_log-Agrees :
        (db : Db) (m : Logs pebble msgpack) (e : Entry)
        → Agrees pebble msgpack db m
        → IsStorable pebble msgpack e
        → ((store_log pebble msgpack db e).1 ≡ ok tt)
          × Agrees pebble msgpack (store_log pebble msgpack db e).0 (put pebble msgpack m e)
    unfolding store_log put
    store_log-Agrees db m e same (low, v, encoded) =
        let key = log_key (index e) in
        let db' = (set db key v).0 in
        let done = sets db key v in
        let sets_it : store_log pebble msgpack db e ≡ set db key v = ground (arith, encoded) in
        rw sets_it (
          done,
          λ i small. elim (Bool-cases (index e == i)) [
            | inl hit ↦ rw hit (
                let here : i ≡ index e = ground (arith, hit) in
                (v, ap (λ j. get db' (log_key j)) here ∙ get_set db key v done, encoded))
            | inr miss ↦ rw miss (
                Holds-kept db db' m i (same i small) (
                  get_set_other db key v (log_key i) done
                    (λ keys. ground (arith, miss, log_key_injective (index e) i low small keys))))
          ],
        )

    delete_logs-Agrees :
        (db : Db) (m : Logs pebble msgpack) (min max : ℕ)
        → Agrees pebble msgpack db m
        → min < 2 ^ 64
        → max < 2 ^ 64 - 1
        → ((delete_logs pebble db min max).1 ≡ ok tt)
          × Agrees pebble msgpack (delete_logs pebble db min max).0 (erase pebble msgpack m min max)
    unfolding delete_logs erase
    delete_logs-Agrees db m min max same low high =
        let db' = (delete_logs pebble db min max).0 in
        let done = deletes db (log_key min) (log_key (add64 max 1)) in
        (
          done,
          λ i small. elim (Bool-cases (leb min i && leb i max)) [
            | inl inside ↦ rw inside (
                delete_logs-inside pebble db min max i done high (ground (arith, inside))
                  (ground (arith, inside)))
            | inr outside ↦ rw outside (
                Holds-kept db db' m i (same i small) (
                  delete_logs-outside pebble db min max i done low (omega arith) small
                    (ground (arith, outside))))
          ],
        )

    -- The batch sets no key of the index, and the logs have none; or the last log of the index is the
    -- last that the batch sets.
    abbrev Last : List Entry → ℕ → List (List ℕ × List ℕ) → Type 0
    Last es i kvs =
        (All (λ kv. kv.0 ≢ log_key i) kvs
          × ((m : Logs pebble msgpack) → put_each pebble msgpack m es i ≡ m i))
        ⊎ ((first : List (List ℕ × List ℕ)) × (v : List ℕ) × (more : List (List ℕ × List ℕ))
            × (e : Entry) × (kvs ≡ first ++ ((log_key i, v) ∷ more))
            × All (λ kv. kv.0 ≢ log_key i) more
            × (to_bytes e ≡ ok v)
            × ((m : Logs pebble msgpack) → put_each pebble msgpack m es i ≡ some e))

    Last-cons :
        (e : Entry) (es : List Entry) (i : ℕ) (v : List ℕ) (kvs : List (List ℕ × List ℕ))
        → index e < 2 ^ 64
        → i < 2 ^ 64
        → to_bytes e ≡ ok v
        → Last es i kvs
        → Last (e ∷ es) i ((log_key (index e), v) ∷ kvs)
    unfolding put_each put
    Last-cons e es i v kvs low small encoded (inr (first, v', more, e', split, rest, enc, spec)) =
        inr (
          (log_key (index e), v) ∷ first,
          v',
          more,
          e',
          ap (λ l. (log_key (index e), v) ∷ l) split,
          rest,
          enc,
          λ m. spec (put pebble msgpack m e),
        )
    Last-cons e es i v kvs low small encoded (inl (none_there, spec)) =
        elim (Bool-cases (index e == i)) [
          | inl hit ↦
              let here : index e ≡ i = ground (arith, hit) in
              inr (
                [],
                v,
                kvs,
                e,
                ap (λ j. (log_key j, v) ∷ kvs) here,
                none_there,
                encoded,
                λ m. spec (put pebble msgpack m e) ∙ rw hit refl,
              )
          | inr miss ↦ inl (
            (
              λ keys. ground (arith, miss, log_key_injective (index e) i low small keys),
              none_there,
            ),
            λ m. spec (put pebble msgpack m e) ∙ rw miss refl,
          )
        ]

    fill_batch-Last :
        (db : Db) (es : List Entry)
        → All (IsStorable pebble msgpack) es
        → (kvs : List (List ℕ × List ℕ)) × (fill_batch pebble msgpack db es ≡ ok kvs)
          × ((i : ℕ) → i < 2 ^ 64 → Last es i kvs)
    unfolding fill_batch put_each
    fill_batch-Last db [] h = ([], refl, λ i small. inl (tt, λ m. refl))
    fill_batch-Last db (e ∷ es) ((low, v, encoded), others) =
        let (kvs, filled, found) = fill_batch-Last db es others in
        let done = batches db (log_key (index e)) v in
        (
          (log_key (index e), v) ∷ kvs,
          ground (arith, encoded, done, filled),
          λ i small. Last-cons e es i v kvs low small encoded (found i small),
        )

    store_logs-Agrees :
        (db : Db) (m : Logs pebble msgpack) (es : List Entry)
        → Agrees pebble msgpack db m
        → All (IsStorable pebble msgpack) es
        → ((store_logs pebble msgpack db es).1 ≡ ok tt)
          × Agrees pebble msgpack (store_logs pebble msgpack db es).0 (put_each pebble msgpack m es)
    unfolding store_logs first_error
    store_logs-Agrees db m es same fits =
        let (kvs, filled, found) = fill_batch-Last db es fits in
        let db' = (write_batch db kvs).0 in
        let done = writes db kvs in
        let closed_it = closes db' in
        let is_written : store_logs pebble msgpack db es ≡ (db', ok tt) =
          ground (arith, filled, done, closed_it) in
        rw is_written (refl, λ i small. at_index kvs done i (same i small) (found i small))
      where
        at_index :
            (kvs : List (List ℕ × List ℕ))
            → (write_batch db kvs).1 ≡ ok tt
            → (i : ℕ) → Holds pebble msgpack (get db (log_key i)) (m i)
            → Last es i kvs
            → Holds pebble msgpack
                (get (write_batch db kvs).0 (log_key i))
                (put_each pebble msgpack m es i)
        at_index kvs done i before (inl (none_there, spec)) = rw (spec m) (
            Holds-kept db (write_batch db kvs).0 m i before
              (get_batch_other db kvs (log_key i) done none_there))
        at_index kvs done i before (inr (first, v, more, e, split, rest, enc, spec)) =
            let last =
              get_batch db first more (log_key i) v (writes db (first ++ ((log_key i, v) ∷ more)))
                rest in
            rw (spec m) (
              v,
              subst (λ l. get (write_batch db l).0 (log_key i) ≡ ok (some v)) (sym split) last,
              enc,
            )

    one_call-Agrees :
        (db : Db) (m : Logs pebble msgpack) (c : Call pebble msgpack)
        → Agrees pebble msgpack db m
        → IsValid pebble msgpack c
        → ((one_call pebble msgpack db c).1 ≡ (spec_call pebble msgpack m c).1)
          × Agrees pebble msgpack (one_call pebble msgpack db c).0 (spec_call pebble msgpack m c).0
    unfolding one_call spec_call
    one_call-Agrees db m (get_log_at i) same small =
        (ap got (get_log-Agrees db m i same small), same)
    one_call-Agrees db m (store_log_of e) same fits =
        let (done, after) = store_log-Agrees db m e same fits in (ap did done, after)
    one_call-Agrees db m (store_logs_of es) same fits =
        let (done, after) = store_logs-Agrees db m es same fits in (ap did done, after)
    one_call-Agrees db m (delete_logs_in min max) same (low, high) =
        let (done, after) = delete_logs-Agrees db m min max same low high in (ap did done, after)

    -- GetLog, StoreLog, StoreLogs and DeleteRange, in any order on a database that reports no error,
    -- answer as a map from indexes to logs does that the database agrees with at first: StoreLogs
    -- puts its logs in order, GetLog of an index that the map does not have is ErrLogNotFound.
    -- Every log must be encodable, the indexes below 2^64 and no upper end of a DeleteRange 2^64 - 1.
    pub session-spec_session :
        (db : Db) (m : Logs pebble msgpack) (cs : List (Call pebble msgpack))
        → Agrees pebble msgpack db m
        → All (IsValid pebble msgpack) cs
        → session pebble msgpack db cs ≡ spec_session pebble msgpack m cs
    unfolding session spec_session
    session-spec_session db m [] same valid = refl
    session-spec_session db m (c ∷ cs) same (fits, others) =
        let (answer, after) = one_call-Agrees db m c same fits in
        cong2 answer (
          session-spec_session (one_call pebble msgpack db c).0 (spec_call pebble msgpack m c).0 cs
            after others)
      where
        cong2 :
            {a b : Answer pebble msgpack} {rest rest' : List (Answer pebble msgpack)}
            → a ≡ b
            → rest ≡ rest'
            → a ∷ rest ≡ b ∷ rest'
        cong2 p q = cc (p, q)
