-- ===== src/RaftPebble/Memory.antt =====
-- An implementation of the database of internal/raftpebble/store.go in memory, for the tests.
use distributed_systems_trai.Base.{
  ℕ, ◌≡◌, refl, sym, ap, ◌∙◌, ◌≢◌, ◌⊎◌, inl, inr, Bool, true, false, ◌&&◌, Option, none, some, List,
  [], ◌∷◌, ◌++◌, arith, ◌==◌, if◌then◌else◌, ==_iff, Bool-cases, length, All, ok,
}
use distributed_systems_trai.RaftPebble.{Database, MsgPack}
use distributed_systems_trai.RaftPebble.Keys.{log_key, before}

abbrev pub same_bytes : List ℕ → List ℕ → Bool
same_bytes [] [] = true
same_bytes [] (y ∷ ys) = false
same_bytes (x ∷ xs) [] = false
same_bytes (x ∷ xs) (y ∷ ys) = (x == y) && same_bytes xs ys

same_bytes_refl : (xs : List ℕ) → same_bytes xs xs ≡ true
same_bytes_refl [] = refl
same_bytes_refl (x ∷ xs) = ground (arith, same_bytes_refl xs, ==_iff x x)

same_bytes_sound : (xs ys : List ℕ) → same_bytes xs ys ≡ true → xs ≡ ys
same_bytes_sound [] [] h = refl
same_bytes_sound [] (y ∷ ys) h = ground (arith, h)
same_bytes_sound (x ∷ xs) [] h = ground (arith, h)
same_bytes_sound (x ∷ xs) (y ∷ ys) h = ground (arith, same_bytes_sound xs ys, ==_iff x y)

same_bytes-other : (xs ys : List ℕ) → xs ≢ ys → same_bytes xs ys ≡ false
same_bytes-other xs ys other = elim (Bool-cases (same_bytes xs ys)) [
  | inl same ↦ ground (arith, other (same_bytes_sound xs ys same))
  | inr h ↦ h
]

abbrev pub put : (List ℕ → Option (List ℕ)) → List ℕ → List ℕ → List ℕ → Option (List ℕ)
put db k v k' = if same_bytes k k' then some v else db k'

abbrev pub erase : (List ℕ → Option (List ℕ)) → List ℕ → List ℕ → List ℕ → Option (List ℕ)
erase db low high k = if before k low then db k else if before k high then none else db k

pub put-same : (db : List ℕ → Option (List ℕ)) (k v : List ℕ) → put db k v k ≡ some v
put-same db k v = ground (arith, same_bytes_refl k)

pub put-other : (db : List ℕ → Option (List ℕ)) (k v k' : List ℕ) → k ≢ k' → put db k v k' ≡ db k'
put-other db k v k' other = ground (arith, same_bytes-other k k' other)

pub erase-inside :
    (db : List ℕ → Option (List ℕ)) (low high k : List ℕ)
    → before k low ≡ false
    → before k high ≡ true
    → erase db low high k ≡ none
erase-inside db low high k a b = ground (arith, a, b)

pub erase-outside :
    (db : List ℕ → Option (List ℕ)) (low high k : List ℕ)
    → (before k low ≡ true) ⊎ (before k high ≡ false)
    → erase db low high k ≡ db k
erase-outside db low high k outside = ground (arith, outside)

abbrev pub put_each : (List ℕ → Option (List ℕ)) → List (List ℕ × List ℕ) → List ℕ → Option (List ℕ)
put_each db [] = db
put_each db ((k, v) ∷ kvs) = put_each (put db k v) kvs

pub put_each-other :
    (db : List ℕ → Option (List ℕ)) (kvs : List (List ℕ × List ℕ)) (k : List ℕ)
    → All (λ kv. kv.0 ≢ k) kvs
    → put_each db kvs k ≡ db k
put_each-other db [] k others = refl
put_each-other db ((k', v) ∷ kvs) k others =
    put_each-other (put db k' v) kvs k others.1 ∙ put-other db k' v k others.0

pub put_each-last :
    (db : List ℕ → Option (List ℕ)) (kvs more : List (List ℕ × List ℕ)) (k v : List ℕ)
    → All (λ kv. kv.0 ≢ k) more
    → put_each db (kvs ++ ((k, v) ∷ more)) k ≡ some v
put_each-last db [] more k v others = put_each-other (put db k v) more k others ∙ put-same db k v
put_each-last db ((k', v') ∷ kvs) more k v others = put_each-last (put db k' v') kvs more k v others

-- A database that is a function of the key and never fails. Its iterators meet the logs 3, 5 and 8.
abbrev pub database : Database
database = record {
  Db = List ℕ → Option (List ℕ);
  get = λ db k. ok (db k);
  release = λ db k. ok tt;
  set = λ db k v. (put db k v, ok tt);
  write_batch = λ db kvs. (put_each db kvs, ok tt);
  batch_set = λ db k v. ok tt;
  batch_close = λ db. ok tt;
  delete_range = λ db low high. (erase db low high, ok tt);
  keys = λ db low high. ok (log_key 3 ∷ log_key 5 ∷ log_key 8 ∷ []);
  end_iteration = λ db. ok tt;
  get_set = λ db k v _. ap ok (put-same db k v);
  get_set_other = λ db k v k' _ other. ap ok (put-other db k v k' other);
  get_deleted = λ db low high k _ a b. ap ok (erase-inside db low high k a b);
  get_kept = λ db low high k _ outside. ap ok (erase-outside db low high k outside);
  get_batch = λ db kvs more k v _ others. ap ok (put_each-last db kvs more k v others);
  get_batch_other = λ db kvs k _ others. ap ok (put_each-other db kvs k others);
}

-- An entry that is its bytes; its index is how many they are.
abbrev pub msgpack : MsgPack
msgpack = record {
  Entry = List ℕ;
  index = length;
  to_bytes = ok;
  of_bytes = ok;
  of_to = λ e b same. sym same;
}

abbrev pub empty : List ℕ → Option (List ℕ)
empty k = none
