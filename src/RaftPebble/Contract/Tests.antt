-- ===== src/RaftPebble/Contract/Tests.antt =====
-- The theorems on the log store against a map at inputs.
use distributed_systems_trai.Base.{
  ℕ, ◌^◌, ◌<◌, ◌≡◌, refl, none, List, [], ◌∷◌, arith, length, log_not_found, ok, err,
}
use distributed_systems_trai.RaftPebble.Contract.{
  IsUp, IsStorable, Call, get_log_at, store_logs_of, delete_logs_in, got, did, session, put,
  put_each, erase, spec_call, spec_session,
}
use distributed_systems_trai.RaftPebble.Contract.Sessions.{session-spec_session}
use distributed_systems_trai.RaftPebble.Memory.{database, msgpack, empty}

abbrev database-IsUp : IsUp database msgpack
database-IsUp = record {
  sets = λ db k v. refl;
  writes = λ db kvs. refl;
  batches = λ db k v. refl;
  closes = λ db. refl;
  deletes = λ db low high. refl;
  releases = λ db k. refl;
}

-- The second log of the batch replaces the first, which has its index.
abbrev calls : List (Call database msgpack)
calls =
    store_logs_of ((7 ∷ 9 ∷ []) ∷ (1 ∷ 2 ∷ []) ∷ (5 ∷ []) ∷ [])
    ∷ get_log_at 2
    ∷ delete_logs_in 1 1
    ∷ get_log_at 1
    ∷ []

session-spec_session_example :
    session database msgpack empty calls
    ≡ did (ok tt) ∷ got (ok (1 ∷ 2 ∷ [])) ∷ did (ok tt) ∷ got (err log_not_found) ∷ []
unfolding spec_session spec_call put_each put erase
session-spec_session_example =
    session-spec_session database msgpack database-IsUp empty (λ i. none) calls (λ i small. refl)
      (
        (
          stored (7 ∷ 9 ∷ []) (omega arith),
          (stored (1 ∷ 2 ∷ []) (omega arith), (stored (5 ∷ []) (omega arith), tt)),
        ),
        (omega arith, ((omega arith, omega arith), (omega arith, tt))),
      )
  where
    stored : (e : List ℕ) → length e < 2 ^ 64 → IsStorable database msgpack e
    stored e small = (small, e, refl)
