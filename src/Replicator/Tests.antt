-- ===== src/Replicator/Tests.antt =====
-- The theorems on the replicator at inputs.
use distributed_systems_trai.Base.{ℕ, ◌≡◌, List, [], ◌∷◌, ◌++◌, map, length, Result, ok}
use distributed_systems_trai.CommitLog.Message.{Record}
use distributed_systems_trai.Replicator.{
  joins, leaves, closes, received, leaving, closing, zero_value, join, close, calls, replicate_loop,
  produce_all, replicate_loop_lem,
}
use distributed_systems_trai.Replicator.Channels.{calls-ok}
use distributed_systems_trai.Replicator.Joining.{join-join, join-close}

calls-ok_example :
    (calls zero_value (
      joins "a" "x"
      ∷ joins "b" "y"
      ∷ leaves "a"
      ∷ leaves "a"
      ∷ closes
      ∷ leaves "b"
      ∷ closes
      ∷ [])).1
    ≡ ok tt
calls-ok_example =
    calls-ok
      (joins "a" "x" ∷ joins "b" "y" ∷ leaves "a" ∷ leaves "a" ∷ closes ∷ leaves "b" ∷ closes ∷ [])

join-join_test : join (join zero_value "a" "x") "a" "y" ≡ join zero_value "a" "x"
join-join_test = join-join zero_value "a" "x" "y"

join-close_test :
    ((join (close (join zero_value "a" "x")).0 "b" "y").workers ≡ (join zero_value "a" "x").workers)
    × ((join (close (join zero_value "a" "x")).0 "b" "y").servers
        ≡ (join zero_value "a" "x").servers)
join-close_test = join-close (join zero_value "a" "x") "b" "y"

-- A server that keeps what it is given, the last first.
abbrev pub keep : List Record → Record → List Record × Result ℕ
keep s r = (r ∷ s, ok (length s))

abbrev pub rec : ℕ → Record
rec off = record { value = []; offset = off; term = 0; type = 0 }

replicate_loop_lem_test :
    (replicate_loop keep [] (map received (rec 4 ∷ rec 5 ∷ []) ++ (leaving ∷ received (rec 6) ∷ []))
      ≡ (produce_all keep [] (rec 4 ∷ rec 5 ∷ [])).0)
    × (replicate_loop keep []
          (map received (rec 4 ∷ rec 5 ∷ []) ++ (closing ∷ received (rec 6) ∷ []))
        ≡ (produce_all keep [] (rec 4 ∷ rec 5 ∷ [])).0)
replicate_loop_lem_test = replicate_loop_lem keep [] (rec 4 ∷ rec 5 ∷ []) (received (rec 6) ∷ [])
