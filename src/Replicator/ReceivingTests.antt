-- ===== src/Replicator/ReceivingTests.antt =====
-- The theorems on the goroutine that receives at inputs.
use distributed_systems_trai.Base.{
  ℕ, ◌≤◌, ◌≡◌, refl, ◌↔◌, true, false, some, List, [], ◌∷◌, ◌++◌, arith, if◌then◌else◌,
  replicate as copies, not_exist, Result, ok, err,
}
use Prim.Native.String.{String}
use text.Mathlib.Text.{◌==◌ as str_eq}
use distributed_systems_trai.CommitLog.Message.{Record}
use distributed_systems_trai.Rpc.{client_url}
use distributed_systems_trai.Replicator.{produce_all}
use distributed_systems_trai.Replicator.Receiving.{
  capacity, Session, opened, replicate, take_record, Reached, here, next, receive, send, take_one,
  Reached-produce_all,
}
use distributed_systems_trai.Replicator.Blocking.{ends_iff}
use distributed_systems_trai.Replicator.Tests.{keep, rec}

-- The remote server has two records, and answers at one address.
abbrev open_stream : String → ℕ → Result (List Record)
open_stream url off =
    if str_eq url "http://localhost:8080/log.v1.LogAPI/ConsumeStream"
    then ok (rec 4 ∷ rec 5 ∷ [])
    else err not_exist

replicate_test :
    replicate keep open_stream [] false "localhost:8080/"
    ≡ some (opened keep [] (rec 4 ∷ rec 5 ∷ []))
unfolding replicate client_url
replicate_test = refl

abbrev at_start : Session keep
at_start = opened keep [] (rec 4 ∷ rec 5 ∷ [])

abbrev one_sent : Session keep
one_sent = record at_start { incoming = rec 5 ∷ []; buffer = rec 4 ∷ [] }

one_sent-Reached : Reached keep at_start one_sent
one_sent-Reached =
    next (next here (receive (rec 4) (rec 5 ∷ []) refl refl refl)) (send (rec 4) refl (omega arith))

Reached-produce_all_example :
    (taken : List Record) × ((take_record keep one_sent (rec 4) []).local
      ≡ (produce_all keep [] taken).0)
    × (rec 4 ∷ rec 5 ∷ [] ≡ taken ++ ([] ++ ([] ++ (rec 5 ∷ []))))
    × (0 ≤ capacity)
    × (true ≡ true → (produce_all keep [] taken).1 ≡ ok tt)
unfolding take_record
Reached-produce_all_example =
    Reached-produce_all keep [] (rec 4 ∷ rec 5 ∷ [])
      (next one_sent-Reached (take_one (rec 4) [] refl refl))

-- The loop has returned, and the stream has 17 records left.
abbrev left : Session keep
left = record (opened keep [] (copies 17 (rec 4))) { replicating = false }

ends_iff_example : ((s' : Session keep) × Reached keep left s' × (s'.receiving ≡ false)) ↔ (17 ≤ 16)
ends_iff_example = ends_iff keep left refl refl (omega arith)
