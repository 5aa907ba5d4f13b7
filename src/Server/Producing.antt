-- ===== src/Server/Producing.antt =====
-- What Produce and ProduceStream of internal/server/log.go append.
use distributed_systems_trai.Base.{
  ℕ, ◌≡◌, inl, inr, List, [], ◌∷◌, ◌++◌, map, arith, length, eof, Result, ok, Result-cases,
  and_then,
}
use distributed_systems_trai.CommitLog.Message.{Record, Codec}
use distributed_systems_trai.CommitLog.Segment.{Segment, Config}
use distributed_systems_trai.CommitLog.Segment.Reads.{HasRoom}
use distributed_systems_trai.CommitLog.Files.{Directory}
use distributed_systems_trai.CommitLog.Log.Invariant.{running, IsSound}
use distributed_systems_trai.CommitLog.Log.Contract.{read-append_log}
use distributed_systems_trai.Server.{
  CommitLog, finished, Incoming, message, receive_failed, consume, produce, produce_stream, of_log,
}

module _ (commit_log : CommitLog) where
  open commit_log use {State, append, read}

  -- Appending records one after the other until one fails.
  unfoldable pub append_all : State → List Record → State × Result (List ℕ)
  append_all s [] = (s, ok [])
  append_all s (r ∷ rs) =
      and_then (append s r) λ off s'. and_then (append_all s' rs) λ offs s''. (s'', ok (off ∷ offs))

  abbrev pub sends : Record → Incoming × Result (Unit {0})
  sends r = (message r, ok tt)

  append_all-cons :
      (s s' : State) (r : Record) (rs : List Record) (offs : List ℕ)
      → append_all s (r ∷ rs) ≡ (s', ok offs)
      → (off : ℕ) × (rest : List ℕ) × ((append s r).1 ≡ ok off)
        × (append_all (append s r).0 rs ≡ (s', ok rest))
        × (offs ≡ off ∷ rest)
  unfolding append_all
  append_all-cons s s' r rs offs h = elim (Result-cases (append s r).1) [
    | inl (off, a) ↦ elim (Result-cases (append_all (append s r).0 rs).1) [
      | inl (rest, b) ↦ (off, rest, a, ground (arith, h, a, b), ground (arith, h, a, b))
      | inr (e, b) ↦ ground (arith, h, a, b)
    ]
    | inr (e, a) ↦ ground (arith, h, a)
  ]

  produce_stream-message :
      (s s' : State) (r : Record) (more : List (Incoming × Result (Unit {0}))) (off : ℕ)
      (rest : List ℕ)
      → (append s r).1 ≡ ok off
      → produce_stream commit_log (append s r).0 more ≡ (s', rest, finished)
      → produce_stream commit_log s (sends r ∷ more) ≡ (s', off ∷ rest, finished)
  unfolding produce_stream produce
  produce_stream-message s s' r more off rest appended h = ground (arith, appended, h)

  -- ProduceStream of a client that sends records and then closes its side, each answer being sent:
  -- where all of them can be appended it appends them in this order, answers each with its offset,
  -- and ends without an error.
  pub produce_stream-append_all :
      (s s' : State) (rs : List Record) (offs : List ℕ) (last : Result (Unit {0}))
      → append_all s rs ≡ (s', ok offs)
      → produce_stream commit_log s (map sends rs ++ ((receive_failed eof, last) ∷ []))
        ≡ (s', offs, finished)
  unfolding produce_stream append_all
  produce_stream-append_all s s' [] offs last h = ground (arith, h)
  produce_stream-append_all s s' (r ∷ rs) offs last h =
      let (off, rest, appended, others, same) = append_all-cons s s' r rs offs h in
      rw same (
        produce_stream-message s s' r (map sends rs ++ ((receive_failed eof, last) ∷ [])) off rest
          appended (produce_stream-append_all (append s r).0 s' rs rest last others))

-- What Produce has appended to a sound log with room, Consume returns at the offset that Produce
-- answered, with that offset in it.
pub consume-produce :
    (proto : Codec) (lowest : ℕ) (c : Config) (d : Directory) (older : List Segment) (s : Segment)
    (r : Record) (p : List ℕ)
    → IsSound lowest c d older s
    → proto.to_bytes (record r { offset = s.next_offset }) ≡ ok p
    → HasRoom s (length p)
    → ((produce (of_log proto) (running c d older s) r).1 ≡ ok s.next_offset)
      × ((consume (of_log proto) (produce (of_log proto) (running c d older s) r).0 s.next_offset).1
          ≡ ok (record r { offset = s.next_offset }))
unfolding produce consume
consume-produce proto lowest c d older s r p h encoded room =
    let found = read-append_log proto lowest c d older s r p h encoded room in (found.0, found.1)
