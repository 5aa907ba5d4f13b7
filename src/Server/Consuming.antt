-- ===== src/Server/Consuming.antt =====
-- What ConsumeStream of internal/server/log.go sends.
use distributed_systems_trai.Base.{
  ℕ, zero, suc, ◌≡◌, refl, ◌∙◌, ◌⊎◌, inl, inr, List, [], ◌∷◌, ◌++◌, arith, Bool-cases, replicate,
  Error, out_of_range, Result, ok, err, Result-cases,
}
use distributed_systems_trai.Base.Words.{add64}
use distributed_systems_trai.CommitLog.Message.{Record}
use distributed_systems_trai.Server.{
  CommitLog, Turn, cancelled, poll, is_out_of_range, consume, consume_stream,
}

module _ (commit_log : CommitLog) where
  open commit_log use {State, append, read}

  -- The records are what the log read, in some state, at this offset and at those that follow it.
  unfoldable pub IsServed : ℕ → List Record → Type 0
  IsServed off [] = Unit {0}
  IsServed off (r ∷ rs) = ((s : State) × ((read s off).1 ≡ ok r)) × IsServed (add64 off 1) rs

  module _ (s : State) (off : ℕ) (others : State → State) (ts : List (Turn State)) where
    consume_stream-sent :
        (r : Record) (u : Unit {0})
        → (read (others s) off).1 ≡ ok r
        → (consume_stream commit_log s off (poll others (ok u) ∷ ts)).1
          ≡ r ∷ (consume_stream commit_log (read (others s) off).0 (add64 off 1) ts).1
    unfolding consume_stream consume
    consume_stream-sent r u found = ground (arith, found)

    consume_stream-unsent :
        (r : Record) (bad : Error)
        → (read (others s) off).1 ≡ ok r
        → (consume_stream commit_log s off (poll others (err bad) ∷ ts)).1 ≡ []
    unfolding consume_stream consume
    consume_stream-unsent r bad found = ground (arith, found)

    consume_stream-unread :
        (e : Error) (sending : Result (Unit {0}))
        → (read (others s) off).1 ≡ err e
        → ((consume_stream commit_log s off (poll others sending ∷ ts)).1
            ≡ (consume_stream commit_log (read (others s) off).0 off ts).1)
          ⊎ ((consume_stream commit_log s off (poll others sending ∷ ts)).1 ≡ [])
    unfolding consume_stream consume
    consume_stream-unread e sending found = elim (Bool-cases (is_out_of_range e)) [
      | inl again ↦ inl (ground (arith, found, again))
      | inr ends ↦ inr (ground (arith, found, ends))
    ]

  IsServed-round :
      (s : State) (off : ℕ) (others : State → State) (sending : Result (Unit {0}))
      (ts : List (Turn State))
      → IsServed off (consume_stream commit_log (read (others s) off).0 off ts).1
      → IsServed
          (add64 off 1)
          (consume_stream commit_log (read (others s) off).0 (add64 off 1) ts).1
      → IsServed off (consume_stream commit_log s off (poll others sending ∷ ts)).1
  unfolding IsServed
  IsServed-round s off others sending ts again next = elim (Result-cases (read (others s) off).1) [
    | inl (r, found) ↦ elim (Result-cases sending) [
      | inl (u, sent) ↦
          rw (sent, consume_stream-sent s off others ts r u found) ((others s, found), next)
      | inr (bad, sent) ↦ rw (sent, consume_stream-unsent s off others ts r bad found) tt
    ]
    | inr (e, found) ↦ elim (consume_stream-unread s off others ts e sending found) [
      | inl same ↦ rw same again
      | inr none' ↦ rw none' tt
    ]
  ]

  -- ConsumeStream sends, whatever others do to the log between its reads, what the log read at the
  -- requested offset and at the offsets that follow it: none is skipped and none is sent twice.
  pub consume_stream-IsServed :
      (s : State) (off : ℕ) (ts : List (Turn State))
      → IsServed off (consume_stream commit_log s off ts).1
  unfolding consume_stream IsServed
  consume_stream-IsServed s off [] = tt
  consume_stream-IsServed s off (cancelled ∷ ts) = tt
  consume_stream-IsServed s off (poll others sending ∷ ts) =
      let s' = (read (others s) off).0 in
      IsServed-round s off others sending ts (consume_stream-IsServed s' off ts)
        (consume_stream-IsServed s' (add64 off 1) ts)

  poll_again :
      (s : State) (off n : ℕ) (sending : Result (Unit {0})) (ts : List (Turn State))
      → read s off ≡ (s, err (out_of_range n))
      → consume_stream commit_log s off (poll (λ x. x) sending ∷ ts)
        ≡ consume_stream commit_log s off ts
  unfolding consume_stream consume
  poll_again s off n sending ts h = ground (arith, h)

  -- While the log answers that the offset is out of its range, ConsumeStream reads again: any number
  -- of such rounds changes nothing of what it does from then on.
  pub consume_stream-waits :
      (s : State) (off n rounds : ℕ) (sending : Result (Unit {0})) (ts : List (Turn State))
      → read s off ≡ (s, err (out_of_range n))
      → consume_stream commit_log s off (replicate rounds (poll (λ x. x) sending) ++ ts)
        ≡ consume_stream commit_log s off ts
  consume_stream-waits s off n zero sending ts h = refl
  consume_stream-waits s off n (suc rounds) sending ts h =
      poll_again s off n sending (replicate rounds (poll (λ x. x) sending) ++ ts) h
      ∙ consume_stream-waits s off n rounds sending ts h
