-- ===== src/Replicator/Blocking.antt =====
-- The goroutine of replicate in internal/log/replicator/replicator.go after the loop has returned, when
-- nobody takes records from the channel any more.
use distributed_systems_trai.Base.{
  ℕ, ◌+◌, ◌≤◌, ◌≡◌, refl, ap, ◌↔◌, ◌⊎◌, inl, inr, true, false, none, some, List, [], ◌∷◌, ◌++◌,
  arith, Option-cases, length, length-append, Result,
}
use distributed_systems_trai.CommitLog.Message.{Record}
use distributed_systems_trai.Replicator.Receiving.{
  capacity, held, Session, Step, receive, send, stream_ends, take_one, stop, Reached, here, next,
}

module _ {S : Type 0} (produce : S → Record → S × Result ℕ) where
  -- The records that the goroutine has still to get rid of, and those in the channel.
  abbrev pub waiting : Session produce → ℕ
  waiting s = length s.buffer + length (held s.in_hand) + length s.incoming

  -- Without the loop, the records stay.
  abbrev Stays : ℕ → Session produce → Type 0
  Stays n s =
      (s.replicating ≡ false)
      × (waiting s ≡ n)
      × (length s.buffer ≤ capacity)
      × ((s.receiving ≡ true) ⊎ (n ≤ capacity))

  step-Stays : (n : ℕ) {s s' : Session produce} → Step produce s s' → Stays n s → Stays n s'
  step-Stays n (receive {s = s} r more going free found) (off, count, room, ends) =
      (off, omega (arith, count, ap (λ h. length (held h)) free, ap length found), room, ends)
  step-Stays n (send {s = s} r full space) (off, count, room, ends) =
      let longer : length (s.buffer ++ (r ∷ [])) ≡ length s.buffer + 1 =
        length-append s.buffer (r ∷ []) in
      (
        off,
        omega (arith, count, longer, ap (λ h. length (held h)) full),
        omega (arith, longer),
        ends,
      )
  step-Stays n (stream_ends {s = s} going free done) (off, count, room, ends) = (
    off,
    count,
    room,
    inr (omega (arith, count, room, ap (λ h. length (held h)) free, ap length done)),
  )
  step-Stays n (take_one r more going found) (off, _, _, _) = absurd (cc (off, going))
  step-Stays n (stop going) (off, _, _, _) = absurd (cc (off, going))

  Reached-Stays : (n : ℕ) {s s' : Session produce} → Reached produce s s' → Stays n s → Stays n s'
  Reached-Stays n here h = h
  Reached-Stays n (next r step) h = step-Stays n step (Reached-Stays n r h)

  Ends : Session produce → Type 0
  Ends s = (s' : Session produce) × Reached produce s s' × (s'.receiving ≡ false)

  -- With room for the records that are left, the goroutine comes to its end.
  drain :
      (start s : Session produce) (rs : List Record)
      → Reached produce start s
      → s.receiving ≡ true
      → s.in_hand ≡ none
      → s.incoming ≡ rs
      → length s.buffer + length rs ≤ capacity
      → Ends start
  unfolding Ends
  drain start s [] reached going free none_left room =
      (record s { receiving = false }, next reached (stream_ends going free none_left), refl)
  drain start s (r ∷ rs) reached going free left room =
      let received = record s { in_hand = some r; incoming = rs } in
      let sent = record received { in_hand = none; buffer = s.buffer ++ (r ∷ []) } in
      let longer : length (s.buffer ++ (r ∷ [])) ≡ length s.buffer + 1 =
        length-append s.buffer (r ∷ []) in
      drain start sent rs
        (next (next reached (receive r rs going free left)) (send r refl (omega arith))) going refl
        refl (omega (arith, longer))

  drain_held : (s : Session produce) → s.receiving ≡ true → waiting s ≤ capacity → Ends s
  drain_held s going room = elim (Option-cases s.in_hand) [
    | inl free ↦ drain s s s.incoming here going free refl (omega (arith, room))
    | inr (r, full) ↦
        let longer : length (s.buffer ++ (r ∷ [])) ≡ length s.buffer + 1 =
          length-append s.buffer (r ∷ []) in
        let one : length (held s.in_hand) ≡ 1 = ap (λ h. length (held h)) full in
        drain s (record s { in_hand = none; buffer = s.buffer ++ (r ∷ []) }) s.incoming
          (next here (send r full (omega (arith, one)))) going refl refl
          (omega (arith, longer, one))
  ]

  -- Once the loop of replicate has returned, the goroutine that receives can come to its end exactly
  -- where the channel has room for all that the stream has left: with more than 16 records in the
  -- channel, in the goroutine's hand and in the stream together, it never ends.
  pub ends_iff :
      (s : Session produce)
      → s.replicating ≡ false
      → s.receiving ≡ true
      → length s.buffer ≤ capacity
      → ((s' : Session produce) × Reached produce s s' × (s'.receiving ≡ false))
        ↔ (waiting s ≤ capacity)
  unfolding Ends
  ends_iff s off going room = (
    (λ (s', reached, ended).
        elim (Reached-Stays (waiting s) reached (off, refl, room, inl going)).3 [
          | inl still ↦ absurd (cc (still, ended))
          | inr fits ↦ fits
        ]),
    drain_held s going,
  )
