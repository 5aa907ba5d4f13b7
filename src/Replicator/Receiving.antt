-- ===== src/Replicator/Receiving.antt =====
-- replicate of internal/log/replicator/replicator.go with the goroutine that it starts: the remote
-- stream, the channel of 16 records between the two, and the steps that they take.
use distributed_systems_trai.Base.{
  ℕ, ◌≤◌, ◌<◌, ◌≡◌, refl, sym, ap, ◌∙◌, inl, inr, Bool, true, false, Option, none, some, List, [],
  ◌∷◌, ◌++◌, append_assoc, arith, if◌then◌else◌, length, length-append, Result, ok, err,
  Result-cases, and_then,
}
use distributed_systems_trai.CommitLog.Message.{Record}
use Prim.Native.String.{String, ◌++◌ as str_append}
use distributed_systems_trai.Replicator.{produce_all}
use distributed_systems_trai.Rpc.{Procedure, client_url}

-- The capacity of the channel.
abbrev pub capacity : ℕ
capacity = 16

abbrev pub held : Option Record → List Record
held none = []
held (some r) = r ∷ []

is_ok : {A : Type 0} → Result A → Bool
is_ok (ok a) = true
is_ok (err e) = false

module _ {S : Type 0} (produce : S → Record → S × Result ℕ) where
  -- `incoming` are the records for which Receive will return true, `in_hand` is the one that the
  -- goroutine has received and not sent to the channel, and `buffer` is what the channel holds.
  -- `receiving` and `replicating` tell that the goroutine and the loop of replicate have not returned.
  pub record Session : Type 0 where
    pub local : S
    pub incoming : List Record
    pub in_hand : Option Record
    pub buffer : List Record
    pub receiving : Bool
    pub replicating : Bool

  -- When the remote stream is open and the goroutine is started.
  abbrev pub opened : S → List Record → Session
  opened local rs = record {
    local = local;
    incoming = rs;
    in_hand = none;
    buffer = [];
    receiving = true;
    replicating = true;
  }

  -- The start of replicate: the address with its scheme, and ConsumeStream from offset 0 on, which gives
  -- the records that will be received, or an error, which ends replicate.
  unfoldable pub replicate :
      (String → ℕ → Result (List Record)) → S → Bool → String → Option Session
  unfolding client_url
  replicate open_stream local tls addr =
      let scheme = if tls then "https://" else "http://" in
      let url = client_url (str_append scheme addr) Procedure.consume_stream in
      elim (open_stream url 0) [ err e ↦ none | ok rs ↦ some (opened local rs) ]

  -- The case of the select that produces a record.
  unfoldable pub take_record : Session → Record → List Record → Session
  unfolding is_ok
  take_record s r rs =
      let (local', outcome) = produce s.local r in
      record s { local = local'; buffer = rs; replicating = is_ok outcome }

  -- A step of the goroutine, or of the loop, which a closed channel ends at any time.
  pub data Step : Session → Session → Type 0 where
    receive :
        {s : Session} (r : Record) (rs : List Record)
        → s.receiving ≡ true
        → s.in_hand ≡ none
        → s.incoming ≡ r ∷ rs
        → Step s (record s { in_hand = some r; incoming = rs })
    send :
        {s : Session} (r : Record)
        → s.in_hand ≡ some r
        → length s.buffer < capacity
        → Step s (record s { in_hand = none; buffer = s.buffer ++ (r ∷ []) })
    stream_ends :
        {s : Session}
        → s.receiving ≡ true
        → s.in_hand ≡ none
        → s.incoming ≡ []
        → Step s (record s { receiving = false })
    take_one :
        {s : Session} (r : Record) (rs : List Record)
        → s.replicating ≡ true
        → s.buffer ≡ r ∷ rs
        → Step s (take_record s r rs)
    stop : {s : Session} → s.replicating ≡ true → Step s (record s { replicating = false })

  pub data Reached (s : Session) : Session → Type 0 where
    here : Reached s s
    next : {s' s'' : Session} → Reached s s' → Step s' s'' → Reached s s''

  produce_all-snoc :
      (s : S) (rs : List Record) (r : Record)
      → (produce_all produce s rs).1 ≡ ok tt
      → produce_all produce s (rs ++ (r ∷ []))
        ≡ and_then (produce (produce_all produce s rs).0 r) (λ off s'. (s', ok tt))
  unfolding produce_all
  produce_all-snoc s [] r h = refl
  produce_all-snoc s (x ∷ xs) r h = elim (Result-cases (produce s x).1) [
    | inl (off, done) ↦
        let again = produce_all-snoc (produce s x).0 xs r (ground (arith, done, h)) in rw done again
    | inr (e, failed) ↦ ground (arith, failed, h)
  ]

  abbrev outcome_of : S × Result ℕ → S × Result (Unit {0})
  outcome_of x = and_then x λ off s'. (s', ok tt)

  outcome_of_fields :
      (x : S × Result ℕ) → ((outcome_of x).0 ≡ x.0) × (is_ok x.1 ≡ true → (outcome_of x).1 ≡ ok tt)
  unfolding is_ok
  outcome_of_fields (s, ok off) = (refl, λ h. refl)
  outcome_of_fields (s, err e) = (refl, λ h. cc h)

  -- What has become of the records of the stream.
  abbrev Accounted : S → List Record → Session → Type 0
  Accounted local rs s =
      (taken : List Record) × (s.local ≡ (produce_all produce local taken).0)
      × (rs ≡ taken ++ (s.buffer ++ (held s.in_hand ++ s.incoming)))
      × (length s.buffer ≤ capacity)
      × (s.replicating ≡ true → (produce_all produce local taken).1 ≡ ok tt)

  step-Accounted :
      (local : S) (rs : List Record) {s s' : Session}
      → Step s s'
      → Accounted local rs s
      → Accounted local rs s'
  unfolding take_record is_ok
  step-Accounted local rs (receive {s = s} r more going free found)
        (taken, state, split, room, fine) =
      (taken, state, split ∙ ap (λ t. taken ++ (s.buffer ++ t)) (rw (free, found) refl), room, fine)
  step-Accounted local rs (send {s = s} r full space) (taken, state, split, room, fine) = (
    taken,
    state,
    split
        ∙ ap (λ t. taken ++ t)
            (ap (λ h. s.buffer ++ (held h ++ s.incoming)) full
              ∙ sym (append_assoc s.buffer (r ∷ []) s.incoming)),
    omega (arith, length-append s.buffer (r ∷ [])),
    fine,
  )
  step-Accounted local rs (stream_ends going free done) h = h
  step-Accounted local rs (take_one {s = s} r more going found) (taken, state, split, room, fine) =
      let one_more = produce_all-snoc local taken r (fine going) in
      let (produced, well) = outcome_of_fields (produce s.local r) in
      let rest = held s.in_hand ++ s.incoming in
      let same : produce_all produce local (taken ++ (r ∷ [])) ≡ outcome_of (produce s.local r) =
        one_more ∙ ap (λ l. outcome_of (produce l r)) (sym state) in
      (
        taken ++ (r ∷ []),
        sym (ap (λ x. x.0) same ∙ produced),
        split
            ∙ ap (λ b. taken ++ (b ++ rest)) found
            ∙ sym (append_assoc taken (r ∷ []) (more ++ rest)),
        omega (arith, ap length found),
        λ h. ap (λ x. x.1) same ∙ well h,
      )
  step-Accounted local rs (stop going) (taken, state, split, room, fine) =
      (taken, state, split, room, λ h. cc h)

  -- From when the remote stream is open, in whatever order the goroutine and the loop of replicate take
  -- their steps and whenever the loop ends, the local server has been given the first records of the
  -- stream, in their order, each once, up to the first that fails; the others are those in the channel,
  -- the one that the goroutine holds, and those that it has not received, in this order; and the
  -- channel holds at most 16.
  pub Reached-produce_all :
      (local : S) (rs : List Record) {s : Session}
      → Reached (opened local rs) s
      → (taken : List Record) × (s.local ≡ (produce_all produce local taken).0)
        × (rs ≡ taken ++ (s.buffer ++ (held s.in_hand ++ s.incoming)))
        × (length s.buffer ≤ capacity)
        × (s.replicating ≡ true → (produce_all produce local taken).1 ≡ ok tt)
  unfolding produce_all
  Reached-produce_all local rs here = ([], refl, refl, omega arith, λ h. refl)
  Reached-produce_all local rs (next r step) =
      step-Accounted local rs step (Reached-produce_all local rs r)
