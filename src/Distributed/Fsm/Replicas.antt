-- ===== src/Distributed/Fsm/Replicas.antt =====
-- Replicas: nodes whose state machines apply the same entries.
use distributed_systems_trai.Base.{
  ℕ, ◌+◌, ◌^◌, ◌<◌, ◌≡◌, refl, sym, ap, ◌∙◌, List, [], ◌∷◌, ◌++◌, arith, length, All, length-append,
  Result, ok,
}
use distributed_systems_trai.CommitLog.Message.{Record, Codec}
use distributed_systems_trai.CommitLog.Segment.{Config}
use distributed_systems_trai.CommitLog.Log.{Log}
use distributed_systems_trai.CommitLog.Log.Operations.{append, read}
use distributed_systems_trai.CommitLog.Log.Refinement.{
  spec_read, append_record, IsRegular, Marshals, Represents,
}
use distributed_systems_trai.CommitLog.Log.Refinement.Steps.{append-Represents, read-Represents}
use distributed_systems_trai.Distributed.Fsm.{
  RequestCodec, Response, produced, command, apply, apply-sent, command-sent,
}

module _ (proto : Codec) (requests : RequestCodec) where
  -- Raft hands the committed entries to Apply one after the other.
  unfoldable pub apply_all : Log → List (List ℕ) → Log × List (Result Response)
  apply_all l [] = (l, [])
  apply_all l (b ∷ bs) =
      let (l', r) = apply proto requests l b in let (l'', more) = apply_all l' bs in (l'', r ∷ more)

  -- The entries are those that Append of distributed.go makes of the records.
  abbrev pub AreCommands : List Record → List (List ℕ) → Type 0
  AreCommands [] [] = Unit {0}
  AreCommands [] (b ∷ bs) = ⊥
  AreCommands (r ∷ rs) [] = ⊥
  AreCommands (r ∷ rs) (b ∷ bs) = (command requests r ≡ ok b) × AreCommands rs bs

  -- The records with their offsets, behind those that are there.
  abbrev pub numbered : ℕ → List Record → List Record → List Record
  numbered lowest before [] = before
  numbered lowest before (r ∷ rs) =
      numbered lowest (before ++ (record r { offset = lowest + length before } ∷ [])) rs

  abbrev pub produced_from : ℕ → List Record → List (Result Response)
  produced_from off [] = []
  produced_from off (r ∷ rs) = ok (produced off) ∷ produced_from (off + 1) rs

  pub apply-command_buf :
      (l : Log) (r : Record) (b : List ℕ) (off : ℕ)
      → command requests r ≡ ok b
      → (append proto l r).1 ≡ ok off
      → apply proto requests l b ≡ ((append proto l r).0, ok (produced off))
  apply-command_buf l r b off sent done =
      let (body, framed, decoded) = command-sent proto requests r b sent in
      ap (apply proto requests l) framed ∙ apply-sent proto requests l r body off decoded done

  -- On a log that stands for a list of records, the state machine appends the records of the entries.
  pub apply_all-Represents :
      (c : Config) (lowest : ℕ) (before : List Record) (l : Log) (rs : List Record)
      (bs : List (List ℕ))
      → IsRegular c
      → Represents proto c lowest before l
      → AreCommands rs bs
      → All (λ r. Marshals proto c (append_record r)) rs
      → lowest + length before + length rs < 2 ^ 64
      → Represents proto c lowest (numbered lowest before rs) (apply_all l bs).0
        × ((apply_all l bs).1 ≡ produced_from (lowest + length before) rs)
  unfolding apply_all
  apply_all-Represents c lowest before l [] [] regular g sent fit below = (g, refl)
  apply_all-Represents c lowest before l [] (b ∷ bs) regular g sent fit below = absurd sent
  apply_all-Represents c lowest before l (r ∷ rs) [] regular g sent fit below = absurd sent
  apply_all-Represents c lowest before l (r ∷ rs) (b ∷ bs) regular g (one, others) fit below =
      let new = record r { offset = lowest + length before } in
      let (answer, state) = append-Represents proto c regular g r fit.0 (omega arith) in
      let applied = apply-command_buf l r b (lowest + length before) one answer in
      let count : length (before ++ (new ∷ [])) ≡ length before + 1 =
        length-append before (new ∷ []) in
      let (final, answers) =
        apply_all-Represents c lowest (before ++ (new ∷ [])) (append proto l r).0 rs bs regular
          state others fit.1 (omega (arith, count)) in
      let next : lowest + length (before ++ (new ∷ [])) ≡ lowest + length before + 1 =
        omega (arith, count) in
      rw applied (
        final,
        ap (λ as'. ok (produced (lowest + length before)) ∷ as')
            (answers ∙ ap (λ o. produced_from o rs) next),
      )

module _ (proto : Codec) (requests : RequestCodec) (c₁ c₂ : Config) where
  -- Two nodes whose logs stand for the same records, and which may have different limits and be cut
  -- into different segments, apply the same entries, made of records by Append: both answer the
  -- entries by the offsets that follow one another, and afterwards every Read at either gives what
  -- the list of the old and the new records gives. Every message must marshal to less than 2^61 bytes,
  -- and the offsets must stay below 2^64.
  pub read-apply_all :
      (lowest : ℕ) (before rs : List Record) (l₁ l₂ : Log) (bs : List (List ℕ)) (off : ℕ)
      → IsRegular c₁
      → IsRegular c₂
      → Represents proto c₁ lowest before l₁
      → Represents proto c₂ lowest before l₂
      → AreCommands proto requests rs bs
      → All (λ r. Marshals proto c₁ (append_record r)) rs
      → lowest + length before + length rs < 2 ^ 64
      → ((apply_all proto requests l₁ bs).1
          ≡ produced_from proto requests (lowest + length before) rs)
        × ((apply_all proto requests l₂ bs).1 ≡ (apply_all proto requests l₁ bs).1)
        × ((read proto (apply_all proto requests l₁ bs).0 off).1
            ≡ spec_read lowest (numbered proto requests lowest before rs) off)
        × ((read proto (apply_all proto requests l₂ bs).0 off).1
            ≡ (read proto (apply_all proto requests l₁ bs).0 off).1)
  read-apply_all lowest before rs l₁ l₂ bs off regular₁ regular₂ g₁ g₂ sent fit below =
      let (state₁, answers₁) =
        apply_all-Represents proto requests c₁ lowest before l₁ rs bs regular₁ g₁ sent fit below in
      let (state₂, answers₂) =
        apply_all-Represents proto requests c₂ lowest before l₂ rs bs regular₂ g₂ sent fit below in
      let found₁ = (read-Represents proto c₁ regular₁ state₁ off).0 in
      let found₂ = (read-Represents proto c₂ regular₂ state₂ off).0 in
      (answers₁, answers₂ ∙ sym answers₁, found₁, found₂ ∙ sym found₁)
