-- ===== src/Server/Streams.antt =====
-- ConsumeStream of internal/server/log.go over the log of internal/log.
use distributed_systems_trai.Base.{
  ℕ, zero, suc, ◌+◌, ◌-◌, ◌^◌, ◌<◌, ◌≡◌, refl, sym, ap, ◌∙◌, inl, inr, none, some, List, [], ◌∷◌,
  arith, Option-cases, length, take, drop, replicate, out_of_range, ok, err,
}
use distributed_systems_trai.Base.{get_elem?}
use distributed_systems_trai.Base.Words.{add64}
use distributed_systems_trai.CommitLog.Message.{Record, Codec}
use distributed_systems_trai.CommitLog.Segment.{Config}
use distributed_systems_trai.CommitLog.Log.{Log}
use distributed_systems_trai.CommitLog.Log.Operations.{read}
use distributed_systems_trai.CommitLog.Log.Refinement.{spec_read, IsRegular, Represents}
use distributed_systems_trai.CommitLog.Log.Refinement.Steps.{read-Represents}
use distributed_systems_trai.Server.{Turn, poll, consume_stream, of_log, consume}

module _ (proto : Codec) (c : Config) (regular : IsRegular c) where
  -- A round in which nobody else changes the log, and Send succeeds.
  abbrev pub round : Turn Log
  round = poll (λ l. l) (ok tt)

  round-found :
      (l : Log) (off : ℕ) (r : Record) (ts : List (Turn Log))
      → (read proto l off).1 ≡ ok r
      → (consume_stream (of_log proto) l off (round ∷ ts)).1
        ≡ r ∷ (consume_stream (of_log proto) (read proto l off).0 (add64 off 1) ts).1
  unfolding consume_stream consume
  round-found l off r ts found = ground (arith, found)

  round-missing :
      (l : Log) (off : ℕ) (ts : List (Turn Log))
      → (read proto l off).1 ≡ err (out_of_range off)
      → (consume_stream (of_log proto) l off (round ∷ ts)).1
        ≡ (consume_stream (of_log proto) (read proto l off).0 off ts).1
  unfolding consume_stream consume
  round-missing l off ts missing = ground (arith, missing)

  drop-found :
      (rs : List Record) (i : ℕ) (r : Record)
      → get_elem? rs i ≡ some r
      → drop i rs ≡ r ∷ drop (suc i) rs
  drop-found [] i r h = cc h
  drop-found (x ∷ xs) zero r h = ap (λ y. y ∷ xs) (cc h)
  drop-found (x ∷ xs) (suc i) r h = drop-found xs i r h

  drop-missing : (rs : List Record) (i : ℕ) → get_elem? rs i ≡ none → drop i rs ≡ []
  drop-missing [] zero h = refl
  drop-missing [] (suc i) h = refl
  drop-missing (x ∷ xs) zero h = cc h
  drop-missing (x ∷ xs) (suc i) h = drop-missing xs i h

  take-nil : (n : ℕ) → take {A = Record} n [] ≡ []
  take-nil zero = refl
  take-nil (suc n) = refl

  get_elem?-below :
      (rs : List Record) (i : ℕ) (r : Record) → get_elem? rs i ≡ some r → i < length rs
  get_elem?-below [] i r h = cc h
  get_elem?-below (x ∷ xs) zero r h = omega arith
  get_elem?-below (x ∷ xs) (suc i) r h = omega (arith, get_elem?-below xs i r h)

  -- Take a log whose index limit is a positive multiple of 12 below 12 times 2^32, which the default of
  -- 1024 is not, and whose store limit is positive and at most 2^62. Where it stands for records,
  -- nobody changes it and every Send succeeds, ConsumeStream from an offset that is not below the
  -- lowest sends, in any number of rounds, the records from this offset on, in order, as many of them
  -- as there are rounds, or all of them. The offsets of the log must stay below 2^64.
  pub consume_stream-Represents :
      (n lowest i : ℕ) (rs : List Record) (l : Log)
      → Represents proto c lowest rs l
      → lowest + length rs < 2 ^ 64
      → (consume_stream (of_log proto) l (lowest + i) (replicate n round)).1 ≡ take n (drop i rs)
  unfolding consume_stream spec_read
  consume_stream-Represents zero lowest i rs l g small = refl
  consume_stream-Represents (suc n) lowest i rs l g small =
      let (answer, after) = read-Represents proto c regular g (lowest + i) in
      let place : lowest + i - lowest ≡ i = omega arith in
      elim (Option-cases (get_elem? rs i)) [
        | inl missing ↦
            let past : (read proto l (lowest + i)).1 ≡ err (out_of_range (lowest + i)) =
              answer ∙ ground (arith, place, missing) in
            let nothing = drop-missing rs i missing in
            round-missing l (lowest + i) (replicate n round) past
            ∙ consume_stream-Represents n lowest i rs (read proto l (lowest + i)).0 after small
            ∙ ap (take n) nothing
            ∙ take-nil n
            ∙ sym (ap (take (suc n)) nothing)
        | inr (r, found) ↦
            let there : (read proto l (lowest + i)).1 ≡ ok r =
              answer ∙ ground (arith, place, found) in
            let below : i < length rs = get_elem?-below rs i r found in
            let next : add64 (lowest + i) 1 ≡ lowest + suc i = omega arith in
            round-found l (lowest + i) r (replicate n round) there
            ∙ ap
                (λ off.
                  r
                  ∷ (consume_stream (of_log proto) (read proto l (lowest + i)).0 off
                      (replicate n round)).1)
                next
            ∙ ap (λ xs. r ∷ xs)
                (consume_stream-Represents n lowest (suc i) rs (read proto l (lowest + i)).0 after
                  small)
            ∙ sym (ap (take (suc n)) (drop-found rs i r found))
      ]
