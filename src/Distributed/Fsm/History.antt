-- ===== src/Distributed/Fsm/History.antt =====
-- The logs of nodes over time: Raft applies entries one after the other, and the server reads in between.
use distributed_systems_trai.Base.{
  ℕ, zero, suc, ◌+◌, ◌-◌, ◌^◌, ◌<◌, ◌≡◌, refl, sym, ap, ◌∙◌, subst, inl, inr, none, some, List, [],
  ◌∷◌, ◌++◌, arith, Option-cases, length, length-append, out_of_range, ok, err,
}
use distributed_systems_trai.Base.{get_elem?}
use distributed_systems_trai.CommitLog.Message.{Record, Codec}
use distributed_systems_trai.CommitLog.Segment.{Config}
use distributed_systems_trai.CommitLog.Log.{Log, new_log}
use distributed_systems_trai.CommitLog.Log.Operations.{append, read}
use distributed_systems_trai.CommitLog.Log.Refinement.{
  spec_read, append_record, IsRegular, Marshals, Represents,
}
use distributed_systems_trai.CommitLog.Log.Refinement.Steps.{append-Represents, read-Represents}
use distributed_systems_trai.CommitLog.Log.Refinement.Sessions.{new_log-Represents}
use distributed_systems_trai.Distributed.Fsm.{RequestCodec, produced, command, apply}
use distributed_systems_trai.Distributed.Fsm.Replicas.{apply-command_buf}

-- The records with the offsets from `off` on.
abbrev pub stamp : ℕ → List Record → List Record
stamp off [] = []
stamp off (r ∷ rs) = record r { offset = off } ∷ stamp (off + 1) rs

pub length-stamp : (off : ℕ) (rs : List Record) → length (stamp off rs) ≡ length rs
length-stamp off [] = refl
length-stamp off (r ∷ rs) = ap suc (length-stamp (off + 1) rs)

pub stamp-append :
    (off : ℕ) (rs more : List Record)
    → stamp off (rs ++ more) ≡ stamp off rs ++ stamp (off + length rs) more
stamp-append off [] more = let e : off ≡ off + 0 = omega arith in ap (λ o. stamp o more) e
stamp-append off (r ∷ rs) more =
    let e : off + 1 + length rs ≡ off + suc (length rs) = omega arith in
    ap (λ l. record r { offset = off } ∷ l)
      (stamp-append (off + 1) rs more ∙ ap (λ o. stamp (off + 1) rs ++ stamp o more) e)

get_elem?-append :
    (xs ys : List Record) (i : ℕ) (r : Record)
    → get_elem? xs i ≡ some r
    → get_elem? (xs ++ ys) i ≡ some r
get_elem?-append [] ys i r h = cc h
get_elem?-append (x ∷ xs) ys zero r h = h
get_elem?-append (x ∷ xs) ys (suc i) r h = get_elem?-append xs ys i r h

pub spec_read-append :
    (lowest : ℕ) (xs ys : List Record) (off : ℕ) (r : Record)
    → spec_read lowest xs off ≡ ok r
    → spec_read lowest (xs ++ ys) off ≡ ok r
unfolding spec_read
spec_read-append lowest xs ys off r h = elim (Option-cases (get_elem? xs (off - lowest))) [
  | inl past ↦ ground (arith, h, past)
  | inr (x, there) ↦ ground (arith, h, there, get_elem?-append xs ys (off - lowest) x there)
]

get_elem?-last :
    (xs : List Record) (x : Record) (ys : List Record)
    → get_elem? (xs ++ (x ∷ ys)) (length xs) ≡ some x
get_elem?-last [] x ys = refl
get_elem?-last (y ∷ xs) x ys = get_elem?-last xs x ys

pub spec_read-last :
    (lowest : ℕ) (xs : List Record) (x : Record) (ys : List Record) (n : ℕ)
    → length xs ≡ n
    → spec_read lowest (xs ++ (x ∷ ys)) (lowest + n) ≡ ok x
unfolding spec_read
spec_read-last lowest xs x ys n count =
    let place : lowest + n - lowest ≡ length xs = omega arith in
    ground (arith, place, get_elem?-last xs x ys)

get_elem?-past : (xs : List Record) → get_elem? xs (length xs) ≡ none
get_elem?-past [] = refl
get_elem?-past (x ∷ xs) = get_elem?-past xs

pub spec_read-past :
    (lowest : ℕ) (xs : List Record) (n : ℕ)
    → length xs ≡ n
    → spec_read lowest xs (lowest + n) ≡ err (out_of_range (lowest + n))
unfolding spec_read
spec_read-past lowest xs n count =
    let place : lowest + n - lowest ≡ length xs = omega arith in
    ground (arith, place, get_elem?-past xs)

module _ (proto : Codec) (requests : RequestCodec) (c : Config) where
  -- The log of a node that has applied the entries of the records, in this order, and that was read
  -- at any times in between.
  pub data Replayed : List Record → Log → Type 0 where
    fresh : Replayed [] (new_log (some []) c).0
    applied :
        {rs : List Record} {l : Log} (r : Record) (b : List ℕ)
        → command requests r ≡ ok b
        → Marshals proto c (append_record r)
        → Replayed rs l
        → Replayed (rs ++ (r ∷ [])) (apply proto requests l b).0
    was_read :
        {rs : List Record} {l : Log} (off : ℕ) → Replayed rs l → Replayed rs (read proto l off).0

  module _ (regular : IsRegular c) where
    -- One more entry, on a log that stands for the entries so far.
    pub apply-Represents :
        (rs : List Record) (l : Log) (r : Record) (b : List ℕ)
        → command requests r ≡ ok b
        → Marshals proto c (append_record r)
        → Represents proto c c.initial_offset (stamp c.initial_offset rs) l
        → c.initial_offset + length rs + 1 < 2 ^ 64
        → ((apply proto requests l b).1 ≡ ok (produced (c.initial_offset + length rs)))
          × Represents proto c c.initial_offset
              (stamp c.initial_offset (rs ++ (r ∷ [])))
              (apply proto requests l b).0
    apply-Represents rs l r b sent fit g below =
        let off = c.initial_offset in
        let count = length-stamp off rs in
        let (answer, state) = append-Represents proto c regular g r fit (omega (arith, count)) in
        let number : off + length (stamp off rs) ≡ off + length rs = omega (arith, count) in
        let done =
          apply-command_buf proto requests l r b (off + length rs) sent (answer ∙ ap ok number) in
        rw done (
          refl,
          subst (λ xs. Represents proto c off xs (append proto l r).0)
              (ap (λ o. stamp off rs ++ (record r { offset = o } ∷ [])) number
                ∙ sym (stamp-append off rs (r ∷ [])))
              state,
        )

    pub Replayed-Represents :
        {rs : List Record} {l : Log}
        → Replayed rs l
        → c.initial_offset + length rs < 2 ^ 64
        → Represents proto c c.initial_offset (stamp c.initial_offset rs) l
    Replayed-Represents fresh below = new_log-Represents proto c regular (omega arith)
    Replayed-Represents (applied {rs = rs} {l = l} r b sent fit h) below =
        let count = length-append rs (r ∷ []) in
        (apply-Represents rs l r b sent fit (Replayed-Represents h (omega (arith, count)))
          (omega (arith, count))).1
    Replayed-Represents (was_read off h) below =
        (read-Represents proto c regular (Replayed-Represents h below) off).1

    pub read-Replayed :
        {rs : List Record} {l : Log} (off : ℕ)
        → Replayed rs l
        → c.initial_offset + length rs < 2 ^ 64
        → (read proto l off).1 ≡ spec_read c.initial_offset (stamp c.initial_offset rs) off
    read-Replayed off h below =
        (read-Represents proto c regular (Replayed-Represents h below) off).0
