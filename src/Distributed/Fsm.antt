-- ===== src/Distributed/Fsm.antt =====
-- internal/log/distributed/fsm.go and snapshot.go: the state machine that Raft applies its entries
-- to, its snapshots, and `apply` of distributed.go, which hands a request to Raft.
pub mod Replay
pub mod Replicas
pub mod History
use distributed_systems_trai.Base.{
  ℕ, zero, suc, ◌^◌, ◌≡◌, refl, ◌≢◌, ◌↔◌, inl, inr, Bool, true, false, List, [], ◌∷◌, arith, ltb,
  leb, ◌==◌, if◌then◌else◌, length, take, drop, Error, eof, unexpected_eof, not_exist, fault,
  Result, ok, err, ◌>>=◌, Result-cases, and_then,
}
use distributed_systems_trai.Base.Words.{uint}
use distributed_systems_trai.CommitLog.Store
use distributed_systems_trai.CommitLog.Message.{Record, Codec}
use distributed_systems_trai.CommitLog.Segment.{Segment, Config}
use distributed_systems_trai.CommitLog.Segment.Reads.{HasRoom}
use distributed_systems_trai.CommitLog.Files.{Directory}
use distributed_systems_trai.CommitLog.Log.{Log}
use distributed_systems_trai.CommitLog.Log.Operations.{append, reset}
use distributed_systems_trai.CommitLog.Log.Invariant.{running, IsSound}
use distributed_systems_trai.CommitLog.Log.Contract.{read-append_log}
use distributed_systems_trai.CommitLog.Log.Capacity.{reset_fails}

-- proto.Marshal and proto.Unmarshal at ProduceRequest, which holds a Record.
pub record RequestCodec : Type 0 where
  pub to_bytes : Record → Result (List ℕ)
  pub of_bytes : List ℕ → Result Record
  pub of_to : (r : Record) (p : List ℕ) → to_bytes r ≡ ok p → of_bytes p ≡ ok r

-- The value that Apply returns: nil, an error or a ProduceResponse.
pub data Response : Type 0 where
  nothing : Response
  failed : Error → Response
  produced : ℕ → Response

abbrev pub append_request_type : ℕ
append_request_type = 0

-- The bytes that `apply` of distributed.go gives to Raft: the request's type and the request.
unfoldable pub command : RequestCodec → Record → Result (List ℕ)
command requests r = do b ← requests.to_bytes r; ok (append_request_type ∷ b)

-- What Append of distributed.go makes of the response; nil is no ProduceResponse.
unfoldable pub append_result : Response → Result ℕ
append_result nothing = err fault
append_result (failed e) = err e
append_result (produced off) = ok off

-- The bytes of one frame of a snapshot and what follows it: io.ReadFull of the length and io.CopyN
-- of that many bytes; a length that is no int64 copies none. No bytes are io.EOF, which ends the loop.
unfoldable pub next_frame : List ℕ → Result (List ℕ × List ℕ)
next_frame xs =
    if length xs == 0
    then err eof
    else if ltb (length xs) Store.len_width
    then err unexpected_eof
    else let size = uint (take Store.len_width xs) in
      let rest = drop Store.len_width xs in
      if leb (2 ^ 63) size
      then ok ([], rest)
      else if ltb (length rest) size
      then err eof
      else ok (take size rest, drop size rest)

-- For the first record the log is reset to start at its offset.
unfoldable pub reset_at : Bool → Log → ℕ → Log × Result (Unit {0})
reset_at false l off = (l, ok tt)
reset_at true l off = reset (record l { config = record l.config { initial_offset = off } })

module _ (proto : Codec) where
  respond : Log × Result ℕ → Log × Response
  respond (l, err e) = (l, failed e)
  respond (l, ok off) = (l, produced off)

  -- applyAppend. A request has a record here; for one without, the code appends a nil record and panics.
  unfoldable pub apply_append : RequestCodec → Log → List ℕ → Log × Response
  unfolding respond
  apply_append requests l b = elim (requests.of_bytes b) [
    | err e ↦ (l, failed e)
    | ok r ↦ respond (append proto l r)
  ]

  -- Apply; no bytes are a panic.
  unfoldable pub apply : RequestCodec → Log → List ℕ → Log × Result Response
  unfolding apply_append
  apply requests l [] = (l, err fault)
  apply requests l (req_type ∷ rest) =
      let (l', r) = apply_append requests l rest in
      if req_type == append_request_type then (l', ok r) else (l, ok nothing)

  -- One round of Restore: the bytes that are left.
  unfoldable pub restore_one : Bool → Log → List ℕ × List ℕ → Log × Result (List ℕ)
  unfolding reset_at
  restore_one first l (frame, rest) = elim (proto.of_bytes frame) [
    | err e ↦ (l, err e)
    | ok r ↦
        and_then (reset_at first l r.offset)
          λ _ l₁. and_then (append proto l₁ r) λ _ l₂. (l₂, ok rest)
  ]

  -- The loop of Restore; each round takes eight bytes at least, so as many rounds as bytes are
  -- enough.
  unfoldable pub restore_loop : ℕ → Bool → Log → List ℕ → Log × Result (Unit {0})
  unfolding restore_one next_frame
  restore_loop fuel first l [] = (l, ok tt)
  restore_loop zero first l (x ∷ xs) = (l, err fault)
  restore_loop (suc fuel) first l (x ∷ xs) = elim (next_frame (x ∷ xs)) [
    | err e ↦ (l, err e)
    | ok cut ↦ and_then (restore_one first l cut) λ rest l'. restore_loop fuel false l' rest
  ]

  -- Restore
  unfoldable pub restore : Log → List ℕ → Log × Result (Unit {0})
  unfolding restore_loop
  restore l xs = restore_loop (length xs) true l xs

  reset_at_fails : (l : Log) (off : ℕ) → (e : Error) × ((reset_at true l off).1 ≡ err e)
  unfolding reset_at
  reset_at_fails l off =
      elim (reset_fails (record l { config = record l.config { initial_offset = off } })) [
        | inl (e, _, fails) ↦ (e, fails)
        | inr (_, fails, _) ↦ (not_exist, fails)
      ]

  restore_one_fails :
      (l : Log) (cut : List ℕ × List ℕ) → (e : Error) × ((restore_one true l cut).1 ≡ err e)
  unfolding restore_one
  restore_one_fails l (frame, rest) = elim (Result-cases (proto.of_bytes frame)) [
    | inr (e, bad) ↦ (e, ground (arith, bad))
    | inl (r, decoded) ↦
        let (e, fails) = reset_at_fails l r.offset in (e, ground (arith, decoded, fails))
  ]

  restore_round_fails :
      (fuel : ℕ) (l : Log) (x : ℕ) (xs : List ℕ)
      → (e : Error) × ((restore_loop (suc fuel) true l (x ∷ xs)).1 ≡ err e)
  unfolding restore_loop
  restore_round_fails fuel l x xs = elim (Result-cases (next_frame (x ∷ xs))) [
    | inr (e, bad) ↦ (e, ground (arith, bad))
    | inl (cut, whole) ↦
        let (e, fails) = restore_one_fails l cut in (e, ground (arith, whole, fails))
  ]

  -- Restore succeeds with the empty snapshot only: any record in it makes the log be reset, and
  -- Reset never succeeds.
  pub restore-ok : (l : Log) (xs : List ℕ) → (restore l xs).1 ≡ ok tt ↔ xs ≡ []
  unfolding restore
  restore-ok l [] = ((λ e. refl), (λ e. refl))
  restore-ok l (x ∷ xs) =
      let (bad, fails) = restore_round_fails (length xs) l x xs in
      ((λ e. cc (e, fails)), (λ e. cc e))

  pub apply-sent :
      (requests : RequestCodec) (l : Log) (r : Record) (b : List ℕ) (off : ℕ)
      → requests.of_bytes b ≡ ok r
      → (append proto l r).1 ≡ ok off
      → apply requests l (append_request_type ∷ b) ≡ ((append proto l r).0, ok (produced off))
  unfolding apply
  apply-sent requests l r b off decoded appended = ground (arith, decoded, appended)

  apply-other :
      (requests : RequestCodec) (l : Log) (req_type : ℕ) (rest : List ℕ)
      → req_type ≢ append_request_type
      → apply requests l (req_type ∷ rest) ≡ (l, ok nothing)
  unfolding apply
  apply-other requests l req_type rest other = ground arith

  pub command-sent :
      (requests : RequestCodec) (r : Record) (buf : List ℕ)
      → command requests r ≡ ok buf
      → (b : List ℕ) × (buf ≡ append_request_type ∷ b) × (requests.of_bytes b ≡ ok r)
  unfolding command
  command-sent requests r buf sent = elim (Result-cases (requests.to_bytes r)) [
    | inr (e, bad) ↦ ground (arith, bad)
    | inl (b, encoded) ↦ (b, ground (arith, encoded), requests.of_to r b encoded)
  ]

  -- A request that Append of distributed.go hands to Raft, and that Raft applies to a sound log with
  -- room, is appended: the caller gets the log's next offset. A request of any other type changes
  -- nothing and is answered by nil.
  pub apply-command :
      (requests : RequestCodec) (lowest : ℕ) (c : Config) (d : Directory) (older : List Segment)
      (s : Segment) (r : Record) (p buf rest : List ℕ) (req_type : ℕ)
      → IsSound lowest c d older s
      → proto.to_bytes (record r { offset = s.next_offset }) ≡ ok p
      → HasRoom s (length p)
      → command requests r ≡ ok buf
      → req_type ≢ append_request_type
      → ((apply requests (running c d older s) buf).0 ≡ (append proto (running c d older s) r).0)
        × (((apply requests (running c d older s) buf).1 >>= append_result) ≡ ok s.next_offset)
        × (apply requests (running c d older s) (req_type ∷ rest)
            ≡ (running c d older s, ok nothing))
  unfolding append_result
  apply-command requests lowest c d older s r p buf rest req_type h encoded room sent other =
      let found = read-append_log proto lowest c d older s r p h encoded room in
      let (b, framed, decoded) = command-sent requests r buf sent in
      let applied = apply-sent requests (running c d older s) r b s.next_offset decoded found.0 in
      rw (framed, applied)
        (refl, refl, apply-other requests (running c d older s) req_type rest other)
