-- ===== src/Distributed/Cluster.antt =====
-- Append, apply and Read of internal/log/distributed/distributed.go on the nodes of a cluster. Raft is
-- a parameter by what it applies, and when it answers.
use distributed_systems_trai.Base.{
  ℕ, ◌+◌, ◌^◌, ◌<◌, ◌≡◌, sym, ap, ◌∙◌, List, [], ◌∷◌, ◌++◌, append_assoc, append-nil, arith, length,
  All, length-append, out_of_range, Result, ok, err, ◌>>=◌, and_then,
}
use distributed_systems_trai.CommitLog.Message.{Record, Codec}
use distributed_systems_trai.CommitLog.Segment.{Config}
use distributed_systems_trai.CommitLog.Log.{Log, new_log}
use distributed_systems_trai.CommitLog.Log.Operations as Operations
use distributed_systems_trai.CommitLog.Log.Refinement.{
  append_record, IsRegular, Marshals, spec_read,
}
use distributed_systems_trai.CommitLog.Log.Refinement.Steps.{reopen-Represents, read-Represents}
use distributed_systems_trai.Distributed.Fsm.{
  RequestCodec, Response, produced, append_result, command, apply,
}
use distributed_systems_trai.Distributed.Fsm.Replicas.{
  apply_all, AreCommands, numbered, apply_all-Represents,
}
use distributed_systems_trai.Distributed.Fsm.History.{
  stamp, length-stamp, stamp-append, spec_read-append, spec_read-last, spec_read-past, Replayed,
  apply-Represents, Replayed-Represents, read-Replayed,
}
use distributed_systems_trai.Distributed.Startup.{read}

-- Append and apply, where `raft_apply` is raft.Apply with the wait for its future: an error of the
-- future, or the response.
unfoldable pub append {ℓ} :
    {W : Type ℓ} → RequestCodec → (W → List ℕ → W × Result Response) → W → Record → W × Result ℕ
append requests raft_apply w r = elim (command requests r) [
  | err e ↦ (w, err e)
  | ok buf ↦ let (w', res) = raft_apply w buf in (w', res >>= append_result)
]

-- numbered as one list behind another.
numbered-stamp :
    (proto : Codec) (requests : RequestCodec) (lowest : ℕ) (before rs : List Record)
    → numbered proto requests lowest before rs ≡ before ++ stamp (lowest + length before) rs
numbered-stamp proto requests lowest before [] = sym (append-nil before)
numbered-stamp proto requests lowest before (r ∷ rs) =
    let new = record r { offset = lowest + length before } in
    let more : lowest + length (before ++ (new ∷ [])) ≡ lowest + length before + 1 =
      omega (arith, length-append before (new ∷ [])) in
    numbered-stamp proto requests lowest (before ++ (new ∷ [])) rs
    ∙ append_assoc before (new ∷ []) _
    ∙ ap (λ o. before ++ (new ∷ stamp o rs)) more

module _ (proto : Codec) (requests : RequestCodec) (c c' : Config) (regular : IsRegular c)
    (regular' : IsRegular c') (same_start : c.initial_offset ≡ c'.initial_offset) where
  -- Take two nodes whose configurations have the same initial offset, index limits that are positive
  -- multiples of 12 below 12 times 2^32, which the default of 1024 is not, and positive store limits
  -- of at most 2^62. Where the first has applied the entries of some records and the second the same
  -- entries and perhaps more, each starting with an empty directory and read at any times, every
  -- record that Read returns on the first is the one that it returns on the second. Each record must
  -- marshal at every offset below 2^64 to less than 2^61 bytes, and the offsets must stay below 2^64.
  pub read-read :
      (rs more : List Record) (l l' : Log) (off : ℕ) (r : Record)
      → Replayed proto requests c rs l
      → Replayed proto requests c' (rs ++ more) l'
      → c.initial_offset + length (rs ++ more) < 2 ^ 64
      → (read proto l off).1 ≡ ok r
      → (read proto l' off).1 ≡ ok r
  unfolding read
  read-read rs more l l' off r h h' below found =
      let low = c.initial_offset in
      let here : spec_read low (stamp low rs) off ≡ ok r =
        sym (read-Replayed proto requests c regular off h (omega (arith, length-append rs more)))
        ∙ found in
      read-Replayed proto requests c' regular' off h' (omega (arith, same_start))
      ∙ ap (λ o. spec_read o (stamp o (rs ++ more)) off) (sym same_start)
      ∙ ap (λ xs. spec_read low xs off) (stamp-append low rs more)
      ∙ spec_read-append low (stamp low rs) (stamp (low + length rs) more) off r here

  -- Take two nodes whose configurations have the same initial offset, index limits that are positive
  -- multiples of 12 below 12 times 2^32, which the default of 1024 is not, and positive store limits
  -- of at most 2^62. Append on the first, whose Raft answers with what its state machine makes of the
  -- request, applied behind the entries of some records, returns the offset behind theirs; and where
  -- the second has applied these entries and that of the request, and perhaps more, Read at that
  -- offset returns there the record with that offset in it. Each started with an empty directory. Each
  -- record must marshal at every offset below 2^64 to less than 2^61 bytes, the request must marshal,
  -- and the offsets must stay below 2^64.
  pub read-append_cluster {ℓ} :
      {W : Type ℓ} (raft_apply : W → List ℕ → W × Result Response) (w : W) (r : Record) (b : List ℕ)
      (rs more : List Record) (l l' : Log)
      → command requests r ≡ ok b
      → Marshals proto c (append_record r)
      → Replayed proto requests c rs l
      → (raft_apply w b).1 ≡ (apply proto requests l b).1
      → Replayed proto requests c' (rs ++ (r ∷ more)) l'
      → c.initial_offset + length (rs ++ (r ∷ more)) < 2 ^ 64
      → ((append requests raft_apply w r).1 ≡ ok (c.initial_offset + length rs))
        × ((read proto l' (c.initial_offset + length rs)).1
            ≡ ok (record r { offset = c.initial_offset + length rs }))
  unfolding append read append_result
  read-append_cluster raft_apply w r b rs more l l' sent fit h answers h' below =
      let low = c.initial_offset in
      let count = length-append rs (r ∷ more) in
      let (answer, state) =
        apply-Represents proto requests c regular rs l r b sent fit
          (Replayed-Represents proto requests c regular h (omega (arith, count)))
          (omega (arith, count)) in
      let responds : (raft_apply w b).1 ≡ ok (produced (low + length rs)) = answers ∙ answer in
      (
        ground (arith, sent, responds),
        read-Replayed proto requests c' regular' (low + length rs) h' (omega (arith, same_start))
            ∙ ap (λ o. spec_read o (stamp o (rs ++ (r ∷ more))) (low + length rs)) (sym same_start)
            ∙ ap (λ xs. spec_read low xs (low + length rs)) (stamp-append low rs (r ∷ more))
            ∙ spec_read-last low (stamp low rs) (record r { offset = low + length rs })
                (stamp (low + length rs + 1) more) (length rs) (length-stamp low rs),
      )

-- A restart: Close, NewLog over the directory that it leaves, and Raft, which without a snapshot
-- applies the entries that it has from the first one on.
unfoldable pub restart : Codec → RequestCodec → Config → Log → List (List ℕ) → Log
restart proto requests c l bs =
    (apply_all proto requests (and_then (Operations.close l) (λ _ l₁. new_log l₁.directory c)).0
      bs).0

module _ (proto : Codec) (requests : RequestCodec) (c : Config) (regular : IsRegular c) where
  -- Take a node whose index limit is a positive multiple of 12 below 12 times 2^32, which the default
  -- of 1024 is not, and whose store limit is positive and at most 2^62. Where it has applied the
  -- entries of one or more records, from an empty directory on, and restarts without a snapshot, with
  -- the entries of just these records in Raft's log, it has the records a second time: Read at the
  -- offset behind the last record returns the first one, with this offset, where before the restart
  -- it answers that the offset is out of range. Each record must marshal at every offset below 2^64 to
  -- less than 2^61 bytes, and the offsets must stay below 2^64 when each record is counted twice.
  pub read-restart :
      (r : Record) (rs : List Record) (bs : List (List ℕ)) (l : Log)
      → Replayed proto requests c (r ∷ rs) l
      → AreCommands proto requests (r ∷ rs) bs
      → All (λ x. Marshals proto c (append_record x)) (r ∷ rs)
      → c.initial_offset + length (r ∷ rs) + length (r ∷ rs) < 2 ^ 64
      → ((read proto l (c.initial_offset + length (r ∷ rs))).1
          ≡ err (out_of_range (c.initial_offset + length (r ∷ rs))))
        × ((read proto (restart proto requests c l bs) (c.initial_offset + length (r ∷ rs))).1
            ≡ ok (record r { offset = c.initial_offset + length (r ∷ rs) }))
  unfolding read restart
  read-restart r rs bs l h sent fit below =
      let low = c.initial_offset in
      let n = length (r ∷ rs) in
      let before = stamp low (r ∷ rs) in
      let count : length before ≡ n = length-stamp low (r ∷ rs) in
      let again =
        (reopen-Represents proto c regular
          (Replayed-Represents proto requests c regular h (omega arith))).1 in
      let state =
        (apply_all-Represents proto requests c low before _ (r ∷ rs) bs regular again sent fit
          (omega (arith, count))).0 in
      (
        read-Replayed proto requests c regular (low + n) h (omega arith)
            ∙ spec_read-past low before n count,
        (read-Represents proto c regular state (low + n)).0
            ∙ ap (λ xs. spec_read low xs (low + n))
                (numbered-stamp proto requests low before (r ∷ rs))
            ∙ ap (λ k. spec_read low (before ++ stamp (low + k) (r ∷ rs)) (low + n)) count
            ∙ spec_read-last low before (record r { offset = low + n }) (stamp (low + n + 1) rs) n
                count,
      )
