-- ===== src/Replicator/Copying.antt =====
-- replicate of internal/log/replicator/replicator.go between two nodes with logs of internal/log: the remote
-- one serves ConsumeStream, the local one Produce, both of internal/server/log.go.
use distributed_systems_trai.Base.{
  ℕ, ◌+◌, ◌^◌, ◌<◌, ◌≡◌, sym, ap, ◌∙◌, subst, List, [], ◌∷◌, ◌++◌, append_assoc, append-nil, arith,
  length, drop, replicate, All, length-append, take-append-drop,
}
use distributed_systems_trai.CommitLog.Message.{Record, Codec}
use distributed_systems_trai.CommitLog.Segment.{Config}
use distributed_systems_trai.CommitLog.Log.{Log}
use distributed_systems_trai.CommitLog.Log.Refinement.{
  append_record, IsRegular, Marshals, Represents,
}
use distributed_systems_trai.CommitLog.Log.Refinement.Steps.{append-Represents}
use distributed_systems_trai.Distributed.Fsm.History.{stamp}
use distributed_systems_trai.Server.{consume_stream, produce, of_log}
use distributed_systems_trai.Server.Streams.{round, consume_stream-Represents}
use distributed_systems_trai.Replicator.{produce_all}
use distributed_systems_trai.Replicator.Receiving.{
  held, Session, opened, Reached, Reached-produce_all,
}

module _ (proto : Codec) (c : Config) (regular : IsRegular c) where
  -- Producing records to a log that stands for others.
  produce_all-Represents :
      (lowest : ℕ) (before rs : List Record) (l : Log)
      → Represents proto c lowest before l
      → All (λ r. Marshals proto c (append_record r)) rs
      → lowest + length before + length rs < 2 ^ 64
      → Represents proto c lowest
          (before ++ stamp (lowest + length before) rs)
          (produce_all (produce (of_log proto)) l rs).0
  unfolding produce_all produce
  produce_all-Represents lowest before [] l g fit small =
      subst (λ xs. Represents proto c lowest xs l) (sym (append-nil before)) g
  produce_all-Represents lowest before (r ∷ rs) l g fit small =
      let new = record r { offset = lowest + length before } in
      let (answer, after) = append-Represents proto c regular g r fit.0 (omega arith) in
      let count : length (before ++ (new ∷ [])) ≡ length before + 1 =
        length-append before (new ∷ []) in
      let next : lowest + length (before ++ (new ∷ [])) ≡ lowest + length before + 1 =
        omega (arith, count) in
      let rest =
        produce_all-Represents lowest (before ++ (new ∷ [])) rs _ after fit.1
          (omega (arith, count)) in
      let same : (produce_all (produce (of_log proto)) l (r ∷ rs)).0
          ≡ (produce_all (produce (of_log proto)) (produce (of_log proto) l r).0 rs).0 =
        ground (arith, answer) in
      let records : (before ++ (new ∷ [])) ++ stamp (lowest + length (before ++ (new ∷ []))) rs
          ≡ before ++ stamp (lowest + length before) (r ∷ rs) =
        append_assoc before (new ∷ []) _ ∙ ap (λ o. before ++ (new ∷ stamp o rs)) next in
      subst (λ l'. Represents proto c lowest (before ++ stamp (lowest + length before) (r ∷ rs)) l')
        (sym same)
        (subst
          (λ xs.
            Represents proto c lowest xs
              (produce_all (produce (of_log proto)) (produce (of_log proto) l r).0 rs).0)
          records rest)

  All-prefix :
      (xs ys : List Record)
      → All (λ r. Marshals proto c (append_record r)) (xs ++ ys)
      → All (λ r. Marshals proto c (append_record r)) xs
  All-prefix [] ys h = tt
  All-prefix (x ∷ xs) ys h = (h.0, All-prefix xs ys h.1)

  module _ (c' : Config) (regular' : IsRegular c') where
    -- Take two logs whose index limits are positive multiples of 12 below 12 times 2^32, which the
    -- default of 1024 is not, and whose store limits are positive and at most 2^62. Where the remote
    -- one starts at offset 0, stands for records and is not changed, its ConsumeStream has gone
    -- through any number of rounds, each Send with success, and the local one is changed by replicate
    -- only, replicate leaves the local log, in whatever order it and its goroutine take their steps,
    -- with what it stood for and behind it the first records of the remote log, in order, each once,
    -- with the offsets of the local log. Every record must marshal at every offset below 2^64 to less
    -- than 2^61 bytes, and the offsets of both logs must stay below 2^64.
    pub Reached-Represents :
        (n lowest : ℕ) (rs before : List Record) (remote l : Log)
        {s : Session (produce (of_log proto))}
        → Represents proto c' 0 rs remote
        → length rs < 2 ^ 64
        → Represents proto c lowest before l
        → All (λ r. Marshals proto c (append_record r)) rs
        → lowest + length before + length rs < 2 ^ 64
        → Reached
            (produce (of_log proto))
            (opened
              (produce (of_log proto))
              l
              (consume_stream (of_log proto) remote 0 (replicate n (round proto c' regular'))).1)
            s
        → (taken : List Record) × (rest : List Record) × (rs ≡ taken ++ rest)
          × Represents proto c lowest (before ++ stamp (lowest + length before) taken) s.local
    Reached-Represents n lowest rs before remote l {s = s} there short here fit small reached =
        let sent =
          consume_stream-Represents proto c' regular' n 0 0 rs remote there
            (omega (arith, short)) in
        let (taken, state, split, _, _) =
          Reached-produce_all (produce (of_log proto)) l
            (consume_stream (of_log proto) remote 0 (replicate n (round proto c' regular'))).1
            reached in
        let left = s.buffer ++ (held s.in_hand ++ s.incoming) in
        let whole : rs ≡ taken ++ (left ++ drop n rs) =
          sym (take-append-drop n rs)
          ∙ ap (λ xs. xs ++ drop n rs) (sym sent ∙ split)
          ∙ append_assoc taken left (drop n rs) in
        let count : length rs ≡ length taken + length (left ++ drop n rs) =
          ap length whole ∙ length-append taken (left ++ drop n rs) in
        let fits =
          All-prefix taken (left ++ drop n rs)
            (subst (All (λ r. Marshals proto c (append_record r))) whole fit) in
        (
          taken,
          left ++ drop n rs,
          whole,
          subst (Represents proto c lowest (before ++ stamp (lowest + length before) taken))
              (sym state)
              (produce_all-Represents lowest before taken l here fits (omega (arith, count))),
        )
