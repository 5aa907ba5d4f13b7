-- ===== src/CommitLog/Log/Refinement/Sessions.antt =====
-- Sessions of calls on a log.
use distributed_systems_trai.Base.{
  ℕ, ◌+◌, ◌^◌, ◌≤◌, ◌<◌, ◌≡◌, refl, ap, ◌∙◌, subst, some, List, [], ◌∷◌, arith, length, All,
  length-append, ok,
}
use distributed_systems_trai.CommitLog.Message.{Record, Codec}
use distributed_systems_trai.CommitLog.Segment.{Config}
use distributed_systems_trai.CommitLog.Log.{Log, new_log, with_default}
use distributed_systems_trai.CommitLog.Log.Invariant.{
  running, IsUsable, IsSound, with_files, fresh_segment, fresh_segment-unmaxed,
}
use distributed_systems_trai.CommitLog.Log.Opening.{new_log-empty, completed}
use distributed_systems_trai.CommitLog.Log.Stored.{none_stored, Stored-with_files}
use distributed_systems_trai.CommitLog.Log.Refinement.{
  Call, append_record, read_record, reopen, spec_one, spec_run, IsRegular, call, session, Marshals,
  Represents,
}
use distributed_systems_trai.CommitLog.Log.Refinement.Steps.{call-Represents}

length-spec_one :
    (lowest : ℕ) (rs : List Record) (k : Call) → length (spec_one lowest rs k).0 ≤ length rs + 1
unfolding spec_one
length-spec_one lowest rs (append_record r) =
    omega (arith, length-append rs (record r { offset = lowest + length rs } ∷ []))
length-spec_one lowest rs (read_record off) = omega arith
length-spec_one lowest rs reopen = omega arith

kept_limit : (n : ℕ) → 0 < n → with_default n ≡ n
unfolding with_default
kept_limit n h = ground arith

completed_regular : (c : Config) → IsRegular c → completed c ≡ c
completed_regular c r =
    ap (λ n. record c { max_index_bytes = n; max_store_bytes = with_default c.max_store_bytes })
      (kept_limit c.max_index_bytes r.positive)
    ∙ ap (λ n. record c { max_store_bytes = n }) (kept_limit c.max_store_bytes r.store_positive)

module _ (proto : Codec) (c : Config) (regular : IsRegular c) where
  Represents-session :
      (lowest : ℕ) (rs : List Record) (l : Log) (ks : List Call)
      → Represents proto c lowest rs l
      → All (Marshals proto c) ks
      → lowest + length rs + length ks < 2 ^ 64
      → session proto c l ks ≡ spec_run lowest rs ks
  unfolding session spec_run
  Represents-session lowest rs l [] g marshals below = refl
  Represents-session lowest rs l (k ∷ ks) g marshals below =
      let (answer, state) = call-Represents proto c regular g k marshals.0 (omega arith) in
      let more = length-spec_one lowest rs k in
      ap (λ a. a ∷ session proto c (call proto c l k).0 ks) answer
      ∙ ap (λ as'. (spec_one lowest rs k).1 ∷ as')
          (Represents-session lowest (spec_one lowest rs k).0 (call proto c l k).0 ks state
            marshals.1 (omega (arith, more)))

  pub new_log-Represents :
      c.initial_offset < 2 ^ 64 → Represents proto c c.initial_offset [] (new_log (some []) c).0
  new_log-Represents small =
      let off = c.initial_offset in
      let first = fresh_segment off c in
      let u : IsUsable c = record { positive = regular.positive; small = regular.small } in
      let (made, sound) =
        subst
          (λ k.
            (new_log (some []) c ≡ (running k (with_files off []) [] (fresh_segment off k), ok tt))
            × IsSound off k (with_files off []) [] (fresh_segment off k))
          (completed_regular c regular) (new_log-empty c regular.small small) in
      record {
        directory = with_files off [];
        older = [];
        active = first;
        is_running = ap (λ x. x.0) made;
        sound = sound;
        files = Stored-with_files first none_stored tt (omega arith) (omega arith);
        unmaxed = fresh_segment-unmaxed off c u regular.store_positive;
        next = omega arith;
        contents = λ i r at_i. cc at_i;
      }

  -- A session of calls of Append, of Read, and of Close with NewLog over the directory it leaves, on a
  -- log that NewLog has made of an empty directory, gives just the answers that a list of records
  -- gives from the initial offset on. The index limit must be a multiple of 12 below 12 times 2^32,
  -- the store limit at most 2^62, neither of them 0; every message must marshal to less than 2^61
  -- bytes, and the offsets must stay below 2^64.
  pub session-spec_run :
      (ks : List Call)
      → All (Marshals proto c) ks
      → c.initial_offset + length ks < 2 ^ 64
      → session proto c (new_log (some []) c).0 ks ≡ spec_run c.initial_offset [] ks
  session-spec_run ks marshals below =
      Represents-session c.initial_offset [] (new_log (some []) c).0 ks
        (new_log-Represents (omega arith)) marshals (omega arith)
