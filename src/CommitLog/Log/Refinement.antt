-- ===== src/CommitLog/Log/Refinement.antt =====
-- What a log is to its callers: a list of records, from the lowest offset on. Sessions of calls, on a
-- log and on such a list.
pub mod Steps
pub mod Sessions
pub mod Shortening
use distributed_systems_trai.Base.{
  ℕ, ◌+◌, ◌-◌, ◌*◌, ◌%◌, ◌^◌, ◌≤◌, ◌<◌, ◌≡◌, false, none, some, List, [], ◌∷◌, ◌++◌, ltb,
  if◌then◌else◌, length, out_of_range, Result, ok, err, and_then,
}
use distributed_systems_trai.Base.{get_elem?}
use distributed_systems_trai.CommitLog.Message.{Record, Codec}
use distributed_systems_trai.CommitLog.Segment
use distributed_systems_trai.CommitLog.Segment.{Segment, Config}
use distributed_systems_trai.CommitLog.Files.{Directory}
use distributed_systems_trai.CommitLog.Log.{Log, new_log}
use distributed_systems_trai.CommitLog.Log.Operations.{append, read, close}
use distributed_systems_trai.CommitLog.Log.Invariant.{running, IsSound}
use distributed_systems_trai.CommitLog.Log.Growth.{HoldsIn}
use distributed_systems_trai.CommitLog.Log.Durability.{IsStored}

-- A call on the log; `reopen` is Close, and NewLog over the directory that it leaves.
pub data Call : Type 0 where
  append_record : Record → Call
  read_record : ℕ → Call
  reopen : Call

pub data Answer : Type 0 where
  appended : Result ℕ → Answer
  found : Result Record → Answer
  opened : Result (Unit {0}) → Answer

-- The list of records as an implementation of the calls: no segments, no files.
unfoldable pub spec_read : ℕ → List Record → ℕ → Result Record
spec_read lowest rs off =
    if ltb off lowest
    then err (out_of_range off)
    else elim (get_elem? rs (off - lowest)) [ none ↦ err (out_of_range off) | some r ↦ ok r ]

unfoldable pub spec_one : ℕ → List Record → Call → List Record × Answer
unfolding spec_read
spec_one lowest rs (append_record r) =
    (rs ++ (record r { offset = lowest + length rs } ∷ []), appended (ok (lowest + length rs)))
spec_one lowest rs (read_record off) = (rs, found (spec_read lowest rs off))
spec_one lowest rs reopen = (rs, opened (ok tt))

unfoldable pub spec_run : ℕ → List Record → List Call → List Answer
spec_run lowest rs [] = []
spec_run lowest rs (k ∷ ks) = let (rs', a) = spec_one lowest rs k in a ∷ spec_run lowest rs' ks

-- A configuration whose index limit is a whole number of entries, with limits in range.
pub record IsRegular (c : Config) : Type 0 where
  pub positive : 0 < c.max_index_bytes
  pub whole : c.max_index_bytes % 12 ≡ 0
  pub small : c.max_index_bytes < 2 ^ 32 * 12
  pub store_positive : 0 < c.max_store_bytes
  pub store_small : c.max_store_bytes ≤ 2 ^ 62

module _ (proto : Codec) (c : Config) where
  unfoldable pub call : Log → Call → Log × Answer
  call l (append_record r) = let (l', a) = append proto l r in (l', appended a)
  call l (read_record off) = let (l', a) = read proto l off in (l', found a)
  call l reopen =
      let (l', a) = and_then (close l) (λ _ l₁. new_log l₁.directory c) in (l', opened a)

  unfoldable pub session : Log → List Call → List Answer
  session l [] = []
  session l (k ∷ ks) = let (l', a) = call l k in a ∷ session l' ks

  -- A message marshals at every offset of 64 bits, to less than 2^61 bytes.
  abbrev pub Marshals : Call → Type 0
  Marshals (append_record r) =
      (off : ℕ)
      → off < 2 ^ 64
      → (p : List ℕ) × (proto.to_bytes (record r { offset = off }) ≡ ok p) × (length p < 2 ^ 61)
  Marshals (read_record off) = Unit {0}
  Marshals reopen = Unit {0}

  -- The log stands for the list of records.
  pub record Represents (lowest : ℕ) (rs : List Record) (l : Log) : Type 0 where
    pub directory : Directory
    pub older : List Segment
    pub active : Segment
    pub is_running : l ≡ running c directory older active
    pub sound : IsSound lowest c directory older active
    pub files : IsStored c directory (older ++ (active ∷ []))
    pub unmaxed : Segment.is_maxed active ≡ false
    pub next : active.next_offset ≡ lowest + length rs
    pub contents :
        (i : ℕ) (r : Record)
        → get_elem? rs i ≡ some r
        → HoldsIn proto (older ++ (active ∷ [])) (lowest + i) r
