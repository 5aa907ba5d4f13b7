-- ===== src/CommitLog/Log/Durability.antt =====
-- Close and NewLog over the directory that it leaves, and what Append does to that directory.
use distributed_systems_trai.Base.{
  ℕ, ◌≤◌, ◌<◌, ◌≡◌, refl, ap, ◌∙◌, subst, inl, inr, List, [], ◌∷◌, ◌++◌, arith, length, All, ok,
  Bool-cases, Option-cases,
}
use distributed_systems_trai.CommitLog.Message.{Record, Codec}
use distributed_systems_trai.CommitLog.Index.Reopening as IndexReopening
use distributed_systems_trai.CommitLog.Segment.{Segment, Config}
use distributed_systems_trai.CommitLog.Segment.Reads.{IsHealthy, HasRoom}
use distributed_systems_trai.CommitLog.Segment.Reopen.{
  reopened, reopened-IsHealthy, Holds-reopened, read-reopened,
}
use distributed_systems_trai.CommitLog.Files.{File, Directory}
use distributed_systems_trai.CommitLog.Log.{segments, new_log}
use distributed_systems_trai.CommitLog.Log.Operations.{close, read, append, read_loop, covers}
use distributed_systems_trai.CommitLog.Log.Invariant.{Chain, done, link, running, IsUsable, IsSound}
use distributed_systems_trai.CommitLog.Log.Growth
use distributed_systems_trai.CommitLog.Log.Growth.{HoldsIn}
use distributed_systems_trai.CommitLog.Log.Reader.Whole.{bytes_of}
use distributed_systems_trai.CommitLog.Store.Frames.{frame}
use distributed_systems_trai.CommitLog.Log.Stored.{
  Stored, none_stored, stored, lookup_below, Stored-split, All-snoc,
}
use distributed_systems_trai.CommitLog.Log.Reopening.{
  closed_files, closed_files-AllBelow, close-closed_log, opened_again, new_log-reopened,
}

-- The directory has the files of the log's segments and no other, and the index limit is one that
-- the segments keep to.
abbrev pub IsStored : Config → Directory → List Segment → Type 0
IsStored c = Stored c.max_index_bytes 0

pub Chain-IsHealthy :
    {from : ℕ} {ss : List Segment} {upto : ℕ} → Chain from ss upto → All IsHealthy ss
Chain-IsHealthy done = tt
Chain-IsHealthy (link h chain) = (h, Chain-IsHealthy chain)

pub Stored-fits :
    {room low : ℕ} {d : Directory} {ss : List Segment}
    → Stored room low d ss
    → All (λ s. s.index.size ≤ room) ss
Stored-fits none_stored = tt
Stored-fits (stored x y from fits rest) = (fits, Stored-fits rest)

module _ (c : Config) (u : IsUsable c) where
  Chain-reopened :
      {from : ℕ} {ss : List Segment} {upto : ℕ}
      → Chain from ss upto
      → All (λ s. s.index.size ≤ c.max_index_bytes) ss
      → Chain from (opened_again c u ss) upto
  Chain-reopened done fits = done
  Chain-reopened (link {s = s} h chain) fits =
      link (reopened-IsHealthy s c h fits.0 u.small) (Chain-reopened chain fits.1)

  pub Stored-reopened :
      {low : ℕ} {d : Directory} {ss : List Segment}
      → Stored c.max_index_bytes low d ss
      → Stored c.max_index_bytes low (closed_files ss) (opened_again c u ss)
  Stored-reopened none_stored = none_stored
  Stored-reopened {ss = s ∷ ss} (stored x y from fits rest) =
      stored _ _ from (omega (arith, IndexReopening.length-resize s.index.size s.index.mmap))
        (Stored-reopened rest)

  pub HoldsIn-reopened :
      (proto : Codec) (ss : List Segment) (off : ℕ) (r : Record)
      → All IsHealthy ss
      → All (λ s. s.index.size ≤ c.max_index_bytes) ss
      → HoldsIn proto ss off r
      → HoldsIn proto (opened_again c u ss) off r
  HoldsIn-reopened proto [] off r h fits g = g
  HoldsIn-reopened proto (s ∷ ss) off r h fits (inl g) =
      inl (Holds-reopened proto s c off r h.0 fits.0 g)
  HoldsIn-reopened proto (s ∷ ss) off r h fits (inr g) =
      inr (HoldsIn-reopened proto ss off r h.1 fits.1 g)

  read_loop-reopened :
      (proto : Codec) (ss : List Segment) (off : ℕ)
      → All IsHealthy ss
      → All (λ s. s.index.size ≤ c.max_index_bytes) ss
      → (read_loop proto (opened_again c u ss) off).1 ≡ (read_loop proto ss off).1
  unfolding read_loop
  read_loop-reopened proto [] off h fits = refl
  read_loop-reopened proto (s ∷ ss) off h fits = elim (Bool-cases (covers s off)) [
    | inl here ↦
        ground (arith, read-reopened proto s c off h.0 fits.0 u.small (ground arith) (ground arith))
    | inr past ↦ ground (arith, read_loop-reopened proto ss off h.1 fits.1)
  ]

  pub opened_again-snoc :
      (ss : List Segment) (s : Segment)
      → opened_again c u (ss ++ (s ∷ [])) ≡ opened_again c u ss ++ (reopened s c ∷ [])
  opened_again-snoc [] s = refl
  opened_again-snoc (t ∷ ss) s = ap (λ l. reopened t c ∷ l) (opened_again-snoc ss s)

All-init {ℓ κ} :
    {A : Type ℓ} (P : A → Type κ) (xs : List A) (a : A) → All P (xs ++ (a ∷ [])) → All P xs × P a
All-init P [] a h = (tt, h.0)
All-init P (x ∷ xs) a h = let (g, last) = All-init P xs a h.1 in ((h.0, g), last)

module _ (lowest : ℕ) (c : Config) (d : Directory) (older : List Segment) (s : Segment)
    (h : IsSound lowest c d older s) (files : IsStored c d (older ++ (s ∷ []))) where
  pub IsHealthy-All : All IsHealthy (older ++ (s ∷ []))
  IsHealthy-All = All-snoc IsHealthy older s (Chain-IsHealthy h.chain) h.healthy

  pub reopened-IsSound :
      IsSound lowest c
        (closed_files (older ++ (s ∷ [])))
        (opened_again c h.usable older)
        (reopened s c)
  reopened-IsSound =
      let (fits, last) =
        All-init (λ t. t.index.size ≤ c.max_index_bytes) older s (Stored-fits files) in
      record {
        usable = h.usable;
        chain = Chain-reopened c h.usable h.chain fits;
        healthy = reopened-IsHealthy s c h.healthy last h.usable.small;
        configured = refl;
        index_room = IndexReopening.length-resize c.max_index_bytes _;
        fresh = λ f above.
            lookup_below f (closed_files (older ++ (s ∷ [])))
              (closed_files-AllBelow f.base (older ++ (s ∷ [])) (all_below f above));
      }
    where
      all_below :
          (f : File)
          → s.base_offset < f.base
          → All (λ t. t.base_offset < f.base) (older ++ (s ∷ []))
      all_below f above =
          let (d', x, y, same, init, below, from, last) = Stored-split older s files in
          All-snoc (λ t. t.base_offset < f.base) older s (weaken f above older below) above
        where
          weaken :
              (f : File)
              → s.base_offset < f.base
              → (us : List Segment) → All (λ t. t.base_offset < s.base_offset) us
              → All (λ t. t.base_offset < f.base) us
          weaken f above [] g = tt
          weaken f above (t ∷ us) g = (omega (arith, g.0), weaken f above us g.1)

read-reopened_log :
    (proto : Codec) (c : Config) (u : IsUsable c) (d d' : Directory) (older : List Segment)
    (s : Segment) (off : ℕ)
    → All IsHealthy older × IsHealthy s
    → All (λ t. t.index.size ≤ c.max_index_bytes) older × (s.index.size ≤ c.max_index_bytes)
    → (read proto (running c d' (opened_again c u older) (reopened s c)) off).1
      ≡ (read proto (running c d older s) off).1
unfolding read
read-reopened_log proto c u d d' older s off h fits =
    let earlier = read_loop-reopened c u proto older off h.0 fits.0 in
    elim (Option-cases (read_loop proto older off).1) [
      | inr (x, hit) ↦ ground (arith, earlier, hit)
      | inl miss ↦ elim (Bool-cases (covers s off)) [
        | inl here ↦ ground (
          arith,
          earlier,
          miss,
          read-reopened proto s c off h.1 fits.1 u.small (ground arith) (ground arith),
        )
        | inr past ↦ ground (arith, earlier, miss, past)
      ]
    ]

-- Take a sound log, empty or not, whose directory has just its segments' files, and a configuration
-- with a positive store limit. Close succeeds. NewLog over the directory that Close leaves, with the
-- same configuration, gives a sound log with the same lowest and next offsets, whose directory again
-- has just its files, and whose Read answers at every offset as Read of the log that was closed did,
-- errors included.
pub read-reopen_log :
    (proto : Codec) (lowest : ℕ) (c : Config) (d : Directory) (older : List Segment) (s : Segment)
    → IsSound lowest c d older s
    → IsStored c d (older ++ (s ∷ []))
    → 0 < c.max_store_bytes
    → ((close (running c d older s)).1 ≡ ok tt)
      × ((d' : Directory) × (older' : List Segment) × (s' : Segment) × (new_log
              (close (running c d older s)).0.directory
              c
            ≡ (running c d' older' s', ok tt))
          × IsSound lowest c d' older' s'
          × IsStored c d' (older' ++ (s' ∷ []))
          × (s'.next_offset ≡ s.next_offset)
          × ((off : ℕ)
              → (read proto (running c d' older' s') off).1
                ≡ (read proto (running c d older s) off).1))
read-reopen_log proto lowest c d older s h files positive =
    let u = h.usable in
    let healthy = IsHealthy-All lowest c d older s h files in
    rw (close-closed_log c d older s (Chain-IsHealthy h.chain) h.healthy files) (
      refl,
      (
        closed_files (older ++ (s ∷ [])),
        opened_again c u older,
        reopened s c,
        new_log-reopened c u older s healthy files positive,
        reopened-IsSound lowest c d older s h files,
        subst (IsStored c (closed_files (older ++ (s ∷ [])))) (opened_again-snoc c u older s)
            (Stored-reopened c u files),
        refl,
        λ off.
            read-reopened_log proto c u d (closed_files (older ++ (s ∷ []))) older s off
              (Chain-IsHealthy h.chain, h.healthy)
              (All-init (λ t. t.index.size ≤ c.max_index_bytes) older s (Stored-fits files)),
      ),
    )

-- Take a sound log whose directory has just its segments' files, and a message that marshals at the
-- next offset, with room for it in the active segment: an entry of the index, a store that stays below
-- 2^63 bytes, and an offset below 2^64 - 1. Append leaves a sound log with the same lowest offset, whose
-- directory again has just its segments' files, those of a segment that it opens included.
pub append-IsStored :
    (proto : Codec) (lowest : ℕ) (c : Config) (d : Directory) (older : List Segment) (s : Segment)
    (message : Record) (p : List ℕ)
    → IsSound lowest c d older s
    → IsStored c d (older ++ (s ∷ []))
    → proto.to_bytes (record message { offset = s.next_offset }) ≡ ok p
    → HasRoom s (length p)
    → (d' : Directory) × (older' : List Segment) × (s' : Segment) × ((append proto
          (running c d older s)
          message).0
        ≡ running c d' older' s')
      × IsSound lowest c d' older' s'
      × IsStored c d' (older' ++ (s' ∷ []))
append-IsStored proto lowest c d older s message p h files encoded room =
    let (t, e, g) = Growth.append-Grown proto lowest c d older s message p h encoded room in
    (g.directory, g.older', g.active', ap (λ x. x.0) e ∙ g.is_running, g.sound, g.keeps_files files)

-- Take a sound log and a message that marshals at the next offset, with room for it in the active
-- segment: an entry of the index, a store that stays below 2^63 bytes, and an offset below 2^64 - 1.
-- After Append the stores of the segments, one after the other, hold what they held before, what was
-- buffered included, and then the frame of the marshalled message: its length in eight bytes, and it.
pub bytes_of-append :
    (proto : Codec) (lowest : ℕ) (c : Config) (d : Directory) (older : List Segment) (s : Segment)
    (message : Record) (p : List ℕ)
    → IsSound lowest c d older s
    → proto.to_bytes (record message { offset = s.next_offset }) ≡ ok p
    → HasRoom s (length p)
    → bytes_of (segments (append proto (running c d older s) message).0)
      ≡ bytes_of (segments (running c d older s)) ++ frame p
bytes_of-append proto lowest c d older s message p h encoded room =
    let (t, e, g) = Growth.append-Grown proto lowest c d older s message p h encoded room in
    ap (λ x. bytes_of (segments x.0)) e
    ∙ ap (λ x. bytes_of (segments x)) g.is_running
    ∙ g.grown_bytes
