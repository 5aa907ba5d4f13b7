-- ===== src/CommitLog/Log/Truncation/Kept.antt =====
-- The directory that Truncate leaves.
use distributed_systems_trai.Base.{
  ℕ, ◌+◌, ◌^◌, ◌≤◌, ◌<◌, ◌≡◌, refl, ap, inl, inr, true, false, some, List, [], ◌∷◌, ◌++◌, arith,
  ltb, ltb→lt, ltb→ge, Bool-cases, All, ok,
}
use distributed_systems_trai.CommitLog.Segment.{Segment}
use distributed_systems_trai.CommitLog.Segment.Reopen.{closed_segment}
use distributed_systems_trai.CommitLog.Files
use distributed_systems_trai.CommitLog.Files.{File, Directory}
use distributed_systems_trai.CommitLog.Log.Operations.{Marked, kept, truncate_loop, removed}
use distributed_systems_trai.CommitLog.Log.Invariant.{Chain, done, link}
use distributed_systems_trai.CommitLog.Log.Stored.{Stored, none_stored, stored}
use distributed_systems_trai.CommitLog.Log.Truncation.{truncate_one-kept, truncate_one-dropped}

Stored-weaken :
    {room high : ℕ} {d : Directory} {ss : List Segment} (low : ℕ)
    → low ≤ high
    → Stored room high d ss
    → Stored room low d ss
Stored-weaken low le none_stored = none_stored
Stored-weaken low le (stored x y from fits rest) = stored x y (omega arith) fits rest

Stored-above :
    {room low : ℕ} {d : Directory} {ss : List Segment} (bound : ℕ)
    → bound < low
    → Stored room low d ss
    → All (λ e. bound < e.0.base) d
Stored-above bound above none_stored = tt
Stored-above bound above (stored x y from fits rest) =
    (omega arith, (omega arith, Stored-above bound (omega arith) rest))

delete-above : (f : File) (d : Directory) → All (λ e. f.base < e.0.base) d → Files.delete f d ≡ d
unfolding Files.delete Files.same_file
delete-above f [] h = refl
delete-above f ((g, old) ∷ d) h = ground (arith, h.0, delete-above f d h.1)

-- Removing the first segment removes its two files.
removed-first :
    (s : Segment) (x y : List ℕ) (d : Directory)
    → All (λ e. s.base_offset < e.0.base) d
    → removed
        (closed_segment s)
        (some ((Files.store_of s.base_offset, x) ∷ (Files.index_of s.base_offset, y) ∷ d))
      ≡ some d
unfolding removed Files.delete Files.same_file
removed-first s x y d above = ground (
  arith,
  delete-above (Files.store_of s.base_offset) d above,
  delete-above (Files.index_of s.base_offset) d above,
)

marked : List Segment → Marked
marked [] = []
marked (s ∷ ss) = (s, true) ∷ marked ss

kept-marked : (ss : List Segment) → kept (marked ss) ≡ ss
unfolding kept marked
kept-marked [] = refl
kept-marked (s ∷ ss) = ap (λ l. s ∷ l) (kept-marked ss)

-- Behind a segment that is kept, all are.
truncate_loop-none :
    {from : ℕ} {ss : List Segment} {upto : ℕ} (n : ℕ) (d : Directory)
    → n + 1 < 2 ^ 64
    → n + 1 < from
    → Chain from ss upto
    → truncate_loop n ss (some d) ≡ ((marked ss, some d), ok tt)
unfolding truncate_loop marked
truncate_loop-none n d small above done = refl
truncate_loop-none n d small above (link {s = s} h chain) =
    let higher : n + 1 < s.next_offset = omega (arith, h.counted) in
    ground (arith, truncate_one-kept n s small higher, truncate_loop-none n d small higher chain)

-- The loop of Truncate leaves the files of the segments that it keeps, and no others.
pub truncate_loop-Stored :
    {room low from : ℕ} {ss : List Segment} {upto : ℕ} (rest : List Segment) (n : ℕ) (d : Directory)
    → n + 1 < 2 ^ 64
    → Chain from ss upto
    → Stored room low d (ss ++ rest)
    → (ms : Marked) × (d' : Directory) × (truncate_loop n ss (some d) ≡ ((ms, some d'), ok tt))
      × Stored room low d' (kept ms ++ rest)
unfolding truncate_loop kept
truncate_loop-Stored rest n d small done h = ([], d, refl, h)
truncate_loop-Stored {low = low} rest n d small (link {s = s} {ss = ss} g chain)
      (stored {d = e} x y from fits more) =
    elim (Bool-cases (ltb (n + 1) s.next_offset)) [
      | inl keep ↦
          let above : n + 1 < s.next_offset = ltb→lt _ _ keep in
          (
            (s, true) ∷ marked ss,
            d,
            ground (
              arith,
              truncate_one-kept n s small above,
              truncate_loop-none n d small above chain,
            ),
            rw (kept-marked ss) (stored x y from fits more),
          )
      | inr past ↦
          let (ms, d', loops, files) = truncate_loop-Stored rest n e small chain more in
          (
            (closed_segment s, false) ∷ ms,
            d',
            ground (
              arith,
              truncate_one-dropped n s small (ltb→ge _ _ past) g,
              removed-first s x y e (Stored-above s.base_offset (omega arith) more),
              loops,
            ),
            Stored-weaken low (omega arith) files,
          )
    ]
