-- ===== src/CommitLog/Log/Truncation.antt =====
-- Truncate on a sound log.
pub mod Kept
pub mod Emptied
use distributed_systems_trai.Base.{
  ℕ, ◌+◌, ◌^◌, ◌≤◌, ◌<◌, ◌≡◌, refl, subst, ◌⊎◌, inl, inr, true, false, none, some, List, [], ◌∷◌,
  ◌++◌, arith, ltb, ltb→lt, ltb→ge, Bool-cases, drop, ok, All,
}
use distributed_systems_trai.CommitLog.Message.{Record, Codec}
use distributed_systems_trai.CommitLog.Segment.{Segment, Config}
use distributed_systems_trai.CommitLog.Segment.Reads.{IsHealthy}
use distributed_systems_trai.CommitLog.Segment.Reopen.{closed_segment, close-closed_segment}
use distributed_systems_trai.CommitLog.Files
use distributed_systems_trai.CommitLog.Files.{File, Directory}
use distributed_systems_trai.CommitLog.Log.Operations.{
  Marked, kept, truncate_one, truncate_loop, truncate, removed, read,
}
use distributed_systems_trai.CommitLog.Log.Invariant.{Chain, done, link, running, IsSound}
use distributed_systems_trai.CommitLog.Log.Growth
use distributed_systems_trai.CommitLog.Log.Growth.{HoldsIn}
use distributed_systems_trai.CommitLog.Log.Lookup

pub truncate_one-kept :
    (n : ℕ) (s : Segment) → n + 1 < 2 ^ 64 → n + 1 < s.next_offset → truncate_one n s ≡ (s, ok true)
unfolding truncate_one
truncate_one-kept n s small above = ground arith

pub truncate_one-dropped :
    (n : ℕ) (s : Segment)
    → n + 1 < 2 ^ 64
    → s.next_offset ≤ n + 1
    → IsHealthy s
    → truncate_one n s ≡ (closed_segment s, ok false)
unfolding truncate_one
truncate_one-dropped n s small below h = ground (arith, close-closed_segment s h)

pub removed-some :
    (s : Segment) (d : Directory)
    → (d' : Directory) × (removed s (some d) ≡ some d')
      × ((f : File) → Files.lookup f d ≡ none → Files.lookup f d' ≡ none)
unfolding removed
removed-some s d =
    let d₁ = Files.delete (Files.index_of s.base_offset) d in
    (
      Files.delete (Files.store_of s.base_offset) d₁,
      refl,
      λ f e. ground (
        arith,
        Files.lookup-delete (Files.store_of s.base_offset) f d₁,
        Files.lookup-delete (Files.index_of s.base_offset) f d,
      ),
    )

module _ (proto : Codec) where
  -- What the loop leaves of the segments that hold the offsets from `from`.
  pub record Truncated (n from : ℕ) (ss : List Segment) (upto : ℕ) (d : Directory) : Type 0 where
    pub marks : Marked
    pub directory : Directory
    pub start : ℕ
    pub loops : truncate_loop n ss (some d) ≡ ((marks, some directory), ok tt)
    pub chain : Chain start (kept marks) upto
    pub bounds : (start ≡ from) ⊎ ((from ≤ start) × (start ≤ n + 1))
    pub absent : (f : File) → Files.lookup f d ≡ none → Files.lookup f directory ≡ none
    pub keeps :
        (off : ℕ) (r : Record)
        → start ≤ off
        → HoldsIn proto ss off r
        → HoldsIn proto (kept marks) off r
    pub above : All (λ s. n + 1 < s.next_offset) (kept marks)

  pub truncate_loop-Truncated :
      {from : ℕ} {ss : List Segment} {upto : ℕ} (n : ℕ) (d : Directory)
      → n + 1 < 2 ^ 64
      → Chain from ss upto
      → Truncated n from ss upto d
  unfolding truncate_loop kept
  truncate_loop-Truncated n d small done = record {
    marks = [];
    directory = d;
    start = _;
    loops = refl;
    chain = done;
    bounds = inl refl;
    absent = λ f e. e;
    keeps = λ off r above h. h;
    above = tt;
  }
  truncate_loop-Truncated n d small (link {s = s} {ss = ss} {upto = upto} h chain) =
      elim (Bool-cases (ltb (n + 1) s.next_offset)) [
        | inl keep ↦
            let t = truncate_loop-Truncated n d small chain in
            let stays : t.start ≡ s.next_offset = ground (arith, t.bounds) in
            record {
              marks = (s, true) ∷ t.marks;
              directory = t.directory;
              start = s.base_offset;
              loops = ground (arith, truncate_one-kept n s small (ltb→lt _ _ keep), t.loops);
              chain = link h (subst (λ m. Chain m (kept t.marks) upto) stays t.chain);
              bounds = inl refl;
              absent = t.absent;
              keeps = λ off r above g. elim g [
                | inl here ↦ inl here
                | inr later ↦ inr (
                    t.keeps off r
                      (omega (arith, stays, Lookup.HoldsIn-range proto off r chain later)) later)
              ];
              above = (ltb→lt _ _ keep, t.above);
            }
        | inr drop ↦
            let (d₁, e₁, absent₁) = removed-some (closed_segment s) d in
            let t = truncate_loop-Truncated n d₁ small chain in
            record {
              marks = (closed_segment s, false) ∷ t.marks;
              directory = t.directory;
              start = t.start;
              loops =
                  ground (arith, truncate_one-dropped n s small (ltb→ge _ _ drop) h, e₁, t.loops);
              chain = t.chain;
              bounds = inr (omega (arith, t.bounds, ltb→ge _ _ drop, h.counted));
              absent = λ f e. t.absent f (absent₁ f e);
              keeps = λ off r above g. elim g [
                | inl here ↦ absurd (omega (arith, here.before, t.bounds))
                | inr later ↦ t.keeps off r above later
              ];
              above = t.above;
            }
      ]

  module _ (lowest : ℕ) (c : Config) (d : Directory) (older : List Segment) (s : Segment) (n : ℕ)
      (h : IsSound lowest c d older s) (small : n + 1 < 2 ^ 64) where
    -- Truncate below the active segment's last offset.
    pub truncate-Truncated :
        n + 1 < s.next_offset
        → (t : Truncated n lowest older s.base_offset d) × (truncate (running c d older s) n
            ≡ (running c t.directory (kept t.marks) s, ok tt))
          × IsSound t.start c t.directory (kept t.marks) s
    unfolding truncate
    truncate-Truncated above =
        let t = truncate_loop-Truncated n d small h.chain in
        (
          t,
          ground (arith, t.loops, truncate_one-kept n s small above),
          record {
            usable = h.usable;
            chain = t.chain;
            healthy = h.healthy;
            configured = h.configured;
            index_room = h.index_room;
            fresh = λ f higher. t.absent f (h.fresh f higher);
          },
        )

    pub Truncated-keeps :
        (t : Truncated n lowest older s.base_offset d) (off : ℕ) (r : Record)
        → t.start ≤ off
        → HoldsIn proto (older ++ (s ∷ [])) off r
        → HoldsIn proto (kept t.marks ++ (s ∷ [])) off r
    Truncated-keeps t off r from held =
        elim (Growth.HoldsIn-cases proto older (s ∷ []) off r held) [
          | inl before ↦
              Growth.HoldsIn-left proto (kept t.marks) (s ∷ []) off r (t.keeps off r from before)
          | inr here ↦ Growth.HoldsIn-right proto (kept t.marks) (s ∷ []) off r here
        ]

    -- Truncating a sound log below its active segment's last offset succeeds and leaves a sound log
    -- with the same active segment, that starts at most one after the given offset and not before
    -- the old start; every record above that offset is read as before.
    pub read-truncate :
        (off : ℕ) (r : Record)
        → n + 1 < s.next_offset
        → n < off
        → (read proto (running c d older s) off).1 ≡ ok r
        → (d' : Directory) × (older' : List Segment) × (lowest' : ℕ) × (truncate
              (running c d older s)
              n
            ≡ (running c d' older' s, ok tt))
          × IsSound lowest' c d' older' s
          × (lowest ≤ lowest')
          × ((lowest' ≡ lowest) ⊎ (lowest' ≤ n + 1))
          × ((read proto (running c d' older' s) off).1 ≡ ok r)
    read-truncate off r above after e =
        let (t, truncates, sound) = truncate-Truncated above in
        let held = Lookup.read-HoldsIn proto lowest c d older s h off r e in
        let (from, before) = HoldsIn-offsets off r held in
        (
          t.directory,
          kept t.marks,
          t.start,
          truncates,
          sound,
          omega (arith, t.bounds),
          (ground (arith, t.bounds)),
          Lookup.HoldsIn-read proto t.start c t.directory (kept t.marks) s sound off r
              (Truncated-keeps t off r (omega (arith, t.bounds)) held),
        )
      where
        HoldsIn-offsets :
            (off : ℕ) (r : Record)
            → HoldsIn proto (older ++ (s ∷ [])) off r
            → (lowest ≤ off) × (off < s.next_offset)
        HoldsIn-offsets off r held =
            Lookup.HoldsIn-range proto off r (Growth.Chain-snoc s h.chain refl h.healthy) held
